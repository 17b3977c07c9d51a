-- ===== src/Core/ClauseStore/Laws.antt =====
-- Every clause of the store carries its own number, and a property of all clauses is kept.
use native.Mathlib.Nat.{mod-eq_of_lt}
use richard_atp_engine.Prelude.{
  has_room, ◌++◌, ◌%◌, ℕ, ◌<◌, ◌≡◌, refl, ap, ⊎_elim, [], ◌∷◌, some, arith, length, get_elem?,
  get_elem?-append, get_elem?-append_last, get_elem?-append_cases, Machine, Post, Post-if, returns,
  fails, leb, false, Returns, Returns-of_Post, ◌∙◌, sym,
}
use richard_atp_engine.Core.Types.{Clause, uint32_mod}
use richard_atp_engine.Core.ClauseStore.{ClauseStore, add_clause}

-- Each clause is at the place that its number says.
abbrev pub IsNumbered : ClauseStore → Type 0
IsNumbered s = (i : ℕ) (c : Clause) → get_elem? s i ≡ some c → c.id ≡ i

-- What `add_clause` promises.
pub record Added (c : Clause) (s : ClauseStore) (r : ℕ × ClauseStore) : Type 0 where
  pub is_last : r.0 ≡ length s
  pub store : r.1 ≡ s ++ record c { id = length s } ∷ []
  pub at : get_elem? r.1 r.0 ≡ some (record c { id = r.0 })
  pub keeps : (i : ℕ) (d : Clause) → get_elem? s i ≡ some d → get_elem? r.1 i ≡ some d
  pub numbered : IsNumbered s → IsNumbered r.1

-- Under a capacity below 2³², a clause that is added gets the next number as its own, stands
-- there, and moves no other clause.
pub add_clause-Added :
    (m : Machine) (c : Clause) (s : ClauseStore)
    → m.capacity < uint32_mod
    → Post (Added c s) (add_clause m c s)
unfolding add_clause
add_clause-Added m c s cap =
    Post-if (leb m.capacity (length s)) (λ _. fails)
      λ room. rw (mod-eq_of_lt (in_range room)) (
        returns (record {
          is_last = refl;
          store = refl;
          at = get_elem?-append_last s numbered;
          keeps = λ i d h. get_elem?-append s (numbered ∷ []) i d h;
          numbered = λ ok i d h.
              ⊎_elim (ok i d) (λ (at, e). ap (λ (x : Clause). x.id) e ∙ sym at)
                (get_elem?-append_cases s numbered i d h);
        }))
  where
    numbered : Clause
    numbered = record c { id = length s }

    in_range : leb m.capacity (length s) ≡ false → length s < uint32_mod
    in_range h = ground arith

-- With room for one more clause, under a capacity below 2³², `addClause` returns the next number:
-- the clause stands there and carries that number, no other clause moves, and a numbered store
-- stays numbered.
pub add_clause-Returns :
    (m : Machine) (c : Clause) (s : ClauseStore)
    → m.capacity < uint32_mod
    → length s < m.capacity
    → Returns (Added c s) (add_clause m c s)
unfolding add_clause
add_clause-Returns m c s cap room =
    Returns-of_Post added (rw (has_room m.capacity (length s) room)) (add_clause-Added m c s cap)
  where
    id : ℕ
    id = length s % uint32_mod

    added : ℕ × ClauseStore
    added = (id, s ++ record c { id = id } ∷ [])
