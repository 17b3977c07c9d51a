-- ===== src/Search/Prover/Ancestry.antt =====
-- The parents of each clause of the store stand before it, whatever the prover does.
use richard_atp_engine.Prelude.{
  ℕ, ◌+◌, ◌≤◌, ◌<◌, ◌≡◌, refl, sym, ap, subst, ◌∙◌, ◌⊎◌, inl, inr, ⊎_elim, false, List, [], ◌∷◌,
  ◌++◌, some, All, All-append, All-map_pred, length, length-append_one, get_elem?, get_elem?-lt,
  get_elem?-append_cases, leb, arith, Machine, Post, Post-bind, Post-map, Post-if, Post-done,
  Post-with_eq, Post-expect_some, returns, fails,
}
use richard_atp_engine.Core.Types.{Clause, invalid_id, uint32_mod}
use richard_atp_engine.Core.ClauseStore.{ClauseStore, add_clause}
use richard_atp_engine.Core.ClauseStore.Laws.{IsNumbered, add_clause-Added}
use richard_atp_engine.Infer.Renaming.{Engine}
use richard_atp_engine.Infer.Resolution.Parents.{HasParents, all_resolvents-Has, factor-Has}
use richard_atp_engine.Search.Prover.{
  ProverConfig, Clauses, unification, generate_each, generate_new_clauses,
}
use richard_atp_engine.Search.Prover.Invariant.{IsStored}

-- Each parent is none, or a number below `n`.
abbrev pub IsBelow : ℕ → Clause → Type 0
IsBelow n c =
    ((c.parent1 ≡ invalid_id) ⊎ (c.parent1 < n)) × ((c.parent2 ≡ invalid_id) ⊎ (c.parent2 < n))

-- The clauses of the store carry their places, and their parents stand before them.
pub record IsRooted (m : Machine) (s : ClauseStore) : Type 0 where
  pub numbered : IsNumbered s
  pub below : (i : ℕ) (c : Clause) → get_elem? s i ≡ some c → IsBelow i c
  pub bounded : length s ≤ m.capacity

IsBelow-le : (n k : ℕ) (c : Clause) → n ≤ k → IsBelow n c → IsBelow k c
IsBelow-le n k c h (p, q) =
    (⊎_elim (λ e. inl e) (λ l. inr (omega arith)) p, ⊎_elim (λ e. inl e) (λ l. inr (omega arith)) q)

pub AllBelow-le : (n k : ℕ) (cs : List Clause) → n ≤ k → All (IsBelow n) cs → All (IsBelow k) cs
AllBelow-le n k cs h = All-map_pred cs (λ c. IsBelow-le n k c h)

-- A clause made from clauses of the store.
IsBelow-HasParents :
    (n i j : ℕ) (c : Clause) → i < n → (j ≡ invalid_id) ⊎ (j < n) → HasParents i j c → IsBelow n c
IsBelow-HasParents n i j c hi hj (p, q) = (
  subst (λ k. (k ≡ invalid_id) ⊎ (k < n)) (sym p) (inr hi),
  subst (λ k. (k ≡ invalid_id) ⊎ (k < n)) (sym q) hj,
)

-- What adding such a clause keeps.
pub record AddedRooted (m : Machine) (c : Clause) (s : ClauseStore) (r : ℕ × ClauseStore)
    : Type 0 where
  pub rooted : IsRooted m r.1
  pub longer : length r.1 ≡ length s + 1
  pub inside : r.0 < length r.1
  pub at : get_elem? r.1 r.0 ≡ some (record c { id = r.0 })
  pub keeps : (d : Clause) → IsStored s d → IsStored r.1 d

module _ (m : Machine) (cap : m.capacity < uint32_mod) where
  add_clause_bounded :
      (c : Clause) (s : ClauseStore) → Post (λ r. length r.1 ≤ m.capacity) (add_clause m c s)
  unfolding add_clause
  add_clause_bounded c s =
      Post-if (leb m.capacity (length s)) (λ _. fails) λ room. returns (bound _ room)
    where
      bound : (x : Clause) → leb m.capacity (length s) ≡ false → length (s ++ x ∷ []) ≤ m.capacity
      bound x room = ground (arith, length-append_one s x)

  pub add_clause-AddedRooted :
      (c : Clause) (s : ClauseStore)
      → IsRooted m s
      → IsBelow (length s) c
      → Post (AddedRooted m c s) (add_clause m c s)
  add_clause-AddedRooted c s root b =
      Post-map (Post-with_eq (add_clause-Added m c s cap)) λ r (run, added).
        let new : Clause = record c { id = length s } in
        record {
          rooted = record {
            numbered = added.numbered root.numbered;
            below = λ i d at.
                ⊎_elim (root.below i d)
                  (λ (last, e).
                    subst (λ k. IsBelow k d) (sym last) (subst (IsBelow (length s)) (sym e) b))
                  (get_elem?-append_cases s new i d
                    (subst (λ t. get_elem? t i ≡ some d) added.store at));
            bounded = Post-done (add_clause_bounded c s) run;
          };
          longer = ap length added.store ∙ length-append_one s new;
          inside = get_elem?-lt r.1 r.0 _ added.at;
          at = added.at;
          keeps = λ d h. added.keeps d.id d h;
        }

  module _ (config : ProverConfig) where
    generate_each-IsBelow :
        (s : ClauseStore) (given : Clause) (is : List ℕ) (e : Engine)
        → IsRooted m s
        → given.id < length s
        → Post (λ (rs, e'). All (IsBelow (length s)) rs) (generate_each m config s given is e)
    unfolding generate_each
    generate_each-IsBelow s given [] e root g = returns tt
    generate_each-IsBelow s given (i ∷ is) e root g =
        Post-bind (Post-expect_some (λ (pc : Clause) at. at)) λ pc at.
          let inside : pc.id < length s =
            subst (λ k. k < length s) (sym (root.numbered i pc at)) (get_elem?-lt s i pc at) in
          Post-bind (all_resolvents-Has m (unification m config) given pc e) λ (rs₁, e₁) one.
            Post-bind (all_resolvents-Has m (unification m config) pc given e₁) λ (rs₂, e₂) two.
              Post-bind (generate_each-IsBelow s given is e₂ root g) λ (rest, e₃) more. returns (
                All-append _ rs₁ (rs₂ ++ rest)
                  (All-map_pred rs₁
                    (λ c. IsBelow-HasParents (length s) given.id pc.id c g (inr inside)) one)
                  (All-append _ rs₂ rest
                    (All-map_pred rs₂
                      (λ c. IsBelow-HasParents (length s) pc.id given.id c inside (inr g)) two)
                    more))

    -- The parents of new clauses are clauses of the store.
    pub generate_new_clauses-IsBelow :
        (s : Clauses) (given : Clause) (e : Engine)
        → IsRooted m s.store
        → given.id < length s.store
        → Post
            (λ (rs, e'). All (IsBelow (length s.store)) rs)
            (generate_new_clauses m config s given e)
    unfolding generate_new_clauses
    generate_new_clauses-IsBelow s given e root g =
        Post-bind (generate_each-IsBelow s.store given s.processed e root g) λ (rs, e₁) resolvents.
          Post-bind (factor-Has m (unification m config) given e₁.bank) λ (fs, b) factors. returns (
            All-append _ rs fs resolvents (
              All-map_pred fs
                (λ c. IsBelow-HasParents (length s.store) given.id invalid_id c g (inl refl))
                factors))
