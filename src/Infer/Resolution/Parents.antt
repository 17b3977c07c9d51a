-- ===== src/Infer/Resolution/Parents.antt =====
-- Every clause that an inference makes names its parents.
use richard_atp_engine.Prelude.{
  ℕ, suc, ◌≡◌, refl, List, [], ◌∷◌, Option, none, some, get_elem?, erase_idx, not, All, All-append,
  length, ◌==◌, Machine, Post, Post-bind, Post-if, Post-self, returns, expect_some,
}
use richard_atp_engine.Core.Types.{Literal, Clause, same_polarity, invalid_id}
use richard_atp_engine.Core.TermBank.{TermBank}
use richard_atp_engine.Infer.Unification.{UnificationConfig, unify}
use richard_atp_engine.Infer.Renaming.{
  Engine, apply_literals, rename_variables, bind_fresh, collect_each, collect_variables,
}
use richard_atp_engine.Infer.Resolution.{
  push_some, resolve_renamed, resolve_clauses, resolvents_at, resolvents_from, all_resolvents,
  factor_pair, factors_at, factors_from, factor,
}

-- The clause was made from the clauses with these numbers.
abbrev pub HasParents : ℕ → ℕ → Clause → Type 0
HasParents i j c = (c.parent1 ≡ i) × (c.parent2 ≡ j)

abbrev OptionHas : ℕ → ℕ → Option Clause → Type 0
OptionHas i j none = Unit
OptionHas i j (some c) = HasParents i j c

push_some-All :
    (i j : ℕ) (r : Option Clause) (rs : List Clause)
    → OptionHas i j r
    → All (HasParents i j) rs
    → All (HasParents i j) (push_some r rs)
push_some-All i j none rs h k = k
push_some-All i j (some c) rs h k = (h, k)

module _ (m : Machine) where
  rename_variables-id :
      (c : Clause) (e : Engine) → Post (λ (c', e'). c'.id ≡ c.id) (rename_variables m c e)
  unfolding rename_variables
  rename_variables-id c e =
      Post-bind
        (Post-self
          (collect_each (λ (l : Literal). collect_variables m.fuel e.bank l.atom) c.literals []))
        λ vars _.
          Post-if (length vars == 0) (λ _. returns refl)
            λ _. Post-bind (Post-self (bind_fresh m (m.iteration vars) [] e)) λ (s, e₁) _.
              Post-bind (Post-self (apply_literals m s c.literals e₁.bank))
                λ (ls, b) _. returns refl

  module _ (config : UnificationConfig) where
    resolve_renamed-Has :
        (c1 : Clause) (i : ℕ) (l1 : Literal) (c2r : Clause) (j : ℕ) (e : Engine)
        → Post (λ (r, e'). OptionHas c1.id c2r.id r) (resolve_renamed m config c1 i l1 c2r j e)
    unfolding resolve_renamed
    resolve_renamed-Has c1 i l1 c2r j e =
        Post-bind (Post-self (expect_some (get_elem? c2r.literals j))) λ l2 _.
          Post-bind (Post-self (unify m config e.bank m.fuel l1.atom l2.atom [])) λ (ok, s) _.
            Post-if ok
              (λ _.
                Post-bind (Post-self (apply_literals m s (erase_idx c1.literals i) e.bank))
                  λ (ls1, b₁) _.
                    Post-bind (Post-self (apply_literals m s (erase_idx c2r.literals j) b₁))
                      λ (ls2, b₂) _. returns (refl, refl))
              (λ _. returns tt)

    resolve_clauses-Has :
        (c1 : Clause) (i : ℕ) (c2 : Clause) (j : ℕ) (e : Engine)
        → Post (λ (r, e'). OptionHas c1.id c2.id r) (resolve_clauses m config c1 i c2 j e)
    unfolding resolve_clauses
    resolve_clauses-Has c1 i c2 j e =
        Post-bind (Post-self (expect_some (get_elem? c1.literals i))) λ l1 _.
          Post-bind (Post-self (expect_some (get_elem? c2.literals j))) λ l2 _.
            Post-if (same_polarity l1.is_positive l2.is_positive) (λ _. returns tt)
              λ _.
                Post-bind (rename_variables-id c2 e)
                  λ (c2r, e₁) same. rw (← same) (resolve_renamed-Has c1 i l1 c2r j e₁)

    resolvents_at-Has :
        (c1 : Clause) (i : ℕ) (l1 : Literal) (c2 : Clause) (ls : List Literal) (j : ℕ) (e : Engine)
        → Post
            (λ (rs, e'). All (HasParents c1.id c2.id) rs)
            (resolvents_at m config c1 i l1 c2 ls j e)
    unfolding resolvents_at
    resolvents_at-Has c1 i l1 c2 [] j e = returns tt
    resolvents_at-Has c1 i l1 c2 (l2 ∷ ls) j e =
        Post-if (not (same_polarity l1.is_positive l2.is_positive))
          (λ _. Post-bind (resolve_clauses-Has c1 i c2 j e) λ (r, e₁) has.
            Post-bind (resolvents_at-Has c1 i l1 c2 ls (suc j) e₁)
              λ (rs, e₂) all. returns (push_some-All c1.id c2.id r rs has all))
          (λ _. resolvents_at-Has c1 i l1 c2 ls (suc j) e)

    resolvents_from-Has :
        (c1 c2 : Clause) (ls : List Literal) (i : ℕ) (e : Engine)
        → Post (λ (rs, e'). All (HasParents c1.id c2.id) rs) (resolvents_from m config c1 c2 ls i e)
    unfolding resolvents_from
    resolvents_from-Has c1 c2 [] i e = returns tt
    resolvents_from-Has c1 c2 (l1 ∷ ls) i e =
        Post-bind (resolvents_at-Has c1 i l1 c2 c2.literals 0 e) λ (rs, e₁) one.
          Post-bind (resolvents_from-Has c1 c2 ls (suc i) e₁)
            λ (more, e₂) rest. returns (All-append _ rs more one rest)

    -- Each resolvent names the two clauses, in the order in which they were given.
    pub all_resolvents-Has :
        (c1 c2 : Clause) (e : Engine)
        → Post (λ (rs, e'). All (HasParents c1.id c2.id) rs) (all_resolvents m config c1 c2 e)
    unfolding all_resolvents
    all_resolvents-Has c1 c2 e = resolvents_from-Has c1 c2 c1.literals 0 e

    factor_pair-Has :
        (c : Clause) (li lj : Literal) (j : ℕ) (b : TermBank)
        → Post (λ (r, b'). OptionHas c.id invalid_id r) (factor_pair m config c li lj j b)
    unfolding factor_pair
    factor_pair-Has c li lj j b =
        Post-bind (Post-self (unify m config b m.fuel li.atom lj.atom [])) λ (ok, s) _.
          Post-if ok
            (λ _.
              Post-bind (Post-self (apply_literals m s (erase_idx c.literals j) b))
                λ (ls, b₁) _. returns (refl, refl))
            (λ _. returns tt)

    factors_at-Has :
        (c : Clause) (li : Literal) (ls : List Literal) (j : ℕ) (b : TermBank)
        → Post (λ (rs, b'). All (HasParents c.id invalid_id) rs) (factors_at m config c li ls j b)
    unfolding factors_at
    factors_at-Has c li [] j b = returns tt
    factors_at-Has c li (lj ∷ ls) j b =
        Post-if (not (same_polarity li.is_positive lj.is_positive))
          (λ _. factors_at-Has c li ls (suc j) b)
          (λ _. Post-bind (factor_pair-Has c li lj j b) λ (r, b₁) has.
            Post-bind (factors_at-Has c li ls (suc j) b₁)
              λ (rs, b₂) all. returns (push_some-All c.id invalid_id r rs has all))

    factors_from-Has :
        (c : Clause) (ls : List Literal) (i : ℕ) (b : TermBank)
        → Post (λ (rs, b'). All (HasParents c.id invalid_id) rs) (factors_from m config c ls i b)
    unfolding factors_from
    factors_from-Has c [] i b = returns tt
    factors_from-Has c (li ∷ ls) i b = Post-bind (factors_at-Has c li ls (suc i) b) λ (rs, b₁) one.
        Post-bind (factors_from-Has c ls (suc i) b₁)
          λ (more, b₂) rest. returns (All-append _ rs more one rest)

    -- Each factor names the clause as its one parent.
    pub factor-Has :
        (c : Clause) (b : TermBank)
        → Post (λ (rs, b'). All (HasParents c.id invalid_id) rs) (factor m config c b)
    unfolding factor
    factor-Has c b = factors_from-Has c c.literals 0 b
