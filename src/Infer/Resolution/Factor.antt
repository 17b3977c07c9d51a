-- ===== src/Infer/Resolution/Factor.antt =====
-- All factors of a clause follow from it, if the occurs check is on.
use richard_atp_engine.Prelude.{
  ℕ, suc, ◌≡◌, ◌<◌, ◌+◌, refl, sym, ap, ◌∙◌, ⊎_elim, arith, true, false, not, some, List, [], ◌∷◌,
  All-append, All-get_elem?, All-erase_idx, Any, Any-erase_idx, Any-of_get_elem?, Bool, get_elem?,
  get_elem?-erase_idx_lt, erase_idx, Machine, Post, Post-bind, Post-if, returns, subst,
}
use richard_atp_engine.Core.Types.{Literal, Clause, same_polarity, uint32_mod}
use richard_atp_engine.Core.SymbolTable.Laws.{IsValid}
use richard_atp_engine.Core.TermBank.{TermBank}
use richard_atp_engine.Core.TermBank.Laws.{Extends-refl, Extends-trans}
use richard_atp_engine.Semantics.{Structure, value, Holds}
use richard_atp_engine.Infer.Substitution.{Substitution}
use richard_atp_engine.Infer.Substitution.Resolve.{Solves}
use richard_atp_engine.Infer.Unification.{UnificationConfig}
use richard_atp_engine.Infer.Unification.Bind.{Extended}
use richard_atp_engine.Infer.Renaming.{Engine}
use richard_atp_engine.Infer.Renaming.Fresh.{IsSound}
use richard_atp_engine.Infer.Renaming.Sound.{apply_literals-Applied}
use richard_atp_engine.Infer.Resolution.{factor_pair, factors_at, factors_from, factor}
use richard_atp_engine.Infer.Resolution.Resolvent.{
  FollowsFrom, FollowsFrom-Extends, Inferred, unify_atoms, solution-Follows,
}
use richard_atp_engine.Infer.Resolution.Sound.{
  InferredAll, All-FollowsFrom, push_some-All, SoundOption-Extends,
}

-- The literals that a loop has still to visit are those of the clause from a place on.
abbrev IsRest : List Literal → List Literal → ℕ → Type 0
IsRest all ls j = (k : ℕ) (l : Literal) → get_elem? ls k ≡ some l → get_elem? all (j + k) ≡ some l

IsRest-tail :
    (all : List Literal) (l : Literal) (ls : List Literal) (j : ℕ)
    → IsRest all (l ∷ ls) j
    → IsRest all ls (suc j)
IsRest-tail all l ls j h k x e = subst (λ n. get_elem? all n ≡ some x) (omega arith) (h (suc k) x e)

IsRest-head :
    (all : List Literal) (l : Literal) (ls : List Literal) (j : ℕ)
    → IsRest all (l ∷ ls) j
    → get_elem? all j ≡ some l
IsRest-head all l ls j h = subst (λ n. get_elem? all n ≡ some l) (omega arith) (h 0 l refl)

same_signs : (t p q : Bool) → not (same_polarity p q) ≡ false → t ≡ q → t ≡ p
same_signs t p q h e = ground arith

-- The state that only factoring's bank is part of.
abbrev with_bank : Engine → TermBank → Engine
with_bank e b = record e { bank = b }

module _ (M : Structure) (m : Machine) (cap : m.capacity < uint32_mod) (config : UnificationConfig)
    (on : config.enable_occurs_check ≡ true) (n : ℕ) where
  -- Factoring does not look at the counter of variables.
  abbrev at_bank : TermBank → Engine
  at_bank b = record { bank = b; var_counter = n }

  module _ (c : Clause) (li lj : Literal) (i j : ℕ) (b : TermBank) (ok : IsSound (at_bank b))
      (f : FollowsFrom M (at_bank b) c.literals) (i_lt_j : i < j)
      (ati : get_elem? c.literals i ≡ some li) (atj : get_elem? c.literals j ≡ some lj)
      (signs : not (same_polarity li.is_positive lj.is_positive) ≡ false) where
    -- If the literal that is dropped holds, so does the one that it was unified with.
    other-Holds :
        (s : Substitution) (x : Extended M b [] s)
        → ((v : ℕ → M.Carrier) → Solves M b s v → value M b v li.atom ≡ value M b v lj.atom)
        → (v : ℕ → M.Carrier) → Any (Holds M b (x.solution.extend v)) (erase_idx c.literals j)
    other-Holds s x equal v =
        let e = x.solution.extend v in
        ⊎_elim
          (λ dropped.
            Any-of_get_elem? (Holds M b e) (erase_idx c.literals j) i li
              (get_elem?-erase_idx_lt c.literals i j i_lt_j ∙ ati)
              (same_signs _ li.is_positive lj.is_positive signs
                (ap M.truth (equal e (x.solution.solves v)) ∙ dropped)))
          (λ stays. stays) (Any-erase_idx (Holds M b e) c.literals j lj atj (f.valid e))

    factor_pair-Inferred :
        Post (λ (r, b'). Inferred M (at_bank b) (r, at_bank b')) (factor_pair m config c li lj j b)
    unfolding factor_pair
    factor_pair-Inferred =
        let w = ok.bank in
        Post-bind
          (unify_atoms M m cap config on b w li.atom lj.atom
            (All-get_elem? _ c.literals i li f.inside ati)
            (All-get_elem? _ c.literals j lj f.inside atj))
          λ (unified, s) unifier.
            Post-if unified
              (λ good.
                let (x, equal) = unifier good in
                Post-bind
                  (apply_literals-Applied m cap s b w x.in_range (erase_idx c.literals j) b
                    (record { well_formed = w; extends = Extends-refl b; same_symbols = refl })
                    (All-erase_idx _ c.literals j f.inside))
                  λ (ls, b₁) applied. returns (record {
                    sound = record {
                      bank = applied.reached.well_formed;
                      table = subst IsValid (sym applied.reached.same_symbols) ok.table;
                    };
                    extends = applied.extends;
                    conclusion = record {
                      inside = applied.inside;
                      valid = λ v.
                          applied.holds M v (x.solution.extend v)
                            (solution-Follows m M s b w x.in_range x.solution v)
                            (other-Holds s x equal v);
                    };
                  }))
              (λ _. returns (record { sound = ok; extends = Extends-refl b; conclusion = tt }))

  factors_at-Inferred :
      (c : Clause) (li : Literal) (i : ℕ)
      → get_elem? c.literals i ≡ some li
      → (ls : List Literal) (j : ℕ) (b : TermBank) → IsSound (at_bank b)
      → FollowsFrom M (at_bank b) c.literals
      → i < j
      → IsRest c.literals ls j
      → Post
          (λ (r, b'). InferredAll M (at_bank b) (r, at_bank b'))
          (factors_at m config c li ls j b)
  unfolding factors_at
  factors_at-Inferred c li i ati [] j b ok f lt rest =
      returns (record { sound = ok; extends = Extends-refl b; conclusions = tt })
  factors_at-Inferred c li i ati (lj ∷ ls) j b ok f lt rest =
      Post-if (not (same_polarity li.is_positive lj.is_positive))
        (λ _.
          factors_at-Inferred c li i ati ls (suc j) b ok f (omega arith)
            (IsRest-tail c.literals lj ls j rest))
        λ signs.
          Post-bind
            (factor_pair-Inferred c li lj i j b ok f lt ati (IsRest-head c.literals lj ls j rest)
              signs)
            λ (r, b₁) first.
              Post-bind
                (factors_at-Inferred c li i ati ls (suc j) b₁ first.sound
                  (FollowsFrom-Extends M (at_bank b) (at_bank b₁) c.literals ok first.extends f)
                  (omega arith) (IsRest-tail c.literals lj ls j rest))
                λ (rs, b₂) more. returns (record {
                  sound = more.sound;
                  extends = Extends-trans first.extends more.extends;
                  conclusions =
                      push_some-All M (at_bank b₂) r rs
                        (SoundOption-Extends M (at_bank b₁) (at_bank b₂) r first.sound more.extends
                          first.conclusion)
                        more.conclusions;
                })

  factors_from-Inferred :
      (c : Clause) (ls : List Literal) (i : ℕ) (b : TermBank)
      → IsSound (at_bank b)
      → FollowsFrom M (at_bank b) c.literals
      → IsRest c.literals ls i
      → Post (λ (r, b'). InferredAll M (at_bank b) (r, at_bank b')) (factors_from m config c ls i b)
  unfolding factors_from
  factors_from-Inferred c [] i b ok f rest =
      returns (record { sound = ok; extends = Extends-refl b; conclusions = tt })
  factors_from-Inferred c (li ∷ ls) i b ok f rest =
      let tail = IsRest-tail c.literals li ls i rest in
      Post-bind
        (factors_at-Inferred c li i (IsRest-head c.literals li ls i rest) ls (suc i) b ok f
          (omega arith) tail)
        λ (rs, b₁) first.
          Post-bind
            (factors_from-Inferred c ls (suc i) b₁ first.sound
              (FollowsFrom-Extends M (at_bank b) (at_bank b₁) c.literals ok first.extends f) tail)
            λ (more, b₂) later. returns (record {
              sound = later.sound;
              extends = Extends-trans first.extends later.extends;
              conclusions =
                  All-append _ rs more
                    (All-FollowsFrom M (at_bank b₁) (at_bank b₂) rs first.sound later.extends
                      first.conclusions)
                    later.conclusions;
            })

  -- With the occurs check on, a capacity below 2³² and a well-formed engine: every clause that
  -- `factor` returns when it returns is over the bank and valid in every structure in which the
  -- clause is.
  pub factor-Inferred :
      (c : Clause) (b : TermBank)
      → IsSound (at_bank b)
      → FollowsFrom M (at_bank b) c.literals
      → Post (λ (r, b'). InferredAll M (at_bank b) (r, at_bank b')) (factor m config c b)
  unfolding factor
  factor-Inferred c b ok f =
      factors_from-Inferred c c.literals 0 b ok f
        (λ k l e. subst (λ n. get_elem? c.literals n ≡ some l) (omega arith) e)
