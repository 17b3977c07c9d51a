-- ===== src/Infer/Resolution/Sound.antt =====
-- All resolvents of two clauses follow from them, if the occurs check is on.
use richard_atp_engine.Prelude.{
  ℕ, suc, ◌≡◌, ◌<◌, refl, true, false, not, none, some, Option, List, [], ◌∷◌, All, All-append,
  All-get_elem?, All-map_pred, Permᴰ, get_elem?, Machine, Post, Post-bind, Post-map, Post-if,
  Post-expect_some, returns,
}
use richard_atp_engine.Core.Types.{Literal, Clause, same_polarity, uint32_mod}
use richard_atp_engine.Core.TermBank.Laws.{Extends, Extends-refl, Extends-trans}
use richard_atp_engine.Semantics.{Structure}
use richard_atp_engine.Infer.Unification.{UnificationConfig}
use richard_atp_engine.Infer.Renaming.{Engine}
use richard_atp_engine.Infer.Renaming.Fresh.{IsSound}
use richard_atp_engine.Infer.Renaming.Sound.{rename_variables-Renamed}
use richard_atp_engine.Infer.Resolution.{
  resolve_renamed, resolve_clauses, push_some, resolvents_at, resolvents_from, all_resolvents,
}
use richard_atp_engine.Infer.Resolution.Resolvent.{
  get_elem?-signs, FollowsFrom, FollowsFrom-Extends, SoundOption, Inferred, unify_atoms,
  resolvent-Inferred,
}

-- What a loop over inferences promises: every clause that it collects follows.
pub record InferredAll (M : Structure) (e : Engine) (r : List Clause × Engine) : Type 0 where
  pub sound : IsSound r.1
  pub extends : Extends e.bank r.1.bank
  pub conclusions : All (λ (c : Clause). FollowsFrom M r.1 c.literals) r.0

pub All-FollowsFrom :
    (M : Structure) (e e' : Engine) (cs : List Clause)
    → IsSound e
    → Extends e.bank e'.bank
    → All (λ (c : Clause). FollowsFrom M e c.literals) cs
    → All (λ (c : Clause). FollowsFrom M e' c.literals) cs
All-FollowsFrom M e e' cs ok x =
    All-map_pred cs (λ (c : Clause) f. FollowsFrom-Extends M e e' c.literals ok x f)

pub push_some-All :
    (M : Structure) (e : Engine) (r : Option Clause) (cs : List Clause)
    → SoundOption M e r
    → All (λ (c : Clause). FollowsFrom M e c.literals) cs
    → All (λ (c : Clause). FollowsFrom M e c.literals) (push_some r cs)
push_some-All M e none cs h hs = hs
push_some-All M e (some c) cs h hs = (h, hs)

pub SoundOption-Extends :
    (M : Structure) (e e' : Engine) (r : Option Clause)
    → IsSound e
    → Extends e.bank e'.bank
    → SoundOption M e r
    → SoundOption M e' r
SoundOption-Extends M e e' none ok x h = tt
SoundOption-Extends M e e' (some c) ok x h = FollowsFrom-Extends M e e' c.literals ok x h

module _ (M : Structure) (m : Machine) (cap : m.capacity < uint32_mod)
    (walks : (xs : List ℕ) → Permᴰ xs (m.iteration xs)) (config : UnificationConfig)
    (on : config.enable_occurs_check ≡ true) where
  nothing-Inferred : (e : Engine) → IsSound e → Inferred M e (none, e)
  nothing-Inferred e ok = record { sound = ok; extends = Extends-refl e.bank; conclusion = tt }

  resolve_renamed-Inferred :
      (c1 : Clause) (i : ℕ) (l1 : Literal) (c2r : Clause) (j : ℕ) (e : Engine)
      → IsSound e
      → FollowsFrom M e c1.literals
      → FollowsFrom M e c2r.literals
      → get_elem? c1.literals i ≡ some l1
      → ((l2 : Literal)
          → get_elem? c2r.literals j ≡ some l2
          → same_polarity l1.is_positive l2.is_positive ≡ false)
      → Post (Inferred M e) (resolve_renamed m config c1 i l1 c2r j e)
  unfolding resolve_renamed
  resolve_renamed-Inferred c1 i l1 c2r j e ok f1 f2 at1 opposite =
      Post-bind (Post-expect_some (λ l2 at2. at2)) λ l2 at2.
        Post-bind
          (unify_atoms M m cap config on e.bank ok.bank l1.atom l2.atom
            (All-get_elem? _ c1.literals i l1 f1.inside at1)
            (All-get_elem? _ c2r.literals j l2 f2.inside at2))
          λ (unified, s) unifier.
            Post-if unified
              (λ good.
                let (x, equal) = unifier good in
                resolvent-Inferred M m cap config on c1.literals c2r.literals i j l1 l2 e ok f1 f2
                  at1 at2 (opposite l2 at2) s x equal _ (λ ks ls. refl))
              (λ _. returns (nothing-Inferred e ok))

  -- With the occurs check on, a capacity below 2³², hash maps walked in the order of some
  -- permutation and a well-formed engine: a clause that `resolve` returns is valid in every
  -- structure in which both parents are, its atoms are terms of the bank, and the bank stays
  -- well-formed.
  pub resolve_clauses-Inferred :
      (c1 : Clause) (i : ℕ) (c2 : Clause) (j : ℕ) (e : Engine)
      → IsSound e
      → FollowsFrom M e c1.literals
      → FollowsFrom M e c2.literals
      → Post (Inferred M e) (resolve_clauses m config c1 i c2 j e)
  unfolding resolve_clauses
  resolve_clauses-Inferred c1 i c2 j e ok f1 f2 =
      Post-bind (Post-expect_some (λ l1 at1. at1)) λ l1 at1.
        Post-bind (Post-expect_some (λ l2 at2. at2)) λ l2 at2.
          Post-if (same_polarity l1.is_positive l2.is_positive)
            (λ _. returns (nothing-Inferred e ok))
            λ opposite.
              Post-bind (rename_variables-Renamed m cap walks c2 e ok f2.inside)
                λ (c2r, e₁) renamed.
                  Post-map
                    (resolve_renamed-Inferred c1 i l1 c2r j e₁ renamed.sound
                      (FollowsFrom-Extends M e e₁ c1.literals ok renamed.extends f1)
                      (record { inside = renamed.inside; valid = renamed.valid M f2.valid }) at1
                      (λ l2r at2r.
                        rw
                          (get_elem?-signs c2r.literals c2.literals j l2r l2 renamed.signs at2r at2)
                          opposite))
                    λ r inferred. record {
                      sound = inferred.sound;
                      extends = Extends-trans renamed.extends inferred.extends;
                      conclusion = inferred.conclusion;
                    }

  resolvents_at-Inferred :
      (c1 : Clause) (i : ℕ) (l1 : Literal) (c2 : Clause) (ls : List Literal) (j : ℕ) (e : Engine)
      → IsSound e
      → FollowsFrom M e c1.literals
      → FollowsFrom M e c2.literals
      → Post (InferredAll M e) (resolvents_at m config c1 i l1 c2 ls j e)
  unfolding resolvents_at
  resolvents_at-Inferred c1 i l1 c2 [] j e ok f1 f2 =
      returns (record { sound = ok; extends = Extends-refl e.bank; conclusions = tt })
  resolvents_at-Inferred c1 i l1 c2 (l2 ∷ ls) j e ok f1 f2 =
      Post-if (not (same_polarity l1.is_positive l2.is_positive))
        (λ _. Post-bind (resolve_clauses-Inferred c1 i c2 j e ok f1 f2) λ (r, e₁) first.
          Post-bind
            (resolvents_at-Inferred c1 i l1 c2 ls (suc j) e₁ first.sound
              (FollowsFrom-Extends M e e₁ c1.literals ok first.extends f1)
              (FollowsFrom-Extends M e e₁ c2.literals ok first.extends f2))
            λ (rs, e₂) rest. returns (record {
              sound = rest.sound;
              extends = Extends-trans first.extends rest.extends;
              conclusions =
                  push_some-All M e₂ r rs
                    (SoundOption-Extends M e₁ e₂ r first.sound rest.extends first.conclusion)
                    rest.conclusions;
            }))
        (λ _. resolvents_at-Inferred c1 i l1 c2 ls (suc j) e ok f1 f2)

  resolvents_from-Inferred :
      (c1 c2 : Clause) (ls : List Literal) (i : ℕ) (e : Engine)
      → IsSound e
      → FollowsFrom M e c1.literals
      → FollowsFrom M e c2.literals
      → Post (InferredAll M e) (resolvents_from m config c1 c2 ls i e)
  unfolding resolvents_from
  resolvents_from-Inferred c1 c2 [] i e ok f1 f2 =
      returns (record { sound = ok; extends = Extends-refl e.bank; conclusions = tt })
  resolvents_from-Inferred c1 c2 (l1 ∷ ls) i e ok f1 f2 =
      Post-bind (resolvents_at-Inferred c1 i l1 c2 c2.literals 0 e ok f1 f2) λ (rs, e₁) first.
        Post-bind
          (resolvents_from-Inferred c1 c2 ls (suc i) e₁ first.sound
            (FollowsFrom-Extends M e e₁ c1.literals ok first.extends f1)
            (FollowsFrom-Extends M e e₁ c2.literals ok first.extends f2))
          λ (more, e₂) rest. returns (record {
            sound = rest.sound;
            extends = Extends-trans first.extends rest.extends;
            conclusions =
                All-append _ rs more
                  (All-FollowsFrom M e₁ e₂ rs first.sound rest.extends first.conclusions)
                  rest.conclusions;
          })

  -- With the occurs check on, a capacity below 2³², hash maps walked in the order of some
  -- permutation and a well-formed engine: every clause that `allResolvents` returns when it
  -- returns is over the bank and valid in every structure in which both parents are.
  pub all_resolvents-Inferred :
      (c1 c2 : Clause) (e : Engine)
      → IsSound e
      → FollowsFrom M e c1.literals
      → FollowsFrom M e c2.literals
      → Post (InferredAll M e) (all_resolvents m config c1 c2 e)
  unfolding all_resolvents
  all_resolvents-Inferred c1 c2 e = resolvents_from-Inferred c1 c2 c1.literals 0 e
