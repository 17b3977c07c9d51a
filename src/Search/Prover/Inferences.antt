-- ===== src/Search/Prover/Inferences.antt =====
-- Every clause that a round generates follows from the store, if the occurs check is on.
use richard_atp_engine.Prelude.{
  ℕ, ◌≡◌, ◌<◌, ◌++◌, true, List, [], ◌∷◌, All, All-append, All-get_elem?, Permᴰ, Machine, Post,
  Post-bind, Post-expect_some, returns,
}
use richard_atp_engine.Core.Types.{Clause, uint32_mod}
use richard_atp_engine.Core.ClauseStore.{ClauseStore}
use richard_atp_engine.Core.TermBank.Laws.{Extends-refl, Extends-trans}
use richard_atp_engine.Semantics.{Structure}
use richard_atp_engine.Infer.Renaming.{Engine}
use richard_atp_engine.Infer.Renaming.Fresh.{IsSound}
use richard_atp_engine.Infer.Resolution.Resolvent.{FollowsFrom, FollowsFrom-Extends}
use richard_atp_engine.Infer.Resolution.Sound.{
  InferredAll, All-FollowsFrom, all_resolvents-Inferred,
}
use richard_atp_engine.Infer.Resolution.Factor.{factor-Inferred}
use richard_atp_engine.Search.Prover.{
  ProverConfig, Clauses, unification, generate_each, generate_new_clauses,
}

-- Every clause of the list is valid in the structure and has its atoms in the bank.
abbrev pub AllFollow : Structure → Engine → List Clause → Type 0
AllFollow M e = All (λ (c : Clause). FollowsFrom M e c.literals)

module _ (M : Structure) (m : Machine) (cap : m.capacity < uint32_mod)
    (walks : (xs : List ℕ) → Permᴰ xs (m.iteration xs)) (config : ProverConfig)
    (on : config.enable_occurs_check ≡ true) where
  generate_each-Inferred :
      (s : ClauseStore) (given : Clause) (is : List ℕ) (e : Engine)
      → IsSound e
      → AllFollow M e s
      → FollowsFrom M e given.literals
      → Post (InferredAll M e) (generate_each m config s given is e)
  unfolding generate_each
  generate_each-Inferred s given [] e ok h f =
      returns (record { sound = ok; extends = Extends-refl e.bank; conclusions = tt })
  generate_each-Inferred s given (i ∷ is) e ok h f =
      Post-bind (Post-expect_some (λ pc at. at)) λ pc at.
        let g = All-get_elem? (λ (c : Clause). FollowsFrom M e c.literals) s i pc h at in
        let on' = on in
        Post-bind
          (all_resolvents-Inferred M m cap walks (unification m config) on' given pc e ok f g)
          λ (rs₁, e₁) one.
            Post-bind
              (all_resolvents-Inferred M m cap walks (unification m config) on' pc given e₁
                one.sound (FollowsFrom-Extends M e e₁ pc.literals ok one.extends g)
                (FollowsFrom-Extends M e e₁ given.literals ok one.extends f))
              λ (rs₂, e₂) two.
                let both = Extends-trans one.extends two.extends in
                Post-bind
                  (generate_each-Inferred s given is e₂ two.sound
                    (All-FollowsFrom M e e₂ s ok both h)
                    (FollowsFrom-Extends M e e₂ given.literals ok both f))
                  λ (rest, e₃) more. returns (record {
                    sound = more.sound;
                    extends = Extends-trans both more.extends;
                    conclusions =
                        All-append _ rs₁ (rs₂ ++ rest)
                          (All-FollowsFrom M e₁ e₃ rs₁ one.sound
                            (Extends-trans two.extends more.extends) one.conclusions)
                          (All-append _ rs₂ rest
                            (All-FollowsFrom M e₂ e₃ rs₂ two.sound more.extends two.conclusions)
                            more.conclusions);
                  })

  -- With the occurs check on, a capacity below 2³², hash maps walked in the order of some
  -- permutation and a well-formed engine: if all clauses of the store and the given clause are
  -- over the bank and valid in a structure, then so is every clause that `generateNewClauses`
  -- returns when it returns, and the engine stays well-formed.
  pub generate_new_clauses-Inferred :
      (s : Clauses) (given : Clause) (e : Engine)
      → IsSound e
      → AllFollow M e s.store
      → FollowsFrom M e given.literals
      → Post (InferredAll M e) (generate_new_clauses m config s given e)
  unfolding generate_new_clauses
  generate_new_clauses-Inferred s given e ok h f =
      Post-bind (generate_each-Inferred s.store given s.processed e ok h f) λ (rs, e₁) first.
        Post-bind
          (factor-Inferred M m cap (unification m config) on e₁.var_counter given e₁.bank
            first.sound (FollowsFrom-Extends M e e₁ given.literals ok first.extends f))
          λ (fs, b) factors. returns (record {
            sound = factors.sound;
            extends = Extends-trans first.extends factors.extends;
            conclusions =
                All-append _ rs fs
                  (All-FollowsFrom M e₁ (record e₁ { bank = b }) rs first.sound factors.extends
                    first.conclusions)
                  factors.conclusions;
          })
