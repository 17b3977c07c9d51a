-- ===== src/Search/Prover/Rounds.antt =====
-- The loop of `prove` ends: the limit on the iterations bounds its rounds.
use richard_atp_engine.Prelude.{
  ℕ, zero, suc, ◌+◌, ◌≤◌, ◌<◌, ◌≡◌, ◌∙◌, sym, refl, ap, Bool, true, false, ◌||◌, Bool-cases,
  Option-cases, inl, inr, none, some, arith, Machine, Outcome, done, ◌>>=◌, Option, leb,
}
use richard_atp_engine.Core.Types.{Clause}
use richard_atp_engine.Search.ClauseQueue.{PriorityQueue}
use richard_atp_engine.Search.Prover.{
  ProverConfig, ProverResult, timeout, Prover, process_given, prove, hit_resource_limit,
}

module _ (m : Machine) (config : ProverConfig) (Q : PriorityQueue config.comparator) where
  -- What a round does with the result of its body.
  abbrev next :
      (Prover m config Q → Outcome (ProverResult × Prover m config Q))
      → Option ProverResult × Prover m config Q
      → Outcome (ProverResult × Prover m config Q)
  next go (r, p') = elim r [ some result ↦ done (result, p') | none ↦ go p' ]

  prove_empty :
      (f g iterations : ℕ) (p : Prover m config Q)
      → Q.pop p.unprocessed ≡ none
      → prove m config Q (suc f) iterations p ≡ prove m config Q (suc g) iterations p
  unfolding prove
  prove_empty f g iterations p e = rw (e, prove) refl

  module _ (f iterations : ℕ) (p : Prover m config Q) (given : Clause) (rest : Q.Queue)
      (popped : Q.pop p.unprocessed ≡ some (given, rest)) where
    prove_timeout :
        hit_resource_limit m config Q iterations p ≡ true
        → prove m config Q (suc f) iterations p ≡ done (timeout, p)
    unfolding prove
    prove_timeout hit = rw (popped, prove) (rw hit refl)

    prove_round :
        hit_resource_limit m config Q iterations p ≡ false
        → prove m config Q (suc f) iterations p ≡ (
            process_given m config Q given (record p { unprocessed = rest })
            >>= next (prove m config Q f (suc iterations)))
    unfolding prove
    prove_round free = rw (popped, prove) (rw free refl)

  limit : (a b : ℕ) (c : Bool) → (leb a b || c) ≡ false → b < a
  limit a b c h = ground arith

  -- Two loops that agree on all later rounds agree on this one.
  one_round :
      (f g iterations : ℕ) (p : Prover m config Q)
      → (iterations < config.max_iterations
          → (q : Prover m config Q)
          → prove m config Q f (suc iterations) q ≡ prove m config Q g (suc iterations) q)
      → prove m config Q (suc f) iterations p ≡ prove m config Q (suc g) iterations p
  one_round f g iterations p same = elim (Option-cases (Q.pop p.unprocessed)) [
    | inl empty ↦ prove_empty f g iterations p empty
    | inr ((given, rest), popped) ↦ elim (Bool-cases (hit_resource_limit m config Q iterations p)) [
      | inl hit ↦
          prove_timeout f iterations p given rest popped hit
          ∙ sym (prove_timeout g iterations p given rest popped hit)
      | inr free ↦
          prove_round f iterations p given rest popped free
          ∙ ap (λ go. process_given m config Q given (record p { unprocessed = rest }) >>= next go)
              (λ i q. same (limit config.max_iterations iterations _ free) q i)
          ∙ sym (prove_round g iterations p given rest popped free)
    ]
  ]

  -- The limit on the iterations bounds the rounds of `prove`: with fuel for the rounds that are
  -- left under the limit, and one more, the result does not depend on the fuel.
  pub prove_enough_rounds :
      (f g iterations : ℕ) (p : Prover m config Q)
      → config.max_iterations ≤ f + iterations
      → config.max_iterations ≤ g + iterations
      → prove m config Q (suc f) iterations p ≡ prove m config Q (suc g) iterations p
  prove_enough_rounds zero g iterations p hf hg =
      one_round zero g iterations p (λ h q. absurd (omega arith))
  prove_enough_rounds (suc f) zero iterations p hf hg =
      one_round (suc f) zero iterations p (λ h q. absurd (omega arith))
  prove_enough_rounds (suc f) (suc g) iterations p hf hg =
      one_round (suc f) (suc g) iterations p
        λ h q. prove_enough_rounds f g (suc iterations) q (omega arith) (omega arith)
