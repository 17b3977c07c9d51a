-- ===== src/Proof/Trace.antt =====
-- src/proof/proof_trace.cc, `extractProof`: a depth-first walk from the empty clause to its
-- ancestors. The worklist is a stack, whose top is the head of the list.
pub mod Visited
pub mod Walk
pub mod Recorded
use richard_atp_engine.Prelude.{
  ℕ, zero, suc, ◌+◌, ◌*◌, List, [], ◌∷◌, length, Outcome, done, failed, ◌>>=◌, diverged, ◌==◌,
  if◌then◌else◌,
}
use mathlib.Core.List.{reverse}
use richard_atp_engine.Core.Types.{Clause, InferenceRule, invalid_id}
use richard_atp_engine.Core.ClauseStore.{ClauseStore, get_clause}
use richard_atp_engine.Infer.Renaming.{contains}

pub record ProofStep : Type 0 where
  pub clause_id : ℕ
  pub rule : InferenceRule
  pub parent1 : ℕ
  pub parent2 : ℕ

abbrev pub step_of : ℕ → Clause → ProofStep
step_of id c = record { clause_id = id; rule = c.rule; parent1 = c.parent1; parent2 = c.parent2 }

-- The loop of `extractProof`; the steps found last stand first.
unfoldable pub walk : ℕ → ClauseStore → List ℕ → List ℕ → List ProofStep → Outcome (List ProofStep)
walk f store visited [] steps = done steps
walk zero store visited (cid ∷ work) steps = failed diverged
walk (suc f) store visited (cid ∷ work) steps =
    let skip = walk f store visited work steps in
    let visit = get_clause store cid >>= λ c.
    walk f store (cid ∷ visited) (c.parent2 ∷ c.parent1 ∷ work) (step_of cid c ∷ steps) in
    if cid == invalid_id then skip else if contains cid visited then skip else visit

-- Each clause is visited once and puts two numbers on the stack, so this many rounds are enough.
abbrev pub enough_rounds : ClauseStore → ℕ
enough_rounds store = 2 * length store + 1

-- `extractProof`. The steps are collected in reverse, so the reversal at the end is done already.
unfoldable pub extract_proof : ClauseStore → ℕ → Outcome (List ProofStep)
extract_proof store empty_id = walk (enough_rounds store) store [] (empty_id ∷ []) []
