-- ===== src/Proof/Trace/Recorded.antt =====
-- The steps of a proof record the clauses that they name.
use richard_atp_engine.Prelude.{
  ℕ, zero, suc, ◌≡◌, refl, List, [], ◌∷◌, some, get_elem?, All, Post, returns, fails, Post-bind,
  Post-if, Post-expect_some, ◌==◌,
}
use richard_atp_engine.Core.Types.{Clause, invalid_id}
use richard_atp_engine.Core.ClauseStore.{ClauseStore}
use richard_atp_engine.Infer.Renaming.{contains}
use richard_atp_engine.Proof.Trace.{ProofStep, step_of, walk, extract_proof}

-- The step has the rule and the parents of the clause of the store with its number.
abbrev pub IsRecord : ClauseStore → ProofStep → Type 0
IsRecord s p =
    (c : Clause) × (get_elem? s p.clause_id ≡ some c)
    × (p.rule ≡ c.rule)
    × (p.parent1 ≡ c.parent1)
    × (p.parent2 ≡ c.parent2)

walk-IsRecord :
    (f : ℕ) (s : ClauseStore) (visited work : List ℕ) (steps : List ProofStep)
    → All (IsRecord s) steps
    → Post (All (IsRecord s)) (walk f s visited work steps)
unfolding walk
walk-IsRecord zero s visited [] steps h = returns h
walk-IsRecord (suc f) s visited [] steps h = returns h
walk-IsRecord zero s visited (x ∷ work) steps h = fails
walk-IsRecord (suc f) s visited (x ∷ work) steps h =
    Post-if (x == invalid_id) (λ _. walk-IsRecord f s visited work steps h)
      λ _.
        Post-if (contains x visited) (λ _. walk-IsRecord f s visited work steps h)
          λ _. Post-bind (Post-expect_some (λ (c : Clause) at. at)) λ c at.
            walk-IsRecord f s (x ∷ visited) (c.parent2 ∷ c.parent1 ∷ work) (step_of x c ∷ steps)
              ((c, at, refl, refl, refl), h)

pub extract_proof-IsRecord :
    (s : ClauseStore) (root : ℕ) → Post (All (IsRecord s)) (extract_proof s root)
unfolding extract_proof
extract_proof-IsRecord s root = walk-IsRecord _ s [] (root ∷ []) [] tt
