-- ===== src/Program/Refutes.antt =====
-- src/main.cc with the occurs check on: from the text of a problem to a sound answer.
use richard_atp_engine.Prelude.{
  ℕ, suc, ◌<◌, ◌≡◌, refl, sym, ◌∙◌, ◌>>=◌, subst, true, List, [], ◌∷◌, map, some, done, Machine,
  Permᴰ, All,
}
use richard_atp_engine.Core.Types.{Clause, uint32_mod}
use richard_atp_engine.Core.SymbolTable.{empty_table}
use richard_atp_engine.Core.SymbolTable.Laws.{empty_table-IsValid}
use richard_atp_engine.Core.TermBank.{TermBank, empty_bank}
use richard_atp_engine.Core.TermBank.Laws.{empty_bank-IsWellFormed}
use richard_atp_engine.Semantics.{Structure, Valid}
use richard_atp_engine.Search.ClauseQueue.{PriorityQueue}
use richard_atp_engine.Search.Prover.{
  ProverConfig, ProverResult, Prover, theorem, new_prover, add_clauses, prove,
}
use richard_atp_engine.Search.Prover.Sound.{prove_sound}
use richard_atp_engine.Infer.Renaming.Fresh.{IsSound}
use richard_atp_engine.Frontend.Problem.{
  AnnotatedFormula, cnf_clauses, prepare_for_proving, prepare_for_proving_inputs,
}
use richard_atp_engine.Frontend.Parser.{parse_tptp_string, parse_tptp_file}
use richard_atp_engine.Frontend.Parser.Steps.{IsSmall, at_bank}
use richard_atp_engine.Frontend.Parser.Clauses.{parse_tptp_string-ClausesIn}
use richard_atp_engine.Program.{solve}
use richard_atp_engine.Program.Answers.{bind_done}

-- Clauses with the same literals are valid together.
Valid-literals :
    (M : Structure) (b : TermBank) (cs : List Clause)
    → All (λ (c : Clause). Valid M b c.literals) cs
    → All (Valid M b) (map (λ (c : Clause). c.literals) cs)
Valid-literals M b [] h = tt
Valid-literals M b (c ∷ cs) h = (h.0, Valid-literals M b cs h.1)

Valid-of_literals :
    (M : Structure) (b : TermBank) (cs : List Clause)
    → All (Valid M b) (map (λ (c : Clause). c.literals) cs)
    → All (λ (c : Clause). Valid M b c.literals) cs
Valid-of_literals M b [] h = tt
Valid-of_literals M b (c ∷ cs) h = (h.0, Valid-of_literals M b cs h.1)

pub start-IsSound : IsSound (at_bank (empty_bank empty_table))
start-IsSound = record { bank = empty_bank-IsWellFormed empty_table; table = empty_table-IsValid }

-- The rest of a run, once the source is parsed.
pub solve-after :
    (m : Machine) (config : ProverConfig) (Q : PriorityQueue config.comparator) (source : List ℕ)
    (formulas : List AnnotatedFormula) (b : TermBank) (r : ProverResult × Prover m config Q)
    → parse_tptp_string m source (empty_bank empty_table) ≡ done (formulas, b)
    → solve m config Q (some source) ≡ done r
    → (start : Prover m config Q) × (add_clauses m config Q
          (prepare_for_proving formulas)
          (new_prover m config Q (at_bank b))
        ≡ done start)
      × (prove m config Q (suc config.max_iterations) 0 start ≡ done r)
unfolding solve parse_tptp_file
solve-after m config Q source formulas b r parsed run =
    bind_done
      (add_clauses m config Q (prepare_for_proving formulas) (new_prover m config Q (at_bank b)))
      (prove m config Q (suc config.max_iterations) 0) r (sym solved ∙ run)
  where
    solved : solve m config Q (some source) ≡ (
        add_clauses m config Q (prepare_for_proving formulas) (new_prover m config Q (at_bank b))
        >>= prove m config Q (suc config.max_iterations) 0)
    solved = rw (solve, parse_tptp_file, parsed) refl

-- With the occurs check on, a capacity below 2³² and hash maps walked in the order of some
-- permutation: if a source is parsed to formulas over a bank in which no term has 2¹⁶ arguments or
-- more, and the run from parsing to `prove` reports a theorem for this source, then the clauses of
-- its formulas are unsatisfiable: no structure makes all of them valid.
pub solve_sound :
    (m : Machine) (config : ProverConfig) (Q : PriorityQueue config.comparator)
    → m.capacity < uint32_mod
    → ((xs : List ℕ) → Permᴰ xs (m.iteration xs))
    → config.enable_occurs_check ≡ true
    → (source : List ℕ) (formulas : List AnnotatedFormula) (b : TermBank) (p : Prover m config Q)
    → parse_tptp_string m source (empty_bank empty_table) ≡ done (formulas, b)
    → IsSmall b
    → solve m config Q (some source) ≡ done (theorem, p)
    → (M : Structure) → ¬ All (λ (c : Clause). Valid M b c.literals) (cnf_clauses formulas)
solve_sound m config Q fits walks on source formulas b p parsed small run M model =
    let (ok, _, inside) =
      parse_tptp_string-ClausesIn m fits source (empty_bank empty_table) b formulas start-IsSound
        parsed small in
    let (start, added, proved) = solve-after m config Q source formulas b (theorem, p) parsed run in
    let prepared = Valid-of_literals M b (prepare_for_proving formulas) (
      subst (All (Valid M b)) (sym (prepare_for_proving_inputs formulas).1)
        (Valid-literals M b (cnf_clauses formulas) model)) in
    prove_sound m fits walks config on Q (prepare_for_proving formulas) (at_bank b) start p
      (suc config.max_iterations) ok inside added proved M prepared
