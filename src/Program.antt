-- ===== src/Program.antt =====
-- src/main.cc: from the command line to the answer. A run is what it writes to `std::cout` and how
-- it ends; what goes to `std::cerr` is left out.
pub mod Answers
pub mod Theorem
pub mod Refutes
use richard_atp_engine.Prelude.{
  ℕ, suc, Bool, true, false, List, [], ◌∷◌, ◌++◌, Option, none, some, if◌then◌else◌, Failure,
  out_of_bounds, diverged, Outcome, done, failed, ◌>>=◌, Machine,
}
use richard_atp_engine.Core.SymbolTable.{empty_table}
use richard_atp_engine.Core.TermBank.{empty_bank}
use richard_atp_engine.Proof.Trace.{ProofStep, extract_proof}
use richard_atp_engine.Proof.Text.{bytes, format_proof}
use richard_atp_engine.Search.ClauseQueue.{PriorityQueue}
use richard_atp_engine.Search.Prover.{
  ProverConfig, default_config, ProverResult, theorem, saturation, timeout, Prover, new_prover,
  add_clauses, prove, get_empty_clause_id,
}
use richard_atp_engine.Frontend.Problem.{prepare_for_proving}
use richard_atp_engine.Frontend.Parser.{parse_tptp_file}

-- What a piece of code writes, and how it ends.
pub record Writing : Type 0 where
  pub text : List ℕ
  pub end : Outcome {0} Unit

abbrev pub finished : Writing
finished = record { text = []; end = done tt }

abbrev pub interrupted : Failure → Writing
interrupted e = record { text = []; end = failed e }

-- The output operator, before the rest of the code.
abbrev pub write : List ℕ → Writing → Writing
write text rest = record rest { text = text ++ rest.text }

-- The first line of the answer.
unfoldable pub status_line : ProverResult → List ℕ → List ℕ
status_line theorem path = bytes "% SZS status Theorem for " ++ (path ++ bytes "\n\n")
status_line saturation path = bytes "% SZS status Satisfiable for " ++ (path ++ bytes "\n")
status_line timeout path = bytes "% SZS status Timeout for " ++ (path ++ bytes "\n")

abbrev pub start_line : List ℕ → List ℕ
start_line path = bytes "% SZS output start Proof for " ++ (path ++ bytes "\n")

abbrev pub end_line : List ℕ → List ℕ
end_line path = bytes "% SZS output end Proof for " ++ (path ++ bytes "\n")

-- The text of a proof and the line behind it.
unfoldable pub print_lines : List ℕ → Outcome (List ℕ) → Writing
print_lines path (failed e) = interrupted e
print_lines path (done lines) = write lines (write (end_line path) finished)

-- `EXIT_SUCCESS` and `EXIT_FAILURE`.
abbrev pub exit_success : ℕ
exit_success = 0

abbrev pub exit_failure : ℕ
exit_failure = 1

-- How the process ends: its exit code and its output.
pub record Exit : Type 0 where
  pub code : ℕ
  pub output : List ℕ

-- Whether `catch (const std::exception&)` gets this failure.
unfoldable pub is_exception : Failure → Bool
is_exception out_of_bounds = false
is_exception diverged = false
is_exception _ = true

-- The handler, and the exit codes. What it does not catch ends the process in another way.
unfoldable pub settle : Writing → Outcome Exit
settle w = elim w.end [
  | done _ ↦ done (record { code = exit_success; output = w.text })
  | failed e ↦
      if is_exception e then done (record { code = exit_failure; output = w.text }) else failed e
]

module _ (m : Machine) (config : ProverConfig) (Q : PriorityQueue config.comparator) where
  -- The first part of the `try` block, on what the file holds: parse, prepare and prove. The
  -- limit on the iterations bounds the rounds.
  unfoldable pub solve : Option (List ℕ) → Outcome (ProverResult × Prover m config Q)
  solve file = do
    (formulas, b) ← parse_tptp_file m file (empty_bank empty_table)
    p ←
        add_clauses m config Q (prepare_for_proving formulas)
          (new_prover m config Q (record { bank = b; var_counter = 0 }))
    prove m config Q (suc config.max_iterations) 0 p

  -- The proof that ends in a clause.
  unfoldable pub print_proof : List ℕ → Prover m config Q → ℕ → Writing
  print_proof path p id = elim (extract_proof p.clauses.store id) [
    | failed e ↦ interrupted e
    | done steps ↦
        write (start_line path)
          (print_lines path (format_proof m.fuel steps p.clauses.store p.engine.bank))
  ]

  -- The `switch` over the result.
  unfoldable pub answer : List ℕ → ProverResult → Prover m config Q → Writing
  answer path theorem p =
      write (status_line theorem path) (elim (get_empty_clause_id m config Q p) [
        | none ↦ finished
        | some id ↦ print_proof path p id
      ])
  answer path saturation p = write (status_line saturation path) finished
  answer path timeout p = write (status_line timeout path) finished

  -- The `try` block.
  unfoldable pub attempt : List ℕ → Option (List ℕ) → Writing
  attempt path file = elim (solve file) [
    | failed e ↦ interrupted e
    | done (result, p) ↦ answer path result p
  ]

  -- `main`, on the arguments of the command line and what a file of some name holds, for any
  -- configuration of the prover.
  unfoldable pub run_main : (List ℕ → Option (List ℕ)) → List (List ℕ) → Outcome Exit
  run_main files (program ∷ path ∷ args) = settle (attempt path (files path))
  run_main files _ = done (record { code = exit_failure; output = [] })

-- `main`, which runs the prover with the initial values of its configuration.
abbrev pub main :
    Machine
    → PriorityQueue default_config.comparator
    → (List ℕ → Option (List ℕ))
    → List (List ℕ)
    → Outcome Exit
main m Q files argv = run_main m default_config Q files argv
