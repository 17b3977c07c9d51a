-- ===== src/Program/Answers.antt =====
-- src/main.cc: what the exit code and the output say.
use richard_atp_engine.Prelude.{
  ℕ, suc, ◌<◌, ◌≡◌, refl, ap, ◌∙◌, ◌⊎◌, inl, inr, true, List, [], ◌∷◌, ◌++◌, Option, none, some,
  Failure, Outcome, done, failed, ◌>>=◌, Machine, IsException, Ends, gives, throws, out_of_bounds,
  diverged, bad_alloc, mismatch, unexpected_token, expected_name, unknown_declaration,
  unsupported_fof, no_file, arith, Post, returns, fails, Post-done, Post-if,
}
use richard_atp_engine.Core.Types.{uint32_mod}
use richard_atp_engine.Core.SymbolTable.{empty_table}
use richard_atp_engine.Core.SymbolTable.Laws.{empty_table-IsValid, IsValid}
use richard_atp_engine.Core.TermBank.{TermBank, empty_bank}
use richard_atp_engine.Proof.Trace.{ProofStep, extract_proof}
use richard_atp_engine.Proof.Text.{format_proof}
use richard_atp_engine.Search.ClauseQueue.{PriorityQueue}
use richard_atp_engine.Search.Prover.{
  ProverConfig, ProverResult, theorem, saturation, timeout, Prover, new_prover, add_clauses, prove,
  get_empty_clause_id,
}
use richard_atp_engine.Frontend.Problem.{AnnotatedFormula, prepare_for_proving}
use richard_atp_engine.Frontend.Parser.{parse_tptp_string, parse_tptp_file}
use richard_atp_engine.Frontend.Parser.Total.{parse_tptp_string-Ends}
use richard_atp_engine.Program.{
  Writing, interrupted, write, status_line, start_line, print_lines, Exit, exit_success,
  exit_failure, is_exception, settle, solve, print_proof, answer, attempt, run_main,
}

-- The phases of a run that came to a result.
pub record Solved (m : Machine) (config : ProverConfig) (Q : PriorityQueue config.comparator)
    (source : List ℕ) (r : ProverResult × Prover m config Q) : Type 0 where
  pub formulas : List AnnotatedFormula
  pub bank : TermBank
  pub start : Prover m config Q
  pub parsed : parse_tptp_string m source (empty_bank empty_table) ≡ done (formulas, bank)
  pub added :
      add_clauses m config Q
        (prepare_for_proving formulas)
        (new_prover m config Q (record { bank = bank; var_counter = 0 }))
      ≡ done start
  pub proved : prove m config Q (suc config.max_iterations) 0 start ≡ done r

pub bind_done {ℓ κ} :
    {A : Type ℓ} {B : Type κ} (o : Outcome A) (f : A → Outcome B) (b : B)
    → (o >>= f) ≡ done b
    → (a : A) × (o ≡ done a) × (f a ≡ done b)
bind_done (done a) f b e = (a, refl, e)
bind_done (failed _) f b e = cc

Outcome-cases {ℓ} :
    {A : Type ℓ} (o : Outcome A) → ((e : Failure) × (o ≡ failed e)) ⊎ ((a : A) × (o ≡ done a))
Outcome-cases (failed e) = inl (e, refl)
Outcome-cases (done a) = inr (a, refl)

Ends-cases {ℓ κ} :
    {A : Type ℓ} {P : A → Type κ} {o : Outcome A}
    → Ends P o
    → ((a : A) × (o ≡ done a)) ⊎ ((e : Failure) × IsException e × (o ≡ failed e))
Ends-cases (gives {a} p) = inl (a, refl)
Ends-cases (throws {e} h) = inr (e, h, refl)

is_exception-true : (e : Failure) → IsException e → is_exception e ≡ true
unfolding is_exception
is_exception-true out_of_bounds h = absurd h
is_exception-true diverged h = absurd h
is_exception-true bad_alloc h = refl
is_exception-true mismatch h = refl
is_exception-true unexpected_token h = refl
is_exception-true expected_name h = refl
is_exception-true unknown_declaration h = refl
is_exception-true unsupported_fof h = refl
is_exception-true no_file h = refl

module _ (m : Machine) (config : ProverConfig) (Q : PriorityQueue config.comparator) where
  pub solve-Solved :
      (source : List ℕ) (r : ProverResult × Prover m config Q)
      → solve m config Q (some source) ≡ done r
      → Solved m config Q source r
  unfolding solve parse_tptp_file
  solve-Solved source r run =
      let ((formulas, b), parsed, rest) =
        bind_done (parse_tptp_string m source (empty_bank empty_table)) _ r run in
      let (p, added, proved) =
        bind_done
          (add_clauses m config Q (prepare_for_proving formulas)
            (new_prover m config Q (record { bank = b; var_counter = 0 })))
          _ r rest in
      record {
        formulas = formulas;
        bank = b;
        start = p;
        parsed = parsed;
        added = added;
        proved = proved;
      }

  answer_text :
      (path : List ℕ) (r : ProverResult) (p : Prover m config Q)
      → (rest : List ℕ) × ((answer m config Q path r p).text ≡ status_line r path ++ rest)
  unfolding answer
  answer_text path theorem p = (_, refl)
  answer_text path saturation p = (_, refl)
  answer_text path timeout p = (_, refl)

  -- A process that ends with success has run its writing to the end.
  settle-success :
      (text : List ℕ) (end : Outcome {0} Unit)
      → Post
          (λ (exit : Exit). exit.code ≡ exit_success → (end ≡ done tt) × (exit.output ≡ text))
          (settle (record { text = text; end = end }))
  unfolding settle
  settle-success text (done u) = returns λ ok. (refl, refl)
  settle-success text (failed e) =
      Post-if (is_exception e) (λ _. returns λ ok. absurd (omega arith)) (λ _. fails)

  pub attempt_solved :
      (path : List ℕ) (file : Option (List ℕ)) (r : ProverResult × Prover m config Q)
      → solve m config Q file ≡ done r
      → attempt m config Q path file ≡ answer m config Q path r.0 r.1
  unfolding attempt
  attempt_solved path file r run = rw (run, attempt) refl

  -- The writing of a theorem whose proof is found.
  pub answer_theorem :
      (path : List ℕ) (p : Prover m config Q) (id : ℕ) (steps : List ProofStep)
      → get_empty_clause_id m config Q p ≡ some id
      → extract_proof p.clauses.store id ≡ done steps
      → answer m config Q path theorem p
        ≡ write (status_line theorem path) (
            write
              (start_line path)
              (print_lines path (format_proof m.fuel steps p.clauses.store p.engine.bank)))
  unfolding answer print_proof
  answer_theorem path p id steps named walked = rw (named, answer) (rw (walked, print_proof) refl)

  failed_end : (end : Outcome {0} Unit) (e : Failure) → end ≡ failed e → end ≡ done tt → ⊥
  failed_end end e q h = cc

  attempt_done :
      (path : List ℕ) (file : Option (List ℕ))
      → (attempt m config Q path file).end ≡ done tt
      → (r : ProverResult × Prover m config Q) × (solve m config Q file ≡ done r)
        × (attempt m config Q path file ≡ answer m config Q path r.0 r.1)
  unfolding attempt
  attempt_done path file ended = elim (Outcome-cases (solve m config Q file)) [
    | inl (e, stopped) ↦
        let interrupted_run : attempt m config Q path file ≡ interrupted e =
          rw (stopped, attempt) refl in
        absurd (failed_end _ e (ap (λ (w : Writing). w.end) interrupted_run) ended)
    | inr (r, solved) ↦ (r, solved, attempt_solved path file r solved)
  ]

  -- Where `main`, with any configuration of the prover, ends with success on a file, the prover
  -- came to a result, and the output begins with the status line of this result.
  pub run_main-success :
      (files : List ℕ → Option (List ℕ)) (program path : List ℕ) (args : List (List ℕ))
      (exit : Exit)
      → run_main m config Q files (program ∷ path ∷ args) ≡ done exit
      → exit.code ≡ exit_success
      → (r : ProverResult × Prover m config Q) × (solve m config Q (files path) ≡ done r)
        × (rest : List ℕ) × (exit.output ≡ status_line r.0 path ++ rest)
  unfolding run_main
  run_main-success files program path args exit run ok =
      let w = attempt m config Q path (files path) in
      let (ended, output) = Post-done (settle-success w.text w.end) run ok in
      let (r, solved, same) = attempt_done path (files path) ended in
      let (rest, text) = answer_text path r.0 r.1 in
      (r, solved, rest, output ∙ ap (λ (w : Writing). w.text) same ∙ text)

  -- An exception of the parser ends the process with failure and no output.
  parse_error :
      (files : List ℕ → Option (List ℕ)) (program path : List ℕ) (args : List (List ℕ))
      (e : Failure)
      → IsException e
      → parse_tptp_file m (files path) (empty_bank empty_table) ≡ failed e
      → run_main m config Q files (program ∷ path ∷ args)
        ≡ done (record { code = exit_failure; output = [] })
  unfolding run_main attempt settle solve
  parse_error files program path args e h run =
      rw (run_main, attempt, solve, run) (rw (is_exception-true e h) refl)

  parse_tptp_file-Ends :
      m.capacity < uint32_mod
      → (file : Option (List ℕ))
      → Ends (λ r. IsValid r.1.symbols) (parse_tptp_file m file (empty_bank empty_table))
  unfolding parse_tptp_file
  parse_tptp_file-Ends cap none = throws tt
  parse_tptp_file-Ends cap (some source) =
      parse_tptp_string-Ends m cap source (empty_bank empty_table) empty_table-IsValid

  -- Under a capacity below 2³² and with any configuration of the prover, whatever the file holds
  -- that is named on the command line, and also if it cannot be opened: either it is parsed, or
  -- `main` ends with the exit code for failure and no output.
  pub run_main_parses :
      m.capacity < uint32_mod
      → (files : List ℕ → Option (List ℕ)) (program path : List ℕ) (args : List (List ℕ))
      → ((r : List AnnotatedFormula × TermBank) × (parse_tptp_file m
              (files path)
              (empty_bank empty_table)
            ≡ done r))
        ⊎ (run_main m config Q files (program ∷ path ∷ args)
            ≡ done (record { code = exit_failure; output = [] }))
  run_main_parses cap files program path args =
      elim (Ends-cases (parse_tptp_file-Ends cap (files path))) [
        | inl (r, run) ↦ inl (r, run)
        | inr (e, h, run) ↦ inr (parse_error files program path args e h run)
      ]
