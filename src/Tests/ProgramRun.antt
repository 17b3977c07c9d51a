-- ===== src/Tests/ProgramRun.antt =====
-- A run of the program on a problem of two clauses, and the theorems at it.
use richard_atp_engine.Prelude.{
  ℕ, ◌<◌, ◌≡◌, refl, [], ◌∷◌, true, false, List, done, failed, Option, some, arith, All,
  All-get_elem?, length, Ends, ◌⊎◌, ◌++◌,
}
use richard_atp_engine.Core.Types.{
  Clause, Term, new_clause, resolution, variable, function, constant, uint16_mod,
}
use richard_atp_engine.Core.SymbolTable.{empty_table, intern}
use richard_atp_engine.Core.SymbolTable.Laws.{empty_table-IsValid, IsValid}
use richard_atp_engine.Core.TermBank.{TermBank, empty_bank, make_term, is_variable}
use richard_atp_engine.Core.TermBank.Laws.{Extends}
use richard_atp_engine.Core.ClauseStore.{add_clause}
use richard_atp_engine.Semantics.{Valid}
use richard_atp_engine.Infer.Renaming.{
  apply_literals, bind_fresh, collect_each, collect_variables, fresh_name, fresh_variable,
  rename_variables,
}
use richard_atp_engine.Infer.Renaming.Fresh.{IsSound}
use richard_atp_engine.Infer.Substitution.{
  any_of, apply_each, apply_substitution, bind, occurs_in, resolve,
}
use richard_atp_engine.Infer.Unification.{bind_variable, unify, unify_each, unify_terms}
use richard_atp_engine.Infer.Resolution.{
  all_resolvents, factor, factor_pair, factors_at, factors_from, resolve_clauses, resolve_renamed,
  resolvents_at, resolvents_from,
}
use richard_atp_engine.Simplify.Subsumption.{subsumes, all_occur, occurs}
use richard_atp_engine.Simplify.Tautology.{is_tautology, has_pair, has_complement}
use richard_atp_engine.Prelude.Decimal.{digits, to_string}
use richard_atp_engine.Proof.Text.{bytes, format_proof}
use richard_atp_engine.Proof.Trace.{ProofStep, extract_proof}
use richard_atp_engine.Proof.Text.Lines.{IsProof}
use richard_atp_engine.Frontend.Lexer.{next_token, skip_blanks, token_at, advance_while}
use richard_atp_engine.Frontend.Terms.{named_term}
use richard_atp_engine.Frontend.Problem.{
  AnnotatedFormula, parse_role, prepare_for_proving, cnf_clauses, axiom_role, plain,
}
use richard_atp_engine.Frontend.Parser.{
  parse_tptp_string, parse_tptp_file, expect, parse_variable, more_args, parse_args, apply_name,
  parse_term, parse_literal, more_literals, parse_cnf, parse_problem,
}
use richard_atp_engine.Frontend.Parser.Steps.{IsSmall, at_bank}
use richard_atp_engine.Frontend.Parser.Prepared.{IsPrepared, parse_tptp_string-IsPrepared}
use richard_atp_engine.Frontend.Parser.Total.{parse_tptp_string-Ends}
use richard_atp_engine.Frontend.Parser.Clauses.{ClausesIn, parse_tptp_string-ClausesIn}
use richard_atp_engine.Search.ClauseQueue.Listed.{bfs_queue, take_least}
use richard_atp_engine.Search.Prover.{
  ProverResult, default_config, Prover, new_prover, add_clauses, prove, theorem, process_given,
  expand_given, process_new_clauses, generate_new_clauses, generate_each, should_skip_given,
  apply_backward_subsumption, compute_depth, parent_depth, is_forward_subsumed, erase_if,
  get_empty_clause_id,
}
use richard_atp_engine.Search.Prover.Invariant.{NamesEmpty}
use richard_atp_engine.Program.{
  solve, main, run_main, settle, attempt, answer, status_line, start_line, end_line, Exit,
  exit_success, exit_failure,
}
use richard_atp_engine.Program.Answers.{run_main-success, run_main_parses}
use richard_atp_engine.Program.Theorem.{main_theorem}
use richard_atp_engine.Program.Refutes.{solve_sound, start-IsSound}
use richard_atp_engine.Tests.Samples.{machine, machine_fits, machine_walks}
use richard_atp_engine.Tests.Models.{p_holds}
use richard_atp_engine.Tests.Refute.{checked}

abbrev source : List ℕ
source = bytes "cnf(a,axiom,p(X)). cnf(b,plain,~p(c))."

abbrev parsed_bank : TermBank
parsed_bank = record {
  terms =
      record { symbol = 0; args = [] }
      ∷ record { symbol = 1; args = 0 ∷ [] }
      ∷ record { symbol = 2; args = [] }
      ∷ record { symbol = 1; args = 2 ∷ [] }
      ∷ [];
  term_to_id =
      (record { symbol = 1; args = 2 ∷ [] }, 3)
      ∷ (record { symbol = 2; args = [] }, 2)
      ∷ (record { symbol = 1; args = 0 ∷ [] }, 1)
      ∷ (record { symbol = 0; args = [] }, 0)
      ∷ [];
  symbols = record {
    infos =
        record { name = bytes "X"; kind = variable; arity = 0; sort = 0 }
        ∷ record { name = bytes "p"; kind = function; arity = 1; sort = 0 }
        ∷ record { name = bytes "c"; kind = constant; arity = 0; sort = 0 }
        ∷ [];
    name_to_id = (bytes "c", 2) ∷ (bytes "p", 1) ∷ (bytes "X", 0) ∷ [];
  };
}

abbrev formulas : List AnnotatedFormula
formulas =
    record {
      name = bytes "a";
      role = axiom_role;
      clauses = record new_clause { literals = record { atom = 1; is_positive = true } ∷ [] } ∷ [];
      is_cnf = true;
    }
    ∷ record {
      name = bytes "b";
      role = plain;
      clauses = record new_clause { literals = record { atom = 3; is_positive = false } ∷ [] } ∷ [];
      is_cnf = true;
    }
    ∷ []

source_parsed :
    parse_tptp_string machine source (empty_bank empty_table) ≡ done (formulas, parsed_bank)
unfolding next_token skip_blanks token_at advance_while parse_role named_term intern make_term
    parse_tptp_string expect parse_variable more_args parse_args apply_name parse_term parse_literal
    more_literals parse_cnf parse_problem
source_parsed = refl

parsed_bank-IsSmall : IsSmall parsed_bank
parsed_bank-IsSmall i t at =
    All-get_elem? (λ (t : Term). length t.args < uint16_mod) parsed_bank.terms i t
      (omega arith, (omega arith, (omega arith, (omega arith, tt)))) at

parse_tptp_string-Ends_example :
    Ends (λ r. IsValid r.1.symbols) (parse_tptp_string machine source (empty_bank empty_table))
parse_tptp_string-Ends_example =
    parse_tptp_string-Ends machine machine_fits source (empty_bank empty_table) empty_table-IsValid

parse_tptp_string-ClausesIn_example :
    IsSound (at_bank parsed_bank)
    × Extends (empty_bank empty_table) parsed_bank
    × ClausesIn parsed_bank (prepare_for_proving formulas)
parse_tptp_string-ClausesIn_example =
    parse_tptp_string-ClausesIn machine machine_fits source (empty_bank empty_table) parsed_bank
      formulas start-IsSound source_parsed parsed_bank-IsSmall

abbrev second_formula : AnnotatedFormula
second_formula = record {
  name = bytes "b";
  role = plain;
  clauses = record new_clause { literals = record { atom = 3; is_positive = false } ∷ [] } ∷ [];
  is_cnf = true;
}

parse_tptp_string-IsPrepared_example :
    (length (prepare_for_proving formulas) ≡ length formulas)
    × IsPrepared (prepare_for_proving formulas) 1 second_formula
parse_tptp_string-IsPrepared_example =
    parse_tptp_string-IsPrepared machine source (empty_bank empty_table) parsed_bank formulas
      source_parsed 1 second_formula refl

-- The state at the end of the run: X is 0, p(X) is 1, c is 2, p(c) is 3 and the new variable is 4.
abbrev end_bank : TermBank
end_bank = record {
  terms =
      record { symbol = 0; args = [] }
      ∷ record { symbol = 1; args = 0 ∷ [] }
      ∷ record { symbol = 2; args = [] }
      ∷ record { symbol = 1; args = 2 ∷ [] }
      ∷ record { symbol = 3; args = [] }
      ∷ record { symbol = 1; args = 4 ∷ [] }
      ∷ [];
  term_to_id =
      (record { symbol = 1; args = 4 ∷ [] }, 5)
      ∷ (record { symbol = 3; args = [] }, 4)
      ∷ parsed_bank.term_to_id;
  symbols = record {
    infos =
        record { name = bytes "X"; kind = variable; arity = 0; sort = 0 }
        ∷ record { name = bytes "p"; kind = function; arity = 1; sort = 0 }
        ∷ record { name = bytes "c"; kind = constant; arity = 0; sort = 0 }
        ∷ record { name = bytes "_R0"; kind = variable; arity = 0; sort = 0 }
        ∷ [];
    name_to_id = (bytes "_R0", 3) ∷ parsed_bank.symbols.name_to_id;
  };
}

abbrev unchecked_end : Prover machine default_config bfs_queue
unchecked_end = record {
  engine = record { bank = end_bank; var_counter = 1 };
  clauses = record {
    store =
        record new_clause { id = 0; literals = record { atom = 1; is_positive = true } ∷ [] }
        ∷ record new_clause { id = 1; literals = record { atom = 3; is_positive = false } ∷ [] }
        ∷ record new_clause { id = 2; rule = resolution; parent1 = 0; parent2 = 1 }
        ∷ [];
    processed = 1 ∷ 0 ∷ [];
  };
  unprocessed = [];
  empty_clause_id = some 2;
}

abbrev checked_end : Prover machine checked bfs_queue
checked_end = elim (solve machine checked bfs_queue (some source)) [
  | done (r, p) ↦ p
  | failed e ↦ new_prover machine checked bfs_queue (at_bank (empty_bank empty_table))
]

unchecked_solved :
    solve machine default_config bfs_queue (some source) ≡ done (theorem, unchecked_end)
unfolding next_token skip_blanks token_at advance_while parse_role named_term intern make_term
    parse_tptp_string parse_tptp_file expect parse_variable more_args parse_args apply_name
    parse_term parse_literal more_literals parse_cnf parse_problem prepare_for_proving solve
    add_clauses add_clause prove process_given take_least should_skip_given is_tautology has_pair
    has_complement is_forward_subsumed any_of expand_given apply_backward_subsumption erase_if
    generate_new_clauses generate_each factor factors_from factors_at process_new_clauses
    is_variable apply_literals bind_fresh collect_each collect_variables fresh_name fresh_variable
    rename_variables all_resolvents factor_pair resolve_clauses resolve_renamed resolvents_at
    resolvents_from apply_each apply_substitution bind occurs_in resolve bind_variable unify
    unify_each unify_terms digits to_string compute_depth parent_depth all_occur occurs subsumes
unchecked_solved = refl

checked_solved : solve machine checked bfs_queue (some source) ≡ done (theorem, checked_end)
unfolding next_token skip_blanks token_at advance_while parse_role named_term intern make_term
    parse_tptp_string parse_tptp_file expect parse_variable more_args parse_args apply_name
    parse_term parse_literal more_literals parse_cnf parse_problem prepare_for_proving solve
    add_clauses add_clause prove process_given take_least should_skip_given is_tautology has_pair
    has_complement is_forward_subsumed any_of expand_given apply_backward_subsumption erase_if
    generate_new_clauses generate_each factor factors_from factors_at process_new_clauses
    is_variable apply_literals bind_fresh collect_each collect_variables fresh_name fresh_variable
    rename_variables all_resolvents factor_pair resolve_clauses resolve_renamed resolvents_at
    resolvents_from apply_each apply_substitution bind occurs_in resolve bind_variable unify
    unify_each unify_terms digits to_string compute_depth parent_depth all_occur occurs subsumes
checked_solved = refl

abbrev files : List ℕ → Option (List ℕ)
files path = some source

abbrev argv : List (List ℕ)
argv = bytes "atp" ∷ bytes "t.p" ∷ []

-- A file whose one clause has a model.
abbrev satisfiable_files : List ℕ → Option (List ℕ)
satisfiable_files path = some (bytes "cnf(a,axiom,p(X)).")

abbrev run_exit : Exit
run_exit = record { code = exit_success; output = bytes "% SZS status Satisfiable for t.p\n" }

run_succeeds : main machine bfs_queue satisfiable_files argv ≡ done run_exit
unfolding next_token skip_blanks token_at advance_while parse_role named_term intern make_term
    parse_tptp_string parse_tptp_file expect parse_variable more_args parse_args apply_name
    parse_term parse_literal more_literals parse_cnf parse_problem prepare_for_proving solve
    add_clauses add_clause prove process_given take_least should_skip_given is_tautology has_pair
    has_complement is_forward_subsumed any_of expand_given apply_backward_subsumption erase_if
    generate_new_clauses generate_each factor factors_from factors_at process_new_clauses
    is_variable apply_literals bind_fresh collect_each collect_variables fresh_name fresh_variable
    rename_variables all_resolvents factor_pair resolve_clauses resolve_renamed resolvents_at
    resolvents_from apply_each apply_substitution bind occurs_in resolve bind_variable unify
    unify_each unify_terms digits to_string compute_depth parent_depth all_occur occurs subsumes
    run_main attempt answer settle status_line
run_succeeds = refl

run_main-success_example :
    (r : ProverResult × Prover machine default_config bfs_queue) × (solve machine default_config
        bfs_queue
        (satisfiable_files (bytes "t.p"))
      ≡ done r)
    × (rest : List ℕ) × (run_exit.output ≡ status_line r.0 (bytes "t.p") ++ rest)
run_main-success_example =
    run_main-success machine default_config bfs_queue satisfiable_files (bytes "atp") (bytes "t.p")
      [] run_exit run_succeeds refl

run_main_parses_example :
    ((r : List AnnotatedFormula × TermBank) × (parse_tptp_file machine
          (files (bytes "t.p"))
          (empty_bank empty_table)
        ≡ done r))
    ⊎ (main machine bfs_queue files argv ≡ done (record { code = exit_failure; output = [] }))
run_main_parses_example =
    run_main_parses machine default_config bfs_queue machine_fits files (bytes "atp") (bytes "t.p")
      []

main_theorem_example :
    (id : ℕ) × (steps : List ProofStep) × (lines : List ℕ) × (get_empty_clause_id machine
        default_config bfs_queue unchecked_end
      ≡ some id)
    × NamesEmpty unchecked_end.clauses.store id
    × (extract_proof unchecked_end.clauses.store id ≡ done steps)
    × IsProof unchecked_end.clauses.store id steps
    × (format_proof machine.fuel steps unchecked_end.clauses.store end_bank ≡ done lines)
    × (main machine bfs_queue files argv
        ≡ done (record {
          code = exit_success;
          output =
              status_line theorem (bytes "t.p")
              ++ (start_line (bytes "t.p") ++ (lines ++ end_line (bytes "t.p")));
        }))
main_theorem_example =
    main_theorem machine machine_fits machine_walks bfs_queue files (bytes "atp") (bytes "t.p")
      source [] formulas parsed_bank unchecked_end refl source_parsed parsed_bank-IsSmall
      unchecked_solved (omega arith)

solve_sound_example :
    ¬ All (λ (c : Clause). Valid p_holds parsed_bank c.literals) (cnf_clauses formulas)
solve_sound_example =
    solve_sound machine checked bfs_queue machine_fits machine_walks refl source formulas
      parsed_bank checked_end source_parsed parsed_bank-IsSmall checked_solved p_holds
