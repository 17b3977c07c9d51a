-- ===== src/Program/Theorem.antt =====
-- src/main.cc: what is written when the prover reports a theorem.
use mathlib.Core.List.{append-nil}
use richard_atp_engine.Prelude.{
  ℕ, suc, ◌<◌, ◌≤◌, ◌≡◌, refl, ap, ◌∙◌, List, ◌∷◌, ◌++◌, length, Option, some, Outcome, done,
  Machine, All-map_pred, Permᴰ, Post-done,
}
use richard_atp_engine.Core.Types.{Clause, uint32_mod}
use richard_atp_engine.Core.SymbolTable.{empty_table}
use richard_atp_engine.Core.TermBank.{TermBank, empty_bank}
use richard_atp_engine.Proof.Trace.{ProofStep, extract_proof}
use richard_atp_engine.Proof.Trace.Recorded.{extract_proof-IsRecord}
use richard_atp_engine.Proof.Text.{format_proof}
use richard_atp_engine.Proof.Text.Lines.{IsProof, ancestors-IsProof}
use richard_atp_engine.Proof.Text.Total.{IsReadable, format_proof-Gives}
use richard_atp_engine.Search.ClauseQueue.{PriorityQueue}
use richard_atp_engine.Search.Prover.{default_config, theorem, Prover, get_empty_clause_id}
use richard_atp_engine.Search.Prover.Inside.{IsInsideState, run-IsInsideState}
use richard_atp_engine.Search.Prover.Invariant.{NamesEmpty}
use richard_atp_engine.Search.Prover.Refutation.{prove_has_proof}
use richard_atp_engine.Frontend.Problem.{
  AnnotatedFormula, prepare_for_proving, prepare_for_proving_inputs, IsInput,
}
use richard_atp_engine.Frontend.Parser.{parse_tptp_string}
use richard_atp_engine.Frontend.Parser.Steps.{IsSmall, at_bank}
use richard_atp_engine.Frontend.Parser.Clauses.{parse_tptp_string-ClausesIn}
use richard_atp_engine.Program.{
  exit_success, write, status_line, start_line, end_line, print_lines, settle, solve, run_main,
  main,
}
use richard_atp_engine.Program.Answers.{attempt_solved, answer_theorem}
use richard_atp_engine.Program.Refutes.{solve-after, start-IsSound}

-- The process whose writing ends with the text of a proof.
settle-proof :
    (path status lines : List ℕ) (o : Outcome (List ℕ))
    → o ≡ done lines
    → settle (write status (write (start_line path) (print_lines path o)))
      ≡ done (record {
        code = exit_success;
        output = status ++ (start_line path ++ (lines ++ end_line path));
      })
unfolding settle print_lines
settle-proof path status lines o e = rw (e, print_lines) (rw (append-nil (end_line path)) refl)

module _ (m : Machine) (cap : m.capacity < uint32_mod)
    (walks : (xs : List ℕ) → Permᴰ xs (m.iteration xs))
    (Q : PriorityQueue default_config.comparator) where
  -- What the prover, started on what was parsed, leaves behind where it reports a theorem.
  IsProof-found :
      (source : List ℕ) (formulas : List AnnotatedFormula) (b : TermBank)
      (p : Prover m default_config Q)
      → parse_tptp_string m source (empty_bank empty_table) ≡ done (formulas, b)
      → IsSmall b
      → solve m default_config Q (some source) ≡ done (theorem, p)
      → (id : ℕ) × (steps : List ProofStep) × (get_empty_clause_id m default_config Q p ≡ some id)
        × NamesEmpty p.clauses.store id
        × (extract_proof p.clauses.store id ≡ done steps)
        × IsProof p.clauses.store id steps
        × IsInsideState m cap walks default_config Q p
  IsProof-found source formulas b p parsed small run =
      let (start, added, proved) =
        solve-after m default_config Q source formulas b (theorem, p) parsed run in
      let (ok, _, inside) =
        parse_tptp_string-ClausesIn m cap source (empty_bank empty_table) b formulas start-IsSound
          parsed small in
      let parents =
        All-map_pred (prepare_for_proving formulas) (λ (c : Clause) (h : IsInput c). (h.1, h.2))
          (prepare_for_proving_inputs formulas).0 in
      let rounds = suc default_config.max_iterations in
      let (id, steps, named, empty, walked, ancestors) =
        prove_has_proof m cap default_config Q (prepare_for_proving formulas) (at_bank b) start p
          rounds parents added proved in
      let recorded = Post-done (extract_proof-IsRecord p.clauses.store id) walked in
      (
        id,
        steps,
        named,
        empty,
        walked,
        ancestors-IsProof p.clauses.store id steps ancestors recorded,
        run-IsInsideState m cap walks default_config Q (prepare_for_proving formulas) (at_bank b)
            start p theorem rounds ok inside added proved,
      )

  -- Under a capacity below 2³² and with hash maps walked in the order of some permutation: if what
  -- the named file holds is parsed over a bank in which no term has 2¹⁶ arguments or more, the
  -- prover, with the configuration of `main`, reports a theorem for it, and the machine can nest as
  -- many calls as the bank has terms in the end, then the prover has kept the number of an empty
  -- clause; `extractProof` returns for it steps that are a proof, that is, their numbers are exactly
  -- those of the clause and its ancestors, each has the rule and the parents of its clause, and each
  -- parent has a line by whose number it is named; `formatProof` returns their text; and `main` ends
  -- with success, its output being the status line of a theorem, the line that starts the proof,
  -- this text, and the line that ends it. The occurs check is off.
  pub main_theorem :
      (files : List ℕ → Option (List ℕ)) (program path source : List ℕ) (args : List (List ℕ))
      (formulas : List AnnotatedFormula) (b : TermBank) (p : Prover m default_config Q)
      → files path ≡ some source
      → parse_tptp_string m source (empty_bank empty_table) ≡ done (formulas, b)
      → IsSmall b
      → solve m default_config Q (some source) ≡ done (theorem, p)
      → length p.engine.bank.terms ≤ m.fuel
      → (id : ℕ) × (steps : List ProofStep) × (lines : List ℕ) × (get_empty_clause_id m
            default_config Q p
          ≡ some id)
        × NamesEmpty p.clauses.store id
        × (extract_proof p.clauses.store id ≡ done steps)
        × IsProof p.clauses.store id steps
        × (format_proof m.fuel steps p.clauses.store p.engine.bank ≡ done lines)
        × (main m Q files (program ∷ path ∷ args)
            ≡ done (record {
              code = exit_success;
              output = status_line theorem path ++ (start_line path ++ (lines ++ end_line path));
            }))
  unfolding run_main
  main_theorem files program path source args formulas b p content parsed small run enough =
      let (id, steps, named, empty, walked, proof, inv) =
        IsProof-found source formulas b p parsed small run in
      let w = inv.engine.bank in
      let readable : IsReadable p.engine.bank =
        λ i t at. let fits = w.fits i t at in (fits.below, fits.known) in
      let (lines, written) =
        format_proof-Gives p.engine.bank readable p.clauses.store inv.stored m.fuel steps enough
          proof.recorded in
      (
        id,
        steps,
        lines,
        named,
        empty,
        walked,
        proof,
        written,
        rw content (
            ap settle (
              attempt_solved m default_config Q path (some source) (theorem, p) run
              ∙ answer_theorem m default_config Q path p id steps named walked)
            ∙ settle-proof path (status_line theorem path) lines
                (format_proof m.fuel steps p.clauses.store p.engine.bank) written),
      )
