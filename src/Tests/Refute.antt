-- ===== src/Tests/Refute.antt =====
-- A refutation of p(X) and ¬p(a), and the proof that is read off it.
use richard_atp_engine.Prelude.{
  ℕ, ◌≡◌, ◌<◌, ◌⊎◌, ◌++◌, inl, inr, ⊎_elim, refl, subst, true, false, done, List, [], ◌∷◌, some,
  none, arith, All, All-get_elem?, map,
}
use richard_atp_engine.Core.Types.{Clause, invalid_id, new_clause, resolution, variable}
use richard_atp_engine.Core.SymbolTable.{intern}
use richard_atp_engine.Core.TermBank.{make_term, is_variable}
use richard_atp_engine.Core.ClauseStore.{ClauseStore, add_clause}
use richard_atp_engine.Search.ClauseQueue.Listed.{bfs_queue, take_least}
use richard_atp_engine.Search.Prover.{
  ProverConfig, default_config, Prover, new_prover, add_clauses, prove, theorem, process_given,
  expand_given, process_new_clauses, generate_new_clauses, generate_each, should_skip_given,
  apply_backward_subsumption, compute_depth, parent_depth, is_forward_subsumed, erase_if,
  get_empty_clause_id,
}
use richard_atp_engine.Search.Prover.Sound.{prove_sound}
use richard_atp_engine.Search.Prover.Invariant.{NamesEmpty}
use richard_atp_engine.Search.Prover.Refutation.{prove_has_proof}
use richard_atp_engine.Infer.Renaming.{
  apply_literals, bind_fresh, collect_each, collect_variables, fresh_name, fresh_variable,
  rename_variables,
}
use richard_atp_engine.Infer.Substitution.{
  any_of, apply_each, apply_substitution, bind, occurs_in, resolve,
}
use richard_atp_engine.Infer.Unification.{bind_variable, unify, unify_each, unify_terms}
use richard_atp_engine.Infer.Resolution.{
  all_resolvents, factor, factor_pair, factors_at, factors_from, resolve_clauses, resolve_renamed,
  resolvents_at, resolvents_from,
}
use richard_atp_engine.Simplify.Subsumption.{subsumes, all_occur, occurs}
use richard_atp_engine.Simplify.Tautology.{is_tautology, has_pair, has_complement}
use richard_atp_engine.Prelude.Decimal.{digits, to_string}
use richard_atp_engine.Semantics.{Valid}
use richard_atp_engine.Tests.Models.{p_holds}
use richard_atp_engine.Proof.Trace.{ProofStep, extract_proof}
use richard_atp_engine.Proof.Trace.Walk.{IsClosed, AreAncestors, extract_proof_complete}
use richard_atp_engine.Tests.Samples.{
  machine, machine_fits, machine_walks, p_engine, p_engine-IsSound, p_clauses, unit,
}

abbrev pub checked : ProverConfig
checked = record default_config { enable_occurs_check = true }

-- The state with p(X) and ¬p(a) on the queue.
abbrev given : Prover machine checked bfs_queue
given = record {
  engine = p_engine;
  clauses = record {
    store = record (unit 2 true) { id = 0 } ∷ record (unit 3 false) { id = 1 } ∷ [];
    processed = [];
  };
  unprocessed = record (unit 3 false) { id = 1 } ∷ record (unit 2 true) { id = 0 } ∷ [];
  empty_clause_id = none;
}

abbrev refutation_store : ClauseStore
refutation_store =
    record (unit 2 true) { id = 0 }
    ∷ record (unit 3 false) { id = 1 }
    ∷ record new_clause { id = 2; rule = resolution; parent1 = 0; parent2 = 1 }
    ∷ []

-- The state at the end: renaming p(X) has made the variable _R0 and p(_R0).
abbrev refuted : Prover machine checked bfs_queue
refuted = record {
  engine = record {
    bank = record {
      terms =
          p_engine.bank.terms
          ++ record { symbol = 3; args = [] } ∷ record { symbol = 2; args = 4 ∷ [] } ∷ [];
      term_to_id =
          (record { symbol = 2; args = 4 ∷ [] }, 5)
          ∷ (record { symbol = 3; args = [] }, 4)
          ∷ p_engine.bank.term_to_id;
      symbols = record {
        infos =
            p_engine.bank.symbols.infos
            ++ record { name = b'_' ∷ b'R' ∷ b'0' ∷ []; kind = variable; arity = 0; sort = 0 } ∷ [];
        name_to_id = (b'_' ∷ b'R' ∷ b'0' ∷ [], 3) ∷ p_engine.bank.symbols.name_to_id;
      };
    };
    var_counter = 1;
  };
  clauses = record { store = refutation_store; processed = 1 ∷ 0 ∷ [] };
  unprocessed = [];
  empty_clause_id = some 2;
}

given_added :
    add_clauses machine checked bfs_queue p_clauses (new_prover machine checked bfs_queue p_engine)
    ≡ done given
unfolding add_clauses add_clause
given_added = refl

given-refuted : prove machine checked bfs_queue 10 0 given ≡ done (theorem, refuted)
unfolding prove process_given take_least should_skip_given is_tautology has_pair has_complement
    is_forward_subsumed any_of expand_given apply_backward_subsumption erase_if generate_new_clauses
    generate_each factor factors_from factors_at process_new_clauses add_clause intern is_variable
    make_term apply_literals bind_fresh collect_each collect_variables fresh_name fresh_variable
    rename_variables all_resolvents factor_pair resolve_clauses resolve_renamed resolvents_at
    resolvents_from apply_each apply_substitution bind occurs_in resolve bind_variable unify
    unify_each unify_terms digits to_string compute_depth parent_depth all_occur occurs subsumes
given-refuted = refl

prove_sound_example : ¬ All (λ (c : Clause). Valid p_holds p_engine.bank c.literals) p_clauses
prove_sound_example =
    prove_sound machine machine_fits machine_walks checked refl bfs_queue p_clauses p_engine given
      refuted 10 p_engine-IsSound ((omega arith, tt), ((omega arith, tt), tt)) given_added
      given-refuted p_holds

Known : Clause → Type 0
Known c =
    ((c.parent1 ≡ invalid_id) ⊎ (c.parent1 < 3)) × ((c.parent2 ≡ invalid_id) ⊎ (c.parent2 < 3))

All-Known : All Known refutation_store
unfolding Known
All-Known =
    ((inl refl, inl refl), ((inl refl, inl refl), ((inr (omega arith), inr (omega arith)), tt)))

refutation_store-IsClosed : IsClosed refutation_store
unfolding Known
refutation_store-IsClosed i j (c, at, p) =
    let (known1, known2) = All-get_elem? Known refutation_store i c All-Known at in
    ⊎_elim (λ e. subst (λ k. (k ≡ invalid_id) ⊎ (k < 3)) e known1)
      (λ e. subst (λ k. (k ≡ invalid_id) ⊎ (k < 3)) e known2) p

extract_proof_complete_example :
    (out : List ProofStep) × (extract_proof refutation_store 2 ≡ done out)
    × AreAncestors refutation_store 2 (map (λ (p : ProofStep). p.clause_id) out)
extract_proof_complete_example =
    extract_proof_complete refutation_store refutation_store-IsClosed 2 (omega arith) (omega arith)

prove_has_proof_example :
    (id : ℕ) × (out : List ProofStep) × (get_empty_clause_id machine checked bfs_queue refuted
      ≡ some id)
    × NamesEmpty refuted.clauses.store id
    × (extract_proof refuted.clauses.store id ≡ done out)
    × AreAncestors refuted.clauses.store id (map (λ (s : ProofStep). s.clause_id) out)
prove_has_proof_example =
    prove_has_proof machine machine_fits checked bfs_queue p_clauses p_engine given refuted 10
      ((refl, refl), ((refl, refl), tt)) given_added given-refuted
