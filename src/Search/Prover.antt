-- ===== src/Search/Prover.antt =====
-- include/atp/search/prover.h and src/search/prover.cc: the given-clause loop.
pub mod Inferences
pub mod Invariant
pub mod Sound
pub mod Rounds
pub mod Ancestry
pub mod Rooted
pub mod Inside
pub mod Refutation
use richard_atp_engine.Prelude.{
  ℕ, zero, suc, ◌+◌, ◌%◌, Bool, true, false, ◌||◌, List, [], ◌∷◌, ◌++◌, Option, none, some, length,
  leb, ◌==◌, if◌then◌else◌, Outcome, done, failed, ◌>>=◌, diverged, Machine,
}
use Prim.Native.Nat.{max}
use richard_atp_engine.Core.Types.{Clause, invalid_id, is_empty, uint16_mod}
use richard_atp_engine.Core.ClauseStore.{ClauseStore, add_clause, get_clause}
use richard_atp_engine.Infer.Substitution.{any_of}
use richard_atp_engine.Infer.Unification.{UnificationConfig}
use richard_atp_engine.Infer.Renaming.{Engine}
use richard_atp_engine.Infer.Resolution.{all_resolvents, factor}
use richard_atp_engine.Simplify.Subsumption.{subsumes}
use richard_atp_engine.Simplify.Tautology.{is_tautology}
use richard_atp_engine.Search.ClauseQueue.{ClauseComparator, bfs_compare, PriorityQueue}

pub data ProverResult : Type 0 where
  theorem saturation timeout : ProverResult

pub record ProverConfig : Type 0 where
  pub comparator : ClauseComparator
  pub max_clauses : ℕ
  pub max_iterations : ℕ
  pub enable_occurs_check : Bool

-- The initial values of the members, with which `main` runs.
abbrev pub default_config : ProverConfig
default_config = record {
  comparator = bfs_compare;
  max_clauses = 100000;
  max_iterations = 500000;
  enable_occurs_check = false;
}

-- The part of the prover that its helpers read and write: the store and the clauses that are
-- already processed.
pub record Clauses : Type 0 where
  pub store : ClauseStore
  pub processed : List ℕ

-- Erases the numbers that pass a test, which can fail to return.
unfoldable pub erase_if : (ℕ → Outcome Bool) → List ℕ → Outcome (List ℕ)
erase_if test [] = done []
erase_if test (i ∷ is) = do
  hit ← test i
  rest ← erase_if test is
  done (if hit then rest else i ∷ rest)

-- `Prover::isForwardSubsumedByProcessed`.
unfoldable pub is_forward_subsumed : Clauses → Clause → Outcome Bool
is_forward_subsumed s c =
    any_of (λ i. get_clause s.store i >>= λ p. done (subsumes p c)) s.processed

-- `Prover::shouldSkipGiven`.
unfoldable pub should_skip_given : Clauses → Clause → Outcome Bool
should_skip_given s given =
    let subsumed = is_forward_subsumed s given in if is_tautology given then done true else subsumed

-- `Prover::applyBackwardSubsumption`: the processed clauses that stay.
unfoldable pub apply_backward_subsumption : Clauses → Clause → Outcome (List ℕ)
apply_backward_subsumption s given =
    erase_if (λ i. get_clause s.store i >>= λ p. done (subsumes given p)) s.processed

-- The depth of a parent, or 0 where there is none.
unfoldable pub parent_depth : ClauseStore → ℕ → Outcome ℕ
parent_depth s i =
    let known = get_clause s i >>= λ p. done p.depth in if i == invalid_id then done 0 else known

-- `Prover::computeDepth`.
unfoldable pub compute_depth : ClauseStore → Clause → Outcome ℕ
compute_depth s c = do
  d1 ← parent_depth s c.parent1
  d2 ← parent_depth s c.parent2
  done ((max d1 d2 + 1) % uint16_mod)

module _ (m : Machine) (config : ProverConfig) where
  abbrev pub unification : UnificationConfig
  unification = record { enable_occurs_check = config.enable_occurs_check }

  -- The loop of `generateNewClauses` over the processed clauses.
  unfoldable pub generate_each :
      ClauseStore → Clause → List ℕ → Engine → Outcome (List Clause × Engine)
  generate_each s given [] e = done ([], e)
  generate_each s given (i ∷ is) e = do
    pc ← get_clause s i
    (resolvents1, e₁) ← all_resolvents m unification given pc e
    (resolvents2, e₂) ← all_resolvents m unification pc given e₁
    (rest, e₃) ← generate_each s given is e₂
    done (resolvents1 ++ (resolvents2 ++ rest), e₃)

  -- `Prover::generateNewClauses`.
  unfoldable pub generate_new_clauses : Clauses → Clause → Engine → Outcome (List Clause × Engine)
  generate_new_clauses s given e = do
    (resolvents, e₁) ← generate_each s.store given s.processed e
    (factors, b) ← factor m unification given e₁.bank
    done (resolvents ++ factors, record e₁ { bank = b })

  module _ (Q : PriorityQueue config.comparator) where
    pub record Prover : Type 0 where
      pub engine : Engine
      pub clauses : Clauses
      pub unprocessed : Q.Queue
      pub empty_clause_id : Option ℕ

    -- `Prover::Prover`, over an empty store.
    abbrev pub new_prover : Engine → Prover
    new_prover e = record {
      engine = e;
      clauses = record { store = []; processed = [] };
      unprocessed = Q.empty;
      empty_clause_id = none;
    }

    abbrev pub with_store : Prover → ClauseStore → Prover
    with_store p s = record p { clauses = record { store = s; processed = p.clauses.processed } }

    -- `Prover::addClauses`.
    unfoldable pub add_clauses : List Clause → Prover → Outcome Prover
    add_clauses [] p = done p
    add_clauses (c ∷ cs) p = do
      (id, store) ← add_clause m (record c { depth = 0 }) p.clauses.store
      stored ← get_clause store id
      add_clauses cs (record (with_store p store) { unprocessed = Q.push stored p.unprocessed })

    -- `Prover::hitResourceLimit`.
    abbrev pub hit_resource_limit : ℕ → Prover → Bool
    hit_resource_limit iterations p =
        leb config.max_iterations iterations || leb config.max_clauses (length p.clauses.store)

    -- `Prover::processNewClauses`: the number of an empty clause, if there is one.
    unfoldable pub process_new_clauses : List Clause → Prover → Outcome (Option ℕ × Prover)
    process_new_clauses [] p = done (none, p)
    process_new_clauses (nc ∷ ncs) p =
        let continue = process_new_clauses ncs in
        let keep = compute_depth p.clauses.store nc >>= λ depth.
        add_clause m (record nc { depth = depth }) p.clauses.store >>= λ (nid, store).
        get_clause store nid >>= λ stored.
        is_forward_subsumed (with_store p store).clauses stored >>= λ subsumed.
        if subsumed
        then continue (with_store p store)
        else continue (record (with_store p store) { unprocessed = Q.push stored p.unprocessed }) in
        let found =
          add_clause m nc p.clauses.store >>= λ (id, store). done (some id, with_store p store) in
        let skip = continue p in
        if is_empty nc then found else if is_tautology nc then skip else keep

    -- The rest of a round of `prove` after the given clause has been kept.
    unfoldable pub expand_given : Clause → Prover → Outcome (Option ProverResult × Prover)
    expand_given given p = do
      kept ← apply_backward_subsumption p.clauses given
      let before : Clauses = record { store = p.clauses.store; processed = kept }
      (new_clauses, e) ← generate_new_clauses before given p.engine
      (derived, p') ← process_new_clauses new_clauses (record p {
        engine = e;
        clauses = record { store = p.clauses.store; processed = kept ++ given.id ∷ [] };
      })
      elim derived [
        | none ↦ done (none, p')
        | some id ↦ done (some theorem, record p' { empty_clause_id = some id })
      ]

    -- The body of the loop of `prove` for a given clause: a result, or none to go on.
    unfoldable pub process_given : Clause → Prover → Outcome (Option ProverResult × Prover)
    process_given given p =
        let go_on = should_skip_given p.clauses given >>= λ skip.
        if skip then done (none, p) else expand_given given p in
        if is_empty given
        then done (some theorem, record p { empty_clause_id = some given.id })
        else go_on

    -- `Prover::prove`, one round of its loop on each unit of fuel.
    unfoldable pub prove : ℕ → ℕ → Prover → Outcome (ProverResult × Prover)
    prove zero iterations p = failed diverged
    prove (suc f) iterations p = elim (Q.pop p.unprocessed) [
      | none ↦ done (saturation, p)
      | some (given, rest) ↦
          if hit_resource_limit iterations p
          then done (timeout, p)
          else (process_given given (record p { unprocessed = rest }) >>= λ (r, p'). elim r [
            | some result ↦ done (result, p')
            | none ↦ prove f (suc iterations) p'
          ])
    ]

    -- `Prover::getEmptyClauseId`.
    abbrev pub get_empty_clause_id : Prover → Option ℕ
    get_empty_clause_id p = p.empty_clause_id
