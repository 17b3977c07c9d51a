-- ===== src/Search/Prover/Sound.antt =====
-- The prover is sound, if the occurs check is on: a theorem is reported only for an unsatisfiable
-- set of clauses.
use richard_atp_engine.Prelude.{
  ℕ, zero, suc, ◌≡◌, ◌<◌, ◌++◌, refl, ap, true, inl, inr, List, [], ◌∷◌, Option, none, some, All,
  All-get_elem?, All-Perm, Permᴰ, Machine, Outcome, done, Post, Post-bind, Post-if, Post-self,
  Post-done, returns, fails, Option-cases, subst, Any,
}
use richard_atp_engine.Core.Types.{Clause, uint32_mod, is_empty}
use richard_atp_engine.Semantics.{Structure, Holds, Valid}
use richard_atp_engine.Semantics.Laws.{InBank}
use richard_atp_engine.Infer.Renaming.{Engine}
use richard_atp_engine.Infer.Renaming.Fresh.{IsSound}
use richard_atp_engine.Infer.Resolution.Resolvent.{FollowsFrom}
use richard_atp_engine.Infer.Resolution.Sound.{All-FollowsFrom}
use richard_atp_engine.Search.ClauseQueue.{PriorityQueue}
use richard_atp_engine.Search.Prover.{
  ProverConfig, ProverResult, theorem, Prover, new_prover, add_clauses, apply_backward_subsumption,
  should_skip_given, expand_given, process_given, hit_resource_limit, prove,
}
use richard_atp_engine.Search.Prover.Inferences.{AllFollow, generate_new_clauses-Inferred}
use richard_atp_engine.Search.Prover.Invariant.{
  NamesEmpty, IsStored, IsSoundState, new_prover-IsSoundState, add_clauses-IsSoundState,
  no_literals, Processed, process_new_clauses-IsSoundState,
}

module _ (M : Structure) (m : Machine) (cap : m.capacity < uint32_mod)
    (walks : (xs : List ℕ) → Permᴰ xs (m.iteration xs)) (config : ProverConfig)
    (on : config.enable_occurs_check ≡ true) (Q : PriorityQueue config.comparator) where
  -- After a theorem the state names an empty clause.
  abbrev Ended : ProverResult × Prover m config Q → Type 0
  Ended (r, p') =
      IsSoundState M m cap config Q p' × (r ≡ theorem → (id : ℕ) × (p'.empty_clause_id ≡ some id))

  abbrev Round : Option ProverResult × Prover m config Q → Type 0
  Round (r, p') =
      IsSoundState M m cap config Q p'
      × (r ≡ some theorem → (id : ℕ) × (p'.empty_clause_id ≡ some id))

  finish-Round :
      (derived : Option ℕ) (p' : Prover m config Q)
      → Processed M m cap config Q (derived, p')
      → Post Round (elim derived [
        | none ↦ done (none, p')
        | some id ↦ done (some theorem, record p' { empty_clause_id = some id })
      ])
  finish-Round none p' (inv, names) = returns (inv, λ e. cc)
  finish-Round (some id) p' (inv, names) = returns (
    record {
      engine = inv.engine;
      stored = inv.stored;
      queued = inv.queued;
      recorded = λ i e. names i e;
    },
    λ _. (id, refl),
  )

  expand_given-Round :
      (given : Clause) (p : Prover m config Q)
      → IsSoundState M m cap config Q p
      → FollowsFrom M p.engine given.literals
      → Post Round (expand_given m config Q given p)
  unfolding expand_given
  expand_given-Round given p inv f =
      Post-bind (Post-self (apply_backward_subsumption p.clauses given)) λ kept _.
        Post-bind
          (generate_new_clauses-Inferred M m cap walks config on
            (record { store = p.clauses.store; processed = kept }) given p.engine inv.engine
            inv.stored f)
          λ (ncs, e) new.
            Post-bind
              (process_new_clauses-IsSoundState M m cap config Q ncs
                (record p {
                  engine = e;
                  clauses = record { store = p.clauses.store; processed = kept ++ given.id ∷ [] };
                })
                (record {
                  engine = new.sound;
                  stored =
                      All-FollowsFrom M p.engine e p.clauses.store inv.engine new.extends
                        inv.stored;
                  queued = inv.queued;
                  recorded = inv.recorded;
                })
                new.conclusions)
              λ (derived, p') processed. finish-Round derived p' processed

  -- A round for a clause of the store keeps the invariant, and ends with a theorem only if the
  -- state then names an empty clause.
  process_given-Round :
      (given : Clause) (p : Prover m config Q)
      → IsSoundState M m cap config Q p
      → IsStored p.clauses.store given
      → Post Round (process_given m config Q given p)
  unfolding process_given
  process_given-Round given p inv at =
      let f =
        All-get_elem? (λ (c : Clause). FollowsFrom M p.engine c.literals) p.clauses.store given.id
          given inv.stored at in
      Post-if (is_empty given)
        (λ empty. returns (
          record {
            engine = inv.engine;
            stored = inv.stored;
            queued = inv.queued;
            recorded =
                λ i e. subst (NamesEmpty p.clauses.store) (cc) (given, at, no_literals given empty);
          },
          λ _. (given.id, refl),
        ))
        λ _. Post-bind (Post-self (should_skip_given p.clauses given)) λ skip _.
          Post-if skip (λ _. returns (inv, λ e. cc)) (λ _. expand_given-Round given p inv f)

  take_given :
      (p : Prover m config Q) (given : Clause) (rest : Q.Queue)
      → Q.pop p.unprocessed ≡ some (given, rest)
      → IsSoundState M m cap config Q p
      → IsSoundState M m cap config Q (record p { unprocessed = rest })
        × IsStored p.clauses.store given
  take_given p given rest e inv =
      let all =
        All-Perm (IsStored p.clauses.store) (Q.pop-some p.unprocessed given rest e) inv.queued in
      (
        record {
          engine = inv.engine;
          stored = inv.stored;
          queued = all.1;
          recorded = inv.recorded;
        },
        all.0,
      )

  go_on :
      (again : Prover m config Q → Outcome (ProverResult × Prover m config Q))
      → ((p : Prover m config Q) → IsSoundState M m cap config Q p → Post Ended (again p))
      → (r : Option ProverResult) (p' : Prover m config Q) → Round (r, p')
      → Post Ended (elim r [ some result ↦ done (result, p') | none ↦ again p' ])
  go_on again keeps none p' (inv, _) = keeps p' inv
  go_on again keeps (some r) p' (inv, ends) = returns (inv, λ e. ends (ap some e))

  -- The loop keeps the invariant, and a theorem comes with the number of an empty clause.
  pub prove-Ended :
      (f n : ℕ) (p : Prover m config Q)
      → IsSoundState M m cap config Q p
      → Post Ended (prove m config Q f n p)
  unfolding prove
  prove-Ended zero n p inv = fails
  prove-Ended (suc f) n p inv = elim (Option-cases (Q.pop p.unprocessed)) [
    | inl empty ↦ rw (empty, prove) (returns (inv, λ e. cc))
    | inr ((given, rest), e) ↦
        rw (e, prove)
          (Post-if (hit_resource_limit m config Q n p) (λ _. returns (inv, λ q. cc))
            λ _.
              let (inv', at) = take_given p given rest e inv in
              Post-bind (process_given-Round given (record p { unprocessed = rest }) inv' at)
                λ (r, p') round.
                  go_on (prove m config Q f (suc n)) (prove-Ended f (suc n)) r p' round)
  ]

module _ (m : Machine) (cap : m.capacity < uint32_mod)
    (walks : (xs : List ℕ) → Permᴰ xs (m.iteration xs)) (config : ProverConfig)
    (on : config.enable_occurs_check ≡ true) (Q : PriorityQueue config.comparator) where
  -- An empty clause that is in the store is valid in no structure.
  no_model :
      (M : Structure) (p : Prover m config Q) (id : ℕ)
      → IsSoundState M m cap config Q p
      → NamesEmpty p.clauses.store id
      → ⊥
  no_model M p id inv (c, at, empty) =
      let f =
        All-get_elem? (λ (c : Clause). FollowsFrom M p.engine c.literals) p.clauses.store id c
          inv.stored at in
      subst (Any (Holds M p.engine.bank (λ _. M.point))) empty (f.valid (λ _. M.point))

  -- If the occurs check is on, the capacity is below 2³² and hash maps are walked in the order
  -- of some permutation, then a run of `prove` that reports a theorem, in a state made by
  -- `addClauses` from a well-formed engine and clauses over its bank, was given an unsatisfiable
  -- set of clauses: no structure makes all of them valid.
  pub prove_sound :
      (cs : List Clause) (e : Engine) (p p' : Prover m config Q) (fuel : ℕ)
      → IsSound e
      → All (λ (c : Clause). InBank e.bank c.literals) cs
      → add_clauses m config Q cs (new_prover m config Q e) ≡ done p
      → prove m config Q fuel 0 p ≡ done (theorem, p')
      → (M : Structure) → ¬ All (λ (c : Clause). Valid M e.bank c.literals) cs
  prove_sound cs e p p' fuel ok inside start run M model =
      let given = All-zip cs inside model in
      let (inv, same) =
        Post-done
          (add_clauses-IsSoundState M m cap config Q cs (new_prover m config Q e)
            (new_prover-IsSoundState M m cap config Q e ok) given)
          start in
      let (inv', ends) = Post-done (prove-Ended M m cap walks config on Q fuel 0 p inv) run in
      let (id, named) = ends refl in no_model M p' id inv' (inv'.recorded id named)
    where
      All-zip :
          (ds : List Clause)
          → All (λ (c : Clause). InBank e.bank c.literals) ds
          → All (λ (c : Clause). Valid M e.bank c.literals) ds
          → AllFollow M e ds
      All-zip [] a b = tt
      All-zip (d ∷ ds) a b = (record { inside = a.0; valid = b.0 }, All-zip ds a.1 b.1)
