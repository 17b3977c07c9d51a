-- ===== src/Search/Prover/Refutation.antt =====
-- A theorem that the prover reports comes with a proof: the ancestors of the empty clause can be
-- walked.
use richard_atp_engine.Prelude.{
  ℕ, zero, suc, ◌<◌, ◌≡◌, refl, sym, ap, subst, ◌∙◌, inl, inr, ⊎_elim, List, [], ◌∷◌, ◌++◌, map,
  Option, Option-cases, none, some, All, All-map_pred, All-Perm, length, get_elem?-lt, arith,
  Machine, Outcome, done, Post, Post-bind, Post-if, Post-self, Post-done, returns, fails,
}
use richard_atp_engine.Core.Types.{Clause, invalid_id, uint32_mod, is_empty}
use richard_atp_engine.Core.ClauseStore.{ClauseStore}
use richard_atp_engine.Infer.Renaming.{Engine}
use richard_atp_engine.Proof.Trace.{ProofStep, extract_proof}
use richard_atp_engine.Proof.Trace.Walk.{IsClosed, AreAncestors, extract_proof_complete}
use richard_atp_engine.Search.ClauseQueue.{PriorityQueue}
use richard_atp_engine.Search.Prover.{
  ProverConfig, ProverResult, theorem, Prover, new_prover, add_clauses, should_skip_given,
  apply_backward_subsumption, expand_given, process_given, hit_resource_limit, prove,
  get_empty_clause_id,
}
use richard_atp_engine.Search.Prover.Invariant.{IsStored, NamesEmpty, no_literals}
use richard_atp_engine.Search.Prover.Ancestry.{IsRooted, generate_new_clauses-IsBelow}
use richard_atp_engine.Search.Prover.Rooted.{
  IsRootedState, Found, add_clauses-IsRootedState, process_new_clauses-Found,
}

module _ (m : Machine) (cap : m.capacity < uint32_mod) (config : ProverConfig)
    (Q : PriorityQueue config.comparator) where
  -- After a theorem the state names an empty clause of the store.
  abbrev Names : Prover m config Q → Type 0
  Names p = (id : ℕ) × (p.empty_clause_id ≡ some id) × NamesEmpty p.clauses.store id

  abbrev Round : Option ProverResult × Prover m config Q → Type 0
  Round (r, p') = IsRootedState m cap config Q p' × (r ≡ some theorem → Names p')

  finish-Round :
      (derived : Option ℕ) (p' : Prover m config Q)
      → Found m cap config Q (derived, p')
      → Post Round (elim derived [
        | none ↦ done (none, p')
        | some id ↦ done (some theorem, record p' { empty_clause_id = some id })
      ])
  finish-Round none p' (inv, found) = returns (inv, λ e. cc)
  finish-Round (some id) p' (inv, found) =
      returns (record { store = inv.store; queued = inv.queued }, λ _. (id, refl, found id refl))

  process_given-Round :
      (given : Clause) (p : Prover m config Q)
      → IsRootedState m cap config Q p
      → IsStored p.clauses.store given
      → Post Round (process_given m config Q given p)
  unfolding process_given expand_given
  process_given-Round given p inv at =
      let inside = get_elem?-lt p.clauses.store given.id given at in
      Post-if (is_empty given)
        (λ empty. returns (
          record { store = inv.store; queued = inv.queued },
          λ _. (given.id, refl, (given, at, no_literals given empty)),
        ))
        λ _. Post-bind (Post-self (should_skip_given p.clauses given)) λ skip _.
          Post-if skip (λ _. returns (inv, λ e. cc))
            λ _. Post-bind (Post-self (apply_backward_subsumption p.clauses given)) λ kept _.
              Post-bind
                (generate_new_clauses-IsBelow m cap config
                  (record { store = p.clauses.store; processed = kept }) given p.engine inv.store
                  inside)
                λ (ncs, e) below.
                  Post-bind
                    (process_new_clauses-Found m cap config Q ncs
                      (record p {
                        engine = e;
                        clauses = record {
                          store = p.clauses.store;
                          processed = kept ++ given.id ∷ [];
                        };
                      })
                      (record { store = inv.store; queued = inv.queued }) below)
                    λ (derived, p') found. finish-Round derived p' found

  abbrev Ended : ProverResult × Prover m config Q → Type 0
  Ended (r, p') = IsRootedState m cap config Q p' × (r ≡ theorem → Names p')

  go_on :
      (again : Prover m config Q → Outcome (ProverResult × Prover m config Q))
      → ((p : Prover m config Q) → IsRootedState m cap config Q p → Post Ended (again p))
      → (r : Option ProverResult) (p' : Prover m config Q) → Round (r, p')
      → Post Ended (elim r [ some result ↦ done (result, p') | none ↦ again p' ])
  go_on again keeps none p' (inv, _) = keeps p' inv
  go_on again keeps (some r) p' (inv, names) = returns (inv, λ e. names (ap some e))

  prove-Ended :
      (f n : ℕ) (p : Prover m config Q)
      → IsRootedState m cap config Q p
      → Post Ended (prove m config Q f n p)
  unfolding prove
  prove-Ended zero n p inv = fails
  prove-Ended (suc f) n p inv = elim (Option-cases (Q.pop p.unprocessed)) [
    | inl empty ↦ rw (empty, prove) (returns (inv, λ e. cc))
    | inr ((given, rest), e) ↦
        let all =
          All-Perm (IsStored p.clauses.store) (Q.pop-some p.unprocessed given rest e) inv.queued in
        rw (e, prove)
          (Post-if (hit_resource_limit m config Q n p) (λ _. returns (inv, λ q. cc))
            λ _.
              Post-bind
                (process_given-Round given (record p { unprocessed = rest })
                  (record { store = inv.store; queued = all.1 }) all.0)
                λ (r, p') round.
                  go_on (prove m config Q f (suc n)) (prove-Ended f (suc n)) r p' round)
  ]

  new_prover-IsRootedState : (e : Engine) → IsRootedState m cap config Q (new_prover m config Q e)
  new_prover-IsRootedState e = record {
    store = record { numbered = λ i c h. cc; below = λ i c h. cc; bounded = omega arith };
    queued = rw Q.elements-empty tt;
  }

  rooted-IsClosed : (s : ClauseStore) → IsRooted m s → IsClosed s
  rooted-IsClosed s root i j (c, at, p) =
      let below = root.below i c at in
      let inside = get_elem?-lt s i c at in
      ⊎_elim
        (λ e.
          ⊎_elim (λ absent. inl (sym e ∙ absent))
            (λ l. inr (subst (λ k. k < length s) e (omega arith))) below.0)
        (λ e.
          ⊎_elim (λ absent. inl (sym e ∙ absent))
            (λ l. inr (subst (λ k. k < length s) e (omega arith))) below.1)
        p

  -- Under a capacity below 2³², a run of `prove` that reports a theorem, in a state made by
  -- `addClauses` from clauses without parents, leaves the number of an empty clause of the store, for
  -- which `extractProof` returns: the numbers of its steps are exactly those of that clause and
  -- its ancestors. The occurs check may be on or off.
  pub prove_has_proof :
      (cs : List Clause) (e : Engine) (p p' : Prover m config Q) (fuel : ℕ)
      → All (λ (c : Clause). (c.parent1 ≡ invalid_id) × (c.parent2 ≡ invalid_id)) cs
      → add_clauses m config Q cs (new_prover m config Q e) ≡ done p
      → prove m config Q fuel 0 p ≡ done (theorem, p')
      → (id : ℕ) × (out : List ProofStep) × (get_empty_clause_id m config Q p' ≡ some id)
        × NamesEmpty p'.clauses.store id
        × (extract_proof p'.clauses.store id ≡ done out)
        × AreAncestors p'.clauses.store id (map (λ (s : ProofStep). s.clause_id) out)
  prove_has_proof cs e p p' fuel inputs start run =
      let below =
        All-map_pred cs
          (λ (c : Clause) (h : (c.parent1 ≡ invalid_id) × (c.parent2 ≡ invalid_id)).
            (inl h.0, inl h.1))
          inputs in
      let inv =
        Post-done
          (add_clauses-IsRootedState m cap config Q cs (new_prover m config Q e)
            (new_prover-IsRootedState e) below)
          start in
      let (inv', names) = Post-done (prove-Ended fuel 0 p inv) run in
      let (id, named, (c, at, no_literal)) = names refl in
      let inside = get_elem?-lt p'.clauses.store id c at in
      let (out, walked, ancestors) =
        extract_proof_complete p'.clauses.store (rooted-IsClosed p'.clauses.store inv'.store) id
          (λ absent. let b = inv'.store.bounded in omega (arith, absent, b, cap, inside)) inside in
      (id, out, named, (c, at, no_literal), walked, ancestors)
