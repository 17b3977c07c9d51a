-- ===== src/Search/Prover/Inside.antt =====
-- src/search/prover.cc: with or without the occurs check, the clauses of the state stay over its
-- bank, and the bank stays well-formed.
use richard_atp_engine.Prelude.{
  ℕ, zero, suc, ◌≡◌, ◌<◌, ◌++◌, get_elem?, inl, inr, Option-cases, none, some, Option, List, [],
  ◌∷◌, All, All-append, All-get_elem?, All-Perm, Permᴰ, Machine, Outcome, done, Post, Post-bind,
  Post-if, Post-self, Post-done, Post-expect_some, returns, fails,
}
use richard_atp_engine.Core.Types.{Clause, uint32_mod, is_empty}
use richard_atp_engine.Core.ClauseStore.{ClauseStore}
use richard_atp_engine.Core.ClauseStore.Laws.{Added, add_clause-Added}
use richard_atp_engine.Simplify.Tautology.{is_tautology}
use richard_atp_engine.Infer.Renaming.{Engine}
use richard_atp_engine.Infer.Renaming.Fresh.{IsSound}
use richard_atp_engine.Infer.Resolution.Inside.{
  IsOver, All-IsOver, Kept, Kept-nothing, Kept-append, all_resolvents-Kept,
}
use richard_atp_engine.Infer.Resolution.Inside.Factors.{factor-Kept}
use richard_atp_engine.Search.ClauseQueue.{PriorityQueue}
use richard_atp_engine.Search.Prover.{
  ProverConfig, ProverResult, theorem, Prover, Clauses, new_prover, with_store, add_clauses,
  unification, generate_each, generate_new_clauses, compute_depth, is_forward_subsumed,
  process_new_clauses, apply_backward_subsumption, expand_given, should_skip_given, process_given,
  hit_resource_limit, prove,
}

module _ (m : Machine) (cap : m.capacity < uint32_mod)
    (walks : (xs : List ℕ) → Permᴰ xs (m.iteration xs)) (config : ProverConfig) where
  generate_each-Kept :
      (s : ClauseStore) (given : Clause) (is : List ℕ) (e : Engine)
      → IsSound e
      → All (IsOver e.bank) s
      → IsOver e.bank given
      → Post (λ (rs, e'). Kept e.bank rs e'.bank) (generate_each m config s given is e)
  unfolding generate_each
  generate_each-Kept s given [] e ok h f = returns (Kept-nothing e.bank ok.bank ok.table)
  generate_each-Kept s given (i ∷ is) e ok h f = Post-bind (Post-expect_some (λ pc at. at)) λ pc at.
      let g = All-get_elem? (IsOver e.bank) s i pc h at in
      Post-bind (all_resolvents-Kept m cap (unification m config) walks given pc e ok f g)
        λ (rs₁, e₁) one.
          let (g₁, (f₁, _)) = All-IsOver (pc ∷ given ∷ []) one.extends (g, (f, tt)) in
          Post-bind
            (all_resolvents-Kept m cap (unification m config) walks pc given e₁
              (record { bank = one.bank; table = one.table }) g₁ f₁)
            λ (rs₂, e₂) two.
              Post-bind
                (generate_each-Kept s given is e₂ (record { bank = two.bank; table = two.table })
                  (All-IsOver s two.extends (All-IsOver s one.extends h))
                  (All-IsOver (given ∷ []) two.extends (f₁, tt)).0)
                λ (rest, e₃) more.
                  returns (Kept-append rs₁ (rs₂ ++ rest) one (Kept-append rs₂ rest two more))

  generate_new_clauses-Kept :
      (s : Clauses) (given : Clause) (e : Engine)
      → IsSound e
      → All (IsOver e.bank) s.store
      → IsOver e.bank given
      → Post (λ (rs, e'). Kept e.bank rs e'.bank) (generate_new_clauses m config s given e)
  unfolding generate_new_clauses
  generate_new_clauses-Kept s given e ok h f =
      Post-bind (generate_each-Kept s.store given s.processed e ok h f) λ (rs, e₁) first.
        Post-bind
          (factor-Kept m cap (unification m config) given e₁.bank first.bank first.table
            (All-IsOver (given ∷ []) first.extends (f, tt)).0)
          λ (fs, b) factors. returns (Kept-append rs fs first factors)

  module _ (Q : PriorityQueue config.comparator) where
    -- All clauses of the state are over its bank, which is well-formed.
    pub record IsInsideState (p : Prover m config Q) : Type 0 where
      pub engine : IsSound p.engine
      pub stored : All (IsOver p.engine.bank) p.clauses.store
      pub queued : All (IsOver p.engine.bank) (Q.elements p.unprocessed)

    Added-state :
        (p : Prover m config Q) (c : Clause) (r : ℕ × ClauseStore)
        → IsInsideState p
        → IsOver p.engine.bank c
        → Added c p.clauses.store r
        → IsInsideState (with_store m config Q p r.1)
    Added-state p c r inv h added = record {
      engine = inv.engine;
      stored = rw added.store (All-append _ p.clauses.store _ inv.stored (h, tt));
      queued = inv.queued;
    }

    pushed_state :
        (p : Prover m config Q) (stored : Clause) (i : ℕ)
        → IsInsideState p
        → get_elem? p.clauses.store i ≡ some stored
        → IsInsideState (record p { unprocessed = Q.push stored p.unprocessed })
    pushed_state p stored i inv at = record {
      engine = inv.engine;
      stored = inv.stored;
      queued =
          All-Perm _ (Q.elements-push stored p.unprocessed) (
            All-get_elem? (IsOver p.engine.bank) p.clauses.store i stored inv.stored at,
            inv.queued,
          );
    }

    add_clauses-IsInsideState :
        (cs : List Clause) (p : Prover m config Q)
        → IsInsideState p
        → All (IsOver p.engine.bank) cs
        → Post IsInsideState (add_clauses m config Q cs p)
    unfolding add_clauses
    add_clauses-IsInsideState [] p inv h = returns inv
    add_clauses-IsInsideState (c ∷ cs) p inv h =
        Post-bind (add_clause-Added m (record c { depth = 0 }) p.clauses.store cap)
          λ (id, store) added.
            Post-bind (Post-expect_some (λ (stored : Clause) at. at)) λ stored at.
              let base = Added-state p (record c { depth = 0 }) (id, store) inv h.0 added in
              add_clauses-IsInsideState cs _
                (pushed_state (with_store m config Q p store) stored id base at) h.1

    process_new_clauses-IsInsideState :
        (ncs : List Clause) (p : Prover m config Q)
        → IsInsideState p
        → All (IsOver p.engine.bank) ncs
        → Post (λ r. IsInsideState r.1) (process_new_clauses m config Q ncs p)
    unfolding process_new_clauses
    process_new_clauses-IsInsideState [] p inv h = returns inv
    process_new_clauses-IsInsideState (nc ∷ ncs) p inv h =
        Post-if (is_empty nc)
          (λ _.
            Post-bind (add_clause-Added m nc p.clauses.store cap)
              λ (id, store) added. returns (Added-state p nc (id, store) inv h.0 added))
          λ _.
            Post-if (is_tautology nc) (λ _. process_new_clauses-IsInsideState ncs p inv h.1)
              λ _. Post-bind (Post-self (compute_depth p.clauses.store nc)) λ depth _.
                Post-bind (add_clause-Added m (record nc { depth = depth }) p.clauses.store cap)
                  λ (nid, store) added.
                    let base =
                      Added-state p (record nc { depth = depth }) (nid, store) inv h.0 added in
                    Post-bind (Post-expect_some (λ (stored : Clause) at. at)) λ stored at.
                      Post-bind
                        (Post-self
                          (is_forward_subsumed (with_store m config Q p store).clauses stored))
                        λ subsumed _.
                          Post-if subsumed
                            (λ _.
                              process_new_clauses-IsInsideState ncs (with_store m config Q p store)
                                base h.1)
                            (λ _.
                              process_new_clauses-IsInsideState ncs _
                                (pushed_state (with_store m config Q p store) stored nid base at)
                                h.1)

    finish_round :
        (derived : Option ℕ) (p : Prover m config Q)
        → IsInsideState p
        → Post
            (λ (r : Option ProverResult × Prover m config Q). IsInsideState r.1)
            (elim derived [
              | none ↦ done (none, p)
              | some id ↦ done (some theorem, record p { empty_clause_id = some id })
            ])
    finish_round none p inv = returns inv
    finish_round (some id) p inv =
        returns (record { engine = inv.engine; stored = inv.stored; queued = inv.queued })

    process_given-IsInsideState :
        (given : Clause) (p : Prover m config Q)
        → IsInsideState p
        → IsOver p.engine.bank given
        → Post (λ r. IsInsideState r.1) (process_given m config Q given p)
    unfolding process_given expand_given
    process_given-IsInsideState given p inv f =
        Post-if (is_empty given)
          (λ _. returns (record { engine = inv.engine; stored = inv.stored; queued = inv.queued }))
          λ _. Post-bind (Post-self (should_skip_given p.clauses given)) λ skip _.
            Post-if skip (λ _. returns inv)
              λ _. Post-bind (Post-self (apply_backward_subsumption p.clauses given)) λ kept _.
                Post-bind
                  (generate_new_clauses-Kept (record { store = p.clauses.store; processed = kept })
                    given p.engine inv.engine inv.stored f)
                  λ (ncs, e) new.
                    Post-bind
                      (process_new_clauses-IsInsideState ncs
                        (record p {
                          engine = e;
                          clauses = record {
                            store = p.clauses.store;
                            processed = kept ++ given.id ∷ [];
                          };
                        })
                        (record {
                          engine = record { bank = new.bank; table = new.table };
                          stored = All-IsOver p.clauses.store new.extends inv.stored;
                          queued = All-IsOver (Q.elements p.unprocessed) new.extends inv.queued;
                        })
                        new.inside)
                      λ (derived, p') after. finish_round derived p' after

    go_on :
        (again : Prover m config Q → Outcome (ProverResult × Prover m config Q))
        → ((p : Prover m config Q) → IsInsideState p → Post (λ r. IsInsideState r.1) (again p))
        → (r : Option ProverResult) (p' : Prover m config Q) → IsInsideState p'
        → Post
            (λ r. IsInsideState r.1)
            (elim r [ some result ↦ done (result, p') | none ↦ again p' ])
    go_on again keeps none p' inv = keeps p' inv
    go_on again keeps (some r) p' inv = returns inv

    prove-IsInsideState :
        (f n : ℕ) (p : Prover m config Q)
        → IsInsideState p
        → Post (λ r. IsInsideState r.1) (prove m config Q f n p)
    unfolding prove
    prove-IsInsideState zero n p inv = fails
    prove-IsInsideState (suc f) n p inv = elim (Option-cases (Q.pop p.unprocessed)) [
      | inl empty ↦ rw (empty, prove) (returns inv)
      | inr ((given, rest), e) ↦
          let all =
            All-Perm (IsOver p.engine.bank) (Q.pop-some p.unprocessed given rest e) inv.queued in
          rw (e, prove)
            (Post-if (hit_resource_limit m config Q n p) (λ _. returns inv)
              λ _.
                Post-bind
                  (process_given-IsInsideState given (record p { unprocessed = rest })
                    (record { engine = inv.engine; stored = inv.stored; queued = all.1 }) all.0)
                  λ (r, p') round.
                    go_on (prove m config Q f (suc n)) (prove-IsInsideState f (suc n)) r p' round)
    ]

    -- From a well-formed engine and clauses over its bank: whatever result `prove` reports, the
    -- clauses of the state that it leaves are over its bank, which is well-formed.
    pub run-IsInsideState :
        (cs : List Clause) (e : Engine) (p p' : Prover m config Q) (r : ProverResult) (fuel : ℕ)
        → IsSound e
        → All (IsOver e.bank) cs
        → add_clauses m config Q cs (new_prover m config Q e) ≡ done p
        → prove m config Q fuel 0 p ≡ done (r, p')
        → IsInsideState p'
    run-IsInsideState cs e p p' r fuel ok h start run =
        let first : IsInsideState (new_prover m config Q e) = record {
          engine = ok;
          stored = tt;
          queued = rw Q.elements-empty tt;
        } in
        let inv =
          Post-done (add_clauses-IsInsideState cs (new_prover m config Q e) first h) start in
        Post-done (prove-IsInsideState fuel 0 p inv) run
