-- ===== src/Search/Prover/Invariant.antt =====
-- The invariant of the prover's state, and that adding clauses keeps it.
use richard_atp_engine.Prelude.{
  ℕ, suc, ◌≡◌, ◌<◌, refl, sym, ◌∙◌, true, List, [], ◌∷◌, Option, some, All, All-append,
  All-map_pred, All-Perm, Machine, Post, Post-bind, Post-if, Post-self, Post-expect_some, returns,
  length, get_elem?, ◌==◌, arith, subst,
}
use richard_atp_engine.Core.Types.{Literal, Clause, uint32_mod, is_empty}
use richard_atp_engine.Core.ClauseStore.{ClauseStore}
use richard_atp_engine.Core.ClauseStore.Laws.{Added, add_clause-Added}
use richard_atp_engine.Semantics.{Structure}
use richard_atp_engine.Infer.Renaming.{Engine}
use richard_atp_engine.Infer.Renaming.Fresh.{IsSound}
use richard_atp_engine.Infer.Resolution.Resolvent.{FollowsFrom}
use richard_atp_engine.Simplify.Tautology.{is_tautology}
use richard_atp_engine.Search.ClauseQueue.{PriorityQueue}
use richard_atp_engine.Search.Prover.{
  ProverConfig, Prover, new_prover, with_store, add_clauses, compute_depth, is_forward_subsumed,
  process_new_clauses,
}
use richard_atp_engine.Search.Prover.Inferences.{AllFollow}

-- A number of the store that names a clause with no literals.
abbrev pub NamesEmpty : ClauseStore → ℕ → Type 0
NamesEmpty s id = (c : Clause) × (get_elem? s id ≡ some c) × (c.literals ≡ [])

-- A clause that stands in the store under its own number.
abbrev pub IsStored : ClauseStore → Clause → Type 0
IsStored s c = get_elem? s c.id ≡ some c

module _ (M : Structure) (m : Machine) (cap : m.capacity < uint32_mod) (config : ProverConfig)
    (Q : PriorityQueue config.comparator) where
  pub record IsSoundState (p : Prover m config Q) : Type 0 where
    pub engine : IsSound p.engine
    pub stored : AllFollow M p.engine p.clauses.store
    pub queued : All (IsStored p.clauses.store) (Q.elements p.unprocessed)
    pub recorded : (id : ℕ) → p.empty_clause_id ≡ some id → NamesEmpty p.clauses.store id

  pub new_prover-IsSoundState : (e : Engine) → IsSound e → IsSoundState (new_prover m config Q e)
  new_prover-IsSoundState e ok = record {
    engine = ok;
    stored = tt;
    queued = rw Q.elements-empty tt;
    recorded = λ id h. cc;
  }

  module _ (p : Prover m config Q) (inv : IsSoundState p) (c : Clause)
      (f : FollowsFrom M p.engine c.literals) (r : ℕ × ClauseStore)
      (added : Added c p.clauses.store r) where
    -- A clause that follows may be added to the store.
    pub with_store-IsSoundState : IsSoundState (with_store m config Q p r.1)
    with_store-IsSoundState = record {
      engine = inv.engine;
      stored = rw added.store (All-append _ p.clauses.store _ inv.stored (f, tt));
      queued = All-map_pred (Q.elements p.unprocessed) (λ d h. added.keeps d.id d h) inv.queued;
      recorded = λ id h. let (d, at, empty) = inv.recorded id h in (d, added.keeps id d at, empty);
    }

    -- And it may then be put on the queue.
    pub push-IsSoundState :
        (stored : Clause)
        → get_elem? r.1 r.0 ≡ some stored
        → IsSoundState
            (record (with_store m config Q p r.1) { unprocessed = Q.push stored p.unprocessed })
    push-IsSoundState stored at =
        let base = with_store-IsSoundState in
        let id_same : stored.id ≡ r.0 = ap_id (sym at ∙ added.at) in
        record {
          engine = base.engine;
          stored = base.stored;
          queued =
              All-Perm _ (Q.elements-push stored p.unprocessed)
                (subst (λ i. get_elem? r.1 i ≡ some stored) (sym id_same) at, base.queued);
          recorded = base.recorded;
        }
      where
        ap_id : some stored ≡ some (record c { id = r.0 }) → stored.id ≡ r.0
        ap_id e = cc

  -- Under a capacity below 2³², if the invariant of the state holds and the clauses are over the
  -- bank and valid in a structure, then after a call of `addClauses` that returns the invariant
  -- holds and the engine is the same.
  pub add_clauses-IsSoundState :
      (cs : List Clause) (p : Prover m config Q)
      → IsSoundState p
      → AllFollow M p.engine cs
      → Post (λ p'. IsSoundState p' × (p'.engine ≡ p.engine)) (add_clauses m config Q cs p)
  unfolding add_clauses
  add_clauses-IsSoundState [] p inv h = returns (inv, refl)
  add_clauses-IsSoundState (c ∷ cs) p inv h =
      Post-bind (add_clause-Added m (record c { depth = 0 }) p.clauses.store cap)
        λ (id, store) added. Post-bind (Post-expect_some (λ stored at. at)) λ stored at.
          add_clauses-IsSoundState cs _
            (push-IsSoundState p inv (record c { depth = 0 })
              (record { inside = h.0.inside; valid = h.0.valid }) (id, store) added stored at)
            h.1

pub no_literals : (c : Clause) → is_empty c ≡ true → c.literals ≡ []
no_literals c h = List-empty c.literals h
  where
    List-empty : (ls : List Literal) → (length ls == 0) ≡ true → ls ≡ []
    List-empty [] e = refl
    List-empty (l ∷ ls) e = absurd (positive (length ls) e)
      where
        positive : (n : ℕ) → (suc n == 0) ≡ true → ⊥
        positive n q = ground arith

module _ (M : Structure) (m : Machine) (cap : m.capacity < uint32_mod) (config : ProverConfig)
    (Q : PriorityQueue config.comparator) where
  -- The result names an empty clause, if it names one, and the invariant is kept.
  abbrev pub Processed : Option ℕ × Prover m config Q → Type 0
  Processed (r, p') =
      IsSoundState M m cap config Q p' × ((id : ℕ) → r ≡ some id → NamesEmpty p'.clauses.store id)

  -- Under a capacity below 2³², if the invariant of the state holds and the new clauses are over
  -- the bank and valid in a structure, then after a call of `processNewClauses` that returns the
  -- invariant holds, and a number that it returns names an empty clause of the store.
  pub process_new_clauses-IsSoundState :
      (ncs : List Clause) (p : Prover m config Q)
      → IsSoundState M m cap config Q p
      → AllFollow M p.engine ncs
      → Post Processed (process_new_clauses m config Q ncs p)
  unfolding process_new_clauses
  process_new_clauses-IsSoundState [] p inv h = returns (inv, λ id e. cc)
  process_new_clauses-IsSoundState (nc ∷ ncs) p inv h =
      Post-if (is_empty nc)
        (λ empty. Post-bind (add_clause-Added m nc p.clauses.store cap) λ (id, store) added.
          returns (
            with_store-IsSoundState M m cap config Q p inv nc h.0 (id, store) added,
            λ i e.
                subst (NamesEmpty store) (cc)
                  (record nc { id = id }, added.at, no_literals nc empty),
          ))
        λ _.
          Post-if (is_tautology nc) (λ _. process_new_clauses-IsSoundState ncs p inv h.1)
            λ _. Post-bind (Post-self (compute_depth p.clauses.store nc)) λ depth _.
              let f : FollowsFrom M p.engine nc.literals = record {
                inside = h.0.inside;
                valid = h.0.valid;
              } in
              Post-bind (add_clause-Added m (record nc { depth = depth }) p.clauses.store cap)
                λ (id, store) added. Post-bind (Post-expect_some (λ stored at. at)) λ stored at.
                  Post-bind
                    (Post-self (is_forward_subsumed (with_store m config Q p store).clauses stored))
                    λ subsumed _.
                      Post-if subsumed
                        (λ _.
                          process_new_clauses-IsSoundState ncs (with_store m config Q p store)
                            (with_store-IsSoundState M m cap config Q p inv
                              (record nc { depth = depth }) f (id, store) added)
                            h.1)
                        (λ _.
                          process_new_clauses-IsSoundState ncs _
                            (push-IsSoundState M m cap config Q p inv (record nc { depth = depth })
                              f (id, store) added stored at)
                            h.1)
