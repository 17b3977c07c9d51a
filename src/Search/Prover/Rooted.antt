-- ===== src/Search/Prover/Rooted.antt =====
-- The state of the prover keeps a store in which every clause is above its parents.
use richard_atp_engine.Prelude.{
  ℕ, ◌<◌, ◌≡◌, sym, subst, List, [], ◌∷◌, Option, some, All, All-map_pred, All-Perm, length,
  get_elem?, arith, Machine, Post, Post-bind, Post-if, Post-self, Post-expect_some, returns,
}
use richard_atp_engine.Core.Types.{Clause, uint32_mod, is_empty}
use richard_atp_engine.Core.ClauseStore.{ClauseStore}
use richard_atp_engine.Simplify.Tautology.{is_tautology}
use richard_atp_engine.Search.ClauseQueue.{PriorityQueue}
use richard_atp_engine.Search.Prover.{
  ProverConfig, Prover, with_store, add_clauses, compute_depth, is_forward_subsumed,
  process_new_clauses,
}
use richard_atp_engine.Search.Prover.Invariant.{IsStored, NamesEmpty, no_literals}
use richard_atp_engine.Search.Prover.Ancestry.{
  IsBelow, IsRooted, AllBelow-le, AddedRooted, add_clause-AddedRooted,
}

module _ (m : Machine) (cap : m.capacity < uint32_mod) (config : ProverConfig)
    (Q : PriorityQueue config.comparator) where
  pub record IsRootedState (p : Prover m config Q) : Type 0 where
    pub store : IsRooted m p.clauses.store
    pub queued : All (IsStored p.clauses.store) (Q.elements p.unprocessed)

  -- A clause is added, and the rest of the state is as it was.
  added_state :
      (p : Prover m config Q) (c : Clause) (r : ℕ × ClauseStore)
      → IsRootedState p
      → AddedRooted m c p.clauses.store r
      → IsRootedState (with_store m config Q p r.1)
  added_state p c r inv added = record {
    store = added.rooted;
    queued = All-map_pred (Q.elements p.unprocessed) (λ d h. added.keeps d h) inv.queued;
  }

  -- And it is put on the queue.
  pushed_state :
      (p : Prover m config Q) (c stored : Clause) (r : ℕ × ClauseStore)
      → IsRootedState p
      → AddedRooted m c p.clauses.store r
      → get_elem? r.1 r.0 ≡ some stored
      → IsRootedState
          (record (with_store m config Q p r.1) { unprocessed = Q.push stored p.unprocessed })
  pushed_state p c stored r inv added at = record {
    store = added.rooted;
    queued = All-Perm _ (Q.elements-push stored p.unprocessed) (
      subst (λ i. get_elem? r.1 i ≡ some stored) (sym (added.rooted.numbered r.0 stored at)) at,
      (added_state p c r inv added).queued,
    );
  }

  pub add_clauses-IsRootedState :
      (cs : List Clause) (p : Prover m config Q)
      → IsRootedState p
      → All (IsBelow 0) cs
      → Post IsRootedState (add_clauses m config Q cs p)
  unfolding add_clauses
  add_clauses-IsRootedState [] p inv h = returns inv
  add_clauses-IsRootedState (c ∷ cs) p inv h =
      Post-bind
        (add_clause-AddedRooted m cap (record c { depth = 0 }) p.clauses.store inv.store
          (AllBelow-le 0 (length p.clauses.store) (c ∷ []) (omega arith) (h.0, tt)).0)
        λ (id, store) added. Post-bind (Post-expect_some (λ (stored : Clause) at. at)) λ stored at.
          add_clauses-IsRootedState cs _
            (pushed_state p (record c { depth = 0 }) stored (id, store) inv added at) h.1

  -- A number that is returned is that of an empty clause of the store.
  abbrev pub Found : Option ℕ × Prover m config Q → Type 0
  Found (r, p') = IsRootedState p' × ((id : ℕ) → r ≡ some id → NamesEmpty p'.clauses.store id)

  pub process_new_clauses-Found :
      (ncs : List Clause) (p : Prover m config Q)
      → IsRootedState p
      → All (IsBelow (length p.clauses.store)) ncs
      → Post Found (process_new_clauses m config Q ncs p)
  unfolding process_new_clauses
  process_new_clauses-Found [] p inv h = returns (inv, λ id e. cc)
  process_new_clauses-Found (nc ∷ ncs) p inv h =
      Post-if (is_empty nc)
        (λ empty.
          Post-bind (add_clause-AddedRooted m cap nc p.clauses.store inv.store h.0)
            λ (id, store) added. returns (
              added_state p nc (id, store) inv added,
              λ i e.
                  subst (NamesEmpty store) (same_number id i e)
                    (record nc { id = id }, added.at, no_literals nc empty),
            ))
        λ _.
          Post-if (is_tautology nc) (λ _. process_new_clauses-Found ncs p inv h.1)
            λ _. Post-bind (Post-self (compute_depth p.clauses.store nc)) λ depth _.
              Post-bind
                (add_clause-AddedRooted m cap (record nc { depth = depth }) p.clauses.store
                  inv.store h.0)
                λ (nid, store) added.
                  let more =
                    AllBelow-le (length p.clauses.store) (length store) ncs
                      (omega (arith, added.longer)) h.1 in
                  Post-bind (Post-expect_some (λ (stored : Clause) at. at)) λ stored at.
                    Post-bind
                      (Post-self
                        (is_forward_subsumed (with_store m config Q p store).clauses stored))
                      λ subsumed _.
                        Post-if subsumed
                          (λ _.
                            process_new_clauses-Found ncs (with_store m config Q p store)
                              (added_state p (record nc { depth = depth }) (nid, store) inv added)
                              more)
                          (λ _.
                            process_new_clauses-Found ncs _
                              (pushed_state p (record nc { depth = depth }) stored (nid, store) inv
                                added at)
                              more)
    where
      same_number : (id i : ℕ) → some id ≡ some i → id ≡ i
      same_number id i e = cc
