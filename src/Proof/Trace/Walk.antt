-- ===== src/Proof/Trace/Walk.antt =====
-- The walk of `extractProof` ends, and finds exactly the ancestors of the clause it starts from.
use richard_atp_engine.Prelude.{
  ℕ, zero, suc, ◌+◌, ◌*◌, ◌≡◌, ◌≢◌, ◌<◌, ◌≤◌, ◌↔◌, ◌⊎◌, inl, inr, ⊎_elim, refl, sym, ap, ◌∙◌, true,
  false, Bool-cases, List, [], ◌∷◌, map, length, some, get_elem?, get_elem?_of_lt, Memᴰ, All,
  All-Mem, done, ◌==◌, ==_iff, arith, subst,
}
use richard_atp_engine.Core.Types.{Clause, invalid_id}
use richard_atp_engine.Core.ClauseStore.{ClauseStore}
use richard_atp_engine.Infer.Renaming.{contains}
use richard_atp_engine.Proof.Trace.Visited.{
  unvisited, unvisited-cons, unvisited-nil, contains_sound,
}
use richard_atp_engine.Proof.Trace.{ProofStep, step_of, walk, enough_rounds, extract_proof}

-- The clause `i` has `j` for a parent.
abbrev pub IsParent : ClauseStore → ℕ → ℕ → Type 0
IsParent s i j = (c : Clause) × (get_elem? s i ≡ some c) × ((c.parent1 ≡ j) ⊎ (c.parent2 ≡ j))

-- The numbers that parents lead to from a clause, that of no clause among them.
pub data Ancestor (s : ClauseStore) (root : ℕ) : ℕ → Type 0 where
  self : Ancestor s root root
  parent : {i j : ℕ} → Ancestor s root i → i ≢ invalid_id → IsParent s i j → Ancestor s root j

-- Every parent is a clause of the store, or none.
abbrev pub IsClosed : ClauseStore → Type 0
IsClosed s = (i j : ℕ) → IsParent s i j → (j ≡ invalid_id) ⊎ (j < length s)

abbrev ids : List ProofStep → List ℕ
ids = map (λ (p : ProofStep). p.clause_id)

-- The state of the walk: what has been visited, and what is on the stack.
record Inv (s : ClauseStore) (root : ℕ) (visited work : List ℕ) : Type 0 where
  seen : All (λ i. Ancestor s root i × (i ≢ invalid_id)) visited
  waiting : All (Ancestor s root) work
  in_store : All (λ i. (i ≡ invalid_id) ⊎ (i < length s)) work
  closed :
      (i j : ℕ)
      → Memᴰ i visited
      → IsParent s i j
      → (j ≡ invalid_id) ⊎ (Memᴰ j visited ⊎ Memᴰ j work)
  started : Memᴰ root visited ⊎ Memᴰ root work

-- The ids of the steps are the ancestors of the root.
abbrev pub AreAncestors : ClauseStore → ℕ → List ℕ → Type 0
AreAncestors s root is = (i : ℕ) → Memᴰ i is ↔ (Ancestor s root i × (i ≢ invalid_id))

not_none : (x : ℕ) → (x == invalid_id) ≡ false → x ≢ invalid_id
not_none x h e = ground arith

module _ (f : ℕ) (s : ClauseStore) (x : ℕ) where
  walk_none :
      (visited work : List ℕ) (steps : List ProofStep)
      → (x == invalid_id) ≡ true
      → walk (suc f) s visited (x ∷ work) steps ≡ walk f s visited work steps
  unfolding walk
  walk_none visited work steps h = rw h

  walk_old :
      (visited work : List ℕ) (steps : List ProofStep)
      → (x == invalid_id) ≡ false
      → contains x visited ≡ true
      → walk (suc f) s visited (x ∷ work) steps ≡ walk f s visited work steps
  unfolding walk
  walk_old visited work steps h k = rw (h, k)

  walk_new :
      (c : Clause) (visited work : List ℕ) (steps : List ProofStep)
      → (x == invalid_id) ≡ false
      → contains x visited ≡ false
      → get_elem? s x ≡ some c
      → walk (suc f) s visited (x ∷ work) steps
        ≡ walk f s (x ∷ visited) (c.parent2 ∷ c.parent1 ∷ work) (step_of x c ∷ steps)
  unfolding walk
  walk_new c visited work steps h k at = rw (h, k, at)

module _ (s : ClauseStore) (closed_store : IsClosed s) (root : ℕ) (known : root ≢ invalid_id) where
  Memᴰ-drop :
      (i x : ℕ) (visited work : List ℕ)
      → (x ≡ invalid_id) ⊎ Memᴰ x visited
      → (i ≡ invalid_id) ⊎ (Memᴰ i visited ⊎ Memᴰ i (x ∷ work))
      → (i ≡ invalid_id) ⊎ (Memᴰ i visited ⊎ Memᴰ i work)
  Memᴰ-drop i x visited work gone (inl none) = inl none
  Memᴰ-drop i x visited work gone (inr (inl v)) = inr (inl v)
  Memᴰ-drop i x visited work (inl none) (inr (inr (Memᴰ.head e))) = inl (e ∙ none)
  Memᴰ-drop i x visited work (inr v) (inr (inr (Memᴰ.head e))) =
      inr (inl (subst (λ y. Memᴰ y visited) (sym e) v))
  Memᴰ-drop i x visited work gone (inr (inr (Memᴰ.tail m))) = inr (inr m)

  -- A number that is none or has been visited leaves the stack.
  skip-Inv :
      (x : ℕ) (visited work : List ℕ)
      → (x ≡ invalid_id) ⊎ Memᴰ x visited
      → Inv s root visited (x ∷ work)
      → Inv s root visited work
  skip-Inv x visited work gone inv = record {
    seen = inv.seen;
    waiting = inv.waiting.1;
    in_store = inv.in_store.1;
    closed = λ i j m p. Memᴰ-drop j x visited work gone (inv.closed i j m p);
    started =
        ⊎_elim (λ none. absurd (known none)) (λ h. h)
          (Memᴰ-drop root x visited work gone (inr inv.started));
  }

  -- A new clause is visited, and its parents go on the stack.
  visit-Inv :
      (x : ℕ) (c : Clause) (visited work : List ℕ)
      → get_elem? s x ≡ some c
      → x ≢ invalid_id
      → Inv s root visited (x ∷ work)
      → Inv s root (x ∷ visited) (c.parent2 ∷ c.parent1 ∷ work)
  visit-Inv x c visited work at valid inv =
      let p1 : IsParent s x c.parent1 = (c, at, inl refl) in
      let p2 : IsParent s x c.parent2 = (c, at, inr refl) in
      record {
        seen = ((inv.waiting.0, valid), inv.seen);
        waiting = (
          Ancestor.parent inv.waiting.0 valid p2,
          (Ancestor.parent inv.waiting.0 valid p1, inv.waiting.1),
        );
        in_store = (closed_store x c.parent2 p2, (closed_store x c.parent1 p1, inv.in_store.1));
        closed = λ i j m p. visit_closed i j m p;
        started = ⊎_elim (λ v. inl (Memᴰ.tail v)) (λ w. start w) inv.started;
      }
    where
      start :
          Memᴰ root (x ∷ work) → Memᴰ root (x ∷ visited) ⊎ Memᴰ root (c.parent2 ∷ c.parent1 ∷ work)
      start (Memᴰ.head e) = inl (Memᴰ.head e)
      start (Memᴰ.tail m) = inr (Memᴰ.tail (Memᴰ.tail m))

      keep :
          (j : ℕ)
          → (j ≡ invalid_id) ⊎ (Memᴰ j visited ⊎ Memᴰ j (x ∷ work))
          → (j ≡ invalid_id) ⊎ (Memᴰ j (x ∷ visited) ⊎ Memᴰ j (c.parent2 ∷ c.parent1 ∷ work))
      keep j (inl none) = inl none
      keep j (inr (inl v)) = inr (inl (Memᴰ.tail v))
      keep j (inr (inr (Memᴰ.head e))) = inr (inl (Memᴰ.head e))
      keep j (inr (inr (Memᴰ.tail m))) = inr (inr (Memᴰ.tail (Memᴰ.tail m)))

      visit_closed :
          (i j : ℕ)
          → Memᴰ i (x ∷ visited)
          → IsParent s i j
          → (j ≡ invalid_id) ⊎ (Memᴰ j (x ∷ visited) ⊎ Memᴰ j (c.parent2 ∷ c.parent1 ∷ work))
      visit_closed i j (Memᴰ.tail m) p = keep j (inv.closed i j m p)
      visit_closed i j (Memᴰ.head e) (d, at_i, inl first) = inr (
          inr (
            Memᴰ.tail
              (Memᴰ.head (sym first ∙ ap (λ (y : Clause). y.parent1) (one_clause i d e at_i)))))
        where
          one_clause : (k : ℕ) (y : Clause) → k ≡ x → get_elem? s k ≡ some y → y ≡ c
          one_clause k y same at_k = cc
      visit_closed i j (Memᴰ.head e) (d, at_i, inr second) =
          inr
            (inr (Memᴰ.head (sym second ∙ ap (λ (y : Clause). y.parent2) (one_clause i d e at_i))))
        where
          one_clause : (k : ℕ) (y : Clause) → k ≡ x → get_elem? s k ≡ some y → y ≡ c
          one_clause k y same at_k = cc

  -- The walk returns within as many rounds as there are numbers on the stack and twice the clauses
  -- that are not visited, and leaves nothing on the stack.
  walk_returns :
      (f : ℕ) (visited work : List ℕ) (steps : List ProofStep)
      → ids steps ≡ visited
      → Inv s root visited work
      → length work + 2 * unvisited (length s) visited ≤ f
      → (out : List ProofStep) × (walk f s visited work steps ≡ done out) × Inv s root (ids out) []
  walk_returns zero visited [] steps e inv h = (steps, unfold walk in refl, rw e inv)
  walk_returns (suc f) visited [] steps e inv h = (steps, unfold walk in refl, rw e inv)
  walk_returns zero visited (x ∷ work) steps e inv h = absurd (omega arith)
  walk_returns (suc f) visited (x ∷ work) steps e inv h = elim (Bool-cases (x == invalid_id)) [
    | inl none ↦
        let (out, run, inv') =
          walk_returns f visited work steps e
            (skip-Inv x visited work (inl ((==_iff x invalid_id).0 none)) inv) (omega arith) in
        (out, walk_none f s x visited work steps none ∙ run, inv')
    | inr valid ↦ elim (Bool-cases (contains x visited)) [
      | inl old ↦
          let (out, run, inv') =
            walk_returns f visited work steps e
              (skip-Inv x visited work (inr (contains_sound x visited old)) inv) (omega arith) in
          (out, walk_old f s x visited work steps valid old ∙ run, inv')
      | inr new ↦
          let inside = ⊎_elim (λ none. absurd (not_none x valid none)) (λ k. k) inv.in_store.0 in
          let (c, at) = get_elem?_of_lt s x inside in
          let (out, run, inv') =
            walk_returns f (x ∷ visited) (c.parent2 ∷ c.parent1 ∷ work) (step_of x c ∷ steps)
              (ap (◌∷◌ x) e) (visit-Inv x c visited work at (not_none x valid) inv)
              (omega (arith, unvisited-cons (length s) x visited inside new)) in
          (out, walk_new f s x c visited work steps valid new at ∙ run, inv')
    ]
  ]

  found_all :
      (out : List ℕ) → Inv s root out [] → {i : ℕ} → Ancestor s root i → i ≢ invalid_id → Memᴰ i out
  found_all out inv self valid = ⊎_elim (λ m. m) (λ m. elim m [ ]) inv.started
  found_all out inv (parent {i} {j} up known_i p) valid =
      ⊎_elim (λ none. absurd (valid none)) (λ h. ⊎_elim (λ m. m) (λ m. elim m [ ]) h)
        (inv.closed i j (found_all out inv up known_i) p)

  -- For a clause of a store in which every parent is none or a clause of the store,
  -- `extractProof` returns, and the numbers of its steps are exactly those of the clause and its
  -- ancestors.
  pub extract_proof_complete :
      root < length s
      → (out : List ProofStep) × (extract_proof s root ≡ done out)
        × AreAncestors s root (map (λ (p : ProofStep). p.clause_id) out)
  unfolding extract_proof
  extract_proof_complete inside =
      let (out, run, inv) =
        walk_returns (enough_rounds s) [] (root ∷ []) [] refl start
          (omega (arith, unvisited-nil (length s))) in
      (
        out,
        run,
        λ i. (
          λ m. All-Mem _ (ids out) i inv.seen m,
          λ (up, valid). found_all (ids out) inv up valid,
        ),
      )
    where
      start : Inv s root [] (root ∷ [])
      start = record {
        seen = tt;
        waiting = (self, tt);
        in_store = (inr inside, tt);
        closed = λ i j m p. elim m [ ];
        started = inr (Memᴰ.head refl);
      }
