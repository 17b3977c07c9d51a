-- ===== src/Proof/Text/Lines.antt =====
-- src/proof/proof_trace.cc, `formatProof`: the numbers that stand for the parents are those of lines.
use richard_atp_engine.Prelude.{
  ℕ, zero, suc, ◌+◌, ◌≡◌, ◌≢◌, ◌∙◌, ◌⊎◌, inl, inr, ⊎_elim, refl, sym, ap, subst, List, [], ◌∷◌,
  some, map, get_elem?, find?, find?-cons_self, find?-cons_ne, All, All-get_elem?, Memᴰ, Bool-cases,
  ◌==◌, ==_iff, ℕ_eq, arith, false,
}
use richard_atp_engine.Prelude.Decimal.{to_string}
use richard_atp_engine.Core.Types.{invalid_id}
use richard_atp_engine.Core.ClauseStore.{ClauseStore}
use richard_atp_engine.Proof.Trace.{ProofStep}
use richard_atp_engine.Proof.Trace.Walk.{AreAncestors, Ancestor, IsParent}
use richard_atp_engine.Proof.Trace.Recorded.{IsRecord}
use richard_atp_engine.Proof.Text.{number_steps, local_name}

-- The clause with this number is that of some step, and the map has its line, counted from one.
abbrev IsNumbered : List ProofStep → ℕ → List (ℕ × ℕ) → ℕ → Type 0
IsNumbered steps i ids j =
    (n : ℕ) × (p : ProofStep) × (find? j (number_steps steps i ids) ≡ some (suc (i + n)))
    × (get_elem? steps n ≡ some p)
    × (p.clause_id ≡ j)

IsNumbered-or_not :
    (steps : List ProofStep) (i : ℕ) (ids : List (ℕ × ℕ)) (j : ℕ)
    → ((find? j (number_steps steps i ids) ≡ find? j ids)
        × (Memᴰ j (map (λ (p : ProofStep). p.clause_id) steps) → ⊥))
      ⊎ IsNumbered steps i ids j
unfolding number_steps
IsNumbered-or_not [] i ids j = inl (refl, λ m. elim m [ ])
IsNumbered-or_not (p ∷ steps) i ids j =
    ⊎_elim
      (λ (kept, no_step). elim (Bool-cases (p.clause_id == j)) [
        | inl same ↦ let e = (==_iff p.clause_id j).0 same in inr (0, p, kept ∙ here e, refl, e)
        | inr other ↦
            let apart : p.clause_id ≢ j = λ e. differ e other in
            inl (kept ∙ find?-cons_ne p.clause_id j (i + 1) ids apart, λ m. absent no_step apart m)
      ])
      (λ (n, q, found, at, e). inr (suc n, q, found ∙ ap some (omega arith), at, e))
      (IsNumbered-or_not steps (i + 1) ((p.clause_id, i + 1) ∷ ids) j)
  where
    here : p.clause_id ≡ j → find? j ((p.clause_id, i + 1) ∷ ids) ≡ some (suc (i + 0))
    here e =
        subst (λ k. find? k ((p.clause_id, i + 1) ∷ ids) ≡ some (suc (i + 0))) e
          (find?-cons_self p.clause_id (i + 1) ids ∙ ap some (omega arith))

    differ : p.clause_id ≡ j → (p.clause_id == j) ≡ false → ⊥
    differ e other = ground (arith, e)

    absent :
        (Memᴰ j (map (λ (q : ProofStep). q.clause_id) steps) → ⊥)
        → p.clause_id ≢ j
        → Memᴰ j (map (λ (q : ProofStep). q.clause_id) (p ∷ steps))
        → ⊥
    absent no_step apart (Memᴰ.head e) = apart (sym e)
    absent no_step apart (Memᴰ.tail m) = no_step m

-- No clause, or the text that stands for it is the number of the line of a step that shows it.
abbrev pub IsNamed : List ProofStep → ℕ → Type 0
IsNamed steps j =
    (j ≡ invalid_id)
    ⊎ ((n : ℕ) × (p : ProofStep) × (local_name (number_steps steps 0 []) j ≡ to_string (suc n))
        × (get_elem? steps n ≡ some p)
        × (p.clause_id ≡ j))

listed-IsNamed :
    (steps : List ProofStep) (j : ℕ)
    → Memᴰ j (map (λ (p : ProofStep). p.clause_id) steps)
    → IsNamed steps j
unfolding local_name
listed-IsNamed steps j m =
    ⊎_elim (λ (_, absent). absurd (absent m))
      (λ (n, p, found, at, e).
        inr (n, p, rw (found, local_name) (ap to_string (omega arith)), at, e))
      (IsNumbered-or_not steps 0 [] j)

-- The steps are a proof that ends in a clause: they are that clause and its ancestors, each step
-- records its clause, and each parent that a step has is shown on a line, by whose number it is
-- named.
pub record IsProof (s : ClauseStore) (root : ℕ) (steps : List ProofStep) : Type 0 where
  pub ancestors : AreAncestors s root (map (λ (p : ProofStep). p.clause_id) steps)
  pub recorded : All (IsRecord s) steps
  pub named :
      (i : ℕ) (p : ProofStep)
      → get_elem? steps i ≡ some p
      → IsNamed steps p.parent1 × IsNamed steps p.parent2

get_elem?-Mem :
    (steps : List ProofStep) (i : ℕ) (p : ProofStep)
    → get_elem? steps i ≡ some p
    → Memᴰ p.clause_id (map (λ (q : ProofStep). q.clause_id) steps)
get_elem?-Mem [] i p e = cc
get_elem?-Mem (q ∷ steps) zero p e = Memᴰ.head (ap (λ (x : ProofStep). x.clause_id) (sym same))
  where
    same : q ≡ p
    same = cc
get_elem?-Mem (q ∷ steps) (suc i) p e = Memᴰ.tail (get_elem?-Mem steps i p e)

pub ancestors-IsProof :
    (s : ClauseStore) (root : ℕ) (steps : List ProofStep)
    → AreAncestors s root (map (λ (p : ProofStep). p.clause_id) steps)
    → All (IsRecord s) steps
    → IsProof s root steps
ancestors-IsProof s root steps ancestors recorded = record {
  ancestors = ancestors;
  recorded = recorded;
  named = λ i p at.
      let (c, stored, _, first, second) = All-get_elem? (IsRecord s) steps i p recorded at in
      let m = get_elem?-Mem steps i p at in
      (
        of_parent p.clause_id p.parent1 m (c, stored, inl (sym first)),
        of_parent p.clause_id p.parent2 m (c, stored, inr (sym second)),
      );
}
  where
    of_parent :
        (i j : ℕ)
        → Memᴰ i (map (λ (p : ProofStep). p.clause_id) steps)
        → IsParent s i j
        → IsNamed steps j
    of_parent i j m up = elim (Bool-cases (j == invalid_id)) [
      | inl no_clause ↦ inl ((==_iff j invalid_id).0 no_clause)
      | inr clause ↦
          let (reached, valid) = (ancestors i).0 m in
          listed-IsNamed steps j
            ((ancestors j).1 (Ancestor.parent reached valid up, λ e. is_clause j clause e))
    ]
      where
        is_clause : (k : ℕ) → (k == invalid_id) ≡ false → k ≡ invalid_id → ⊥
        is_clause k h e = ground (arith, e)
