-- ===== src/Infer/Substitution/Resolve.antt =====
-- Following a chain of bindings: where `resolve` stops, and that it keeps the value.
use richard_atp_engine.Prelude.{
  ℕ, zero, suc, ◌≡◌, ◌<◌, refl, sym, ◌∙◌, ◌⊎◌, inl, inr, true, false, none, some, find?, ℕ_eq,
  length, Option-cases, done, Post, returns, fails, Post-map,
}
use richard_atp_engine.Core.TermBank.{TermBank, is_variable}
use richard_atp_engine.Core.TermBank.Laws.{IsWellFormed, Extends}
use richard_atp_engine.Semantics.{Structure, value}
use richard_atp_engine.Semantics.Laws.{value-var, is_variable_cases, is_variable-Extends}
use richard_atp_engine.Infer.Substitution.{Substitution, resolve}

-- `resolve` stops at a term that is no variable, or at a variable with no binding.
abbrev pub IsEnd : Substitution → TermBank → ℕ → Type 0
IsEnd s b r = (is_variable b r ≡ done false) ⊎ (is_variable b r ≡ done true) × (find? r s ≡ none)

-- Every binding is of a variable of the bank to a term of the bank.
abbrev pub InRange : Substitution → TermBank → Type 0
InRange s b =
    (x t : ℕ)
    → find? x s ≡ some t
    → (is_variable b x ≡ done true) × (x < length b.terms) × (t < length b.terms)

-- The assignment gives each bound variable the value of the term that it is bound to.
abbrev pub Solves : (M : Structure) → TermBank → Substitution → (ℕ → M.Carrier) → Type 0
Solves M b s v = (x t : ℕ) → find? x s ≡ some t → v x ≡ value M b v t

module _ (f : ℕ) (s : Substitution) (b : TermBank) (id : ℕ) where
  pub resolve_plain : is_variable b id ≡ done false → resolve (suc f) s b id ≡ done id
  unfolding resolve
  resolve_plain h = rw h

  pub resolve_free :
      is_variable b id ≡ done true → find? id s ≡ none → resolve (suc f) s b id ≡ done id
  unfolding resolve
  resolve_free h e = rw h (rw e)

  pub resolve_bound :
      (t : ℕ)
      → is_variable b id ≡ done true
      → find? id s ≡ some t
      → resolve (suc f) s b id ≡ resolve f s b t
  unfolding resolve
  resolve_bound t h e = rw h (rw e)

  -- Where `resolve` stops it stays.
  pub resolve-IsEnd : IsEnd s b id → resolve (suc f) s b id ≡ done id
  resolve-IsEnd (inl h) = resolve_plain h
  resolve-IsEnd (inr (h, e)) = resolve_free h e

module _ (s : Substitution) (b : TermBank) (w : IsWellFormed b) (in_range : InRange s b) where
  -- What `resolve` returns is a term of the bank at which it stops.
  pub resolve-IsEnd_result :
      (f id : ℕ)
      → id < length b.terms
      → Post (λ r. (r < length b.terms) × IsEnd s b r) (resolve f s b id)
  unfolding resolve
  resolve-IsEnd_result zero id h = fails
  resolve-IsEnd_result (suc f) id h = elim (is_variable_cases b w id h).2 [
    | inr (x, _) ↦ rw (resolve_plain f s b id x) (returns (h, inl x))
    | inl (x, _) ↦ elim (Option-cases (find? id s)) [
      | inl e ↦ rw (resolve_free f s b id x e) (returns (h, inr (x, e)))
      | inr (t, e) ↦
          rw (resolve_bound f s b id t x e) (resolve-IsEnd_result f t (in_range id t e).2)
    ]
  ]

  -- Under an assignment that respects the bindings, `resolve` keeps the value.
  pub resolve-value :
      (M : Structure) (v : ℕ → M.Carrier) (f id : ℕ)
      → Solves M b s v
      → id < length b.terms
      → Post (λ r. value M b v id ≡ value M b v r) (resolve f s b id)
  unfolding resolve
  resolve-value M v zero id solves h = fails
  resolve-value M v (suc f) id solves h =
      let (t, at, c) = is_variable_cases b w id h in
      elim c [
        | inr (x, _) ↦ rw (resolve_plain f s b id x) (returns refl)
        | inl (x, y) ↦ elim (Option-cases (find? id s)) [
          | inl e ↦ rw (resolve_free f s b id x e) (returns refl)
          | inr (u, e) ↦ rw (resolve_bound f s b id u x e) (
              Post-map (resolve-value M v f u solves (in_range id u e).2)
                (λ r p. value-var M b v id t at y ∙ solves id u e ∙ p))
        ]
      ]

  -- A bank that grows does not change what `resolve` finds.
  pub resolve-Extends :
      (c : TermBank) (f id : ℕ)
      → Extends b c
      → IsWellFormed c
      → id < length b.terms
      → resolve f s c id ≡ resolve f s b id
  unfolding resolve
  resolve-Extends c zero id x w' h = refl
  resolve-Extends c (suc f) id x w' h =
      let same = is_variable-Extends b w c id x w' h in
      elim (is_variable_cases b w id h).2 [
        | inr (y, _) ↦ resolve_plain f s c id (same ∙ y) ∙ sym (resolve_plain f s b id y)
        | inl (y, _) ↦ elim (Option-cases (find? id s)) [
          | inl e ↦ resolve_free f s c id (same ∙ y) e ∙ sym (resolve_free f s b id y e)
          | inr (t, e) ↦
              resolve_bound f s c id t (same ∙ y) e
              ∙ resolve-Extends c f t x w' (in_range id t e).2
              ∙ sym (resolve_bound f s b id t y e)
        ]
      ]
