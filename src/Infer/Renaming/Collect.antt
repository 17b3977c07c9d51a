-- ===== src/Infer/Renaming/Collect.antt =====
-- `collectVariables` finds variables of the bank only.
use native.Mathlib.Nat.{lt_trans}
use richard_atp_engine.Prelude.{
  ℕ, zero, suc, ◌≡◌, ◌<◌, inl, inr, Bool, true, false, List, [], ◌∷◌, length, All, All-map_pred,
  Outcome, done, Post, Post-bind, returns, fails, if◌then◌else◌,
}
use richard_atp_engine.Core.TermBank.{TermBank, is_variable}
use richard_atp_engine.Core.TermBank.Laws.{IsWellFormed}
use richard_atp_engine.Semantics.Laws.{is_variable_cases}
use richard_atp_engine.Infer.Renaming.{contains, mark_seen, collect_each, collect_variables}

abbrev pub IsVar : TermBank → ℕ → Type 0
IsVar b x = (x < length b.terms) × (is_variable b x ≡ done true)

module _ (b : TermBank) (w : IsWellFormed b) where
  mark_seen-All :
      (x : ℕ) (seen : List ℕ) → IsVar b x → All (IsVar b) seen → All (IsVar b) (mark_seen x seen)
  mark_seen-All x seen hx h = split (contains x seen)
    where
      split : (c : Bool) → All (IsVar b) (if c then seen else x ∷ seen)
      split true = h
      split false = (hx, h)

  pub collect_each-All {ℓ κ} :
      {A : Type ℓ} (P : A → Type κ) (step : A → List ℕ → Outcome (List ℕ))
      → ((a : A) (seen : List ℕ) → P a → All (IsVar b) seen → Post (All (IsVar b)) (step a seen))
      → (xs : List A) (seen : List ℕ) → All P xs
      → All (IsVar b) seen
      → Post (All (IsVar b)) (collect_each step xs seen)
  unfolding collect_each
  collect_each-All P step each [] seen h s = returns s
  collect_each-All P step each (x ∷ xs) seen h s =
      Post-bind (each x seen h.0 s) λ more ok. collect_each-All P step each xs more h.1 ok

  -- Everything that is collected from a term of the bank is a variable of the bank.
  pub collect_variables-All :
      (f id : ℕ) (seen : List ℕ)
      → id < length b.terms
      → All (IsVar b) seen
      → Post (All (IsVar b)) (collect_variables f b id seen)
  unfolding collect_variables
  collect_variables-All zero id seen h s = fails
  collect_variables-All (suc f) id seen h s =
      let (t, at, c) = is_variable_cases b w id h in
      elim c [
        | inl (is_var, _) ↦ rw is_var (returns (mark_seen-All id seen (h, is_var) s))
        | inr (plain, _) ↦
            rw (plain, at)
              (collect_each-All (λ a. a < length b.terms) (collect_variables f b)
                (λ a more inside ok. collect_variables-All f a more inside ok) t.args seen
                (All-map_pred t.args (λ a (below : a < id). lt_trans below h)
                  (w.fits id t at).below)
                s)
      ]
