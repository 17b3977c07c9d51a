-- ===== src/Infer/Unification/Grounded.antt =====
-- A binding that the occurs check lets through keeps the bindings grounded.
use richard_atp_engine.Prelude.{
  ℕ, suc, ◌+◌, ◌≤◌, ◌<◌, ◌≡◌, ◌≢◌, refl, sym, ap, ◌∙◌, subst, ⊎_elim, inl, inr, true, false, none,
  some, Option-cases, Bool-cases, find?, find?-cons_cases, find?-cons_ne, find?-cons_self,
  emplace_new, ℕ_eq, length, [], ◌∷◌, Machine, done, Returns, arith, ◌==◌, if◌then◌else◌,
}
use richard_atp_engine.Core.TermBank.{TermBank, is_variable}
use richard_atp_engine.Core.TermBank.Laws.{IsWellFormed}
use richard_atp_engine.Semantics.{value}
use richard_atp_engine.Infer.Renaming.{contains}
use richard_atp_engine.Infer.Substitution.{Substitution, bind, occurs_in}
use richard_atp_engine.Infer.Substitution.Resolve.{IsEnd}
use richard_atp_engine.Infer.Unification.{UnificationConfig, bind_variable}
use richard_atp_engine.Infer.Unification.Bind.{bound-InRange, bound-Solution, extend-bound, update}
use richard_atp_engine.Infer.Unification.Heights.{
  heights, doubled, doubled-suc, variables_of, IsGrounded, height,
}
use richard_atp_engine.Infer.Unification.Chains.{occurs_in-Returns}
use richard_atp_engine.Proof.Trace.Visited.{unvisited-cons}

-- A variable without a binding is none of those that have one.
not_bound : (x : ℕ) (s : Substitution) → find? x s ≡ none → contains x (variables_of s) ≡ false
not_bound x [] h = refl
not_bound x ((y, t) ∷ s) h =
    let apart : y ≢ x = λ same. cc (find?-cons_self y t s) in
    ground (arith, apart, not_bound x s (sym (find?-cons_ne y x t s apart) ∙ h))

-- Later bindings come after earlier ones.
next_order : (ℕ → ℕ) → ℕ → ℕ → ℕ
next_order order x y = if x == y then 1 else if order y == 0 then 0 else suc (order y)

next_order_self : (order : ℕ → ℕ) (x : ℕ) → next_order order x x ≡ 1
unfolding next_order
next_order_self order x = ground arith

next_order-zero : (order : ℕ → ℕ) (x y : ℕ) → x ≢ y → order y ≡ 0 → next_order order x y ≡ 0
unfolding next_order
next_order-zero order x y h e = ground arith

next_order-lt :
    (order : ℕ → ℕ) (x y u : ℕ)
    → x ≢ y
    → order u < order y
    → next_order order x u < next_order order x y
unfolding next_order
next_order-lt order x y u h less = ground arith

next_order-le : (order : ℕ → ℕ) (x y n : ℕ) → order y ≤ n → next_order order x y ≤ suc n
unfolding next_order
next_order-le order x y n h = ground arith

module _ (m : Machine) (b : TermBank) (w : IsWellFormed b) (s : Substitution) (g : IsGrounded b s)
    (x t : ℕ) (inside : t < length b.terms) (x_inside : x < length b.terms)
    (is_var : is_variable b x ≡ done true) (free : find? x s ≡ none) (end : IsEnd s b t)
    (other : x ≢ t) where
  not_both : is_variable b t ≡ done true → is_variable b t ≡ done false → ⊥
  not_both p q = cc

  -- The term has no binding, so the chain of the variable ends there.
  term_unbound : find? t ((x, t) ∷ s) ≡ none
  term_unbound = find?-cons_ne x t t s other ∙ free_end end
    where
      free_end : IsEnd s b t → find? t s ≡ none
      free_end (inr (_, e)) = e
      free_end (inl plain) = elim (Option-cases (find? t s)) [
        | inl e ↦ e
        | inr (u, e) ↦ absurd (not_both (g.in_range t u e).0 plain)
      ]

  still_bound : (y u : ℕ) → find? y s ≡ some u → x ≢ y
  still_bound y u e same = cc

  still_free : (y : ℕ) → find? y ((x, t) ∷ s) ≡ none → (x ≢ y) × (find? y s ≡ none)
  still_free y e =
      let apart : x ≢ y = λ same. cc (find?-cons_self x t s) in
      (apart, sym (find?-cons_ne x y t s apart) ∙ e)

  bound-decreasing :
      (y u : ℕ) → find? y ((x, t) ∷ s) ≡ some u → next_order g.order x u < next_order g.order x y
  bound-decreasing y u e =
      ⊎_elim
        (λ (same, to).
          subst (λ z. next_order g.order x z < next_order g.order x y) to
            (subst (λ z. next_order g.order x t < next_order g.order x z) same
              (omega (
                arith,
                next_order_self g.order x,
                next_order-zero g.order x t other
                    (g.unbound t (sym (find?-cons_ne x t t s other) ∙ term_unbound)),
              ))))
        (λ old. next_order-lt g.order x y u (still_bound y u old) (g.decreasing y u old))
        (find?-cons_cases x y t u s e)

  updated_below :
      (v : ℕ → ℕ) (c d e : ℕ) → ((y : ℕ) → v y ≤ c) → e ≤ c + d → (y : ℕ) → update v x e y ≤ c + d
  updated_below v c d e h k y = let hy = h y in ground arith

  pub bound-IsGrounded : occurs_in m m.fuel s b x t ≡ done false → IsGrounded b ((x, t) ∷ s)
  bound-IsGrounded missed = record {
    in_range = bound-InRange heights m b w s g.in_range g.solution x t inside x_inside is_var free;
    solution =
        bound-Solution heights m b w s g.in_range g.solution x t inside x_inside is_var free missed;
    grows = λ v c h id i.
        let d = doubled (length s) (length b.terms) in
        let e = value heights b (g.solution.extend v) t in
        let below = g.grows v c h t inside in
        let sum = g.grows (update v x e) (c + d) (updated_below v c d e h below) id i in
        rw
          (extend-bound heights m b w s g.in_range g.solution x t inside x_inside is_var free missed
            v)
          (omega (arith, sum, doubled-suc (length s) (length b.terms)));
    order = next_order g.order x;
    decreasing = bound-decreasing;
    unbound = λ y e.
        let (apart, old) = still_free y e in next_order-zero g.order x y apart (g.unbound y old);
    short = λ y. next_order-le g.order x y (length s) (g.short y);
    room = omega (
      arith,
      g.room,
      unvisited-cons (length b.terms) x (variables_of s) x_inside (not_bound x s free),
    );
  }

  -- With the occurs check on and enough fuel the variable is bound, or the check has failed.
  pub bind_variable-Returns :
      (config : UnificationConfig)
      → config.enable_occurs_check ≡ true
      → length s < m.fuel
      → height b s g t < m.fuel
      → Returns
          (λ (ok, s'). ok ≡ true → IsGrounded b s' × (length s < length s'))
          (bind_variable m config b x t s)
  unfolding bind_variable bind
  bind_variable-Returns config on deep enough =
      let (hit, found, _) = occurs_in-Returns m b w s g deep m.fuel x t inside enough in
      elim (Bool-cases hit) [
        | inl yes_hit ↦ ((false, s), rw (on, found) (rw yes_hit refl), λ e. cc)
        | inr no_hit ↦ (
          (true, (x, t) ∷ s),
          rw (on, found) (rw (no_hit, emplace_new x t s free) refl),
          λ _. (bound-IsGrounded (found ∙ ap done no_hit), omega arith),
        )
      ]
