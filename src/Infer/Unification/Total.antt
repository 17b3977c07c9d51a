-- ===== src/Infer/Unification/Total.antt =====
-- With the occurs check on, `unify` returns: how much fuel is enough.
use richard_atp_engine.Prelude.{
  ℕ, zero, suc, ◌+◌, ◌≤◌, ◌<◌, ◌≡◌, ◌≢◌, refl, sym, inl, inr, true, false, none, Bool-cases, find?,
  ℕ_eq, get_elem?_of_lt, length, [], Machine, done, Returns, Post-done, arith, ◌==◌,
}
use richard_atp_engine.Core.TermBank.{TermBank, is_variable}
use richard_atp_engine.Core.TermBank.Laws.{IsWellFormed}
use richard_atp_engine.Semantics.{Structure}
use richard_atp_engine.Infer.Substitution.{Substitution, resolve}
use richard_atp_engine.Infer.Substitution.Resolve.{IsEnd}
use richard_atp_engine.Infer.Unification.{UnificationConfig, bind_variable, unify}
use richard_atp_engine.Infer.Unification.Sound.{Unified, unify-Unified}
use richard_atp_engine.Infer.Unification.Occurs.{Solution}
use richard_atp_engine.Infer.Unification.Heights.{IsGrounded, height, start-IsGrounded}
use richard_atp_engine.Infer.Unification.Chains.{resolve-height}
use richard_atp_engine.Infer.Unification.Grounded.{bind_variable-Returns}
use richard_atp_engine.Infer.Unification.Fuel.{
  rounds, height_limit, enough_for, Result, room_for_chain, height-lt, After-refl, After-IsGrounded,
  After-more, Unifies, terms-Returns,
}

apart_of : (i j : ℕ) → (i == j) ≡ false → i ≢ j
apart_of i j h e = ground (arith, e)

module _ (m : Machine) (config : UnificationConfig) (on : config.enable_occurs_check ≡ true)
    (b : TermBank) (w : IsWellFormed b) (deep : height_limit (length b.terms) ≤ m.fuel) where
  -- The step that follows once both terms are resolved.
  resolved-Returns :
      (f : ℕ)
      → Unifies m config on b w deep f (unify m config b f)
      → (k i j : ℕ) (s : Substitution) (g : IsGrounded b s) → i < length b.terms
      → j < length b.terms
      → IsEnd s b i
      → IsEnd s b j
      → length b.terms ≤ length s + k
      → rounds k (height_limit (length b.terms)) + height b s g i < suc f
      → (t1 t2 : ℕ) → resolve m.fuel s b t1 ≡ done i
      → resolve m.fuel s b t2 ≡ done j
      → Returns (Result m config on b w deep s) (unify m config b (suc f) t1 t2 s)
  unfolding unify
  resolved-Returns f unifies k i j s g hi hj ei ej left enough t1 t2 found1 found2 =
      elim (Bool-cases (i == j)) [
        | inl same ↦ (
          (true, s),
          rw (found1, unify) (rw found2 (rw same refl)),
          λ e. After-refl m config on b w deep s,
        )
        | inr other ↦ by_cases other (apart_of i j other) ei ej
      ]
    where
      bound :
          (x t : ℕ)
          → x < length b.terms
          → t < length b.terms
          → is_variable b x ≡ done true
          → find? x s ≡ none
          → IsEnd s b t
          → x ≢ t
          → Returns (Result m config on b w deep s) (bind_variable m config b x t s)
      bound x t hx ht is_var free end apart =
          let (r, run, next) =
            bind_variable-Returns m b w s g x t ht hx is_var free end apart config on
              (room_for_chain m config on b w deep s g)
              (omega (arith, height-lt m config on b w deep s g t ht, deep)) in
          (r, run, λ ok. After-more m config on b w deep s r.1 (next ok))

      by_cases :
          (i == j) ≡ false
          → i ≢ j
          → IsEnd s b i
          → IsEnd s b j
          → Returns (Result m config on b w deep s) (unify m config b (suc f) t1 t2 s)
      by_cases other apart (inr (is_var, free)) _ =
          let (r, run, next) = bound i j hi hj is_var free ej apart in
          (r, rw (found1, unify) (rw found2 (rw (other, is_var) run)), next)
      by_cases other apart (inl plain) (inr (is_var, free)) =
          let (r, run, next) = bound j i hj hi is_var free ei (λ e. apart (sym e)) in
          (r, rw (found1, unify) (rw found2 (rw (other, plain, is_var) run)), next)
      by_cases other apart (inl plain) (inl plain') =
          let (t, ti) = get_elem?_of_lt b.terms i hi in
          let (u, uj) = get_elem?_of_lt b.terms j hj in
          let (r, run, next) =
            terms-Returns m config on b w deep f (unify m config b f) unifies k i j t u s g ti uj
              plain left enough in
          (r, rw (found1, unify) (rw found2 (rw (other, plain, plain', ti, uj) run)), next)

  -- With the fuel for the bindings that can still be made, `unify` returns.
  unify_grounded : (f : ℕ) → Unifies m config on b w deep f (unify m config b f)
  unify_grounded zero k t u s g ht hu left enough = absurd (omega arith)
  unify_grounded (suc f) k t u s g ht hu left enough =
      let (i, found1, hi, ei, same) =
        resolve-height m b w s g (room_for_chain m config on b w deep s g) t ht in
      let (j, found2, hj, ej, _) =
        resolve-height m b w s g (room_for_chain m config on b w deep s g) u hu in
      resolved-Returns f (unify_grounded f) k i j s g hi hj ei ej left (omega (arith, same, enough))
        t u found1 found2

  -- With the occurs check on, for two terms of a well-formed bank: with no bindings to start from,
  -- and `enough_for` the number of terms of the bank as fuel, `unify` returns. If it succeeds then
  -- the bindings are grounded, they have a solution, and the two terms have one value under every
  -- assignment that respects them, in every structure. The fuel for chains of bindings and for the
  -- occurs check is `height_limit` of this number at least.
  pub unify-Returns :
      (f t u : ℕ)
      → t < length b.terms
      → u < length b.terms
      → enough_for (length b.terms) ≤ f
      → Returns
          (λ r. (r.0 ≡ true → IsGrounded b r.1) × ((M : Structure) → Unified M b [] t u r))
          (unify m config b f t u [])
  unfolding enough_for rounds
  unify-Returns f t u ht hu enough =
      let g = start-IsGrounded b w in
      let (r, run, after) =
        unify_grounded f (length b.terms) t u [] g ht hu (omega arith)
          (omega (arith, height-lt m config on b w deep [] g t ht, enough)) in
      (
        r,
        run,
        (
          λ ok. After-IsGrounded m config on b w deep r.1 (after ok),
          λ M.
              Post-done
                (unify-Unified M m config on b w f t u [] ht hu (λ x y e. cc) (no_bindings M)) run,
        ),
      )
    where
      no_bindings : (M : Structure) → Solution M b []
      no_bindings M = record { extend = λ v. v; solves = λ v x y e. cc; free = λ v x e. refl }
