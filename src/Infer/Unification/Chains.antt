-- ===== src/Infer/Unification/Chains.antt =====
-- Under grounded bindings `resolve` and the occurs check return.
use richard_atp_engine.Prelude.{
  ℕ, zero, suc, ◌<◌, ◌≡◌, refl, sym, ◌∙◌, subst, inl, inr, Bool, true, false, some, Option-cases,
  Bool-cases, find?, ℕ_eq, get_elem?, get_elem?_of_lt, get_elem?-lt, length, All, All-map_pred, map,
  List, [], ◌∷◌, Machine, Outcome, done, Post-done, Returns, arith, ◌==◌, if◌then◌else◌,
}
use native.Mathlib.Nat.{lt_trans}
use richard_atp_engine.Core.Types.{Term}
use richard_atp_engine.Core.TermBank.{TermBank, is_variable}
use richard_atp_engine.Core.TermBank.Laws.{IsWellFormed}
use richard_atp_engine.Semantics.Laws.{value-app, var_term_of, is_variable_cases}
use richard_atp_engine.Infer.Substitution.{Substitution, resolve, any_of, occurs_in}
use richard_atp_engine.Infer.Substitution.Resolve.{
  IsEnd, resolve-IsEnd_result, resolve-value, resolve_plain, resolve_free, resolve_bound,
}
use richard_atp_engine.Infer.Unification.Heights.{
  heights, IsGrounded, height, below_greatest, All-of_map,
}

-- `any_of` returns if each test does.
any_of-Returns :
    (test : ℕ → Outcome Bool) (args : List ℕ)
    → All (λ a. Returns (λ hit. Unit {0}) (test a)) args
    → Returns (λ hit. Unit {0}) (any_of test args)
unfolding any_of
any_of-Returns test [] h = (false, refl, tt)
any_of-Returns test (a ∷ args) h =
    let (rest, more, _) = any_of-Returns test args h.1 in
    let (hit, first, _) = h.0 in
    (if hit then true else rest, rw (any_of, first) (rw more (both hit rest)), tt)
  where
    both :
        (hit rest : Bool)
        → (if hit then done true else done rest) ≡ done (if hit then true else rest)
    both true rest = refl
    both false rest = refl

module _ (m : Machine) (b : TermBank) (w : IsWellFormed b) (s : Substitution)
    (g : IsGrounded b s) where
  -- The chain of bindings from a term is followed to its end.
  pub resolve-Returns :
      (f id : ℕ) → id < length b.terms → g.order id < f → (r : ℕ) × (resolve f s b id ≡ done r)
  resolve-Returns zero id h enough = absurd (omega arith)
  resolve-Returns (suc f) id h enough = elim (is_variable_cases b w id h).2 [
    | inr (x, _) ↦ (id, resolve_plain f s b id x)
    | inl (x, _) ↦ elim (Option-cases (find? id s)) [
      | inl e ↦ (id, resolve_free f s b id x e)
      | inr (t, e) ↦
          let (r, run) =
            resolve-Returns f t (g.in_range id t e).2 (omega (arith, g.decreasing id t e)) in
          (r, resolve_bound f s b id t x e ∙ run)
    ]
  ]

  -- Where it ends there is a term of the same height.
  pub resolve-height :
      length s < m.fuel
      → (id : ℕ) → id < length b.terms
      → (r : ℕ) × (resolve m.fuel s b id ≡ done r)
        × (r < length b.terms)
        × IsEnd s b r
        × (height b s g id ≡ height b s g r)
  resolve-height deep id h =
      let (r, run) = resolve-Returns m.fuel id h (omega (arith, g.short id)) in
      let (inside, end) = Post-done (resolve-IsEnd_result s b w g.in_range m.fuel id h) run in
      (
        r,
        run,
        inside,
        end,
        Post-done
            (resolve-value s b w g.in_range heights (g.solution.extend (λ y. 0)) m.fuel id
              (g.solution.solves (λ y. 0)) h)
            run,
      )

  -- The arguments of a term are terms of a smaller height.
  pub args_lower :
      (i : ℕ) (t : Term)
      → get_elem? b.terms i ≡ some t
      → is_variable b i ≡ done false
      → All (λ a. (a < length b.terms) × (height b s g a < height b s g i)) t.args
  args_lower i t at plain =
      both t.args
        (All-map_pred t.args (λ a (below : a < i). lt_trans below (get_elem?-lt b.terms i t at))
          (w.fits i t at).below)
        (subst (λ n. All (λ a. height b s g a < n) t.args)
          (sym (
            value-app heights b (g.solution.extend (λ y. 0)) w i t at
              (var_term_of b w i t false at plain)))
          (All-of_map (height b s g) _ t.args (below_greatest (map (height b s g) t.args))))
    where
      both :
          (xs : List ℕ)
          → All (λ a. a < length b.terms) xs
          → All (λ a. height b s g a < height b s g i) xs
          → All (λ a. (a < length b.terms) × (height b s g a < height b s g i)) xs
      both [] p q = tt
      both (x ∷ xs) p q = ((p.0, q.0), both xs p.1 q.1)

  -- The occurs check returns, with as much fuel as the term is high.
  pub occurs_in-Returns :
      length s < m.fuel
      → (f x id : ℕ) → id < length b.terms
      → height b s g id < f
      → Returns (λ hit. Unit {0}) (occurs_in m f s b x id)
  unfolding occurs_in
  occurs_in-Returns deep zero x id h enough = absurd (omega arith)
  occurs_in-Returns deep (suc f) x id h enough =
      let (r, run, inside, end, same) = resolve-height deep id h in
      let (t, at) = get_elem?_of_lt b.terms r inside in
      elim (Bool-cases (x == r)) [
        | inl hit ↦ (true, rw (run, occurs_in) (rw hit refl), tt)
        | inr other ↦ elim (is_variable_cases b w r inside).2 [
          | inl (is_var, _) ↦ (false, rw (run, occurs_in) (rw (other, is_var) refl), tt)
          | inr (plain, _) ↦
              let (hit, found, _) = any_of-Returns (occurs_in m f s b x) t.args (
                All-map_pred t.args
                  (λ a (lower : (a < length b.terms) × (height b s g a < height b s g r)).
                    occurs_in-Returns deep f x a lower.0 (omega (arith, lower.1, same, enough)))
                  (args_lower r t at plain)) in
              (hit, rw (run, occurs_in) (rw (other, plain, at) found), tt)
        ]
      ]
