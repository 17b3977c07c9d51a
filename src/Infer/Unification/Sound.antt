-- ===== src/Infer/Unification/Sound.antt =====
-- With the occurs check on, a successful unification makes the two terms equal.
use native.Mathlib.Nat.{lt_trans, mod-eq_of_lt}
use richard_atp_engine.Prelude.{
  ℕ, zero, suc, ◌≡◌, ◌<◌, ◌%◌, refl, sym, ap, ◌∙◌, inl, inr, true, false, some, ℕ_eq, length,
  get_elem?, get_elem?_of_lt, get_elem?-lt, All, All-map_pred, map, take-length, List, [], ◌∷◌,
  Machine, Outcome, done, ◌>>=◌, Post, returns, fails, Post-bind, Post-map, Post-if, Post-self,
  Post-done, Bool, arith, ◌==◌, if◌then◌else◌, not, ◌||◌, both_same,
}
use richard_atp_engine.Core.Types.{Term, arity, uint16_mod}
use richard_atp_engine.Core.TermBank.{TermBank, is_variable, get_term}
use richard_atp_engine.Core.TermBank.Laws.{IsWellFormed}
use richard_atp_engine.Semantics.{Structure, value}
use richard_atp_engine.Semantics.Laws.{value-app, value_of_variable, var_term_of}
use richard_atp_engine.Infer.Substitution.{Substitution, resolve}
use richard_atp_engine.Infer.Substitution.Resolve.{
  IsEnd, InRange, Solves, resolve-IsEnd_result, resolve-value,
}
use richard_atp_engine.Infer.Unification.{
  UnificationConfig, bind_variable, unify_each, unify_terms, unify,
}
use richard_atp_engine.Infer.Unification.Occurs.{Solution}
use richard_atp_engine.Infer.Unification.Bind.{Extended, bind_variable-Extended}

module _ (M : Structure) (b : TermBank) where
  -- If the run succeeded, the new bindings have a solution, and under each of their solutions the
  -- two terms have one value.
  abbrev pub Unified : Substitution → ℕ → ℕ → Bool × Substitution → Type 0
  Unified s t u (ok, s') =
      ok ≡ true
      → Extended M b s s' × ((v : ℕ → M.Carrier) → Solves M b s' v → value M b v t ≡ value M b v u)

  abbrev UnifiedEach : Substitution → List ℕ → List ℕ → Bool × Substitution → Type 0
  UnifiedEach s ts us (ok, s') =
      ok ≡ true
      → Extended M b s s'
        × ((v : ℕ → M.Carrier) → Solves M b s' v → map (value M b v) ts ≡ map (value M b v) us)

  Extended-refl : (s : Substitution) → InRange s b → Solution M b s → Extended M b s s
  Extended-refl s r sol = record { keeps = λ x t e. e; in_range = r; solution = sol }

  Extended-Solves :
      {s s' : Substitution}
      → Extended M b s s'
      → (v : ℕ → M.Carrier) → Solves M b s' v
      → Solves M b s v
  Extended-Solves e v h x t found = h x t (e.keeps x t found)

  Extended-trans :
      {s s' s'' : Substitution} → Extended M b s s' → Extended M b s' s'' → Extended M b s s''
  Extended-trans p q = record {
    keeps = λ x t e. q.keeps x t (p.keeps x t e);
    in_range = q.in_range;
    solution = q.solution;
  }

-- What the code tests before it walks the arguments of two terms.
pub same_shape :
    (i j k l : ℕ)
    → k < uint16_mod
    → l < uint16_mod
    → (not (i == j) || not (k % uint16_mod == l % uint16_mod)) ≡ false
    → (i ≡ j) × (k ≡ l)
same_shape i j k l hk hl h = both_same i j k l (rw (mod-eq_of_lt hk, mod-eq_of_lt hl) at h)

module _ (M : Structure) (m : Machine) (config : UnificationConfig)
    (on : config.enable_occurs_check ≡ true) (b : TermBank) (w : IsWellFormed b) where
  abbrev Step : Type 0
  Step = ℕ → ℕ → Substitution → Outcome (Bool × Substitution)

  abbrev Unifies : Step → Type 0
  Unifies step =
      (t u : ℕ) (s : Substitution)
      → t < length b.terms
      → u < length b.terms
      → InRange s b
      → Solution M b s
      → Post (Unified M b s t u) (step t u s)

  unify_each-Unified :
      (step : Step)
      → Unifies step
      → (ts us : List ℕ) (s : Substitution) → length ts ≡ length us
      → All (λ a. a < length b.terms) ts
      → All (λ a. a < length b.terms) us
      → InRange s b
      → Solution M b s
      → Post (UnifiedEach M b s ts us) (unify_each step ts us s)
  unfolding unify_each
  unify_each-Unified step each [] [] s l ht hu r sol =
      returns (λ _. (Extended-refl M b s r sol, λ v h. refl))
  unify_each-Unified step each [] (u ∷ us) s l ht hu r sol = absurd (omega arith)
  unify_each-Unified step each (t ∷ ts) [] s l ht hu r sol = absurd (omega arith)
  unify_each-Unified step each (t ∷ ts) (u ∷ us) s l ht hu r sol =
      Post-bind (each t u s ht.0 hu.0 r sol) λ (ok, s₁) first.
        Post-if ok
          (λ yes_ok.
            let (x₁, eq₁) = first yes_ok in
            Post-map
              (unify_each-Unified step each ts us s₁ (omega arith) ht.1 hu.1 x₁.in_range
                x₁.solution)
              λ (ok', s₂) rest good.
                let (x₂, eq₂) = rest good in
                (
                  Extended-trans M b x₁ x₂,
                  λ v h. rw (eq₁ v (Extended-Solves M b x₂ v h), eq₂ v h) refl,
                ))
          (λ failed_ok. returns (λ e. cc))

  unify_terms-Unified :
      (step : Step)
      → Unifies step
      → (i j : ℕ) (t u : Term) (s : Substitution) → get_elem? b.terms i ≡ some t
      → get_elem? b.terms j ≡ some u
      → is_variable b i ≡ done false
      → is_variable b j ≡ done false
      → InRange s b
      → Solution M b s
      → Post (Unified M b s i j) (unify_terms m config b step t u s)
  unfolding unify_terms
  unify_terms-Unified step each i j t u s ti uj pi pj r sol =
      Post-if (not (t.symbol == u.symbol) || not (arity t == arity u)) (λ _. returns (λ e. cc))
        λ same.
          let ft = w.fits i t ti in
          let fu = w.fits j u uj in
          let (symbols, lengths) =
            same_shape t.symbol u.symbol (length t.args) (length u.args) ft.small fu.small same in
          rw (mod-eq_of_lt ft.small, take-length t.args, lengths, take-length u.args)
            (Post-map
              (unify_each-Unified step each t.args u.args s lengths (args_inside i t ti)
                (args_inside j u uj) r sol)
              λ (ok, s') rest good.
                let (x, eq) = rest good in
                (
                  x,
                  λ v h.
                      value-app M b v w i t ti (var_term_of b w i t false ti pi)
                      ∙ ap (λ k. M.apply k (map (value M b v) t.args)) symbols
                      ∙ ap (M.apply u.symbol) (eq v h)
                      ∙ sym (value-app M b v w j u uj (var_term_of b w j u false uj pj)),
                ))
    where
      args_inside :
          (k : ℕ) (x : Term) → get_elem? b.terms k ≡ some x → All (λ a. a < length b.terms) x.args
      args_inside k x e =
          All-map_pred x.args (λ a (below : a < k). lt_trans below (get_elem?-lt b.terms k x e))
            (w.fits k x e).below

  -- The step that follows once both terms are resolved.
  resolved-Unified :
      (step : Step)
      → Unifies step
      → (i j : ℕ) (s : Substitution) → i < length b.terms
      → j < length b.terms
      → IsEnd s b i
      → IsEnd s b j
      → InRange s b
      → Solution M b s
      → Post (Unified M b s i j) (
          if i == j
          then done (true, s)
          else (is_variable b i >>= λ var1.
              if var1
              then bind_variable m config b i j s
              else (is_variable b j >>= λ var2.
                  if var2
                  then bind_variable m config b j i s
                  else (get_term b i >>= λ t.
                      get_term b j >>= λ u. unify_terms m config b step t u s))))
  resolved-Unified step each i j s hi hj ei ej r sol =
      Post-if (i == j)
        (λ same. returns (λ _. (Extended-refl M b s r sol, λ v h. ap (value M b v) (ground arith))))
        (λ other. by_cases ei ej)
    where
      by_cases :
          IsEnd s b i
          → IsEnd s b j
          → Post (Unified M b s i j) (
              is_variable b i >>= λ var1.
              if var1
              then bind_variable m config b i j s
              else (is_variable b j >>= λ var2.
                  if var2
                  then bind_variable m config b j i s
                  else (get_term b i >>= λ t.
                      get_term b j >>= λ u. unify_terms m config b step t u s)))
      by_cases (inr (is_var, free)) _ = rw is_var (
          Post-map (bind_variable-Extended M m b w s r sol i j hj hi is_var free config on)
            λ (ok, s') bound good.
              let (x, eq) = bound good in
              (x, λ v h. value_of_variable b w M v i hi is_var ∙ eq v h))
      by_cases (inl plain) (inr (is_var, free)) =
          rw (plain, is_var)
            (Post-map (bind_variable-Extended M m b w s r sol j i hi hj is_var free config on)
              λ (ok, s') bound good.
                let (x, eq) = bound good in
                (x, λ v h. sym (value_of_variable b w M v j hj is_var ∙ eq v h)))
      by_cases (inl plain) (inl plain') =
          let (t, ti) = get_elem?_of_lt b.terms i hi in
          let (u, uj) = get_elem?_of_lt b.terms j hj in
          rw (plain, plain', ti, uj)
            (unify_terms-Unified step each i j t u s ti uj plain plain' r sol)

  -- With the occurs check on, for terms of a well-formed bank and bindings over it that have a
  -- solution: if `unify` returns and succeeds then the bindings it leaves keep the earlier ones
  -- and have a solution for every assignment, and the two terms have one value under every
  -- assignment that respects the bindings.
  pub unify-Unified :
      (f t u : ℕ) (s : Substitution)
      → t < length b.terms
      → u < length b.terms
      → InRange s b
      → Solution M b s
      → Post (Unified M b s t u) (unify m config b f t u s)
  unfolding unify
  unify-Unified zero t u s ht hu r sol = fails
  unify-Unified (suc f) t u s ht hu r sol = Post-bind (Post-self (resolve m.fuel s b t)) λ i foundi.
      Post-bind (Post-self (resolve m.fuel s b u)) λ j foundj.
        let (hi, ei) = Post-done (resolve-IsEnd_result s b w r m.fuel t ht) foundi in
        let (hj, ej) = Post-done (resolve-IsEnd_result s b w r m.fuel u hu) foundj in
        Post-map (resolved-Unified (unify m config b f) (unify-Unified f) i j s hi hj ei ej r sol)
          λ (ok, s') rest good.
            let (x, eq) = rest good in
            (
              x,
              λ v h.
                  let old = Extended-Solves M b x v h in
                  Post-done (resolve-value s b w r M v m.fuel t old ht) foundi
                  ∙ eq v h
                  ∙ sym (Post-done (resolve-value s b w r M v m.fuel u old hu) foundj),
            )
