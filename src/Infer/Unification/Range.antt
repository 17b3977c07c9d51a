-- ===== src/Infer/Unification/Range.antt =====
-- src/infer/unification.cc: with or without the occurs check, bindings stay within the bank.
use native.Mathlib.Nat.{lt_trans, mod-eq_of_lt}
use richard_atp_engine.Prelude.{
  ℕ, zero, suc, ◌≡◌, ◌<◌, ⊎_elim, true, none, some, find?, find?-cons_cases, emplace_new, ℕ_eq,
  length, get_elem?, get_elem?_of_lt, get_elem?-lt, All, All-map_pred, take-length, List, [], ◌∷◌,
  Machine, Outcome, done, ◌>>=◌, Post, returns, fails, Post-bind, Post-if, Post-self, Post-done,
  Bool, ◌==◌, if◌then◌else◌, not, ◌||◌, inl, inr, subst,
}
use richard_atp_engine.Core.Types.{Term, arity}
use richard_atp_engine.Core.TermBank.{TermBank, is_variable, get_term}
use richard_atp_engine.Core.TermBank.Laws.{IsWellFormed}
use richard_atp_engine.Infer.Substitution.{Substitution, bind, resolve, occurs_in}
use richard_atp_engine.Infer.Substitution.Resolve.{IsEnd, InRange, resolve-IsEnd_result}
use richard_atp_engine.Infer.Unification.{
  UnificationConfig, bind_variable, unify_each, unify_terms, unify,
}
use richard_atp_engine.Infer.Unification.Sound.{same_shape}

module _ (m : Machine) (config : UnificationConfig) (b : TermBank) (w : IsWellFormed b) where
  abbrev Ranged : Bool × Substitution → Type 0
  Ranged (ok, s) = InRange s b

  abbrev Ranges : (ℕ → ℕ → Substitution → Outcome (Bool × Substitution)) → Type 0
  Ranges step =
      (t u : ℕ) (s : Substitution)
      → t < length b.terms
      → u < length b.terms
      → InRange s b
      → Post Ranged (step t u s)

  bind_variable-InRange :
      (x t : ℕ) (s : Substitution)
      → x < length b.terms
      → t < length b.terms
      → is_variable b x ≡ done true
      → find? x s ≡ none
      → InRange s b
      → Post Ranged (bind_variable m config b x t s)
  unfolding bind_variable bind
  bind_variable-InRange x t s hx ht is_var free r = rw (emplace_new x t s free) (
      Post-if config.enable_occurs_check
        (λ _.
          Post-bind (Post-self (occurs_in m m.fuel s b x t))
            λ hit _. Post-if hit (λ _. returns r) (λ _. returns bound))
        (λ _. returns bound))
    where
      bound : InRange ((x, t) ∷ s) b
      bound y u e =
          ⊎_elim
            (λ (same, to). (
              subst (λ z. is_variable b z ≡ done true) same is_var,
              subst (λ z. z < length b.terms) same hx,
              subst (λ z. z < length b.terms) to ht,
            ))
            (r y u) (find?-cons_cases x y t u s e)

  unify_each-InRange :
      (step : ℕ → ℕ → Substitution → Outcome (Bool × Substitution))
      → Ranges step
      → (ts us : List ℕ) (s : Substitution) → All (λ a. a < length b.terms) ts
      → All (λ a. a < length b.terms) us
      → InRange s b
      → Post Ranged (unify_each step ts us s)
  unfolding unify_each
  unify_each-InRange step each [] [] s ht hu r = returns r
  unify_each-InRange step each [] (u ∷ us) s ht hu r = returns r
  unify_each-InRange step each (t ∷ ts) [] s ht hu r = fails
  unify_each-InRange step each (t ∷ ts) (u ∷ us) s ht hu r =
      Post-bind (each t u s ht.0 hu.0 r) λ (ok, s₁) first.
        Post-if ok (λ _. unify_each-InRange step each ts us s₁ ht.1 hu.1 first) (λ _. returns first)

  unify_terms-InRange :
      (step : ℕ → ℕ → Substitution → Outcome (Bool × Substitution))
      → Ranges step
      → (i j : ℕ) (t u : Term) (s : Substitution) → get_elem? b.terms i ≡ some t
      → get_elem? b.terms j ≡ some u
      → InRange s b
      → Post Ranged (unify_terms m config b step t u s)
  unfolding unify_terms
  unify_terms-InRange step each i j t u s ti uj r =
      Post-if (not (t.symbol == u.symbol) || not (arity t == arity u)) (λ _. returns r)
        λ same.
          let ft = w.fits i t ti in
          let fu = w.fits j u uj in
          let (_, lengths) =
            same_shape t.symbol u.symbol (length t.args) (length u.args) ft.small fu.small same in
          rw (mod-eq_of_lt ft.small, take-length t.args, lengths, take-length u.args)
            (unify_each-InRange step each t.args u.args s (args_inside i t ti) (args_inside j u uj)
              r)
    where
      args_inside :
          (k : ℕ) (x : Term) → get_elem? b.terms k ≡ some x → All (λ a. a < length b.terms) x.args
      args_inside k x e =
          All-map_pred x.args (λ a (below : a < k). lt_trans below (get_elem?-lt b.terms k x e))
            (w.fits k x e).below

  resolved-InRange :
      (step : ℕ → ℕ → Substitution → Outcome (Bool × Substitution))
      → Ranges step
      → (i j : ℕ) (s : Substitution) → i < length b.terms
      → j < length b.terms
      → IsEnd s b i
      → IsEnd s b j
      → InRange s b
      → Post Ranged (
          is_variable b i >>= λ var1.
          if var1
          then bind_variable m config b i j s
          else (is_variable b j >>= λ var2.
              if var2
              then bind_variable m config b j i s
              else (get_term b i >>= λ t. get_term b j >>= λ u. unify_terms m config b step t u s)))
  resolved-InRange step each i j s hi hj (inr (is_var, free)) _ r =
      rw is_var (bind_variable-InRange i j s hi hj is_var free r)
  resolved-InRange step each i j s hi hj (inl plain) (inr (is_var, free)) r =
      rw (plain, is_var) (bind_variable-InRange j i s hj hi is_var free r)
  resolved-InRange step each i j s hi hj (inl plain) (inl plain') r =
      let (t, ti) = get_elem?_of_lt b.terms i hi in
      let (u, uj) = get_elem?_of_lt b.terms j hj in
      rw (plain, plain', ti, uj) (unify_terms-InRange step each i j t u s ti uj r)

  -- Whatever `unify` returns on terms of a well-formed bank, its bindings are of variables of the
  -- bank to terms of the bank, if they were before.
  pub unify-InRange :
      (f t u : ℕ) (s : Substitution)
      → t < length b.terms
      → u < length b.terms
      → InRange s b
      → Post Ranged (unify m config b f t u s)
  unfolding unify
  unify-InRange zero t u s ht hu r = fails
  unify-InRange (suc f) t u s ht hu r = Post-bind (Post-self (resolve m.fuel s b t)) λ i foundi.
      Post-bind (Post-self (resolve m.fuel s b u)) λ j foundj.
        let (hi, ei) = Post-done (resolve-IsEnd_result s b w r m.fuel t ht) foundi in
        let (hj, ej) = Post-done (resolve-IsEnd_result s b w r m.fuel u hu) foundj in
        Post-if (i == j) (λ _. returns r)
          (λ _. resolved-InRange (unify m config b f) (unify-InRange f) i j s hi hj ei ej r)
