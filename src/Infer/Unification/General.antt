-- ===== src/Infer/Unification/General.antt =====
-- `unify` finds the most general unifier: it succeeds where the two terms can be made equal at all,
-- and its bindings hold in every way to do so.
use richard_atp_engine.Prelude.{
  ℕ, zero, suc, ◌≡◌, ◌≢◌, ◌<◌, ◌%◌, refl, sym, ap, ◌∙◌, inl, inr, true, false, some, length,
  get_elem?, get_elem?_of_lt, All, map, take-length, List, [], ◌∷◌, Machine, Outcome, done, ◌>>=◌,
  Post, returns, fails, Post-bind, Post-if, Post-self, Post-done, Returns, ◌≤◌, Bool, arith, ◌==◌,
  if◌then◌else◌, not, ◌||◌,
}
use native.Mathlib.Nat.{mod-eq_of_lt}
use richard_atp_engine.Core.Types.{Term, arity, uint16_mod}
use richard_atp_engine.Core.TermBank.{TermBank, is_variable, get_term}
use richard_atp_engine.Core.TermBank.Laws.{IsWellFormed}
use richard_atp_engine.Semantics.{Structure, value}
use richard_atp_engine.Semantics.Laws.{value-app, value_of_variable, var_term_of}
use richard_atp_engine.Infer.Substitution.{Substitution, resolve}
use richard_atp_engine.Infer.Substitution.Resolve.{
  IsEnd, InRange, Solves, resolve-IsEnd_result, resolve-value,
}
use richard_atp_engine.Infer.Unification.{
  UnificationConfig, bind_variable, unify_each, unify_terms, unify,
}
use richard_atp_engine.Infer.Unification.Fuel.{height_limit, enough_for}
use richard_atp_engine.Infer.Unification.Total.{unify-Returns}
use richard_atp_engine.Infer.Unification.Contained.{IsFree, Held, args_inside, bind_variable-Held}

length-map {ℓ κ} :
    {A : Type ℓ} {B : Type κ} (f : A → B) (xs : List A) → length (map f xs) ≡ length xs
length-map f [] = refl
length-map f (x ∷ xs) = ap suc (length-map f xs)

heads {ℓ} : {A : Type ℓ} {x y : A} {xs ys : List A} → x ∷ xs ≡ y ∷ ys → (x ≡ y) × (xs ≡ ys)
heads {A} {x} {xs = xs} e = (ap first e, ap rest e)
  where
    first : List A → A
    first [] = x
    first (z ∷ zs) = z

    rest : List A → List A
    rest [] = xs
    rest (z ∷ zs) = zs

same_test : (i j k l : ℕ) → i ≡ j → k ≡ l → (not (i == j) || not (k == l)) ≡ true → ⊥
same_test i j k l e f h = ground arith

module _ (M : Structure) (free : IsFree M) (m : Machine) (config : UnificationConfig) (b : TermBank)
    (w : IsWellFormed b) (v : ℕ → M.Carrier) where
  abbrev Step : Type 0
  Step = ℕ → ℕ → Substitution → Outcome (Bool × Substitution)

  abbrev Result : Bool × Substitution → Type 0
  Result r = Held M free m b w v r

  abbrev Unifies : Step → Type 0
  Unifies step =
      (t u : ℕ) (s : Substitution)
      → t < length b.terms
      → u < length b.terms
      → InRange s b
      → Solves M b s v
      → value M b v t ≡ value M b v u
      → Post Result (step t u s)

  unify_each-Held :
      (step : Step)
      → Unifies step
      → (ts us : List ℕ) (s : Substitution) → All (λ a. a < length b.terms) ts
      → All (λ a. a < length b.terms) us
      → InRange s b
      → Solves M b s v
      → map (value M b v) ts ≡ map (value M b v) us
      → Post Result (unify_each step ts us s)
  unfolding unify_each
  unify_each-Held step each [] us s ht hu r sol e = returns (refl, r, sol)
  unify_each-Held step each (t ∷ ts) [] s ht hu r sol e = fails
  unify_each-Held step each (t ∷ ts) (u ∷ us) s ht hu r sol e =
      let (here, there) = heads e in
      Post-bind (each t u s ht.0 hu.0 r sol here) λ (ok, s₁) (yes_ok, r₁, sol₁).
        Post-if ok (λ _. unify_each-Held step each ts us s₁ ht.1 hu.1 r₁ sol₁ there) (λ no_ok. cc)

  unify_terms-Held :
      (step : Step)
      → Unifies step
      → (i j : ℕ) (t u : Term) (s : Substitution) → get_elem? b.terms i ≡ some t
      → get_elem? b.terms j ≡ some u
      → is_variable b i ≡ done false
      → is_variable b j ≡ done false
      → InRange s b
      → Solves M b s v
      → value M b v i ≡ value M b v j
      → Post Result (unify_terms m config b step t u s)
  unfolding unify_terms
  unify_terms-Held step each i j t u s ti uj pi pj r sol e =
      let ft = w.fits i t ti in
      let fu = w.fits j u uj in
      let (symbols, values) =
        free.injective t.symbol u.symbol (map (value M b v) t.args) (map (value M b v) u.args) (
          sym (value-app M b v w i t ti (var_term_of b w i t false ti pi))
          ∙ e
          ∙ value-app M b v w j u uj (var_term_of b w j u false uj pj)) in
      let lengths =
        sym (length-map (value M b v) t.args)
        ∙ ap length values
        ∙ length-map (value M b v) u.args in
      Post-if (not (t.symbol == u.symbol) || not (arity t == arity u))
        (λ differ. absurd (
          same_test t.symbol u.symbol (arity t) (arity u) symbols (ap (λ n. n % uint16_mod) lengths)
            differ))
        λ _.
          rw (mod-eq_of_lt ft.small, take-length t.args, lengths, take-length u.args)
            (unify_each-Held step each t.args u.args s (args_inside M free m b w v i t ti)
              (args_inside M free m b w v j u uj) r sol values)

  -- The step that follows once both terms are resolved.
  resolved-Held :
      (step : Step)
      → Unifies step
      → (i j : ℕ) (s : Substitution) → i < length b.terms
      → j < length b.terms
      → IsEnd s b i
      → IsEnd s b j
      → InRange s b
      → Solves M b s v
      → value M b v i ≡ value M b v j
      → Post Result (
          if i == j
          then done (true, s)
          else (is_variable b i >>= λ var1.
              if var1
              then bind_variable m config b i j s
              else (is_variable b j >>= λ var2.
                  if var2
                  then bind_variable m config b j i s
                  else (get_term b i >>= λ t.
                      get_term b j >>= λ u. unify_terms m config b step t u s))))
  resolved-Held step each i j s hi hj ei ej r sol e =
      Post-if (i == j) (λ same. returns (refl, r, sol)) (λ other. by_cases (apart_of other) ei ej)
    where
      apart_of : (i == j) ≡ false → i ≢ j
      apart_of other same = ground (arith, same)

      by_cases :
          i ≢ j
          → IsEnd s b i
          → IsEnd s b j
          → Post Result (
              is_variable b i >>= λ var1.
              if var1
              then bind_variable m config b i j s
              else (is_variable b j >>= λ var2.
                  if var2
                  then bind_variable m config b j i s
                  else (get_term b i >>= λ t.
                      get_term b j >>= λ u. unify_terms m config b step t u s)))
      by_cases apart (inr (is_var, unbound)) _ = rw is_var (
          bind_variable-Held M free m b w v s r sol config i j hi hj is_var unbound ej apart
            (sym (value_of_variable b w M v i hi is_var) ∙ e))
      by_cases apart (inl plain) (inr (is_var, unbound)) =
          rw (plain, is_var)
            (bind_variable-Held M free m b w v s r sol config j i hj hi is_var unbound ei
              (λ same. apart (sym same)) (sym (value_of_variable b w M v j hj is_var) ∙ sym e))
      by_cases apart (inl plain) (inl plain') =
          let (t, ti) = get_elem?_of_lt b.terms i hi in
          let (u, uj) = get_elem?_of_lt b.terms j hj in
          rw (plain, plain', ti, uj)
            (unify_terms-Held step each i j t u s ti uj plain plain' r sol e)

  -- If the run returns then it succeeds, whether or not the occurs check is on.
  unify-Held :
      (f t u : ℕ) (s : Substitution)
      → t < length b.terms
      → u < length b.terms
      → InRange s b
      → Solves M b s v
      → value M b v t ≡ value M b v u
      → Post (Held M free m b w v) (unify m config b f t u s)
  unfolding unify
  unify-Held zero t u s ht hu r sol e = fails
  unify-Held (suc f) t u s ht hu r sol e = Post-bind (Post-self (resolve m.fuel s b t)) λ i foundi.
      Post-bind (Post-self (resolve m.fuel s b u)) λ j foundj.
        let (hi, ei) = Post-done (resolve-IsEnd_result s b w r m.fuel t ht) foundi in
        let (hj, ej) = Post-done (resolve-IsEnd_result s b w r m.fuel u hu) foundj in
        resolved-Held (unify m config b f) (unify-Held f) i j s hi hj ei ej r sol (
          sym (Post-done (resolve-value s b w r M v m.fuel t sol ht) foundi)
          ∙ e
          ∙ Post-done (resolve-value s b w r M v m.fuel u sol hu) foundj)

-- With the occurs check on, for two terms of a well-formed bank, with no bindings to start from,
-- `enough_for` the number of terms of the bank as fuel and at least its `height_limit` for chains of
-- bindings: if some assignment in a free structure gives both terms one value, then `unify` returns
-- and succeeds, and the assignment respects the bindings that it leaves. So `unify` finds a
-- most general unifier wherever there is a unifier.
pub unify_general :
    (M : Structure) (free : IsFree M) (m : Machine) (config : UnificationConfig)
    → config.enable_occurs_check ≡ true
    → (b : TermBank) (w : IsWellFormed b) (v : ℕ → M.Carrier)
    → height_limit (length b.terms) ≤ m.fuel
    → (f t u : ℕ) → t < length b.terms
    → u < length b.terms
    → enough_for (length b.terms) ≤ f
    → value M b v t ≡ value M b v u
    → Returns (λ (ok, s). (ok ≡ true) × Solves M b s v) (unify m config b f t u [])
unify_general M free m config on b w v deep f t u ht hu enough e =
    let (r, run, _) = unify-Returns m config on b w deep f t u ht hu enough in
    let (ok, _, solves) =
      Post-done (unify-Held M free m config b w v f t u [] ht hu (λ x y h. cc) (λ x y h. cc) e)
        run in
    (r, run, (ok, solves))
