-- ===== src/Infer/Unification/Fuel.antt =====
-- How much fuel `unify` takes with the occurs check on, and the arguments of two terms.
use native.Mathlib.Nat.{lt_trans, mod-eq_of_lt}
use richard_atp_engine.Prelude.{
  ℕ, zero, suc, ◌+◌, ◌≤◌, ◌<◌, ◌≡◌, ◌≢◌, refl, ◌∙◌, ◌⊎◌, inl, inr, Bool, true, false, some,
  Bool-cases, ℕ_eq, get_elem?, get_elem?-lt, length, List, [], ◌∷◌, All, All-map_pred, take-length,
  Machine, Outcome, done, Returns, arith, not, ◌||◌, ◌==◌,
}
use richard_atp_engine.Core.Types.{Term, arity}
use richard_atp_engine.Core.TermBank.{TermBank, is_variable}
use richard_atp_engine.Core.TermBank.Laws.{IsWellFormed}
use richard_atp_engine.Infer.Substitution.{Substitution}
use richard_atp_engine.Infer.Unification.{UnificationConfig, unify_each, unify_terms}
use richard_atp_engine.Infer.Unification.Sound.{same_shape}
use richard_atp_engine.Infer.Unification.Heights.{
  doubled, doubled_mono, IsGrounded, height, start-IsGrounded,
}
use richard_atp_engine.Infer.Unification.Chains.{args_lower}

-- `k · w`.
unfoldable pub rounds : ℕ → ℕ → ℕ
rounds zero w = 0
rounds (suc k) w = w + rounds k w

-- More than the height of every term of `n` in a bank, after as many bindings as can be made.
unfoldable pub height_limit : ℕ → ℕ
height_limit n = suc (n + doubled n n)

-- Fuel that is enough for `unify` over a bank of `n` terms.
unfoldable pub enough_for : ℕ → ℕ
enough_for n = rounds (suc n) (height_limit n)

apart_of : (i j : ℕ) → (i == j) ≡ false → i ≢ j
apart_of i j h e = ground (arith, e)

module _ (m : Machine) (config : UnificationConfig) (on : config.enable_occurs_check ≡ true)
    (b : TermBank) (w : IsWellFormed b) (deep : height_limit (length b.terms) ≤ m.fuel) where
  -- The bindings are the same, or there are more.
  unfoldable pub After : Substitution → Substitution → Type 0
  After s s' = (s' ≡ s) ⊎ (IsGrounded b s' × (length s < length s'))

  abbrev pub Result : Substitution → Bool × Substitution → Type 0
  Result s (ok, s') = ok ≡ true → After s s'

  count : (s : Substitution) → IsGrounded b s → length s ≤ length b.terms
  count s g = omega (arith, g.room)

  -- There is fuel for the chains of bindings and for the occurs check.
  pub room_for_chain : (s : Substitution) → IsGrounded b s → length s < m.fuel
  unfolding height_limit
  room_for_chain s g = omega (arith, count s g)

  pub height-lt :
      (s : Substitution) (g : IsGrounded b s) (id : ℕ)
      → id < length b.terms
      → height b s g id < height_limit (length b.terms)
  unfolding height_limit
  height-lt s g id h = omega (
    arith,
    g.grows (λ y. 0) 0 (λ y. omega arith) id h,
    doubled_mono (length s) (length b.terms) (length b.terms) (count s g),
  )

  pub After-refl : (s : Substitution) → After s s
  unfolding After
  After-refl s = inl refl

  pub After-IsGrounded : (s : Substitution) → After [] s → IsGrounded b s
  unfolding After
  After-IsGrounded s (inl same) = rw same (start-IsGrounded b w)
  After-IsGrounded s (inr (g, more)) = g

  pub After-more : (s s' : Substitution) → IsGrounded b s' × (length s < length s') → After s s'
  unfolding After
  After-more s s' h = inr h

  After-trans :
      (s s' s'' : Substitution)
      → IsGrounded b s'
      → length s < length s'
      → After s' s''
      → After s s''
  unfolding After
  After-trans s s' s'' g less (inl same) = rw same (inr (g, less))
  After-trans s s' s'' g less (inr (g', more)) = inr (g', omega arith)

  abbrev Step : Type 0
  Step = ℕ → ℕ → Substitution → Outcome (Bool × Substitution)

  -- The arguments are unified one after the other, each over the bindings before it.
  unify_each-Returns :
      (step : Step) (Good : Substitution → Type 0) (Low : ℕ → Type 0)
      → ((a c : ℕ) (s : Substitution)
          → Low a
          → c < length b.terms
          → Good s
          → Returns (λ (ok, s'). ok ≡ true → Good s') (step a c s))
      → (ts us : List ℕ) (s : Substitution) → length ts ≡ length us
      → All Low ts
      → All (λ c. c < length b.terms) us
      → Good s
      → Returns (λ (ok, s'). ok ≡ true → Good s') (unify_each step ts us s)
  unfolding unify_each
  unify_each-Returns step Good Low each [] us s l ht hu good = ((true, s), refl, λ e. good)
  unify_each-Returns step Good Low each (t ∷ ts) [] s l ht hu good = absurd (omega arith)
  unify_each-Returns step Good Low each (t ∷ ts) (u ∷ us) s l ht hu good =
      let ((ok, s₁), run, first) = each t u s ht.0 hu.0 good in
      elim (Bool-cases ok) [
        | inl yes_ok ↦
            let (r, rest, next) =
              unify_each-Returns step Good Low each ts us s₁ (omega arith) ht.1 hu.1
                (first yes_ok) in
            (r, rw (run, unify_each) (rw yes_ok rest), next)
        | inr no_ok ↦ ((false, s₁), rw (run, unify_each) (rw no_ok refl), λ e. cc)
      ]

  -- `k` bounds the bindings that can still be made, and each round of them takes the fuel for one
  -- term of greatest height.
  abbrev pub Unifies : ℕ → Step → Type 0
  Unifies f step =
      (k t u : ℕ) (s : Substitution) (g : IsGrounded b s)
      → t < length b.terms
      → u < length b.terms
      → length b.terms ≤ length s + k
      → rounds k (height_limit (length b.terms)) + height b s g t < f
      → Returns (Result s) (step t u s)

  -- A pair of arguments, over the bindings of the pairs before it.
  unify_arguments :
      (f : ℕ) (step : Step)
      → Unifies f step
      → (k n : ℕ) (s : Substitution) (g : IsGrounded b s) → length b.terms ≤ length s + k
      → rounds k (height_limit (length b.terms)) + n < suc f
      → (a c : ℕ) (s' : Substitution) → (a < length b.terms) × (height b s g a < n)
      → c < length b.terms
      → After s s'
      → Returns (Result s) (step a c s')
  unfolding After rounds
  unify_arguments f step unifies k n s g left enough a c s' low hc (inl same) =
      rw same (unifies k a c s g low.0 hc left (omega (arith, low.1)))
  unify_arguments f step unifies zero n s g left enough a c s' low hc (inr (g', more)) =
      absurd (omega (arith, count s' g'))
  unify_arguments f step unifies (suc k) n s g left enough a c s' low hc (inr (g', more)) =
      let (r, run, next) =
        unifies k a c s' g' low.0 hc (omega (arith, left, more))
          (omega (arith, height-lt s' g' a low.0, enough)) in
      (r, run, λ ok. After-trans s s' r.1 g' more (next ok))

  pub terms-Returns :
      (f : ℕ) (step : Step)
      → Unifies f step
      → (k i j : ℕ) (t u : Term) (s : Substitution) (g : IsGrounded b s)
      → get_elem? b.terms i ≡ some t
      → get_elem? b.terms j ≡ some u
      → is_variable b i ≡ done false
      → length b.terms ≤ length s + k
      → rounds k (height_limit (length b.terms)) + height b s g i < suc f
      → Returns (Result s) (unify_terms m config b step t u s)
  unfolding unify_terms
  terms-Returns f step unifies k i j t u s g ti uj plain left enough =
      elim (Bool-cases (not (t.symbol == u.symbol) || not (arity t == arity u))) [
        | inl differ ↦ ((false, s), rw differ refl, λ e. cc)
        | inr same ↦
            let ft = w.fits i t ti in
            let fu = w.fits j u uj in
            let (symbols, lengths) =
              same_shape t.symbol u.symbol (length t.args) (length u.args) ft.small fu.small same in
            let walked : unify_terms m config b step t u s ≡ unify_each step t.args u.args s =
              rw same (
                rw (mod-eq_of_lt ft.small, take-length t.args, lengths, take-length u.args) refl) in
            let (r, run, next) =
              unify_each-Returns step (After s)
                (λ a. (a < length b.terms) × (height b s g a < height b s g i))
                (unify_arguments f step unifies k (height b s g i) s g left enough) t.args u.args s
                lengths (args_lower m b w s g i t ti plain)
                (All-map_pred u.args
                  (λ c (below : c < j). lt_trans below (get_elem?-lt b.terms j u uj)) fu.below)
                (After-refl s) in
            (r, walked ∙ run, next)
      ]
