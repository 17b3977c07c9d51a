-- ===== src/Infer/Unification/Contained.antt =====
-- In a structure where no value contains itself, the occurs check does not find a variable in
-- another term of the same value, so that the variable is bound.
use richard_atp_engine.Prelude.{
  ℕ, zero, suc, ◌≤◌, ◌<◌, ◌≡◌, ◌≢◌, refl, sym, ap, ◌∙◌, inl, inr, subst, ⊎_elim, true, false, none,
  some, ℕ_eq, length, find?, find?-cons_cases, emplace_new, get_elem?, get_elem?_of_lt,
  get_elem?-lt, All, All-map_pred, map, List, [], ◌∷◌, Machine, Outcome, done, ◌>>=◌, Post, returns,
  fails, Post-bind, Post-map, Post-if, Post-self, Post-done, Bool, arith, ◌==◌, ==_iff,
  if◌then◌else◌,
}
use native.Mathlib.Nat.{lt_trans}
use richard_atp_engine.Core.Types.{Term}
use richard_atp_engine.Core.TermBank.{TermBank, is_variable, get_term}
use richard_atp_engine.Core.TermBank.Laws.{IsWellFormed}
use richard_atp_engine.Semantics.{Structure, value}
use richard_atp_engine.Semantics.Laws.{value-app, value_of_variable, var_term_of}
use richard_atp_engine.Infer.Substitution.{Substitution, resolve, bind, occurs_in, any_of}
use richard_atp_engine.Infer.Substitution.Resolve.{
  IsEnd, InRange, Solves, resolve-IsEnd, resolve-IsEnd_result, resolve-value,
}
use richard_atp_engine.Infer.Unification.{UnificationConfig, bind_variable}

-- A structure in which different terms without variables have different values, and no value
-- contains itself.
pub record IsFree (M : Structure) : Type 0 where
  pub injective :
      (f g : ℕ) (xs ys : List M.Carrier) → M.apply f xs ≡ M.apply g ys → (f ≡ g) × (xs ≡ ys)
  pub size : M.Carrier → ℕ
  pub smaller : (f : ℕ) (xs : List M.Carrier) → All (λ x. size x < size (M.apply f xs)) xs

module _ (M : Structure) (free : IsFree M) (m : Machine) (b : TermBank) (w : IsWellFormed b)
    (v : ℕ → M.Carrier) where
  abbrev pub val : ℕ → M.Carrier
  val = value M b v

  args_smaller :
      (i : ℕ) (t : Term)
      → get_elem? b.terms i ≡ some t
      → is_variable b i ≡ done false
      → All (λ a. free.size (val a) < free.size (val i)) t.args
  args_smaller i t at plain =
      subst (λ z. All (λ a. free.size (val a) < free.size z) t.args)
        (sym (value-app M b v w i t at (var_term_of b w i t false at plain)))
        (of_map _ t.args (free.smaller t.symbol (map val t.args)))
    where
      of_map :
          (n : ℕ) (xs : List ℕ)
          → All (λ x. free.size x < n) (map val xs)
          → All (λ a. free.size (val a) < n) xs
      of_map n [] h = tt
      of_map n (x ∷ xs) h = (h.0, of_map n xs h.1)

  pub args_inside :
      (k : ℕ) (x : Term) → get_elem? b.terms k ≡ some x → All (λ a. a < length b.terms) x.args
  args_inside k x e =
      All-map_pred x.args (λ a (below : a < k). lt_trans below (get_elem?-lt b.terms k x e))
        (w.fits k x e).below

  -- The run has succeeded, and the assignment respects the bindings that it leaves.
  abbrev pub Held : Bool × Substitution → Type 0
  Held (ok, s') = (ok ≡ true) × InRange s' b × Solves M b s' v

  module _ (s : Substitution) (r : InRange s b) (solves : Solves M b s v) where
    any_of-small :
        (test : ℕ → Outcome Bool) (n k : ℕ) (args : List ℕ)
        → All (λ a. Post (λ hit. hit ≡ true → n ≤ free.size (val a)) (test a)) args
        → All (λ a. free.size (val a) < k) args
        → Post (λ hit. hit ≡ true → n < k) (any_of test args)
    unfolding any_of
    any_of-small test n k [] h l = returns (λ e. cc)
    any_of-small test n k (a ∷ args) h l = Post-bind h.0 λ hit first.
        Post-if hit (λ yes_hit. returns λ _. let low = first yes_hit in omega (arith, low, l.0))
          (λ _. any_of-small test n k args h.1 l.1)

    abbrev Contains : ℕ → ℕ → Bool → Type 0
    Contains x id hit = hit ≡ true → free.size (v x) ≤ free.size (val id)

    each-Contains :
        (test : ℕ → Outcome Bool) (x : ℕ)
        → ((a : ℕ) → a < length b.terms → Post (Contains x a) (test a))
        → (args : List ℕ) → All (λ a. a < length b.terms) args
        → All (λ a. Post (Contains x a) (test a)) args
    each-Contains test x each args h = All-map_pred args (λ a inside. each a inside) h

    -- At the end of a chain of bindings, which is not the variable.
    end-Contains :
        (test : ℕ → Outcome Bool) (x i : ℕ)
        → ((a : ℕ) → a < length b.terms → Post (Contains x a) (test a))
        → i < length b.terms
        → IsEnd s b i
        → Post
            (λ hit. hit ≡ true → free.size (v x) < free.size (val i))
            (is_variable b i >>= λ is_var.
              if is_var then done false else (get_term b i >>= λ t. any_of test t.args))
    end-Contains test x i each inside (inr (is_var, _)) = rw is_var (returns λ e. cc)
    end-Contains test x i each inside (inl plain) =
        let (t, at) = get_elem?_of_lt b.terms i inside in
        rw (plain, at)
          (any_of-small test (free.size (v x)) (free.size (val i)) t.args
            (each-Contains test x each t.args (args_inside i t at)) (args_smaller i t at plain))

    -- Where the occurs check finds the variable, the value of the term contains that of the
    -- variable.
    occurs_in-Contains :
        (f x id : ℕ)
        → x < length b.terms
        → is_variable b x ≡ done true
        → id < length b.terms
        → Post (Contains x id) (occurs_in m f s b x id)
    unfolding occurs_in
    occurs_in-Contains zero x id hx is_var h = fails
    occurs_in-Contains (suc f) x id hx is_var h =
        Post-bind (Post-self (resolve m.fuel s b id)) λ i found.
          let (inside, end) = Post-done (resolve-IsEnd_result s b w r m.fuel id h) found in
          let same =
            ap free.size (Post-done (resolve-value s b w r M v m.fuel id solves h) found) in
          Post-if (x == i)
            (λ hit. returns λ _.
              let here : v x ≡ val i =
                sym (value_of_variable b w M v x hx is_var) ∙ ap val ((==_iff x i).0 hit) in
              omega (arith, same, ap free.size here))
            λ _.
              Post-map
                (end-Contains (occurs_in m f s b x) x i
                  (λ a ha. occurs_in-Contains f x a hx is_var ha) inside end)
                λ hit low e. let less = low e in omega (arith, less, same)

    at_end : (f t : ℕ) → IsEnd s b t → Post (λ i. i ≡ t) (resolve f s b t)
    unfolding resolve
    at_end zero t end = fails
    at_end (suc f) t end = rw (resolve-IsEnd f s b t end) (returns refl)

    -- So it does not find it in another term with the same value at the end of a chain.
    occurs_in-misses :
        (f x t : ℕ)
        → x < length b.terms
        → is_variable b x ≡ done true
        → t < length b.terms
        → IsEnd s b t
        → x ≢ t
        → v x ≡ val t
        → Post (λ hit. hit ≡ false) (occurs_in m f s b x t)
    unfolding occurs_in
    occurs_in-misses zero x t hx is_var h end apart same = fails
    occurs_in-misses (suc f) x t hx is_var h end apart same = Post-bind (at_end m.fuel t end) λ i e.
        Post-if (x == i) (λ hit. absurd (apart ((==_iff x i).0 hit ∙ e)))
          λ _.
            Post-map
              (end-Contains (occurs_in m f s b x) x i
                (λ a ha. occurs_in-Contains f x a hx is_var ha)
                (subst (λ z. z < length b.terms) (sym e) h) (subst (IsEnd s b) (sym e) end))
              λ hit low. missed hit λ e'.
                let less = low e' in
                let sizes = ap free.size (same ∙ ap val (sym e)) in omega (arith, less, sizes)
      where
        missed : (hit : Bool) → (hit ≡ true → ⊥) → hit ≡ false
        missed true h = absurd (h refl)
        missed false h = refl

    bound-Held :
        (x t : ℕ)
        → x < length b.terms
        → t < length b.terms
        → is_variable b x ≡ done true
        → v x ≡ val t
        → Held (true, (x, t) ∷ s)
    bound-Held x t hx ht is_var same = (
      refl,
      λ y u e.
          ⊎_elim
            (λ (here, to). (
              subst (λ z. is_variable b z ≡ done true) here is_var,
              subst (λ z. z < length b.terms) here hx,
              subst (λ z. z < length b.terms) to ht,
            ))
            (r y u) (find?-cons_cases x y t u s e),
      λ y u e.
          ⊎_elim (λ (here, to). sym (ap v here) ∙ same ∙ ap val to) (solves y u)
            (find?-cons_cases x y t u s e),
    )

    -- The unbound variable takes the term, where their values are the same.
    pub bind_variable-Held :
        (config : UnificationConfig) (x t : ℕ)
        → x < length b.terms
        → t < length b.terms
        → is_variable b x ≡ done true
        → find? x s ≡ none
        → IsEnd s b t
        → x ≢ t
        → v x ≡ val t
        → Post Held (bind_variable m config b x t s)
    unfolding bind_variable bind
    bind_variable-Held config x t hx ht is_var unbound end apart same =
        rw (emplace_new x t s unbound) (
          Post-if config.enable_occurs_check
            (λ _. Post-bind (occurs_in-misses m.fuel x t hx is_var ht end apart same) λ hit missed.
              Post-if hit (λ found. cc) (λ _. returns (bound-Held x t hx ht is_var same)))
            (λ _. returns (bound-Held x t hx ht is_var same)))
