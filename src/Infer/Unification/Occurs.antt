-- ===== src/Infer/Unification/Occurs.antt =====
-- What a failed occurs check says: the value of the term does not depend on the variable.
use richard_atp_engine.Prelude.{
  ℕ, zero, suc, ◌≡◌, ◌≢◌, ◌<◌, refl, sym, ap, ap, ◌∙◌, inl, inr, false, none, find?, ℕ_eq, length,
  get_elem?_of_lt, All, All-map_pred, map, List, [], ◌∷◌, Machine, Outcome, done, ◌>>=◌, Post,
  returns, fails, Post-bind, Post-map, Post-if, Post-self, Post-done, if◌then◌else◌, Bool, arith,
  ◌==◌,
}
use native.Mathlib.Nat.{lt_trans}
use richard_atp_engine.Core.TermBank.{TermBank, is_variable, get_term}
use richard_atp_engine.Core.TermBank.Laws.{IsWellFormed}
use richard_atp_engine.Semantics.{Structure, value}
use richard_atp_engine.Semantics.Laws.{value-app, value_of_variable, var_term_of}
use richard_atp_engine.Infer.Substitution.{Substitution, resolve, any_of, occurs_in}
use richard_atp_engine.Infer.Substitution.Resolve.{
  IsEnd, InRange, Solves, resolve-IsEnd_result, resolve-value,
}

-- For every assignment there is one that agrees with it on the unbound variables and respects the
-- bindings.
pub record Solution (M : Structure) (b : TermBank) (s : Substitution) : Type 0 where
  pub extend : (ℕ → M.Carrier) → ℕ → M.Carrier
  pub solves : (v : ℕ → M.Carrier) → Solves M b s (extend v)
  pub free : (v : ℕ → M.Carrier) (x : ℕ) → find? x s ≡ none → extend v x ≡ v x

module _ (M : Structure) (m : Machine) (s : Substitution) (b : TermBank) (w : IsWellFormed b)
    (in_range : InRange s b) (sol : Solution M b s) (x : ℕ) (v u : ℕ → M.Carrier)
    (same : (y : ℕ) → y ≢ x → v y ≡ u y) where
  -- The value of a term is the same under both assignments.
  abbrev Agree : ℕ → Type 0
  Agree t = value M b (sol.extend v) t ≡ value M b (sol.extend u) t

  Agree-each :
      (test : ℕ → Outcome Bool)
      → ((a : ℕ) → a < length b.terms → Post (λ hit. hit ≡ false → Agree a) (test a))
      → (args : List ℕ) → All (λ a. a < length b.terms) args
      → Post
          (λ hit.
            hit ≡ false → map (value M b (sol.extend v)) args ≡ map (value M b (sol.extend u)) args)
          (any_of test args)
  unfolding any_of
  Agree-each test each [] h = returns (λ _. refl)
  Agree-each test each (a ∷ args) h = Post-bind (each a h.0) λ hit first.
      Post-if hit (λ _. returns (λ e. cc))
        λ missed.
          Post-map (Agree-each test each args h.1) λ any rest e. rw (first missed, rest e) refl

  moved :
      (id r : ℕ)
      → id < length b.terms
      → resolve m.fuel s b id ≡ done r
      → (t : ℕ → M.Carrier) → value M b (sol.extend t) id ≡ value M b (sol.extend t) r
  moved id r h found t =
      Post-done (resolve-value s b w in_range M (sol.extend t) m.fuel id (sol.solves t) h) found

  at_end :
      (test : ℕ → Outcome Bool)
      → ((a : ℕ) → a < length b.terms → Post (λ hit. hit ≡ false → Agree a) (test a))
      → (r : ℕ) → r < length b.terms
      → r ≢ x
      → IsEnd s b r
      → Post
          (λ hit. hit ≡ false → Agree r)
          (is_variable b r >>= λ is_var.
            if is_var then done false else (get_term b r >>= λ t. any_of test t.args))
  at_end test each r inside other (inr (is_var, free)) = rw is_var (
      returns λ _.
        value_of_variable b w M (sol.extend v) r inside is_var
        ∙ sol.free v r free
        ∙ same r other
        ∙ sym (sol.free u r free)
        ∙ sym (value_of_variable b w M (sol.extend u) r inside is_var))
  at_end test each r inside other (inl plain) =
      let (t, at) = get_elem?_of_lt b.terms r inside in
      let plain_term = var_term_of b w r t false at plain in
      rw (plain, at)
        (Post-map
          (Agree-each test each t.args (
            All-map_pred t.args (λ a (below : a < r). lt_trans below inside) (w.fits r t at).below))
          λ hit agree e.
            value-app M b (sol.extend v) w r t at plain_term
            ∙ ap (M.apply t.symbol) (agree e)
            ∙ sym (value-app M b (sol.extend u) w r t at plain_term))

  -- For bindings over a well-formed bank that have a solution: if the occurs check returns and
  -- does not find the variable in a term of the bank, then the term's value under the solution
  -- is the same for two assignments that differ at most at that variable.
  pub occurs_in-false :
      (f id : ℕ)
      → id < length b.terms
      → Post (λ hit. hit ≡ false → Agree id) (occurs_in m f s b x id)
  unfolding occurs_in
  occurs_in-false zero id h = fails
  occurs_in-false (suc f) id h = Post-bind (Post-self (resolve m.fuel s b id)) λ r found.
      Post-if (x == r) (λ _. returns (λ e. cc))
        λ other.
          let (inside, end) = Post-done (resolve-IsEnd_result s b w in_range m.fuel id h) found in
          Post-map (at_end (occurs_in m f s b x) (occurs_in-false f) r inside (ground arith) end)
            λ hit agree e. moved id r h found v ∙ agree e ∙ sym (moved id r h found u)
