-- ===== src/Infer/Unification/Heights.antt =====
-- Heights of terms under bindings that are made one after the other.
use richard_atp_engine.Prelude.{
  ℕ, zero, suc, ◌+◌, ◌≤◌, ◌<◌, ◌≡◌, refl, inl, inr, false, none, some, find?, ℕ_eq, length, leb,
  All, All-map_pred, map, List, [], ◌∷◌, arith, if◌then◌else◌,
}
use richard_atp_engine.Core.TermBank.{TermBank}
use richard_atp_engine.Core.TermBank.Laws.{IsWellFormed}
use richard_atp_engine.Semantics.{Structure, value}
use richard_atp_engine.Semantics.Laws.{value-app, value-var, is_variable_cases}
use richard_atp_engine.Infer.Substitution.{Substitution}
use richard_atp_engine.Infer.Substitution.Resolve.{InRange}
use richard_atp_engine.Infer.Unification.Occurs.{Solution}
use richard_atp_engine.Proof.Trace.Visited.{unvisited, unvisited-nil}

pub larger : ℕ → ℕ → ℕ
larger a b = if leb a b then b else a

pub greatest : List ℕ → ℕ
greatest [] = 0
greatest (x ∷ xs) = larger x (greatest xs)

-- The structure in which the value of a term is its height.
abbrev pub heights : Structure
heights = record {
  Carrier = ℕ;
  point = 0;
  apply = λ f args. suc (greatest args);
  truth = λ h. false;
}

-- `n · 2ᵏ`.
unfoldable pub doubled : ℕ → ℕ → ℕ
doubled zero n = n
doubled (suc k) n = doubled k n + doubled k n

pub doubled-suc : (k n : ℕ) → doubled (suc k) n ≡ doubled k n + doubled k n
unfolding doubled
doubled-suc k n = refl

pub doubled_mono : (j k n : ℕ) → j ≤ k → doubled j n ≤ doubled k n
unfolding doubled
doubled_mono zero zero n h = omega arith
doubled_mono zero (suc k) n h = omega (arith, doubled_mono zero k n (omega arith))
doubled_mono (suc j) zero n h = absurd (omega arith)
doubled_mono (suc j) (suc k) n h = omega (arith, doubled_mono j k n (omega arith))

abbrev pub variables_of : Substitution → List ℕ
variables_of s = map (λ (p : ℕ × ℕ). p.0) s

module _ (b : TermBank) where
  -- Bindings made one after the other, each of an unbound variable that does not occur in its
  -- term. Each may double the greatest height; a chain of variables is as long as the bindings.
  pub record IsGrounded (s : Substitution) : Type 0 where
    pub in_range : InRange s b
    pub solution : Solution heights b s
    pub grows :
        (v : ℕ → ℕ) (c : ℕ)
        → ((y : ℕ) → v y ≤ c)
        → (id : ℕ) → id < length b.terms
        → value heights b (solution.extend v) id ≤ c + doubled (length s) (length b.terms)
    pub order : ℕ → ℕ
    pub decreasing : (x t : ℕ) → find? x s ≡ some t → order t < order x
    pub unbound : (x : ℕ) → find? x s ≡ none → order x ≡ 0
    pub short : (x : ℕ) → order x ≤ length s
    pub room : length s + unvisited (length b.terms) (variables_of s) ≤ length b.terms

  abbrev pub height : (s : Substitution) → IsGrounded s → ℕ → ℕ
  height s g id = value heights b (g.solution.extend (λ y. 0)) id

pub below_greatest : (xs : List ℕ) → All (λ x. x < suc (greatest xs)) xs
unfolding greatest larger
below_greatest [] = tt
below_greatest (x ∷ xs) = (
  ground arith,
  All-map_pred xs (λ y (h : y < suc (greatest xs)). grow x (greatest xs) y h) (below_greatest xs),
)
  where
    grow : (x g y : ℕ) → y < suc g → y < suc (larger x g)
    grow x g y h = ground arith

pub All-of_map :
    (f : ℕ → ℕ) (n : ℕ) (xs : List ℕ) → All (λ x. x < n) (map f xs) → All (λ x. f x < n) xs
All-of_map f n [] h = tt
All-of_map f n (x ∷ xs) h = (h.0, All-of_map f n xs h.1)

greatest_below : (n : ℕ) (xs : List ℕ) → All (λ x. x ≤ n) xs → greatest xs ≤ n
unfolding greatest larger
greatest_below n [] h = omega arith
greatest_below n (x ∷ xs) h = let hx = h.0 in let rest = greatest_below n xs h.1 in ground arith

All-map : (f : ℕ → ℕ) (n : ℕ) (xs : List ℕ) → All (λ x. f x ≤ n) xs → All (λ x. x ≤ n) (map f xs)
All-map f n [] h = tt
All-map f n (x ∷ xs) h = (h.0, All-map f n xs h.1)

module _ (b : TermBank) (w : IsWellFormed b) where
  -- Without bindings a term is no higher than its number, and one more.
  first_height :
      (v : ℕ → ℕ) (c : ℕ)
      → ((y : ℕ) → v y ≤ c)
      → (n id : ℕ) → id < n
      → id < length b.terms
      → value heights b v id ≤ c + suc id
  first_height v c h zero id below inside = absurd (omega arith)
  first_height v c h (suc n) id below inside =
      let (t, at, kind) = is_variable_cases b w id inside in
      elim kind [
        | inl (_, var) ↦ let hv = h id in omega (arith, value-var heights b v id t at var)
        | inr (_, plain) ↦ omega (
          arith,
          value-app heights b v w id t at plain,
          greatest_below (c + id) (map (value heights b v) t.args) (
              All-map (value heights b v) (c + id) t.args (
                All-map_pred t.args
                  (λ a (lower : a < id).
                    let ha = first_height v c h n a (omega arith) (omega arith) in omega arith)
                  (w.fits id t at).below)),
        )
      ]

  pub start-IsGrounded : IsGrounded b []
  unfolding doubled
  start-IsGrounded = record {
    in_range = λ x t e. cc;
    solution = record { extend = λ v. v; solves = λ v x t e. cc; free = λ v x e. refl };
    grows = λ v c h id i. omega (arith, first_height v c h (suc id) id (omega arith) i);
    order = λ x. 0;
    decreasing = λ x t e. cc;
    unbound = λ x e. refl;
    short = λ x. omega arith;
    room = omega (arith, unvisited-nil (length b.terms));
  }
