-- ===== src/Proof/Trace/Visited.antt =====
-- How many numbers a walk has still to visit, which bounds its rounds.
use richard_atp_engine.Prelude.{
  ℕ, zero, suc, ◌+◌, ◌≡◌, ◌<◌, ◌≤◌, inl, inr, refl, sym, true, false, Bool-cases, List, [], ◌∷◌,
  Memᴰ, ◌==◌, ==_iff, arith, if◌then◌else◌,
}
use richard_atp_engine.Infer.Renaming.{contains}

-- How many numbers below `n` have not been visited.
pub unvisited : ℕ → List ℕ → ℕ
unvisited zero visited = 0
unvisited (suc n) visited = (if contains n visited then 0 else 1) + unvisited n visited

pub unvisited-cons_above :
    (n i : ℕ) (visited : List ℕ) → n ≤ i → unvisited n (i ∷ visited) ≡ unvisited n visited
unfolding unvisited
unvisited-cons_above zero i visited h = refl
unvisited-cons_above (suc n) i visited h = ground (arith, unvisited-cons_above n i visited)

pub unvisited-cons :
    (n i : ℕ) (visited : List ℕ)
    → i < n
    → contains i visited ≡ false
    → unvisited n (i ∷ visited) + 1 ≡ unvisited n visited
unfolding unvisited
unvisited-cons zero i visited h new = absurd (omega arith)
unvisited-cons (suc n) i visited h new =
    ground (arith, unvisited-cons n i visited, unvisited-cons_above n i visited)

pub unvisited-nil : (n : ℕ) → unvisited n [] ≡ n
unfolding unvisited
unvisited-nil zero = refl
unvisited-nil (suc n) = omega (arith, unvisited-nil n)

pub contains_sound : (x : ℕ) (ys : List ℕ) → contains x ys ≡ true → Memᴰ x ys
contains_sound x [] h = cc
contains_sound x (y ∷ ys) h = elim (Bool-cases (y == x)) [
  | inl same ↦ Memᴰ.head (sym ((==_iff y x).0 same))
  | inr other ↦ Memᴰ.tail (contains_sound x ys (ground arith))
]
