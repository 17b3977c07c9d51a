-- ===== src/Prelude/Decimal.antt =====
-- `std::to_string` on an unsigned number: its decimal digits as bytes.
use Prim.Native.Nat.{ℕ, zero, suc, ◌+◌, ◌-◌, ◌*◌, ◌<◌, ◌/◌, ◌%◌}
use mathlib.Core.Path.{◌≡◌, refl, ◌∙◌}
use mathlib.Core.Logic.{inl, inr}
use native.Mathlib.Omega.{arith}
use mathlib.Core.List.{List, [], ◌∷◌, ◌++◌}
use richard_atp_engine.Prelude.Tests.{Bool-cases, ltb, if◌then◌else◌}

-- The digits of a number, of which fewer are left than there is fuel.
unfoldable pub digits : ℕ → ℕ → List ℕ
digits zero n = []
digits (suc f) n =
    let leading = digits f (n / 10) in (if ltb n 10 then [] else leading) ++ (b'0' + n % 10) ∷ []

unfoldable pub to_string : ℕ → List ℕ
unfolding digits
to_string n = digits (suc n) n

-- The number that decimal digits stand for, behind those that are read already.
abbrev pub read : ℕ → List ℕ → ℕ
read n [] = n
read n (c ∷ cs) = read (10 * n + (c - b'0')) cs

read-append : (n : ℕ) (cs : List ℕ) (c : ℕ) → read n (cs ++ c ∷ []) ≡ 10 * read n cs + (c - b'0')
read-append n [] c = refl
read-append n (d ∷ cs) c = read-append (10 * n + (d - b'0')) cs c

read-digits : (f n : ℕ) → n < f → read 0 (digits f n) ≡ n
unfolding digits
read-digits zero n h = absurd (omega arith)
read-digits (suc f) n h = elim (Bool-cases (ltb n 10)) [
  | inl small ↦ rw small (ground arith)
  | inr large ↦ rw large (
      read-append 0 (digits f (n / 10)) (b'0' + n % 10)
      ∙ rw (read-digits f (n / 10) (ground arith)) (omega arith))
]

-- Reading the digits of a number gives the number.
pub read-to_string : (n : ℕ) → read 0 (to_string n) ≡ n
unfolding to_string
read-to_string n = read-digits (suc n) n (omega arith)
