-- ===== src/Prelude/Lists.antt =====
-- Lists under native indices, and predicates over their elements.
use Prim.Native.Nat.{ℕ, zero, suc, ◌+◌, ◌<◌}
use mathlib.Core.Path.{◌≡◌, refl, ap}
use mathlib.Core.Logic.{◌⊎◌, inl, inr}
use mathlib.Core.List.{List, [], ◌∷◌, ◌++◌, map, Memᴰ, Permᴰ}
use mathlib.Core.Option.{Option, none, some}
use mathlib.Core.Path.{sym, subst}
use native.Mathlib.Omega.{arith}

module _ {ℓ} {A : Type ℓ} where
  abbrev pub length : List A → ℕ
  length [] = 0
  length (x ∷ xs) = suc (length xs)

  abbrev pub get_elem? : List A → ℕ → Option A
  get_elem? [] i = none
  get_elem? (x ∷ xs) zero = some x
  get_elem? (x ∷ xs) (suc i) = get_elem? xs i

  pub length-append : (xs ys : List A) → length (xs ++ ys) ≡ length xs + length ys
  length-append [] ys = omega arith
  length-append (x ∷ xs) ys = omega (arith, length-append xs ys)

module _ {ℓ} {A : Type ℓ} where
  pub length-append_one : (xs : List A) (y : A) → length (xs ++ y ∷ []) ≡ length xs + 1
  length-append_one xs y = omega (arith, length-append xs (y ∷ []))

  pub get_elem?-lt : (xs : List A) (i : ℕ) (x : A) → get_elem? xs i ≡ some x → i < length xs
  get_elem?-lt [] i x h = cc
  get_elem?-lt (y ∷ xs) zero x h = omega arith
  get_elem?-lt (y ∷ xs) (suc i) x h = omega (arith, get_elem?-lt xs i x h)

  pub get_elem?_of_lt : (xs : List A) (i : ℕ) → i < length xs → (x : A) × (get_elem? xs i ≡ some x)
  get_elem?_of_lt [] i h = absurd (omega arith)
  get_elem?_of_lt (y ∷ xs) zero h = (y, refl)
  get_elem?_of_lt (y ∷ xs) (suc i) h = get_elem?_of_lt xs i (omega arith)

  pub get_elem?-append :
      (xs ys : List A) (i : ℕ) (x : A) → get_elem? xs i ≡ some x → get_elem? (xs ++ ys) i ≡ some x
  get_elem?-append [] ys i x h = cc
  get_elem?-append (y ∷ xs) ys zero x h = h
  get_elem?-append (y ∷ xs) ys (suc i) x h = get_elem?-append xs ys i x h

  pub get_elem?-append_last : (xs : List A) (y : A) → get_elem? (xs ++ y ∷ []) (length xs) ≡ some y
  get_elem?-append_last [] y = refl
  get_elem?-append_last (x ∷ xs) y = get_elem?-append_last xs y

  -- An entry of a list with one more element is an old one or the last.
  pub get_elem?-append_cases :
      (xs : List A) (y : A) (i : ℕ) (x : A)
      → get_elem? (xs ++ y ∷ []) i ≡ some x
      → (get_elem? xs i ≡ some x) ⊎ ((i ≡ length xs) × (x ≡ y))
  get_elem?-append_cases [] y zero x h = inr (refl, ground arith)
  get_elem?-append_cases [] y (suc i) x h = cc
  get_elem?-append_cases (z ∷ xs) y zero x h = inl h
  get_elem?-append_cases (z ∷ xs) y (suc i) x h = elim (get_elem?-append_cases xs y i x h) [
    | inl old ↦ inl old
    | inr (at, e) ↦ inr (ap suc at, e)
  ]

  abbrev pub take : ℕ → List A → List A
  take zero xs = []
  take (suc n) [] = []
  take (suc n) (x ∷ xs) = x ∷ take n xs

  pub take-length : (xs : List A) → take (length xs) xs ≡ xs
  take-length [] = refl
  take-length (x ∷ xs) = ap (◌∷◌ x) (take-length xs)

  -- The list without its entry at an index.
  abbrev pub erase_idx : List A → ℕ → List A
  erase_idx [] i = []
  erase_idx (x ∷ xs) zero = xs
  erase_idx (x ∷ xs) (suc i) = x ∷ erase_idx xs i

module _ {ℓ} {A : Type ℓ} where
  pub get_elem?-erase_idx_lt :
      (xs : List A) (i j : ℕ) → i < j → get_elem? (erase_idx xs j) i ≡ get_elem? xs i
  get_elem?-erase_idx_lt [] i j h = refl
  get_elem?-erase_idx_lt (x ∷ xs) i zero h = absurd (omega arith)
  get_elem?-erase_idx_lt (x ∷ xs) zero (suc j) h = refl
  get_elem?-erase_idx_lt (x ∷ xs) (suc i) (suc j) h = get_elem?-erase_idx_lt xs i j (omega arith)

module _ {ℓ κ} {A : Type ℓ} (P : A → Type κ) where
  abbrev pub All : List A → Type κ
  All [] = Unit
  All (x ∷ xs) = P x × All xs

module _ {ℓ} {A : Type ℓ} (P : A → Type 0) where
  abbrev pub Any : List A → Type 0
  Any [] = ⊥
  Any (x ∷ xs) = P x ⊎ Any xs

module _ {ℓ κ} {A : Type ℓ} (P : A → Type κ) where
  pub All-append : (xs ys : List A) → All P xs → All P ys → All P (xs ++ ys)
  All-append [] ys hx hy = hy
  All-append (x ∷ xs) ys hx hy = (hx.0, All-append xs ys hx.1 hy)

  pub All-get_elem? : (xs : List A) (i : ℕ) (x : A) → All P xs → get_elem? xs i ≡ some x → P x
  All-get_elem? [] i x h e = cc
  All-get_elem? (y ∷ xs) zero x h e = subst P (cc) h.0
  All-get_elem? (y ∷ xs) (suc i) x h e = All-get_elem? xs i x h.1 e

  pub All-Mem : (xs : List A) (x : A) → All P xs → Memᴰ x xs → P x
  All-Mem [] x h m = elim m [ ]
  All-Mem (y ∷ xs) x h (Memᴰ.head e) = subst P (sym e) h.0
  All-Mem (y ∷ xs) x h (Memᴰ.tail m) = All-Mem xs x h.1 m

  pub All-of_Mem : (xs : List A) → ((x : A) → Memᴰ x xs → P x) → All P xs
  All-of_Mem [] h = tt
  All-of_Mem (x ∷ xs) h = (h x (Memᴰ.head refl), All-of_Mem xs (λ y m. h y (Memᴰ.tail m)))

  pub All-erase_idx : (xs : List A) (i : ℕ) → All P xs → All P (erase_idx xs i)
  All-erase_idx [] i h = tt
  All-erase_idx (x ∷ xs) zero h = h.1
  All-erase_idx (x ∷ xs) (suc i) h = (h.0, All-erase_idx xs i h.1)

  pub All-Perm : {xs ys : List A} → Permᴰ xs ys → All P xs → All P ys
  All-Perm Permᴰ.nil h = tt
  All-Perm (Permᴰ.cons e p) h = (subst P e h.0, All-Perm p h.1)
  All-Perm (Permᴰ.swap e f) h = (subst P f h.1.0, (subst P e h.0, h.1.1))
  All-Perm (Permᴰ.trans p q) h = All-Perm q (All-Perm p h)

module _ {ℓ} {A : Type ℓ} (P : A → Type 0) where
  pub Any-of_get_elem? : (xs : List A) (i : ℕ) (x : A) → get_elem? xs i ≡ some x → P x → Any P xs
  Any-of_get_elem? [] i x e h = cc
  Any-of_get_elem? (y ∷ xs) zero x e h = inl (subst P (cc) h)
  Any-of_get_elem? (y ∷ xs) (suc i) x e h = inr (Any-of_get_elem? xs i x e h)

  pub Any-of_Mem : (xs : List A) (x : A) → Memᴰ x xs → P x → Any P xs
  Any-of_Mem [] x m h = elim m [ ]
  Any-of_Mem (y ∷ xs) x (Memᴰ.head e) h = inl (subst P e h)
  Any-of_Mem (y ∷ xs) x (Memᴰ.tail m) h = inr (Any-of_Mem xs x m h)

  -- What holds of some entry holds of the one at an index or of one of the others.
  pub Any-erase_idx :
      (xs : List A) (i : ℕ) (x : A)
      → get_elem? xs i ≡ some x
      → Any P xs
      → P x ⊎ Any P (erase_idx xs i)
  Any-erase_idx [] i x e h = cc
  Any-erase_idx (y ∷ xs) zero x e (inl h) = inl (subst P (cc) h)
  Any-erase_idx (y ∷ xs) zero x e (inr h) = inr h
  Any-erase_idx (y ∷ xs) (suc i) x e (inl h) = inr (inl h)
  Any-erase_idx (y ∷ xs) (suc i) x e (inr h) = elim (Any-erase_idx xs i x e h) [
    | inl here ↦ inl here
    | inr there ↦ inr (inr there)
  ]

pub All-map_pred {ℓ κ κ'} :
    {A : Type ℓ} {P : A → Type κ} {Q : A → Type κ'} (xs : List A)
    → ((x : A) → P x → Q x)
    → All P xs
    → All Q xs
All-map_pred [] f h = tt
All-map_pred (x ∷ xs) f h = (f x h.0, All-map_pred xs f h.1)

pub map_congr {ℓ κ κ'} :
    {A : Type ℓ} {B : Type κ} {P : A → Type κ'} (f g : A → B) (xs : List A)
    → ((x : A) → P x → f x ≡ g x)
    → All P xs
    → map f xs ≡ map g xs
map_congr f g [] h a = refl
map_congr f g (x ∷ xs) h a = rw (h x a.0, map_congr f g xs h a.1)
