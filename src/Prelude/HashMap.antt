-- ===== src/Prelude/HashMap.antt =====
-- `std::unordered_map`: what it holds depends on the equality of keys and not on their hash, so a
-- map is an association list in which the first entry for a key counts.
use mathlib.Core.Path.{◌≡◌, refl}
use mathlib.Core.Logic.{◌≢◌}
use mathlib.Core.List.{List, [], ◌∷◌}
use mathlib.Core.Option.{Option, none, some}
use native.Mathlib.Omega.{arith}
use mathlib.Core.Logic.{◌⊎◌, inl, inr}
use richard_atp_engine.Prelude.Tests.{if◌then◌else◌, Bool-cases}
use richard_atp_engine.Prelude.Keys.{Eq}

module _ {ℓ κ} {K : Type ℓ} {V : Type κ} ⦃e : Eq K⦄ where
  -- `m.find(k)`.
  abbrev pub find? : K → List (K × V) → Option V
  find? k [] = none
  find? k ((j, v) ∷ m) = if e.beq j k then some v else find? k m

  -- `m.emplace(k, v)`: an entry that is there stays.
  abbrev pub emplace : K → V → List (K × V) → List (K × V)
  emplace k v m = elim (find? k m) [ none ↦ (k, v) ∷ m | some _ ↦ m ]

  -- A lookup after an insertion finds the new entry or an old one.
  pub find?-cons_cases :
      (k j : K) (v w : V) (m : List (K × V))
      → find? j ((k, v) ∷ m) ≡ some w
      → ((k ≡ j) × (v ≡ w)) ⊎ (find? j m ≡ some w)
  find?-cons_cases k j v w m h = elim (Bool-cases (e.beq k j)) [
    | inl same ↦ inl ((e.beq_iff k j).0 same, ground arith)
    | inr other ↦ inr (ground arith)
  ]

  pub find?-cons_self : (k : K) (v : V) (m : List (K × V)) → find? k ((k, v) ∷ m) ≡ some v
  find?-cons_self k v m = rw ((e.beq_iff k k).1 refl)

  pub find?-cons_ne :
      (k j : K) (v : V) (m : List (K × V)) → k ≢ j → find? j ((k, v) ∷ m) ≡ find? j m
  find?-cons_ne k j v m h = elim (Bool-cases (e.beq k j)) [
    | inl same ↦ absurd (h ((e.beq_iff k j).0 same))
    | inr other ↦ ground arith
  ]

  pub emplace_new :
      (k : K) (v : V) (m : List (K × V)) → find? k m ≡ none → emplace k v m ≡ (k, v) ∷ m
  emplace_new k v m h = rw (h, emplace)
