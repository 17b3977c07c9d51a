-- ===== src/Prelude/Keys.antt =====
-- The Boolean tests for equality that the code's containers use, as instances.
use Prim.Native.Nat.{ℕ}
use mathlib.Core.Path.{◌≡◌, subst}
use mathlib.Core.Logic.{◌↔◌}
use mathlib.Core.Bool.{Bool, true}
use mathlib.Core.List.{List}
use richard_atp_engine.Prelude.Tests.{◌==◌ as nat_eq, ==_iff, list_eq, list_eq_sound, list_eq_refl}

pub record Eq {ℓ} (A : Type ℓ) : Type ℓ where
  pub beq : A → A → Bool
  pub beq_iff : (a b : A) → (beq a b ≡ true) ↔ (a ≡ b)

instance abbrev pub ℕ_eq : Eq ℕ
ℕ_eq = record { beq = nat_eq; beq_iff = ==_iff }

pub list_eq_iff : (xs ys : List ℕ) → (list_eq xs ys ≡ true) ↔ (xs ≡ ys)
list_eq_iff xs ys =
    (list_eq_sound xs ys, λ e. subst (λ zs. list_eq xs zs ≡ true) e (list_eq_refl xs))

instance abbrev pub ids_eq : Eq (List ℕ)
ids_eq = record { beq = list_eq; beq_iff = list_eq_iff }
