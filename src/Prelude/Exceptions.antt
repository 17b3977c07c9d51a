-- ===== src/Prelude/Exceptions.antt =====
-- Runs that end as a C++ program may: with a value or with an exception, but neither in an endless
-- loop nor by a read out of bounds.
use mathlib.Core.Path.{◌≡◌}
use mathlib.Core.Bool.{Bool, true, false}
use richard_atp_engine.Prelude.Tests.{if◌then◌else◌}
use richard_atp_engine.Prelude.Runs.{
  Failure, out_of_bounds, diverged, Outcome, done, failed, ◌>>=◌, Post, returns,
}

abbrev pub IsException : Failure → Type 0
IsException out_of_bounds = ⊥
IsException diverged = ⊥
IsException _ = Unit

-- The run returns a value of which `P` holds, or throws.
pub data Ends {ℓ κ} {A : Type ℓ} (P : A → Type κ) : Outcome A → Type (ℓ ⊔ κ) where
  gives : {a : A} → P a → Ends P (done a)
  throws : {e : Failure} → IsException e → Ends P (failed e)

module _ {ℓ κ} {A : Type ℓ} {P : A → Type κ} where
  pub Ends-bind {ℓ' κ'} :
      {B : Type ℓ'} {Q : B → Type κ'} {m : Outcome A} {f : A → Outcome B}
      → Ends P m
      → ((a : A) → P a → Ends Q (f a))
      → Ends Q (m >>= f)
  Ends-bind (gives {a} p) k = k a p
  Ends-bind (throws e) k = throws e

  pub Ends-map {κ'} :
      {Q : A → Type κ'} {m : Outcome A} → Ends P m → ((a : A) → P a → Q a) → Ends Q m
  Ends-map (gives {a} p) k = gives (k a p)
  Ends-map (throws e) k = throws e

  pub Ends-if :
      (b : Bool) {m n : Outcome A}
      → (b ≡ true → Ends P m)
      → (b ≡ false → Ends P n)
      → Ends P (if b then m else n)
  Ends-if true h k = h (λ _. true)
  Ends-if false h k = k (λ _. false)

  -- What is known of the value may be added.
  pub Ends-Post {κ'} :
      {Q : A → Type κ'} {m : Outcome A} → Ends P m → Post Q m → Ends (λ a. P a × Q a) m
  Ends-Post (gives p) (returns q) = gives (p, q)
  Ends-Post (throws e) _ = throws e
