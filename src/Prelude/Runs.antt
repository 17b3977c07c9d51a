-- ===== src/Prelude/Runs.antt =====
-- What a run of the C++ code comes to: a value, or one of the ways not to return. A container of
-- the standard library holds a bounded number of elements; recursion and `while` loops take fuel.
use Prim.Native.Nat.{ℕ}
use mathlib.Core.Path.{◌≡◌}
use mathlib.Core.Bool.{Bool, true, false}
use mathlib.Core.List.{List}
use mathlib.Core.Option.{Option, none, some}
use richard_atp_engine.Prelude.Tests.{if◌then◌else◌}

pub data Failure : Type 0 where
  -- An index past the end: a failed `assert`, or undefined behaviour.
  out_of_bounds : Failure
  -- `std::bad_alloc` from a container that cannot grow.
  bad_alloc : Failure
  -- `std::runtime_error` of `SymbolTable::intern`.
  mismatch : Failure
  -- `std::runtime_error` of the parser: `expect` met another token, `parseTerm` met no name,
  -- a declaration is neither `cnf` nor `fof`, or it is `fof`; or the file cannot be opened.
  unexpected_token expected_name unknown_declaration unsupported_fof no_file : Failure
  -- The recursion or the loop has used its fuel up.
  diverged : Failure

pub data Outcome {ℓ} (A : Type ℓ) : Type ℓ where
  done : A → Outcome A
  failed : Failure → Outcome A

infixl 5 ◌>>=◌
abbrev pub ◌>>=◌ {ℓ κ} : {A : Type ℓ} {B : Type κ} → Outcome A → (A → Outcome B) → Outcome B
done a >>= f = f a
failed e >>= f = failed e

-- The element that an index names, or a failed read.
abbrev pub expect_some {ℓ} : {A : Type ℓ} → Option A → Outcome A
expect_some none = failed out_of_bounds
expect_some (some a) = done a

-- What the run depends on besides its input: how many elements a container can hold, how many
-- nested calls or rounds it can make, and the order in which `std::unordered_map` is walked.
pub record Machine : Type 0 where
  pub capacity : ℕ
  pub fuel : ℕ
  pub iteration : List ℕ → List ℕ

-- `P` holds of the value, if there is one.
pub data Post {ℓ κ} {A : Type ℓ} (P : A → Type κ) : Outcome A → Type (ℓ ⊔ κ) where
  returns : {a : A} → P a → Post P (done a)
  fails : {e : Failure} → Post P (failed e)

module _ {ℓ κ} {A : Type ℓ} {P : A → Type κ} where
  pub Post-bind {ℓ' κ'} :
      {B : Type ℓ'} {Q : B → Type κ'} {m : Outcome A} {f : A → Outcome B}
      → Post P m
      → ((a : A) → P a → Post Q (f a))
      → Post Q (m >>= f)
  Post-bind (returns {a} p) k = k a p
  Post-bind fails k = fails

  pub Post-map {κ'} :
      {Q : A → Type κ'} {m : Outcome A} → Post P m → ((a : A) → P a → Q a) → Post Q m
  Post-map (returns {a} p) k = returns (k a p)
  Post-map fails k = fails

  pub Post-done : {m : Outcome A} {a : A} → Post P m → m ≡ done a → P a
  Post-done {a = b} (returns {a} p) e = done_case e p
    where
      done_case : {x y : A} → done x ≡ done y → P x → P y
      done_case {x} {y} e p = rw (← done-injective e) p
        where
          out : Outcome A → A
          out (done z) = z
          out (failed _) = x

          done-injective : done x ≡ done y → x ≡ y
          done-injective e = λ i. out (e i)
  Post-done fails e = cc

  pub Post-if :
      (b : Bool) {m n : Outcome A}
      → (b ≡ true → Post P m)
      → (b ≡ false → Post P n)
      → Post P (if b then m else n)
  Post-if true h k = h (λ _. true)
  Post-if false h k = k (λ _. false)

  pub Post-expect_some : {o : Option A} → ((a : A) → o ≡ some a → P a) → Post P (expect_some o)
  Post-expect_some {o = none} h = fails
  Post-expect_some {o = some a} h = returns (h a (λ _. some a))

  pub Post-of_eq : (m : Outcome A) → ((a : A) → m ≡ done a → P a) → Post P m
  Post-of_eq (done a) h = returns (h a (λ _. done a))
  Post-of_eq (failed e) h = fails

  -- A postcondition may use what the run returned.
  pub Post-with_eq : {m : Outcome A} → Post P m → Post (λ a. (m ≡ done a) × P a) m
  Post-with_eq (returns {a} p) = returns ((λ _. done a), p)
  Post-with_eq fails = fails

-- A run may be taken with the equation that says what it returned.
pub Post-self {ℓ} : {A : Type ℓ} (m : Outcome A) → Post (λ a. m ≡ done a) m
Post-self (done a) = returns (λ _. done a)
Post-self (failed e) = fails

-- The run returns a value, and `P` holds of it.
abbrev pub Returns {ℓ κ} : {A : Type ℓ} → (A → Type κ) → Outcome A → Type (ℓ ⊔ κ)
Returns {A} P o = (a : A) × (o ≡ done a) × P a

pub Returns-of_Post {ℓ κ} :
    {A : Type ℓ} {P : A → Type κ} {o : Outcome A} (a : A) → o ≡ done a → Post P o → Returns P o
Returns-of_Post a e p = (a, e, Post-done p e)
