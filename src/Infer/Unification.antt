-- ===== src/Infer/Unification.antt =====
-- src/infer/unification.cc: most general unifiers, by bindings that are made as the two terms are
-- walked. The occurs check is optional.
pub mod Occurs
pub mod Bind
pub mod Range
pub mod Sound
pub mod Heights
pub mod Chains
pub mod Grounded
pub mod Fuel
pub mod Budget
pub mod Total
pub mod Contained
pub mod General
use richard_atp_engine.Prelude.{
  ℕ, zero, suc, Bool, true, false, not, ◌||◌, List, [], ◌∷◌, take, ◌==◌, if◌then◌else◌, Outcome,
  done, failed, ◌>>=◌, diverged, out_of_bounds, Machine,
}
use richard_atp_engine.Core.Types.{Term, arity}
use richard_atp_engine.Core.TermBank.{TermBank, get_term, is_variable}
use richard_atp_engine.Infer.Substitution.{Substitution, bind, resolve, occurs_in}

-- `UnificationConfig`.
pub record UnificationConfig : Type 0 where
  pub enable_occurs_check : Bool

abbrev pub default_unification : UnificationConfig
default_unification = record { enable_occurs_check = false }

-- The loop over the arguments, which ends at the first pair that does not unify. The two lists
-- have one length, so the read of a missing argument never happens (`Infer.Unification.Sound`).
unfoldable pub unify_each :
    (ℕ → ℕ → Substitution → Outcome (Bool × Substitution))
    → List ℕ
    → List ℕ
    → Substitution
    → Outcome (Bool × Substitution)
unify_each step [] _ s = done (true, s)
unify_each step (a ∷ xs) [] s = failed out_of_bounds
unify_each step (a ∷ xs) (c ∷ ys) s =
    let rest = unify_each step xs ys in
    do (ok, s₁) ← step a c s; if ok then rest s₁ else done (false, s₁)

module _ (m : Machine) (config : UnificationConfig) (b : TermBank) where
  -- Binds an unbound variable to a term, unless the occurs check is on and fails.
  unfoldable pub bind_variable : ℕ → ℕ → Substitution → Outcome (Bool × Substitution)
  bind_variable x t s =
      let checked = occurs_in m m.fuel s b x t >>= λ hit.
      if hit then done (false, s) else done (true, (bind x t s).1) in
      if config.enable_occurs_check then checked else done (true, (bind x t s).1)

  -- The arguments of two terms, if they have one symbol and one arity.
  unfoldable pub unify_terms :
      (ℕ → ℕ → Substitution → Outcome (Bool × Substitution))
      → Term
      → Term
      → Substitution
      → Outcome (Bool × Substitution)
  unify_terms step t u s =
      if not (t.symbol == u.symbol) || not (arity t == arity u)
      then done (false, s)
      else unify_each step (take (arity t) t.args) (take (arity t) u.args) s

  -- `unify`.
  unfoldable pub unify : ℕ → ℕ → ℕ → Substitution → Outcome (Bool × Substitution)
  unify zero t1 t2 s = failed diverged
  unify (suc f) t1 t2 s = do
    r1 ← resolve m.fuel s b t1
    r2 ← resolve m.fuel s b t2
    let terms = get_term b r1 >>= λ t. get_term b r2 >>= λ u. unify_terms (unify f) t u s
    let second = is_variable b r2 >>= λ var2. if var2 then bind_variable r2 r1 s else terms
    let first = is_variable b r1 >>= λ var1. if var1 then bind_variable r1 r2 s else second
    if r1 == r2 then done (true, s) else first
