-- ===== src/Infer/Substitution.antt =====
-- include/atp/infer/substitution.h and src/infer/substitution.cc: bindings of variables to terms,
-- and how they are applied.
pub mod Resolve
pub mod Apply
pub mod Shortcut
pub mod Room
pub mod Total
use richard_atp_engine.Prelude.{
  ℕ, zero, suc, Bool, true, false, not, ◌||◌, List, [], ◌∷◌, Option, none, some, length, find?,
  emplace, ℕ_eq, ◌==◌, if◌then◌else◌, Outcome, done, failed, ◌>>=◌, diverged, Machine,
}
use richard_atp_engine.Core.Types.{Term, invalid_id}
use richard_atp_engine.Core.TermBank.{TermBank, make_term, get_term, is_variable}

-- `bindings_`.
abbrev pub Substitution : Type 0
Substitution = List (ℕ × ℕ)

-- `Substitution::bind`: whether the variable is now bound to the term.
unfoldable pub bind : ℕ → ℕ → Substitution → Bool × Substitution
bind x term s = (elim (find? x s) [ none ↦ true | some old ↦ old == term ], emplace x term s)

-- `Substitution::lookup`.
unfoldable pub lookup : ℕ → Substitution → ℕ
lookup x s = elim (find? x s) [ none ↦ invalid_id | some t ↦ t ]

-- `Substitution::clear`.
abbrev pub clear : Substitution → Substitution
clear s = []

-- `Substitution::size` and `Substitution::empty`.
abbrev pub binding_count : Substitution → ℕ
binding_count s = length s

abbrev pub is_unbound : Substitution → Bool
is_unbound s = binding_count s == 0

-- `Substitution::resolve`, one round of its loop on each unit of fuel.
unfoldable pub resolve : ℕ → Substitution → TermBank → ℕ → Outcome ℕ
resolve zero s b id = failed diverged
resolve (suc f) s b id =
    let next : Outcome ℕ = elim (find? id s) [ none ↦ done id | some t ↦ resolve f s b t ] in
    do is_var ← is_variable b id; if is_var then next else done id

-- A loop that replaces a list of arguments one after the other, each by `step`.
unfoldable pub apply_each :
    (ℕ → TermBank → Outcome (ℕ × TermBank)) → List ℕ → TermBank → Outcome (List ℕ × TermBank)
apply_each step [] b = done ([], b)
apply_each step (a ∷ args) b = do
  (a', b₁) ← step a b
  (args', b₂) ← apply_each step args b₁
  done (a' ∷ args', b₂)

-- Whether some argument was replaced by another.
abbrev pub changed : List ℕ → List ℕ → Bool
changed (a ∷ args) (a' ∷ args') = not (a' == a) || changed args args'
changed _ _ = false

-- `std::any_of` with a test that can fail to return.
unfoldable pub any_of : (ℕ → Outcome Bool) → List ℕ → Outcome Bool
any_of test [] = done false
any_of test (a ∷ args) =
    let rest = any_of test args in do hit ← test a; if hit then done true else rest

module _ (m : Machine) where
  -- `Substitution::apply`: a term none of whose arguments changes is returned as it is.
  unfoldable pub apply : ℕ → Substitution → ℕ → TermBank → Outcome (ℕ × TermBank)
  apply zero s id b = failed diverged
  apply (suc f) s id b = do
    r ← resolve m.fuel s b id
    is_var ← is_variable b r
    let rebuilt = get_term b r >>= λ t.
        if length t.args == 0
        then done (r, b)
        else (apply_each (apply f s) t.args b >>= λ (new_args, c).
            if not (changed t.args new_args) then done (r, c) else make_term m t.symbol new_args c)
    if is_var then done (r, b) else rebuilt

  -- `Substitution::occursIn`.
  unfoldable pub occurs_in : ℕ → Substitution → TermBank → ℕ → ℕ → Outcome Bool
  occurs_in zero s b x id = failed diverged
  occurs_in (suc f) s b x id = do
    r ← resolve m.fuel s b id
    let inside = get_term b r >>= λ t. any_of (occurs_in f s b x) t.args
    let other = is_variable b r >>= λ is_var. if is_var then done false else inside
    if x == r then done true else other

  -- `applySubstitution` of src/infer/unification.cc: the same without the shortcut.
  unfoldable pub apply_substitution : ℕ → Substitution → ℕ → TermBank → Outcome (ℕ × TermBank)
  apply_substitution zero s id b = failed diverged
  apply_substitution (suc f) s id b = do
    r ← resolve m.fuel s b id
    is_var ← is_variable b r
    let rebuilt = get_term b r >>= λ t.
        apply_each (apply_substitution f s) t.args b >>= λ (new_args, c).
        make_term m t.symbol new_args c
    if is_var then done (r, b) else rebuilt
