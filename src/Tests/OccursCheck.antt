-- ===== src/Tests/OccursCheck.antt =====
-- Without the occurs check, resolution on q(X, X) and ¬q(Y, f(Y)) gives the empty clause, though
-- both clauses are valid in a structure; with the check there is no resolvent.
use richard_atp_engine.Prelude.{
  ℕ, ◌≡◌, refl, List, [], ◌∷◌, true, false, Bool, not, Outcome, done, failed, ◌>>=◌, Option, none,
  some, inl,
}
use richard_atp_engine.Core.Types.{Literal, variable, function, same_polarity}
use richard_atp_engine.Core.SymbolTable.{intern}
use richard_atp_engine.Core.TermBank.{make_term, is_variable}
use richard_atp_engine.Frontend.Terms.{named_term}
use richard_atp_engine.Semantics.{Structure, Valid, value, value_to}
use richard_atp_engine.Infer.Substitution.{
  any_of, apply_each, apply_substitution, bind, occurs_in, resolve,
}
use richard_atp_engine.Infer.Unification.{
  UnificationConfig, default_unification, bind_variable, unify, unify_each, unify_terms,
}
use richard_atp_engine.Infer.Renaming.{
  Engine, apply_literals, bind_fresh, collect_each, collect_variables, fresh_name, fresh_variable,
  rename_variables,
}
use richard_atp_engine.Infer.Resolution.{resolve_clauses, resolve_renamed}
use richard_atp_engine.Prelude.Decimal.{digits, to_string}
use richard_atp_engine.Tests.Samples.{machine, empty_engine, make, unit}

-- X is 0, q(X, X) is 1, Y is 2, f(Y) is 3 and q(Y, f(Y)) is 4.
made : Outcome (ℕ × Engine)
made = make (b'X' ∷ []) variable [] empty_engine >>= λ (x, e₁).
    make (b'q' ∷ []) function (x ∷ x ∷ []) e₁ >>= λ (q, e₂).
    make (b'Y' ∷ []) variable [] e₂ >>= λ (y, e₃).
    make (b'f' ∷ []) function (y ∷ []) e₃ >>= λ (f, e₄). make (b'q' ∷ []) function (y ∷ f ∷ []) e₄

-- The literals of the resolvent, if there is one.
resolvent : UnificationConfig → Outcome (Option (List Literal))
resolvent config = made >>= λ (q, e).
    resolve_clauses machine config (unit 1 true) 0 (unit 4 false) 0 e >>= λ (r, e').
    done (elim r [ none ↦ none | some c ↦ some c.literals ])

unchecked_resolvent : resolvent default_unification ≡ done (some [])
unfolding resolvent made named_term intern make_term is_variable resolve_clauses resolve_renamed
    rename_variables collect_each collect_variables bind_fresh fresh_variable fresh_name digits
    to_string apply_literals apply_substitution apply_each resolve bind unify unify_each unify_terms
    bind_variable occurs_in any_of
unchecked_resolvent = refl

checked_resolvent : resolvent (record { enable_occurs_check = true }) ≡ done none
unfolding resolvent made named_term intern make_term is_variable resolve_clauses resolve_renamed
    rename_variables collect_each collect_variables bind_fresh fresh_variable fresh_name digits
    to_string apply_literals apply_substitution apply_each resolve bind unify unify_each unify_terms
    bind_variable occurs_in any_of
checked_resolvent = refl

-- q is equality of Booleans and f is negation.
apply_symbol : ℕ → List Bool → Bool
apply_symbol s [] = false
apply_symbol s (x ∷ []) = not x
apply_symbol s (x ∷ y ∷ _) = same_polarity x y

abbrev booleans : Structure
booleans = record { Carrier = Bool; point = false; apply = apply_symbol; truth = λ x. x }

equal_self : (x : Bool) → same_polarity x x ≡ true
equal_self true = refl
equal_self false = refl

unequal_not : (x : Bool) → same_polarity x (not x) ≡ false
unequal_not true = refl
unequal_not false = refl

-- Both clauses are valid in the bank that was made.
HaveModel : Outcome (ℕ × Engine) → Type 0
HaveModel (done (q, e)) =
    Valid booleans e.bank (unit 1 true).literals × Valid booleans e.bank (unit 4 false).literals
HaveModel (failed x) = ⊥

made-HaveModel : HaveModel made
unfolding HaveModel made named_term intern make_term value value_to apply_symbol
made-HaveModel = (λ v. inl (equal_self (v 0)), λ v. inl (unequal_not (v 2)))
