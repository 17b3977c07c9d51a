-- ===== src/Infer/Substitution/Total.antt =====
-- With grounded bindings `applySubstitution` returns, unless there is no memory left.
use richard_atp_engine.Prelude.{
  ℕ, zero, suc, ◌<◌, ◌∙◌, inl, inr, length, get_elem?_of_lt, All, List, [], ◌∷◌, Machine, Outcome,
  done, ◌>>=◌, if◌then◌else◌, arith, Ends, gives, Ends-bind, Ends-map, Ends-Post,
}
use richard_atp_engine.Core.Types.{uint32_mod}
use richard_atp_engine.Core.TermBank.{TermBank, is_variable, make_term, get_term}
use richard_atp_engine.Core.TermBank.Laws.{IsWellFormed}
use richard_atp_engine.Core.TermBank.Ends.{make_term-Ends}
use richard_atp_engine.Semantics.Laws.{is_variable-Extends}
use richard_atp_engine.Infer.Substitution.{Substitution, apply_each, apply_substitution}
use richard_atp_engine.Infer.Substitution.Resolve.{IsEnd, resolve-Extends}
use richard_atp_engine.Infer.Substitution.Apply.{Reached, Applied, apply_substitution-Applied}
use richard_atp_engine.Infer.Unification.Heights.{IsGrounded, height}
use richard_atp_engine.Infer.Unification.Chains.{resolve-height, args_lower}

module _ (m : Machine) (cap : m.capacity < uint32_mod) (s : Substitution) (b : TermBank)
    (w : IsWellFormed b) (g : IsGrounded b s) (deep : length s < m.fuel) where
  abbrev Step : Type 0
  Step = ℕ → TermBank → Outcome (ℕ × TermBank)

  apply_each-Ends :
      (step : Step) (n : ℕ)
      → ((c : TermBank) (id : ℕ)
          → Reached m cap s b w g.in_range c
          → id < length b.terms
          → height b s g id < n
          → Ends (Applied m cap s b w g.in_range c id) (step id c))
      → (args : List ℕ) (c : TermBank) → Reached m cap s b w g.in_range c
      → All (λ a. (a < length b.terms) × (height b s g a < n)) args
      → Ends (λ r. Reached m cap s b w g.in_range r.1) (apply_each step args c)
  unfolding apply_each
  apply_each-Ends step n each [] c ok h = gives ok
  apply_each-Ends step n each (a ∷ args) c ok h =
      Ends-bind (each c a ok h.0.0 h.0.1) λ (a', d) first.
        Ends-bind (apply_each-Ends step n each args d first.reached h.1)
          λ (args', d') rest. gives rest

  -- The chain of bindings ended, and the arguments, if there are any, are replaced by `step`.
  finish-Ends :
      (step : Step) (c : TermBank) (ok : Reached m cap s b w g.in_range c) (r : ℕ)
      → ((d : TermBank) (a : ℕ)
          → Reached m cap s b w g.in_range d
          → a < length b.terms
          → height b s g a < height b s g r
          → Ends (Applied m cap s b w g.in_range d a) (step a d))
      → r < length b.terms
      → IsEnd s b r
      → Ends
          (λ r. Unit {0})
          (is_variable c r >>= λ is_var.
            if is_var
            then done (r, c)
            else (get_term c r >>= λ t.
                apply_each step t.args c >>= λ (new_args, d). make_term m t.symbol new_args d))
  finish-Ends step c ok r each inside (inr (is_var, free)) =
      rw (is_variable-Extends b w c r ok.extends ok.well_formed inside ∙ is_var) (gives tt)
  finish-Ends step c ok r each inside (inl plain) =
      let (t, at) = get_elem?_of_lt b.terms r inside in
      rw
        (
          is_variable-Extends b w c r ok.extends ok.well_formed inside ∙ plain,
          ok.extends.terms r t at,
        )
        (Ends-bind
          (apply_each-Ends step (height b s g r) each t.args c ok
            (args_lower m b w s g r t at plain))
          λ (new_args, d) _. Ends-map (make_term-Ends m t.symbol new_args d) (λ r' h. tt))

  -- Under a capacity below 2³², for grounded bindings over a well-formed bank and fuel for their
  -- chains: applied to a term of the bank with more fuel than the term is high, in a well-formed
  -- bank that extends it by terms only, `applySubstitution` returns or throws an exception. When it
  -- returns it keeps the bank well-formed and gives a term of the new bank whose value is that of
  -- the old one under every assignment that follows the bindings.
  pub apply_substitution-Ends :
      (f id : ℕ) (c : TermBank)
      → Reached m cap s b w g.in_range c
      → id < length b.terms
      → height b s g id < f
      → Ends (Applied m cap s b w g.in_range c id) (apply_substitution m f s id c)
  unfolding apply_substitution
  apply_substitution-Ends zero id c ok h enough = absurd (omega arith)
  apply_substitution-Ends (suc f) id c ok h enough =
      let (r, found, inside, end, same) = resolve-height m b w s g deep id h in
      let ends : Ends (λ r. Unit {0}) (apply_substitution m (suc f) s id c) =
        rw
          (
            apply_substitution,
            resolve-Extends s b w g.in_range c m.fuel id ok.extends ok.well_formed h ∙ found,
          )
          (finish-Ends (apply_substitution m f s) c ok r
            (λ d a ok' ha lower.
              apply_substitution-Ends f a d ok' ha (omega (arith, lower, same, enough)))
            inside end) in
      Ends-map
        (Ends-Post ends (apply_substitution-Applied m cap s b w g.in_range (suc f) id c ok h))
        λ r both. both.1
