-- ===== src/Infer/Renaming/Sound.antt =====
-- A renamed clause says what the clause says.
use richard_atp_engine.Prelude.{
  ℕ, zero, suc, ◌≡◌, ◌<◌, refl, sym, ap, ◌∙◌, inl, inr, ⊎_elim, true, false, find?, ℕ_eq, List, [],
  ◌∷◌, map, length, All-Perm, Permᴰ, Any, Machine, Outcome, done, failed, ◌>>=◌, Post, Post-bind,
  Post-done, Post-if, ◌==◌, returns, fails, subst, Option-cases,
}
use richard_atp_engine.Core.Types.{Literal, Clause, uint32_mod}
use richard_atp_engine.Core.SymbolTable.Laws.{IsValid}
use richard_atp_engine.Core.TermBank.{TermBank, is_variable}
use richard_atp_engine.Core.TermBank.Laws.{
  IsWellFormed, Extends, Extends-refl, Extends-trans, Extends-lt,
}
use richard_atp_engine.Semantics.{Structure, value, Holds, Valid}
use richard_atp_engine.Semantics.Laws.{
  value_of_variable, InBank, Extends-InBank, Extends-Valid, value-Extends, is_variable_cases,
}
use richard_atp_engine.Infer.Substitution.{Substitution, resolve}
use richard_atp_engine.Infer.Substitution.Resolve.{
  IsEnd, InRange, resolve-IsEnd, resolve-IsEnd_result,
}
use richard_atp_engine.Infer.Substitution.Apply.{Follows, Reached, apply_substitution-Applied}
use richard_atp_engine.Infer.Renaming.{Engine, apply_literals, rename_variables}
use richard_atp_engine.Infer.Renaming.Collect.{IsVar, collect_each-All, collect_variables-All}
use richard_atp_engine.Infer.Renaming.Fresh.{IsSound, Renames, Bound, bind_fresh-Bound}

module _ (m : Machine) (cap : m.capacity < uint32_mod) (s : Substitution) (b : TermBank)
    (w : IsWellFormed b) (in_range : InRange s b) where
  -- What applying the substitution to literals promises: they keep their signs, and they hold
  -- where the old ones hold under an assignment that follows the bindings.
  pub record AppliedLiterals (c : TermBank) (ls : List Literal) (r : List Literal × TermBank)
      : Type 1 where
    pub reached : Reached m cap s b w in_range r.1
    pub extends : Extends c r.1
    pub inside : InBank r.1 r.0
    pub signs : map (λ (l : Literal). l.is_positive) r.0 ≡ map (λ (l : Literal). l.is_positive) ls
    pub holds :
        (M : Structure) (v e : ℕ → M.Carrier)
        → Follows m s b M v e
        → Any (Holds M b e) ls
        → Any (Holds M r.1 v) r.0

  pub apply_literals-Applied :
      (ls : List Literal) (c : TermBank)
      → Reached m cap s b w in_range c
      → InBank b ls
      → Post (AppliedLiterals c ls) (apply_literals m s ls c)
  unfolding apply_literals
  apply_literals-Applied [] c ok h = returns (record {
    reached = ok;
    extends = Extends-refl c;
    inside = tt;
    signs = refl;
    holds = λ M v e follows any. any;
  })
  apply_literals-Applied (l ∷ ls) c ok h =
      Post-bind (apply_substitution-Applied m cap s b w in_range m.fuel l.atom c ok h.0)
        λ (a, d) first. Post-bind (apply_literals-Applied ls d first.reached h.1) λ (ls', d') rest.
          returns (record {
            reached = rest.reached;
            extends = Extends-trans first.extends rest.extends;
            inside = (Extends-lt rest.extends first.inside, rest.inside);
            signs = ap (◌∷◌ l.is_positive) rest.signs;
            holds = λ M v e follows.
                ⊎_elim
                  (λ here. inl (
                    ap M.truth (
                      value-Extends M d d' first.reached.well_formed rest.extends v a first.inside
                      ∙ first.keeps_value M v e follows)
                    ∙ here))
                  (λ there. inr (rest.holds M v e follows there));
          })

-- The assignment before a renaming: a variable has the value of the variable that it ends at.
module _ (m : Machine) (s : Substitution) (b : TermBank) (w : IsWellFormed b)
    (renames : Renames s b) where
  pub Renames-InRange : InRange s b
  Renames-InRange x t h = let ((hx, vx), (ht, vt)) = renames x t h in (vx, hx, ht)

  resolve_variable :
      (f t : ℕ) → IsVar b t → Post (λ r. is_variable b r ≡ done true) (resolve f s b t)
  unfolding resolve
  resolve_variable zero t h = fails
  resolve_variable (suc f) t (inside, is_var) = elim (Option-cases (find? t s)) [
    | inl free ↦ rw (resolve-IsEnd f s b t (inr (is_var, free))) (returns is_var)
    | inr (u, e) ↦ rw is_var (rw e (resolve_variable f u (renames t u e).1))
  ]

  module _ (M : Structure) (v : ℕ → M.Carrier) where
    abbrev pull : Outcome ℕ → ℕ → M.Carrier
    pull (done r) x = v r
    pull (failed _) x = v x

    abbrev before : ℕ → M.Carrier
    before x = pull (resolve m.fuel s b x) x

    -- Where `resolve` stops, the assignment before the renaming is the one after it.
    before_end : (r : ℕ) → IsEnd s b r → before r ≡ v r
    before_end r end = go m.fuel
      where
        go : (f : ℕ) → pull (resolve f s b r) r ≡ v r
        go zero = unfold resolve in refl
        go (suc f) = rw (resolve-IsEnd f s b r end)

    pub before-Follows : Follows m s b M v before
    before-Follows = record {
      resolves = λ t r inside found.
          let (r_inside, end) =
            Post-done (resolve-IsEnd_result s b w Renames-InRange m.fuel t inside) found in
          elim (is_variable_cases b w t inside).2 [
            | inl (is_var, _) ↦
                value_of_variable b w M before t inside is_var
                ∙ ap (λ o. pull o t) found
                ∙ sym (before_end r end)
                ∙ sym (
                    value_of_variable b w M before r r_inside
                      (Post-done (resolve_variable m.fuel t (inside, is_var)) found))
            | inr (plain, _) ↦ ap (value M b before) (plain_stays m.fuel t r plain found)
          ];
      free = λ x is_var free. before_end x (inr (is_var, free));
    }
      where
        plain_stays : (f t r : ℕ) → is_variable b t ≡ done false → resolve f s b t ≡ done r → t ≡ r
        plain_stays zero t r plain found = unfold resolve in cc
        plain_stays (suc f) t r plain found = cc (resolve-IsEnd f s b t (inl plain))

-- What renaming promises.
pub record Renamed (e : Engine) (c : Clause) (r : Clause × Engine) : Type 1 where
  pub sound : IsSound r.1
  pub extends : Extends e.bank r.1.bank
  pub inside : InBank r.1.bank r.0.literals
  pub signs :
      map (λ (l : Literal). l.is_positive) r.0.literals
      ≡ map (λ (l : Literal). l.is_positive) c.literals
  pub same_id : r.0.id ≡ c.id
  pub valid : (M : Structure) → Valid M e.bank c.literals → Valid M r.1.bank r.0.literals

module _ (m : Machine) (cap : m.capacity < uint32_mod)
    (walks : (xs : List ℕ) → Permᴰ xs (m.iteration xs)) where
  -- The literals are rewritten once the new variables are bound.
  rename-Bound :
      (c : Clause) (e : Engine)
      → IsSound e
      → InBank e.bank c.literals
      → (r : Substitution × Engine) → Bound m cap e r
      → Post (Renamed e c) (
          apply_literals m r.0 c.literals r.1.bank >>= λ (ls, b).
          done (record c { literals = ls }, record r.1 { bank = b }))
  rename-Bound c e ok h (s, e₁) bound =
      let w = bound.sound.bank in
      let in_range = Renames-InRange m s e₁.bank w bound.renames in
      Post-bind
        (apply_literals-Applied m cap s e₁.bank w in_range c.literals e₁.bank
          (record { well_formed = w; extends = Extends-refl e₁.bank; same_symbols = refl })
          (Extends-InBank c.literals bound.extends h))
        λ (ls, b) applied. returns (record {
          sound = record {
            bank = applied.reached.well_formed;
            table = subst IsValid (sym applied.reached.same_symbols) bound.sound.table;
          };
          extends = Extends-trans bound.extends applied.extends;
          inside = applied.inside;
          signs = applied.signs;
          same_id = refl;
          valid = λ M valid v.
              applied.holds M v (before m s e₁.bank w bound.renames M v)
                (before-Follows m s e₁.bank w bound.renames M v)
                (Extends-Valid M e.bank e₁.bank c.literals ok.bank bound.extends h valid
                  (before m s e₁.bank w bound.renames M v));
        })

  -- Under a capacity below 2³² and with hash maps walked in the order of some permutation, a
  -- call of `renameVariables` that returns, for a clause over the bank of a well-formed engine,
  -- keeps the bank and the symbol table well-formed, keeps the signs of the literals and the
  -- clause's number, and the renamed clause is valid in every structure in which the clause is.
  pub rename_variables-Renamed :
      (c : Clause) (e : Engine)
      → IsSound e
      → InBank e.bank c.literals
      → Post (Renamed e c) (rename_variables m c e)
  unfolding rename_variables
  rename_variables-Renamed c e ok h =
      Post-bind
        (collect_each-All e.bank ok.bank (λ (l : Literal). l.atom < length e.bank.terms) _
          (λ l seen inside found.
            collect_variables-All e.bank ok.bank m.fuel l.atom seen inside found)
          c.literals [] h tt)
        λ vars are_vars.
          Post-if (length vars == 0)
            (λ _. returns (record {
              sound = ok;
              extends = Extends-refl e.bank;
              inside = h;
              signs = refl;
              same_id = refl;
              valid = λ M v. v;
            }))
            λ _.
              Post-bind
                (bind_fresh-Bound m cap (m.iteration vars) [] e ok
                  (All-Perm _ (walks vars) are_vars) (λ x t p. cc))
                (rename-Bound c e ok h)
