-- ===== src/Infer/Resolution.antt =====
-- src/infer/resolution.cc: binary resolution and factoring.
pub mod Resolvent
pub mod Sound
pub mod Factor
pub mod Inside
pub mod Parents
pub mod Total
use richard_atp_engine.Prelude.{
  ℕ, zero, suc, ◌+◌, Bool, true, false, not, List, [], ◌∷◌, ◌++◌, Option, none, some, get_elem?,
  erase_idx, if◌then◌else◌, Outcome, done, failed, ◌>>=◌, expect_some, Machine,
}
use richard_atp_engine.Core.Types.{
  Literal, Clause, new_clause, same_polarity, resolution, factoring,
}
use richard_atp_engine.Core.TermBank.{TermBank}
use richard_atp_engine.Infer.Unification.{UnificationConfig, unify}
use richard_atp_engine.Infer.Renaming.{Engine, apply_literals, rename_variables}

-- `if (auto r = …) results.push_back(…)`, before the results that follow.
abbrev pub push_some : Option Clause → List Clause → List Clause
push_some none rest = rest
push_some (some c) rest = c ∷ rest

module _ (m : Machine) (config : UnificationConfig) where
  -- The end of `resolve`, once the second clause is renamed: all literals but the two resolved
  -- upon, under the unifier of their atoms.
  unfoldable pub resolve_renamed :
      Clause → ℕ → Literal → Clause → ℕ → Engine → Outcome (Option Clause × Engine)
  resolve_renamed c1 i l1 c2r j e = do
    l2 ← expect_some (get_elem? c2r.literals j)
    (ok, s) ← unify m config e.bank m.fuel l1.atom l2.atom []
    let build = apply_literals m s (erase_idx c1.literals i) e.bank >>= λ (ls1, b₁).
        apply_literals m s (erase_idx c2r.literals j) b₁ >>= λ (ls2, b₂). done (
          some (record new_clause {
            literals = ls1 ++ ls2;
            rule = resolution;
            parent1 = c1.id;
            parent2 = c2r.id;
          }),
          record e { bank = b₂ },
        )
    if ok then build else done (none, e)

  -- `resolve`. The renamed clause has the number of the clause that it was made from.
  unfoldable pub resolve_clauses :
      Clause → ℕ → Clause → ℕ → Engine → Outcome (Option Clause × Engine)
  resolve_clauses c1 i c2 j e = do
    l1 ← expect_some (get_elem? c1.literals i)
    l2 ← expect_some (get_elem? c2.literals j)
    let resolved = rename_variables m c2 e >>= λ (c2r, e₁). resolve_renamed c1 i l1 c2r j e₁
    if same_polarity l1.is_positive l2.is_positive then done (none, e) else resolved

  -- The inner loop of `allResolvents`, from the literal `j` of the second clause on.
  unfoldable pub resolvents_at :
      Clause → ℕ → Literal → Clause → List Literal → ℕ → Engine → Outcome (List Clause × Engine)
  resolvents_at c1 i l1 c2 [] j e = done ([], e)
  resolvents_at c1 i l1 c2 (l2 ∷ ls) j e =
      let skip = resolvents_at c1 i l1 c2 ls (suc j) e in
      let next = resolve_clauses c1 i c2 j e >>= λ (r, e₁).
      resolvents_at c1 i l1 c2 ls (suc j) e₁ >>= λ (rs, e₂). done (push_some r rs, e₂) in
      if not (same_polarity l1.is_positive l2.is_positive) then next else skip

  -- The outer loop, from the literal `i` of the first clause on.
  unfoldable pub resolvents_from :
      Clause → Clause → List Literal → ℕ → Engine → Outcome (List Clause × Engine)
  resolvents_from c1 c2 [] i e = done ([], e)
  resolvents_from c1 c2 (l1 ∷ ls) i e = do
    (rs, e₁) ← resolvents_at c1 i l1 c2 c2.literals 0 e
    (more, e₂) ← resolvents_from c1 c2 ls (suc i) e₁
    done (rs ++ more, e₂)

  -- `allResolvents`.
  unfoldable pub all_resolvents : Clause → Clause → Engine → Outcome (List Clause × Engine)
  all_resolvents c1 c2 e = resolvents_from c1 c2 c1.literals 0 e

  -- The body of the loops of `factor`: the clause without its literal `j`, under the unifier of the
  -- atoms of the literals `i` and `j`.
  unfoldable pub factor_pair :
      Clause → Literal → Literal → ℕ → TermBank → Outcome (Option Clause × TermBank)
  factor_pair c li lj j b = do
    (ok, s) ← unify m config b m.fuel li.atom lj.atom []
    let build = apply_literals m s (erase_idx c.literals j) b >>= λ (ls, b₁).
        done (some (record new_clause { literals = ls; rule = factoring; parent1 = c.id }), b₁)
    if ok then build else done (none, b)

  -- The inner loop of `factor`, from the literal `j` on.
  unfoldable pub factors_at :
      Clause → Literal → List Literal → ℕ → TermBank → Outcome (List Clause × TermBank)
  factors_at c li [] j b = done ([], b)
  factors_at c li (lj ∷ ls) j b =
      let skip = factors_at c li ls (suc j) b in
      let next = factor_pair c li lj j b >>= λ (r, b₁).
      factors_at c li ls (suc j) b₁ >>= λ (rs, b₂). done (push_some r rs, b₂) in
      if not (same_polarity li.is_positive lj.is_positive) then skip else next

  -- The outer loop, from the literal `i` on.
  unfoldable pub factors_from :
      Clause → List Literal → ℕ → TermBank → Outcome (List Clause × TermBank)
  factors_from c [] i b = done ([], b)
  factors_from c (li ∷ ls) i b = do
    (rs, b₁) ← factors_at c li ls (suc i) b
    (more, b₂) ← factors_from c ls (suc i) b₁
    done (rs ++ more, b₂)

  -- `factor`.
  unfoldable pub factor : Clause → TermBank → Outcome (List Clause × TermBank)
  factor c b = factors_from c c.literals 0 b
