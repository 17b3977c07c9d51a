-- ===== src/Infer/Renaming.antt =====
-- src/infer/resolution.cc, `renameVariables`: the variables of a clause are replaced by new ones.
-- The number of the next new variable is a static counter of the program.
pub mod Collect
pub mod Fresh
pub mod Sound
use richard_atp_engine.Prelude.{
  ℕ, zero, suc, ◌+◌, ◌%◌, Bool, true, false, List, [], ◌∷◌, ◌++◌, length, ◌==◌, ◌||◌, if◌then◌else◌,
  Outcome, done, failed, ◌>>=◌, diverged, Machine,
}
use richard_atp_engine.Prelude.Decimal.{to_string}
use richard_atp_engine.Core.Types.{Literal, Clause, variable, unsorted, uint32_mod}
use richard_atp_engine.Core.SymbolTable.{intern}
use richard_atp_engine.Core.TermBank.{TermBank, make_var, get_term, is_variable}
use richard_atp_engine.Infer.Substitution.{Substitution, bind, apply_substitution}

-- The bank, which everything shares, and the static `var_counter`.
pub record Engine : Type 0 where
  pub bank : TermBank
  pub var_counter : ℕ

abbrev pub contains : ℕ → List ℕ → Bool
contains x [] = false
contains x (y ∷ ys) = (y == x) || contains x ys

-- `seen[x] = true`.
abbrev pub mark_seen : ℕ → List ℕ → List ℕ
mark_seen x seen = if contains x seen then seen else x ∷ seen

-- A loop that adds to a set what `step` finds in each element.
unfoldable pub collect_each {ℓ} :
    {A : Type ℓ} → (A → List ℕ → Outcome (List ℕ)) → List A → List ℕ → Outcome (List ℕ)
collect_each step [] seen = done seen
collect_each step (a ∷ rest) seen = do more ← step a seen; collect_each step rest more

-- `collectVariables`.
unfoldable pub collect_variables : ℕ → TermBank → ℕ → List ℕ → Outcome (List ℕ)
collect_variables zero b id seen = failed diverged
collect_variables (suc f) b id seen = do
  is_var ← is_variable b id
  let inside = get_term b id >>= λ t. collect_each (collect_variables f b) t.args seen
  if is_var then done (mark_seen id seen) else inside

module _ (m : Machine) where
  -- A loop that applies the substitution to the atom of each literal.
  unfoldable pub apply_literals :
      Substitution → List Literal → TermBank → Outcome (List Literal × TermBank)
  apply_literals s [] b = done ([], b)
  apply_literals s (l ∷ ls) b = do
    (new_atom, b₁) ← apply_substitution m m.fuel s l.atom b
    (rest, b₂) ← apply_literals s ls b₁
    done (record { atom = new_atom; is_positive = l.is_positive } ∷ rest, b₂)

  -- The name `"_R" + std::to_string(n)`.
  unfoldable pub fresh_name : ℕ → List ℕ
  fresh_name n = b'_' ∷ b'R' ∷ to_string n

  -- One round of the loop that makes the new variables: the variable, and the state after it.
  unfoldable pub fresh_variable : Engine → Outcome (ℕ × Engine)
  fresh_variable e = do
    (sym, table) ← intern m (fresh_name e.var_counter) variable 0 unsorted e.bank.symbols
    (x, b) ← make_var m sym (record e.bank { symbols = table })
    done (x, record { bank = b; var_counter = (e.var_counter + 1) % uint32_mod })

  -- Each variable is bound to a new one.
  unfoldable pub bind_fresh : List ℕ → Substitution → Engine → Outcome (Substitution × Engine)
  bind_fresh [] s e = done (s, e)
  bind_fresh (x ∷ xs) s e = do (fresh, e₁) ← fresh_variable e; bind_fresh xs (bind x fresh s).1 e₁

  -- `renameVariables`.
  unfoldable pub rename_variables : Clause → Engine → Outcome (Clause × Engine)
  rename_variables c e = do
    vars ← collect_each (λ (l : Literal). collect_variables m.fuel e.bank l.atom) c.literals []
    let renamed = bind_fresh (m.iteration vars) [] e >>= λ (s, e₁).
        apply_literals s c.literals e₁.bank >>= λ (ls, b).
        done (record c { literals = ls }, record e₁ { bank = b })
    if length vars == 0 then done (c, e) else renamed
