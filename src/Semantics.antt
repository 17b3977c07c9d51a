-- ===== src/Semantics.antt =====
-- What terms and clauses mean: the specification against which the inference rules are judged.
-- The prover keeps atoms and terms in one pool, so a structure gives every symbol a function on
-- one carrier and says of each element whether it counts as true.
pub mod Laws
use richard_atp_engine.Prelude.{
  ℕ, zero, suc, ◌≡◌, Bool, false, List, map, none, some, get_elem?, if◌then◌else◌, Any, All,
}
use richard_atp_engine.Core.Types.{Term, Literal, Clause, is_variable_kind}
use richard_atp_engine.Core.TermBank.{TermBank}

pub record Structure : Type 1 where
  pub Carrier : Type 0
  pub point : Carrier
  pub apply : ℕ → List Carrier → Carrier
  pub truth : Carrier → Bool

-- Whether a term's symbol is a variable; no symbol past the end is one.
abbrev pub var_term : TermBank → Term → Bool
var_term b t = elim (get_elem? b.symbols.infos t.symbol) [
  | none ↦ false
  | some info ↦ is_variable_kind info.kind
]

module _ (M : Structure) (b : TermBank) (v : ℕ → M.Carrier) where
  -- The value of a term to a given depth, with the variables' values from `v`.
  unfoldable pub value_to : ℕ → ℕ → M.Carrier
  value_to zero id = v id
  value_to (suc n) id = elim (get_elem? b.terms id) [
    | none ↦ v id
    | some t ↦ if var_term b t then v id else M.apply t.symbol (map (value_to n) t.args)
  ]

  -- An argument has a smaller identifier, so this depth is enough (`Semantics.Laws`).
  unfoldable pub value : ℕ → M.Carrier
  unfolding value_to
  value id = value_to (suc id) id

  abbrev pub Holds : Literal → Type 0
  Holds l = M.truth (value l.atom) ≡ l.is_positive

-- A clause is valid in a structure when under every assignment one of its literals holds.
abbrev pub Valid : (M : Structure) → TermBank → List Literal → Type 0
Valid M b ls = (v : ℕ → M.Carrier) → Any (Holds M b v) ls
