-- ===== src/Proof/Text.antt =====
-- src/proof/proof_trace.cc: terms, clauses and proofs as text. A string is the list of its bytes.
pub mod Names
pub mod Lines
pub mod Total
use richard_atp_engine.Prelude.{
  ℕ, zero, suc, ◌+◌, ◌%◌, ◌/◌, List, [], ◌∷◌, ◌++◌, none, some, length, Outcome, done, failed,
  ◌>>=◌, diverged, ◌==◌, if◌then◌else◌, find?, ℕ_eq,
}
use Prim.Native.String.{String}
use Prim.Native.Char.{code}
use richard_atp_engine.Prelude.Decimal.{to_string}
use richard_atp_engine.Core.Types.{
  Literal, Clause, InferenceRule, input, resolution, factoring, invalid_id, is_empty,
}
use richard_atp_engine.Core.SymbolTable.{get_name}
use richard_atp_engine.Core.ClauseStore.{ClauseStore, get_clause}
use richard_atp_engine.Core.TermBank.{TermBank, get_term, is_variable}
use richard_atp_engine.Proof.Trace.{ProofStep}

-- The bytes of an ASCII text.
abbrev pub bytes : String → List ℕ
bytes String.[] = []
bytes (String.◌∷◌ c s) = code c ∷ bytes s

-- UTF-8 of `□`, ` ∨ ` and `¬`.
abbrev box_text : List ℕ
box_text = 0xe2 ∷ 0x96 ∷ 0xa1 ∷ []

abbrev or_text : List ℕ
or_text = b' ' ∷ 0xe2 ∷ 0x88 ∷ 0xa8 ∷ b' ' ∷ []

abbrev not_text : List ℕ
not_text = 0xc2 ∷ 0xac ∷ []

-- The texts of a list of arguments, with commas between them.
unfoldable pub join_each : (ℕ → Outcome (List ℕ)) → List ℕ → Outcome (List ℕ)
join_each print [] = done []
join_each print (a ∷ args) = do
  text ← print a
  rest ← join_each print args
  done (text ++ elim args [ [] ↦ [] | _ ∷ _ ↦ b',' ∷ rest ])

-- `termToString`.
unfoldable pub term_to_string : ℕ → TermBank → ℕ → Outcome (List ℕ)
term_to_string zero b id = failed diverged
term_to_string (suc f) b id = do
  t ← get_term b id
  name ← get_name b.symbols t.symbol
  let applied =
      join_each (term_to_string f b) t.args >>= λ args. done (name ++ (b'(' ∷ (args ++ b')' ∷ [])))
  if length t.args == 0 then done name else applied

-- The letter for an index below 6.
abbrev pub base_letter : ℕ → ℕ
base_letter i =
    if i == 1
    then b'Y'
    else if i == 2
    then b'Z'
    else if i == 3
    then b'W'
    else if i == 4
    then b'V'
    else if i == 5
    then b'U'
    else b'X'

-- `prettyVarName`.
unfoldable pub pretty_var_name : ℕ → List ℕ
pretty_var_name index =
    let base = base_letter (index % 6) in
    let suffix = index / 6 in if suffix == 0 then base ∷ [] else base ∷ to_string suffix

-- The names that were given to variables.
abbrev pub VarMap : Type 0
VarMap = List (ℕ × List ℕ)

-- `join_each` for a printer that extends the names.
unfoldable pub pretty_each :
    (ℕ → VarMap → Outcome (List ℕ × VarMap)) → List ℕ → VarMap → Outcome (List ℕ × VarMap)
pretty_each print [] names = done ([], names)
pretty_each print (a ∷ args) names = do
  (text, names₁) ← print a names
  (rest, names₂) ← pretty_each print args names₁
  done (text ++ elim args [ [] ↦ [] | _ ∷ _ ↦ b',' ∷ rest ], names₂)

-- The name of a variable: the one that it has, or the next one.
abbrev pub name_variable : ℕ → VarMap → List ℕ × VarMap
name_variable id names = elim (find? id names) [
  | some name ↦ (name, names)
  | none ↦ (pretty_var_name (length names), (id, pretty_var_name (length names)) ∷ names)
]

-- `termToPretty`.
unfoldable pub term_to_pretty : ℕ → TermBank → ℕ → VarMap → Outcome (List ℕ × VarMap)
term_to_pretty zero b id names = failed diverged
term_to_pretty (suc f) b id names = do
  is_var ← is_variable b id
  let applied = get_term b id >>= λ t. get_name b.symbols t.symbol >>= λ name.
      if length t.args == 0
      then done (name, names)
      else (pretty_each (term_to_pretty f b) t.args names >>= λ (args, names').
          done (name ++ (b'(' ∷ (args ++ b')' ∷ [])), names'))
  if is_var then done (name_variable id names) else applied

-- `ruleToString`.
unfoldable pub rule_to_string : InferenceRule → List ℕ
rule_to_string input = bytes "input"
rule_to_string resolution = bytes "resolution"
rule_to_string factoring = bytes "factoring"
rule_to_string _ = bytes "unknown"

-- The loop of `clauseToString`.
unfoldable pub literals_to_string : ℕ → TermBank → List Literal → VarMap → Outcome (List ℕ)
literals_to_string f b [] names = done []
literals_to_string f b (l ∷ ls) names = do
  (atom, names') ← term_to_pretty f b l.atom names
  rest ← literals_to_string f b ls names'
  done (
      (if l.is_positive then [] else not_text)
      ++ (atom ++ elim ls [ [] ↦ [] | _ ∷ _ ↦ or_text ++ rest ]))

-- `clauseToString`.
unfoldable pub clause_to_string : ℕ → Clause → TermBank → Outcome (List ℕ)
clause_to_string f c b =
    let text = literals_to_string f b c.literals [] in if is_empty c then done box_text else text

-- The map `id_to_step`: a later entry for a clause replaces an earlier one.
unfoldable pub number_steps : List ProofStep → ℕ → List (ℕ × ℕ) → List (ℕ × ℕ)
number_steps [] i ids = ids
number_steps (s ∷ steps) i ids = number_steps steps (i + 1) ((s.clause_id, i + 1) ∷ ids)

-- The lambda `local_name`.
unfoldable pub local_name : List (ℕ × ℕ) → ℕ → List ℕ
local_name ids cid = elim (find? cid ids) [ some n ↦ to_string n | none ↦ b'?' ∷ to_string cid ]

-- The parents of a step, as they are shown behind its clause.
abbrev pub parents_text : List (ℕ × ℕ) → ProofStep → List ℕ
parents_text ids s =
    if s.parent1 == invalid_id
    then []
    else (bytes "  ["
        ++ (local_name ids s.parent1
            ++ ((if s.parent2 == invalid_id then [] else bytes ", " ++ local_name ids s.parent2)
                ++ bytes "]")))

-- The loop of `formatProof` that writes the lines, from step `i` on.
unfoldable pub format_steps :
    ℕ → ClauseStore → TermBank → List (ℕ × ℕ) → List ProofStep → ℕ → Outcome (List ℕ)
format_steps f store b ids [] i = done []
format_steps f store b ids (s ∷ steps) i = do
  c ← get_clause store s.clause_id
  clause ← clause_to_string f c b
  rest ← format_steps f store b ids steps (i + 1)
  done (
      to_string (i + 1)
      ++ (bytes ". "
          ++ (bytes "["
              ++ (rule_to_string s.rule
                  ++ (bytes "] " ++ (clause ++ (parents_text ids s ++ (b'\n' ∷ rest))))))))

-- `formatProof`.
unfoldable pub format_proof : ℕ → List ProofStep → ClauseStore → TermBank → Outcome (List ℕ)
format_proof f steps store b = format_steps f store b (number_steps steps 0 []) steps 0
