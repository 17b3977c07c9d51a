-- ===== src/Frontend/Problem.antt =====
-- include/atp/frontend/tptp_parser.h and src/frontend/tptp_parser.cc: the formulas of a problem,
-- their roles, and the clauses that are handed to the prover. `formula_`, which nothing sets, is
-- left out.
use richard_atp_engine.Prelude.{
  ℕ, ◌≡◌, refl, Bool, List, [], ◌∷◌, ◌++◌, map, if◌then◌else◌, list_eq, All, All-append, ap, ◌∙◌,
  sym, inl, inr, Bool-cases,
}
use richard_atp_engine.Core.Types.{Clause, input, invalid_id}
use richard_atp_engine.Proof.Text.{bytes}

pub data FormulaRole : Type 0 where
  axiom_role hypothesis definition assumption lemma theorem_role : FormulaRole
  conjecture negated_conjecture plain : FormulaRole

-- `parseRole`.
unfoldable pub parse_role : List ℕ → FormulaRole
parse_role role =
    if list_eq role (bytes "axiom")
    then axiom_role
    else if list_eq role (bytes "hypothesis")
    then hypothesis
    else if list_eq role (bytes "definition")
    then definition
    else if list_eq role (bytes "assumption")
    then assumption
    else if list_eq role (bytes "lemma")
    then lemma
    else if list_eq role (bytes "theorem")
    then theorem_role
    else if list_eq role (bytes "conjecture")
    then conjecture
    else if list_eq role (bytes "negated_conjecture")
    then negated_conjecture
    else plain

pub record AnnotatedFormula : Type 0 where
  pub name : List ℕ
  pub role : FormulaRole
  pub clauses : List Clause
  pub is_cnf : Bool

-- The clause as an input of the prover.
abbrev pub as_input : Clause → Clause
as_input c = record c { rule = input; parent1 = invalid_id; parent2 = invalid_id }

-- `prepareForProving`, on `formulas_`.
unfoldable pub prepare_for_proving : List AnnotatedFormula → List Clause
prepare_for_proving [] = []
prepare_for_proving (af ∷ afs) =
    (if af.is_cnf then map as_input af.clauses else []) ++ prepare_for_proving afs

-- The clauses of the formulas that are in clause form.
pub cnf_clauses : List AnnotatedFormula → List Clause
cnf_clauses [] = []
cnf_clauses (af ∷ afs) = (if af.is_cnf then af.clauses else []) ++ cnf_clauses afs

abbrev pub IsInput : Clause → Type 0
IsInput c = (c.rule ≡ input) × (c.parent1 ≡ invalid_id) × (c.parent2 ≡ invalid_id)

map-as_input-IsInput : (cs : List Clause) → All IsInput (map as_input cs)
map-as_input-IsInput [] = tt
map-as_input-IsInput (c ∷ cs) = ((refl, refl, refl), map-as_input-IsInput cs)

-- Every clause that the prover is given is an input without parents.
all_inputs : (afs : List AnnotatedFormula) → All IsInput (prepare_for_proving afs)
unfolding prepare_for_proving
all_inputs [] = tt
all_inputs (af ∷ afs) = elim (Bool-cases af.is_cnf) [
  | inl cnf ↦ rw cnf (
      All-append IsInput (map as_input af.clauses) (prepare_for_proving afs)
        (map-as_input-IsInput af.clauses) (all_inputs afs))
  | inr other ↦ rw other (all_inputs afs)
]

map-append :
    {A : Type 0} (f : Clause → A) (xs ys : List Clause) → map f (xs ++ ys) ≡ map f xs ++ map f ys
map-append f [] ys = refl
map-append f (x ∷ xs) ys = ap (◌∷◌ (f x)) (map-append f xs ys)

literals_as_input :
    (cs : List Clause)
    → map (λ (c : Clause). c.literals) (map as_input cs) ≡ map (λ (c : Clause). c.literals) cs
literals_as_input [] = refl
literals_as_input (c ∷ cs) = ap (◌∷◌ c.literals) (literals_as_input cs)

same_literals :
    (afs : List AnnotatedFormula)
    → map (λ (c : Clause). c.literals) (prepare_for_proving afs)
      ≡ map (λ (c : Clause). c.literals) (cnf_clauses afs)
unfolding prepare_for_proving cnf_clauses
same_literals [] = refl
same_literals (af ∷ afs) = elim (Bool-cases af.is_cnf) [
  | inl cnf ↦ rw cnf (
      map-append (λ (c : Clause). c.literals) (map as_input af.clauses) (prepare_for_proving afs)
      ∙ rw (literals_as_input af.clauses, same_literals afs) refl
      ∙ sym (map-append (λ (c : Clause). c.literals) af.clauses (cnf_clauses afs)))
  | inr other ↦ rw other (same_literals afs)
]

-- `prepareForProving` gives the clauses of the formulas in clause form, in their order and with
-- their literals, and each of them is an input without parents.
pub prepare_for_proving_inputs :
    (afs : List AnnotatedFormula)
    → All IsInput (prepare_for_proving afs)
      × (map (λ (c : Clause). c.literals) (prepare_for_proving afs)
          ≡ map (λ (c : Clause). c.literals) (cnf_clauses afs))
prepare_for_proving_inputs afs = (all_inputs afs, same_literals afs)
