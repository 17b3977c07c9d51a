-- ===== src/Tests/Simplifying.antt =====
-- Subsumption, tautologies, terms and clauses at concrete inputs.
use richard_atp_engine.Prelude.{
  ℕ, List, ◌≡◌, refl, [], ◌∷◌, true, false, arith, Post, Returns, ◌↔◌, ◌≤◌, ◌++◌,
}
use richard_atp_engine.Core.Types.{Clause, new_clause, constant, function, size, unsorted}
use richard_atp_engine.Core.SymbolTable.{intern}
use richard_atp_engine.Core.SymbolTable.Laws.{intern_new, intern_known, Interned, KnownResult}
use richard_atp_engine.Core.TermBank.{TermBank, make_term}
use richard_atp_engine.Core.TermBank.Laws.{Made, make_term-Returns, make_term_injective}
use richard_atp_engine.Core.ClauseStore.{add_clause}
use richard_atp_engine.Core.ClauseStore.Laws.{Added, add_clause-Returns}
use richard_atp_engine.Frontend.Terms.{named_term, Named, named_term-Named}
use richard_atp_engine.Semantics.{Valid}
use richard_atp_engine.Simplify.Subsumption.{subsumes, all_occur, occurs}
use richard_atp_engine.Simplify.Subsumption.Laws.{subsumes-Valid, subsumes_iff, Included}
use richard_atp_engine.Simplify.Tautology.{is_tautology, has_pair, has_complement}
use richard_atp_engine.Simplify.Tautology.Laws.{is_tautology-Valid, is_tautology_iff, HasPair}
use richard_atp_engine.Proof.Text.Names.{pretty_var_name_injective}
use richard_atp_engine.Tests.Samples.{machine, machine_fits, p_engine, p_engine-IsSound, p_clauses}
use richard_atp_engine.Tests.Models.{p_holds, p_x, either, p_x-Valid}

-- The clause ¬p(a) ∨ p(a).
abbrev excluded_middle : Clause
excluded_middle = record new_clause {
  literals =
      record { atom = 3; is_positive = false } ∷ record { atom = 3; is_positive = true } ∷ [];
}

subsumes_iff_example :
    (subsumes p_x either ≡ true)
    ↔ ((size p_x ≤ size either) × Included p_x.literals either.literals)
subsumes_iff_example = subsumes_iff p_x either

subsumes-Valid_example : Valid p_holds p_engine.bank either.literals
unfolding subsumes all_occur occurs
subsumes-Valid_example = subsumes-Valid p_holds p_engine.bank p_x either refl p_x-Valid

is_tautology_iff_example : (is_tautology excluded_middle ≡ true) ↔ HasPair excluded_middle.literals
is_tautology_iff_example = is_tautology_iff excluded_middle

is_tautology-Valid_example : Valid p_holds p_engine.bank excluded_middle.literals
unfolding is_tautology has_pair has_complement
is_tautology-Valid_example = is_tautology-Valid p_holds p_engine.bank excluded_middle refl

-- The name b is new.
intern_new_example :
    Returns
      (Interned p_engine.bank.symbols (b'b' ∷ []) constant 0)
      (intern machine (b'b' ∷ []) constant 0 unsorted p_engine.bank.symbols)
intern_new_example =
    intern_new p_engine.bank.symbols machine (b'b' ∷ []) constant 0 unsorted p_engine-IsSound.table
      machine_fits (omega arith) refl

-- The name p is known with one argument and is asked for with two.
intern_known_example :
    KnownResult p_engine.bank.symbols 2
      (record { name = b'p' ∷ []; kind = function; arity = 1; sort = 0 })
      function
      2
      (intern machine (b'p' ∷ []) function 2 unsorted p_engine.bank.symbols)
intern_known_example =
    intern_known p_engine.bank.symbols machine 2
      (record { name = b'p' ∷ []; kind = function; arity = 1; sort = 0 }) function 2 unsorted
      p_engine-IsSound.table refl

-- p(p(X)) is new.
make_term-Returns_example :
    Returns
      (Made p_engine.bank (record { symbol = 2; args = 2 ∷ [] }))
      (make_term machine 2 (2 ∷ []) p_engine.bank)
make_term-Returns_example =
    make_term-Returns p_engine.bank p_engine-IsSound.bank machine 2 (2 ∷ []) machine_fits
      (omega arith) (record { below = (omega arith, tt); known = omega arith; small = omega arith })

add_clause-Returns_example : Returns (Added either p_clauses) (add_clause machine either p_clauses)
add_clause-Returns_example = add_clause-Returns machine either p_clauses machine_fits (omega arith)

named_term-Named_example :
    Post
      (Named p_engine (b'f' ∷ []) function (0 ∷ 1 ∷ []))
      (named_term machine (b'f' ∷ []) function (0 ∷ 1 ∷ []) p_engine.bank)
named_term-Named_example =
    named_term-Named machine (b'f' ∷ []) function (0 ∷ 1 ∷ []) p_engine machine_fits
      p_engine-IsSound (omega arith, (omega arith, tt)) (omega arith)

-- The identifier 4 and the bank with p(p(X)).
abbrev larger : ℕ × TermBank
larger = (
  4,
  record p_engine.bank {
    terms = p_engine.bank.terms ++ record { symbol = 2; args = 2 ∷ [] } ∷ [];
    term_to_id = (record { symbol = 2; args = 2 ∷ [] }, 4) ∷ p_engine.bank.term_to_id;
  },
)

make_term_injective_example : ◌≡◌ {A = ℕ} 2 2 × ◌≡◌ {A = List ℕ} (2 ∷ []) (2 ∷ [])
unfolding make_term
make_term_injective_example =
    make_term_injective p_engine.bank p_engine-IsSound.bank machine 2 2 (2 ∷ []) (2 ∷ []) larger
      larger machine_fits
      (record { below = (omega arith, tt); known = omega arith; small = omega arith }) refl
      (record { below = (omega arith, tt); known = omega arith; small = omega arith }) refl refl

-- The variable with number 7 is Y1.
pretty_var_name_injective_example : ◌≡◌ {A = ℕ} 7 7
pretty_var_name_injective_example = pretty_var_name_injective 7 7 refl
