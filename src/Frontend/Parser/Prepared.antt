-- ===== src/Frontend/Parser/Prepared.antt =====
-- src/frontend/tptp_parser.cc, `parseTptpString` and `prepareForProving`: which clauses reach the
-- prover.
use richard_atp_engine.Prelude.{
  ℕ, zero, suc, ◌≡◌, ◌∙◌, ◌+◌, refl, sym, ap, true, ◌&&◌, List, [], ◌∷◌, some, length, list_eq,
  get_elem?, All, Machine, done, Post, Post-bind, Post-if, Post-self, Post-done, returns, fails,
}
use richard_atp_engine.Core.Types.{Literal, Clause, new_clause}
use richard_atp_engine.Core.TermBank.{TermBank}
use richard_atp_engine.Proof.Text.{bytes}
use richard_atp_engine.Frontend.Lexer.{word, l_paren, r_paren, comma, dot, end_of_file}
use richard_atp_engine.Frontend.Problem.{AnnotatedFormula, prepare_for_proving}
use richard_atp_engine.Frontend.Parser.{
  Parser, at_type, expect, advance, new_parser, parse_literal, more_literals, parse_cnf,
  parse_problem, parse_tptp_string,
}

-- A clause as the parser makes it: with literals, but without a number, a rule or parents.
abbrev parsed_clause : Literal → List Literal → Clause
parsed_clause l ls = record new_clause { literals = l ∷ ls }

-- The formula is in clause form, and has one clause, which has a literal.
abbrev pub IsOneClause : AnnotatedFormula → Type 0
IsOneClause af =
    (l : Literal) × (ls : List Literal) × (af.clauses ≡ parsed_clause l ls ∷ [])
    × (af.is_cnf ≡ true)

module _ (m : Machine) where
  parse_cnf-IsOneClause : (f : ℕ) (p : Parser) → Post (λ r. IsOneClause r.0) (parse_cnf m f p)
  unfolding parse_cnf
  parse_cnf-IsOneClause f p = Post-bind (Post-self (expect l_paren (advance p))) λ p₁ _.
      Post-bind (Post-self (expect word p₁)) λ p₂ _. Post-bind (Post-self (expect comma p₂)) λ p₃ _.
        Post-bind (Post-self (expect word p₃)) λ p₄ _.
          Post-bind (Post-self (expect comma p₄)) λ p₅ _.
            Post-bind (Post-self (parse_literal m f p₅)) λ (l, p₆) _.
              Post-bind (Post-self (more_literals m f p₆)) λ (ls, p₇) _.
                Post-bind (Post-self (expect r_paren p₇))
                  λ p₈ _. Post-bind (Post-self (expect dot p₈)) λ p₉ _. returns (l, ls, refl, refl)

  parse_problem-IsOneClause :
      (f : ℕ) (p : Parser) → Post (λ r. All IsOneClause r.0) (parse_problem m f p)
  unfolding parse_problem
  parse_problem-IsOneClause zero p = fails
  parse_problem-IsOneClause (suc f) p =
      Post-if (at_type end_of_file p) (λ _. returns tt)
        λ _.
          Post-if (at_type word p && list_eq p.current_token.value (bytes "cnf"))
            (λ _. Post-bind (parse_cnf-IsOneClause f p) λ (af, q) one.
              Post-bind (parse_problem-IsOneClause f q) λ (afs, r) rest. returns (one, rest))
            λ _. Post-if (list_eq p.current_token.value (bytes "fof")) (λ _. fails) (λ _. fails)

  parse_tptp_string-IsOneClause :
      (source : List ℕ) (b : TermBank)
      → Post (λ r. All IsOneClause r.0) (parse_tptp_string m source b)
  unfolding parse_tptp_string
  parse_tptp_string-IsOneClause source b =
      Post-bind (parse_problem-IsOneClause (length source + 2) (new_parser source b))
        λ (afs, p) one. returns one

prepared_cons :
    (af : AnnotatedFormula) (afs : List AnnotatedFormula) (l : Literal) (ls : List Literal)
    → af.clauses ≡ parsed_clause l ls ∷ []
    → af.is_cnf ≡ true
    → prepare_for_proving (af ∷ afs) ≡ parsed_clause l ls ∷ prepare_for_proving afs
unfolding prepare_for_proving
prepared_cons af afs l ls clauses cnf = rw (cnf, clauses) refl

-- The clause of the formula is at the same place, as it was parsed.
abbrev pub IsPrepared : List Clause → ℕ → AnnotatedFormula → Type 0
IsPrepared cs i af =
    (l : Literal) × (ls : List Literal) × (af.clauses ≡ parsed_clause l ls ∷ [])
    × (get_elem? cs i ≡ some (parsed_clause l ls))

prepared_length :
    (afs : List AnnotatedFormula)
    → All IsOneClause afs
    → length (prepare_for_proving afs) ≡ length afs
unfolding prepare_for_proving
prepared_length [] h = refl
prepared_length (af ∷ afs) ((l, ls, clauses, cnf), h) =
    ap length (prepared_cons af afs l ls clauses cnf) ∙ ap suc (prepared_length afs h)

IsPrepared-at :
    (afs : List AnnotatedFormula) (i : ℕ) (af : AnnotatedFormula)
    → All IsOneClause afs
    → get_elem? afs i ≡ some af
    → IsPrepared (prepare_for_proving afs) i af
IsPrepared-at [] i af h at = cc
IsPrepared-at (a ∷ afs) zero af ((l, ls, clauses, cnf), h) at = (
  l,
  ls,
  ap (λ (x : AnnotatedFormula). x.clauses) (sym same) ∙ clauses,
  ap (λ (cs : List Clause). get_elem? cs 0) (prepared_cons a afs l ls clauses cnf),
)
  where
    same : a ≡ af
    same = cc
IsPrepared-at (a ∷ afs) (suc i) af ((l, ls, clauses, cnf), h) at =
    let (k, ks, found, place) = IsPrepared-at afs i af h at in
    (
      k,
      ks,
      found,
      ap (λ (cs : List Clause). get_elem? cs (suc i)) (prepared_cons a afs l ls clauses cnf)
          ∙ place,
    )

-- Where `parseTptpString` returns formulas, each of them has one clause, which has a literal, and
-- `prepareForProving` makes as many clauses as there are formulas: at the place of each formula,
-- whatever its role, stands its clause as it was parsed. No clause is dropped, none is negated, also
-- not that of a conjecture, and none has a number yet; each is an input without parents.
pub parse_tptp_string-IsPrepared :
    (m : Machine) (source : List ℕ) (b c : TermBank) (afs : List AnnotatedFormula)
    → parse_tptp_string m source b ≡ done (afs, c)
    → (i : ℕ) (af : AnnotatedFormula) → get_elem? afs i ≡ some af
    → (length (prepare_for_proving afs) ≡ length afs) × IsPrepared (prepare_for_proving afs) i af
parse_tptp_string-IsPrepared m source b c afs run i af at =
    let one = Post-done (parse_tptp_string-IsOneClause m source b) run in
    (prepared_length afs one, IsPrepared-at afs i af one at)
