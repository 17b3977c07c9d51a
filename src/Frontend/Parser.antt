-- ===== src/Frontend/Parser.antt =====
-- src/frontend/tptp_parser.cc, `TptpParser` and `parseTptpString`: recursive descent over the
-- tokens. The bank carries the symbol table; `tokens_`, which nothing uses, is left out.
pub mod Ends
pub mod Total
pub mod Steps
pub mod Sound
pub mod Clauses
pub mod Prepared
use richard_atp_engine.Prelude.{
  ℕ, zero, suc, ◌+◌, Bool, true, false, List, [], ◌∷◌, ◌++◌, Option, none, some, length, leb, ◌&&◌,
  ◌==◌, list_eq, if◌then◌else◌, find?, emplace, ids_eq, get_elem?, Outcome, done, failed, ◌>>=◌,
  expect_some, diverged, unexpected_token, expected_name, unsupported_fof, unknown_declaration,
  no_file, Machine,
}
use richard_atp_engine.Core.Types.{
  Literal, Clause, SymbolKind, new_clause, variable, constant, function,
}
use richard_atp_engine.Core.TermBank.{TermBank}
use richard_atp_engine.Proof.Text.{bytes}
use richard_atp_engine.Frontend.Lexer.{
  Lexer, Token, TokenType, word, l_paren, r_paren, or_sign, not_sign, dot, comma, end_of_file,
  type_value, new_lexer, next_token,
}
use richard_atp_engine.Frontend.Terms.{named_term}
use richard_atp_engine.Frontend.Problem.{AnnotatedFormula, parse_role}

pub record Parser : Type 0 where
  pub lexer : Lexer
  pub current_token : Token
  pub bank : TermBank
  pub variable_cache : List (List ℕ × ℕ)

-- `advance`.
abbrev pub advance : Parser → Parser
advance p =
    let (token, rest) = next_token p.lexer in record p { current_token = token; lexer = rest }

-- `TptpParser::TptpParser`.
abbrev pub new_parser : List ℕ → TermBank → Parser
new_parser source b =
    let (token, rest) = next_token (new_lexer source) in
    record { lexer = rest; current_token = token; bank = b; variable_cache = [] }

-- Whether the current token has a type.
abbrev pub at_type : TokenType → Parser → Bool
at_type type p = type_value p.current_token.type == type_value type

-- `expect`.
unfoldable pub expect : TokenType → Parser → Outcome Parser
expect type p = if at_type type p then done (advance p) else failed unexpected_token

-- `std::isupper` in the C locale.
abbrev pub is_upper : ℕ → Bool
is_upper c = leb b'A' c && leb c b'Z'

module _ (m : Machine) where
  -- A variable: the one that the formula has under this name, or a new one.
  unfoldable pub parse_variable : List ℕ → Parser → Outcome (ℕ × Parser)
  parse_variable name p = elim (find? name p.variable_cache) [
    | some id ↦ done (id, p)
    | none ↦ named_term m name variable [] p.bank >>= λ (id, b).
        done (id, record p { bank = b; variable_cache = emplace name id p.variable_cache })
  ]

  -- The loop over the arguments behind a comma, one round on each unit of fuel.
  unfoldable pub more_args :
      (Parser → Outcome (ℕ × Parser)) → ℕ → Parser → Outcome (List ℕ × Parser)
  more_args step zero p = failed diverged
  more_args step (suc f) p =
      let next =
        step (advance p) >>= λ (a, p₁). more_args step f p₁ >>= λ (args, p₂). done (a ∷ args, p₂) in
      if at_type comma p then next else done ([], p)

  -- The arguments up to the closing parenthesis, which may be none.
  unfoldable pub parse_args :
      (Parser → Outcome (ℕ × Parser)) → ℕ → Parser → Outcome (List ℕ × Parser)
  parse_args step f p =
      let args = step p >>= λ (a, p₁). more_args step f p₁ >>= λ (rest, p₂). done (a ∷ rest, p₂) in
      if at_type r_paren p then done ([], p) else args

  -- The term of a name and its arguments.
  unfoldable pub apply_name : List ℕ → SymbolKind → List ℕ → Parser → Outcome (ℕ × Parser)
  apply_name name kind args p =
      named_term m name kind args p.bank >>= λ (id, b). done (id, record p { bank = b })

  -- `parseTerm`, one nested call on each unit of fuel.
  unfoldable pub parse_term : ℕ → Parser → Outcome (ℕ × Parser)
  parse_term zero p = failed diverged
  parse_term (suc f) p =
      let name = p.current_token.value in
      let application = parse_args (parse_term f) f (advance (advance p)) >>= λ (args, p₁).
      expect r_paren p₁ >>= λ p₂. apply_name name function args p₂ in
      let constant_term = apply_name name constant [] (advance p) in
      let named = expect_some (get_elem? name 0) >>= λ first.
      if is_upper first
      then parse_variable name (advance p)
      else if at_type l_paren (advance p)
      then application
      else constant_term in
      if at_type word p then named else failed expected_name

  -- `parseLiteral`.
  unfoldable pub parse_literal : ℕ → Parser → Outcome (Literal × Parser)
  parse_literal f p =
      let negative = at_type not_sign p in
      parse_term f (if negative then advance p else p) >>= λ (atom, p₁).
      done (record { atom = atom; is_positive = if negative then false else true }, p₁)

  -- The loop over the literals behind `|`.
  unfoldable pub more_literals : ℕ → Parser → Outcome (List Literal × Parser)
  more_literals zero p = failed diverged
  more_literals (suc f) p =
      let next = parse_literal f (advance p) >>= λ (l, p₁).
      more_literals f p₁ >>= λ (ls, p₂). done (l ∷ ls, p₂) in
      if at_type or_sign p then next else done ([], p)

  -- The branch of `parseProblem` for `cnf`, from its first token on.
  unfoldable pub parse_cnf : ℕ → Parser → Outcome (AnnotatedFormula × Parser)
  parse_cnf f p = do
    p₁ ← expect l_paren (advance p)
    let name = p₁.current_token.value
    p₂ ← expect word p₁
    p₃ ← expect comma p₂
    let role = parse_role p₃.current_token.value
    p₄ ← expect word p₃
    p₅ ← expect comma p₄
    (l, p₆) ← parse_literal f p₅
    (ls, p₇) ← more_literals f p₆
    p₈ ← expect r_paren p₇
    p₉ ← expect dot p₈
    done (
      record {
        name = name;
        role = role;
        clauses = record new_clause { literals = l ∷ ls } ∷ [];
        is_cnf = true;
      },
      record p₉ { variable_cache = [] },
    )

  -- The loop of `parseProblem`: the formulas that are left, and the state at the end.
  unfoldable pub parse_problem : ℕ → Parser → Outcome (List AnnotatedFormula × Parser)
  parse_problem zero p = failed diverged
  parse_problem (suc f) p =
      let value = p.current_token.value in
      let formula =
        parse_cnf f p >>= λ (af, p₁). parse_problem f p₁ >>= λ (afs, p₂). done (af ∷ afs, p₂) in
      if at_type end_of_file p
      then done ([], p)
      else if at_type word p && list_eq value (bytes "cnf")
      then formula
      else if list_eq value (bytes "fof")
      then failed unsupported_fof
      else failed unknown_declaration

  -- `parseTptpString`. A token takes a byte, so this fuel is enough.
  unfoldable pub parse_tptp_string : List ℕ → TermBank → Outcome (List AnnotatedFormula × TermBank)
  parse_tptp_string source b =
      parse_problem (length source + 2) (new_parser source b) >>= λ (afs, p). done (afs, p.bank)

  -- `parseTptpFile`, on what the file holds if it can be opened.
  unfoldable pub parse_tptp_file :
      Option (List ℕ) → TermBank → Outcome (List AnnotatedFormula × TermBank)
  parse_tptp_file none b = failed no_file
  parse_tptp_file (some content) b = parse_tptp_string content b
