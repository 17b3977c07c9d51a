-- ===== src/Tests/Parsing.antt =====
-- The lexer and the problem at concrete inputs.
use richard_atp_engine.Prelude.{◌≡◌, refl}
use richard_atp_engine.Proof.Text.{bytes}
use richard_atp_engine.Frontend.Lexer.{
  Lexer, new_lexer, next_token, skip_blanks, token_at, advance_while,
}
use richard_atp_engine.Frontend.Lexer.Split.{Taken, next_token-Taken}
use richard_atp_engine.Frontend.Problem.{parse_role, negated_conjecture}

-- The source starts with a comment and a blank before the word cnf.
abbrev source : Lexer
source = new_lexer (bytes "% a\n cnf(x")

next_token-Taken_example : Taken source.rest (next_token source)
next_token-Taken_example = next_token-Taken source

first_word : (next_token source).0.value ≡ bytes "cnf"
unfolding next_token skip_blanks token_at advance_while
first_word = refl

known_role : parse_role (bytes "negated_conjecture") ≡ negated_conjecture
unfolding parse_role
known_role = refl
