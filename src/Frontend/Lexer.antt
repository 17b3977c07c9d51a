-- ===== src/Frontend/Lexer.antt =====
-- src/frontend/tptp_parser.cc, `TptpLexer`: the source is cut into tokens. `source_` and `pos_` are
-- the bytes that are left; `isalpha` and its kin are those of the C locale.
pub mod Tokens
pub mod Split
use richard_atp_engine.Prelude.{
  ℕ, zero, suc, ◌+◌, Bool, ◌&&◌, ◌||◌, not, List, [], ◌∷◌, length, leb, ◌==◌, if◌then◌else◌,
}

pub data TokenType : Type 0 where
  word l_paren r_paren or_sign not_sign dot comma end_of_file unknown : TokenType

-- The values of the enumeration, which `==` and `!=` compare.
abbrev pub type_value : TokenType → ℕ
type_value word = 0
type_value l_paren = 1
type_value r_paren = 2
type_value or_sign = 3
type_value not_sign = 4
type_value dot = 5
type_value comma = 6
type_value end_of_file = 7
type_value unknown = 8

pub record Token : Type 0 where
  pub type : TokenType
  pub value : List ℕ
  pub line : ℕ
  pub column : ℕ

pub record Lexer : Type 0 where
  pub rest : List ℕ
  pub line : ℕ
  pub column : ℕ

-- `TptpLexer::TptpLexer`.
abbrev pub new_lexer : List ℕ → Lexer
new_lexer source = record { rest = source; line = 1; column = 1 }

abbrev pub is_alpha : ℕ → Bool
is_alpha c = (leb b'A' c && leb c b'Z') || (leb b'a' c && leb c b'z')

abbrev pub is_digit : ℕ → Bool
is_digit c = leb b'0' c && leb c b'9'

abbrev pub is_space : ℕ → Bool
is_space c = (c == b' ') || (leb 9 c && leb c 13)

abbrev pub is_word_byte : ℕ → Bool
is_word_byte c = (is_alpha c || is_digit c) || (c == b'_')

-- The line and the column that `advanceChar` moves to from a byte.
abbrev pub next_line : ℕ → ℕ → ℕ
next_line c line = if c == b'\n' then line + 1 else line

abbrev pub next_column : ℕ → ℕ → ℕ
next_column c column = if c == b'\n' then 1 else column + 1

-- A loop that calls `advanceChar` while there is a byte and it passes a test: the bytes that it
-- passes, and the state after them.
unfoldable pub advance_while : (ℕ → Bool) → List ℕ → ℕ → ℕ → List ℕ × Lexer
advance_while test [] line column = ([], record { rest = []; line = line; column = column })
advance_while test (c ∷ cs) line column =
    let (passed, s) = advance_while test cs (next_line c line) (next_column c column) in
    if test c then (c ∷ passed, s) else ([], record { rest = c ∷ cs; line = line; column = column })

-- `skipWhitespaceAndComments`, one round of its loop on each unit of fuel.
unfoldable pub skip_blanks : ℕ → List ℕ → ℕ → ℕ → Lexer
skip_blanks zero cs line column = record { rest = cs; line = line; column = column }
skip_blanks (suc f) [] line column = record { rest = []; line = line; column = column }
skip_blanks (suc f) (c ∷ cs) line column =
    let past_space = skip_blanks f cs (next_line c line) (next_column c column) in
    let comment = (advance_while (λ b. not (b == b'\n')) (c ∷ cs) line column).1 in
    let past_comment = skip_blanks f comment.rest comment.line comment.column in
    if is_space c
    then past_space
    else if c == b'%'
    then past_comment
    else record { rest = c ∷ cs; line = line; column = column }

-- The type of the token that is one byte.
abbrev pub sign_type : ℕ → TokenType
sign_type c =
    if c == b'('
    then l_paren
    else if c == b')'
    then r_paren
    else if c == b','
    then comma
    else if c == b'.'
    then dot
    else if c == b'~'
    then not_sign
    else if c == b'|'
    then or_sign
    else unknown

-- The token that the bytes start with, which are behind the blanks.
unfoldable pub token_at : List ℕ → ℕ → ℕ → Token × Lexer
token_at [] line column = (
  record { type = end_of_file; value = []; line = line; column = column },
  record { rest = []; line = line; column = column },
)
token_at (c ∷ cs) line column =
    let (passed, s) = advance_while is_word_byte (c ∷ cs) line column in
    let after : Lexer = record {
      rest = cs;
      line = next_line c line;
      column = next_column c column;
    } in
    if is_alpha c || (c == b'_')
    then (record { type = word; value = passed; line = s.line; column = s.column }, s)
    else (
      record { type = sign_type c; value = c ∷ []; line = after.line; column = after.column },
      after,
    )

-- `TptpLexer::nextToken`. A round of the first loop takes a byte, so the fuel is enough.
unfoldable pub next_token : Lexer → Token × Lexer
next_token s =
    let start = skip_blanks (length s.rest) s.rest s.line s.column in
    token_at start.rest start.line start.column
