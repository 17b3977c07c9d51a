-- ===== src/Frontend/Lexer/Tokens.antt =====
-- What blanks, comments and tokens are, apart from how `TptpLexer` reads them.
use richard_atp_engine.Prelude.{
  ℕ, ◌≡◌, ◌≢◌, ◌∙◌, ap, refl, true, false, List, [], ◌∷◌, ◌++◌, All, ◌==◌, ◌||◌,
}
use richard_atp_engine.Frontend.Lexer.{
  Lexer, Token, TokenType, word, end_of_file, l_paren, r_paren, comma, dot, not_sign, or_sign,
  unknown, is_space, is_alpha, is_word_byte,
}

-- The bytes, if there are any, start with the end of a line.
abbrev pub AtLineEnd : List ℕ → Type 0
AtLineEnd cs = (c : ℕ) (rest : List ℕ) → cs ≡ c ∷ rest → c ≡ b'\n'

-- Blanks and comments, up to the bytes that are left. A comment goes from a percent sign to the
-- end of its line.
pub data Blanks : List ℕ → List ℕ → Type 0 where
  no_blank : {cs : List ℕ} → Blanks cs cs
  space : {c : ℕ} {cs rest : List ℕ} → is_space c ≡ true → Blanks cs rest → Blanks (c ∷ cs) rest
  comment :
      {cs rest : List ℕ} (body tail : List ℕ)
      → cs ≡ b'%' ∷ (body ++ tail)
      → All (λ c. c ≢ b'\n') body
      → AtLineEnd tail
      → Blanks tail rest
      → Blanks cs rest

-- What is skipped stands in front of what is left.
pub Blanks-split : {cs rest : List ℕ} → Blanks cs rest → (skipped : List ℕ) × (cs ≡ skipped ++ rest)
Blanks-split no_blank = ([], refl)
Blanks-split (space {c} s more) =
    let (skipped, e) = Blanks-split more in (c ∷ skipped, ap (◌∷◌ c) e)
Blanks-split (comment {rest = rest} body tail e _ _ more) =
    let (skipped, e') = Blanks-split more in
    (
      b'%' ∷ (body ++ skipped),
      e ∙ ap (λ t. b'%' ∷ (body ++ t)) e' ∙ ap (◌∷◌ b'%') (assoc body skipped rest),
    )
  where
    assoc : (xs ys zs : List ℕ) → xs ++ (ys ++ zs) ≡ (xs ++ ys) ++ zs
    assoc [] ys zs = refl
    assoc (x ∷ xs) ys zs = ap (◌∷◌ x) (assoc xs ys zs)

-- Neither a blank nor a comment comes first.
abbrev pub IsClean : List ℕ → Type 0
IsClean cs = (c : ℕ) (rest : List ℕ) → cs ≡ c ∷ rest → (is_space c ≡ false) × ((c == b'%') ≡ false)

-- The type of a token that is one byte.
pub record IsSign (c : ℕ) (type : TokenType) : Type 0 where
  pub left : c ≡ b'(' → type ≡ l_paren
  pub right : c ≡ b')' → type ≡ r_paren
  pub separator : c ≡ b',' → type ≡ comma
  pub full_stop : c ≡ b'.' → type ≡ dot
  pub negation : c ≡ b'~' → type ≡ not_sign
  pub disjunction : c ≡ b'|' → type ≡ or_sign
  pub other : c ≢ b'(' → c ≢ b')' → c ≢ b',' → c ≢ b'.' → c ≢ b'~' → c ≢ b'|' → type ≡ unknown

-- The tokens: the end of the source; a name, which starts with a letter or an underscore and is as
-- long as it can be; and any other byte, with its type.
pub data IsToken (r : Token × Lexer) : Type 0 where
  at_end : r.0.type ≡ end_of_file → r.0.value ≡ [] → r.1.rest ≡ [] → IsToken r
  name :
      (c : ℕ) (text : List ℕ)
      → r.0.type ≡ word
      → r.0.value ≡ c ∷ text
      → (is_alpha c || (c == b'_')) ≡ true
      → All (λ d. is_word_byte d ≡ true) r.0.value
      → ((d : ℕ) (rest : List ℕ) → r.1.rest ≡ d ∷ rest → is_word_byte d ≡ false)
      → IsToken r
  sign :
      (c : ℕ)
      → IsSign c r.0.type
      → r.0.value ≡ c ∷ []
      → (is_alpha c || (c == b'_')) ≡ false
      → IsToken r
