-- ===== src/Frontend/Lexer/Split.antt =====
-- A token is read from the front of the bytes that are left, and the loop over blanks ends.
use richard_atp_engine.Prelude.{
  length-append, subst, All, All-map_pred, ==_iff, ◌≢◌, ℕ, zero, suc, ◌≤◌, ◌<◌, ◌≡◌, ◌∙◌, ◌⊎◌, inl,
  inr, refl, sym, ap, Bool, true, false, Bool-cases, not, ◌||◌, List, [], ◌∷◌, ◌++◌, length, ◌==◌,
  arith,
}
use richard_atp_engine.Frontend.Lexer.Tokens.{
  Blanks, no_blank, comment, Blanks-split, IsClean, IsToken, IsSign, at_end, name, sign,
}
use richard_atp_engine.Frontend.Lexer.{
  Lexer, Token, end_of_file, advance_while, skip_blanks, token_at, sign_type, next_token, next_line,
  next_column, is_space, is_alpha, is_word_byte,
}

-- What `advance_while` passes is the front of the bytes, and the others are left.
advance_while_splits :
    (test : ℕ → Bool) (cs : List ℕ) (line column : ℕ)
    → cs ≡ (advance_while test cs line column).0 ++ (advance_while test cs line column).1.rest
unfolding advance_while
advance_while_splits test [] line column = refl
advance_while_splits test (c ∷ cs) line column = elim (Bool-cases (test c)) [
  | inl pass ↦
      rw pass (ap (◌∷◌ c) (advance_while_splits test cs (next_line c line) (next_column c column)))
  | inr stop ↦ rw stop refl
]

-- The state after a first byte that passes.
past_first :
    (test : ℕ → Bool) (c : ℕ) (cs : List ℕ) (line column : ℕ)
    → test c ≡ true
    → (advance_while test (c ∷ cs) line column).1
      ≡ (advance_while test cs (next_line c line) (next_column c column)).1
unfolding advance_while
past_first test c cs line column pass = rw pass refl

stops_first :
    (test : ℕ → Bool) (c : ℕ) (cs : List ℕ) (line column : ℕ)
    → test c ≡ false
    → (advance_while test (c ∷ cs) line column).1.rest ≡ c ∷ cs
unfolding advance_while
stops_first test c cs line column stop = rw stop refl

first_passes :
    (test : ℕ → Bool) (c : ℕ) (cs : List ℕ) (line column : ℕ)
    → test c ≡ true
    → (advance_while test (c ∷ cs) line column).0
      ≡ c ∷ (advance_while test cs (next_line c line) (next_column c column)).0
unfolding advance_while
first_passes test c cs line column pass = rw pass refl

same_head : (c d : ℕ) (cs ds : List ℕ) → (c ∷ cs) ≡ (d ∷ ds) → c ≡ d
same_head c d cs ds e = cc

-- Each byte that it passes passes the test, and the next one does not.
advance_while_all :
    (test : ℕ → Bool) (cs : List ℕ) (line column : ℕ)
    → All (λ c. test c ≡ true) (advance_while test cs line column).0
unfolding advance_while
advance_while_all test [] line column = tt
advance_while_all test (c ∷ cs) line column = elim (Bool-cases (test c)) [
  | inl pass ↦ rw pass (pass, advance_while_all test cs (next_line c line) (next_column c column))
  | inr stop ↦ rw stop tt
]

advance_while_stops :
    (test : ℕ → Bool) (cs : List ℕ) (line column : ℕ) (d : ℕ) (ds : List ℕ)
    → (advance_while test cs line column).1.rest ≡ d ∷ ds
    → test d ≡ false
unfolding advance_while
advance_while_stops test [] line column d ds e = cc
advance_while_stops test (c ∷ cs) line column d ds e = elim (Bool-cases (test c)) [
  | inl pass ↦
      advance_while_stops test cs (next_line c line) (next_column c column) d ds
        (sym (ap (λ (s : Lexer). s.rest) (past_first test c cs line column pass)) ∙ e)
  | inr stop ↦
      subst (λ x. test x ≡ false)
        (same_head c d cs ds (sym (stops_first test c cs line column stop) ∙ e)) stop
]

-- Blanks and comments are skipped, and neither comes next.
record Skipped (cs : List ℕ) (s : Lexer) : Type 0 where
  blanks : Blanks cs s.rest
  clean : IsClean s.rest

passes : (c : ℕ) → (c == b'%') ≡ true → not (c == b'\n') ≡ true
passes c h = ground arith

stays :
    (c : ℕ) (cs : List ℕ) (line column : ℕ)
    → is_space c ≡ false
    → (c == b'%') ≡ false
    → Skipped (c ∷ cs) (record { rest = c ∷ cs; line = line; column = column })
stays c cs line column other last = record {
  blanks = no_blank;
  clean = λ d ds e.
      subst (λ x. (is_space x ≡ false) × ((x == b'%') ≡ false)) (same_head c d cs ds e)
        (other, last);
}

not_newline : (c : ℕ) → not (c == b'\n') ≡ true → c ≢ b'\n'
not_newline c h e = ground (arith, e)

at_newline : (c : ℕ) → not (c == b'\n') ≡ false → c ≡ b'\n'
at_newline c h = ground arith

skip_blanks-Skipped :
    (f : ℕ) (cs : List ℕ) (line column : ℕ)
    → length cs ≤ f
    → Skipped cs (skip_blanks f cs line column)
unfolding skip_blanks
skip_blanks-Skipped zero [] line column h = record { blanks = no_blank; clean = λ c rest e. cc }
skip_blanks-Skipped zero (c ∷ cs) line column h = absurd (omega arith)
skip_blanks-Skipped (suc f) [] line column h = record { blanks = no_blank; clean = λ c rest e. cc }
skip_blanks-Skipped (suc f) (c ∷ cs) line column h = elim (Bool-cases (is_space c)) [
  | inl space ↦ rw space (
      let more = skip_blanks-Skipped f cs (next_line c line) (next_column c column) (omega arith) in
      record { blanks = Blanks.space space more.blanks; clean = more.clean })
  | inr other ↦ elim (Bool-cases (c == b'%')) [
    | inl percent ↦
        let test : ℕ → Bool = λ b. not (b == b'\n') in
        let s = (advance_while test cs (next_line c line) (next_column c column)).1 in
        let passed = (advance_while test cs (next_line c line) (next_column c column)).0 in
        let e = advance_while_splits test cs (next_line c line) (next_column c column) in
        let shorter = ap length e ∙ length-append passed s.rest in
        rw (other, percent, past_first test c cs line column (passes c percent))
          (let more = skip_blanks-Skipped f s.rest s.line s.column (omega (arith, shorter)) in
            record {
              blanks =
                  comment passed s.rest
                    (ap (λ x. x ∷ cs) ((==_iff c b'%').0 percent) ∙ ap (◌∷◌ b'%') e)
                    (All-map_pred passed not_newline
                      (advance_while_all test cs (next_line c line) (next_column c column)))
                    (λ d ds e'. at_newline d (
                      advance_while_stops test cs (next_line c line) (next_column c column) d ds
                        e'))
                    more.blanks;
              clean = more.clean;
            })
    | inr last ↦ rw (other, last) (stays c cs line column other last)
  ]
]

-- What reading a token does: blanks and comments are skipped, and neither comes next; the token
-- stands there, and the bytes behind it are left. Only at the end of the source no byte is read
-- for the token; else the token has some text.
pub record Taken (cs : List ℕ) (r : Token × Lexer) : Type 0 where
  pub start : List ℕ
  pub blanks : Blanks cs start
  pub clean : IsClean start
  pub splits : start ≡ r.0.value ++ r.1.rest
  pub token : IsToken r
  pub progress :
      ((r.0.type ≡ end_of_file) × (r.1.rest ≡ []))
      ⊎ ((length r.1.rest < length cs) × (c : ℕ) × (text : List ℕ) × (r.0.value ≡ c ∷ text))

shorter : (xs ys zs ws : List ℕ) (c : ℕ) → ws ≡ xs ++ (c ∷ ys ++ zs) → length zs < length ws
shorter xs ys zs ws c e =
    omega (arith, ap length e, length-append xs (c ∷ ys ++ zs), length-append ys zs)

word_start : (c : ℕ) → (is_alpha c || (c == b'_')) ≡ true → is_word_byte c ≡ true
word_start c h = ground arith

sign_type-IsSign : (c : ℕ) → IsSign c (sign_type c)
sign_type-IsSign c = record {
  left = λ e. ap sign_type e;
  right = λ e. ap sign_type e;
  separator = λ e. ap sign_type e;
  full_stop = λ e. ap sign_type e;
  negation = λ e. ap sign_type e;
  disjunction = λ e. ap sign_type e;
  other = λ p q r s t u. ground arith;
}

-- The token at the front of some bytes.
token_at-IsToken :
    (cs : List ℕ) (line column : ℕ)
    → (cs ≡ (token_at cs line column).0.value ++ (token_at cs line column).1.rest)
      × IsToken (token_at cs line column)
unfolding token_at
token_at-IsToken [] line column = (refl, at_end refl refl refl)
token_at-IsToken (c ∷ cs) line column = elim (Bool-cases (is_alpha c || (c == b'_'))) [
  | inl start ↦ rw start (
    advance_while_splits is_word_byte (c ∷ cs) line column,
    name c (advance_while is_word_byte cs (next_line c line) (next_column c column)).0 refl
        (first_passes is_word_byte c cs line column (word_start c start)) start
        (advance_while_all is_word_byte (c ∷ cs) line column)
        (advance_while_stops is_word_byte (c ∷ cs) line column),
  )
  | inr other ↦ rw other (refl, sign c (sign_type-IsSign c) refl other)
]

-- A token that is not the end of the source takes a byte.
some_text :
    (cs start : List ℕ) (r : Token × Lexer) (c : ℕ) (text : List ℕ)
    → Blanks cs start
    → start ≡ r.0.value ++ r.1.rest
    → r.0.value ≡ c ∷ text
    → (length r.1.rest < length cs) × (d : ℕ) × (ds : List ℕ) × (r.0.value ≡ d ∷ ds)
some_text cs start r c text blanks splits starts =
    let (skipped, e) = Blanks-split blanks in
    (
      shorter skipped text r.1.rest cs c
          (e ∙ ap (◌++◌ skipped) (splits ∙ ap (λ v. v ++ r.1.rest) starts)),
      c,
      text,
      starts,
    )

token-progress :
    (cs start : List ℕ) (r : Token × Lexer)
    → Blanks cs start
    → start ≡ r.0.value ++ r.1.rest
    → IsToken r
    → ((r.0.type ≡ end_of_file) × (r.1.rest ≡ []))
      ⊎ ((length r.1.rest < length cs) × (c : ℕ) × (text : List ℕ) × (r.0.value ≡ c ∷ text))
token-progress cs start r blanks splits (at_end type value rest) = inl (type, rest)
token-progress cs start r blanks splits (name c text type value first all stops) =
    inr (some_text cs start r c text blanks splits value)
token-progress cs start r blanks splits (sign c type value other) =
    inr (some_text cs start r c [] blanks splits value)

-- `nextToken` skips blanks and comments, where a comment ends with its line, and what comes next is
-- neither. There it reads the token: the end of the source; a name, which starts with a letter or
-- an underscore and goes on to the first byte that is no letter, digit or underscore; or one other
-- byte, with its type. The other bytes are left, and at least one byte is taken unless the end of
-- the source is reported, where no byte is left.
pub next_token-Taken : (s : Lexer) → Taken s.rest (next_token s)
unfolding next_token
next_token-Taken s =
    let start = skip_blanks (length s.rest) s.rest s.line s.column in
    let skipped = skip_blanks-Skipped (length s.rest) s.rest s.line s.column (omega arith) in
    let (splits, token) = token_at-IsToken start.rest start.line start.column in
    record {
      start = start.rest;
      blanks = skipped.blanks;
      clean = skipped.clean;
      splits = splits;
      token = token;
      progress =
          token-progress s.rest start.rest (token_at start.rest start.line start.column)
            skipped.blanks splits token;
    }
