-- ===== src/Frontend/Parser/Ends.antt =====
-- Parsing ends: each call takes tokens from the source, so the fuel is enough.
use richard_atp_engine.Prelude.{
  ℕ, zero, suc, ◌<◌, ◌≡◌, ◌≢◌, ap, ◌⊎◌, inl, inr, ⊎_elim, true, false, List, [], ◌∷◌, some,
  Option-cases, length, find?, ids_eq, get_elem?, ◌==◌, if◌then◌else◌, arith, Outcome, expect_some,
  Machine, Ends, gives, throws, Ends-bind, Ends-if,
}
use richard_atp_engine.Core.Types.{SymbolKind, variable, constant, function, uint32_mod}
use richard_atp_engine.Core.SymbolTable.Laws.{IsValid}
use richard_atp_engine.Frontend.Lexer.{
  TokenType, word, l_paren, r_paren, comma, end_of_file, type_value,
}
use richard_atp_engine.Frontend.Lexer.Split.{next_token-Taken}
use richard_atp_engine.Frontend.Terms.Ends.{named_term-Ends}
use richard_atp_engine.Frontend.Parser.{
  Parser, advance, at_type, expect, is_upper, parse_variable, more_args, parse_args, apply_name,
  parse_term,
}

-- The symbol table is valid, and a word has some text.
pub record IsReady (p : Parser) : Type 0 where
  pub symbols : IsValid p.bank.symbols
  pub text : at_type word p ≡ true → (c : ℕ) × (text : List ℕ) × (p.current_token.value ≡ c ∷ text)

-- How many tokens are left at most, the current one counted.
abbrev pub size : Parser → ℕ
size p = if at_type end_of_file p then 0 else suc (length p.lexer.rest)

eof_is_no_word : (t : TokenType) → t ≡ end_of_file → (type_value t == type_value word) ≡ true → ⊥
eof_is_no_word t e h = cc (ap type_value e, h)

-- The size after a step from a state where `k` bytes are left.
pub smaller :
    (t : TokenType) (n k : ℕ)
    → ((t ≡ end_of_file) ⊎ (n < k))
    → (if type_value t == type_value end_of_file then 0 else suc n) < suc k
smaller t n k (inl e) = rw e (omega arith)
smaller t n k (inr h) = ground arith

pub advance-IsReady : (p : Parser) → IsReady p → IsReady (advance p)
advance-IsReady p ok = record {
  symbols = ok.symbols;
  text = λ is_word.
      ⊎_elim (λ (at_end, _). absurd (eof_is_no_word _ at_end is_word))
        (λ (_, c, text, starts). (c, text, starts)) (next_token-Taken p.lexer).progress;
}

pub size-advance : (p : Parser) → at_type end_of_file p ≡ false → size (advance p) < size p
size-advance p more = rw more (
    smaller _ _ _ (
      ⊎_elim (λ (at_end, _). inl at_end) (λ (fewer, _, _, _). inr fewer)
        (next_token-Taken p.lexer).progress))

-- A token of another type is not the end of the source.
other_type :
    (t u : TokenType)
    → type_value u ≢ 7
    → (type_value t == type_value u) ≡ true
    → (type_value t == 7) ≡ false
other_type t u h e = ground arith

-- What a parsing step does to the state: it stays ready, and tokens are taken.
abbrev pub Takes {ℓ} : {A : Type ℓ} → ℕ → A × Parser → Type 0
Takes n (a, q) = IsReady q × (size q < n)

pub advance-Takes :
    (u : TokenType) (p : Parser)
    → type_value u ≢ 7
    → IsReady p
    → at_type u p ≡ true
    → IsReady (advance p) × (size (advance p) < size p)
advance-Takes u p h ok here =
    (advance-IsReady p ok, size-advance p (other_type p.current_token.type u h here))

pub expect-Ends :
    (u : TokenType) (p : Parser)
    → type_value u ≢ 7
    → IsReady p
    → Ends (λ q. IsReady q × (size q < size p)) (expect u p)
unfolding expect
expect-Ends u p h ok =
    Ends-if (at_type u p) (λ here. gives (advance-Takes u p h ok here)) (λ _. throws tt)

module _ (m : Machine) (cap : m.capacity < uint32_mod) where
  parse_variable-Ends :
      (name : List ℕ) (p : Parser) (n : ℕ)
      → IsReady p
      → size p < n
      → Ends (Takes n) (parse_variable m name p)
  unfolding parse_variable
  parse_variable-Ends name p n ok h = elim (Option-cases (find? name p.variable_cache)) [
    | inr (id, known) ↦ rw (known, parse_variable) (gives (ok, h))
    | inl new ↦
        rw (new, parse_variable)
          (Ends-bind (named_term-Ends m cap name variable [] p.bank ok.symbols)
            λ (id, b) valid. gives (record { symbols = valid; text = ok.text }, h))
  ]

  apply_name-Ends :
      (name : List ℕ) (kind : SymbolKind) (args : List ℕ) (p : Parser) (n : ℕ)
      → IsReady p
      → size p < n
      → Ends (Takes n) (apply_name m name kind args p)
  unfolding apply_name
  apply_name-Ends name kind args p n ok h =
      Ends-bind (named_term-Ends m cap name kind args p.bank ok.symbols)
        λ (id, b) valid. gives (record { symbols = valid; text = ok.text }, h)

  module _ (step : Parser → Outcome (ℕ × Parser)) (bound : ℕ)
      (each : (q : Parser) → IsReady q → size q < bound → Ends (Takes (size q)) (step q)) where
    more_args-Ends :
        (f : ℕ) (p : Parser) (n : ℕ)
        → IsReady p
        → size p < bound
        → size p < f
        → size p < n
        → Ends (Takes n) (more_args m step f p)
    unfolding more_args
    more_args-Ends zero p n ok hb hf hn = absurd (omega arith)
    more_args-Ends (suc f) p n ok hb hf hn =
        Ends-if (at_type comma p)
          (λ here.
            let (ok₁, less) = advance-Takes comma p (omega arith) ok here in
            Ends-bind (each (advance p) ok₁ (omega arith)) λ (a, q) (okq, lessq).
              Ends-bind (more_args-Ends f q n okq (omega arith) (omega arith) (omega arith))
                λ (args, r) done. gives done)
          (λ _. gives (ok, hn))

    parse_args-Ends :
        (f : ℕ) (p : Parser) (n : ℕ)
        → IsReady p
        → size p < bound
        → size p < f
        → size p < n
        → Ends (Takes n) (parse_args m step f p)
    unfolding parse_args
    parse_args-Ends f p n ok hb hf hn =
        Ends-if (at_type r_paren p) (λ _. gives (ok, hn))
          λ _. Ends-bind (each p ok hb) λ (a, q) (okq, less).
            Ends-bind (more_args-Ends f q n okq (omega arith) (omega arith) (omega arith))
              λ (args, r) done. gives done

  pub parse_term-Ends :
      (f : ℕ) (p : Parser) → IsReady p → size p < f → Ends (Takes (size p)) (parse_term m f p)
  unfolding parse_term
  parse_term-Ends zero p ok h = absurd (omega arith)
  parse_term-Ends (suc f) p ok h =
      Ends-if (at_type word p)
        (λ here.
          let (c, text, starts) = ok.text here in
          let (ok₁, less₁) = advance-Takes word p (omega arith) ok here in
          let name = p.current_token.value in
          let first : get_elem? name 0 ≡ some c = ap (λ v. get_elem? v 0) starts in
          rw (first, expect_some)
            (Ends-if (is_upper c) (λ _. parse_variable-Ends name (advance p) (size p) ok₁ less₁)
              λ _.
                Ends-if (at_type l_paren (advance p))
                  (λ opens.
                    let (ok₂, less₂) = advance-Takes l_paren (advance p) (omega arith) ok₁ opens in
                    Ends-bind
                      (parse_args-Ends (parse_term m f) f (parse_term-Ends f) f
                        (advance (advance p)) (size p) ok₂ (omega arith) (omega arith)
                        (omega arith))
                      λ (args, q) (okq, lessq).
                        Ends-bind (expect-Ends r_paren q (omega arith) okq) λ r (okr, lessr).
                          apply_name-Ends name function args r (size p) okr (omega arith))
                  (λ _. apply_name-Ends name constant [] (advance p) (size p) ok₁ less₁)))
        (λ _. throws tt)
