-- ===== src/Frontend/Parser/Total.antt =====
-- `parseTptpString` returns or throws on every source: it never loops and never reads out of
-- bounds.
use richard_atp_engine.Prelude.{
  ℕ, zero, suc, ◌+◌, ◌≤◌, ◌<◌, ◌≡◌, refl, Bool, true, false, List, [], length, ◌&&◌, list_eq,
  if◌then◌else◌, arith, Machine, Ends, gives, throws, Ends-bind, Ends-if,
}
use richard_atp_engine.Core.Types.{uint32_mod}
use richard_atp_engine.Core.SymbolTable.Laws.{IsValid}
use richard_atp_engine.Core.TermBank.{TermBank}
use richard_atp_engine.Proof.Text.{bytes}
use richard_atp_engine.Frontend.Lexer.{
  word, l_paren, r_paren, or_sign, not_sign, dot, comma, end_of_file, unknown, new_lexer,
}
use richard_atp_engine.Frontend.Parser.{
  Parser, advance, at_type, parse_literal, more_literals, parse_cnf, parse_problem,
  parse_tptp_string,
}
use richard_atp_engine.Frontend.Parser.Ends.{
  IsReady, size, Takes, size-advance, advance-Takes, advance-IsReady, expect-Ends, parse_term-Ends,
}

-- The state of which `new_parser` is the next one.
abbrev before : List ℕ → TermBank → Parser
before source b = record {
  lexer = new_lexer source;
  current_token = record { type = unknown; value = []; line = 0; column = 0 };
  bank = b;
  variable_cache = [];
}

module _ (m : Machine) (cap : m.capacity < uint32_mod) where
  after_sign :
      (p : Parser)
      → IsReady p
      → (negative : Bool) → at_type not_sign p ≡ negative
      → IsReady (if negative then advance p else p)
        × (size (if negative then advance p else p) ≤ size p)
  after_sign p ok true here =
      let (ok', less) = advance-Takes not_sign p (omega arith) ok here in (ok', omega arith)
  after_sign p ok false _ = (ok, omega arith)

  parse_literal-Ends :
      (f : ℕ) (p : Parser) → IsReady p → size p < f → Ends (Takes (size p)) (parse_literal m f p)
  unfolding parse_literal
  parse_literal-Ends f p ok h =
      let (ok', le) = after_sign p ok (at_type not_sign p) refl in
      Ends-bind
        (parse_term-Ends m cap f (if at_type not_sign p then advance p else p) ok' (omega arith))
        λ (atom, q) (okq, less). gives (okq, omega arith)

  more_literals-Ends :
      (f : ℕ) (p : Parser) (n : ℕ)
      → IsReady p
      → size p < f
      → size p < n
      → Ends (Takes n) (more_literals m f p)
  unfolding more_literals
  more_literals-Ends zero p n ok hf hn = absurd (omega arith)
  more_literals-Ends (suc f) p n ok hf hn =
      Ends-if (at_type or_sign p)
        (λ here.
          let (ok₁, less) = advance-Takes or_sign p (omega arith) ok here in
          Ends-bind (parse_literal-Ends f (advance p) ok₁ (omega arith)) λ (l, q) (okq, lessq).
            Ends-bind (more_literals-Ends f q n okq (omega arith) (omega arith))
              λ (ls, r) done. gives done)
        (λ _. gives (ok, hn))

  parse_cnf-Ends :
      (f : ℕ) (p : Parser)
      → IsReady p
      → at_type word p ≡ true
      → size p ≤ f
      → Ends (Takes (size p)) (parse_cnf m f p)
  unfolding parse_cnf
  parse_cnf-Ends f p ok here h =
      let (ok₀, l₀) = advance-Takes word p (omega arith) ok here in
      Ends-bind (expect-Ends l_paren (advance p) (omega arith) ok₀) λ p₁ (ok₁, l₁).
        Ends-bind (expect-Ends word p₁ (omega arith) ok₁) λ p₂ (ok₂, l₂).
          Ends-bind (expect-Ends comma p₂ (omega arith) ok₂) λ p₃ (ok₃, l₃).
            Ends-bind (expect-Ends word p₃ (omega arith) ok₃) λ p₄ (ok₄, l₄).
              Ends-bind (expect-Ends comma p₄ (omega arith) ok₄) λ p₅ (ok₅, l₅).
                Ends-bind (parse_literal-Ends f p₅ ok₅ (omega arith)) λ (l, p₆) (ok₆, l₆).
                  Ends-bind (more_literals-Ends f p₆ (size p₅) ok₆ (omega arith) l₆)
                    λ (ls, p₇) (ok₇, l₇).
                      Ends-bind (expect-Ends r_paren p₇ (omega arith) ok₇) λ p₈ (ok₈, l₈).
                        Ends-bind (expect-Ends dot p₈ (omega arith) ok₈) λ p₉ (ok₉, l₉).
                          gives (record { symbols = ok₉.symbols; text = ok₉.text }, omega arith)

  parse_problem-Ends :
      (f : ℕ) (p : Parser)
      → IsReady p
      → size p < f
      → Ends (λ (afs, q). IsReady q) (parse_problem m f p)
  unfolding parse_problem
  parse_problem-Ends zero p ok h = absurd (omega arith)
  parse_problem-Ends (suc f) p ok h =
      Ends-if (at_type end_of_file p) (λ _. gives ok)
        λ _.
          Ends-if (at_type word p && list_eq p.current_token.value (bytes "cnf"))
            (λ here.
              Ends-bind (parse_cnf-Ends f p ok (both _ _ here) (omega arith)) λ (af, q) (okq, less).
                Ends-bind (parse_problem-Ends f q okq (omega arith)) λ (afs, r) done. gives done)
            λ _.
              Ends-if (list_eq p.current_token.value (bytes "fof")) (λ _. throws tt)
                (λ _. throws tt)
    where
      both : (a b : Bool) → (a && b) ≡ true → a ≡ true
      both a b h = ground arith

  -- On every source, over a bank with a valid symbol table and under a capacity below 2³²,
  -- `parseTptpString` returns or throws an exception: it neither loops nor reads out of bounds,
  -- and when it returns the symbol table is valid.
  pub parse_tptp_string-Ends :
      (source : List ℕ) (b : TermBank)
      → IsValid b.symbols
      → Ends (λ r. IsValid r.1.symbols) (parse_tptp_string m source b)
  unfolding parse_tptp_string
  parse_tptp_string-Ends source b v =
      Ends-bind
        (parse_problem-Ends (length source + 2) (advance (before source b))
          (advance-IsReady (before source b) (record { symbols = v; text = λ h. cc }))
          (omega (arith, size-advance (before source b) refl)))
        λ (afs, p) ok. gives ok.symbols
