-- ===== src/Frontend/Parser/Clauses.antt =====
-- The clauses of a parsed problem are over the bank that parsing leaves.
use richard_atp_engine.Prelude.{
  ℕ, zero, suc, ◌+◌, ◌<◌, ◌≡◌, inl, inr, Bool, true, false, List, [], ◌∷◌, map, length, All,
  All-map_pred, All-append, ◌&&◌, list_eq, if◌then◌else◌, Bool-cases, Machine, Post, returns, fails,
  Post-bind, Post-if, Post-done, done,
}
use richard_atp_engine.Core.Types.{Literal, Clause, uint32_mod}
use richard_atp_engine.Core.TermBank.{TermBank}
use richard_atp_engine.Core.TermBank.Laws.{Extends, Extends-lt}
use richard_atp_engine.Semantics.Laws.{InBank, Extends-InBank}
use richard_atp_engine.Infer.Renaming.Fresh.{IsSound}
use richard_atp_engine.Proof.Text.{bytes}
use richard_atp_engine.Frontend.Lexer.{
  word, l_paren, r_paren, or_sign, not_sign, dot, comma, end_of_file,
}
use richard_atp_engine.Frontend.Problem.{AnnotatedFormula, prepare_for_proving, as_input}
use richard_atp_engine.Frontend.Parser.{
  Parser, advance, new_parser, at_type, parse_literal, more_literals, parse_cnf, parse_problem,
  parse_tptp_string,
}
use richard_atp_engine.Frontend.Parser.Steps.{
  IsSmall, IsSmall-Extends, at_bank, IsOk, Steps, Parsed, Steps-refl, Steps-trans, Parsed-after,
  Parsed-before,
}
use richard_atp_engine.Frontend.Parser.Sound.{advance-Steps, expect-Steps, parse_term-Parsed}

-- The literals of the clauses are over the bank.
abbrev pub ClausesIn : TermBank → List Clause → Type 0
ClausesIn b = All (λ (c : Clause). InBank b c.literals)

LiteralIn : TermBank → Literal → Type 0
LiteralIn b l = l.atom < length b.terms

FormulaIn : TermBank → AnnotatedFormula → Type 0
FormulaIn b af = ClausesIn b af.clauses

FormulasIn : TermBank → List AnnotatedFormula → Type 0
FormulasIn b = All (FormulaIn b)

LiteralsIn : TermBank → List Literal → Type 0
LiteralsIn b ls = InBank b ls

ClausesIn-Extends :
    (cs : List Clause) (b c : TermBank) → Extends b c → ClausesIn b cs → ClausesIn c cs
ClausesIn-Extends cs b c x h = All-map_pred cs (λ (d : Clause). Extends-InBank d.literals x) h

-- Two results of steps that follow one another.
Parsed-both :
    {A B C : Type 0} (P : TermBank → A → Type 0) (Q : TermBank → B → Type 0)
    (R : TermBank → C → Type 0) (p q r : Parser) (a : A) (b : B) (c : C)
    → ((d e : TermBank) → Extends d e → P d a → Q e b → R e c)
    → Parsed P p (a, q)
    → Parsed Q q (b, r)
    → Parsed R p (c, r)
Parsed-both P Q R p q r a b c join x y = record {
  steps = Steps-trans x.steps y.steps;
  value = λ small ok.
      let earlier = IsSmall-Extends y.steps.extends small in
      join q.bank r.bank y.steps.extends (x.value earlier ok)
        (y.value small (x.steps.keeps earlier ok));
}

module _ (m : Machine) (cap : m.capacity < uint32_mod) where
  after_sign : (p : Parser) (negative : Bool) → Steps p (if negative then advance p else p)
  after_sign p true = advance-Steps p
  after_sign p false = Steps-refl p

  parse_literal-Parsed : (f : ℕ) (p : Parser) → Post (Parsed LiteralIn p) (parse_literal m f p)
  unfolding parse_literal LiteralIn
  parse_literal-Parsed f p =
      Post-bind (parse_term-Parsed m cap f (if at_type not_sign p then advance p else p))
        λ (atom, q) x.
          let y = Parsed-after (after_sign p (at_type not_sign p)) x in
          returns (record { steps = y.steps; value = y.value })

  more_literals-Parsed : (f : ℕ) (p : Parser) → Post (Parsed LiteralsIn p) (more_literals m f p)
  unfolding more_literals LiteralsIn LiteralIn
  more_literals-Parsed zero p = fails
  more_literals-Parsed (suc f) p =
      Post-if (at_type or_sign p)
        (λ _. Post-bind (parse_literal-Parsed f (advance p)) λ (l, q) x.
          Post-bind (more_literals-Parsed f q) λ (ls, r) y. returns (
            Parsed-after (advance-Steps p) (
              Parsed-both LiteralIn LiteralsIn LiteralsIn (advance p) q r l ls (l ∷ ls)
                (λ d e ext h k. (Extends-lt ext h, k)) x y)))
        (λ _. returns (record { steps = Steps-refl p; value = λ _ _. tt }))

  parse_cnf-Parsed : (f : ℕ) (p : Parser) → Post (Parsed FormulaIn p) (parse_cnf m f p)
  unfolding parse_cnf FormulaIn LiteralsIn LiteralIn
  parse_cnf-Parsed f p = Post-bind (expect-Steps l_paren (advance p)) λ p₁ s₁.
      Post-bind (expect-Steps word p₁) λ p₂ s₂. Post-bind (expect-Steps comma p₂) λ p₃ s₃.
        Post-bind (expect-Steps word p₃) λ p₄ s₄. Post-bind (expect-Steps comma p₄) λ p₅ s₅.
          Post-bind (parse_literal-Parsed f p₅) λ (l, p₆) x.
            Post-bind (more_literals-Parsed f p₆) λ (ls, p₇) y.
              Post-bind (expect-Steps r_paren p₇) λ p₈ s₈. Post-bind (expect-Steps dot p₈) λ p₉ s₉.
                let before =
                  Steps-trans (advance-Steps p)
                    (Steps-trans s₁ (Steps-trans s₂ (Steps-trans s₃ (Steps-trans s₄ s₅)))) in
                let read : Parsed LiteralsIn p (l ∷ ls, p₉) =
                  Parsed-before (λ b c ext h. Extends-InBank (l ∷ ls) ext h)
                    (Parsed-after before (
                      Parsed-both LiteralIn LiteralsIn LiteralsIn p₅ p₆ p₇ l ls (l ∷ ls)
                        (λ d e ext h k. (Extends-lt ext h, k)) x y))
                    (Steps-trans s₈ s₉) in
                returns (record {
                  steps = record {
                    extends = read.steps.extends;
                    keeps = λ small ok. record {
                      sound = (read.steps.keeps small ok).sound;
                      cached = tt;
                    };
                  };
                  value = λ small ok. (read.value small ok, tt);
                })

  parse_problem-Parsed : (f : ℕ) (p : Parser) → Post (Parsed FormulasIn p) (parse_problem m f p)
  unfolding parse_problem FormulasIn FormulaIn
  parse_problem-Parsed zero p = fails
  parse_problem-Parsed (suc f) p =
      Post-if (at_type end_of_file p)
        (λ _. returns (record { steps = Steps-refl p; value = λ _ _. tt }))
        λ _.
          Post-if (at_type word p && list_eq p.current_token.value (bytes "cnf"))
            (λ _. Post-bind (parse_cnf-Parsed f p) λ (af, q) x.
              Post-bind (parse_problem-Parsed f q) λ (afs, r) y. returns (
                Parsed-both FormulaIn FormulasIn FormulasIn p q r af afs (af ∷ afs)
                  (λ d e ext h k. (ClausesIn-Extends af.clauses d e ext h, k)) x y))
            λ _. Post-if (list_eq p.current_token.value (bytes "fof")) (λ _. fails) (λ _. fails)

  inputs_in : (b : TermBank) (cs : List Clause) → ClausesIn b cs → ClausesIn b (map as_input cs)
  inputs_in b [] h = tt
  inputs_in b (c ∷ cs) h = (h.0, inputs_in b cs h.1)

  prepared_in :
      (b : TermBank) (afs : List AnnotatedFormula)
      → FormulasIn b afs
      → ClausesIn b (prepare_for_proving afs)
  unfolding prepare_for_proving FormulasIn FormulaIn
  prepared_in b [] h = tt
  prepared_in b (af ∷ afs) h = elim (Bool-cases af.is_cnf) [
    | inl cnf ↦ rw cnf (
        All-append _ (map as_input af.clauses) _ (inputs_in b af.clauses h.0)
          (prepared_in b afs h.1))
    | inr other ↦ rw other (prepared_in b afs h.1)
  ]

  parse_tptp_string-Parsed :
      (source : List ℕ) (b : TermBank)
      → IsSound (at_bank b)
      → Post
          (λ (afs, c).
            IsSmall c → IsSound (at_bank c) × Extends b c × ClausesIn c (prepare_for_proving afs))
          (parse_tptp_string m source b)
  unfolding parse_tptp_string
  parse_tptp_string-Parsed source b ok =
      Post-bind (parse_problem-Parsed (length source + 2) (new_parser source b)) λ (afs, p) x.
        let start : IsOk b [] = record { sound = ok; cached = tt } in
        returns λ small. (
          (x.steps.keeps small start).sound,
          x.steps.extends,
          prepared_in p.bank afs (x.value small start),
        )

  -- Under a capacity below 2³², if `parseTptpString` returns, from a well-formed bank, and no term
  -- of the bank that it leaves has 2¹⁶ arguments or more, then that bank and its symbol table are
  -- well-formed, no old term or symbol has changed, and the clauses that `prepareForProving` makes
  -- of the problem are over that bank.
  pub parse_tptp_string-ClausesIn :
      (source : List ℕ) (b c : TermBank) (afs : List AnnotatedFormula)
      → IsSound (at_bank b)
      → parse_tptp_string m source b ≡ done (afs, c)
      → IsSmall c
      → IsSound (at_bank c) × Extends b c × ClausesIn c (prepare_for_proving afs)
  parse_tptp_string-ClausesIn source b c afs ok run small =
      Post-done (parse_tptp_string-Parsed source b ok) run small
