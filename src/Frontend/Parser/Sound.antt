-- ===== src/Frontend/Parser/Sound.antt =====
-- The parser's terms, literals and clauses are over the bank that it leaves.
use richard_atp_engine.Prelude.{
  arith, ℕ, zero, suc, ◌<◌, ◌≡◌, inl, inr, List, [], ◌∷◌, some, Option-cases, length, find?, ids_eq,
  emplace_new, All, All-map_pred, list_eq, get_elem?, Bool-cases, subst, Outcome, Machine, Post,
  returns, fails, Post-bind, Post-map, Post-if, Post-self, expect_some,
}
use richard_atp_engine.Core.Types.{SymbolKind, variable, constant, function, uint32_mod}
use richard_atp_engine.Core.TermBank.{TermBank}
use richard_atp_engine.Core.TermBank.Laws.{Extends, Extends-lt, Extends-trans}
use richard_atp_engine.Frontend.Lexer.{TokenType, word, l_paren, r_paren, comma}
use richard_atp_engine.Frontend.Parser.{
  Parser, advance, at_type, expect, is_upper, parse_variable, more_args, parse_args, apply_name,
  parse_term,
}
use richard_atp_engine.Frontend.Parser.Steps.{
  IsSmall, IsSmall-Extends, Cache, IsOk, Steps, Parsed, Steps-refl, Steps-trans, Parsed-after,
  Parsed-before, InTerms, named_term-Steps,
}

pub advance-Steps : (p : Parser) → Steps p (advance p)
advance-Steps p = record { extends = (Steps-refl p).extends; keeps = λ _ ok. ok }

pub expect-Steps : (u : TokenType) (p : Parser) → Post (λ q. Steps p q) (expect u p)
unfolding expect
expect-Steps u p = Post-if (at_type u p) (λ _. returns (advance-Steps p)) (λ _. fails)

cached_term :
    (b : TermBank) (name : List ℕ) (id : ℕ) (cache : Cache)
    → find? name cache ≡ some id
    → All (λ (entry : List ℕ × ℕ). entry.1 < length b.terms) cache
    → id < length b.terms
cached_term b name id [] e h = cc
cached_term b name id ((other, i) ∷ cache) e h = elim (Bool-cases (list_eq other name)) [
  | inl same ↦ subst (λ k. k < length b.terms) (ground (arith, e, same)) h.0
  | inr differ ↦ cached_term b name id cache (ground (arith, e, differ)) h.1
]

AllInTerms : TermBank → List ℕ → Type 0
AllInTerms b args = All (λ a. a < length b.terms) args

AllInTerms-Extends :
    (args : List ℕ) (b c : TermBank) → Extends b c → AllInTerms b args → AllInTerms c args
unfolding AllInTerms
AllInTerms-Extends args b c x h = All-map_pred args (λ a. Extends-lt x) h

module _ (m : Machine) (cap : m.capacity < uint32_mod) where
  -- A name is applied to terms that an earlier step has read.
  apply_name-Parsed :
      (name : List ℕ) (kind : SymbolKind) (args : List ℕ) (p q : Parser)
      → Parsed AllInTerms p (args, q)
      → Post (Parsed InTerms p) (apply_name m name kind args q)
  unfolding apply_name AllInTerms
  apply_name-Parsed name kind args p q read =
      Post-bind (named_term-Steps m cap name kind args q.bank) λ (id, b) (x, good).
        let ready = λ (small : IsSmall b) (ok : IsOk p.bank p.variable_cache).
          read.steps.keeps (IsSmall-Extends x small) ok in
        let made = λ (small : IsSmall b) (ok : IsOk p.bank p.variable_cache).
          good small (ready small ok).sound (read.value (IsSmall-Extends x small) ok) in
        returns (record {
          steps = record {
            extends = Extends-trans read.steps.extends x;
            keeps = λ small ok. record {
              sound = (made small ok).0;
              cached =
                  All-map_pred q.variable_cache (λ (entry : List ℕ × ℕ). Extends-lt x)
                    (ready small ok).cached;
            };
          };
          value = λ small ok. (made small ok).1;
        })

  parse_variable-Parsed :
      (name : List ℕ) (p : Parser) → Post (Parsed InTerms p) (parse_variable m name p)
  unfolding parse_variable
  parse_variable-Parsed name p = elim (Option-cases (find? name p.variable_cache)) [
    | inr (id, known) ↦
        rw (known, parse_variable)
          (returns (record {
            steps = Steps-refl p;
            value = λ _ ok. cached_term p.bank name id p.variable_cache known ok.cached;
          }))
    | inl new ↦
        rw (new, parse_variable)
          (Post-bind (named_term-Steps m cap name variable [] p.bank) λ (id, b) (x, good).
            rw (emplace_new name id p.variable_cache new) (
              returns (record {
                steps = record {
                  extends = x;
                  keeps = λ small ok. record {
                    sound = (good small ok.sound tt).0;
                    cached = (
                      (good small ok.sound tt).1,
                      All-map_pred p.variable_cache (λ (entry : List ℕ × ℕ). Extends-lt x)
                          ok.cached,
                    );
                  };
                };
                value = λ small ok. (good small ok.sound tt).1;
              })))
  ]

  module _ (step : Parser → Outcome (ℕ × Parser))
      (each : (q : Parser) → Post (Parsed InTerms q) (step q)) where
    -- A first argument, and those that follow it.
    first_arg :
        (p q : Parser) (a : ℕ) (r : List ℕ × Parser)
        → Parsed InTerms p (a, q)
        → Parsed AllInTerms q r
        → Parsed AllInTerms p (a ∷ r.0, r.1)
    unfolding AllInTerms
    first_arg p q a r x y = record {
      steps = Steps-trans x.steps y.steps;
      value = λ small ok.
          let earlier = IsSmall-Extends y.steps.extends small in
          (
            Extends-lt y.steps.extends (x.value earlier ok),
            y.value small (x.steps.keeps earlier ok),
          );
    }

    more_args-Parsed : (f : ℕ) (p : Parser) → Post (Parsed AllInTerms p) (more_args m step f p)
    unfolding more_args AllInTerms
    more_args-Parsed zero p = fails
    more_args-Parsed (suc f) p =
        Post-if (at_type comma p)
          (λ _. Post-bind (each (advance p)) λ (a, q) x.
            Post-bind (more_args-Parsed f q) λ (args, r) y.
              returns (Parsed-after (advance-Steps p) (first_arg (advance p) q a (args, r) x y)))
          (λ _. returns (record { steps = Steps-refl p; value = λ _ _. tt }))

    parse_args-Parsed : (f : ℕ) (p : Parser) → Post (Parsed AllInTerms p) (parse_args m step f p)
    unfolding parse_args AllInTerms
    parse_args-Parsed f p =
        Post-if (at_type r_paren p)
          (λ _. returns (record { steps = Steps-refl p; value = λ _ _. tt }))
          (λ _. Post-bind (each p) λ (a, q) x.
            Post-bind (more_args-Parsed f q) λ (args, r) y. returns (first_arg p q a (args, r) x y))

  pub parse_term-Parsed : (f : ℕ) (p : Parser) → Post (Parsed InTerms p) (parse_term m f p)
  unfolding parse_term AllInTerms
  parse_term-Parsed zero p = fails
  parse_term-Parsed (suc f) p =
      let name = p.current_token.value in
      Post-if (at_type word p)
        (λ _. Post-bind (Post-self (expect_some (get_elem? name 0))) λ first _.
          Post-if (is_upper first)
            (λ _.
              Post-map (parse_variable-Parsed name (advance p))
                λ r x. Parsed-after (advance-Steps p) x)
            λ _.
              Post-if (at_type l_paren (advance p))
                (λ _.
                  Post-bind
                    (parse_args-Parsed (parse_term m f) (parse_term-Parsed f) f
                      (advance (advance p)))
                    λ (args, q) x. Post-bind (expect-Steps r_paren q) λ q' s.
                      Post-map
                        (apply_name-Parsed name function args (advance (advance p)) q'
                          (Parsed-before (AllInTerms-Extends args) x s))
                        λ r y.
                          Parsed-after (Steps-trans (advance-Steps p) (advance-Steps (advance p)))
                            y)
                (λ _.
                  Post-map
                    (apply_name-Parsed name constant [] (advance p) (advance p)
                      (record { steps = Steps-refl (advance p); value = λ _ _. tt }))
                    λ r y. Parsed-after (advance-Steps p) y))
        (λ _. fails)
