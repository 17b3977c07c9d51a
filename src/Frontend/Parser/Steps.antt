-- ===== src/Frontend/Parser/Steps.antt =====
-- What a step of the parser does to the bank: terms are added and none changes. If no term of the
-- bank has 2¹⁶ arguments or more, a well-formed bank stays so, and the variables of the formula
-- are terms of it.
use richard_atp_engine.Prelude.{
  ℕ, ◌<◌, ◌≡◌, subst, inl, inr, List, some, Option-cases, length, get_elem?, find?, ids_eq, All,
  ◌%◌, leb, not, ◌||◌, ◌==◌, get_elem?-append, get_elem?-append_last, Machine, Post, returns, fails,
  Post-bind, Post-map, Post-if, Post-self, Post-done, Post-with_eq,
}
use richard_atp_engine.Core.Types.{Term, SymbolKind, uint16_mod, uint32_mod, unsorted, kind_value}
use richard_atp_engine.Core.SymbolTable.{SymbolTable, intern}
use richard_atp_engine.Core.SymbolTable.Laws as Symbols
use richard_atp_engine.Core.TermBank.{TermBank, TermKey, make_term, key_eq}
use richard_atp_engine.Core.TermBank.Laws.{Extends, Extends-refl, Extends-trans, key_of}
use richard_atp_engine.Infer.Renaming.{Engine}
use richard_atp_engine.Infer.Renaming.Fresh.{IsSound}
use richard_atp_engine.Frontend.Terms.{named_term, named_term-Named}
use richard_atp_engine.Frontend.Parser.{Parser}

-- Every term has fewer than 2¹⁶ arguments.
abbrev pub IsSmall : TermBank → Type 0
IsSmall b = (i : ℕ) (t : Term) → get_elem? b.terms i ≡ some t → length t.args < uint16_mod

pub IsSmall-Extends : {b c : TermBank} → Extends b c → IsSmall c → IsSmall b
IsSmall-Extends x small i t at = small i t (x.terms i t at)

-- Making terms does not look at the counter of variables.
abbrev pub at_bank : TermBank → Engine
at_bank b = record { bank = b; var_counter = 0 }

module _ (m : Machine) where
  intern-Extends :
      (t : SymbolTable) (name : List ℕ) (kind : SymbolKind) (arity sort : ℕ)
      → Post (λ r. Symbols.Extends t r.1) (intern m name kind arity sort t)
  unfolding intern
  intern-Extends t name kind arity sort = elim (Option-cases (find? name t.name_to_id)) [
    | inl new ↦
        rw (new, intern)
          (Post-if (leb m.capacity (length t.infos)) (λ _. fails)
            λ _. returns λ i x old. get_elem?-append t.infos _ i x old)
    | inr (id, known) ↦ elim (Option-cases (get_elem? t.infos id)) [
      | inl missing ↦ rw (known, intern) (rw missing fails)
      | inr (info, at) ↦
          rw (known, intern)
            (rw at (
              Post-if (not (kind_value info.kind == kind_value kind) || not (info.arity == arity))
                (λ _. fails) (λ _. returns λ i x old. old)))
    ]
  ]

  make_term-Extends :
      (symbol : ℕ) (args : List ℕ) (b : TermBank)
      → Post (λ r. Extends b r.1) (make_term m symbol args b)
  unfolding make_term
  make_term-Extends symbol args b =
      elim (Option-cases (find? (record { symbol = symbol; args = args }) b.term_to_id)) [
        | inl new ↦
            rw (new, make_term)
              (Post-if (leb m.capacity (length b.terms)) (λ _. fails)
                λ _. returns (record {
                  terms = λ i x old. get_elem?-append b.terms _ i x old;
                  symbols = λ i x old. old;
                }))
        | inr (id, known) ↦ rw (known, make_term) (returns (Extends-refl b))
      ]

  -- The request's arguments are those of a term of the new bank.
  make_term-IsSmall :
      (symbol : ℕ) (args : List ℕ) (b : TermBank)
      → ((key : TermKey) (i : ℕ)
          → find? key b.term_to_id ≡ some i
          → (t : Term) × (get_elem? b.terms i ≡ some t) × (key_of t ≡ key))
      → Post (λ r. IsSmall r.1 → length args < uint16_mod) (make_term m symbol args b)
  unfolding make_term
  make_term-IsSmall symbol args b found =
      elim (Option-cases (find? (record { symbol = symbol; args = args }) b.term_to_id)) [
        | inl new ↦
            rw (new, make_term)
              (Post-if (leb m.capacity (length b.terms)) (λ _. fails)
                λ _. returns λ small.
                  small (length b.terms) (record { symbol = symbol; args = args })
                    (get_elem?-append_last b.terms _))
        | inr (id, known) ↦
            let (t, at, named) = found (record { symbol = symbol; args = args }) id known in
            rw (known, make_term)
              (returns
                λ small. subst (λ (k : TermKey). length k.args < uint16_mod) named (small id t at))
      ]

  named_term-Extends :
      (name : List ℕ) (kind : SymbolKind) (args : List ℕ) (b : TermBank)
      → Post (λ r. Extends b r.1) (named_term m name kind args b)
  unfolding named_term
  named_term-Extends name kind args b =
      Post-bind (intern-Extends b.symbols name kind (length args % uint16_mod) unsorted)
        λ (id, table) x.
          Post-map (make_term-Extends id args (record b { symbols = table }))
            λ r y. record { terms = y.terms; symbols = λ i info h. y.symbols i info (x i info h) }

  named_term-IsSmall :
      (name : List ℕ) (kind : SymbolKind) (args : List ℕ) (b : TermBank)
      → IsSound (at_bank b)
      → Post (λ r. IsSmall r.1 → length args < uint16_mod) (named_term m name kind args b)
  unfolding named_term
  named_term-IsSmall name kind args b ok =
      Post-bind (Post-self (intern m name kind (length args % uint16_mod) unsorted b.symbols))
        λ (id, table) _. make_term-IsSmall id args (record b { symbols = table }) ok.bank.found

-- The names of the formula's variables, and their terms.
abbrev pub Cache : Type 0
Cache = List (List ℕ × ℕ)

pub record IsOk (b : TermBank) (cache : Cache) : Type 0 where
  pub sound : IsSound (at_bank b)
  pub cached : All (λ (entry : List ℕ × ℕ). entry.1 < length b.terms) cache

pub record Steps (p q : Parser) : Type 0 where
  pub extends : Extends p.bank q.bank
  pub keeps : IsSmall q.bank → IsOk p.bank p.variable_cache → IsOk q.bank q.variable_cache

-- A step with a result of which `P` holds then.
pub record Parsed {A : Type 0} (P : TermBank → A → Type 0) (p : Parser) (r : A × Parser)
    : Type 0 where
  pub steps : Steps p r.1
  pub value : IsSmall r.1.bank → IsOk p.bank p.variable_cache → P r.1.bank r.0

pub Steps-refl : (p : Parser) → Steps p p
Steps-refl p = record { extends = Extends-refl p.bank; keeps = λ _ ok. ok }

pub Steps-trans : {p q r : Parser} → Steps p q → Steps q r → Steps p r
Steps-trans s t = record {
  extends = Extends-trans s.extends t.extends;
  keeps = λ small ok. t.keeps small (s.keeps (IsSmall-Extends t.extends small) ok);
}

-- A result of a later step.
pub Parsed-after :
    {A : Type 0} {P : TermBank → A → Type 0} {p q : Parser} {r : A × Parser}
    → Steps p q
    → Parsed P q r
    → Parsed P p r
Parsed-after s x = record {
  steps = Steps-trans s x.steps;
  value = λ small ok. x.value small (s.keeps (IsSmall-Extends x.steps.extends small) ok);
}

-- A result that is kept through a later step.
pub Parsed-before :
    {A : Type 0} {P : TermBank → A → Type 0} {p q r : Parser} {a : A}
    → ((b c : TermBank) → Extends b c → P b a → P c a)
    → Parsed P p (a, q)
    → Steps q r
    → Parsed P p (a, r)
Parsed-before mono x s = record {
  steps = Steps-trans x.steps s;
  value = λ small ok. mono _ _ s.extends (x.value (IsSmall-Extends s.extends small) ok);
}

abbrev pub InTerms : TermBank → ℕ → Type 0
InTerms b id = id < length b.terms

module _ (m : Machine) (cap : m.capacity < uint32_mod) where
  -- A term from a name: its bank extends the old one, and is well-formed if small.
  pub named_term-Steps :
      (name : List ℕ) (kind : SymbolKind) (args : List ℕ) (b : TermBank)
      → Post
          (λ (id, c).
            Extends b c
            × (IsSmall c
                → IsSound (at_bank b)
                → All (λ a. a < length b.terms) args
                → IsSound (at_bank c) × (id < length c.terms)))
          (named_term m name kind args b)
  named_term-Steps name kind args b =
      Post-map (Post-with_eq (named_term-Extends m name kind args b)) λ (id, c) (run, x). (
        x,
        λ small ok below.
            let few = Post-done (named_term-IsSmall m name kind args b ok) run small in
            let named =
              Post-done (named_term-Named m name kind args (at_bank b) cap ok below few) run in
            (named.sound, named.inside),
      )
