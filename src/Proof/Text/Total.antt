-- ===== src/Proof/Text/Total.antt =====
-- src/proof/proof_trace.cc, `formatProof` and what it calls: it reads nothing out of bounds, and
-- the recursion over terms ends.
use richard_atp_engine.Prelude.{
  ℕ, zero, suc, ◌+◌, ◌<◌, ◌≤◌, ◌≡◌, refl, List, [], ◌∷◌, some, length, Outcome, done, ◌>>=◌, ◌==◌,
  if◌then◌else◌, Bool, true, false, All, All-get_elem?, get_elem?, get_elem?_of_lt, arith,
  expect_some, Option, Returns,
}
use richard_atp_engine.Core.Types.{Term, Literal, Clause, is_empty, is_variable_kind}
use richard_atp_engine.Core.SymbolTable.{get_name, is_variable_symbol}
use richard_atp_engine.Core.ClauseStore.{ClauseStore}
use richard_atp_engine.Core.TermBank.{TermBank, is_variable}
use richard_atp_engine.Semantics.Laws.{InBank}
use richard_atp_engine.Proof.Trace.{ProofStep}
use richard_atp_engine.Proof.Trace.Recorded.{IsRecord}
use richard_atp_engine.Proof.Text.{
  VarMap, term_to_pretty, pretty_each, name_variable, literals_to_string, clause_to_string,
  box_text, format_steps, format_proof,
}

-- The run returns.
abbrev pub Gives {ℓ} : {A : Type ℓ} → Outcome A → Type ℓ
Gives {A} o = (a : A) × (o ≡ done a)

Gives-bind {ℓ κ} :
    {A : Type ℓ} {B : Type κ} {o : Outcome A} {f : A → Outcome B}
    → Gives o
    → ((a : A) → Gives (f a))
    → Gives (o >>= f)
Gives-bind {f = f} (a, e) k = let (b, e') = k a in (b, rw e e')

Returns-bind {ℓ κ μ} :
    {A : Type ℓ} {P : A → Type κ} {B : Type μ} {o : Outcome A} {f : A → Outcome B}
    → Returns P o
    → ((a : A) → P a → Gives (f a))
    → Gives (o >>= f)
Returns-bind {f = f} (a, e, p) k = let (b, e') = k a p in (b, rw e e')

-- An access that stays in bounds.
Returns-expect_some {ℓ} :
    {A : Type ℓ} {o : Option A} (a : A) → o ≡ some a → Returns (λ b. o ≡ some b) (expect_some o)
Returns-expect_some a at = (a, rw at refl, at)

Gives-if {ℓ} :
    (b : Bool) {A : Type ℓ} {o o' : Outcome A} → Gives o → Gives o' → Gives (if b then o else o')
Gives-if true g h = g
Gives-if false g h = h

-- Each term stands above its arguments, and its symbol is in the table.
abbrev pub IsReadable : TermBank → Type 0
IsReadable b =
    (i : ℕ) (t : Term)
    → get_elem? b.terms i ≡ some t
    → All (λ a. a < i) t.args × (t.symbol < length b.symbols.infos)

module _ (b : TermBank) (readable : IsReadable b) where
  symbol_info :
      (id : ℕ) (t : Term)
      → get_elem? b.terms id ≡ some t
      → Gives (get_name b.symbols t.symbol) × Gives (is_variable_symbol b.symbols t.symbol)
  symbol_info id t at =
      let (info, e) = get_elem?_of_lt b.symbols.infos t.symbol (readable id t at).1 in
      ((info.name, rw e refl), (is_variable_kind info.kind, rw e refl))

  pretty_each-Gives :
      (print : ℕ → VarMap → Outcome (List ℕ × VarMap)) (args : List ℕ) (names : VarMap)
      → All (λ a. (names : VarMap) → Gives (print a names)) args
      → Gives (pretty_each print args names)
  unfolding pretty_each
  pretty_each-Gives print [] names h = (([], names), refl)
  pretty_each-Gives print (a ∷ args) names h = Gives-bind (h.0 names) λ (text, names₁).
      Gives-bind (pretty_each-Gives print args names₁ h.1) λ (rest, names₂). (_, refl)

  is_variable-Gives : (id : ℕ) (t : Term) → get_elem? b.terms id ≡ some t → Gives (is_variable b id)
  unfolding is_variable
  is_variable-Gives id t at =
      Returns-bind (Returns-expect_some t at) λ u at. (symbol_info id u at).1

  args_Give :
      (f id : ℕ) (args : List ℕ)
      → ((a : ℕ) (names : VarMap) → a < f → a < length b.terms → Gives (term_to_pretty f b a names))
      → id < suc f
      → id < length b.terms
      → All (λ a. a < id) args
      → All (λ a. (names : VarMap) → Gives (term_to_pretty f b a names)) args
  args_Give f id [] again small inside h = tt
  args_Give f id (a ∷ args) again small inside (below, h) = (
    λ names. again a names (omega (arith, below, small)) (omega (arith, below, inside)),
    args_Give f id args again small inside h,
  )

  -- The fuel is enough for a term that stands below it in the bank.
  term_to_pretty-Gives :
      (f id : ℕ) (names : VarMap)
      → id < f
      → id < length b.terms
      → Gives (term_to_pretty f b id names)
  unfolding term_to_pretty
  term_to_pretty-Gives zero id names small inside = absurd (omega arith)
  term_to_pretty-Gives (suc f) id names small inside =
      let (t, at) = get_elem?_of_lt b.terms id inside in
      Gives-bind (is_variable-Gives id t at) λ is_var.
        Gives-if is_var (name_variable id names, refl)
          (Returns-bind (Returns-expect_some t at) λ t at.
            Gives-bind (symbol_info id t at).0 λ name.
              Gives-if (length t.args == 0) ((name, names), refl)
                (Gives-bind
                  (pretty_each-Gives (term_to_pretty f b) t.args names (
                    args_Give f id t.args (term_to_pretty-Gives f) small inside
                      (readable id t at).0))
                  λ (args, names'). (_, refl)))

  literals_to_string-Gives :
      (f : ℕ) (ls : List Literal) (names : VarMap)
      → length b.terms ≤ f
      → InBank b ls
      → Gives (literals_to_string f b ls names)
  unfolding literals_to_string
  literals_to_string-Gives f [] names enough h = ([], refl)
  literals_to_string-Gives f (l ∷ ls) names enough (inside, h) =
      Gives-bind (term_to_pretty-Gives f l.atom names (omega (arith, inside, enough)) inside)
        λ (atom, names').
          Gives-bind (literals_to_string-Gives f ls names' enough h) λ rest. (_, refl)

  clause_to_string-Gives :
      (f : ℕ) (c : Clause)
      → length b.terms ≤ f
      → InBank b c.literals
      → Gives (clause_to_string f c b)
  unfolding clause_to_string
  clause_to_string-Gives f c enough h =
      Gives-if (is_empty c) (box_text, refl) (literals_to_string-Gives f c.literals [] enough h)

  module _ (s : ClauseStore) (inside : All (λ (c : Clause). InBank b c.literals) s) where
    format_steps-Gives :
        (f : ℕ) (ids : List (ℕ × ℕ)) (steps : List ProofStep) (i : ℕ)
        → length b.terms ≤ f
        → All (IsRecord s) steps
        → Gives (format_steps f s b ids steps i)
    unfolding format_steps
    format_steps-Gives f ids [] i enough h = ([], refl)
    format_steps-Gives f ids (p ∷ steps) i enough ((c, at, _, _, _), h) =
        Returns-bind (Returns-expect_some c at) λ c at.
          let atoms =
            All-get_elem? (λ (c : Clause). InBank b c.literals) s p.clause_id c inside at in
          Gives-bind (clause_to_string-Gives f c enough atoms)
            λ clause. Gives-bind (format_steps-Gives f ids steps (i + 1) enough h) λ rest. (_, refl)

    -- If the atoms of the clauses are in the bank, and the fuel is at least the number of its
    -- terms, then `formatProof` returns a text for steps that record clauses of the store.
    pub format_proof-Gives :
        (f : ℕ) (steps : List ProofStep)
        → length b.terms ≤ f
        → All (IsRecord s) steps
        → Gives (format_proof f steps s b)
    unfolding format_proof
    format_proof-Gives f steps enough h = format_steps-Gives f _ steps 0 enough h
