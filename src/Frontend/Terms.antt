-- ===== src/Frontend/Terms.antt =====
-- How the parser makes a term: it interns the symbol and asks the bank for the term, for a
-- variable, a constant and an application alike.
pub mod Ends
use richard_atp_engine.Prelude.{
  ℕ, ◌<◌, ◌≡◌, ◌%◌, ◌∙◌, sym, some, get_elem?, List, length, All, subst, get_elem?-lt, Machine,
  Outcome, ◌>>=◌, Post, Post-bind, Post-map,
}
use native.Mathlib.Nat.{mod-eq_of_lt}
use richard_atp_engine.Core.Types.{Term, SymbolKind, unsorted, uint16_mod, uint32_mod}
use richard_atp_engine.Core.SymbolTable.{SymbolInfo, SymbolTable, intern}
use richard_atp_engine.Core.SymbolTable.Laws as Symbols
use richard_atp_engine.Core.TermBank.{TermBank, make_term}
use richard_atp_engine.Core.TermBank.Laws.{Fits, Extends, make_term-Made, with_symbols-IsWellFormed}
use richard_atp_engine.Infer.Renaming.{Engine}
use richard_atp_engine.Infer.Renaming.Fresh.{IsSound}

-- The last lines of the three branches of `parseTerm`.
unfoldable pub named_term :
    Machine → List ℕ → SymbolKind → List ℕ → TermBank → Outcome (ℕ × TermBank)
named_term m name kind args b = do
  (id, table) ← intern m name kind (length args % uint16_mod) unsorted b.symbols
  make_term m id args (record b { symbols = table })

-- The new state, and the term in it: its symbol has the name, the kind and the number of arguments
-- that were asked for, and its arguments are those that were given.
pub record Named (e : Engine) (name : List ℕ) (kind : SymbolKind) (args : List ℕ) (r : ℕ × TermBank)
    : Type 0 where
  pub sound : IsSound (record e { bank = r.1 })
  pub extends : Extends e.bank r.1
  pub inside : r.0 < length r.1.terms
  pub symbol : ℕ
  pub at : get_elem? r.1.terms r.0 ≡ some (record { symbol = symbol; args = args })
  pub info : SymbolInfo
  pub symbol_at : get_elem? r.1.symbols.infos symbol ≡ some info
  pub has_name : info.name ≡ name
  pub has_kind : info.kind ≡ kind
  pub has_arity : info.arity ≡ length args

-- Under a capacity below 2³², for a name and fewer than 2¹⁶ terms of the bank of a well-formed
-- engine: if interning the name and making the term return, then the identifier is that of a term
-- with exactly these arguments, whose symbol has this name, this kind and the number of arguments
-- as its arity. The bank and the symbol table are again well-formed, and no old term or symbol has
-- changed.
pub named_term-Named :
    (m : Machine) (name : List ℕ) (kind : SymbolKind) (args : List ℕ) (e : Engine)
    → m.capacity < uint32_mod
    → IsSound e
    → All (λ a. a < length e.bank.terms) args
    → length args < uint16_mod
    → Post (Named e name kind args) (named_term m name kind args e.bank)
unfolding named_term
named_term-Named m name kind args e cap ok below small =
    Post-bind
      (Symbols.intern-Interned e.bank.symbols ok.table m name kind (length args % uint16_mod)
        unsorted cap)
      λ (id, table) interned.
        let b = record e.bank { symbols = table } in
        let w = with_symbols-IsWellFormed e.bank table ok.bank interned.extends in
        let new_term : Term = record { symbol = id; args = args } in
        let fits : Fits table (length e.bank.terms) new_term = record {
          below = below;
          known = get_elem?-lt table.infos id interned.info interned.at;
          small = small;
        } in
        Post-map (make_term-Made b w m id args cap fits) λ (t, c) made. record {
          sound = record {
            bank = made.well_formed;
            table = subst Symbols.IsValid (sym made.same_symbols) interned.valid;
          };
          extends = record {
            terms = made.extends.terms;
            symbols = λ i info h. made.extends.symbols i info (interned.extends i info h);
          };
          inside = get_elem?-lt c.terms t new_term made.at;
          symbol = id;
          at = made.at;
          info = interned.info;
          symbol_at =
              subst (λ (u : SymbolTable). get_elem? u.infos id ≡ some interned.info)
                (sym made.same_symbols) interned.at;
          has_name = interned.has_name;
          has_kind = interned.has_kind;
          has_arity = interned.has_arity ∙ mod-eq_of_lt small;
        }
