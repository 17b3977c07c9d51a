-- ===== src/Frontend/Terms/Ends.antt =====
-- Making a term returns or throws, whatever the name and the arguments.
use richard_atp_engine.Prelude.{
  ℕ, ◌<◌, inl, inr, sym, subst, List, Option-cases, find?, ids_eq, ◌%◌, length, ◌==◌, ◌||◌, not,
  leb, Machine, Ends, gives, throws, Ends-bind, Ends-map, Ends-if, Ends-Post,
}
use richard_atp_engine.Core.Types.{SymbolKind, kind_value, uint32_mod, uint16_mod, unsorted}
use richard_atp_engine.Core.SymbolTable.{SymbolTable, intern}
use richard_atp_engine.Core.SymbolTable.Laws.{IsValid, intern-Interned}
use richard_atp_engine.Core.TermBank.{TermBank, key_eq}
use richard_atp_engine.Core.TermBank.Ends.{make_term-Ends}
use richard_atp_engine.Frontend.Terms.{named_term}

module _ (m : Machine) (cap : m.capacity < uint32_mod) where
  intern_in_bounds :
      (t : SymbolTable) (v : IsValid t) (name : List ℕ) (kind : SymbolKind) (arity sort : ℕ)
      → Ends (λ _. Unit {0}) (intern m name kind arity sort t)
  unfolding intern
  intern_in_bounds t v name kind arity sort = elim (Option-cases (find? name t.name_to_id)) [
    | inl new ↦
        rw (new, intern)
          (Ends-if (leb m.capacity (length t.infos)) (λ _. throws tt) (λ _. gives tt))
    | inr (id, known) ↦
        let (info, at, _) = v.found name id known in
        rw (known, intern)
          (rw at (
            Ends-if (not (kind_value info.kind == kind_value kind) || not (info.arity == arity))
              (λ _. throws tt) (λ _. gives tt)))
  ]

  -- With a valid table, `intern` reads nothing out of bounds.
  pub intern-Ends :
      (t : SymbolTable) (v : IsValid t) (name : List ℕ) (kind : SymbolKind) (arity sort : ℕ)
      → Ends (λ r. IsValid r.1) (intern m name kind arity sort t)
  intern-Ends t v name kind arity sort =
      Ends-map
        (Ends-Post (intern_in_bounds t v name kind arity sort)
          (intern-Interned t v m name kind arity sort cap))
        λ r (_, good). good.valid

  -- Over a valid symbol table, making a term returns or throws, and keeps the table valid.
  pub named_term-Ends :
      (name : List ℕ) (kind : SymbolKind) (args : List ℕ) (b : TermBank)
      → IsValid b.symbols
      → Ends (λ r. IsValid r.1.symbols) (named_term m name kind args b)
  unfolding named_term
  named_term-Ends name kind args b v =
      Ends-bind (intern-Ends b.symbols v name kind (length args % uint16_mod) unsorted)
        λ (id, table) valid.
          Ends-map (make_term-Ends m id args (record b { symbols = table }))
            λ r same. subst IsValid (sym same) valid
