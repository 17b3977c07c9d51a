-- ===== src/Core/SymbolTable/RoundTrip.antt =====
-- src/core/symbol_table.cc: a name goes into the table and comes out again.
use richard_atp_engine.Prelude.{ℕ, ◌<◌, ◌≡◌, refl, ⊎_elim, subst, List, Machine, done, Post-done}
use richard_atp_engine.Core.Types.{SymbolKind, uint32_mod}
use richard_atp_engine.Core.SymbolTable.{SymbolTable, intern, get_name}
use richard_atp_engine.Core.SymbolTable.Laws.{IsValid, intern-Interned, intern_known}

-- Under a capacity below 2³², in a valid table, the symbol that `intern` returns, new or known, has
-- by `getName` the name that was asked for, and the same request over the table that `intern`
-- leaves gives the same symbol and changes nothing.
pub intern_again :
    (t : SymbolTable) (m : Machine) (name : List ℕ) (kind : SymbolKind) (arity sort : ℕ) (id : ℕ)
    (t' : SymbolTable)
    → IsValid t
    → m.capacity < uint32_mod
    → intern m name kind arity sort t ≡ done (id, t')
    → (get_name t' id ≡ done name) × (intern m name kind arity sort t' ≡ done (id, t'))
intern_again t m name kind arity sort id t' v small run =
    let x = Post-done (intern-Interned t v m name kind arity sort small) run in
    (
      rw (x.at, x.has_name) refl,
      subst (λ n. intern m n kind arity sort t' ≡ done (id, t')) x.has_name
          (⊎_elim (λ (_, _, same). same) (λ (differ, _). absurd (differ (x.has_kind, x.has_arity)))
            (intern_known t' m id x.info kind arity sort x.valid x.at)),
    )
