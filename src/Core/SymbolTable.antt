-- ===== src/Core/SymbolTable.antt =====
-- src/core/symbol_table.cc: names are interned, and each symbol has a kind, an arity and a sort.
-- A name is the list of its bytes.
pub mod Laws
pub mod RoundTrip
use richard_atp_engine.Prelude.{
  ℕ, Bool, ◌||◌, not, List, [], ◌∷◌, ◌++◌, ◌%◌, Option, none, some, length, get_elem?, find?,
  emplace, ids_eq, ◌==◌, leb, if◌then◌else◌, Outcome, done, failed, ◌>>=◌, mismatch, bad_alloc,
  expect_some, Machine,
}
use richard_atp_engine.Core.Types.{SymbolKind, kind_value, is_variable_kind, uint32_mod}

pub record SymbolInfo : Type 0 where
  pub name : List ℕ
  pub kind : SymbolKind
  pub arity : ℕ
  pub sort : ℕ

pub record SymbolTable : Type 0 where
  pub infos : List SymbolInfo
  pub name_to_id : List (List ℕ × ℕ)

abbrev pub empty_table : SymbolTable
empty_table = record { infos = []; name_to_id = [] }

-- The identifier of a name that is there, if its kind and its arity are the ones asked for.
abbrev pub check_known : SymbolTable → ℕ → SymbolKind → ℕ → Outcome (ℕ × SymbolTable)
check_known t id kind arity = do
  info ← expect_some (get_elem? t.infos id)
  if not (kind_value info.kind == kind_value kind) || not (info.arity == arity)
      then failed mismatch
      else done (id, t)

-- A new entry at the end of `infos_`, and the name's identifier.
abbrev pub add_symbol : Machine → SymbolTable → SymbolInfo → Outcome (ℕ × SymbolTable)
add_symbol m t info =
    let new_id = length t.infos % uint32_mod in
    if leb m.capacity (length t.infos)
    then failed bad_alloc
    else done (
      new_id,
      record { infos = t.infos ++ info ∷ []; name_to_id = emplace info.name new_id t.name_to_id },
    )

-- `SymbolTable::intern`.
unfoldable pub intern :
    Machine → List ℕ → SymbolKind → ℕ → ℕ → SymbolTable → Outcome (ℕ × SymbolTable)
intern m name kind arity sort t = elim (find? name t.name_to_id) [
  | some id ↦ check_known t id kind arity
  | none ↦ add_symbol m t (record { name = name; kind = kind; arity = arity; sort = sort })
]

-- `SymbolTable::getInfo`.
abbrev pub get_info : SymbolTable → ℕ → Outcome SymbolInfo
get_info t id = expect_some (get_elem? t.infos id)

-- `SymbolTable::getName`.
abbrev pub get_name : SymbolTable → ℕ → Outcome (List ℕ)
get_name t id = do info ← get_info t id; done info.name

-- `SymbolTable::isVariable`.
abbrev pub is_variable_symbol : SymbolTable → ℕ → Outcome Bool
is_variable_symbol t id = do info ← get_info t id; done (is_variable_kind info.kind)
