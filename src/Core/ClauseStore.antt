-- ===== src/Core/ClauseStore.antt =====
-- src/core/clause_store.cc: the store owns all clauses and numbers them.
pub mod Laws
use richard_atp_engine.Prelude.{
  ℕ, List, [], ◌∷◌, ◌++◌, ◌%◌, length, get_elem?, leb, if◌then◌else◌, Outcome, done, failed,
  bad_alloc, expect_some, Machine,
}
use richard_atp_engine.Core.Types.{Clause, uint32_mod}

-- `clauses_`.
abbrev pub ClauseStore : Type 0
ClauseStore = List Clause

-- `ClauseStore::addClause`.
unfoldable pub add_clause : Machine → Clause → ClauseStore → Outcome (ℕ × ClauseStore)
add_clause m clause s =
    let new_id = length s % uint32_mod in
    if leb m.capacity (length s)
    then failed bad_alloc
    else done (new_id, s ++ record clause { id = new_id } ∷ [])

-- `ClauseStore::getClause`, and `getMutableClause`, which nothing in the program writes through.
abbrev pub get_clause : ClauseStore → ℕ → Outcome Clause
get_clause s id = expect_some (get_elem? s id)
