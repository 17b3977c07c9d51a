-- ===== src/Core.antt =====
-- The data that the prover works on: symbols, hash-consed terms and clauses (include/atp/core,
-- src/core).
pub mod Types
pub mod SymbolTable
pub mod TermBank
pub mod ClauseStore
