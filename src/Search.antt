-- ===== src/Search.antt =====
-- The given-clause loop (include/atp/search, src/search).
pub mod ClauseQueue
pub mod Prover
