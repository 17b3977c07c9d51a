-- ===== src/Simplify.antt =====
-- src/simplify: which clauses need not be kept.
pub mod Subsumption
pub mod Tautology
