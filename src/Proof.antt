-- ===== src/Proof.antt =====
-- src/proof: from a refutation in the clause store to its text.
pub mod Trace
pub mod Text
