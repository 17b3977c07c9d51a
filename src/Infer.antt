-- ===== src/Infer.antt =====
-- Substitutions, unification, resolution and factoring (include/atp/infer, src/infer).
pub mod Substitution
pub mod Unification
pub mod Renaming
pub mod Resolution
