-- ===== src/Tests.antt =====
-- Concrete runs, and the theorems at concrete inputs.
mod Samples
mod Models
mod Inferences
mod Simplifying
mod Loop
mod Parsing
mod OccursCheck
mod Refute
mod ProgramRun
mod Total
mod Trees
