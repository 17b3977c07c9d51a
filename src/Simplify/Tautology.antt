-- ===== src/Simplify/Tautology.antt =====
-- src/simplify/tautology.cc: a clause with a literal and its complement.
pub mod Laws
use richard_atp_engine.Prelude.{ℕ, Bool, true, false, ◌&&◌, not, List, [], ◌∷◌, ◌==◌, if◌then◌else◌}
use richard_atp_engine.Core.Types.{Literal, Clause, same_polarity}

-- The test of the inner loop.
abbrev pub complementary : Literal → Literal → Bool
complementary k l = (k.atom == l.atom) && not (same_polarity k.is_positive l.is_positive)

-- The inner loop, over the literals after the first of the pair.
unfoldable pub has_complement : Literal → List Literal → Bool
has_complement k [] = false
has_complement k (l ∷ ls) = if complementary k l then true else has_complement k ls

-- The outer loop.
unfoldable pub has_pair : List Literal → Bool
has_pair [] = false
has_pair (k ∷ ls) = if has_complement k ls then true else has_pair ls

-- `isTautology`.
unfoldable pub is_tautology : Clause → Bool
is_tautology c = has_pair c.literals
