-- ===== src/Simplify/Subsumption.antt =====
-- src/simplify/subsumption.cc: a clause whose literals all occur in another makes it superfluous.
-- The literals are compared as they are, with no substitution.
pub mod Laws
use richard_atp_engine.Prelude.{ℕ, Bool, true, false, ◌&&◌, List, [], ◌∷◌, ◌==◌, ltb, if◌then◌else◌}
use richard_atp_engine.Core.Types.{Literal, Clause, same_polarity, size}

-- The test of the inner loop.
abbrev pub same_literal : Literal → Literal → Bool
same_literal g s = (g.atom == s.atom) && same_polarity g.is_positive s.is_positive

-- The inner loop, which stops at the first literal that is the same.
unfoldable pub occurs : Literal → List Literal → Bool
occurs g [] = false
occurs g (s ∷ ss) = if same_literal g s then true else occurs g ss

-- The outer loop, which stops at the first literal that does not occur.
unfoldable pub all_occur : List Literal → List Literal → Bool
all_occur [] ss = true
all_occur (g ∷ gs) ss = if occurs g ss then all_occur gs ss else false

-- `subsumes`.
unfoldable pub subsumes : Clause → Clause → Bool
subsumes general specific =
    if ltb (size specific) (size general)
    then false
    else all_occur general.literals specific.literals
