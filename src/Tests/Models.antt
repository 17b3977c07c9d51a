-- ===== src/Tests/Models.antt =====
-- A structure in which p holds of every element, and clauses that are valid there.
use richard_atp_engine.Prelude.{refl, [], ◌∷◌, Bool, true, false, inl, inr, ◌==◌, arith}
use richard_atp_engine.Core.Types.{Clause, new_clause}
use richard_atp_engine.Semantics.{Structure, Valid, value, value_to}
use richard_atp_engine.Infer.Resolution.Resolvent.{FollowsFrom}
use richard_atp_engine.Tests.Samples.{p_engine, unit}

-- Symbol 2 is p.
abbrev pub p_holds : Structure
p_holds = record { Carrier = Bool; point = false; apply = λ s args. s == 2; truth = λ x. x }

-- The clause p(X).
abbrev pub p_x : Clause
p_x = unit 2 true

-- The clause ¬p(a) ∨ p(X).
abbrev pub either : Clause
either = record new_clause {
  literals =
      record { atom = 3; is_positive = false } ∷ record { atom = 2; is_positive = true } ∷ [];
}

-- The clause p(X) ∨ p(a).
abbrev pub both : Clause
both = record new_clause {
  literals = record { atom = 2; is_positive = true } ∷ record { atom = 3; is_positive = true } ∷ [];
}

pub p_x-Valid : Valid p_holds p_engine.bank p_x.literals
unfolding value value_to
p_x-Valid v = inl refl

pub p_x-FollowsFrom : FollowsFrom p_holds p_engine p_x.literals
p_x-FollowsFrom = record { inside = (omega arith, tt); valid = p_x-Valid }

pub either-FollowsFrom : FollowsFrom p_holds p_engine either.literals
unfolding value value_to
either-FollowsFrom = record {
  inside = (omega arith, (omega arith, tt));
  valid = λ v. inr (inl refl);
}

pub both-FollowsFrom : FollowsFrom p_holds p_engine both.literals
unfolding value value_to
both-FollowsFrom = record { inside = (omega arith, (omega arith, tt)); valid = λ v. inl refl }
