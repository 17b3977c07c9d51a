-- ===== src/Infer/Unification/Budget.antt =====
-- A larger bank takes more fuel.
use richard_atp_engine.Prelude.{ℕ, zero, suc, ◌≤◌, arith}
use richard_atp_engine.Core.TermBank.{key_eq}
use richard_atp_engine.Infer.Unification.Heights.{doubled, doubled_mono}
use richard_atp_engine.Infer.Unification.Fuel.{rounds, height_limit, enough_for}

doubled-le : (k a c : ℕ) → a ≤ c → doubled k a ≤ doubled k c
unfolding doubled
doubled-le zero a c h = h
doubled-le (suc k) a c h = omega (arith, doubled-le k a c h)

height_limit-le : (a c : ℕ) → a ≤ c → height_limit a ≤ height_limit c
unfolding height_limit
height_limit-le a c h = omega (arith, doubled-le a a c h, doubled_mono a c c h)

rounds-le : (j k a c : ℕ) → j ≤ k → a ≤ c → rounds j a ≤ rounds k c
unfolding rounds
rounds-le zero k a c h l = omega arith
rounds-le (suc j) zero a c h l = absurd (omega arith)
rounds-le (suc j) (suc k) a c h l = omega (arith, rounds-le j k a c (omega arith) l)

pub enough_for-le : (a c : ℕ) → a ≤ c → enough_for a ≤ enough_for c
unfolding enough_for
enough_for-le a c h =
    rounds-le (suc a) (suc c) (height_limit a) (height_limit c) (omega arith)
      (height_limit-le a c h)

pub height_limit-enough_for : (n : ℕ) → height_limit n ≤ enough_for n
unfolding enough_for rounds
height_limit-enough_for n = omega arith
