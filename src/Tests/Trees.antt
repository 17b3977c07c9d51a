-- ===== src/Tests/Trees.antt =====
-- Terms without variables as a free structure, and the most general unifier of p(X) and p(a).
use richard_atp_engine.Prelude.{
  ℕ, suc, ◌+◌, ◌≡◌, ◌<◌, refl, ap, List, [], ◌∷◌, true, false, All, All-map_pred, Returns, arith,
}
use richard_atp_engine.Semantics.{Structure, value, value_to}
use richard_atp_engine.Infer.Substitution.Resolve.{Solves}
use richard_atp_engine.Infer.Unification.{unify}
use richard_atp_engine.Infer.Unification.Heights.{doubled}
use richard_atp_engine.Infer.Unification.Fuel.{height_limit, enough_for, rounds}
use richard_atp_engine.Infer.Unification.Contained.{IsFree}
use richard_atp_engine.Infer.Unification.General.{unify_general}
use richard_atp_engine.Tests.Samples.{p_engine, p_engine-IsSound}
use richard_atp_engine.Tests.Inferences.{checking}
use richard_atp_engine.Tests.Total.{deep_machine}

-- A symbol behind the arguments that it has.
data Tree : Type 0 where
  symbol : ℕ → Tree
  argument : Tree → Tree → Tree

abbrev node : ℕ → List Tree → Tree
node f [] = symbol f
node f (x ∷ xs) = argument x (node f xs)

abbrev weight : Tree → ℕ
weight (symbol f) = 0
weight (argument x rest) = suc (weight x + weight rest)

abbrev trees : Structure
trees = record { Carrier = Tree; point = symbol 0; apply = node; truth = λ t. false }

node_injective : (f g : ℕ) (xs ys : List Tree) → node f xs ≡ node g ys → (f ≡ g) × (xs ≡ ys)
node_injective f g [] [] e = (ap name e, refl)
  where
    name : Tree → ℕ
    name (symbol h) = h
    name (argument x rest) = f
node_injective f g [] (y ∷ ys) e = cc
node_injective f g (x ∷ xs) [] e = cc
node_injective f g (x ∷ xs) (y ∷ ys) e =
    let (same, others) = node_injective f g xs ys (ap others_of e) in
    (same, λ i. first_of (e i) ∷ others i)
  where
    first_of : Tree → Tree
    first_of (symbol h) = x
    first_of (argument z rest) = z

    others_of : Tree → Tree
    others_of (symbol h) = symbol h
    others_of (argument z rest) = rest

weight-lt : (f : ℕ) (xs : List Tree) → All (λ x. weight x < weight (node f xs)) xs
weight-lt f [] = tt
weight-lt f (x ∷ xs) = (
  omega arith,
  All-map_pred xs (λ y (h : weight y < weight (node f xs)). omega arith) (weight-lt f xs),
)

trees-IsFree : IsFree trees
trees-IsFree = record { injective = node_injective; size = weight; smaller = weight-lt }

-- X stands for a.
abbrev x_is_a : ℕ → Tree
x_is_a y = symbol 1

same_value : value trees p_engine.bank x_is_a 2 ≡ value trees p_engine.bank x_is_a 3
unfolding value value_to
same_value = refl

unify_general_example :
    Returns
      (λ (ok, s). (ok ≡ true) × Solves trees p_engine.bank s x_is_a)
      (unify deep_machine checking p_engine.bank 400 2 3 [])
unfolding height_limit enough_for rounds doubled
unify_general_example =
    unify_general trees trees-IsFree deep_machine checking refl p_engine.bank p_engine-IsSound.bank
      x_is_a (omega arith) 400 2 3 (omega arith) (omega arith) (omega arith) same_value
