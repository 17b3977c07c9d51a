-- ===== src/Tests/Inferences.antt =====
-- The inference rules at concrete clauses over p(X) and p(a).
use richard_atp_engine.Prelude.{
  find?-cons_ne, sym, ℕ_eq, ◌∙◌, ℕ, ◌≡◌, refl, zero, suc, subst, ◌<◌, [], ◌∷◌, Bool, true, false,
  none, some, ◌==◌, arith, Post,
}
use richard_atp_engine.Semantics.{value}
use richard_atp_engine.Infer.Substitution.{apply_substitution, occurs_in}
use richard_atp_engine.Infer.Substitution.Resolve.{InRange, Solves}
use richard_atp_engine.Infer.Substitution.Apply.{Applied, apply_substitution-Applied}
use richard_atp_engine.Infer.Unification.{UnificationConfig, unify, bind_variable}
use richard_atp_engine.Infer.Unification.Occurs.{occurs_in-false}
use richard_atp_engine.Infer.Unification.Bind.{bind_variable-Extended, Extended}
use richard_atp_engine.Infer.Unification.Sound.{unify-Unified, Unified}
use richard_atp_engine.Infer.Renaming.{rename_variables}
use richard_atp_engine.Infer.Renaming.Sound.{Renamed, rename_variables-Renamed}
use richard_atp_engine.Infer.Resolution.{resolve_clauses, all_resolvents, factor}
use richard_atp_engine.Infer.Resolution.Resolvent.{Inferred, no_bindings}
use richard_atp_engine.Infer.Resolution.Sound.{
  InferredAll, resolve_clauses-Inferred, all_resolvents-Inferred,
}
use richard_atp_engine.Infer.Resolution.Factor.{factor-Inferred}
use richard_atp_engine.Core.TermBank.{is_variable}
use richard_atp_engine.Core.TermBank.Laws.{Extends-refl}
use richard_atp_engine.Tests.Samples.{
  machine, machine_fits, machine_walks, p_engine, p_engine-IsSound,
}
use richard_atp_engine.Tests.Models.{
  p_holds, p_x, either, both, p_x-FollowsFrom, either-FollowsFrom, both-FollowsFrom,
}

abbrev pub checking : UnificationConfig
checking = record { enable_occurs_check = true }

pub nothing_bound : InRange [] p_engine.bank
nothing_bound x t h = cc

resolve_clauses-Inferred_example :
    Post (Inferred p_holds p_engine) (resolve_clauses machine checking p_x 0 either 0 p_engine)
resolve_clauses-Inferred_example =
    resolve_clauses-Inferred p_holds machine machine_fits machine_walks checking refl p_x 0 either 0
      p_engine p_engine-IsSound p_x-FollowsFrom either-FollowsFrom

all_resolvents-Inferred_example :
    Post (InferredAll p_holds p_engine) (all_resolvents machine checking p_x either p_engine)
all_resolvents-Inferred_example =
    all_resolvents-Inferred p_holds machine machine_fits machine_walks checking refl p_x either
      p_engine p_engine-IsSound p_x-FollowsFrom either-FollowsFrom

factor-Inferred_example :
    Post
      (λ (r, b'). InferredAll p_holds p_engine (r, record { bank = b'; var_counter = 0 }))
      (factor machine checking both p_engine.bank)
factor-Inferred_example =
    factor-Inferred p_holds machine machine_fits checking refl 0 both p_engine.bank p_engine-IsSound
      both-FollowsFrom

unify-Unified_example :
    Post (Unified p_holds p_engine.bank [] 2 3) (unify machine checking p_engine.bank 30 2 3 [])
unify-Unified_example =
    unify-Unified p_holds machine checking refl p_engine.bank p_engine-IsSound.bank 30 2 3 []
      (omega arith) (omega arith) nothing_bound (no_bindings p_holds p_engine.bank)

-- The value of X is changed; p(a) has none.
occurs_in-false_example :
    Post
      (λ hit.
        hit ≡ false
        → value p_holds p_engine.bank ((no_bindings p_holds p_engine.bank).extend (λ y. false)) 3
          ≡ value p_holds p_engine.bank
              ((no_bindings p_holds p_engine.bank).extend (λ y. y == 0))
              3)
      (occurs_in machine 30 [] p_engine.bank 0 3)
occurs_in-false_example =
    occurs_in-false p_holds machine [] p_engine.bank p_engine-IsSound.bank nothing_bound
      (no_bindings p_holds p_engine.bank) 0 (λ y. false) (λ y. y == 0) (λ y h. ground arith) 30 3
      (omega arith)

bind_variable-Extended_example :
    Post
      (λ (ok, s').
        ok ≡ true
        → Extended p_holds p_engine.bank [] s'
          × ((v : ℕ → Bool)
              → Solves p_holds p_engine.bank s' v
              → v 0 ≡ value p_holds p_engine.bank v 1))
      (bind_variable machine checking p_engine.bank 0 1 [])
unfolding is_variable
bind_variable-Extended_example =
    bind_variable-Extended p_holds machine p_engine.bank p_engine-IsSound.bank [] nothing_bound
      (no_bindings p_holds p_engine.bank) 0 1 (omega arith) (omega arith) refl refl checking refl

-- X is bound to a.
nothing_found : (t : ℕ) → none ≡ some t → ⊥
nothing_found t h = cc

bound_term : (t u : ℕ) → some t ≡ some u → t ≡ u
bound_term t u h = cc

pub x_to_a : InRange ((0, 1) ∷ []) p_engine.bank
unfolding is_variable
x_to_a zero t h = (refl, omega arith, subst (λ n. n < 4) (bound_term 1 t h) (omega arith))
x_to_a (suc x) t h =
    absurd (nothing_found t (sym (find?-cons_ne 0 (suc x) 1 [] (λ e. omega (arith, e))) ∙ h))

apply_substitution-Applied_example :
    Post
      (Applied machine machine_fits
        ((0, 1) ∷ [])
        p_engine.bank
        p_engine-IsSound.bank
        x_to_a
        p_engine.bank
        2)
      (apply_substitution machine 30 ((0, 1) ∷ []) 2 p_engine.bank)
apply_substitution-Applied_example =
    apply_substitution-Applied machine machine_fits ((0, 1) ∷ []) p_engine.bank
      p_engine-IsSound.bank x_to_a 30 2 p_engine.bank
      (record {
        well_formed = p_engine-IsSound.bank;
        extends = Extends-refl p_engine.bank;
        same_symbols = refl;
      })
      (omega arith)

rename_variables-Renamed_example :
    Post (Renamed p_engine both) (rename_variables machine both p_engine)
rename_variables-Renamed_example =
    rename_variables-Renamed machine machine_fits machine_walks both p_engine p_engine-IsSound
      both-FollowsFrom.inside
