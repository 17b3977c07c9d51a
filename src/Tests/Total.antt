-- ===== src/Tests/Total.antt =====
-- The theorems on what returns, at concrete inputs.
use richard_atp_engine.Prelude.{
  ℕ, ◌≤◌, ◌≡◌, ◌≢◌, ◌<◌, refl, [], ◌∷◌, true, Machine, Ends, Returns, arith, done, inl, ℕ_eq,
}
use richard_atp_engine.Core.Types.{variable, uint32_mod}
use richard_atp_engine.Core.SymbolTable.{intern, get_name}
use richard_atp_engine.Core.TermBank.{is_variable}
use richard_atp_engine.Core.TermBank.Laws.{Extends-refl}
use richard_atp_engine.Core.SymbolTable.RoundTrip.{intern_again}
use richard_atp_engine.Semantics.{Structure}
use richard_atp_engine.Infer.Substitution.{
  Substitution, any_of, apply, apply_substitution, occurs_in, resolve,
}
use richard_atp_engine.Infer.Substitution.Apply.{Applied, Reached}
use richard_atp_engine.Infer.Substitution.Resolve.{InRange}
use richard_atp_engine.Infer.Substitution.Shortcut.{apply_same}
use richard_atp_engine.Infer.Substitution.Total.{apply_substitution-Ends}
use richard_atp_engine.Infer.Unification.{unify}
use richard_atp_engine.Infer.Unification.Sound.{Unified}
use richard_atp_engine.Infer.Unification.Heights.{IsGrounded, height, doubled, start-IsGrounded}
use richard_atp_engine.Infer.Unification.Grounded.{bound-IsGrounded}
use richard_atp_engine.Infer.Unification.Total.{unify-Returns}
use richard_atp_engine.Infer.Unification.Fuel.{height_limit, enough_for, rounds}
use richard_atp_engine.Infer.Substitution.Room.{IsRoomy}
use richard_atp_engine.Infer.Resolution.{factor}
use richard_atp_engine.Infer.Resolution.Total.{IsReady, factor-Ends}
use richard_atp_engine.Tests.Models.{both, both-FollowsFrom}
use richard_atp_engine.Tests.Samples.{machine, machine_fits, p_engine, p_engine-IsSound}
use richard_atp_engine.Tests.Inferences.{checking, x_to_a}

abbrev pub deep_machine : Machine
deep_machine = record machine { fuel = 100 }

unify-Returns_example :
    Returns
      (λ r.
        (r.0 ≡ true → IsGrounded p_engine.bank r.1)
        × ((M : Structure) → Unified M p_engine.bank [] 2 3 r))
      (unify deep_machine checking p_engine.bank 400 2 3 [])
unfolding height_limit enough_for rounds doubled
unify-Returns_example =
    unify-Returns deep_machine checking refl p_engine.bank p_engine-IsSound.bank (omega arith) 400 2
      3 (omega arith) (omega arith) (omega arith)

abbrev binding : Substitution
binding = (0, 1) ∷ []

x_apart : ◌≢◌ {A = ℕ} 0 1
x_apart e = omega (arith, e)

binding-IsGrounded : IsGrounded p_engine.bank binding
unfolding is_variable occurs_in any_of resolve
binding-IsGrounded =
    bound-IsGrounded machine p_engine.bank p_engine-IsSound.bank []
      (start-IsGrounded p_engine.bank p_engine-IsSound.bank) 0 1 (omega arith) (omega arith) refl
      refl (inl refl) x_apart refl

unchanged_bank :
    (in_range : InRange binding p_engine.bank)
    → Reached machine machine_fits binding p_engine.bank p_engine-IsSound.bank in_range
        p_engine.bank
unchanged_bank in_range = record {
  well_formed = p_engine-IsSound.bank;
  extends = Extends-refl p_engine.bank;
  same_symbols = refl;
}

low : height p_engine.bank binding binding-IsGrounded 2 < 30
unfolding doubled
low = omega (arith, binding-IsGrounded.grows (λ y. 0) 0 (λ y. omega arith) 2 (omega arith))

apply_substitution-Ends_example :
    Ends
      (Applied machine machine_fits binding p_engine.bank p_engine-IsSound.bank
        binding-IsGrounded.in_range p_engine.bank 2)
      (apply_substitution machine 30 binding 2 p_engine.bank)
apply_substitution-Ends_example =
    apply_substitution-Ends machine machine_fits binding p_engine.bank p_engine-IsSound.bank
      binding-IsGrounded (omega arith) 30 2 p_engine.bank
      (unchanged_bank binding-IsGrounded.in_range) (omega arith) low

apply_same_example :
    apply machine 30 binding 2 p_engine.bank ≡ apply_substitution machine 30 binding 2 p_engine.bank
apply_same_example =
    apply_same machine machine_fits binding p_engine.bank p_engine-IsSound.bank x_to_a 30 2
      p_engine.bank (unchanged_bank x_to_a) (omega arith)

intern_again_example :
    (get_name p_engine.bank.symbols 0 ≡ done (b'X' ∷ []))
    × (intern machine (b'X' ∷ []) variable 0 0 p_engine.bank.symbols
        ≡ done (0, p_engine.bank.symbols))
unfolding intern
intern_again_example =
    intern_again p_engine.bank.symbols machine (b'X' ∷ []) variable 0 0 0 p_engine.bank.symbols
      p_engine-IsSound.table machine_fits refl

-- A machine of which the fuel is enough for all that its containers can hold.
abbrev small_machine : Machine
small_machine = record machine { capacity = 6; fuel = 3000 }

small_machine_fits : small_machine.capacity < uint32_mod
small_machine_fits = omega arith

small_machine_deep : enough_for small_machine.capacity ≤ small_machine.fuel
unfolding height_limit enough_for rounds doubled
small_machine_deep = omega arith

factor-Ends_example :
    Ends
      (λ (r, b).
        IsReady small_machine small_machine_fits checking refl small_machine_deep p_engine.bank b)
      (factor small_machine checking both p_engine.bank)
unfolding IsRoomy
factor-Ends_example =
    factor-Ends small_machine small_machine_fits checking refl small_machine_deep both p_engine.bank
      p_engine-IsSound.bank (omega arith) both-FollowsFrom.inside
