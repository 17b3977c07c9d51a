-- ===== src/Infer/Resolution/Total.antt =====
-- With the occurs check on, factoring ends, on a machine whose fuel is enough for as many terms as a
-- container can hold.
use richard_atp_engine.Prelude.{
  ℕ, suc, ◌≤◌, ◌<◌, ◌≡◌, refl, true, not, List, [], ◌∷◌, All-erase_idx, length, erase_idx, Machine,
  Ends, gives, Ends-bind, Ends-if, Ends-Post, arith,
}
use richard_atp_engine.Core.Types.{Literal, Clause, uint32_mod, same_polarity}
use richard_atp_engine.Core.TermBank.{TermBank, key_eq}
use richard_atp_engine.Core.TermBank.Laws.{
  IsWellFormed, Extends, Extends-refl, Extends-trans, Extends-lt,
}
use richard_atp_engine.Semantics.Laws.{InBank, Extends-InBank}
use richard_atp_engine.Infer.Substitution.{Substitution}
use richard_atp_engine.Infer.Substitution.Apply.{Reached}
use richard_atp_engine.Infer.Substitution.Total.{apply_substitution-Ends}
use richard_atp_engine.Infer.Unification.{UnificationConfig}
use richard_atp_engine.Infer.Unification.Heights.{IsGrounded}
use richard_atp_engine.Infer.Unification.Fuel.{height_limit, enough_for, height-lt, room_for_chain}
use richard_atp_engine.Infer.Unification.Total.{unify-Returns}
use richard_atp_engine.Infer.Renaming.{apply_literals}
use richard_atp_engine.Infer.Resolution.{factor_pair, factors_at, factors_from, factor}
use richard_atp_engine.Infer.Unification.Budget.{enough_for-le, height_limit-enough_for}
use richard_atp_engine.Infer.Substitution.Room.{IsRoomy, apply_substitution-IsRoomy}

module _ (m : Machine) (cap : m.capacity < uint32_mod) (config : UnificationConfig)
    (on : config.enable_occurs_check ≡ true) (deep : enough_for m.capacity ≤ m.fuel) where
  -- The bank `b` is well-formed, not too large, and extends `a`.
  pub record IsReady (a b : TermBank) : Type 0 where
    pub well_formed : IsWellFormed b
    pub roomy : IsRoomy m b
    pub extends : Extends a b

  enough : (b : TermBank) → IsRoomy m b → enough_for (length b.terms) ≤ m.fuel
  unfolding IsRoomy
  enough b h = omega (arith, enough_for-le (length b.terms) m.capacity h, deep)

  enough_height : (b : TermBank) → IsRoomy m b → height_limit (length b.terms) ≤ m.fuel
  enough_height b h = omega (arith, enough b h, height_limit-enough_for (length b.terms))

  module _ (b : TermBank) (w : IsWellFormed b) (roomy : IsRoomy m b) (s : Substitution)
      (g : IsGrounded b s) where
    apply_literals-IsReady :
        (ls : List Literal) (c : TermBank)
        → Reached m cap s b w g.in_range c
        → IsRoomy m c
        → InBank b ls
        → Ends (λ (ls', d). IsReady c d) (apply_literals m s ls c)
    unfolding apply_literals
    apply_literals-IsReady [] c ok room h =
        gives (record { well_formed = ok.well_formed; roomy = room; extends = Extends-refl c })
    apply_literals-IsReady (l ∷ ls) c ok room h =
        let short = room_for_chain m config on b w (enough_height b roomy) s g in
        let low = height-lt m config on b w (enough_height b roomy) s g l.atom h.0 in
        Ends-bind
          (Ends-Post
            (apply_substitution-Ends m cap s b w g short m.fuel l.atom c ok h.0
              (omega (arith, low, enough_height b roomy)))
            (apply_substitution-IsRoomy m s m.fuel l.atom c room))
          λ (a, d) (first, room₁).
            Ends-bind (apply_literals-IsReady ls d first.reached room₁ h.1) λ (atoms, e) rest.
              gives (record {
                well_formed = rest.well_formed;
                roomy = rest.roomy;
                extends = Extends-trans first.extends rest.extends;
              })

  IsReady-refl : (b : TermBank) → IsWellFormed b → IsRoomy m b → IsReady b b
  IsReady-refl b w room = record { well_formed = w; roomy = room; extends = Extends-refl b }

  factor_pair-Ends :
      (c : Clause) (li lj : Literal) (j : ℕ) (b : TermBank)
      → IsWellFormed b
      → IsRoomy m b
      → InBank b c.literals
      → li.atom < length b.terms
      → lj.atom < length b.terms
      → Ends (λ (r, b'). IsReady b b') (factor_pair m config c li lj j b)
  unfolding factor_pair
  factor_pair-Ends c li lj j b w room h hi hj =
      let ((ok, s), run, (grounded, _)) =
        unify-Returns m config on b w (enough_height b room) m.fuel li.atom lj.atom hi hj
          (enough b room) in
      rw (factor_pair, run)
        (Ends-if ok
          (λ good.
            Ends-bind
              (apply_literals-IsReady b w room s (grounded good) (erase_idx c.literals j) b
                (record { well_formed = w; extends = Extends-refl b; same_symbols = refl }) room
                (All-erase_idx _ c.literals j h))
              λ (ls, b₁) ready. gives ready)
          (λ _. gives (IsReady-refl b w room)))

  factors_at-Ends :
      (c : Clause) (li : Literal) (ls : List Literal) (j : ℕ) (b : TermBank)
      → IsWellFormed b
      → IsRoomy m b
      → InBank b c.literals
      → li.atom < length b.terms
      → InBank b ls
      → Ends (λ (r, b'). IsReady b b') (factors_at m config c li ls j b)
  unfolding factors_at
  factors_at-Ends c li [] j b w room h hi hs = gives (IsReady-refl b w room)
  factors_at-Ends c li (lj ∷ ls) j b w room h hi hs =
      Ends-if (not (same_polarity li.is_positive lj.is_positive))
        (λ _. factors_at-Ends c li ls (suc j) b w room h hi hs.1)
        (λ _. Ends-bind (factor_pair-Ends c li lj j b w room h hi hs.0) λ (r, b₁) ready.
          Ends-bind
            (factors_at-Ends c li ls (suc j) b₁ ready.well_formed ready.roomy
              (Extends-InBank c.literals ready.extends h) (Extends-lt ready.extends hi)
              (Extends-InBank ls ready.extends hs.1))
            λ (rs, b₂) more. gives (record {
              well_formed = more.well_formed;
              roomy = more.roomy;
              extends = Extends-trans ready.extends more.extends;
            }))

  factors_from-Ends :
      (c : Clause) (ls : List Literal) (i : ℕ) (b : TermBank)
      → IsWellFormed b
      → IsRoomy m b
      → InBank b c.literals
      → InBank b ls
      → Ends (λ (r, b'). IsReady b b') (factors_from m config c ls i b)
  unfolding factors_from
  factors_from-Ends c [] i b w room h hs = gives (IsReady-refl b w room)
  factors_from-Ends c (li ∷ ls) i b w room h hs =
      Ends-bind (factors_at-Ends c li ls (suc i) b w room h hs.0 hs.1) λ (rs, b₁) ready.
        Ends-bind
          (factors_from-Ends c ls (suc i) b₁ ready.well_formed ready.roomy
            (Extends-InBank c.literals ready.extends h) (Extends-InBank ls ready.extends hs.1))
          λ (more, b₂) later. gives (record {
            well_formed = later.well_formed;
            roomy = later.roomy;
            extends = Extends-trans ready.extends later.extends;
          })

  -- With the occurs check on, a capacity below 2³² and `enough_for` the capacity as fuel: for a
  -- clause over a well-formed bank that is not larger than the capacity, `factor` returns or throws
  -- an exception. When it returns, the bank is again well-formed and not too large, and no old term
  -- has changed.
  pub factor-Ends :
      (c : Clause) (b : TermBank)
      → IsWellFormed b
      → IsRoomy m b
      → InBank b c.literals
      → Ends (λ (r, b'). IsReady b b') (factor m config c b)
  unfolding factor
  factor-Ends c b w room h = factors_from-Ends c c.literals 0 b w room h h
