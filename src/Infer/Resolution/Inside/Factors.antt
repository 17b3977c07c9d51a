-- ===== src/Infer/Resolution/Inside/Factors.antt =====
-- src/infer/resolution.cc, `factor`: with or without the occurs check, the factors are over the bank.
use richard_atp_engine.Prelude.{
  ℕ, suc, ◌<◌, refl, sym, subst, not, List, [], ◌∷◌, length, erase_idx, All-erase_idx, Machine,
  Post, Post-bind, Post-if, returns,
}
use richard_atp_engine.Core.Types.{Literal, Clause, same_polarity, uint32_mod}
use richard_atp_engine.Core.SymbolTable.Laws.{IsValid}
use richard_atp_engine.Core.TermBank.{TermBank}
use richard_atp_engine.Core.TermBank.Laws.{IsWellFormed, Extends-refl}
use richard_atp_engine.Semantics.Laws.{InBank, Extends-InBank}
use richard_atp_engine.Infer.Unification.{UnificationConfig}
use richard_atp_engine.Infer.Unification.Range.{unify-InRange}
use richard_atp_engine.Infer.Renaming.Sound.{apply_literals-Applied}
use richard_atp_engine.Infer.Resolution.{push_some, factor_pair, factors_at, factors_from, factor}
use richard_atp_engine.Infer.Resolution.Inside.{
  IsOver, Kept, Kept-nothing, Kept-append, push_some-Kept,
}

module _ (m : Machine) (cap : m.capacity < uint32_mod) (config : UnificationConfig) where
  factor_pair-Kept :
      (c : Clause) (li lj : Literal) (i j : ℕ) (b : TermBank)
      → IsWellFormed b
      → IsValid b.symbols
      → IsOver b c
      → li.atom < length b.terms
      → lj.atom < length b.terms
      → Post (λ (r, b'). Kept b (push_some r []) b') (factor_pair m config c li lj j b)
  unfolding factor_pair
  factor_pair-Kept c li lj i j b w v h hi hj =
      Post-bind (unify-InRange m config b w m.fuel li.atom lj.atom [] hi hj (λ x t h. cc))
        λ (unified, s) r.
          Post-if unified
            (λ _.
              Post-bind
                (apply_literals-Applied m cap s b w r (erase_idx c.literals j) b
                  (record { well_formed = w; extends = Extends-refl b; same_symbols = refl })
                  (All-erase_idx _ c.literals j h))
                λ (ls, b₁) applied. returns (record {
                  bank = applied.reached.well_formed;
                  table = subst IsValid (sym applied.reached.same_symbols) v;
                  extends = applied.extends;
                  inside = (applied.inside, tt);
                }))
            (λ _. returns (Kept-nothing b w v))

  factors_at-Kept :
      (c : Clause) (li : Literal) (ls : List Literal) (j : ℕ) (b : TermBank)
      → IsWellFormed b
      → IsValid b.symbols
      → IsOver b c
      → li.atom < length b.terms
      → InBank b ls
      → Post (λ (rs, b'). Kept b rs b') (factors_at m config c li ls j b)
  unfolding factors_at
  factors_at-Kept c li [] j b w v h hi hs = returns (Kept-nothing b w v)
  factors_at-Kept c li (lj ∷ ls) j b w v h hi (hj, hs) =
      Post-if (not (same_polarity li.is_positive lj.is_positive))
        (λ _. factors_at-Kept c li ls (suc j) b w v h hi hs)
        λ _. Post-bind (factor_pair-Kept c li lj 0 j b w v h hi hj) λ (r, b₁) first.
          let later = Extends-InBank (li ∷ ls) first.extends (hi, hs) in
          Post-bind
            (factors_at-Kept c li ls (suc j) b₁ first.bank first.table
              (Extends-InBank c.literals first.extends h) later.0 later.1)
            λ (rs, b₂) more. returns (push_some-Kept r rs first more)

  factors_from-Kept :
      (c : Clause) (ls : List Literal) (i : ℕ) (b : TermBank)
      → IsWellFormed b
      → IsValid b.symbols
      → IsOver b c
      → InBank b ls
      → Post (λ (rs, b'). Kept b rs b') (factors_from m config c ls i b)
  unfolding factors_from
  factors_from-Kept c [] i b w v h hs = returns (Kept-nothing b w v)
  factors_from-Kept c (li ∷ ls) i b w v h (hi, hs) =
      Post-bind (factors_at-Kept c li ls (suc i) b w v h hi hs) λ (rs, b₁) first.
        Post-bind
          (factors_from-Kept c ls (suc i) b₁ first.bank first.table
            (Extends-InBank c.literals first.extends h) (Extends-InBank ls first.extends hs))
          λ (more, b₂) rest. returns (Kept-append rs more first rest)

  -- The factors of a clause over a well-formed bank are over the new bank.
  pub factor-Kept :
      (c : Clause) (b : TermBank)
      → IsWellFormed b
      → IsValid b.symbols
      → IsOver b c
      → Post (λ (rs, b'). Kept b rs b') (factor m config c b)
  unfolding factor
  factor-Kept c b w v h = factors_from-Kept c c.literals 0 b w v h h
