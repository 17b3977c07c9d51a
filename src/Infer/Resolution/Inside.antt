-- ===== src/Infer/Resolution/Inside.antt =====
-- src/infer/resolution.cc: with or without the occurs check, the clauses that are inferred are over
-- the bank, and the bank stays well-formed.
pub mod Factors
use richard_atp_engine.Prelude.{
  ℕ, suc, ◌≡◌, ◌<◌, refl, sym, subst, not, none, some, Option, List, [], ◌∷◌, ◌++◌, length,
  get_elem?, erase_idx, All, All-append, All-erase_idx, All-get_elem?, All-map_pred, Permᴰ, Machine,
  done, ◌>>=◌, Post, Post-bind, Post-if, Post-map, Post-expect_some, returns,
}
use richard_atp_engine.Core.Types.{Literal, Clause, same_polarity, uint32_mod}
use richard_atp_engine.Core.SymbolTable.Laws.{IsValid}
use richard_atp_engine.Core.TermBank.{TermBank}
use richard_atp_engine.Core.TermBank.Laws.{IsWellFormed, Extends, Extends-refl, Extends-trans}
use richard_atp_engine.Semantics.Laws.{InBank, Extends-InBank}
use richard_atp_engine.Infer.Substitution.{Substitution}
use richard_atp_engine.Infer.Substitution.Resolve.{InRange}
use richard_atp_engine.Infer.Unification.{UnificationConfig}
use richard_atp_engine.Infer.Unification.Range.{unify-InRange}
use richard_atp_engine.Infer.Renaming.{Engine, apply_literals}
use richard_atp_engine.Infer.Renaming.Fresh.{IsSound}
use richard_atp_engine.Infer.Renaming.Sound.{rename_variables-Renamed, apply_literals-Applied}
use richard_atp_engine.Infer.Resolution.{
  resolve_renamed, resolve_clauses, push_some, resolvents_at, resolvents_from, all_resolvents,
  factor_pair, factors_at, factors_from, factor,
}

-- The atoms of the clause are terms of the bank.
abbrev pub IsOver : TermBank → Clause → Type 0
IsOver b c = InBank b c.literals

pub All-IsOver :
    {b c : TermBank} (cs : List Clause) → Extends b c → All (IsOver b) cs → All (IsOver c) cs
All-IsOver cs x = All-map_pred cs (λ (d : Clause) h. Extends-InBank d.literals x h)

-- What an inference on a bank promises of its clauses and the new bank.
pub record Kept (b : TermBank) (cs : List Clause) (c : TermBank) : Type 0 where
  pub bank : IsWellFormed c
  pub table : IsValid c.symbols
  pub extends : Extends b c
  pub inside : All (IsOver c) cs

pub Kept-nothing : (b : TermBank) → IsWellFormed b → IsValid b.symbols → Kept b [] b
Kept-nothing b w v = record { bank = w; table = v; extends = Extends-refl b; inside = tt }

pub Kept-append :
    {b c d : TermBank} (cs ds : List Clause) → Kept b cs c → Kept c ds d → Kept b (cs ++ ds) d
Kept-append cs ds x y = record {
  bank = y.bank;
  table = y.table;
  extends = Extends-trans x.extends y.extends;
  inside = All-append _ cs ds (All-IsOver cs y.extends x.inside) y.inside;
}

pub push_some-Kept :
    {b c d : TermBank} (r : Option Clause) (cs : List Clause)
    → Kept b (push_some r []) c
    → Kept c cs d
    → Kept b (push_some r cs) d
push_some-Kept none cs x y = Kept-append [] cs x y
push_some-Kept (some c) cs x y = Kept-append (c ∷ []) cs x y

module _ (m : Machine) (cap : m.capacity < uint32_mod) (config : UnificationConfig) where
  -- Both halves of a resolvent, under bindings within the bank.
  apply_both-Kept :
      (s : Substitution) (ks ls : List Literal) (b : TermBank) (n : ℕ)
      → IsWellFormed b
      → IsValid b.symbols
      → InRange s b
      → InBank b ks
      → InBank b ls
      → (build : List Literal → List Literal → Clause)
      → ((xs ys : List Literal) → (build xs ys).literals ≡ xs ++ ys)
      → Post
          (λ ((r, e) : Option Clause × Engine). Kept b (push_some r []) e.bank)
          (apply_literals m s ks b >>= λ (xs, b₁). apply_literals m s ls b₁ >>= λ (ys, b₂).
            done (some (build xs ys), record { bank = b₂; var_counter = n }))
  apply_both-Kept s ks ls b n w v r hk hl build shape =
      Post-bind
        (apply_literals-Applied m cap s b w r ks b
          (record { well_formed = w; extends = Extends-refl b; same_symbols = refl }) hk)
        λ (xs, b₁) first.
          Post-bind (apply_literals-Applied m cap s b w r ls b₁ first.reached hl) λ (ys, b₂) second.
            returns (record {
              bank = second.reached.well_formed;
              table = subst IsValid (sym second.reached.same_symbols) v;
              extends = second.reached.extends;
              inside = (
                rw (shape xs ys) (
                    All-append _ xs ys (Extends-InBank xs second.extends first.inside)
                      second.inside),
                tt,
              );
            })

  resolve_renamed-Kept :
      (c1 : Clause) (i : ℕ) (l1 : Literal) (c2r : Clause) (j : ℕ) (e : Engine)
      → IsSound e
      → IsOver e.bank c1
      → IsOver e.bank c2r
      → get_elem? c1.literals i ≡ some l1
      → Post
          (λ (r, e'). Kept e.bank (push_some r []) e'.bank)
          (resolve_renamed m config c1 i l1 c2r j e)
  unfolding resolve_renamed
  resolve_renamed-Kept c1 i l1 c2r j e ok h1 h2 at1 =
      Post-bind (Post-expect_some (λ (l2 : Literal) at2. at2)) λ l2 at2.
        Post-bind
          (unify-InRange m config e.bank ok.bank m.fuel l1.atom l2.atom []
            (All-get_elem? _ c1.literals i l1 h1 at1) (All-get_elem? _ c2r.literals j l2 h2 at2)
            (λ x t h. cc))
          λ (unified, s) r.
            Post-if unified
              (λ _.
                apply_both-Kept s (erase_idx c1.literals i) (erase_idx c2r.literals j) e.bank
                  e.var_counter ok.bank ok.table r (All-erase_idx _ c1.literals i h1)
                  (All-erase_idx _ c2r.literals j h2) _ (λ xs ys. refl))
              (λ _. returns (Kept-nothing e.bank ok.bank ok.table))

  module _ (walks : (xs : List ℕ) → Permᴰ xs (m.iteration xs)) where
    resolve_clauses-Kept :
        (c1 : Clause) (i : ℕ) (c2 : Clause) (j : ℕ) (e : Engine)
        → IsSound e
        → IsOver e.bank c1
        → IsOver e.bank c2
        → Post
            (λ (r, e'). Kept e.bank (push_some r []) e'.bank)
            (resolve_clauses m config c1 i c2 j e)
    unfolding resolve_clauses
    resolve_clauses-Kept c1 i c2 j e ok h1 h2 =
        Post-bind (Post-expect_some (λ (l1 : Literal) at1. at1)) λ l1 at1.
          Post-bind (Post-expect_some {o = get_elem? c2.literals j} (λ (l2 : Literal) at2. at2))
            λ l2 at2.
              Post-if (same_polarity l1.is_positive l2.is_positive)
                (λ _. returns {a = (none, e)} (Kept-nothing e.bank ok.bank ok.table))
                λ _.
                  Post-bind (rename_variables-Renamed m cap walks c2 e ok h2) λ (c2r, e₁) renamed.
                    let before : Kept e.bank [] e₁.bank = record {
                      bank = renamed.sound.bank;
                      table = renamed.sound.table;
                      extends = renamed.extends;
                      inside = tt;
                    } in
                    Post-map
                      (resolve_renamed-Kept c1 i l1 c2r j e₁ renamed.sound
                        (Extends-InBank c1.literals renamed.extends h1) renamed.inside at1)
                      λ (r, e₂) kept. Kept-append [] (push_some r []) before kept

    resolvents_at-Kept :
        (c1 : Clause) (i : ℕ) (l1 : Literal) (c2 : Clause) (ls : List Literal) (j : ℕ) (e : Engine)
        → IsSound e
        → IsOver e.bank c1
        → IsOver e.bank c2
        → Post (λ (rs, e'). Kept e.bank rs e'.bank) (resolvents_at m config c1 i l1 c2 ls j e)
    unfolding resolvents_at
    resolvents_at-Kept c1 i l1 c2 [] j e ok h1 h2 = returns (Kept-nothing e.bank ok.bank ok.table)
    resolvents_at-Kept c1 i l1 c2 (l2 ∷ ls) j e ok h1 h2 =
        Post-if (not (same_polarity l1.is_positive l2.is_positive))
          (λ _. Post-bind (resolve_clauses-Kept c1 i c2 j e ok h1 h2) λ (r, e₁) first.
            Post-bind
              (resolvents_at-Kept c1 i l1 c2 ls (suc j) e₁
                (record { bank = first.bank; table = first.table })
                (Extends-InBank c1.literals first.extends h1)
                (Extends-InBank c2.literals first.extends h2))
              λ (rs, e₂) rest. returns (push_some-Kept r rs first rest))
          (λ _. resolvents_at-Kept c1 i l1 c2 ls (suc j) e ok h1 h2)

    resolvents_from-Kept :
        (c1 c2 : Clause) (ls : List Literal) (i : ℕ) (e : Engine)
        → IsSound e
        → IsOver e.bank c1
        → IsOver e.bank c2
        → Post (λ (rs, e'). Kept e.bank rs e'.bank) (resolvents_from m config c1 c2 ls i e)
    unfolding resolvents_from
    resolvents_from-Kept c1 c2 [] i e ok h1 h2 = returns (Kept-nothing e.bank ok.bank ok.table)
    resolvents_from-Kept c1 c2 (l1 ∷ ls) i e ok h1 h2 =
        Post-bind (resolvents_at-Kept c1 i l1 c2 c2.literals 0 e ok h1 h2) λ (rs, e₁) first.
          Post-bind
            (resolvents_from-Kept c1 c2 ls (suc i) e₁
              (record { bank = first.bank; table = first.table })
              (Extends-InBank c1.literals first.extends h1)
              (Extends-InBank c2.literals first.extends h2))
            λ (more, e₂) rest. returns (Kept-append rs more first rest)

    -- The resolvents of two clauses over a well-formed bank are over the new bank.
    pub all_resolvents-Kept :
        (c1 c2 : Clause) (e : Engine)
        → IsSound e
        → IsOver e.bank c1
        → IsOver e.bank c2
        → Post (λ (rs, e'). Kept e.bank rs e'.bank) (all_resolvents m config c1 c2 e)
    unfolding all_resolvents
    all_resolvents-Kept c1 c2 e = resolvents_from-Kept c1 c2 c1.literals 0 e
