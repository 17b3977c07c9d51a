-- ===== src/Infer/Resolution/Resolvent.antt =====
-- The conclusion of one resolution step follows from its parents, if the occurs check is on.
use richard_atp_engine.Prelude.{
  ℕ, zero, suc, ◌≡◌, ◌<◌, ◌++◌, refl, sym, ap, ◌∙◌, ◌⊎◌, inl, inr, ⊎_elim, true, false, none, some,
  Option, ℕ_eq, List, [], ◌∷◌, map, length, All-append, All-erase_idx, Any, Any-erase_idx, Bool,
  arith, get_elem?, erase_idx, Machine, done, ◌>>=◌, Post, Post-bind, Post-done, returns, subst,
}
use richard_atp_engine.Core.Types.{Literal, Clause, same_polarity, uint32_mod}
use richard_atp_engine.Core.SymbolTable.Laws.{IsValid}
use richard_atp_engine.Core.TermBank.{TermBank}
use richard_atp_engine.Core.TermBank.Laws.{IsWellFormed, Extends, Extends-refl}
use richard_atp_engine.Semantics.{Structure, value, Holds, Valid}
use richard_atp_engine.Semantics.Laws.{InBank, Extends-InBank, Extends-Any, Extends-Valid}
use richard_atp_engine.Infer.Substitution.{Substitution}
use richard_atp_engine.Infer.Substitution.Resolve.{InRange, Solves, resolve-value}
use richard_atp_engine.Infer.Substitution.Apply.{Follows}
use richard_atp_engine.Infer.Unification.{UnificationConfig, unify}
use richard_atp_engine.Infer.Unification.Occurs.{Solution}
use richard_atp_engine.Infer.Unification.Bind.{Extended}
use richard_atp_engine.Infer.Unification.Sound.{Unified, unify-Unified}
use richard_atp_engine.Infer.Renaming.{Engine, apply_literals}
use richard_atp_engine.Infer.Renaming.Fresh.{IsSound}
use richard_atp_engine.Infer.Renaming.Sound.{apply_literals-Applied}

-- An assignment that respects the bindings follows them.
pub solution-Follows :
    (m : Machine) (M : Structure) (s : Substitution) (b : TermBank)
    → IsWellFormed b
    → (r : InRange s b) (sol : Solution M b s) (v : ℕ → M.Carrier)
    → Follows m s b M v (sol.extend v)
solution-Follows m M s b w r sol v = record {
  resolves = λ t i inside found.
      Post-done (resolve-value s b w r M (sol.extend v) m.fuel t (sol.solves v) inside) found;
  free = λ x is_var free. sol.free v x free;
}

-- The empty substitution leaves every assignment as it is.
pub no_bindings : (M : Structure) (b : TermBank) → Solution M b []
no_bindings M b = record { extend = λ v. v; solves = λ v x t h. cc; free = λ v x h. refl }

Any-append_left : (P : Literal → Type 0) (xs ys : List Literal) → Any P xs → Any P (xs ++ ys)
Any-append_left P (x ∷ xs) ys (inl h) = inl h
Any-append_left P (x ∷ xs) ys (inr h) = inr (Any-append_left P xs ys h)
Any-append_left P [] ys h = absurd h

Any-append_right : (P : Literal → Type 0) (xs ys : List Literal) → Any P ys → Any P (xs ++ ys)
Any-append_right P [] ys h = h
Any-append_right P (x ∷ xs) ys h = inr (Any-append_right P xs ys h)

pub get_elem?-signs :
    (xs ys : List Literal) (i : ℕ) (x y : Literal)
    → map (λ (l : Literal). l.is_positive) xs ≡ map (λ (l : Literal). l.is_positive) ys
    → get_elem? xs i ≡ some x
    → get_elem? ys i ≡ some y
    → x.is_positive ≡ y.is_positive
get_elem?-signs [] ys i x y e hx hy = cc
get_elem?-signs (a ∷ xs) [] i x y e hx hy = cc
get_elem?-signs (a ∷ xs) (b ∷ ys) zero x y e hx hy = cc
get_elem?-signs (a ∷ xs) (b ∷ ys) (suc i) x y e hx hy = get_elem?-signs xs ys i x y (cc) hx hy

opposite_signs : (t p q : Bool) → same_polarity p q ≡ false → t ≡ p → t ≡ q → ⊥
opposite_signs t p q h f g = ground arith

-- The literals of a clause are in the bank, and the clause is valid in the structure.
pub record FollowsFrom (M : Structure) (e : Engine) (ls : List Literal) : Type 0 where
  pub inside : InBank e.bank ls
  pub valid : Valid M e.bank ls

pub FollowsFrom-Extends :
    (M : Structure) (e e' : Engine) (ls : List Literal)
    → IsSound e
    → Extends e.bank e'.bank
    → FollowsFrom M e ls
    → FollowsFrom M e' ls
FollowsFrom-Extends M e e' ls ok x f = record {
  inside = Extends-InBank ls x f.inside;
  valid = Extends-Valid M e.bank e'.bank ls ok.bank x f.inside f.valid;
}

abbrev pub SoundOption : Structure → Engine → Option Clause → Type 0
SoundOption M e none = Unit
SoundOption M e (some c) = FollowsFrom M e c.literals

-- What an attempt at an inference promises.
pub record Inferred (M : Structure) (e : Engine) (r : Option Clause × Engine) : Type 0 where
  pub sound : IsSound r.1
  pub extends : Extends e.bank r.1.bank
  pub conclusion : SoundOption M r.1 r.0

module _ (M : Structure) (m : Machine) (cap : m.capacity < uint32_mod) (config : UnificationConfig)
    (on : config.enable_occurs_check ≡ true) where
  -- The substitution that unifies two atoms, and the assignment before it.
  pub unify_atoms :
      (b : TermBank)
      → IsWellFormed b
      → (t u : ℕ) → t < length b.terms
      → u < length b.terms
      → Post (Unified M b [] t u) (unify m config b m.fuel t u [])
  unify_atoms b w t u ht hu =
      unify-Unified M m config on b w m.fuel t u [] ht hu (λ x y h. cc) (no_bindings M b)

  module _ (c1 c2r : List Literal) (i j : ℕ) (l1 l2 : Literal) (e : Engine) (ok : IsSound e)
      (f1 : FollowsFrom M e c1) (f2 : FollowsFrom M e c2r) (at1 : get_elem? c1 i ≡ some l1)
      (at2 : get_elem? c2r j ≡ some l2)
      (opposite : same_polarity l1.is_positive l2.is_positive ≡ false) (s : Substitution)
      (x : Extended M e.bank [] s)
      (equal : (v : ℕ → M.Carrier)
        → Solves M e.bank s v
        → value M e.bank v l1.atom ≡ value M e.bank v l2.atom) where
    abbrev before : (ℕ → M.Carrier) → ℕ → M.Carrier
    before = x.solution.extend

    -- Before the substitution one of the literals that stay holds.
    some_other-Holds :
        (v : ℕ → M.Carrier)
        → Any (Holds M e.bank (before v)) (erase_idx c1 i)
          ⊎ Any (Holds M e.bank (before v)) (erase_idx c2r j)
    some_other-Holds v =
        elim (Any-erase_idx (Holds M e.bank (before v)) c1 i l1 at1 (f1.valid (before v))) [
          | inr stays ↦ inl stays
          | inl gone1 ↦
              elim (Any-erase_idx (Holds M e.bank (before v)) c2r j l2 at2 (f2.valid (before v))) [
                | inr stays ↦ inr stays
                | inl gone2 ↦ absurd (
                    opposite_signs _ l1.is_positive l2.is_positive opposite gone1
                      (ap M.truth (equal (before v) (x.solution.solves v)) ∙ gone2))
              ]
        ]

    pub resolvent-Inferred :
        (build : List Literal → List Literal → Clause)
        → ((ks ls : List Literal) → (build ks ls).literals ≡ ks ++ ls)
        → Post (Inferred M e) (
            apply_literals m s (erase_idx c1 i) e.bank >>= λ (ls1, b₁).
            apply_literals m s (erase_idx c2r j) b₁ >>= λ (ls2, b₂).
            done (some (build ls1 ls2), record e { bank = b₂ }))
    resolvent-Inferred build shape =
        let w = ok.bank in
        Post-bind
          (apply_literals-Applied m cap s e.bank w x.in_range (erase_idx c1 i) e.bank
            (record { well_formed = w; extends = Extends-refl e.bank; same_symbols = refl })
            (All-erase_idx _ c1 i f1.inside))
          λ (ls1, b₁) first.
            Post-bind
              (apply_literals-Applied m cap s e.bank w x.in_range (erase_idx c2r j) b₁ first.reached
                (All-erase_idx _ c2r j f2.inside))
              λ (ls2, b₂) second. returns (record {
                sound = record {
                  bank = second.reached.well_formed;
                  table = subst IsValid (sym second.reached.same_symbols) ok.table;
                };
                extends = second.reached.extends;
                conclusion = rw (shape ls1 ls2) (record {
                  inside =
                      All-append _ ls1 ls2 (Extends-InBank ls1 second.extends first.inside)
                        second.inside;
                  valid = λ v.
                      let follows = solution-Follows m M s e.bank w x.in_range x.solution v in
                      ⊎_elim
                        (λ h. Any-append_left _ ls1 ls2 (
                          Extends-Any M b₁ b₂ ls1 first.reached.well_formed second.extends v
                            first.inside (first.holds M v (before v) follows h)))
                        (λ h. Any-append_right _ ls1 ls2 (second.holds M v (before v) follows h))
                        (some_other-Holds v);
                });
              })
