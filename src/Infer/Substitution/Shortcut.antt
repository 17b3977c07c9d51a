-- ===== src/Infer/Substitution/Shortcut.antt =====
-- `Substitution::apply`, which keeps a term whose arguments do not change, does what
-- `applySubstitution` does.
use native.Mathlib.Nat.{lt_trans}
use richard_atp_engine.Prelude.{
  ℕ, zero, suc, ◌<◌, ◌≡◌, refl, sym, ap, ◌∙◌, inl, inr, Bool, true, false, not, some, length,
  get_elem?, get_elem?_of_lt, All, All-map_pred, List, [], ◌∷◌, Machine, Outcome, done, failed,
  ◌>>=◌, if◌then◌else◌, arith, Bool-cases, find?, ◌==◌, Post, Post-done,
}
use richard_atp_engine.Core.Types.{uint32_mod}
use richard_atp_engine.Core.TermBank.{TermBank, is_variable, make_term, key_eq}
use richard_atp_engine.Core.TermBank.Laws.{IsWellFormed}
use richard_atp_engine.Infer.Substitution.{
  Substitution, resolve, apply_each, apply_substitution, apply, changed,
}
use richard_atp_engine.Infer.Substitution.Resolve.{InRange, resolve-Extends, resolve-IsEnd_result}
use richard_atp_engine.Infer.Substitution.Apply.{
  Reached, Applied, apply_each-AppliedEach, apply_substitution-Applied,
}

-- Two continuations that agree on what a run returns.
bind_congr {ℓ κ} :
    {A : Type ℓ} {B : Type κ} (o : Outcome A) (f g : A → Outcome B)
    → ((a : A) → o ≡ done a → f a ≡ g a)
    → (o >>= f) ≡ (o >>= g)
bind_congr (done a) f g h = h a refl
bind_congr (failed e) f g h = refl

if_congr {ℓ} :
    {A : Type ℓ} (b : Bool) (x y z : A) → y ≡ z → (if b then x else y) ≡ (if b then x else z)
if_congr true x y z h = refl
if_congr false x y z h = h

unchanged : (xs ys : List ℕ) → length ys ≡ length xs → changed xs ys ≡ false → ys ≡ xs
unchanged [] [] l h = refl
unchanged [] (y ∷ ys) l h = absurd (omega arith)
unchanged (x ∷ xs) [] l h = absurd (omega arith)
unchanged (x ∷ xs) (y ∷ ys) l h = ground (arith, unchanged xs ys)

nonempty : (n : ℕ) → (suc n == 0) ≡ false
nonempty n = ground arith

-- A term that the bank has is not made again.
make_known :
    (m : Machine) (symbol : ℕ) (args : List ℕ) (b : TermBank) (r : ℕ)
    → find? (record { symbol = symbol; args = args }) b.term_to_id ≡ some r
    → make_term m symbol args b ≡ done (r, b)
unfolding make_term
make_known m symbol args b r known = rw (known, make_term) refl

module _ (m : Machine) (cap : m.capacity < uint32_mod) (s : Substitution) (b : TermBank)
    (w : IsWellFormed b) (in_range : InRange s b) where
  abbrev Step : Type 0
  Step = ℕ → TermBank → Outcome (ℕ × TermBank)

  abbrev Applies : Step → Type 1
  Applies step =
      (d : TermBank) (a : ℕ)
      → Reached m cap s b w in_range d
      → a < length b.terms
      → Post (Applied m cap s b w in_range d a) (step a d)

  apply_each_congr :
      (f g : Step)
      → Applies g
      → ((d : TermBank) (a : ℕ)
          → Reached m cap s b w in_range d
          → a < length b.terms
          → f a d ≡ g a d)
      → (args : List ℕ) (c : TermBank) → Reached m cap s b w in_range c
      → All (λ a. a < length b.terms) args
      → apply_each f args c ≡ apply_each g args c
  unfolding apply_each
  apply_each_congr f g applies same [] c ok h = refl
  apply_each_congr f g applies same (a ∷ args) c ok h =
      ap (λ o. o >>= λ (a', d). apply_each f args d >>= λ (args', d'). done (a' ∷ args', d'))
        (same c a ok h.0)
      ∙ bind_congr (g a c) _ _ λ (a', d) run.
        ap (λ o. o >>= λ (args', d'). done (a' ∷ args', d'))
          (apply_each_congr f g applies same args d (Post-done (applies c a ok h.0) run).reached
            h.1)

  -- The rest of the code, once the arguments of a term are known.
  rebuilt_same :
      (step : Step)
      → Applies step
      → (c : TermBank) (ok : Reached m cap s b w in_range c) (r symbol : ℕ) (args : List ℕ)
      → get_elem? c.terms r ≡ some (record { symbol = symbol; args = args })
      → All (λ a. a < length b.terms) args
      → (if length args == 0
          then done (r, c)
          else (apply_each step args c >>= λ (new_args, d).
              if not (changed args new_args) then done (r, d) else make_term m symbol new_args d))
        ≡ (apply_each step args c >>= λ (new_args, d). make_term m symbol new_args d)
  unfolding apply_each
  rebuilt_same step applies c ok r symbol [] at h =
      sym (make_known m symbol [] c r (ok.well_formed.listed r _ at))
  rebuilt_same step applies c ok r symbol (a ∷ args) at h = rw (nonempty (length args)) (
      bind_congr (apply_each step (a ∷ args) c) _ _ λ (new_args, d) run.
        let each =
          Post-done (apply_each-AppliedEach m cap s b w in_range step applies (a ∷ args) c ok h)
            run in
        elim (Bool-cases (changed (a ∷ args) new_args)) [
          | inl differ ↦ rw differ refl
          | inr same ↦
              rw (same, unchanged (a ∷ args) new_args each.same_length same)
                (sym (
                  make_known m symbol (a ∷ args) d r
                    (each.reached.well_formed.listed r _ (each.extends.terms r _ at))))
        ])

  -- Under a capacity below 2³², for bindings over a well-formed bank, a term of that bank and a
  -- well-formed bank that extends it by terms only, `Substitution::apply` and `applySubstitution`
  -- do the same: they return one identifier and leave one bank, or fail alike.
  pub apply_same :
      (f id : ℕ) (c : TermBank)
      → Reached m cap s b w in_range c
      → id < length b.terms
      → apply m f s id c ≡ apply_substitution m f s id c
  unfolding apply apply_substitution
  apply_same zero id c ok h = refl
  apply_same (suc f) id c ok h = bind_congr (resolve m.fuel s c id) _ _ λ r found.
      bind_congr (is_variable c r) _ _ λ is_var _. if_congr is_var (done (r, c)) _ _ (
        let inside =
          (Post-done (resolve-IsEnd_result s b w in_range m.fuel id h) (
            sym (resolve-Extends s b w in_range c m.fuel id ok.extends ok.well_formed h)
            ∙ found)).0 in
        let (t, at) = get_elem?_of_lt b.terms r inside in
        let args_inside =
          All-map_pred t.args (λ a (below : a < r). lt_trans below inside) (w.fits r t at).below in
        rw (ok.extends.terms r t at) (
          ap
            (λ o.
              if length t.args == 0
              then done (r, c)
              else (o >>= λ (new_args, d).
                  if not (changed t.args new_args)
                  then done (r, d)
                  else make_term m t.symbol new_args d))
            (apply_each_congr (apply m f s) (apply_substitution m f s) (applies f)
              (λ d a ok' ha. apply_same f a d ok' ha) t.args c ok args_inside)
          ∙ rebuilt_same (apply_substitution m f s) (applies f) c ok r t.symbol t.args
              (ok.extends.terms r t at) args_inside))
    where
      applies : (f : ℕ) → Applies (apply_substitution m f s)
      applies f d a ok ha = apply_substitution-Applied m cap s b w in_range f a d ok ha
