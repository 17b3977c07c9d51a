-- ===== src/Infer/Unification/Bind.antt =====
-- Binding an unbound variable that the occurs check did not find: the bindings stay solvable.
use richard_atp_engine.Prelude.{
  ℕ, ◌≡◌, ◌≢◌, ◌<◌, refl, sym, ap, ◌∙◌, ⊎_elim, true, false, none, some, find?, find?-cons_cases,
  find?-cons_ne, find?-cons_self, emplace_new, ℕ_eq, length, ◌∷◌, Machine, done, Post, returns,
  Post-bind, Post-if, Post-self, Post-done, arith, ◌==◌, if◌then◌else◌, subst,
}
use richard_atp_engine.Core.TermBank.{TermBank, is_variable}
use richard_atp_engine.Core.TermBank.Laws.{IsWellFormed}
use richard_atp_engine.Semantics.{Structure, value}
use richard_atp_engine.Infer.Substitution.{Substitution, bind, occurs_in}
use richard_atp_engine.Infer.Substitution.Resolve.{InRange, Solves}
use richard_atp_engine.Infer.Unification.{UnificationConfig, bind_variable}
use richard_atp_engine.Infer.Unification.Occurs.{Solution, occurs_in-false}

-- The bindings `s'` keep those of `s`, and have a solution.
pub record Extended (M : Structure) (b : TermBank) (s s' : Substitution) : Type 0 where
  pub keeps : (x t : ℕ) → find? x s ≡ some t → find? x s' ≡ some t
  pub in_range : InRange s' b
  pub solution : Solution M b s'

abbrev pub update {ℓ} : {A : Type ℓ} → (ℕ → A) → ℕ → A → ℕ → A
update v x d y = if x == y then d else v y

update_self {ℓ} : {A : Type ℓ} (v : ℕ → A) (x : ℕ) (d : A) → update v x d x ≡ d
update_self v x d = ground arith

update_other {ℓ} : {A : Type ℓ} (v : ℕ → A) (x : ℕ) (d : A) (y : ℕ) → y ≢ x → update v x d y ≡ v y
update_other v x d y h = ground arith

module _ (M : Structure) (m : Machine) (b : TermBank) (w : IsWellFormed b) (s : Substitution)
    (in_range : InRange s b) (sol : Solution M b s) (x t : ℕ) (inside : t < length b.terms)
    (x_inside : x < length b.terms) (is_var : is_variable b x ≡ done true)
    (free : find? x s ≡ none) where
  keeps_old : (y u : ℕ) → find? y s ≡ some u → find? y ((x, t) ∷ s) ≡ some u
  keeps_old y u e = find?-cons_ne x y t s (λ same. cc) ∙ e

  pub bound-InRange : InRange ((x, t) ∷ s) b
  bound-InRange y u e =
      ⊎_elim
        (λ (same, to). (
          subst (λ z. is_variable b z ≡ done true) same is_var,
          subst (λ z. z < length b.terms) same x_inside,
          subst (λ z. z < length b.terms) to inside,
        ))
        (in_range y u) (find?-cons_cases x y t u s e)

  module _ (missed : occurs_in m m.fuel s b x t ≡ done false) where
    -- The variable takes the value of the term that it is bound to.
    abbrev pub set_value : (ℕ → M.Carrier) → ℕ → M.Carrier
    set_value v = update v x (value M b (sol.extend v) t)

    independent :
        (v : ℕ → M.Carrier) → value M b (sol.extend v) t ≡ value M b (sol.extend (set_value v)) t
    independent v =
        Post-done
          (occurs_in-false M m s b w in_range sol x v (set_value v)
            (λ y other. sym (update_other v x _ y other)) m.fuel t inside)
          missed refl

    pub bound-Solution : Solution M b ((x, t) ∷ s)
    bound-Solution = record {
      extend = λ v. sol.extend (set_value v);
      solves = λ v y u e.
          ⊎_elim
            (λ (same, to).
              subst (λ z. sol.extend (set_value v) z ≡ value M b (sol.extend (set_value v)) u) same
                (sol.free (set_value v) x free
                  ∙ update_self v x _
                  ∙ independent v
                  ∙ ap (value M b (sol.extend (set_value v))) to))
            (sol.solves (set_value v) y u) (find?-cons_cases x y t u s e);
      free = λ v y e.
          let other : y ≢ x = λ same. cc (find?-cons_self x t s) in
          sol.free (set_value v) y (sym (find?-cons_ne x y t s (λ same. other (sym same))) ∙ e)
          ∙ update_other v x _ y other;
    }

    -- The new solution extends each assignment as the old one extends the changed one.
    pub extend-bound : (v : ℕ → M.Carrier) → bound-Solution.extend v ≡ sol.extend (set_value v)
    unfolding bound-Solution
    extend-bound v = refl

  -- With the occurs check on, for bindings over a well-formed bank that have a solution, and a
  -- variable and a term of the bank: if the unbound variable is bound then the bindings keep a
  -- solution, and every solution gives the variable the value of the term.
  pub bind_variable-Extended :
      (config : UnificationConfig)
      → config.enable_occurs_check ≡ true
      → Post
          (λ (ok, s').
            ok ≡ true
            → Extended M b s s' × ((v : ℕ → M.Carrier) → Solves M b s' v → v x ≡ value M b v t))
          (bind_variable m config b x t s)
  unfolding bind_variable bind
  bind_variable-Extended config on = rw on (
      Post-bind (Post-self (occurs_in m m.fuel s b x t)) λ hit found.
        Post-if hit (λ _. returns (λ e. cc))
          λ missed. rw (emplace_new x t s free) (
            returns λ _. (
              record {
                keeps = keeps_old;
                in_range = bound-InRange;
                solution = bound-Solution (found ∙ ap done missed);
              },
              λ v solves. solves x t (find?-cons_self x t s),
            )))
