-- ===== src/Infer/Substitution/Room.antt =====
-- Applying a substitution does not make a bank larger than a container can be.
use richard_atp_engine.Prelude.{
  ℕ, zero, suc, ◌+◌, ◌≤◌, ◌≡◌, inl, inr, false, List, [], ◌∷◌, length, length-append_one, leb,
  find?, Option-cases, Machine, Outcome, Post, returns, fails, Post-bind, Post-if, Post-self, arith,
}
use richard_atp_engine.Core.TermBank.{TermBank, key_eq, make_term, is_variable, get_term}
use richard_atp_engine.Infer.Substitution.{Substitution, resolve, apply_each, apply_substitution}

module _ (m : Machine) where
  -- The bank is not larger than a container can be.
  unfoldable pub IsRoomy : TermBank → Type 0
  IsRoomy b = length b.terms ≤ m.capacity

  make_term-IsRoomy :
      (symbol : ℕ) (args : List ℕ) (b : TermBank)
      → IsRoomy b
      → Post (λ r. IsRoomy r.1) (make_term m symbol args b)
  unfolding make_term IsRoomy
  make_term-IsRoomy symbol args b h =
      elim (Option-cases (find? (record { symbol = symbol; args = args }) b.term_to_id)) [
        | inr (id, known) ↦ rw (known, make_term) (returns h)
        | inl new ↦
            rw (new, make_term)
              (Post-if (leb m.capacity (length b.terms)) (λ _. fails)
                λ room. returns (fits (length b.terms) _ room (length-append_one b.terms _)))
      ]
    where
      fits : (n k : ℕ) → leb m.capacity n ≡ false → k ≡ n + 1 → k ≤ m.capacity
      fits n k room e = ground arith

  module _ (s : Substitution) where
    apply_each-IsRoomy :
        (step : ℕ → TermBank → Outcome (ℕ × TermBank))
        → ((a : ℕ) (c : TermBank) → IsRoomy c → Post (λ r. IsRoomy r.1) (step a c))
        → (args : List ℕ) (c : TermBank) → IsRoomy c
        → Post (λ r. IsRoomy r.1) (apply_each step args c)
    unfolding apply_each
    apply_each-IsRoomy step each [] c h = returns h
    apply_each-IsRoomy step each (a ∷ args) c h = Post-bind (each a c h) λ (a', d) h₁.
        Post-bind (apply_each-IsRoomy step each args d h₁) λ (args', d') h₂. returns h₂

    pub apply_substitution-IsRoomy :
        (f id : ℕ) (c : TermBank)
        → IsRoomy c
        → Post (λ r. IsRoomy r.1) (apply_substitution m f s id c)
    unfolding apply_substitution
    apply_substitution-IsRoomy zero id c h = fails
    apply_substitution-IsRoomy (suc f) id c h = Post-bind (Post-self (resolve m.fuel s c id)) λ r _.
        Post-bind (Post-self (is_variable c r)) λ is_var _.
          Post-if is_var (λ _. returns h)
            λ _. Post-bind (Post-self (get_term c r)) λ t _.
              Post-bind
                (apply_each-IsRoomy (apply_substitution m f s)
                  (λ a d hd. apply_substitution-IsRoomy f a d hd) t.args c h)
                λ (args, d) hd. make_term-IsRoomy t.symbol args d hd
