-- ===== src/Core/TermBank/Ends.antt =====
-- src/core/term_bank.cc: `makeTerm` returns, or there is no memory left.
use richard_atp_engine.Prelude.{
  ℕ, ◌≡◌, refl, inl, inr, List, Option-cases, find?, length, leb, Machine, Ends, gives, throws,
  Ends-if,
}
use richard_atp_engine.Core.TermBank.{TermBank, make_term, key_eq}

pub make_term-Ends :
    (m : Machine) (symbol : ℕ) (args : List ℕ) (b : TermBank)
    → Ends (λ r. r.1.symbols ≡ b.symbols) (make_term m symbol args b)
unfolding make_term
make_term-Ends m symbol args b =
    elim (Option-cases (find? (record { symbol = symbol; args = args }) b.term_to_id)) [
      | inl new ↦
          rw (new, make_term)
            (Ends-if (leb m.capacity (length b.terms)) (λ _. throws tt) (λ _. gives refl))
      | inr (id, known) ↦ rw (known, make_term) (gives refl)
    ]
