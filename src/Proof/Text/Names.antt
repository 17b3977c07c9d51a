-- ===== src/Proof/Text/Names.antt =====
-- The readable names of variables, `prettyVarName`, are different for different numbers.
use richard_atp_engine.Prelude.{
  ℕ, zero, suc, ◌+◌, ◌*◌, ◌%◌, ◌/◌, ◌<◌, ◌≡◌, ◌∙◌, refl, sym, ap, Bool-cases, inl, inr, List, [],
  ◌∷◌, ◌==◌, if◌then◌else◌, arith,
}
use richard_atp_engine.Prelude.Decimal.{read, read-to_string}
use richard_atp_engine.Proof.Text.{base_letter, pretty_var_name}

-- The index below 6 of a letter.
letter_index : ℕ → ℕ
letter_index c =
    if c == b'Y'
    then 1
    else if c == b'Z'
    then 2
    else if c == b'W'
    then 3
    else if c == b'V'
    then 4
    else if c == b'U'
    then 5
    else 0

letter_index-base_letter : (i : ℕ) → i < 6 → letter_index (base_letter i) ≡ i
unfolding letter_index
letter_index-base_letter zero h = refl
letter_index-base_letter (suc zero) h = refl
letter_index-base_letter (suc (suc zero)) h = refl
letter_index-base_letter (suc (suc (suc zero))) h = refl
letter_index-base_letter (suc (suc (suc (suc zero)))) h = refl
letter_index-base_letter (suc (suc (suc (suc (suc zero))))) h = refl
letter_index-base_letter (suc (suc (suc (suc (suc (suc i)))))) h = absurd (omega arith)

-- The number that a name stands for.
abbrev name_index : List ℕ → ℕ
name_index [] = 0
name_index (c ∷ cs) = 6 * read 0 cs + letter_index c

name_index-pretty_var_name : (i : ℕ) → name_index (pretty_var_name i) ≡ i
unfolding pretty_var_name
name_index-pretty_var_name i = elim (Bool-cases (i / 6 == 0)) [
  | inl short ↦ rw short (rw (letter_index-base_letter (i % 6) (omega arith)) (ground arith))
  | inr long ↦
      rw (long, read-to_string (i / 6), letter_index-base_letter (i % 6) (omega arith))
        (omega arith)
]

-- Variables with different numbers get different readable names.
pub pretty_var_name_injective : (i j : ℕ) → pretty_var_name i ≡ pretty_var_name j → i ≡ j
pretty_var_name_injective i j e =
    sym (name_index-pretty_var_name i) ∙ ap name_index e ∙ name_index-pretty_var_name j
