-- ===== src/Core/TermBank.antt =====
-- src/core/term_bank.cc: the pool of hash-consed terms. `symbols_` points to the program's one
-- symbol table, which the model keeps beside the terms.
pub mod Laws
pub mod Ends
use richard_atp_engine.Prelude.{
  ℕ, ◌≡◌, ap, ◌↔◌, Bool, true, ◌&&◌, List, [], ◌∷◌, ◌++◌, ◌%◌, none, some, length, get_elem?, find?,
  emplace, Eq, ◌==◌, ==_iff, list_eq, list_eq_iff, leb, if◌then◌else◌, Outcome, done, failed, ◌>>=◌,
  bad_alloc, expect_some, Machine, arith,
}
use richard_atp_engine.Core.Types.{Term, uint32_mod}
use richard_atp_engine.Core.SymbolTable.{SymbolTable, is_variable_symbol}

pub record TermKey : Type 0 where
  pub symbol : ℕ
  pub args : List ℕ

-- `TermKey::operator==`, member by member.
abbrev pub key_beq : TermKey → TermKey → Bool
key_beq j k = (j.symbol == k.symbol) && list_eq j.args k.args

pub key_beq_iff : (j k : TermKey) → (key_beq j k ≡ true) ↔ (j ≡ k)
key_beq_iff j k =
    let (to, from) = list_eq_iff j.args k.args in
    (λ h. ground arith, λ e. ground (arith, ap (λ (i : TermKey). i.args) e))

instance abbrev pub key_eq : Eq TermKey
key_eq = record { beq = key_beq; beq_iff = key_beq_iff }

pub record TermBank : Type 0 where
  pub terms : List Term
  pub term_to_id : List (TermKey × ℕ)
  pub symbols : SymbolTable

-- `TermBank::TermBank`: no terms yet, over a symbol table.
abbrev pub empty_bank : SymbolTable → TermBank
empty_bank t = record { terms = []; term_to_id = []; symbols = t }

-- A new term at the end of `terms_`, and its identifier.
abbrev pub add_term : Machine → TermKey → TermBank → Outcome (ℕ × TermBank)
add_term m key b =
    let new_id = length b.terms % uint32_mod in
    if leb m.capacity (length b.terms)
    then failed bad_alloc
    else done (
      new_id,
      record {
        terms = b.terms ++ record { symbol = key.symbol; args = key.args } ∷ [];
        term_to_id = emplace key new_id b.term_to_id;
        symbols = b.symbols;
      },
    )

-- `TermBank::makeTerm`: the identifier of the term with this symbol and these arguments, which is
-- created if it is not there.
unfoldable pub make_term : Machine → ℕ → List ℕ → TermBank → Outcome (ℕ × TermBank)
make_term m symbol args b =
    let key : TermKey = record { symbol = symbol; args = args } in
    elim (find? key b.term_to_id) [ some id ↦ done (id, b) | none ↦ add_term m key b ]

-- `TermBank::makeVar`.
abbrev pub make_var : Machine → ℕ → TermBank → Outcome (ℕ × TermBank)
make_var m var_symbol b = make_term m var_symbol [] b

-- `TermBank::getTerm`.
abbrev pub get_term : TermBank → ℕ → Outcome Term
get_term b id = expect_some (get_elem? b.terms id)

-- `TermBank::isVariable`.
unfoldable pub is_variable : TermBank → ℕ → Outcome Bool
is_variable b id = do t ← get_term b id; is_variable_symbol b.symbols t.symbol
