-- ===== src/Core/Types.antt =====
-- include/atp/core/types.h, term.h, literal.h and clause.h. An identifier is a number; where the
-- code casts one to `uint32_t` or `uint16_t` the cast is written out.
use richard_atp_engine.Prelude.{ℕ, Bool, List, ◌^◌, ◌-◌, ◌%◌, not, length, ◌==◌, [], true, false}

abbrev pub uint32_mod : ℕ
uint32_mod = 2 ^ 32

abbrev pub uint16_mod : ℕ
uint16_mod = 2 ^ 16

-- `UINT32_MAX`: no clause, or no symbol.
abbrev pub invalid_id : ℕ
invalid_id = 2 ^ 32 - 1

abbrev pub unsorted : ℕ
unsorted = 0

pub data SymbolKind : Type 0 where
  variable constant function predicate skolem : SymbolKind

-- The values of the enumeration, which `==` and `!=` compare.
abbrev pub kind_value : SymbolKind → ℕ
kind_value variable = 0
kind_value constant = 1
kind_value function = 2
kind_value predicate = 3
kind_value skolem = 4

abbrev pub is_variable_kind : SymbolKind → Bool
is_variable_kind k = kind_value k == kind_value variable

pub data InferenceRule : Type 0 where
  input resolution factoring : InferenceRule
  paramodulation demodulation equality_resolution equality_factoring : InferenceRule
  subsumption tautology_elim pure_literal_elim : InferenceRule
  theory_resolution theory_rewrite : InferenceRule

pub record Term : Type 0 where
  pub symbol : ℕ
  pub args : List ℕ

-- `Term::arity` casts the number of arguments to 16 bits.
abbrev pub arity : Term → ℕ
arity t = length t.args % uint16_mod

pub record Literal : Type 0 where
  pub atom : ℕ
  pub is_positive : Bool

-- `==` of two polarities.
abbrev pub same_polarity : Bool → Bool → Bool
same_polarity true p = p
same_polarity false p = not p

-- `Literal::complement`.
abbrev pub complement : Literal → Literal
complement l = record { atom = l.atom; is_positive = not l.is_positive }

pub record Clause : Type 0 where
  pub id : ℕ
  pub literals : List Literal
  pub rule : InferenceRule
  pub parent1 : ℕ
  pub parent2 : ℕ
  pub depth : ℕ

-- A clause with the initial values of the members.
abbrev pub new_clause : Clause
new_clause = record {
  id = invalid_id;
  literals = [];
  rule = input;
  parent1 = invalid_id;
  parent2 = invalid_id;
  depth = 0;
}

-- `Clause::isEmpty`.
abbrev pub is_empty : Clause → Bool
is_empty c = length c.literals == 0

-- `Clause::size`.
abbrev pub size : Clause → ℕ
size c = length c.literals
