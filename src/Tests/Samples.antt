-- ===== src/Tests/Samples.antt =====
-- The data of the tests: a bank with the atoms p(X), p(a) and q(X, X).
use richard_atp_engine.Prelude.{
  ℕ, ◌≡◌, ◌<◌, refl, List, [], ◌∷◌, true, false, Machine, Outcome, done, ◌>>=◌, Post, Post-done,
  Post-bind, returns, All, Bool, Permᴰ, arith, length,
}
use mathlib.Core.List.Permᴰ
use richard_atp_engine.Core.Types.{
  Clause, SymbolKind, new_clause, variable, constant, function, uint32_mod, uint16_mod,
}
use richard_atp_engine.Core.SymbolTable.{empty_table, intern}
use richard_atp_engine.Core.SymbolTable.Laws.{empty_table-IsValid}
use richard_atp_engine.Core.TermBank.{empty_bank, make_term}
use richard_atp_engine.Core.TermBank.Laws.{empty_bank-IsWellFormed}
use richard_atp_engine.Infer.Renaming.{Engine}
use richard_atp_engine.Infer.Renaming.Fresh.{IsSound}
use richard_atp_engine.Frontend.Terms.{named_term, named_term-Named}

abbrev pub machine : Machine
machine = record { capacity = 1000; fuel = 30; iteration = λ xs. xs }

pub machine_fits : machine.capacity < uint32_mod
machine_fits = omega arith

pub machine_walks : (xs : List ℕ) → Permᴰ xs (machine.iteration xs)
machine_walks xs = Permᴰ.refl xs

abbrev pub empty_engine : Engine
empty_engine = record { bank = empty_bank empty_table; var_counter = 0 }

pub empty_engine-IsSound : IsSound empty_engine
empty_engine-IsSound = record {
  bank = empty_bank-IsWellFormed empty_table;
  table = empty_table-IsValid;
}

-- The state after a term is made; each test makes its terms from the empty engine.
abbrev pub make : List ℕ → SymbolKind → List ℕ → Engine → Outcome (ℕ × Engine)
make name kind args e =
    named_term machine name kind args e.bank >>= λ (id, b). done (id, record e { bank = b })

-- X is 0, a is 1, p(X) is 2 and p(a) is 3.
abbrev pub p_engine : Engine
p_engine = record {
  bank = record {
    terms =
        record { symbol = 0; args = [] }
        ∷ record { symbol = 1; args = [] }
        ∷ record { symbol = 2; args = 0 ∷ [] }
        ∷ record { symbol = 2; args = 1 ∷ [] }
        ∷ [];
    term_to_id =
        (record { symbol = 2; args = 1 ∷ [] }, 3)
        ∷ (record { symbol = 2; args = 0 ∷ [] }, 2)
        ∷ (record { symbol = 1; args = [] }, 1)
        ∷ (record { symbol = 0; args = [] }, 0)
        ∷ [];
    symbols = record {
      infos =
          record { name = b'X' ∷ []; kind = variable; arity = 0; sort = 0 }
          ∷ record { name = b'a' ∷ []; kind = constant; arity = 0; sort = 0 }
          ∷ record { name = b'p' ∷ []; kind = function; arity = 1; sort = 0 }
          ∷ [];
      name_to_id = (b'p' ∷ [], 2) ∷ (b'a' ∷ [], 1) ∷ (b'X' ∷ [], 0) ∷ [];
    };
  };
  var_counter = 0;
}

-- Making one more term keeps an engine sound.
make-IsSound :
    (name : List ℕ) (kind : SymbolKind) (args : List ℕ) (e : Engine)
    → IsSound e
    → All (λ a. a < length e.bank.terms) args
    → length args < uint16_mod
    → Post (λ (id, e'). IsSound e') (make name kind args e)
make-IsSound name kind args e ok below small =
    Post-bind (named_term-Named machine name kind args e machine_fits ok below small)
      λ (id, b) named. returns named.sound

p_engine_made :
    (make (b'X' ∷ []) variable [] empty_engine >>= λ (x, e₁).
    make (b'a' ∷ []) constant [] e₁ >>= λ (a, e₂).
    make (b'p' ∷ []) function (x ∷ []) e₂ >>= λ (px, e₃). make (b'p' ∷ []) function (a ∷ []) e₃)
    ≡ done (3, p_engine)
unfolding named_term make_term intern
p_engine_made = refl

pub p_engine-IsSound : IsSound p_engine
unfolding named_term make_term intern
p_engine-IsSound =
    let one =
      Post-done
        (make-IsSound (b'X' ∷ []) variable [] empty_engine empty_engine-IsSound tt (omega arith))
        refl in
    let two = Post-done (make-IsSound (b'a' ∷ []) constant [] _ one tt (omega arith)) refl in
    let three =
      Post-done (make-IsSound (b'p' ∷ []) function (0 ∷ []) _ two (omega arith) (omega arith))
        refl in
    Post-done (make-IsSound (b'p' ∷ []) function (1 ∷ []) _ three (omega arith) (omega arith)) refl

-- The clauses p(X) and ¬p(a).
abbrev pub unit : ℕ → Bool → Clause
unit atom sign = record new_clause { literals = record { atom = atom; is_positive = sign } ∷ [] }

abbrev pub p_clauses : List Clause
p_clauses = unit 2 true ∷ unit 3 false ∷ []
