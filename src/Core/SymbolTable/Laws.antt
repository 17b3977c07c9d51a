-- ===== src/Core/SymbolTable/Laws.antt =====
-- What `SymbolTable::intern` keeps and returns.
use richard_atp_engine.Prelude.{
  has_room, ◌++◌, emplace, ◌%◌, ℕ, ◌<◌, ◌≡◌, refl, sym, ap, subst, ◌⊎◌, inl, inr, List, [], ◌∷◌,
  some, none, arith, length, get_elem?, get_elem?-append, get_elem?-append_last,
  get_elem?-append_cases, find?, find?-cons_cases, find?-cons_self, find?-cons_ne, emplace_new,
  ids_eq, ⊎_elim, Option-cases, Outcome, done, failed, Machine, Post, returns, fails, Post-if,
  both_same, Returns, Returns-of_Post, mismatch, Bool-cases, Bool, true, if◌then◌else◌, leb, false,
  not, ◌||◌, ◌==◌,
}
use native.Mathlib.Nat.{mod-eq_of_lt}
use richard_atp_engine.Core.Types.{SymbolKind, kind_value, uint32_mod}
use richard_atp_engine.Core.SymbolTable.{SymbolInfo, SymbolTable, intern, check_known, empty_table}

-- The two directions of the table agree.
pub record IsValid (t : SymbolTable) : Type 0 where
  pub found :
      (name : List ℕ) (id : ℕ)
      → find? name t.name_to_id ≡ some id
      → (info : SymbolInfo) × (get_elem? t.infos id ≡ some info) × (info.name ≡ name)
  pub listed :
      (id : ℕ) (info : SymbolInfo)
      → get_elem? t.infos id ≡ some info
      → find? info.name t.name_to_id ≡ some id

-- No symbol goes or changes.
abbrev pub Extends : SymbolTable → SymbolTable → Type 0
Extends t u =
    (id : ℕ) (info : SymbolInfo)
    → get_elem? t.infos id ≡ some info
    → get_elem? u.infos id ≡ some info

-- What `intern` promises of the symbol that it returns.
pub record Interned (t : SymbolTable) (name : List ℕ) (kind : SymbolKind) (arity : ℕ)
    (r : ℕ × SymbolTable) : Type 0 where
  pub valid : IsValid r.1
  pub extends : Extends t r.1
  pub info : SymbolInfo
  pub at : get_elem? r.1.infos r.0 ≡ some info
  pub has_name : info.name ≡ name
  pub has_kind : info.kind ≡ kind
  pub has_arity : info.arity ≡ arity

pub empty_table-IsValid : IsValid empty_table
empty_table-IsValid = record { found = λ name id h. cc; listed = λ id info h. cc }

kind_value_injective : (a b : SymbolKind) → kind_value a ≡ kind_value b → a ≡ b
kind_value_injective a b h = ground arith

module _ (t : SymbolTable) (v : IsValid t) where
  add_symbol-IsValid :
      (info : SymbolInfo)
      → find? info.name t.name_to_id ≡ none
      → IsValid (record {
        infos = t.infos ++ info ∷ [];
        name_to_id = (info.name, length t.infos) ∷ t.name_to_id;
      })
  add_symbol-IsValid info new = record {
    found = λ name id h.
        ⊎_elim (λ (same, e). (info, rw (← e) (get_elem?-append_last t.infos info), same))
          (λ old.
            let (i, at, named) = v.found name id old in
            (i, get_elem?-append t.infos (info ∷ []) id i at, named))
          (find?-cons_cases info.name name (length t.infos) id t.name_to_id h);
    listed = λ id i h.
        ⊎_elim
          (λ old.
            rw
              (find?-cons_ne info.name i.name (length t.infos) t.name_to_id
                (λ e. cc (v.listed id i old)))
              (v.listed id i old))
          (λ (at, e). rw at (
            subst
              (λ (x : SymbolInfo).
                find? x.name ((info.name, length t.infos) ∷ t.name_to_id) ≡ some (length t.infos))
              (sym e) (find?-cons_self info.name (length t.infos) t.name_to_id)))
          (get_elem?-append_cases t.infos info id i h);
  }

  check_known-Interned :
      (id : ℕ) (name : List ℕ) (kind : SymbolKind) (arity : ℕ)
      → find? name t.name_to_id ≡ some id
      → Post (Interned t name kind arity) (check_known t id kind arity)
  check_known-Interned id name kind arity h =
      let (info, at, named) = v.found name id h in
      rw at (
        Post-if (not (kind_value info.kind == kind_value kind) || not (info.arity == arity))
          (λ _. fails)
          λ same. returns (record {
            valid = v;
            extends = λ i x old. old;
            info = info;
            at = at;
            has_name = named;
            has_kind = kind_value_injective info.kind kind (both_same _ _ _ _ same).0;
            has_arity = (both_same _ _ _ _ same).1;
          }))

  -- Under a capacity below 2³², `intern` keeps the table valid, and the symbol that it returns has
  -- the name, the kind and the arity asked for.
  pub intern-Interned :
      (m : Machine) (name : List ℕ) (kind : SymbolKind) (arity sort : ℕ)
      → m.capacity < uint32_mod
      → Post (Interned t name kind arity) (intern m name kind arity sort t)
  unfolding intern
  intern-Interned m name kind arity sort small = elim (Option-cases (find? name t.name_to_id)) [
    | inr (id, known) ↦ rw (known, intern) (check_known-Interned id name kind arity known)
    | inl new ↦
        rw (new, intern)
          (Post-if (leb m.capacity (length t.infos)) (λ _. fails)
            λ room.
              rw (mod-eq_of_lt (fits room), emplace_new name (length t.infos) t.name_to_id new)
                (returns (record {
                  valid = add_symbol-IsValid (entry) new;
                  extends = λ i x old. get_elem?-append t.infos (entry ∷ []) i x old;
                  info = entry;
                  at = get_elem?-append_last t.infos entry;
                  has_name = refl;
                  has_kind = refl;
                  has_arity = refl;
                })))
  ]
    where
      entry : SymbolInfo
      entry = record { name = name; kind = kind; arity = arity; sort = sort }

      fits : leb m.capacity (length t.infos) ≡ false → length t.infos < uint32_mod
      fits h = ground arith

-- What `intern` does with a name of the table: it returns the symbol's identifier and the table
-- as it is if the kind and the arity are the symbol's, and throws otherwise.
abbrev pub KnownResult :
    SymbolTable → ℕ → SymbolInfo → SymbolKind → ℕ → Outcome (ℕ × SymbolTable) → Type 0
KnownResult t id info kind arity r =
    ((info.kind ≡ kind) × (info.arity ≡ arity) × (r ≡ done (id, t)))
    ⊎ (((info.kind ≡ kind) × (info.arity ≡ arity) → ⊥) × (r ≡ failed mismatch))

known_test :
    (a b c d : ℕ)
    → ((not (a == b) || not (c == d)) ≡ false) × (a ≡ b) × (c ≡ d)
      ⊎ ((not (a == b) || not (c == d)) ≡ true) × ((a ≡ b) × (c ≡ d) → ⊥)
known_test a b c d = elim (Bool-cases (not (a == b) || not (c == d))) [
  | inr same ↦ inl (same, (both_same a b c d same).0, (both_same a b c d same).1)
  | inl other ↦ inr (other, λ (e, f). differ a b c d other e f)
]
  where
    differ : (x y z w : ℕ) → (not (x == y) || not (z == w)) ≡ true → x ≡ y → z ≡ w → ⊥
    differ x y z w h e f = ground arith

-- For a name that a valid table has, `intern` never adds a symbol: it returns the known identifier
-- when kind and arity agree with the request, and throws when they do not.
pub intern_known :
    (t : SymbolTable) (m : Machine) (id : ℕ) (info : SymbolInfo) (kind : SymbolKind)
    (arity sort : ℕ)
    → IsValid t
    → get_elem? t.infos id ≡ some info
    → KnownResult t id info kind arity (intern m info.name kind arity sort t)
unfolding intern
intern_known t m id info kind arity sort v at =
    rw (v.listed id info at, intern)
      (rw at (by_test (known_test (kind_value info.kind) (kind_value kind) info.arity arity)))
  where
    result : Bool → Outcome (ℕ × SymbolTable)
    result b = if b then failed mismatch else done (id, t)

    by_test :
        ((not (kind_value info.kind == kind_value kind) || not (info.arity == arity)) ≡ false)
            × (kind_value info.kind ≡ kind_value kind)
            × (info.arity ≡ arity)
          ⊎ ((not (kind_value info.kind == kind_value kind) || not (info.arity == arity)) ≡ true)
            × ((kind_value info.kind ≡ kind_value kind) × (info.arity ≡ arity) → ⊥)
        → KnownResult t id info kind arity
            (result (not (kind_value info.kind == kind_value kind) || not (info.arity == arity)))
    by_test (inl (same, k, a)) = inl (kind_value_injective info.kind kind k, a, rw same)
    by_test (inr (other, no_match)) = inr (λ (k, a). no_match (ap kind_value k, a), rw other)

-- For a name that a valid table with room does not have, under a capacity below 2³², `intern`
-- returns a symbol with this name, kind and arity in a valid table that keeps all old symbols.
pub intern_new :
    (t : SymbolTable) (m : Machine) (name : List ℕ) (kind : SymbolKind) (arity sort : ℕ)
    → IsValid t
    → m.capacity < uint32_mod
    → length t.infos < m.capacity
    → find? name t.name_to_id ≡ none
    → Returns (Interned t name kind arity) (intern m name kind arity sort t)
unfolding intern
intern_new t m name kind arity sort v cap room new =
    Returns-of_Post added run (intern-Interned t v m name kind arity sort cap)
  where
    id : ℕ
    id = length t.infos % uint32_mod

    added : ℕ × SymbolTable
    added = (
      id,
      record {
        infos = t.infos ++ record { name = name; kind = kind; arity = arity; sort = sort } ∷ [];
        name_to_id = emplace name id t.name_to_id;
      },
    )

    run : intern m name kind arity sort t ≡ done added
    run = rw (new, intern) (rw (has_room m.capacity (length t.infos) room))
