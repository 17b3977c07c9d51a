-- ===== src/Core/TermBank/Laws.antt =====
-- What `TermBank::makeTerm` keeps: the pool stays hash-consed, and only grows.
use native.Mathlib.Nat.{mod-eq_of_lt}
use richard_atp_engine.Prelude.{
  has_room, ◌++◌, emplace, ◌%◌, ℕ, ◌<◌, ◌≡◌, refl, sym, ap, subst, ◌∙◌, inl, inr, List, [], ◌∷◌,
  some, none, arith, length, get_elem?, get_elem?-lt, get_elem?_of_lt, get_elem?-append,
  get_elem?-append_last, get_elem?-append_cases, All, find?, find?-cons_cases, find?-cons_self,
  find?-cons_ne, emplace_new, Option-cases, done, Machine, Post, Post-if, returns, fails, ⊎_elim,
  leb, false, Option, Returns, Returns-of_Post, Post-done,
}
use richard_atp_engine.Core.Types.{Term, uint32_mod, uint16_mod}
use richard_atp_engine.Core.SymbolTable.{SymbolTable}
use richard_atp_engine.Core.SymbolTable.Laws as Symbols
use richard_atp_engine.Core.TermBank.{TermKey, key_eq, TermBank, make_term, empty_bank}

-- The key under which a term is filed.
abbrev pub key_of : Term → TermKey
key_of t = record { symbol = t.symbol; args = t.args }

-- The shape that a term of a bank with `n` terms may have.
pub record Fits (symbols : SymbolTable) (n : ℕ) (t : Term) : Type 0 where
  pub below : All (λ a. a < n) t.args
  pub known : t.symbol < length symbols.infos
  pub small : length t.args < uint16_mod

-- The pool is hash-consed: a term stands above its arguments, and the map gives for each key the
-- one place where that term stands.
pub record IsWellFormed (b : TermBank) : Type 0 where
  pub fits : (i : ℕ) (t : Term) → get_elem? b.terms i ≡ some t → Fits b.symbols i t
  pub found :
      (key : TermKey) (i : ℕ)
      → find? key b.term_to_id ≡ some i
      → (t : Term) × (get_elem? b.terms i ≡ some t) × (key_of t ≡ key)
  pub listed :
      (i : ℕ) (t : Term) → get_elem? b.terms i ≡ some t → find? (key_of t) b.term_to_id ≡ some i

-- No term and no symbol goes or changes.
pub record Extends (b c : TermBank) : Type 0 where
  pub terms : (i : ℕ) (t : Term) → get_elem? b.terms i ≡ some t → get_elem? c.terms i ≡ some t
  pub symbols : Symbols.Extends b.symbols c.symbols

pub Extends-refl : (b : TermBank) → Extends b b
Extends-refl b = record { terms = λ i t h. h; symbols = λ i t h. h }

pub Extends-trans : {b c d : TermBank} → Extends b c → Extends c d → Extends b d
Extends-trans p q = record {
  terms = λ i t h. q.terms i t (p.terms i t h);
  symbols = λ i t h. q.symbols i t (p.symbols i t h);
}

pub Extends-lt : {b c : TermBank} → Extends b c → {i : ℕ} → i < length b.terms → i < length c.terms
Extends-lt {b} {c} p {i} h =
    let (t, e) = get_elem?_of_lt b.terms i h in get_elem?-lt c.terms i t (p.terms i t e)

pub empty_bank-IsWellFormed : (t : SymbolTable) → IsWellFormed (empty_bank t)
empty_bank-IsWellFormed t = record { fits = λ i x h. cc; found = λ k i h. cc; listed = λ i x h. cc }

-- What `make_term` promises.
pub record Made (b : TermBank) (t : Term) (r : ℕ × TermBank) : Type 0 where
  pub well_formed : IsWellFormed r.1
  pub extends : Extends b r.1
  pub at : get_elem? r.1.terms r.0 ≡ some t
  pub same_symbols : r.1.symbols ≡ b.symbols

same_parts :
    (f g : ℕ) (xs ys : List ℕ)
    → ◌≡◌ {A = Option Term}
        (some (record { symbol = f; args = xs }))
        (some (record { symbol = g; args = ys }))
    → (f ≡ g) × (xs ≡ ys)
same_parts f g xs ys e = (λ i. (term_of (e i)).symbol, λ i. (term_of (e i)).args)
  where
    term_of : Option Term → Term
    term_of (some t) = t
    term_of none = record { symbol = f; args = xs }

module _ (b : TermBank) (w : IsWellFormed b) where
  add_term-IsWellFormed :
      (t : Term)
      → Fits b.symbols (length b.terms) t
      → find? (key_of t) b.term_to_id ≡ none
      → IsWellFormed (record {
        terms = b.terms ++ t ∷ [];
        term_to_id = (key_of t, length b.terms) ∷ b.term_to_id;
        symbols = b.symbols;
      })
  add_term-IsWellFormed t f new = record {
    fits = λ i x h.
        ⊎_elim (λ old. w.fits i x old) (λ (at, e). rw (at, e) f)
          (get_elem?-append_cases b.terms t i x h);
    found = λ key i h.
        ⊎_elim (λ (same, e). (t, rw (← e) (get_elem?-append_last b.terms t), same))
          (λ old.
            let (x, at, named) = w.found key i old in
            (x, get_elem?-append b.terms (t ∷ []) i x at, named))
          (find?-cons_cases (key_of t) key (length b.terms) i b.term_to_id h);
    listed = λ i x h.
        ⊎_elim
          (λ old.
            rw
              (find?-cons_ne (key_of t) (key_of x) (length b.terms) b.term_to_id
                (λ e. cc (w.listed i x old)))
              (w.listed i x old))
          (λ (at, e). rw at (
            subst
              (λ (y : Term).
                find? (key_of y) ((key_of t, length b.terms) ∷ b.term_to_id)
                ≡ some (length b.terms))
              (sym e) (find?-cons_self (key_of t) (length b.terms) b.term_to_id)))
          (get_elem?-append_cases b.terms t i x h);
  }

  -- In a well-formed bank `make_term` files the term once: afterwards its identifier names it, the
  -- bank is well-formed, and no other term has changed.
  pub make_term-Made :
      (m : Machine) (symbol : ℕ) (args : List ℕ)
      → m.capacity < uint32_mod
      → Fits b.symbols (length b.terms) (record { symbol = symbol; args = args })
      → Post (Made b (record { symbol = symbol; args = args })) (make_term m symbol args b)
  unfolding make_term
  make_term-Made m symbol args cap f = elim (Option-cases (find? (key_of new_term) b.term_to_id)) [
    | inr (id, known) ↦
        let (x, at, named) = w.found (key_of new_term) id known in
        rw (known, make_term)
          (returns (record {
            well_formed = w;
            extends = Extends-refl b;
            at =
                at
                ∙ ap some (ap (λ (k : TermKey). record { symbol = k.symbol; args = k.args }) named);
            same_symbols = refl;
          }))
    | inl new ↦
        rw (new, make_term)
          (Post-if (leb m.capacity (length b.terms)) (λ _. fails)
            λ room.
              rw
                (
                  mod-eq_of_lt (in_range room),
                  emplace_new (key_of new_term) (length b.terms) b.term_to_id new,
                )
                (returns (record {
                  well_formed = add_term-IsWellFormed new_term f new;
                  extends = record {
                    terms = λ i x old. get_elem?-append b.terms (new_term ∷ []) i x old;
                    symbols = λ i x old. old;
                  };
                  at = get_elem?-append_last b.terms new_term;
                  same_symbols = refl;
                })))
  ]
    where
      new_term : Term
      new_term = record { symbol = symbol; args = args }

      in_range : leb m.capacity (length b.terms) ≡ false → length b.terms < uint32_mod
      in_range h = ground arith

  make_term_done :
      (m : Machine) (symbol : ℕ) (args : List ℕ)
      → length b.terms < m.capacity
      → (r : ℕ × TermBank) × (make_term m symbol args b ≡ done r)
  unfolding make_term
  make_term_done m symbol args room =
      elim (Option-cases (find? (record { symbol = symbol; args = args }) b.term_to_id)) [
        | inr (id, known) ↦ ((id, b), rw (known, make_term))
        | inl new ↦ (added, rw (new, make_term) (rw (has_room m.capacity (length b.terms) room)))
      ]
    where
      id : ℕ
      id = length b.terms % uint32_mod

      added : ℕ × TermBank
      added = (
        id,
        record {
          terms = b.terms ++ record { symbol = symbol; args = args } ∷ [];
          term_to_id = emplace (record { symbol = symbol; args = args }) id b.term_to_id;
          symbols = b.symbols;
        },
      )

  -- In a well-formed bank with room for one more term, under a capacity below 2³², `makeTerm`
  -- returns, for a symbol and arguments that fit the bank, the identifier of a term with this
  -- symbol and these arguments; the bank is again well-formed, no other term and no symbol has
  -- changed.
  pub make_term-Returns :
      (m : Machine) (symbol : ℕ) (args : List ℕ)
      → m.capacity < uint32_mod
      → length b.terms < m.capacity
      → Fits b.symbols (length b.terms) (record { symbol = symbol; args = args })
      → Returns (Made b (record { symbol = symbol; args = args })) (make_term m symbol args b)
  make_term-Returns m symbol args cap room f =
      let (r, run) = make_term_done m symbol args room in
      Returns-of_Post r run (make_term-Made m symbol args cap f)

  -- Two places never hold the same term.
  pub terms_distinct :
      (i j : ℕ) (t : Term) → get_elem? b.terms i ≡ some t → get_elem? b.terms j ≡ some t → i ≡ j
  terms_distinct i j t p q = cc (w.listed i t p, w.listed j t q)

-- A larger symbol table leaves a bank well-formed.
pub with_symbols-IsWellFormed :
    (b : TermBank) (t : SymbolTable)
    → IsWellFormed b
    → Symbols.Extends b.symbols t
    → IsWellFormed (record b { symbols = t })
with_symbols-IsWellFormed b t w x = record {
  fits = λ i u e.
      let f = w.fits i u e in
      record {
        below = f.below;
        known =
            let (info, at) = get_elem?_of_lt b.symbols.infos u.symbol f.known in
            get_elem?-lt t.infos u.symbol info (x u.symbol info at);
        small = f.small;
      };
  found = w.found;
  listed = w.listed;
}

-- `makeTerm` is canonical: under a capacity below 2³², if two requests for terms that fit a
-- well-formed bank, one after the other, get one identifier, they were for one symbol and the
-- same arguments.
pub make_term_injective :
    (b : TermBank) (w : IsWellFormed b) (m : Machine) (f g : ℕ) (xs ys : List ℕ)
    (r t : ℕ × TermBank)
    → m.capacity < uint32_mod
    → Fits b.symbols (length b.terms) (record { symbol = f; args = xs })
    → make_term m f xs b ≡ done r
    → Fits r.1.symbols (length r.1.terms) (record { symbol = g; args = ys })
    → make_term m g ys r.1 ≡ done t
    → r.0 ≡ t.0
    → (f ≡ g) × (xs ≡ ys)
make_term_injective b w m f g xs ys r t cap fits first fits' second same =
    let made = Post-done (make_term-Made b w m f xs cap fits) first in
    let made' = Post-done (make_term-Made r.1 made.well_formed m g ys cap fits') second in
    let kept = made'.extends.terms r.0 (record { symbol = f; args = xs }) made.at in
    same_parts f g xs ys (sym kept ∙ ap (get_elem? t.1.terms) same ∙ made'.at)
