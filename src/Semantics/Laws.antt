-- ===== src/Semantics/Laws.antt =====
-- The value of a term follows its structure, and does not change as the bank grows.
use richard_atp_engine.Prelude.{
  ℕ, zero, suc, ◌≡◌, ◌<◌, refl, sym, ap, ◌∙◌, Bool, true, false, List, [], ◌∷◌, map, none, some,
  arith, length, get_elem?, get_elem?_of_lt, Any, All, All-map_pred, map_congr, Bool-cases, done,
  ⊎_elim, ◌⊎◌, Option-cases, inl, inr,
}
use richard_atp_engine.Core.Types.{Term, Literal, is_variable_kind}
use richard_atp_engine.Core.SymbolTable.{SymbolInfo}
use richard_atp_engine.Core.TermBank.{TermBank, is_variable}
use richard_atp_engine.Core.TermBank.Laws.{IsWellFormed, Fits, Extends, Extends-lt}
use richard_atp_engine.Semantics.{Structure, var_term, value_to, value, Holds, Valid}

module _ (M : Structure) (b : TermBank) (v : ℕ → M.Carrier) where
  value_to-none : (n id : ℕ) → get_elem? b.terms id ≡ none → value_to M b v n id ≡ v id
  unfolding value_to
  value_to-none zero id e = refl
  value_to-none (suc n) id e = rw (e, value_to)

  value_to_var :
      (n id : ℕ) (t : Term)
      → get_elem? b.terms id ≡ some t
      → var_term b t ≡ true
      → value_to M b v n id ≡ v id
  unfolding value_to
  value_to_var zero id t e h = refl
  value_to_var (suc n) id t e h = rw (e, value_to) (rw (h, var_term))

  value_to_app :
      (n id : ℕ) (t : Term)
      → get_elem? b.terms id ≡ some t
      → var_term b t ≡ false
      → value_to M b v (suc n) id ≡ M.apply t.symbol (map (value_to M b v n) t.args)
  unfolding value_to
  value_to_app n id t e h = rw (e, value_to) (rw (h, var_term))

  -- A variable has the value that the assignment gives it.
  pub value-var :
      (id : ℕ) (t : Term)
      → get_elem? b.terms id ≡ some t
      → var_term b t ≡ true
      → value M b v id ≡ v id
  unfolding value
  value-var id = value_to_var (suc id) id

  module _ (w : IsWellFormed b) where
    -- Any depth above the identifier gives the same value.
    value_to_stable : (n k id : ℕ) → id < n → id < k → value_to M b v n id ≡ value_to M b v k id
    value_to_stable zero k id h h' = elim h [ ]
    value_to_stable (suc n) zero id h h' = elim h' [ ]
    value_to_stable (suc n) (suc k) id h h' = elim (Option-cases (get_elem? b.terms id)) [
      | inl e ↦ value_to-none (suc n) id e ∙ sym (value_to-none (suc k) id e)
      | inr (t, e) ↦ elim (Bool-cases (var_term b t)) [
        | inl x ↦ value_to_var (suc n) id t e x ∙ sym (value_to_var (suc k) id t e x)
        | inr x ↦
            value_to_app n id t e x
            ∙ ap (M.apply t.symbol) (
                map_congr (value_to M b v n) (value_to M b v k) t.args
                  (λ a (below : a < id). value_to_stable n k a (omega arith) (omega arith))
                  (w.fits id t e).below)
            ∙ sym (value_to_app k id t e x)
      ]
    ]

    -- Another term has the value that its symbol gives to the values of its arguments.
    pub value-app :
        (id : ℕ) (t : Term)
        → get_elem? b.terms id ≡ some t
        → var_term b t ≡ false
        → value M b v id ≡ M.apply t.symbol (map (value M b v) t.args)
    unfolding value
    value-app id t e h =
        value_to_app id id t e h
        ∙ ap (M.apply t.symbol) (
            map_congr (value_to M b v id) (λ a. value_to M b v (suc a) a) t.args
              (λ a (below : a < id). value_to_stable id (suc a) a below (omega arith))
              (w.fits id t e).below)

pub var_term_info :
    (b : TermBank) (t : Term) (info : SymbolInfo)
    → get_elem? b.symbols.infos t.symbol ≡ some info
    → var_term b t ≡ is_variable_kind info.kind
var_term_info b t info e = rw (e, var_term)

-- A term of a well-formed bank is a variable in a bank that extends it if it is one in the first.
pub var_term-Extends :
    (b c : TermBank) (t : Term) (n : ℕ)
    → Fits b.symbols n t
    → Extends b c
    → var_term c t ≡ var_term b t
var_term-Extends b c t n f x =
    let (info, e) = get_elem?_of_lt b.symbols.infos t.symbol f.known in
    var_term_info c t info (x.symbols t.symbol info e) ∙ sym (var_term_info b t info e)

module _ (M : Structure) (b c : TermBank) (w : IsWellFormed b) (x : Extends b c)
    (v : ℕ → M.Carrier) where
  value_to-Extends : (n id : ℕ) → id < length b.terms → value_to M c v n id ≡ value_to M b v n id
  unfolding value_to
  value_to-Extends zero id h = refl
  value_to-Extends (suc n) id h =
      let (t, e) = get_elem?_of_lt b.terms id h in
      let e' = x.terms id t e in
      let f = w.fits id t e in
      let same = var_term-Extends b c t id f x in
      elim (Bool-cases (var_term b t)) [
        | inl y ↦
            value_to_var M c v (suc n) id t e' (same ∙ y)
            ∙ sym (value_to_var M b v (suc n) id t e y)
        | inr y ↦
            value_to_app M c v n id t e' (same ∙ y)
            ∙ ap (M.apply t.symbol) (
                map_congr (value_to M c v n) (value_to M b v n) t.args
                  (λ a (below : a < id). value_to-Extends n a (omega arith)) f.below)
            ∙ sym (value_to_app M b v n id t e y)
      ]

  -- A bank that grows keeps the values of its terms.
  pub value-Extends : (id : ℕ) → id < length b.terms → value M c v id ≡ value M b v id
  unfolding value
  value-Extends id = value_to-Extends (suc id) id

-- The atoms of the literals are terms of the bank.
abbrev pub InBank : TermBank → List Literal → Type 0
InBank b = All (λ (l : Literal). l.atom < length b.terms)

pub Extends-InBank : {b c : TermBank} (ls : List Literal) → Extends b c → InBank b ls → InBank c ls
Extends-InBank {b} ls x = All-map_pred ls (λ l h. Extends-lt x h)

-- A literal that holds still holds as the bank grows.
pub Extends-Any :
    (M : Structure) (b c : TermBank) (ls : List Literal)
    → IsWellFormed b
    → Extends b c
    → (v : ℕ → M.Carrier) → InBank b ls
    → Any (Holds M b v) ls
    → Any (Holds M c v) ls
Extends-Any M b c [] w x v i a = a
Extends-Any M b c (k ∷ ks) w x v i (inl a) = inl (rw (value-Extends M b c w x v k.atom i.0) a)
Extends-Any M b c (k ∷ ks) w x v i (inr a) = inr (Extends-Any M b c ks w x v i.1 a)

-- A clause that is valid stays valid as the bank grows.
pub Extends-Valid :
    (M : Structure) (b c : TermBank) (ls : List Literal)
    → IsWellFormed b
    → Extends b c
    → InBank b ls
    → Valid M b ls
    → Valid M c ls
Extends-Valid M b c ls w x inside h v = Extends-Any M b c ls w x v inside (h v)

module _ (b : TermBank) (w : IsWellFormed b) where
  -- `isVariable` on a term of the bank reads no table out of bounds.
  pub is_variable-eq :
      (id : ℕ) (t : Term) → get_elem? b.terms id ≡ some t → is_variable b id ≡ done (var_term b t)
  unfolding is_variable
  is_variable-eq id t e =
      let (info, k) = get_elem?_of_lt b.symbols.infos t.symbol (w.fits id t e).known in
      rw (e, k) (rw (k, var_term))

  pub is_variable_cases :
      (id : ℕ)
      → id < length b.terms
      → (t : Term) × (get_elem? b.terms id ≡ some t)
        × ((is_variable b id ≡ done true) × (var_term b t ≡ true)
            ⊎ (is_variable b id ≡ done false) × (var_term b t ≡ false))
  is_variable_cases id h =
      let (t, e) = get_elem?_of_lt b.terms id h in
      let r = is_variable-eq id t e in
      (
        t,
        e,
        ⊎_elim (λ x. inl (r ∙ ap done x, x)) (λ x. inr (r ∙ ap done x, x))
            (Bool-cases (var_term b t)),
      )

  pub is_variable-Extends :
      (c : TermBank) (id : ℕ)
      → Extends b c
      → IsWellFormed c
      → id < length b.terms
      → is_variable c id ≡ is_variable b id
  unfolding is_variable
  is_variable-Extends c id x w' h =
      let (t, e) = get_elem?_of_lt b.terms id h in
      let (info, k) = get_elem?_of_lt b.symbols.infos t.symbol (w.fits id t e).known in
      rw (e, k, x.terms id t e, x.symbols t.symbol info k)

  pub var_term_of :
      (id : ℕ) (t : Term) (x : Bool)
      → get_elem? b.terms id ≡ some t
      → is_variable b id ≡ done x
      → var_term b t ≡ x
  var_term_of id t x e h = cc (is_variable-eq id t e)

  pub value_of_variable :
      (M : Structure) (v : ℕ → M.Carrier) (id : ℕ)
      → id < length b.terms
      → is_variable b id ≡ done true
      → value M b v id ≡ v id
  value_of_variable M v id h is_var =
      let (t, e) = get_elem?_of_lt b.terms id h in
      value-var M b v id t e (var_term_of id t true e is_var)
