-- ===== src/Simplify/Tautology/Laws.antt =====
-- What `isTautology` decides, and that a tautology is valid everywhere.
use richard_atp_engine.Prelude.{
  Bool, true, ◌≡◌, ◌↔◌, not, refl, sym, List, [], ◌∷◌, inl, inr, ◌⊎◌, Any-of_Mem, Memᴰ, arith,
  Bool-cases, subst,
}
use richard_atp_engine.Core.Types.{Literal, Clause, complement}
use richard_atp_engine.Core.TermBank.{TermBank}
use richard_atp_engine.Semantics.{Structure, value, Holds, Valid}
use richard_atp_engine.Simplify.Tautology.{complementary, has_complement, has_pair, is_tautology}

complementary_iff : (k l : Literal) → (complementary k l ≡ true) ↔ (complement k ≡ l)
complementary_iff k l = (λ h. ground arith, λ e. ground arith)

has_complement_sound :
    (k : Literal) (ls : List Literal) → has_complement k ls ≡ true → Memᴰ (complement k) ls
unfolding has_complement
has_complement_sound k [] h = cc
has_complement_sound k (l ∷ ls) h = elim (Bool-cases (complementary k l)) [
  | inl pair ↦ Memᴰ.head ((complementary_iff k l).0 pair)
  | inr other ↦ Memᴰ.tail (has_complement_sound k ls (ground arith))
]

has_complement_complete :
    (k : Literal) (ls : List Literal) → Memᴰ (complement k) ls → has_complement k ls ≡ true
unfolding has_complement
has_complement_complete k [] m = elim m [ ]
has_complement_complete k (l ∷ ls) (Memᴰ.head e) = rw ((complementary_iff k l).1 e)
has_complement_complete k (l ∷ ls) (Memᴰ.tail m) = ground (arith, has_complement_complete k ls m)

complement-complement : (l : Literal) → complement (complement l) ≡ l
complement-complement l = ground arith

-- Some literal of the list and its complement both stand in it.
abbrev pub HasPair : List Literal → Type 0
HasPair ls = (l : Literal) × Memᴰ l ls × Memᴰ (complement l) ls

has_pair_sound : (ls : List Literal) → has_pair ls ≡ true → HasPair ls
unfolding has_pair
has_pair_sound [] h = cc
has_pair_sound (k ∷ ls) h = elim (Bool-cases (has_complement k ls)) [
  | inl here ↦ (k, Memᴰ.head refl, Memᴰ.tail (has_complement_sound k ls here))
  | inr other ↦ let (l, m, n) = has_pair_sound ls (ground arith) in (l, Memᴰ.tail m, Memᴰ.tail n)
]

no_self_complement : (l : Literal) → complement l ≡ l → ⊥
no_self_complement l e = ground arith

has_pair_complete : (ls : List Literal) → HasPair ls → has_pair ls ≡ true
unfolding has_pair
has_pair_complete [] (l, m, n) = elim m [ ]
has_pair_complete (k ∷ ls) (l, Memᴰ.head e, Memᴰ.head f) =
    absurd (no_self_complement l (ground arith))
has_pair_complete (k ∷ ls) (l, Memᴰ.head e, Memᴰ.tail n) =
    rw (has_complement_complete k ls (subst (λ x. Memᴰ (complement x) ls) e n))
has_pair_complete (k ∷ ls) (l, Memᴰ.tail m, Memᴰ.head f) = rw (
    has_complement_complete k ls (
      subst (λ x. Memᴰ (complement x) ls) f
        (subst (λ x. Memᴰ x ls) (sym (complement-complement l)) m)))
has_pair_complete (k ∷ ls) (l, Memᴰ.tail m, Memᴰ.tail n) =
    ground (arith, has_pair_complete ls (l, m, n))

-- `isTautology` holds exactly when some literal of the clause stands in it together with its
-- complement.
pub is_tautology_iff : (c : Clause) → (is_tautology c ≡ true) ↔ HasPair c.literals
unfolding is_tautology
is_tautology_iff c = (has_pair_sound c.literals, has_pair_complete c.literals)

one_holds : (t p : Bool) → (t ≡ p) ⊎ (t ≡ not p)
one_holds t p = ground arith

-- A clause that `isTautology` drops is valid in every structure.
pub is_tautology-Valid :
    (M : Structure) (b : TermBank) (c : Clause) → is_tautology c ≡ true → Valid M b c.literals
is_tautology-Valid M b c h v =
    let (l, m, n) = (is_tautology_iff c).0 h in
    elim (one_holds (M.truth (value M b v l.atom)) l.is_positive) [
      | inl holds ↦ Any-of_Mem (Holds M b v) c.literals l m holds
      | inr fails ↦ Any-of_Mem (Holds M b v) c.literals (complement l) n fails
    ]
