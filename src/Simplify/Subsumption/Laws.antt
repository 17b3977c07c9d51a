-- ===== src/Simplify/Subsumption/Laws.antt =====
-- What subsumption decides, and that it is a preorder which keeps validity.
use richard_atp_engine.Prelude.{
  true, ◌≡◌, ◌↔◌, ◌≤◌, refl, sym, List, [], ◌∷◌, inl, inr, Any, Any-of_Mem, Memᴰ, arith, Bool-cases,
  subst,
}
use richard_atp_engine.Core.Types.{Literal, Clause, size}
use richard_atp_engine.Core.TermBank.{TermBank}
use richard_atp_engine.Semantics.{Structure, Holds, Valid}
use richard_atp_engine.Simplify.Subsumption.{same_literal, occurs, all_occur, subsumes}

same_literal_iff : (g s : Literal) → (same_literal g s ≡ true) ↔ (g ≡ s)
same_literal_iff g s = (λ h. ground arith, λ e. ground arith)

occurs_sound : (g : Literal) (ss : List Literal) → occurs g ss ≡ true → Memᴰ g ss
unfolding occurs
occurs_sound g [] h = cc
occurs_sound g (s ∷ ss) h = elim (Bool-cases (same_literal g s)) [
  | inl same ↦ Memᴰ.head ((same_literal_iff g s).0 same)
  | inr other ↦ Memᴰ.tail (occurs_sound g ss (ground arith))
]

occurs_complete : (g : Literal) (ss : List Literal) → Memᴰ g ss → occurs g ss ≡ true
unfolding occurs
occurs_complete g [] m = elim m [ ]
occurs_complete g (s ∷ ss) (Memᴰ.head e) = rw ((same_literal_iff g s).1 e)
occurs_complete g (s ∷ ss) (Memᴰ.tail m) = ground (arith, occurs_complete g ss m)

-- Every literal of the first list is one of the second.
abbrev pub Included : List Literal → List Literal → Type 0
Included gs ss = (l : Literal) → Memᴰ l gs → Memᴰ l ss

all_occur_sound : (gs ss : List Literal) → all_occur gs ss ≡ true → Included gs ss
unfolding all_occur
all_occur_sound [] ss h l m = elim m [ ]
all_occur_sound (g ∷ gs) ss h l (Memᴰ.head e) =
    subst (λ k. Memᴰ k ss) (sym e) (occurs_sound g ss (ground arith))
all_occur_sound (g ∷ gs) ss h l (Memᴰ.tail m) = all_occur_sound gs ss (ground arith) l m

all_occur_complete : (gs ss : List Literal) → Included gs ss → all_occur gs ss ≡ true
unfolding all_occur
all_occur_complete [] ss h = refl
all_occur_complete (g ∷ gs) ss h =
    rw (occurs_complete g ss (h g (Memᴰ.head refl)))
      (all_occur_complete gs ss (λ l m. h l (Memᴰ.tail m)))

-- `subsumes` holds exactly when the first clause is not the longer one and each of its literals
-- is a literal of the second.
pub subsumes_iff :
    (general specific : Clause)
    → (subsumes general specific ≡ true)
      ↔ ((size general ≤ size specific) × Included general.literals specific.literals)
unfolding subsumes
subsumes_iff general specific = (
  λ h. (ground arith, all_occur_sound general.literals specific.literals (ground arith)),
  λ (shorter, included).
      ground (arith, all_occur_complete general.literals specific.literals included),
)

pub subsumes_refl : (c : Clause) → subsumes c c ≡ true
subsumes_refl c = (subsumes_iff c c).1 (omega arith, λ l m. m)

pub subsumes_trans :
    (a b c : Clause) → subsumes a b ≡ true → subsumes b c ≡ true → subsumes a c ≡ true
subsumes_trans a b c p q =
    let (short, in_b) = (subsumes_iff a b).0 p in
    let (short', in_c) = (subsumes_iff b c).0 q in
    (subsumes_iff a c).1 (omega arith, λ l m. in_c l (in_b l m))

-- `subsumes` is a preorder on clauses.
pub subsumes_preorder :
    (a b c : Clause)
    → (subsumes a a ≡ true) × (subsumes a b ≡ true → subsumes b c ≡ true → subsumes a c ≡ true)
subsumes_preorder a b c = (subsumes_refl a, subsumes_trans a b c)

Any-Included : (P : Literal → Type 0) (gs ss : List Literal) → Included gs ss → Any P gs → Any P ss
Any-Included P [] ss h a = absurd a
Any-Included P (g ∷ gs) ss h (inl a) = Any-of_Mem P ss g (h g (Memᴰ.head refl)) a
Any-Included P (g ∷ gs) ss h (inr a) = Any-Included P gs ss (λ l m. h l (Memᴰ.tail m)) a

-- A clause that is subsumed says no more: it is valid wherever the subsuming clause is.
pub subsumes-Valid :
    (M : Structure) (b : TermBank) (general specific : Clause)
    → subsumes general specific ≡ true
    → Valid M b general.literals
    → Valid M b specific.literals
subsumes-Valid M b general specific h valid v =
    Any-Included (Holds M b v) general.literals specific.literals
      ((subsumes_iff general specific).0 h).1 (valid v)
