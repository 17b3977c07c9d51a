-- ===== src/Search/ClauseQueue.antt =====
-- include/atp/search/clause_queue.h, and `std::priority_queue`, which the prover keeps its
-- unprocessed clauses in: its documented behaviour is an interface, which a plain list fills.
pub mod Listed
use richard_atp_engine.Prelude.{
  ℕ, Bool, false, ◌≡◌, List, [], ◌∷◌, Option, none, some, Memᴰ, Permᴰ, ltb, length,
}
use richard_atp_engine.Core.Types.{Clause}

-- `ClauseComparator`: whether the first clause comes after the second.
abbrev pub ClauseComparator : Type 0
ClauseComparator = Clause → Clause → Bool

-- `bfsCompare`.
abbrev pub bfs_compare : ClauseComparator
bfs_compare a b = ltb b.depth a.depth

-- `weightCompare`.
abbrev pub weight_compare : ClauseComparator
weight_compare a b = ltb (length b.literals) (length a.literals)

-- `push` adds an element, and `pop` takes one out after which no other element should come first.
pub record PriorityQueue (after : ClauseComparator) : Type 1 where
  pub Queue : Type 0
  pub empty : Queue
  pub push : Clause → Queue → Queue
  pub pop : Queue → Option (Clause × Queue)
  pub elements : Queue → List Clause
  pub elements-empty : elements empty ≡ []
  pub elements-push : (c : Clause) (q : Queue) → Permᴰ (c ∷ elements q) (elements (push c q))
  pub pop-none : (q : Queue) → pop q ≡ none → elements q ≡ []
  pub pop-some :
      (q : Queue) (c : Clause) (rest : Queue)
      → pop q ≡ some (c, rest)
      → Permᴰ (elements q) (c ∷ elements rest)
  pub pop-first :
      (q : Queue) (c : Clause) (rest : Queue)
      → pop q ≡ some (c, rest)
      → (d : Clause) → Memᴰ d (elements rest)
      → after c d ≡ false
