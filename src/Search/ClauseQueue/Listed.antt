-- ===== src/Search/ClauseQueue/Listed.antt =====
-- A list that is searched when an element is taken out behaves as `std::priority_queue` promises,
-- for a comparator that puts clauses with a smaller number first.
use richard_atp_engine.Prelude.{
  ℕ, Bool, true, false, ◌≡◌, ◌≤◌, refl, List, [], ◌∷◌, Option, none, some, Memᴰ, Permᴰ, All,
  All-Mem, ltb, if◌then◌else◌, arith, length, subst,
}
use mathlib.Core.List.Permᴰ
use richard_atp_engine.Core.Types.{Clause}
use richard_atp_engine.Search.ClauseQueue.{bfs_compare, weight_compare, PriorityQueue}

same_pair : (x y : Clause × List Clause) → some x ≡ some y → x ≡ y
same_pair x y e = cc

module _ (key : Clause → ℕ) where
  -- The element with the least key, and the others.
  unfoldable pub take_least : Clause → List Clause → Clause × List Clause
  take_least c [] = (c, [])
  take_least c (d ∷ ds) =
      let first = ltb (key d) (key c) in
      let (least, rest) = take_least (if first then d else c) ds in
      (least, (if first then c else d) ∷ rest)

  abbrev pop_least : List Clause → Option (Clause × List Clause)
  pop_least [] = none
  pop_least (c ∷ cs) = some (take_least c cs)

  move_back :
      (c d : Clause) (ds : List Clause) (first : Bool)
      → Permᴰ (c ∷ d ∷ ds) ((if first then c else d) ∷ (if first then d else c) ∷ ds)
  move_back c d ds true = Permᴰ.refl (c ∷ d ∷ ds)
  move_back c d ds false = Permᴰ.swap refl refl

  pub take_least-perm :
      (c : Clause) (ds : List Clause) → Permᴰ (c ∷ ds) ((take_least c ds).0 ∷ (take_least c ds).1)
  unfolding take_least
  take_least-perm c [] = Permᴰ.refl (c ∷ [])
  take_least-perm c (d ∷ ds) =
      let first = ltb (key d) (key c) in
      Permᴰ.trans (move_back c d ds first) (
        Permᴰ.trans (Permᴰ.cons refl (take_least-perm (if first then d else c) ds))
          (Permᴰ.swap refl refl))

  lesser :
      (c d : Clause)
      → (key (if ltb (key d) (key c) then d else c) ≤ key c)
        × (key (if ltb (key d) (key c) then d else c) ≤ key (if ltb (key d) (key c) then c else d))
  lesser c d = ground arith

  take_least-le :
      (c : Clause) (ds : List Clause)
      → (key (take_least c ds).0 ≤ key c)
        × All (λ d. key (take_least c ds).0 ≤ key d) (take_least c ds).1
  unfolding take_least
  take_least-le c [] = (omega arith, tt)
  take_least-le c (d ∷ ds) =
      let first = ltb (key d) (key c) in
      let (le, all) = take_least-le (if first then d else c) ds in
      let (le_c, le_other) = lesser c d in (omega arith, (omega arith, all))

  pub only_empty : (q : List Clause) → pop_least q ≡ none → q ≡ []
  only_empty [] e = refl
  only_empty (c ∷ cs) e = cc

  pub takes_out :
      (q : List Clause) (c : Clause) (rest : List Clause)
      → pop_least q ≡ some (c, rest)
      → Permᴰ q (c ∷ rest)
  takes_out [] c rest e = cc
  takes_out (d ∷ ds) c rest e =
      subst (λ (r : Clause × List Clause). Permᴰ (d ∷ ds) (r.0 ∷ r.1)) (same_pair _ _ e)
        (take_least-perm d ds)

  not_before : (x y : ℕ) → x ≤ y → ltb y x ≡ false
  not_before x y h = ground arith

  pub comes_first :
      (q : List Clause) (c : Clause) (rest : List Clause)
      → pop_least q ≡ some (c, rest)
      → (d : Clause) → Memᴰ d rest
      → ltb (key d) (key c) ≡ false
  comes_first [] c rest e d m = cc
  comes_first (x ∷ xs) c rest e d m =
      let all =
        subst (λ (r : Clause × List Clause). All (λ (y : Clause). key r.0 ≤ key y) r.1)
          (same_pair _ _ e) (take_least-le x xs).1 in
      not_before (key c) (key d) (All-Mem (λ (y : Clause). key c ≤ key y) rest d all m)

  -- The interface, filled.
  abbrev pub by_key : PriorityQueue (λ c d. ltb (key d) (key c))
  by_key = record {
    Queue = List Clause;
    empty = [];
    push = λ c q. c ∷ q;
    pop = pop_least;
    elements = λ q. q;
    elements-empty = refl;
    elements-push = λ c q. Permᴰ.refl (c ∷ q);
    pop-none = only_empty;
    pop-some = takes_out;
    pop-first = comes_first;
  }

-- The queues for the two comparators of the program.
abbrev pub bfs_queue : PriorityQueue bfs_compare
bfs_queue = by_key (λ c. c.depth)

abbrev pub weight_queue : PriorityQueue weight_compare
weight_queue = by_key (λ c. length c.literals)
