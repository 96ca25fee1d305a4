-- ===== src/Trie/Sort.antt =====
-- The merge sort of the children: it keeps what stands in the chain and brings it in order.
use mqttbroker.Base.{
  ℕ, zero, suc, ◌+◌, ◌*◌, ◌≤◌, ◌<◌, ◌≡◌, refl, ap, ◌∙◌, inl, inr, true, false, arith, leb, leb→le,
  Bool-cases,
}
use mqttbroker.Trie.{
  Node, Nodes, nil, cons, chr, len, char_rank, bisect_loop, merge_tnode_list, merge_sort_levels,
  merge_sort_tnode, linear_search,
}
use mqttbroker.Trie.Chain.{
  AllNodes, AllNodes-map, Above, Lacks, IsSorted, IsDistinct, AllBytes, first, linear_search-first,
  first-Lacks, Above-Lacks,
}
use mathlib.Core.Option.{or_else}

module _ {V : Type 0} where
  append : Nodes V → Nodes V → Nodes V
  append nil b = b
  append (cons n a) b = cons n (append a b)

  -- The two halves together are the chain, and each is shorter.
  bisect_loop-append :
      (fast slow : Nodes V) → append (bisect_loop fast slow).0 (bisect_loop fast slow).1 ≡ slow
  unfolding bisect_loop append
  bisect_loop-append (cons x (cons y fast)) (cons s slow) = rw (bisect_loop-append fast slow)
  bisect_loop-append (cons x (cons y fast)) nil = refl
  bisect_loop-append (cons x nil) slow = refl
  bisect_loop-append nil slow = refl

  len-append : (a b : Nodes V) → len (append a b) ≡ len a + len b
  unfolding append
  len-append nil b = omega arith
  len-append (cons n a) b = omega (arith, len-append a b)

  bisect_loop-len :
      (fast slow : Nodes V)
      → len fast ≤ len slow
      → 2 * len (bisect_loop fast slow).0 ≤ len fast
        × (len fast ≤ 2 * len (bisect_loop fast slow).0 + 1)
  unfolding bisect_loop
  bisect_loop-len (cons x (cons y fast)) (cons s slow) h =
      omega (arith, bisect_loop-len fast slow (omega arith))
  bisect_loop-len (cons x (cons y fast)) nil h = absurd (omega arith)
  bisect_loop-len (cons x nil) slow h = omega arith
  bisect_loop-len nil slow h = omega arith

  AllNodes-append :
      (P : Node V → Type 0) (a b : Nodes V) → AllNodes P (append a b) → AllNodes P a × AllNodes P b
  unfolding append
  AllNodes-append P nil b h = (tt, h)
  AllNodes-append P (cons n a) b (p, h) = let (l, r) = AllNodes-append P a b h in ((p, l), r)

  module _ (x y : Node V) (a b : Nodes V) where
    merge_left :
        leb (char_rank (chr x)) (char_rank (chr y)) ≡ true
        → merge_tnode_list (cons x a) (cons y b) ≡ cons x (merge_tnode_list a (cons y b))
    unfolding merge_tnode_list
    merge_left e = rw (e, merge_tnode_list)

    merge_right :
        leb (char_rank (chr x)) (char_rank (chr y)) ≡ false
        → merge_tnode_list (cons x a) (cons y b) ≡ cons y (merge_tnode_list (cons x a) b)
    unfolding merge_tnode_list
    merge_right e = rw (e, merge_tnode_list)

  merge-nil : (a : Nodes V) → merge_tnode_list a nil ≡ a
  unfolding merge_tnode_list
  merge-nil nil = refl
  merge-nil (cons x a) = refl

  nil-merge : (b : Nodes V) → merge_tnode_list nil b ≡ b
  unfolding merge_tnode_list
  nil-merge b = refl

  AllNodes-merge :
      (P : Node V → Type 0) (a b : Nodes V)
      → AllNodes P a
      → AllNodes P b
      → AllNodes P (merge_tnode_list a b)
  AllNodes-merge P nil b h k = rw nil-merge k
  AllNodes-merge P (cons x a) nil h k = rw merge-nil h
  AllNodes-merge P (cons x a) (cons y b) (p, h) (q, k) =
      elim (Bool-cases (leb (char_rank (chr x)) (char_rank (chr y)))) [
        | inl le ↦ rw (merge_left x y a b le) (p, AllNodes-merge P a (cons y b) h (q, k))
        | inr gt ↦ rw (merge_right x y a b gt) (q, AllNodes-merge P (cons x a) b (p, h) k)
      ]

  -- Each character of `a` is missing in `b`.
  abbrev Apart : Nodes V → Nodes V → Type 0
  Apart a b = AllNodes (λ n. Lacks (chr n) b) a

  Apart-tail : (a b : Nodes V) (y : Node V) → Apart a (cons y b) → Apart a b
  Apart-tail a b y h = AllNodes-map (λ n l. l.1) a h

  Above-weaken : (ns : Nodes V) (r s : ℕ) → s ≤ r → Above r ns → Above s ns
  Above-weaken ns r s le h = AllNodes-map (λ n q. omega arith) ns h

  IsSorted-merge :
      (a b : Nodes V)
      → IsSorted a
      → IsSorted b
      → Apart a b
      → AllBytes a
      → AllBytes b
      → IsSorted (merge_tnode_list a b)
  IsSorted-merge nil b h k apart u v = rw nil-merge k
  IsSorted-merge (cons x a) nil h k apart u v = rw merge-nil h
  IsSorted-merge (cons x a) (cons y b) (p, h) (q, k) (differ, apart) (ux, u) (vy, v) =
      elim (Bool-cases (leb (char_rank (chr x)) (char_rank (chr y)))) [
        | inl le ↦
            let less : char_rank (chr x) < char_rank (chr y) =
              omega (arith, leb→le _ _ le, differ.0) in
            rw (merge_left x y a b le) (
              AllNodes-merge _ a (cons y b) p (less, Above-weaken b _ _ (omega arith) q),
              IsSorted-merge a (cons y b) h (q, k) apart u (vy, v),
            )
        | inr gt ↦
            let less : char_rank (chr y) < char_rank (chr x) = ground arith in
            rw (merge_right x y a b gt) (
              AllNodes-merge _ (cons x a) b (less, Above-weaken a _ _ (omega arith) p) q,
              IsSorted-merge (cons x a) b (p, h) k (differ.1, Apart-tail a b y apart) (ux, u) v,
            )
      ]

  -- The sort is stable, so the first node with a character stays the first.
  first-merge :
      (a b : Nodes V) (c : ℕ)
      → IsSorted a
      → first (merge_tnode_list a b) c ≡ or_else (first a c) (first b c)
  unfolding first or_else
  first-merge nil b c h = rw nil-merge
  first-merge (cons x a) nil c h = rw merge-nil (ground arith)
  first-merge (cons x a) (cons y b) c (p, h) =
      elim (Bool-cases (leb (char_rank (chr x)) (char_rank (chr y)))) [
        | inl le ↦ rw (merge_left x y a b le) (ground (arith, first-merge a (cons y b) c h))
        | inr gt ↦ rw (merge_right x y a b gt) (
            ground (
              arith,
              first-merge (cons x a) b c (p, h),
              first-Lacks a c,
              Above-Lacks a c (char_rank (chr x)) p,
            ))
      ]

  first-append : (a b : Nodes V) (c : ℕ) → first (append a b) c ≡ or_else (first a c) (first b c)
  unfolding first append or_else
  first-append nil b c = refl
  first-append (cons n a) b c = ground (arith, first-append a b c)

  IsDistinct-append :
      (a b : Nodes V) → IsDistinct (append a b) → IsDistinct a × IsDistinct b × Apart a b
  unfolding append
  IsDistinct-append nil b h = (tt, h, tt)
  IsDistinct-append (cons n a) b (l, h) =
      let (da, db, apart) = IsDistinct-append a b h in
      let (la, lb) = AllNodes-append _ a b l in ((la, da), db, (lb, apart))

  -- What the sort keeps and what it brings about, for any number of levels from the length on.
  pub record Sorts (ns sorted : Nodes V) : Type 1 where
    pub keeps : (P : Node V → Type 0) → AllNodes P ns → AllNodes P sorted
    pub ordered : IsDistinct ns → AllBytes ns → IsSorted sorted
    pub finds : IsDistinct ns → AllBytes ns → (c : ℕ) → first sorted c ≡ first ns c

  merge-Sorts :
      (ns a b sa sb : Nodes V)
      → append a b ≡ ns
      → Sorts a sa
      → Sorts b sb
      → Sorts ns (merge_tnode_list sa sb)
  merge-Sorts ns a b sa sb e s t = record {
    keeps = λ P h.
        let (pa, pb) = AllNodes-append P a b (rw e h) in
        AllNodes-merge P sa sb (s.keeps P pa) (t.keeps P pb);
    ordered = λ d u.
        let (da, db, apart) = IsDistinct-append a b (rw e d) in
        let (ua, ub) = AllNodes-append _ a b (rw e u) in
        IsSorted-merge sa sb (s.ordered da ua) (t.ordered db ub)
          (AllNodes-map (λ n l. t.keeps _ l) sa (s.keeps _ apart)) (s.keeps _ ua) (t.keeps _ ub);
    finds = λ d u c.
        let (da, db, apart) = IsDistinct-append a b (rw e d) in
        let (ua, ub) = AllNodes-append _ a b (rw e u) in
        first-merge sa sb c (s.ordered da ua)
        ∙ rw (s.finds da ua c, t.finds db ub c, ← first-append a b c, e);
  }

  short-Sorts : (ns : Nodes V) → len ns < 2 → Sorts ns ns
  short-Sorts nil h = record { keeps = λ P h. h; ordered = λ d u. tt; finds = λ d u c. refl }
  short-Sorts (cons x nil) h = record {
    keeps = λ P h. h;
    ordered = λ d u. (tt, tt);
    finds = λ d u c. refl;
  }
  short-Sorts (cons x (cons y ns)) h = absurd (omega arith)

  merge_sort_levels-Sorts :
      (levels : ℕ) (ns : Nodes V) → len ns ≤ levels → Sorts ns (merge_sort_levels levels ns)
  unfolding merge_sort_levels
  merge_sort_levels-Sorts zero nil h = short-Sorts nil (omega arith)
  merge_sort_levels-Sorts (suc levels) nil h = short-Sorts nil (omega arith)
  merge_sort_levels-Sorts zero (cons x ns) h = absurd (omega arith)
  merge_sort_levels-Sorts (suc levels) (cons x nil) h = short-Sorts (cons x nil) (omega arith)
  merge_sort_levels-Sorts (suc levels) (cons x (cons y ns)) h =
      let whole = cons x (cons y ns) in
      let halves = bisect_loop whole whole in
      let joined = bisect_loop-append whole whole in
      let (low, high) = bisect_loop-len whole whole (omega arith) in
      let sizes = len-append halves.0 halves.1 in
      let total : len (append halves.0 halves.1) ≡ len whole = ap len joined in
      merge-Sorts whole halves.0 halves.1 _ _ joined
        (merge_sort_levels-Sorts levels halves.0 (omega (arith, low, h)))
        (merge_sort_levels-Sorts levels halves.1 (omega (arith, low, high, sizes, total, h)))

  len-merge : (a b : Nodes V) → len (merge_tnode_list a b) ≡ len a + len b
  len-merge nil b = rw nil-merge (omega arith)
  len-merge (cons x a) nil = rw merge-nil (omega arith)
  len-merge (cons x a) (cons y b) =
      elim (Bool-cases (leb (char_rank (chr x)) (char_rank (chr y)))) [
        | inl le ↦ rw (merge_left x y a b le) (omega (arith, len-merge a (cons y b)))
        | inr gt ↦ rw (merge_right x y a b gt) (omega (arith, len-merge (cons x a) b))
      ]

  len-merge_sort_levels : (levels : ℕ) (ns : Nodes V) → len (merge_sort_levels levels ns) ≡ len ns
  unfolding merge_sort_levels
  len-merge_sort_levels zero ns = refl
  len-merge_sort_levels (suc levels) nil = refl
  len-merge_sort_levels (suc levels) (cons x nil) = refl
  len-merge_sort_levels (suc levels) (cons x (cons y ns)) =
      let whole = cons x (cons y ns) in
      let halves = bisect_loop whole whole in
      let total = ap len (bisect_loop-append whole whole) in
      omega (
        arith,
        len-merge (merge_sort_levels levels halves.0) (merge_sort_levels levels halves.1),
        len-merge_sort_levels levels halves.0,
        len-merge_sort_levels levels halves.1,
        len-append halves.0 halves.1,
        total,
      )

  pub merge_sort_tnode-Sorts : (ns : Nodes V) → Sorts ns (merge_sort_tnode ns)
  unfolding merge_sort_tnode
  merge_sort_tnode-Sorts ns = merge_sort_levels-Sorts (len ns) ns (omega arith)

  -- The children's merge sort, on nodes with distinct characters: the result is in the order of the
  -- characters, has the same number of nodes, and the search finds under each character what the
  -- chain held under it.
  pub merge_sort_tnode_lem :
      (ns : Nodes V)
      → IsDistinct ns
      → AllBytes ns
      → IsSorted (merge_sort_tnode ns)
        × (len (merge_sort_tnode ns) ≡ len ns)
        × ((c : ℕ) → linear_search (merge_sort_tnode ns) c ≡ first ns c)
  unfolding merge_sort_tnode
  merge_sort_tnode_lem ns d u =
      let s = merge_sort_tnode-Sorts ns in
      let sorted = s.ordered d u in
      (
        sorted,
        len-merge_sort_levels (len ns) ns,
        λ c. linear_search-first _ c sorted ∙ s.finds d u c,
      )
