-- ===== src/Trie/Order.antt =====
-- The invariant of the tree: the children of every node are in order, and insertion and deletion
-- keep them so.
use mqttbroker.Base.{
  ℕ, ◌<◌, ◌≡◌, ◌∙◌, inl, inr, Option, none, some, arith, ◌==◌, if◌then◌else◌, Bool-cases,
  Option-cases,
}
use mqttbroker.Trie.{
  Node, Nodes, node, nil, cons, chr, char_rank, linear_search, trie_create_node, merge_sort_tnode,
  next_child, with_child,
}
use mqttbroker.Trie.Chain.{
  AllNodes, IsSorted, IsDistinct, AllBytes, first, Lacks-first, linear_search-first, first-chr,
  Above-Lacks,
}
use mathlib.Core.Path.{subst}
use mqttbroker.Trie.Sort.{merge_sort_tnode-Sorts}

abbrev mutual
  pub WellFormed : {V : Type 0} → Node V → Type 0
  WellFormed (node c value children) =
      IsSorted children × AllBytes children × AllWellFormed children

  pub AllWellFormed : {V : Type 0} → Nodes V → Type 0
  AllWellFormed nil = Unit
  AllWellFormed (cons n ns) = WellFormed n × AllWellFormed ns

module _ {V : Type 0} where
  to_AllNodes : (ns : Nodes V) → AllWellFormed ns → AllNodes WellFormed ns
  to_AllNodes nil h = tt
  to_AllNodes (cons n ns) (p, h) = (p, to_AllNodes ns h)

  from_AllNodes : (ns : Nodes V) → AllNodes WellFormed ns → AllWellFormed ns
  from_AllNodes nil h = tt
  from_AllNodes (cons n ns) (p, h) = (p, from_AllNodes ns h)

  pub AllNodes-first :
      (P : Node V → Type 0) (ns : Nodes V) (c : ℕ) (n : Node V)
      → AllNodes P ns
      → first ns c ≡ some n
      → P n
  unfolding first
  AllNodes-first P nil c n h e = cc
  AllNodes-first P (cons m ns) c n (p, h) e = elim (Bool-cases (chr m == c)) [
    | inl here ↦ let got : some m ≡ some n = rw here at e in let same : m ≡ n = cc in subst P same p
    | inr later ↦ AllNodes-first P ns c n h (rw later at e)
  ]

  IsSorted-IsDistinct : (ns : Nodes V) → IsSorted ns → IsDistinct ns
  IsSorted-IsDistinct nil h = tt
  IsSorted-IsDistinct (cons n ns) (above, h) =
      (Above-Lacks ns (chr n) (char_rank (chr n)) above (omega arith), IsSorted-IsDistinct ns h)

  -- The parts of the invariant of one node.
  pub record Ordered (children : Nodes V) : Type 0 where
    pub sorted : IsSorted children
    pub bytes : AllBytes children
    pub deep : AllNodes WellFormed children

  pub to_Ordered :
      (c : ℕ) (value : Option V) (ns : Nodes V) → WellFormed (node c value ns) → Ordered ns
  to_Ordered c value ns (s, b, d) = record { sorted = s; bytes = b; deep = to_AllNodes ns d }

  pub from_Ordered :
      (c : ℕ) (value : Option V) (ns : Nodes V) → Ordered ns → WellFormed (node c value ns)
  from_Ordered c value ns o = (o.sorted, o.bytes, from_AllNodes ns o.deep)

  module _ (c : ℕ) (ns : Nodes V) where
    pub next_child_found : (n : Node V) → linear_search ns c ≡ some n → next_child c ns ≡ n
    unfolding next_child
    next_child_found n e = rw (e, next_child)

    pub next_child_new : linear_search ns c ≡ none → next_child c ns ≡ node c none nil
    unfolding next_child trie_create_node
    next_child_new e = rw (e, next_child)

    pub with_child_found : (n : Node V) → linear_search ns c ≡ some n → with_child c ns ≡ ns
    unfolding with_child
    with_child_found n e = rw (e, with_child)

    pub with_child_new :
        linear_search ns c ≡ none → with_child c ns ≡ merge_sort_tnode (cons (node c none nil) ns)
    unfolding with_child trie_create_node
    with_child_new e = rw (e, with_child)

  module _ (c : ℕ) (ns : Nodes V) (o : Ordered ns) where
    -- The search in a node of the tree.
    pub search : linear_search ns c ≡ first ns c
    search = linear_search-first ns c o.sorted

    pub next_child-WellFormed : WellFormed (next_child c ns)
    next_child-WellFormed = elim (Option-cases (first ns c)) [
      | inl e ↦ rw (next_child_new c ns (search ∙ e)) (tt, tt, tt)
      | inr (n, e) ↦
          rw (next_child_found c ns n (search ∙ e)) (AllNodes-first WellFormed ns c n o.deep e)
    ]

    pub chr-next_child : chr (next_child c ns) ≡ c
    chr-next_child = elim (Option-cases (first ns c)) [
      | inl e ↦ rw (next_child_new c ns (search ∙ e))
      | inr (n, e) ↦ rw (next_child_found c ns n (search ∙ e)) (first-chr ns c n e)
    ]

    fresh : first ns c ≡ none → IsDistinct (cons (node c none nil) ns)
    fresh e = (Lacks-first ns c e, IsSorted-IsDistinct ns o.sorted)

    pub with_child-Ordered : c < 256 → Ordered (with_child c ns)
    with_child-Ordered hc = elim (Option-cases (first ns c)) [
      | inr (n, e) ↦ rw (with_child_found c ns n (search ∙ e)) o
      | inl e ↦
          let s = merge_sort_tnode-Sorts (cons (node c none nil) ns) in
          rw (with_child_new c ns (search ∙ e)) (record {
            sorted = s.ordered (fresh e) (hc, o.bytes);
            bytes = s.keeps _ (hc, o.bytes);
            deep = s.keeps _ ((tt, tt, tt), o.deep);
          })
    ]

    -- The chain with the child finds what the chain found, and the child under its character.
    pub first-with_child :
        c < 256
        → (d : ℕ)
        → first (with_child c ns) d ≡ (if c == d then some (next_child c ns) else first ns d)
    unfolding first
    first-with_child hc d = elim (Option-cases (first ns c)) [
      | inr (n, e) ↦
          rw (with_child_found c ns n (search ∙ e), next_child_found c ns n (search ∙ e))
            (found d n e)
      | inl e ↦
          let s = merge_sort_tnode-Sorts (cons (node c none nil) ns) in
          rw (with_child_new c ns (search ∙ e), next_child_new c ns (search ∙ e))
            (s.finds (fresh e) (hc, o.bytes) d)
    ]
      where
        found :
            (d : ℕ) (n : Node V)
            → first ns c ≡ some n
            → first ns d ≡ (if c == d then some n else first ns d)
        found d n e = ground (arith, e)
