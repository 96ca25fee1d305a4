-- ===== src/Trie/Map/Lookup.antt =====
-- What `trie_prefix_map_tuple` of sol/src/trie.c does to the values below a prefix, from what the
-- function does to those below one node.
use mqttbroker.Base.{ℕ, ◌≡◌, refl, ap, Option, none, List, [], ◌∷◌, arith}
use mqttbroker.Trie.{
  Node, Nodes, node, nil, cons, trie_node_search, trie_node_find, trie_is_free_node,
}
use mqttbroker.Trie.Order.{WellFormed, AllWellFormed}
use mqttbroker.Trie.Map.{trie_prefix_map_func2, map_children}
use mqttbroker.Trie.Map.Chain.{
  map_nodes, KeepsChr, IsSorted-map_nodes, AllBytes-map_nodes, search-map_nodes,
}

module _ {V : Type 0} where
  -- The function keeps the character of a node and the order below it.
  pub record Keeps (f : Node V → Node V) : Type 0 where
    pub same_chr : KeepsChr f
    pub ordered : (n : Node V) → WellFormed n → WellFormed (f n)

  -- What the function does to the value under each key is an instance of the relation.
  abbrev pub Acts : (Option V → Option V → Type 0) → (Node V → Node V) → Type 0
  Acts R f = (n : Node V) (key : List ℕ) → R (trie_node_search n key) (trie_node_search (f n) key)

  pub map_children-map_nodes :
      (f : Node V → Node V) (ns : Nodes V)
      → map_children f ns ≡ map_nodes (trie_prefix_map_func2 f) ns
  unfolding map_children
  map_children-map_nodes f nil = refl
  map_children-map_nodes f (cons n ns) =
      ap (λ ms. cons (trie_prefix_map_func2 f n) ms) (map_children-map_nodes f ns)

  -- With and without children the function is called on the node as its children have been left.
  pub map_func2_node :
      (f : Node V → Node V) (c : ℕ) (value : Option V) (ns : Nodes V)
      → trie_prefix_map_func2 f (node c value ns)
        ≡ f (node c value (map_nodes (trie_prefix_map_func2 f) ns))
  map_func2_node f c value nil = unfold trie_prefix_map_func2 trie_is_free_node in refl
  map_func2_node f c value (cons n ns) =
      rw (← map_children-map_nodes f (cons n ns)) (more f c value n ns)
    where
      more :
          (f : Node V → Node V) (c : ℕ) (value : Option V) (n : Node V) (ns : Nodes V)
          → trie_prefix_map_func2 f (node c value (cons n ns))
            ≡ f (node c value (map_children f (cons n ns)))
      more f c value n ns = unfold trie_prefix_map_func2 trie_is_free_node in ground arith

  module _ (f : Node V → Node V) (k : Keeps f) where
    map_func2-KeepsChr : KeepsChr (trie_prefix_map_func2 f)
    map_func2-KeepsChr (node c value ns) =
        rw (map_func2_node f c value ns)
          (k.same_chr (node c value (map_nodes (trie_prefix_map_func2 f) ns)))

    mutual
      map_func2-WellFormed : (n : Node V) → WellFormed n → WellFormed (trie_prefix_map_func2 f n)
      map_func2-WellFormed (node c value ns) (sorted, bytes, deep) =
          let g = trie_prefix_map_func2 f in
          rw (map_func2_node f c value ns) (
            k.ordered (node c value (map_nodes g ns)) (
              IsSorted-map_nodes g map_func2-KeepsChr ns sorted,
              AllBytes-map_nodes g map_func2-KeepsChr ns bytes,
              map_nodes-WellFormed ns deep,
            ))

      map_nodes-WellFormed :
          (ns : Nodes V) → AllWellFormed ns → AllWellFormed (map_nodes (trie_prefix_map_func2 f) ns)
      map_nodes-WellFormed nil h = tt
      map_nodes-WellFormed (cons n ns) (h, hs) =
          (map_func2-WellFormed n h, map_nodes-WellFormed ns hs)

    pub map_func2-Keeps : Keeps (trie_prefix_map_func2 f)
    map_func2-Keeps = record { same_chr = map_func2-KeepsChr; ordered = map_func2-WellFormed }

  -- `trie_prefix_map_func2` on all of a node: the function is called once on the node of each key,
  -- and then on the nodes above it, which is no more than `Weak` at the key.
  module _ (f : Node V → Node V) (k : Keeps f) (Strict Weak : Option V → Option V → Type 0)
      (nothing : Strict none none)
      (here : (n : Node V) → Strict (trie_node_search n []) (trie_node_search (f n) []))
      (acts : Acts Weak f) (both : (u v w : Option V) → Strict u v → Weak v w → Strict u w) where
    map_func2-key :
        (key : List ℕ) (n : Node V)
        → Strict (trie_node_search n key) (trie_node_search (trie_prefix_map_func2 f n) key)
    map_func2-key [] (node c value ns) =
        let changed = node c value (map_nodes (trie_prefix_map_func2 f) ns) in
        let own : trie_node_search (node c value ns) [] ≡ trie_node_search changed [] =
          unfold trie_node_search trie_node_find in refl in
        rw (map_func2_node f c value ns, own) (here changed)
    map_func2-key (d ∷ key) (node c value ns) =
        let g = trie_prefix_map_func2 f in
        let below =
          search-map_nodes g (map_func2-KeepsChr f k) Strict c d value value ns key nothing
            (map_func2-key key) in
        rw (map_func2_node f c value ns)
          (both _ _ _ below (acts (node c value (map_nodes g ns)) (d ∷ key)))

    pub map_func2-Acts : Acts Strict (trie_prefix_map_func2 f)
    map_func2-Acts n key = map_func2-key key n
