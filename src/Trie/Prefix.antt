-- ===== src/Trie/Prefix.antt =====
-- `trie_prefix_delete` of sol/src/trie.c: all keys with a prefix go.
pub mod Clear
pub mod Deletion
use mqttbroker.Base.{ℕ, zero, suc, none, some, List, [], ◌∷◌}
use mqttbroker.Trie.{
  Node, Nodes, node, nil, cons, chr, linear_search, put_child, trie_node_find, trie_node_search,
  free_children, Trie, trie_find, trie_delete,
}
use mqttbroker.Trie.Chain.{
  IsSorted, first, linear_search-first, first-put_child_self, first-put_child_ne, first-chr,
  AllNodes-put_child, IsSorted-put_child,
}
use mqttbroker.Trie.Order.{WellFormed, Ordered, to_Ordered, from_Ordered, AllNodes-first}
use mqttbroker.Trie.Lookup.{same_key, search_none, search_some, search_same, IsTrie}
use mqttbroker.Trie.Delete.{trie_delete_lem}

module _ {V : Type 0} where
  -- `list_clear(cursor->children, 1)`, with the cursor that `trie_node_find` gave for the prefix.
  unfoldable pub clear_children : Node V → List ℕ → Node V
  unfolding linear_search put_child
  clear_children (node c value children) [] = node c value nil
  clear_children (node c value children) (p ∷ prefix) = elim (linear_search children p) [
    | none ↦ node c value children
    | some child ↦ node c value (put_child p (clear_children child prefix) children)
  ]

  -- The end of the function, for a cursor with children: their values go, then the prefix itself,
  -- then the children.
  unfoldable pub clear_below : Trie V → List ℕ → Nodes V → Trie V
  unfolding trie_delete free_children clear_children
  clear_below t prefix children =
      let t' =
        (trie_delete (record { root = t.root; size = free_children children t.size }) prefix).0 in
      record { root = clear_children t'.root prefix; size = t'.size }

  unfoldable pub trie_prefix_delete : Trie V → List ℕ → Trie V
  unfolding trie_node_find trie_delete clear_below
  trie_prefix_delete t prefix = elim (trie_node_find t.root prefix) [
    | none ↦ t
    | some (node c value nil) ↦ (trie_delete t prefix).0
    | some (node c value (cons n ns)) ↦ clear_below t prefix (cons n ns)
  ]
