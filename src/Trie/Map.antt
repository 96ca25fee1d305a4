-- ===== src/Trie/Map.antt =====
-- `trie_prefix_map_tuple` of sol/src/trie.c. A function called on a node may change the node and
-- all that is below it: it gives the node as it leaves it.
pub mod Chain
pub mod Lookup
pub mod Found
use mqttbroker.Base.{ℕ, zero, suc, Option, none, some, List, [], ◌∷◌, if◌then◌else◌}
use mqttbroker.Trie.{
  Node, Nodes, node, nil, cons, linear_search, put_child, trie_is_free_node, Trie,
}

unfoldable mutual
  pub trie_prefix_map_func2 : {V : Type 0} → (Node V → Node V) → Node V → Node V
  trie_prefix_map_func2 mapfunc (node c value children) =
      let below = map_children mapfunc children in
      if trie_is_free_node (node c value children)
      then mapfunc (node c value children)
      else mapfunc (node c value below)

  pub map_children : {V : Type 0} → (Node V → Node V) → Nodes V → Nodes V
  map_children mapfunc nil = nil
  map_children mapfunc (cons n ns) =
      cons (trie_prefix_map_func2 mapfunc n) (map_children mapfunc ns)

module _ {V : Type 0} where
  -- A function called on the node that `trie_node_find` finds, if it does.
  unfoldable pub map_found : (Node V → Node V) → Node V → List ℕ → Node V
  unfolding linear_search put_child
  map_found f n [] = f n
  map_found f (node c value children) (p ∷ prefix) = elim (linear_search children p) [
    | none ↦ node c value children
    | some child ↦ node c value (put_child p (map_found f child prefix) children)
  ]

  -- Without a prefix the function is called on all of the trie.
  unfoldable pub trie_prefix_map_tuple : Trie V → Option (List ℕ) → (Node V → Node V) → Trie V
  unfolding trie_prefix_map_func2 map_found
  trie_prefix_map_tuple t none mapfunc = record {
    root = trie_prefix_map_func2 mapfunc t.root;
    size = t.size;
  }
  trie_prefix_map_tuple t (some prefix) mapfunc = record {
    root = map_found (trie_prefix_map_func2 mapfunc) t.root prefix;
    size = t.size;
  }
