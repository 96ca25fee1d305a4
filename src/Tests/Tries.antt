-- ===== src/Tests/Tries.antt =====
-- Tries of trie.c.
use mqttbroker.Base.{ℕ, ◌≡◌, refl, none, some, List, [], ◌∷◌, arith, if◌then◌else◌}
use mqttbroker.Trie.{
  Nodes, node, nil, cons, len, linear_search, merge_sort_tnode, trie_insert, trie_find, trie_delete,
  Trie,
}
use mqttbroker.Trie.Chain.{IsSorted, first}
use mqttbroker.Trie.Sort.{merge_sort_tnode_lem}
use mqttbroker.Trie.Lookup.{is_some, same_key, IsTrie, trie_insert_lem}
use mqttbroker.Trie.Prefix.{trie_prefix_delete}
use mqttbroker.Trie.Prefix.Deletion.{Pruned, trie_prefix_delete_lem}
use mqttbroker.Trie.Delete.{trie_delete_lem}

-- The keys "ab" and "a" with values.
abbrev two_keys : Trie ℕ
two_keys = record {
  root = node b' ' none (cons (node b'a' (some 1) (cons (node b'b' (some 2) nil) nil)) nil);
  size = 2;
}

two_keys-IsTrie : IsTrie two_keys
two_keys-IsTrie =
    ((tt, tt), (omega arith, tt), (((tt, tt), (omega arith, tt), ((tt, tt, tt), tt)), tt))

two_keys_found : trie_find two_keys (b'a' ∷ b'b' ∷ []) ≡ some 2
unfolding trie_find
two_keys_found = refl

trie_insert_lem_example :
    IsTrie (trie_insert two_keys (b'A' ∷ []) 3)
    × ((key' : List ℕ)
        → trie_find (trie_insert two_keys (b'A' ∷ []) 3) key'
          ≡ (if same_key (b'A' ∷ []) key' then some 3 else trie_find two_keys key'))
    × ((trie_insert two_keys (b'A' ∷ []) 3).size
        ≡ (if is_some (trie_find two_keys (b'A' ∷ [])) then 2 else 3))
trie_insert_lem_example = trie_insert_lem two_keys (b'A' ∷ []) 3 (omega arith, tt) two_keys-IsTrie

trie_delete_lem_example :
    let (t', found) = trie_delete two_keys (b'a' ∷ b'b' ∷ []) in
    IsTrie t'
    × ((key' : List ℕ)
        → trie_find t' key'
          ≡ (if same_key (b'a' ∷ b'b' ∷ []) key' then none else trie_find two_keys key'))
    × (found ≡ is_some (trie_find two_keys (b'a' ∷ b'b' ∷ [])))
    × (t'.size ≡ (if is_some (trie_find two_keys (b'a' ∷ b'b' ∷ [])) then 1 else 2))
trie_delete_lem_example = trie_delete_lem two_keys b'a' (b'b' ∷ []) two_keys-IsTrie

-- Children in no order, one of them with a byte that is negative as a `char`.
abbrev children : Nodes ℕ
children = cons (node b'z' none nil) (cons (node b'a' (some 4) nil) (cons (node 200 none nil) nil))

merge_sort_tnode_lem_example :
    IsSorted (merge_sort_tnode children)
    × (len (merge_sort_tnode children) ≡ 3)
    × ((c : ℕ) → linear_search (merge_sort_tnode children) c ≡ first children c)
merge_sort_tnode_lem_example =
    merge_sort_tnode_lem children
      (
        ((λ e. absurd (omega arith)), ((λ e. absurd (omega arith)), tt)),
        (((λ e. absurd (omega arith)), tt), (tt, tt)),
      )
      (omega arith, (omega arith, (omega arith, tt)))

trie_prefix_delete_lem_example :
    Pruned two_keys (trie_prefix_delete two_keys (b'a' ∷ [])) (b'a' ∷ [])
trie_prefix_delete_lem_example = trie_prefix_delete_lem two_keys b'a' [] two_keys-IsTrie
