-- ===== src/Trie.antt =====
-- sol/src/trie.c: a map from C strings to values, as a tree with a node for each character. A key
-- is the list of its characters, its NUL left off; a character is the byte that stands for it.
pub mod Chain
pub mod Sort
pub mod Order
pub mod Lookup
pub mod Delete
pub mod Prefix
pub mod Map
use mqttbroker.Base.{
  ℕ, zero, suc, ◌+◌, ◌-◌, ◌%◌, ◌^◌, Bool, true, false, ◌&&◌, Option, none, some, List, [], ◌∷◌, ltb,
  leb, ◌==◌, if◌then◌else◌,
}

-- struct trie_node; `data` is NULL or a value. `Nodes` is the chain of a children list, whose `len`
-- is the number of its nodes.
mutual
  pub data Node (V : Type 0) : Type 0 where
    node : ℕ → Option V → Nodes V → Node V

  pub data Nodes (V : Type 0) : Type 0 where
    nil : Nodes V
    cons : Node V → Nodes V → Nodes V

-- The value of a `char` for the comparisons: it is signed, so bytes from 128 on come first.
abbrev pub char_rank : ℕ → ℕ
char_rank c = (c + 128) % 256

module _ {V : Type 0} where
  abbrev pub chr : Node V → ℕ
  chr (node c value children) = c

  abbrev pub len : Nodes V → ℕ
  len nil = 0
  len (cons n ns) = suc (len ns)

  unfoldable pub trie_create_node : ℕ → Node V
  trie_create_node c = node c none nil

  unfoldable pub trie_is_free_node : Node V → Bool
  trie_is_free_node (node c value children) = len children == 0

  -- The node found; the search stops at the first character that is greater.
  unfoldable pub linear_search : Nodes V → ℕ → Option (Node V)
  linear_search nil value = none
  linear_search (cons n ns) value =
      let later = linear_search ns value in
      if chr n == value
      then some n
      else if ltb (char_rank value) (char_rank (chr n))
      then none
      else later

  -- list.c's `bisect_list`: the loop, and the two parts that it leaves.
  unfoldable pub bisect_loop : Nodes V → Nodes V → Nodes V × Nodes V
  bisect_loop (cons x (cons y fast)) (cons s slow) =
      let (before, after) = bisect_loop fast slow in (cons s before, after)
  bisect_loop fast slow = (nil, slow)

  -- The chain that is left at `head`, and the chain returned. With fewer than two nodes `prev` is
  -- NULL, and the first is not cut.
  unfoldable pub bisect_list : Nodes V → Nodes V × Nodes V
  unfolding bisect_loop
  bisect_list nil = (nil, nil)
  bisect_list (cons x nil) = (cons x nil, cons x nil)
  bisect_list (cons x (cons y ns)) = bisect_loop (cons x (cons y ns)) (cons x (cons y ns))

  unfoldable pub merge_tnode_list : Nodes V → Nodes V → Nodes V
  merge_tnode_list nil list2 = list2
  merge_tnode_list (cons x list1) nil = cons x list1
  merge_tnode_list (cons x list1) (cons y list2) =
      elim (leb (char_rank (chr x)) (char_rank (chr y))) [
        | true ↦ cons x (merge_tnode_list list1 (cons y list2))
        | false ↦ cons y (merge_tnode_list (cons x list1) list2)
      ]

  -- The recursion of `merge_sort_tnode`; as many levels as nodes are enough.
  unfoldable pub merge_sort_levels : ℕ → Nodes V → Nodes V
  unfolding bisect_list merge_tnode_list
  merge_sort_levels zero head = head
  merge_sort_levels (suc levels) nil = nil
  merge_sort_levels (suc levels) (cons x nil) = cons x nil
  merge_sort_levels (suc levels) (cons x (cons y ns)) =
      let (list1, list2) = bisect_list (cons x (cons y ns)) in
      merge_tnode_list (merge_sort_levels levels list1) (merge_sort_levels levels list2)

  unfoldable pub merge_sort_tnode : Nodes V → Nodes V
  unfolding merge_sort_levels
  merge_sort_tnode head = merge_sort_levels (len head) head

  -- A write through the pointer to the child that `linear_search` found, or that was just added.
  unfoldable pub put_child : ℕ → Node V → Nodes V → Nodes V
  put_child c child nil = nil
  put_child c child (cons n ns) =
      if chr n == c then cons child ns else cons n (put_child c child ns)

  -- list.c's `list_remove` with `with_char`: the first node with the character goes.
  unfoldable pub remove_child : ℕ → Nodes V → Nodes V
  remove_child c nil = nil
  remove_child c (cons n ns) = if chr n == c then ns else cons n (remove_child c ns)

  unfoldable pub trie_node_find : Node V → List ℕ → Option (Node V)
  unfolding linear_search
  trie_node_find n [] = some n
  trie_node_find (node c value children) (p ∷ prefix) = elim (linear_search children p) [
    | none ↦ none
    | some child ↦ trie_node_find child prefix
  ]

  -- The value found; the `bool` that the function returns says whether there is one.
  unfoldable pub trie_node_search : Node V → List ℕ → Option V
  unfolding trie_node_find
  trie_node_search root key = elim (trie_node_find root key) [
    | none ↦ none
    | some (node c value children) ↦ value
  ]

  -- The child to go on with: the one found, or a new one.
  unfoldable pub next_child : ℕ → Nodes V → Node V
  unfolding linear_search trie_create_node
  next_child c children = elim (linear_search children c) [
    | none ↦ trie_create_node c
    | some child ↦ child
  ]

  -- The children with that child among them, sorted anew if it was added.
  unfoldable pub with_child : ℕ → Nodes V → Nodes V
  unfolding linear_search trie_create_node merge_sort_tnode
  with_child c children = elim (linear_search children c) [
    | none ↦ merge_sort_tnode (cons (trie_create_node c) children)
    | some child ↦ children
  ]

  unfoldable pub count_value : Option V → ℕ → ℕ
  count_value none size = (size + 1) % 2 ^ 64
  count_value (some old) size = size

  unfoldable pub trie_node_insert : Node V → List ℕ → V → ℕ → Node V × ℕ
  unfolding next_child with_child put_child count_value
  trie_node_insert (node c old children) [] value size =
      (node c (some value) children, count_value old size)
  trie_node_insert (node c old children) (k ∷ key) value size =
      let (child, size') = trie_node_insert (next_child k children) key value size in
      (node c old (put_child k child (with_child k children)), size')

  -- `size` after one value less: it stops at 0.
  unfoldable pub uncount_value : Option V → ℕ → ℕ
  uncount_value none size = size
  uncount_value (some old) size = size - 1

-- `trie_node_free`: the nodes go, and `size` is taken down for each value.
unfoldable mutual
  pub trie_node_free : {V : Type 0} → Node V → ℕ → ℕ
  trie_node_free (node c none children) size = free_children children size
  trie_node_free (node c (some old) children) size = free_children children size - 1

  pub free_children : {V : Type 0} → Nodes V → ℕ → ℕ
  free_children nil size = size
  free_children (cons n ns) size = free_children ns (trie_node_free n size)

-- The node and `size` after the call, `*found`, and the result: whether the node is to be deleted.
pub record Deletion (V : Type 0) : Type 0 where
  pub kept : Node V
  pub size : ℕ
  pub found : Bool
  pub delete : Bool

abbrev pub is_none {ℓ} : {A : Type ℓ} → Option A → Bool
is_none none = true
is_none (some a) = false

module _ {V : Type 0} where
  unfoldable pub delete_value : Node V → ℕ → Bool → Deletion V
  unfolding trie_is_free_node
  delete_value (node c none children) size found = record {
    kept = node c none children;
    size = size;
    found = found;
    delete = false;
  }
  delete_value (node c (some old) children) size found = record {
    kept = node c none children;
    size = size - 1;
    found = true;
    delete = len children == 0;
  }

  -- What a node does when its child has been treated.
  unfoldable pub delete_child : ℕ → ℕ → Option V → Nodes V → Deletion V → Deletion V
  unfolding remove_child put_child trie_is_free_node trie_node_free
  delete_child k c value children d =
      let left = remove_child k children in
      if d.delete
      then record {
        kept = node c value left;
        size = trie_node_free d.kept d.size;
        found = d.found;
        delete = is_none value && (len left == 0);
      }
      else record {
        kept = node c value (put_child k d.kept children);
        size = d.size;
        found = d.found;
        delete = false;
      }

  unfoldable pub trie_node_recursive_delete : Node V → List ℕ → ℕ → Bool → Deletion V
  unfolding linear_search delete_value delete_child
  trie_node_recursive_delete n [] size found = delete_value n size found
  trie_node_recursive_delete (node c value children) (k ∷ key) size found =
      elim (linear_search children k) [
        | none ↦ record { kept = node c value children; size = size; found = found; delete = false }
        | some child ↦
            delete_child k c value children (trie_node_recursive_delete child key size found)
      ]

-- struct trie
pub record Trie (V : Type 0) : Type 0 where
  pub root : Node V
  pub size : ℕ

module _ {V : Type 0} where
  -- `trie_create` allocates a trie and calls it.
  unfoldable pub trie_init : Trie V
  unfolding trie_create_node
  trie_init = record { root = trie_create_node b' '; size = 0 }

  unfoldable pub trie_size : Trie V → ℕ
  trie_size t = t.size

  unfoldable pub trie_insert : Trie V → List ℕ → V → Trie V
  unfolding trie_node_insert
  trie_insert t key value =
      let (root, size) = trie_node_insert t.root key value t.size in
      record { root = root; size = size }

  unfoldable pub trie_find : Trie V → List ℕ → Option V
  unfolding trie_node_search
  trie_find t key = trie_node_search t.root key

  -- The trie and the result. The empty key is refused.
  unfoldable pub trie_delete : Trie V → List ℕ → Trie V × Bool
  unfolding trie_node_recursive_delete
  trie_delete t [] = (t, false)
  trie_delete t (k ∷ key) =
      let d = trie_node_recursive_delete t.root (k ∷ key) t.size false in
      (record { root = d.kept; size = d.size }, d.found)
