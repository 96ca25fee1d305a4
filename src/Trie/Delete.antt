-- ===== src/Trie/Delete.antt =====
-- Deletion as an update of the map from keys to values.
use mqttbroker.Base.{
  ℕ, ◌-◌, ◌<◌, ◌≡◌, refl, sym, ap, ◌∙◌, ◌≢◌, inl, inr, Bool, true, false, ◌&&◌, ◌||◌, Option, none,
  some, List, [], ◌∷◌, arith, ◌==◌, if◌then◌else◌, Bool-cases, Option-cases,
}
use mqttbroker.Trie.{
  Node, Nodes, node, nil, cons, chr, len, linear_search, put_child, remove_child, trie_node_search,
  trie_node_free, uncount_value, is_none, Deletion, delete_value, delete_child,
  trie_node_recursive_delete, Trie, trie_find, trie_delete,
}
use mqttbroker.Trie.Chain.{
  IsSorted, first, linear_search-first, first-put_child_self, first-put_child_ne, first-chr,
  AllNodes-put_child, IsSorted-put_child, AllNodes-remove_child, IsSorted-remove_child,
  first-remove_child_self, first-remove_child_ne,
}
use mqttbroker.Trie.Order.{WellFormed, Ordered, to_Ordered, from_Ordered, AllNodes-first}
use mqttbroker.Trie.Lookup.{
  is_some, same_key, search_none, search_some, search_same, search_leaf, search_below, IsTrie,
}

module _ {V : Type 0} where
  uncount_value-counts :
      (o : Option V) (size : ℕ) → uncount_value o size ≡ (if is_some o then size - 1 else size)
  unfolding uncount_value
  uncount_value-counts none size = refl
  uncount_value-counts (some v) size = refl

  -- What a deletion below a node does.
  pub record Deletes (n : Node V) (key : List ℕ) (size : ℕ) (found : Bool) (d : Deletion V)
      : Type 0 where
    pub ordered : WellFormed d.kept
    pub same_chr : chr d.kept ≡ chr n
    pub searches :
        (key' : List ℕ)
        → trie_node_search d.kept key'
          ≡ (if same_key key key' then none else trie_node_search n key')
    pub empty : d.delete ≡ true → (c : ℕ) × (d.kept ≡ node c none nil)
    pub flag : d.found ≡ (found || is_some (trie_node_search n key))
    pub counted : d.size ≡ uncount_value (trie_node_search n key) size

  no_nodes : (ns : Nodes V) → (len ns == 0) ≡ true → ns ≡ nil
  no_nodes nil h = refl
  no_nodes (cons n ns) h = absurd (ground arith)

  -- A node that is to be deleted has no value and no child.
  bare_node :
      (c : ℕ) (value : Option V) (ns : Nodes V)
      → (is_none value && (len ns == 0)) ≡ true
      → node c value ns ≡ node c none nil
  bare_node c none ns h = rw (no_nodes ns h)
  bare_node c (some v) ns h = absurd (ground arith)

  value_gone :
      (c : ℕ) (value : Option V) (ns : Nodes V) (key' : List ℕ)
      → trie_node_search (node c none ns) key'
        ≡ (if same_key [] key' then none else trie_node_search (node c value ns) key')
  value_gone c value ns [] = unfold trie_node_search in refl
  value_gone c value ns (d ∷ key') = search_below c d none value ns key'

  delete_value-Deletes :
      (n : Node V) (size : ℕ) (found : Bool)
      → WellFormed n
      → Deletes n [] size found (delete_value n size found)
  delete_value-Deletes (node c none ns) size found w = record {
    ordered = unfold delete_value in w;
    same_chr = unfold delete_value in refl;
    searches = λ key'. unfold delete_value in value_gone c none ns key';
    empty = unfold delete_value in (λ e. cc);
    flag = unfold delete_value trie_node_search in ground arith;
    counted = unfold delete_value trie_node_search uncount_value in refl;
  }
  delete_value-Deletes (node c (some old) ns) size found w = record {
    ordered = unfold delete_value in w;
    same_chr = unfold delete_value in refl;
    searches = λ key'. unfold delete_value in value_gone c (some old) ns key';
    empty = unfold delete_value in (λ e. (c, rw (no_nodes ns e)));
    flag = unfold delete_value trie_node_search in ground arith;
    counted = unfold delete_value trie_node_search uncount_value in refl;
  }

  module _ (c k : ℕ) (value : Option V) (ns : Nodes V) (key : List ℕ) (child : Node V) (size : ℕ)
      (found : Bool) (d : Deletion V) (o : Ordered ns) (here : first ns k ≡ some child)
      (below : Deletes child key size found d) where
    at_child : linear_search ns k ≡ some child
    at_child = linear_search-first ns k o.sorted ∙ here

    child_search :
        (key' : List ℕ)
        → trie_node_search (node c value ns) (k ∷ key') ≡ trie_node_search child key'
    child_search key' = search_some c k value ns key' child at_child

    -- Another chain holds the same as this one but for the key, if it does so below the child.
    searches_through :
        (ns' : Nodes V)
        → ((d' : ℕ) → k ≢ d' → linear_search ns' d' ≡ linear_search ns d')
        → ((key' : List ℕ)
            → trie_node_search (node c value ns') (k ∷ key')
              ≡ (if same_key key key' then none else trie_node_search child key'))
        → (key' : List ℕ)
        → trie_node_search (node c value ns') key'
          ≡ (if same_key (k ∷ key) key' then none else trie_node_search (node c value ns) key')
    searches_through ns' ne self [] = unfold trie_node_search in refl
    searches_through ns' ne self (d' ∷ key') = elim (Bool-cases (k == d')) [
      | inl here ↦
          let e : d' ≡ k = ground (arith, here) in
          let same : (k == k) ≡ true = ground arith in rw (e, same, child_search key') (self key')
      | inr other ↦
          let differ : k ≢ d' = ground (arith, other) in
          rw (other) (search_same c d' value ns' ns key' (ne d' differ))
    ]

    -- The child is taken out of the chain: nothing was left below it.
    removed :
        d.delete ≡ true
        → Deletes (node c value ns) (k ∷ key) size found (delete_child k c value ns d)
    removed e =
        let (c', bare) = below.empty e in
        let left = remove_child k ns in
        let sorted : IsSorted left = IsSorted-remove_child k ns o.sorted in
        let shape : delete_child k c value ns d ≡ record {
          kept = node c value left;
          size = d.size;
          found = d.found;
          delete = is_none value && (len left == 0);
        } =
          unfold delete_child in rw (e, bare) (unfold trie_node_free in refl) in
        rw (shape) (record {
          ordered = from_Ordered c value left (record {
            sorted = sorted;
            bytes = AllNodes-remove_child _ k ns o.bytes;
            deep = AllNodes-remove_child _ k ns o.deep;
          });
          same_chr = refl;
          searches =
              searches_through left
                (λ d' ne.
                  linear_search-first left d' sorted
                  ∙ first-remove_child_ne k d' ns ne
                  ∙ sym (linear_search-first ns d' o.sorted))
                (λ key'.
                  search_none c k value left key'
                    (linear_search-first left k sorted ∙ first-remove_child_self k ns o.sorted)
                  ∙ sym (search_leaf c' key')
                  ∙ ap (λ n. trie_node_search n key') (sym bare)
                  ∙ below.searches key');
          empty = λ h. (c, bare_node c value left h);
          flag = rw (child_search key) below.flag;
          counted = rw (child_search key) below.counted;
        })

    -- The child is written in its place.
    replaced :
        d.delete ≡ false
        → Deletes (node c value ns) (k ∷ key) size found (delete_child k c value ns d)
    replaced e =
        let kept = put_child k d.kept ns in
        let same : chr d.kept ≡ k = below.same_chr ∙ first-chr ns k child here in
        let sorted : IsSorted kept = IsSorted-put_child k d.kept same ns o.sorted in
        let shape : delete_child k c value ns d
            ≡ record { kept = node c value kept; size = d.size; found = d.found; delete = false } =
          unfold delete_child in rw e in
        let byte : chr d.kept < 256 =
          rw (below.same_chr) (AllNodes-first (λ n. chr n < 256) ns k child o.bytes here) in
        rw (shape) (record {
          ordered = from_Ordered c value kept (record {
            sorted = sorted;
            bytes = AllNodes-put_child k d.kept same _ ns byte o.bytes;
            deep = AllNodes-put_child k d.kept same _ ns below.ordered o.deep;
          });
          same_chr = refl;
          searches =
              searches_through kept
                (λ d' ne.
                  linear_search-first kept d' sorted
                  ∙ first-put_child_ne k d.kept same ns d' ne
                  ∙ sym (linear_search-first ns d' o.sorted))
                (λ key'.
                  search_some c k value kept key' d.kept (
                    linear_search-first kept k sorted
                    ∙ first-put_child_self k d.kept same ns child here)
                  ∙ below.searches key');
          empty = λ h. absurd (ground arith);
          flag = rw (child_search key) below.flag;
          counted = rw (child_search key) below.counted;
        })

    delete_child-Deletes :
        Deletes (node c value ns) (k ∷ key) size found (delete_child k c value ns d)
    delete_child-Deletes = elim (Bool-cases d.delete) [ inl e ↦ removed e | inr e ↦ replaced e ]

  -- A node without the next character is left as it is.
  absent-Deletes :
      (c k : ℕ) (value : Option V) (ns : Nodes V) (key : List ℕ) (size : ℕ) (found : Bool)
      → WellFormed (node c value ns)
      → linear_search ns k ≡ none
      → Deletes
          (node c value ns)
          (k ∷ key)
          size
          found
          (record { kept = node c value ns; size = size; found = found; delete = false })
  absent-Deletes c k value ns key size found w e = record {
    ordered = w;
    same_chr = refl;
    searches = unchanged;
    empty = λ h. absurd (ground arith);
    flag = rw (search_none c k value ns key e) (ground arith);
    counted = rw (search_none c k value ns key e) (unfold uncount_value in refl);
  }
    where
      unchanged :
          (key' : List ℕ)
          → trie_node_search (node c value ns) key'
            ≡ (if same_key (k ∷ key) key' then none else trie_node_search (node c value ns) key')
      unchanged [] = refl
      unchanged (d ∷ key') = elim (Bool-cases (k == d)) [
        | inr other ↦ rw other
        | inl here ↦
            let q : d ≡ k = ground (arith, here) in
            let nothing : trie_node_search (node c value ns) (d ∷ key') ≡ none =
              search_none c d value ns key' (rw q e) in
            rw (nothing) (ground arith)
      ]

  module _ (c k : ℕ) (value : Option V) (ns : Nodes V) (key : List ℕ) (size : ℕ)
      (found : Bool) where
    delete_absent :
        linear_search ns k ≡ none
        → trie_node_recursive_delete (node c value ns) (k ∷ key) size found
          ≡ record { kept = node c value ns; size = size; found = found; delete = false }
    unfolding trie_node_recursive_delete
    delete_absent e = rw (e, trie_node_recursive_delete)

    delete_through :
        (child : Node V)
        → linear_search ns k ≡ some child
        → trie_node_recursive_delete (node c value ns) (k ∷ key) size found
          ≡ delete_child k c value ns (trie_node_recursive_delete child key size found)
    unfolding trie_node_recursive_delete
    delete_through child e = rw (e, trie_node_recursive_delete)

  recursive_delete-Deletes :
      (n : Node V) (key : List ℕ) (size : ℕ) (found : Bool)
      → WellFormed n
      → Deletes n key size found (trie_node_recursive_delete n key size found)
  recursive_delete-Deletes n [] size found w =
      unfold trie_node_recursive_delete in delete_value-Deletes n size found w
  recursive_delete-Deletes (node c value ns) (k ∷ key) size found w =
      let o = to_Ordered c value ns w in
      let search = linear_search-first ns k o.sorted in
      elim (Option-cases (first ns k)) [
        | inl e ↦
            rw (delete_absent c k value ns key size found (search ∙ e))
              (absent-Deletes c k value ns key size found w (search ∙ e))
        | inr (child, e) ↦
            let deep = AllNodes-first WellFormed ns k child o.deep e in
            rw (delete_through c k value ns key size found child (search ∙ e)) (
              delete_child-Deletes c k value ns key child size found _ o e
                (recursive_delete-Deletes child key size found deep))
      ]

  -- `trie_delete` on a trie in order, with a key that is not empty: the trie stays in order,
  -- `trie_find` gives nothing under the key and what it gave before under every other key, the
  -- result says whether the key had a value, and `size` goes down by one, not below 0, if it had.
  pub trie_delete_lem :
      (t : Trie V) (k : ℕ) (key : List ℕ)
      → IsTrie t
      → let (t', found) = trie_delete t (k ∷ key) in
        IsTrie t'
        × ((key' : List ℕ)
            → trie_find t' key' ≡ (if same_key (k ∷ key) key' then none else trie_find t key'))
        × (found ≡ is_some (trie_find t (k ∷ key)))
        × (t'.size ≡ (if is_some (trie_find t (k ∷ key)) then t.size - 1 else t.size))
  unfolding trie_delete trie_find
  trie_delete_lem t k key w =
      let d = recursive_delete-Deletes t.root (k ∷ key) t.size false w in
      (
        d.ordered,
        d.searches,
        d.flag,
        d.counted ∙ uncount_value-counts (trie_node_search t.root (k ∷ key)) t.size,
      )
