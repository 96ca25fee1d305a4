-- ===== src/Trie/Lookup.antt =====
-- Insertion as an update of the map from keys to values.
use mqttbroker.Base.{
  ℕ, ◌+◌, ◌%◌, ◌^◌, ◌<◌, ◌≡◌, refl, sym, ap, ◌∙◌, ◌≢◌, ◌↔◌, inl, inr, Bool, true, false, ◌&&◌,
  Option, none, some, List, [], ◌∷◌, arith, All, IsByte, ◌==◌, if◌then◌else◌, Bool-cases,
  Option-cases,
}
use mqttbroker.Trie.{
  Node, Nodes, node, nil, chr, linear_search, put_child, next_child, with_child, count_value,
  trie_node_find, trie_node_search, trie_node_insert, Trie, trie_insert, trie_find,
}
use mqttbroker.Trie.Chain.{
  IsSorted, linear_search-first, first-put_child_self, first-put_child_ne, AllNodes-put_child,
  IsSorted-put_child,
}
use mqttbroker.Trie.Order.{
  WellFormed, Ordered, to_Ordered, from_Ordered, next_child_found, next_child_new,
  next_child-WellFormed, chr-next_child, with_child-Ordered, first-with_child,
}

abbrev pub is_some {ℓ} : {A : Type ℓ} → Option A → Bool
is_some none = false
is_some (some a) = true

abbrev pub same_key : List ℕ → List ℕ → Bool
same_key [] [] = true
same_key [] (d ∷ key') = false
same_key (c ∷ key) [] = false
same_key (c ∷ key) (d ∷ key') = (c == d) && same_key key key'

pub same_key_iff : (key key' : List ℕ) → (same_key key key' ≡ true) ↔ (key ≡ key')
same_key_iff [] [] = (λ e. refl, λ e. refl)
same_key_iff [] (d ∷ key') = (λ e. cc, λ e. cc)
same_key_iff (c ∷ key) [] = (λ e. cc, λ e. cc)
same_key_iff (c ∷ key) (d ∷ key') =
    let (to, from) = same_key_iff key key' in (λ e. ground (arith, to), λ e. ground (arith, from))

module _ {V : Type 0} where
  pub search_none :
      (c k : ℕ) (value : Option V) (ns : Nodes V) (key : List ℕ)
      → linear_search ns k ≡ none
      → trie_node_search (node c value ns) (k ∷ key) ≡ none
  unfolding trie_node_search
  search_none c k value ns key e = rw (e, trie_node_search, trie_node_find)

  pub search_some :
      (c k : ℕ) (value : Option V) (ns : Nodes V) (key : List ℕ) (n : Node V)
      → linear_search ns k ≡ some n
      → trie_node_search (node c value ns) (k ∷ key) ≡ trie_node_search n key
  unfolding trie_node_search
  search_some c k value ns key n e = rw (e, trie_node_search, trie_node_find)

  pub search_leaf : (c : ℕ) (key : List ℕ) → trie_node_search {V = V} (node c none nil) key ≡ none
  unfolding trie_node_search linear_search
  search_leaf c [] = refl
  search_leaf c (k ∷ key) = refl

  pub chr-insert :
      (n : Node V) (key : List ℕ) (v : V) (size : ℕ) → chr (trie_node_insert n key v size).0 ≡ chr n
  unfolding trie_node_insert
  chr-insert (node c value ns) [] v size = refl
  chr-insert (node c value ns) (k ∷ key) v size = refl

  -- The child to go on with holds what the node held below the character.
  search-next_child :
      (c k : ℕ) (value : Option V) (ns : Nodes V) (key : List ℕ)
      → trie_node_search (next_child k ns) key ≡ trie_node_search (node c value ns) (k ∷ key)
  search-next_child c k value ns key = elim (Option-cases (linear_search ns k)) [
    | inl e ↦ rw (next_child_new k ns e, search_none c k value ns key e) (search_leaf k key)
    | inr (n, e) ↦ rw (next_child_found k ns n e, search_some c k value ns key n e)
  ]

  -- The value at a node plays no part below it.
  pub search_below :
      (c d : ℕ) (value value' : Option V) (ns : Nodes V) (key : List ℕ)
      → trie_node_search (node c value ns) (d ∷ key) ≡ trie_node_search (node c value' ns) (d ∷ key)
  search_below c d value value' ns key =
      sym (search-next_child c d value ns key) ∙ search-next_child c d value' ns key

  -- Two chains that find the same node under a character hold the same below it.
  pub search_same :
      (c d : ℕ) (value : Option V) (ns ns' : Nodes V) (key : List ℕ)
      → linear_search ns d ≡ linear_search ns' d
      → trie_node_search (node c value ns) (d ∷ key) ≡ trie_node_search (node c value ns') (d ∷ key)
  search_same c d value ns ns' key e = elim (Option-cases (linear_search ns' d)) [
    | inl q ↦ rw (search_none c d value ns key (e ∙ q), search_none c d value ns' key q)
    | inr (n, q) ↦ rw (search_some c d value ns key n (e ∙ q), search_some c d value ns' key n q)
  ]

  -- One step of the insertion: the child is put in its place among the children.
  module _ (k : ℕ) (ns : Nodes V) (child : Node V) (o : Ordered ns) (hb : k < 256)
      (same : chr child ≡ k) where
    abbrev placed : Nodes V
    placed = put_child k child (with_child k ns)

    placed-Ordered : WellFormed child → Ordered placed
    placed-Ordered w =
        let p = with_child-Ordered k ns o hb in
        record {
          sorted = IsSorted-put_child k child same (with_child k ns) p.sorted;
          bytes = AllNodes-put_child k child same _ (with_child k ns) (rw same hb) p.bytes;
          deep = AllNodes-put_child k child same _ (with_child k ns) w p.deep;
        }

    placed-IsSorted : IsSorted placed
    placed-IsSorted =
        IsSorted-put_child k child same (with_child k ns) (with_child-Ordered k ns o hb).sorted

    placed_self : linear_search placed k ≡ some child
    placed_self =
        linear_search-first placed k placed-IsSorted
        ∙ first-put_child_self k child same (with_child k ns) (next_child k ns)
            (first-with_child k ns o hb k ∙ ground arith)

    placed_ne : (d : ℕ) → k ≢ d → linear_search placed d ≡ linear_search ns d
    placed_ne d ne =
        linear_search-first placed d placed-IsSorted
        ∙ first-put_child_ne k child same (with_child k ns) d ne
        ∙ first-with_child k ns o hb d
        ∙ ground arith
        ∙ sym (linear_search-first ns d o.sorted)

  -- Insertion keeps the order of the children everywhere.
  pub trie_node_insert-WellFormed :
      (n : Node V) (key : List ℕ) (v : V) (size : ℕ)
      → All IsByte key
      → WellFormed n
      → WellFormed (trie_node_insert n key v size).0
  unfolding trie_node_insert
  trie_node_insert-WellFormed (node c value ns) [] v size hk w = w
  trie_node_insert-WellFormed (node c value ns) (k ∷ key) v size (hb, hk) w =
      let o = to_Ordered c value ns w in
      let (child, _) = trie_node_insert (next_child k ns) key v size in
      let same = chr-insert (next_child k ns) key v size ∙ chr-next_child k ns o in
      let deep =
        trie_node_insert-WellFormed (next_child k ns) key v size hk
          (next_child-WellFormed k ns o) in
      from_Ordered c value _ (placed-Ordered k ns child o hb same deep)

  size-insert :
      (n : Node V) (key : List ℕ) (v : V) (size : ℕ)
      → (trie_node_insert n key v size).1 ≡ count_value (trie_node_search n key) size
  unfolding trie_node_insert
  size-insert (node c value ns) [] v size = unfold trie_node_search in refl
  size-insert (node c value ns) (k ∷ key) v size =
      size-insert (next_child k ns) key v size
      ∙ ap (λ (o : Option V). count_value o size) (search-next_child c k value ns key)

  -- After an insertion the search finds the new value under its key, and under every other key what
  -- it found before.
  search-insert :
      (n : Node V) (key key' : List ℕ) (v : V) (size : ℕ)
      → All IsByte key
      → WellFormed n
      → trie_node_search (trie_node_insert n key v size).0 key'
        ≡ (if same_key key key' then some v else trie_node_search n key')
  unfolding trie_node_insert
  search-insert (node c value ns) [] [] v size hk w = unfold trie_node_search in refl
  search-insert (node c value ns) [] (d ∷ key') v size hk w =
      search_below c d (some v) value ns key'
  search-insert (node c value ns) (k ∷ key) [] v size hk w = unfold trie_node_search in refl
  search-insert (node c value ns) (k ∷ key) (d ∷ key') v size (hb, hk) w =
      let o = to_Ordered c value ns w in
      let next = next_child k ns in
      let child = (trie_node_insert next key v size).0 in
      let same = chr-insert next key v size ∙ chr-next_child k ns o in
      elim (Bool-cases (k == d)) [
        | inl here ↦
            let e : d ≡ k = ground (arith, here) in
            let self : (k == k) ≡ true = ground arith in
            rw (
              e,
              self,
              search_some c k value _ key' child (placed_self k ns child o hb same),
              search-insert next key key' v size hk (next_child-WellFormed k ns o),
              search-next_child c k value ns key',
            )
        | inr other ↦
            let ne : k ≢ d = ground (arith, other) in
            rw (other) (search_same c d value _ ns key' (placed_ne k ns child o hb same d ne))
      ]

  -- A trie whose nodes are in order.
  abbrev pub IsTrie : Trie V → Type 0
  IsTrie t = WellFormed t.root

  count_value-counts :
      (o : Option V) (size : ℕ)
      → count_value o size ≡ (if is_some o then size else (size + 1) % 2 ^ 64)
  unfolding count_value
  count_value-counts none size = refl
  count_value-counts (some v) size = refl

  -- `trie_insert` on a trie in order, with a key of bytes: the trie stays in order, `trie_find` gives
  -- the new value under the key and what it gave before under every other key, and `size` grows by
  -- one, as a `size_t`, if the key had no value.
  pub trie_insert_lem :
      (t : Trie V) (key : List ℕ) (v : V)
      → All IsByte key
      → IsTrie t
      → IsTrie (trie_insert t key v)
        × ((key' : List ℕ)
            → trie_find (trie_insert t key v) key'
              ≡ (if same_key key key' then some v else trie_find t key'))
        × ((trie_insert t key v).size
            ≡ (if is_some (trie_find t key) then t.size else (t.size + 1) % 2 ^ 64))
  unfolding trie_insert trie_find
  trie_insert_lem t key v hk w = (
    trie_node_insert-WellFormed t.root key v t.size hk w,
    λ key'. search-insert t.root key key' v t.size hk w,
    size-insert t.root key v t.size ∙ count_value-counts (trie_node_search t.root key) t.size,
  )
