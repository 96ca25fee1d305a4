-- ===== src/Trie/Prefix/Deletion.antt =====
-- The deletion of a prefix as an update of the map from keys to values.
use mqttbroker.Base.{
  ℕ, ◌≡◌, refl, sym, ◌∙◌, inl, inr, true, Option, none, some, List, [], ◌∷◌, arith, if◌then◌else◌,
  Bool-cases, Option-cases,
}
use mqttbroker.Trie.{
  Node, Nodes, node, nil, cons, linear_search, trie_node_find, trie_node_search, free_children,
  Trie, trie_find, trie_delete,
}
use mqttbroker.Trie.Lookup.{same_key, search_none, search_some, IsTrie}
use mqttbroker.Trie.Delete.{trie_delete_lem}
use mqttbroker.Trie.Prefix.{clear_children, clear_below, trie_prefix_delete}
use mqttbroker.Trie.Prefix.Clear.{
  extends, starts, starts_either, search_nil, clear_children-Cleared,
}

module _ {V : Type 0} where
  module _ (c p : ℕ) (value : Option V) (ns : Nodes V) (prefix : List ℕ) where
    find_through :
        (child : Node V)
        → linear_search ns p ≡ some child
        → trie_node_find (node c value ns) (p ∷ prefix) ≡ trie_node_find child prefix
    unfolding trie_node_find
    find_through child e = rw (e, trie_node_find)

  -- Where the walk to the end of a prefix fails, no key starts with it.
  walk_none :
      (n : Node V) (prefix key : List ℕ)
      → trie_node_find n prefix ≡ none
      → starts prefix key ≡ true
      → trie_node_search n key ≡ none
  walk_none n [] key e h = unfold trie_node_find in absurd (cc)
  walk_none (node c value ns) (p ∷ prefix) [] e h = absurd (cc)
  walk_none (node c value ns) (p ∷ prefix) (d ∷ key) e h =
      let q : d ≡ p = ground (arith, h) in
      let rest : starts prefix key ≡ true = ground (arith, h) in
      elim (Option-cases (linear_search ns p)) [
        | inl absent ↦ rw q (search_none c p value ns key absent)
        | inr (child, at) ↦
            rw (q, search_some c p value ns key child at)
              (walk_none child prefix key (sym (find_through c p value ns prefix child at) ∙ e)
                rest)
      ]

  -- Where it ends at a node without children, no longer key starts with it.
  walk_bare :
      (n : Node V) (prefix key : List ℕ) (c' : ℕ) (value' : Option V)
      → trie_node_find n prefix ≡ some (node c' value' nil)
      → extends prefix key ≡ true
      → trie_node_search n key ≡ none
  walk_bare n [] [] c' value' e h = absurd (cc)
  walk_bare n [] (d ∷ key) c' value' e h =
      let same : n ≡ node c' value' nil = unfold trie_node_find in cc e in
      rw same (search_nil c' value' d key)
  walk_bare (node c value ns) (p ∷ prefix) [] c' value' e h = absurd (cc)
  walk_bare (node c value ns) (p ∷ prefix) (d ∷ key) c' value' e h =
      let q : d ≡ p = ground (arith, h) in
      let rest : extends prefix key ≡ true = ground (arith, h) in
      elim (Option-cases (linear_search ns p)) [
        | inl absent ↦ rw q (search_none c p value ns key absent)
        | inr (child, at) ↦
            rw (q, search_some c p value ns key child at)
              (walk_bare child prefix key c' value'
                (sym (find_through c p value ns prefix child at) ∙ e) rest)
      ]

  -- All keys with the prefix are gone from `t'`, and the others are as in `t`.
  abbrev pub Pruned : Trie V → Trie V → List ℕ → Type 0
  Pruned t t' prefix =
      IsTrie t'
      × ((key : List ℕ) → trie_find t' key ≡ (if starts prefix key then none else trie_find t key))

  -- First the prefix itself goes, and then, in one way or another, the longer keys.
  two_steps :
      (prefix key : List ℕ) (before between after : Option V)
      → between ≡ (if same_key prefix key then none else before)
      → after ≡ (if extends prefix key then none else between)
      → after ≡ (if starts prefix key then none else before)
  two_steps prefix key before between after e₁ e₂ = ground (arith, e₁, e₂, starts_either prefix key)

  module _ (t : Trie V) (k : ℕ) (ks : List ℕ) (w : IsTrie t) where
    without_cursor : trie_node_find t.root (k ∷ ks) ≡ none → Pruned t t (k ∷ ks)
    unfolding trie_find
    without_cursor e = (w, same)
      where
        same :
            (key : List ℕ)
            → trie_find t key ≡ (if starts (k ∷ ks) key then none else trie_find t key)
        same key = elim (Bool-cases (starts (k ∷ ks) key)) [
          | inl yes_starts ↦ rw (yes_starts) (walk_none t.root (k ∷ ks) key e yes_starts)
          | inr other ↦ rw other
        ]

    at_bare_cursor :
        (c : ℕ) (value : Option V)
        → trie_node_find t.root (k ∷ ks) ≡ some (node c value nil)
        → Pruned t (trie_delete t (k ∷ ks)).0 (k ∷ ks)
    unfolding trie_find
    at_bare_cursor c value e =
        let (kept, finds, _, _) = trie_delete_lem t k ks w in
        (
          kept,
          λ key.
              two_steps (k ∷ ks) key (trie_find t key)
                (if same_key (k ∷ ks) key then none else trie_find t key) _ refl
                (finds key ∙ sym (longer key)),
        )
      where
        longer :
            (key : List ℕ)
            → (if extends (k ∷ ks) key
                then none
                else if same_key (k ∷ ks) key
                then none
                else trie_find t key)
              ≡ (if same_key (k ∷ ks) key then none else trie_find t key)
        longer key = elim (Bool-cases (extends (k ∷ ks) key)) [
          | inl more ↦
              let gone : trie_node_search t.root key ≡ none =
                walk_bare t.root (k ∷ ks) key c value e more in
              rw (more, gone) (ground arith)
          | inr other ↦ rw other
        ]

    at_full_cursor : (children : Nodes V) → Pruned t (clear_below t (k ∷ ks) children) (k ∷ ks)
    unfolding clear_below trie_find
    at_full_cursor children =
        let t₀ : Trie V = record { root = t.root; size = free_children children t.size } in
        let t₁ = (trie_delete t₀ (k ∷ ks)).0 in
        let (kept, finds, _, _) = trie_delete_lem t₀ k ks w in
        let cleared = clear_children-Cleared t₁.root (k ∷ ks) kept in
        (
          cleared.ordered,
          λ key.
              two_steps (k ∷ ks) key (trie_node_search t.root key) (trie_node_search t₁.root key)
                (trie_node_search (clear_children t₁.root (k ∷ ks)) key) (finds key)
                (cleared.searches key),
        )

    -- `trie_prefix_delete` on a trie in order, with a prefix that is not empty: the trie stays in
    -- order, `trie_find` gives nothing under the keys that start with the prefix, and what it gave
    -- before under every other key.
    pub trie_prefix_delete_lem : Pruned t (trie_prefix_delete t (k ∷ ks)) (k ∷ ks)
    unfolding trie_prefix_delete
    trie_prefix_delete_lem = by_cursor (trie_node_find t.root (k ∷ ks)) refl
      where
        by_cursor :
            (found : Option (Node V))
            → trie_node_find t.root (k ∷ ks) ≡ found
            → Pruned t (trie_prefix_delete t (k ∷ ks)) (k ∷ ks)
        by_cursor none e = rw (e, trie_prefix_delete) (without_cursor e)
        by_cursor (some (node c value nil)) e =
            rw (e, trie_prefix_delete) (at_bare_cursor c value e)
        by_cursor (some (node c value (cons n ns))) e =
            rw (e, trie_prefix_delete) (at_full_cursor (cons n ns))
