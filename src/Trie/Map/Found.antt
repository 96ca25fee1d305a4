-- ===== src/Trie/Map/Found.antt =====
-- A function on the node that `trie_node_find` of sol/src/trie.c gives for a prefix, and what it does
-- to the values below the prefix.
use mqttbroker.Base.{
  ℕ, ◌<◌, ◌≡◌, refl, sym, ◌∙◌, ◌≢◌, inl, inr, Bool, true, false, ◌&&◌, Option, none, some, List, [],
  ◌∷◌, arith, ◌==◌, Bool-cases, Option-cases,
}
use mqttbroker.Trie.{Node, Nodes, node, chr, linear_search, put_child, trie_node_search}
use mqttbroker.Trie.Chain.{
  IsSorted, first, linear_search-first, first-put_child_self, first-put_child_ne, first-chr,
  AllNodes-put_child, IsSorted-put_child,
}
use mqttbroker.Trie.Order.{WellFormed, Ordered, to_Ordered, from_Ordered, AllNodes-first}
use mqttbroker.Trie.Lookup.{search_none, search_some, search_same}
use mqttbroker.Trie.Prefix.Clear.{starts}
use mqttbroker.Trie.Map.{map_found}
use mqttbroker.Trie.Map.Lookup.{Keeps, Acts}

module _ {V : Type 0} where
  -- Below the prefix the values are as the relation says, and elsewhere they stay.
  abbrev pub Maps : (Option V → Option V → Type 0) → Bool → Option V → Option V → Type 0
  Maps R true before after = R before after
  Maps R false before after = after ≡ before

  -- A function on the node at the end of a prefix.
  module _ (f : Node V → Node V) (k : Keeps f) (R : Option V → Option V → Type 0)
      (nothing : R none none) (acts : Acts R f) where
    pub record Mapped (n : Node V) (prefix : List ℕ) : Type 0 where
      pub ordered : WellFormed (map_found f n prefix)
      pub same_chr : chr (map_found f n prefix) ≡ chr n
      pub searches :
          (key : List ℕ)
          → Maps R
              (starts prefix key)
              (trie_node_search n key)
              (trie_node_search (map_found f n prefix) key)

    module _ (c p : ℕ) (value : Option V) (ns : Nodes V) (prefix : List ℕ)
        (w : WellFormed (node c value ns)) where
      abbrev o : Ordered ns
      o = to_Ordered c value ns w

      map_none : linear_search ns p ≡ none → Mapped (node c value ns) (p ∷ prefix)
      map_none e =
          let absent : map_found f (node c value ns) (p ∷ prefix) ≡ node c value ns =
            unfold map_found in rw (e, map_found) refl in
          record {
            ordered = rw absent w;
            same_chr = rw absent refl;
            searches = λ key. rw absent (unchanged key);
          }
        where
          unchanged :
              (key : List ℕ)
              → Maps R
                  (starts (p ∷ prefix) key)
                  (trie_node_search (node c value ns) key)
                  (trie_node_search (node c value ns) key)
          unchanged [] = refl
          unchanged (d ∷ key) = elim (Bool-cases ((p == d) && starts prefix key)) [
            | inr other ↦ rw other refl
            | inl here ↦
                let q : d ≡ p = ground (arith, here) in
                let gone : trie_node_search (node c value ns) (d ∷ key) ≡ none =
                  search_none c d value ns key (rw q e) in
                rw (here, gone) nothing
          ]

      module _ (child : Node V) (e : first ns p ≡ some child) (below : Mapped child prefix) where
        abbrev changed : Node V
        changed = map_found f child prefix

        abbrev left : Nodes V
        left = put_child p changed ns

        same : chr changed ≡ p
        same = below.same_chr ∙ first-chr ns p child e

        left-IsSorted : IsSorted left
        left-IsSorted = IsSorted-put_child p changed same ns o.sorted

        through : map_found f (node c value ns) (p ∷ prefix) ≡ node c value left
        through =
            let found = linear_search-first ns p o.sorted ∙ e in
            unfold map_found in rw (found, map_found) refl

        left-searches :
            (key : List ℕ)
            → Maps R
                (starts (p ∷ prefix) key)
                (trie_node_search (node c value ns) key)
                (trie_node_search (node c value left) key)
        left-searches [] = unfold trie_node_search in refl
        left-searches (d ∷ key) = elim (Bool-cases (p == d)) [
          | inl here ↦
              let q : d ≡ p = ground (arith, here) in
              let self : (p == p) ≡ true = ground arith in
              rw
                (
                  q,
                  self,
                  search_some c p value left key changed (
                      linear_search-first left p left-IsSorted
                      ∙ first-put_child_self p changed same ns child e),
                  search_some c p value ns key child (linear_search-first ns p o.sorted ∙ e),
                )
                (below.searches key)
          | inr other ↦
              let differ : p ≢ d = ground (arith, other) in
              rw other (
                search_same c d value left ns key (
                  linear_search-first left d left-IsSorted
                  ∙ first-put_child_ne p changed same ns d differ
                  ∙ sym (linear_search-first ns d o.sorted)))
        ]

        map_child : Mapped (node c value ns) (p ∷ prefix)
        map_child =
            let byte : chr changed < 256 =
              rw below.same_chr (AllNodes-first (λ n. chr n < 256) ns p child o.bytes e) in
            record {
              ordered = rw through (
                  from_Ordered c value left (record {
                    sorted = left-IsSorted;
                    bytes = AllNodes-put_child p changed same _ ns byte o.bytes;
                    deep = AllNodes-put_child p changed same _ ns below.ordered o.deep;
                  }));
              same_chr = rw through refl;
              searches = λ key. rw through (left-searches key);
            }

    pub map_found-Mapped : (n : Node V) (prefix : List ℕ) → WellFormed n → Mapped n prefix
    map_found-Mapped n [] w = record {
      ordered = unfold map_found in k.ordered n w;
      same_chr = unfold map_found in k.same_chr n;
      searches = λ key. unfold map_found in acts n key;
    }
    map_found-Mapped (node c value ns) (p ∷ prefix) w =
        let sorted = (to_Ordered c value ns w).sorted in
        let deep = (to_Ordered c value ns w).deep in
        elim (Option-cases (first ns p)) [
          | inl e ↦ map_none c p value ns prefix w (linear_search-first ns p sorted ∙ e)
          | inr (child, e) ↦
              map_child c p value ns prefix w child e
                (map_found-Mapped child prefix (AllNodes-first WellFormed ns p child deep e))
        ]
