-- ===== src/Trie/Prefix/Clear.antt =====
-- What the clearing of the children at the end of a prefix leaves.
use mqttbroker.Base.{
  ℕ, ◌<◌, ◌≡◌, refl, sym, ◌∙◌, ◌≢◌, inl, inr, Bool, true, false, ◌&&◌, ◌||◌, Option, none, some,
  List, [], ◌∷◌, arith, ◌==◌, if◌then◌else◌, Bool-cases, Option-cases,
}
use mqttbroker.Trie.{Node, Nodes, node, nil, chr, linear_search, put_child, trie_node_search}
use mqttbroker.Trie.Chain.{
  IsSorted, first, linear_search-first, first-put_child_self, first-put_child_ne, first-chr,
  AllNodes-put_child, IsSorted-put_child,
}
use mqttbroker.Trie.Order.{WellFormed, Ordered, to_Ordered, from_Ordered, AllNodes-first}
use mqttbroker.Trie.Lookup.{same_key, search_none, search_some, search_same}
use mqttbroker.Trie.Prefix.{clear_children}

-- Whether a key is longer than the prefix and starts with it.
abbrev pub extends : List ℕ → List ℕ → Bool
extends [] [] = false
extends [] (d ∷ key) = true
extends (p ∷ prefix) [] = false
extends (p ∷ prefix) (d ∷ key) = (p == d) && extends prefix key

-- Whether a key starts with the prefix.
abbrev pub starts : List ℕ → List ℕ → Bool
starts [] key = true
starts (p ∷ prefix) [] = false
starts (p ∷ prefix) (d ∷ key) = (p == d) && starts prefix key

pub starts_either :
    (prefix key : List ℕ) → starts prefix key ≡ (same_key prefix key || extends prefix key)
starts_either [] [] = refl
starts_either [] (d ∷ key) = refl
starts_either (p ∷ prefix) [] = refl
starts_either (p ∷ prefix) (d ∷ key) = ground (arith, starts_either prefix key)

module _ {V : Type 0} where
  pub search_nil :
      (c : ℕ) (value : Option V) (d : ℕ) (key : List ℕ)
      → trie_node_search (node c value nil) (d ∷ key) ≡ none
  unfolding trie_node_search linear_search
  search_nil c value d key = refl

  module _ (c p : ℕ) (value : Option V) (ns : Nodes V) (prefix : List ℕ) where
    clear_absent :
        linear_search ns p ≡ none → clear_children (node c value ns) (p ∷ prefix) ≡ node c value ns
    unfolding clear_children
    clear_absent e = rw (e, clear_children)

    clear_through :
        (child : Node V)
        → linear_search ns p ≡ some child
        → clear_children (node c value ns) (p ∷ prefix)
          ≡ node c value (put_child p (clear_children child prefix) ns)
    unfolding clear_children
    clear_through child e = rw (e, clear_children)

  -- What the clearing does below a node.
  pub record Cleared (n : Node V) (prefix : List ℕ) : Type 0 where
    pub ordered : WellFormed (clear_children n prefix)
    pub same_chr : chr (clear_children n prefix) ≡ chr n
    pub searches :
        (key : List ℕ)
        → trie_node_search (clear_children n prefix) key
          ≡ (if extends prefix key then none else trie_node_search n key)

  clear_here : (n : Node V) → Cleared n []
  clear_here (node c value ns) = record {
    ordered = unfold clear_children in (tt, tt, tt);
    same_chr = unfold clear_children in refl;
    searches = searches;
  }
    where
      searches :
          (key : List ℕ)
          → trie_node_search (clear_children (node c value ns) []) key
            ≡ (if extends [] key then none else trie_node_search (node c value ns) key)
      searches [] = unfold clear_children trie_node_search in refl
      searches (d ∷ key) = unfold clear_children in search_nil c value d key

  module _ (c p : ℕ) (value : Option V) (ns : Nodes V) (prefix : List ℕ)
      (w : WellFormed (node c value ns)) where
    clear_none : linear_search ns p ≡ none → Cleared (node c value ns) (p ∷ prefix)
    clear_none e = record {
      ordered = rw (clear_absent c p value ns prefix e) w;
      same_chr = rw (clear_absent c p value ns prefix e);
      searches = λ key. rw (clear_absent c p value ns prefix e) (unchanged key);
    }
      where
        unchanged :
            (key : List ℕ)
            → trie_node_search (node c value ns) key
              ≡ (if extends (p ∷ prefix) key then none else trie_node_search (node c value ns) key)
        unchanged [] = refl
        unchanged (d ∷ key) = elim (Bool-cases (p == d)) [
          | inr other ↦ rw other
          | inl here ↦
              let q : d ≡ p = ground (arith, here) in
              let nothing : trie_node_search (node c value ns) (d ∷ key) ≡ none =
                search_none c d value ns key (rw q e) in
              rw (nothing) (ground arith)
        ]

    module _ (child : Node V) (e : first ns p ≡ some child) (below : Cleared child prefix) where
      abbrev cleared : Node V
      cleared = clear_children child prefix

      abbrev left : Nodes V
      left = put_child p cleared ns

      o : Ordered ns
      o = to_Ordered c value ns w

      same : chr cleared ≡ p
      same = below.same_chr ∙ first-chr ns p child e

      left-IsSorted : IsSorted left
      left-IsSorted = IsSorted-put_child p cleared same ns o.sorted

      through : clear_children (node c value ns) (p ∷ prefix) ≡ node c value left
      through = clear_through c p value ns prefix child (linear_search-first ns p o.sorted ∙ e)

      left-searches :
          (key : List ℕ)
          → trie_node_search (node c value left) key
            ≡ (if extends (p ∷ prefix) key then none else trie_node_search (node c value ns) key)
      left-searches [] = unfold trie_node_search in refl
      left-searches (d ∷ key) = elim (Bool-cases (p == d)) [
        | inl here ↦
            let q : d ≡ p = ground (arith, here) in
            let self : (p == p) ≡ true = ground arith in
            rw
              (
                q,
                self,
                search_some c p value left key cleared (
                    linear_search-first left p left-IsSorted
                    ∙ first-put_child_self p cleared same ns child e),
                search_some c p value ns key child (linear_search-first ns p o.sorted ∙ e),
              )
              (below.searches key)
        | inr other ↦
            let differ : p ≢ d = ground (arith, other) in
            rw (other) (
              search_same c d value left ns key (
                linear_search-first left d left-IsSorted
                ∙ first-put_child_ne p cleared same ns d differ
                ∙ sym (linear_search-first ns d o.sorted)))
      ]

      clear_child : Cleared (node c value ns) (p ∷ prefix)
      clear_child =
          let byte : chr cleared < 256 =
            rw (below.same_chr) (AllNodes-first (λ n. chr n < 256) ns p child o.bytes e) in
          record {
            ordered = rw (through) (
                from_Ordered c value left (record {
                  sorted = left-IsSorted;
                  bytes = AllNodes-put_child p cleared same _ ns byte o.bytes;
                  deep = AllNodes-put_child p cleared same _ ns below.ordered o.deep;
                }));
            same_chr = rw through;
            searches = λ key. rw (through) (left-searches key);
          }

  pub clear_children-Cleared : (n : Node V) (prefix : List ℕ) → WellFormed n → Cleared n prefix
  clear_children-Cleared n [] w = clear_here n
  clear_children-Cleared (node c value ns) (p ∷ prefix) w =
      let sorted = (to_Ordered c value ns w).sorted in
      let deep = (to_Ordered c value ns w).deep in
      elim (Option-cases (first ns p)) [
        | inl e ↦ clear_none c p value ns prefix w (linear_search-first ns p sorted ∙ e)
        | inr (child, e) ↦
            clear_child c p value ns prefix w child e
              (clear_children-Cleared child prefix (AllNodes-first WellFormed ns p child deep e))
      ]
