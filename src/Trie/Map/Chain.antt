-- ===== src/Trie/Map/Chain.antt =====
-- A function on all nodes of a chain, which leaves their characters: the order and the search.
use mqttbroker.Base.{ℕ, ◌≡◌, refl, inl, inr, Option, none, some, List, ◌∷◌, arith, Option-cases}
use mqttbroker.Trie.{Node, Nodes, node, nil, cons, chr, char_rank, linear_search, trie_node_search}
use mqttbroker.Trie.Chain.{Above, IsSorted, AllBytes}
use mqttbroker.Trie.Lookup.{search_none, search_some}

module _ {V : Type 0} where
  abbrev pub map_nodes : (Node V → Node V) → Nodes V → Nodes V
  map_nodes f nil = nil
  map_nodes f (cons n ns) = cons (f n) (map_nodes f ns)

  -- The node keeps its character.
  abbrev pub KeepsChr : (Node V → Node V) → Type 0
  KeepsChr f = (n : Node V) → chr (f n) ≡ chr n

  module _ (f : Node V → Node V) (keeps : KeepsChr f) where
    pub linear_search-map_none :
        (ns : Nodes V) (c : ℕ) → linear_search ns c ≡ none → linear_search (map_nodes f ns) c ≡ none
    unfolding linear_search
    linear_search-map_none nil c e = refl
    linear_search-map_none (cons n ns) c e = ground (arith, keeps n, linear_search-map_none ns c)

    pub linear_search-map_some :
        (ns : Nodes V) (c : ℕ) (n : Node V)
        → linear_search ns c ≡ some n
        → linear_search (map_nodes f ns) c ≡ some (f n)
    unfolding linear_search
    linear_search-map_some nil c n e = cc
    linear_search-map_some (cons m ns) c n e =
        ground (arith, keeps m, linear_search-map_some ns c n)

    Above-map_nodes : (ns : Nodes V) (r : ℕ) → Above r ns → Above r (map_nodes f ns)
    Above-map_nodes nil r h = tt
    Above-map_nodes (cons n ns) r (h, hs) = (rw (keeps n) h, Above-map_nodes ns r hs)

    pub IsSorted-map_nodes : (ns : Nodes V) → IsSorted ns → IsSorted (map_nodes f ns)
    IsSorted-map_nodes nil h = tt
    IsSorted-map_nodes (cons n ns) (h, hs) =
        (rw (keeps n) (Above-map_nodes ns (char_rank (chr n)) h), IsSorted-map_nodes ns hs)

    pub AllBytes-map_nodes : (ns : Nodes V) → AllBytes ns → AllBytes (map_nodes f ns)
    AllBytes-map_nodes nil h = tt
    AllBytes-map_nodes (cons n ns) (h, hs) = (rw (keeps n) h, AllBytes-map_nodes ns hs)

    -- What the function does to the search in each node, it does to the search below a character.
    pub search-map_nodes :
        (R : Option V → Option V → Type 0) (c k : ℕ) (value value' : Option V) (ns : Nodes V)
        (key : List ℕ)
        → R none none
        → ((n : Node V) → R (trie_node_search n key) (trie_node_search (f n) key))
        → R
            (trie_node_search (node c value ns) (k ∷ key))
            (trie_node_search (node c value' (map_nodes f ns)) (k ∷ key))
    search-map_nodes R c k value value' ns key nothing acts =
        elim (Option-cases (linear_search ns k)) [
          | inl e ↦
              rw
                (
                  search_none c k value ns key e,
                  search_none c k value' (map_nodes f ns) key (linear_search-map_none ns k e),
                )
                nothing
          | inr (n, e) ↦
              rw
                (
                  search_some c k value ns key n e,
                  search_some c k value' (map_nodes f ns) key (f n)
                      (linear_search-map_some ns k n e),
                )
                (acts n)
        ]
