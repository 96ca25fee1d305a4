-- ===== src/Server/Subscribe/Wildcard.antt =====
-- What the wildcard of `subscribe_handler` of sol/src/server.c does to the topics below its prefix.
use mqttbroker.Base.{
  ℕ, zero, suc, ◌+◌, ◌≤◌, ◌≡◌, refl, ap, ◌∙◌, Option, none, some, List, [], ◌∷◌, arith,
}
use mathlib.Core.Path.{subst}
use mqttbroker.Trie.{
  Node, Nodes, node, nil, cons, trie_node_search, trie_node_find, Trie, trie_find,
}
use mqttbroker.Trie.Order.{WellFormed, AllWellFormed}
use mqttbroker.Trie.Lookup.{IsTrie}
use mqttbroker.Trie.Map.{trie_prefix_map_func2, trie_prefix_map_tuple}
use mqttbroker.Trie.Map.Chain.{
  map_nodes, KeepsChr, IsSorted-map_nodes, AllBytes-map_nodes, search-map_nodes,
}
use mqttbroker.Trie.Map.Lookup.{Keeps, map_func2-Keeps, map_func2-Acts}
use mqttbroker.Trie.Map.Found.{Maps, map_found-Mapped}
use mqttbroker.Trie.Prefix.Clear.{starts}
use mqttbroker.Core.{Topic, Subscriber, sol_topic_get}
use mqttbroker.Server.Subscribe.{push_subscriber, recursive_subscription, subscribe_children}

module _ (s : Subscriber) where
  -- The subscriber put in front of those of the topic a number of times.
  abbrev pub pushed : ℕ → Topic → Topic
  pushed zero t = t
  pushed (suc times) t = push_subscriber s (pushed times t)

  -- No topic has come or gone, and one that is there has got the subscriber `least` times or more.
  abbrev pub AtLeast : ℕ → Option Topic → Option Topic → Type 0
  AtLeast least none after = after ≡ none
  AtLeast least (some t) after = (times : ℕ) × (least ≤ times) × (after ≡ some (pushed times t))

  pushed-pushed : (a b : ℕ) (t : Topic) → pushed a (pushed b t) ≡ pushed (a + b) t
  pushed-pushed zero b t = let e : 0 + b ≡ b = omega arith in rw e refl
  pushed-pushed (suc a) b t =
      let e : suc a + b ≡ suc (a + b) = omega arith in rw (e, pushed-pushed a b t) refl

  pub AtLeast-both :
      (a b : ℕ) (u v w : Option Topic) → AtLeast a u v → AtLeast b v w → AtLeast (b + a) u w
  AtLeast-both a b none v w h k = let e : v ≡ none = h in subst (λ o. AtLeast b o w) e k
  AtLeast-both a b (some t) v w (m, le, e) k =
      let (n, le', e') = subst (λ o. AtLeast b o w) e k in
      (n + m, omega arith, e' ∙ ap some (pushed-pushed n m t))

  AtLeast-same : (o : Option Topic) → AtLeast 0 o o
  AtLeast-same none = refl
  AtLeast-same (some t) = (0, omega arith, refl)

  subscribe_children-map_nodes :
      (ns : Nodes Topic) → subscribe_children s ns ≡ map_nodes (recursive_subscription s) ns
  unfolding subscribe_children
  subscribe_children-map_nodes nil = refl
  subscribe_children-map_nodes (cons n ns) =
      ap (λ ms. cons (recursive_subscription s n) ms) (subscribe_children-map_nodes ns)

  subscription-KeepsChr : KeepsChr (recursive_subscription s)
  unfolding recursive_subscription
  subscription-KeepsChr (node c none ns) = refl
  subscription-KeepsChr (node c (some t) ns) = refl

  subscription_none :
      (c : ℕ) (ns : Nodes Topic) → recursive_subscription s (node c none ns) ≡ node c none ns
  unfolding recursive_subscription
  subscription_none c ns = refl

  subscription_here :
      (c : ℕ) (t : Topic) (ns : Nodes Topic)
      → recursive_subscription s (node c (some t) ns)
        ≡ node c (some (push_subscriber s t)) (map_nodes (recursive_subscription s) ns)
  subscription_here c t ns =
      unfold recursive_subscription in
      ap (λ ms. node c (some (push_subscriber s t)) ms) (subscribe_children-map_nodes ns)

  mutual
    subscription-WellFormed :
        (n : Node Topic) → WellFormed n → WellFormed (recursive_subscription s n)
    subscription-WellFormed (node c none ns) w = rw (subscription_none c ns) w
    subscription-WellFormed (node c (some t) ns) (sorted, bytes, deep) =
        let g = recursive_subscription s in
        rw (subscription_here c t ns) (
          IsSorted-map_nodes g subscription-KeepsChr ns sorted,
          AllBytes-map_nodes g subscription-KeepsChr ns bytes,
          children-WellFormed ns deep,
        )

    children-WellFormed :
        (ns : Nodes Topic)
        → AllWellFormed ns
        → AllWellFormed (map_nodes (recursive_subscription s) ns)
    children-WellFormed nil h = tt
    children-WellFormed (cons n ns) (h, hs) =
        (subscription-WellFormed n h, children-WellFormed ns hs)

  subscription-Keeps : Keeps (recursive_subscription s)
  subscription-Keeps = record {
    same_chr = subscription-KeepsChr;
    ordered = subscription-WellFormed;
  }

  -- The node itself gets the subscriber once.
  subscription_own :
      (n : Node Topic)
      → AtLeast 1 (trie_node_search n []) (trie_node_search (recursive_subscription s n) [])
  unfolding recursive_subscription trie_node_search trie_node_find
  subscription_own (node c none ns) = refl
  subscription_own (node c (some t) ns) = (1, omega arith, refl)

  pub AtLeast-weaker : (a b : ℕ) (u v : Option Topic) → b ≤ a → AtLeast a u v → AtLeast b u v
  AtLeast-weaker a b none v le h = h
  AtLeast-weaker a b (some t) v le (n, le', e) = (n, omega arith, e)

  subscription-key :
      (key : List ℕ) (n : Node Topic)
      → AtLeast 0 (trie_node_search n key) (trie_node_search (recursive_subscription s n) key)
  subscription-key [] n = AtLeast-weaker 1 0 _ _ (omega arith) (subscription_own n)
  subscription-key (d ∷ key) (node c none ns) =
      unfold recursive_subscription in AtLeast-same (trie_node_search (node c none ns) (d ∷ key))
  subscription-key (d ∷ key) (node c (some t) ns) = rw (subscription_here c t ns) (
      search-map_nodes (recursive_subscription s) subscription-KeepsChr (AtLeast 0) c d (some t)
        (some (push_subscriber s t)) ns key refl (subscription-key key))

  -- Every topic below the prefix gets the subscriber, once or more often, and no other does.
  pub trie_prefix_map_tuple-AtLeast :
      (topics : Trie Topic) (prefix : List ℕ)
      → IsTrie topics
      → let topics' = trie_prefix_map_tuple topics (some prefix) (recursive_subscription s) in
        IsTrie topics'
        × ((name : List ℕ)
            → Maps
                (AtLeast 1)
                (starts prefix name)
                (sol_topic_get topics name)
                (sol_topic_get topics' name))
  unfolding trie_prefix_map_tuple sol_topic_get
  trie_prefix_map_tuple-AtLeast topics prefix trie =
      let f = recursive_subscription s in
      let acts =
        map_func2-Acts f subscription-Keeps (AtLeast 1) (AtLeast 0) refl subscription_own
          (λ n key. subscription-key key n) (AtLeast-both 1 0) in
      let m =
        map_found-Mapped (trie_prefix_map_func2 f) (map_func2-Keeps f subscription-Keeps)
          (AtLeast 1) refl acts topics.root prefix trie in
      (m.ordered, unfold trie_find in m.searches)
