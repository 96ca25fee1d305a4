-- ===== src/Server/Subscribe/Hash.antt =====
-- `subscribe_handler` of sol/src/server.c on a topic filter that ends in `/#`.
use mqttbroker.Base.{
  ℕ, zero, suc, ◌+◌, ◌-◌, ◌≤◌, ◌≡◌, refl, ap, ◌∙◌, ◌≢◌, inl, inr, true, false, Option, none, some,
  List, [], ◌∷◌, ◌++◌, map, arith, ok, Returns, length, get_elem?, All, IsByte, ltb, ◌==◌,
  if◌then◌else◌, Bool-cases, Option-cases,
}
use mqttbroker.Pack.{c_str}
use mqttbroker.Mqtt.Packet.{SubscribeTuple, MqttSubscribe}
use mqttbroker.Util.{remove_occur}
use mqttbroker.Trie.{Trie}
use mqttbroker.Trie.Lookup.{same_key, same_key_iff, IsTrie}
use mqttbroker.Trie.Map.{trie_prefix_map_tuple}
use mqttbroker.Trie.Map.Found.{Maps}
use mqttbroker.Trie.Prefix.Clear.{starts}
use mqttbroker.Core.{SolClient, Topic, Subscriber, sol_topic_get}
use mqttbroker.Server.{Closure, rearm_w, client_of}
use mqttbroker.Server.Publish.Delivery.{c_str-cons, topic_or}
use mqttbroker.Server.Subscribe.{
  push_subscriber, recursive_subscription, Subscribing, char_at, slash_hash, ending, first_round,
  find_or_create, add_to_topic, subscribe_round, subscribe_tuples, qos_of, release_tuples,
  subscribe_handler,
}
use mqttbroker.Server.Subscribe.Plain.{subscribed, subscribed_new, add_to_topic-updates}
use mqttbroker.Server.Subscribe.Replies.{suback_for, suback_reply-suback_for}
use mqttbroker.Server.Subscribe.Wildcard.{pushed, AtLeast, trie_prefix_map_tuple-AtLeast}

-- The tuple of the packet holds the base with `/#` behind it; the base has no other `#`.
pub record HoldsHash (base : List ℕ) (tuple : SubscribeTuple) : Type 0 where
  pub characters : c_str tuple.topic ≡ ok (base ++ (b'/' ∷ b'#' ∷ []))
  pub topic_len : tuple.topic_len ≡ length base + 2
  pub no_hash : All (λ c. c ≢ b'#') base
  pub bytes : All IsByte (base ++ (b'/' ∷ []))

c_str-get :
    (str mem : List ℕ) (i c : ℕ)
    → c_str mem ≡ ok str
    → get_elem? str i ≡ some c
    → get_elem? mem i ≡ some c
c_str-get [] mem i c e g = cc
c_str-get (d ∷ str) [] i c e g = unfold c_str in absurd (cc)
c_str-get (d ∷ str) (x ∷ mem) zero c e g = let q = (c_str-cons x d mem str e).0 in rw q g
c_str-get (d ∷ str) (x ∷ mem) (suc i) c e g = c_str-get str mem i c (c_str-cons x d mem str e).1 g

get_behind :
    (base tail : List ℕ) (i : ℕ) → get_elem? (base ++ tail) (length base + i) ≡ get_elem? tail i
get_behind [] tail i = let e : 0 + i ≡ i = omega arith in rw e refl
get_behind (c ∷ base) tail i =
    let e : suc (length base) + i ≡ suc (length base + i) = omega arith in
    rw e (get_behind base tail i)

ending_hash :
    (base : List ℕ) (tuple : SubscribeTuple) → HoldsHash base tuple → ending tuple ≡ ok slash_hash
unfolding ending char_at
ending_hash base tuple h =
    let tail : List ℕ = b'/' ∷ b'#' ∷ [] in
    let slash =
      c_str-get (base ++ tail) tuple.topic (length base + 0) b'/' h.characters
        (get_behind base tail 0) in
    let hash =
      c_str-get (base ++ tail) tuple.topic (length base + 1) b'#' h.characters
        (get_behind base tail 1) in
    let two : length base + 2 - 2 ≡ length base + 0 = omega arith in
    let one : length base + 2 - 1 ≡ length base + 1 = omega arith in
    let enough₂ : ltb (length base + 2) 2 ≡ false = ground arith in
    let enough₁ : ltb (length base + 2) 1 ≡ false = ground arith in
    rw (h.topic_len, two, one, slash, hash, enough₁, enough₂) refl

remove_occur-hash :
    (base : List ℕ)
    → All (λ c. c ≢ b'#') base
    → remove_occur (base ++ (b'/' ∷ b'#' ∷ [])) b'#' ≡ base ++ (b'/' ∷ [])
unfolding remove_occur
remove_occur-hash [] h = refl
remove_occur-hash (c ∷ base) (here, later) =
    let e : (c == b'#') ≡ false = ground (arith, here) in rw (e, remove_occur-hash base later) refl

-- What becomes of the topic under a name, by whether there was a topic under the prefix. If not,
-- there is one now, and the client its only subscriber. If so, every topic below the prefix has got
-- the subscriber, and the one under the prefix twice at least.
abbrev pub Spread :
    Subscriber → List ℕ → Option Topic → List ℕ → Option Topic → Option Topic → Type 0
Spread s prefix none name before after = after ≡ (
    if same_key prefix name then some (record { name = prefix; subscribers = s ∷ [] }) else before)
Spread s prefix (some t) name before after =
    Maps (AtLeast s (if same_key prefix name then 2 else 1)) (starts prefix name) before after

starts_same : (prefix name : List ℕ) → same_key prefix name ≡ true → starts prefix name ≡ true
starts_same [] [] e = refl
starts_same [] (d ∷ name) e = refl
starts_same (c ∷ prefix) [] e = e
starts_same (c ∷ prefix) (d ∷ name) e = ground (arith, starts_same prefix name)

module _ (client : SolClient) (qos : ℕ) (topics : Trie Topic) (prefix : List ℕ)
    (trie : IsTrie topics) (bytes : All IsByte prefix) where
  abbrev s : Subscriber
  s = record { qos = qos; client = client }

  abbrev Spreads : Trie Topic → Type 0
  Spreads topics' =
      IsTrie topics'
      × ((name : List ℕ)
          → Spread s prefix (sol_topic_get topics prefix) name (sol_topic_get topics name)
              (sol_topic_get topics' name))

  spread_new :
      sol_topic_get topics prefix ≡ none → Spreads (subscribed client prefix qos true topics)
  spread_new e =
      let (kept, finds) = subscribed_new client prefix qos bytes true topics trie e in
      (
        kept,
        λ name. rw e (
            finds name
            ∙ ap
                (λ (o : Option Topic).
                  if same_key prefix name
                  then some (push_subscriber s (topic_or prefix o))
                  else sol_topic_get topics name)
                e),
      )

  find_there :
      (t : Topic)
      → sol_topic_get topics prefix ≡ some t
      → find_or_create client topics prefix true qos
        ≡ trie_prefix_map_tuple topics (some prefix) (recursive_subscription s)
  unfolding find_or_create
  find_there t e = rw (e, find_or_create) refl

  module _ (t : Topic) (e : sol_topic_get topics prefix ≡ some t) where
    abbrev spread : Trie Topic
    spread = trie_prefix_map_tuple topics (some prefix) (recursive_subscription s)

    -- The topic under the prefix, as the wildcard leaves it.
    under : (times : ℕ) × (1 ≤ times) × (sol_topic_get spread prefix ≡ some (pushed s times t))
    under =
        let (_, maps) = trie_prefix_map_tuple-AtLeast s topics prefix trie in
        let same : starts prefix prefix ≡ true =
          starts_same prefix prefix (ground (arith, same_key_iff prefix prefix)) in
        let m : Maps (AtLeast s 1) true (some t) (sol_topic_get spread prefix) =
          rw (same, e) at (maps prefix) in
        m

    spread_there : Spreads (subscribed client prefix qos true topics)
    spread_there =
        let (kept, maps) = trie_prefix_map_tuple-AtLeast s topics prefix trie in
        let (times, le, got) = under in
        let (kept', finds) =
          add_to_topic-updates client prefix qos bytes spread (pushed s times t) kept got in
        rw (find_there t e) (
          kept',
          λ name. rw e (elim (Bool-cases (same_key prefix name)) [
            | inl here ↦
                let q : prefix ≡ name = (same_key_iff prefix name).0 here in
                let last : sol_topic_get (add_to_topic client spread prefix qos) name
                    ≡ some (pushed s (suc times) t) =
                  finds name ∙ rw here refl in
                let before : sol_topic_get topics name ≡ some t = rw (← q) e in
                rw (here, starts_same prefix name here, last, before)
                  (suc times, omega (arith, le), refl)
            | inr apart ↦
                let after : sol_topic_get (add_to_topic client spread prefix qos) name
                    ≡ sol_topic_get spread name =
                  finds name ∙ rw apart refl in
                rw (apart, after) (maps name)
          ]),
        )

  subscribed-Spreads : Spreads (subscribed client prefix qos true topics)
  subscribed-Spreads = elim (Option-cases (sol_topic_get topics prefix)) [
    | inl e ↦ spread_new e
    | inr (t, e) ↦ spread_there t e
  ]

abbrev hash_round : SolClient → ℕ → List ℕ → Trie Topic → Subscribing
hash_round client qos prefix topics = record {
  topics = subscribed client prefix qos true topics;
  wildcard = true;
  alloced = false;
  freed = false;
}

subscribe_round-hash :
    (client : SolClient) (base : List ℕ) (tuple : SubscribeTuple) (topics : Trie Topic)
    → HoldsHash base tuple
    → subscribe_round client (first_round topics) tuple
      ≡ ok (hash_round client tuple.qos (base ++ (b'/' ∷ [])) topics)
unfolding subscribe_round
subscribe_round-hash client base tuple topics h =
    rw (ending_hash base tuple h, h.characters, remove_occur-hash base h.no_hash) refl

-- `subscribe_handler` for a client that has connected, with one topic filter, a base and `/#`, and
-- with the topics in a trie in order, returns with the SUBACK of the standard, and the trie stays
-- in order. Where there was a topic under the base and its slash, every topic whose name starts
-- with these has got the client as a subscriber, in front and once or more often, the topic under
-- the base itself at least twice, and all other topics are as before. Where there was none, such a
-- topic is made, with the client as its only subscriber, and no other topic is changed, not even
-- those whose names start with the base.
pub subscribe_handler-spreads :
    (cb : Closure) (client : SolClient) (pkt : MqttSubscribe) (topics : Trie Topic) (base : List ℕ)
    (tuple : SubscribeTuple)
    → cb.obj ≡ some client
    → pkt.tuples ≡ tuple ∷ []
    → pkt.tuples_len ≡ 1
    → HoldsHash base tuple
    → IsTrie topics
    → Returns (subscribe_handler cb pkt topics) λ r.
      let prefix = base ++ (b'/' ∷ []) in
      (r.payload ≡ suback_for pkt.pkt_id (tuple.qos ∷ []))
      × (r.rc ≡ rearm_w)
      × IsTrie r.topics
      × ((name : List ℕ)
          → Spread
              (record { qos = tuple.qos; client = client })
              prefix
              (sol_topic_get topics prefix)
              name
              (sol_topic_get topics name)
              (sol_topic_get r.topics name))
unfolding subscribe_handler client_of release_tuples
subscribe_handler-spreads cb client pkt topics base tuple c one e h trie =
    let prefix = base ++ (b'/' ∷ []) in
    let (kept, spreads) = subscribed-Spreads client tuple.qos topics prefix trie h.bytes in
    let round = subscribe_round-hash client base tuple topics h in
    let single : subscribe_tuples client 1 (tuple ∷ []) (first_round topics)
        ≡ ok (hash_round client tuple.qos prefix topics) =
      unfold subscribe_tuples in rw round refl in
    let rounds : subscribe_tuples client pkt.tuples_len pkt.tuples (first_round topics)
        ≡ ok (hash_round client tuple.qos prefix topics) =
      ap (λ (n : ℕ). subscribe_tuples client n pkt.tuples (first_round topics)) e
      ∙ ap (λ (ts : List SubscribeTuple). subscribe_tuples client 1 ts (first_round topics)) one
      ∙ single in
    let replied =
      suback_reply-suback_for (tuple.qos ∷ []) pkt (ap (map qos_of) one) e (omega arith) in
    (
      record {
        topics = subscribed client prefix tuple.qos true topics;
        payload = suback_for pkt.pkt_id (tuple.qos ∷ []);
        rc = rearm_w;
      },
      rw (c, rounds, replied) refl,
      (refl, refl, kept, spreads),
    )
