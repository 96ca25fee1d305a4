-- ===== src/Server/Subscribe.antt =====
-- `subscribe_handler` and `unsubscribe_handler` of sol/src/server.c.
pub mod Plain
pub mod Replies
pub mod Delivery
pub mod Wildcard
pub mod Hash
use mqttbroker.Base.{
  ℕ, zero, suc, ◌+◌, ◌-◌, Bool, true, false, ◌&&◌, ◌||◌, not, none, some, List, [], ◌∷◌, map,
  out_of_bounds, double_free, Run, ok, fault, ◌>>=◌, length, take, get_elem?, ltb, leb, ◌==◌,
  if◌then◌else◌,
}
use mqttbroker.Pack.{Buffer, c_str}
use mqttbroker.Mqtt.Packet
use mqttbroker.Mqtt.Packet.{
  SubscribeTuple, MqttSubscribe, MqttUnsubscribe, MqttPacket, suback_type, unsuback_type,
  mqtt_header_len, mqtt_ack_len,
}
use mqttbroker.Mqtt.Build.{mqtt_packet_suback, mqtt_packet_ack}
use mqttbroker.Mqtt.Pack.{pack_mqtt_packet}
use mqttbroker.Util.{remove_occur, append_string}
use mqttbroker.Trie.{Node, Nodes, node, nil, cons, Trie, trie_insert}
use mqttbroker.Trie.Map.{trie_prefix_map_tuple}
use mqttbroker.Core.{
  SolClient, Topic, Subscriber, topic_create, topic_add_subscriber, sol_topic_put, sol_topic_get,
}
use mqttbroker.Server.{Closure, rearm_w, client_of}

abbrev pub suback_byte : ℕ
suback_byte = 0x90

abbrev pub unsuback_byte : ℕ
unsuback_byte = 0xb0

-- `list_push(t->subscribers, s)`
abbrev pub push_subscriber : Subscriber → Topic → Topic
push_subscriber s t = record { name = t.name; subscribers = s ∷ t.subscribers }

-- A node without a topic ends the recursion.
unfoldable mutual
  pub recursive_subscription : Subscriber → Node Topic → Node Topic
  recursive_subscription s (node c none children) = node c none children
  recursive_subscription s (node c (some t) children) =
      node c (some (push_subscriber s t)) (subscribe_children s children)

  pub subscribe_children : Subscriber → Nodes Topic → Nodes Topic
  subscribe_children s nil = nil
  subscribe_children s (cons child children) =
      cons (recursive_subscription s child) (subscribe_children s children)

-- What the loop of `subscribe_handler` carries from one topic filter to the next: the topics, the
-- two flags, and whether `free(topic)` was given memory of the packet.
pub record Subscribing : Type 0 where
  pub topics : Trie Topic
  pub wildcard : Bool
  pub alloced : Bool
  pub freed : Bool

-- `topic[topic_len - back]`
unfoldable pub char_at : SubscribeTuple → ℕ → Run ℕ
char_at tuple back =
    let here : Run ℕ = elim (get_elem? tuple.topic (tuple.topic_len - back)) [
      | none ↦ fault out_of_bounds
      | some c ↦ ok c
    ] in
    if ltb tuple.topic_len back then fault out_of_bounds else here

-- The end of a topic filter, as the two tests see it.
pub data Ending : Type 0 where
  slash_hash slash other : Ending

unfoldable pub ending : SubscribeTuple → Run Ending
unfolding char_at
ending tuple = do
  last ← char_at tuple 1
  let hash : Run Ending = (char_at tuple 2 >>= λ c. ok (if c == b'/' then slash_hash else other))
  if last == b'#' then hash else ok (if last == b'/' then slash else other)

-- `topic` and the flags `wildcard` and `alloced` for it.
abbrev pub filter_name : Ending → List ℕ → List ℕ
filter_name slash_hash str = remove_occur str b'#'
filter_name slash str = str
filter_name other str = append_string str (b'/' ∷ [])

abbrev pub is_slash_hash : Ending → Bool
is_slash_hash slash_hash = true
is_slash_hash end = false

abbrev pub is_other : Ending → Bool
is_other other = true
is_other end = false

abbrev pub first_round : Trie Topic → Subscribing
first_round topics = record { topics = topics; wildcard = false; alloced = false; freed = false }

module _ (client : SolClient) where
  -- The topic in the trie, or a new one; below a topic that is there a wildcard goes to all topics.
  unfoldable pub find_or_create : Trie Topic → List ℕ → Bool → ℕ → Trie Topic
  find_or_create topics name wildcard qos = elim (sol_topic_get topics name) [
    | none ↦ sol_topic_put topics (topic_create name)
    | some t ↦
        if wildcard
        then trie_prefix_map_tuple topics (some name)
            (recursive_subscription (record { qos = qos; client = client }))
        else topics
  ]

  -- `topic_add_subscriber` through the pointer to the topic in the trie.
  unfoldable pub add_to_topic : Trie Topic → List ℕ → ℕ → Trie Topic
  add_to_topic topics name qos = elim (sol_topic_get topics name) [
    | none ↦ topics
    | some t ↦ trie_insert topics name (topic_add_subscriber t client qos true).0
  ]

  -- One round of the loop. The flags are never set back: memory of the packet is freed where
  -- `alloced` is left from an earlier round.
  unfoldable pub subscribe_round : Subscribing → SubscribeTuple → Run Subscribing
  subscribe_round st tuple = do
    end ← ending tuple
    str ← c_str tuple.topic
    let name = filter_name end str
    let wildcard = is_slash_hash end || st.wildcard
    let alloced = is_other end || st.alloced
    let topics = find_or_create st.topics name wildcard tuple.qos
    ok (record {
      topics = add_to_topic topics name tuple.qos;
      wildcard = wildcard;
      alloced = alloced;
      freed = (alloced && not (is_other end)) || st.freed;
    })

  -- The rounds that are left, and the topic filters from there on.
  unfoldable pub subscribe_tuples : ℕ → List SubscribeTuple → Subscribing → Run Subscribing
  subscribe_tuples zero tuples st = ok st
  subscribe_tuples (suc left) [] st = fault out_of_bounds
  subscribe_tuples (suc left) (tuple ∷ tuples) st =
      subscribe_round st tuple >>= subscribe_tuples left tuples

-- After the handler: the topics, `cb->payload` and the result.
pub record Subscribed : Type 0 where
  pub topics : Trie Topic
  pub payload : List ℕ
  pub rc : ℕ

abbrev pub qos_of : SubscribeTuple → ℕ
qos_of tuple = tuple.qos

-- `mqtt_packet_release` frees the topic filters of the packet.
unfoldable pub release_tuples : Subscribing → Run (Unit {0})
release_tuples st = if st.freed then fault double_free else ok tt

-- The SUBACK in `cb->payload`, a copy of `len` bytes of the packed packet.
unfoldable pub suback_reply : MqttSubscribe → Run (List ℕ)
suback_reply pkt = do
  let rcs = map qos_of pkt.tuples
  let len = mqtt_header_len + 2 + pkt.tuples_len
  packed ←
      pack_mqtt_packet
        (MqttPacket.suback (mqtt_packet_suback suback_byte pkt.pkt_id rcs pkt.tuples_len))
        suback_type
  if leb len (length packed.out) then ok (take len packed.out) else fault out_of_bounds

unfoldable pub subscribe_handler : Closure → MqttSubscribe → Trie Topic → Run Subscribed
subscribe_handler cb pkt topics = do
  client ← client_of cb
  st ← subscribe_tuples client pkt.tuples_len pkt.tuples (first_round topics)
  _ ← release_tuples st
  payload ← suback_reply pkt
  ok (record { topics = st.topics; payload = payload; rc = rearm_w })

-- The topics are left as they are.
unfoldable pub unsubscribe_handler : Closure → MqttUnsubscribe → Run (List ℕ × ℕ)
unfolding client_of
unsubscribe_handler cb pkt = do
  client ← client_of cb
  packed ←
      pack_mqtt_packet (MqttPacket.ack (mqtt_packet_ack unsuback_byte pkt.pkt_id)) unsuback_type
  ok (take mqtt_ack_len packed.out, rearm_w)
