-- ===== src/Tests/Subscriptions.antt =====
-- Subscriptions at concrete inputs.
use mqttbroker.Base.{
  ℕ, ◌≡◌, refl, ◌⊎◌, true, false, none, some, List, [], ◌∷◌, ◌++◌, map, arith, null_deref,
  double_free, ok, fault, Returns, length, text,
}
use mqttbroker.Pack.{c_str, malloc, write, pack_u8, pack_u16}
use mqttbroker.Mqtt.Length.{mqtt_encode_length}
use mqttbroker.Mqtt.Packet.{SubscribeTuple, MqttSubscribe, MqttPublish}
use mqttbroker.Mqtt.Build.{mqtt_packet_suback, mqtt_packet_ack}
use mqttbroker.Mqtt.Pack.{pack_mqtt_packet, pack_mqtt_suback, pack_length, pack_mqtt_ack}
use mqttbroker.Mqtt.Pack.Publish.{Carries}
use mqttbroker.Util.{remove_occur}
use mqttbroker.Trie.{Trie, node, nil, cons, trie_insert, trie_find, trie_is_free_node}
use mqttbroker.Trie.Lookup.{IsTrie}
use mqttbroker.Trie.Map.{trie_prefix_map_tuple, trie_prefix_map_func2, map_children, map_found}
use mqttbroker.Core.{SolClient, Topic, Subscriber, topic_add_subscriber, sol_topic_get}
use mqttbroker.Server.{SolInfo, Closure, rearm_w, client_of}
use mqttbroker.Server.Publish.{Message, publish_handler}
use mqttbroker.Server.Publish.Message.{message_for}
use mqttbroker.Server.Publish.Delivery.{slashed}
use mqttbroker.Server.Subscribe.{
  recursive_subscription, subscribe_children, char_at, ending, find_or_create, add_to_topic,
  subscribe_round, subscribe_tuples, release_tuples, suback_reply, subscribe_handler,
  unsubscribe_handler,
}
use mqttbroker.Server.Subscribe.Plain.{TopicFilter, AllHold, all_granted, stale}
use mqttbroker.Server.Subscribe.Replies.{filter_qos, suback_for, subscribe_handler-grants}
use mqttbroker.Server.Subscribe.Delivery.{
  subscribers_after, subscribers_of, publish_handler-subscribe_handler,
}
use mqttbroker.Server.Subscribe.Hash.{HoldsHash, Spread, subscribe_handler-spreads}

abbrev client : SolClient
client = record { client_id = text "c"; fd = 9; subscriptions = [] }

abbrev connected : Closure
connected = record { fd = 9; obj = some client; closure_id = text "x" }

-- The topics `a/` and `a/b/`, without subscribers.
abbrev topics : Trie Topic
topics = record {
  root = node b' ' none (
      cons
        (node b'a' none (
          cons
            (node b'/' (some (record { name = text "a/"; subscribers = [] })) (
              cons
                (node b'b' none (
                  cons (node b'/' (some (record { name = text "a/b/"; subscribers = [] })) nil)
                    nil))
                nil))
            nil))
        nil);
  size = 2;
}

topics-IsTrie : IsTrie topics
topics-IsTrie = (
  (tt, tt),
  (omega arith, tt),
  (
    (
      (tt, tt),
      (omega arith, tt),
      (((tt, tt), (omega arith, tt), (((tt, tt), (omega arith, tt), ((tt, tt, tt), tt)), tt)), tt),
    ),
    tt,
  ),
)

abbrev tuple_of : List ℕ → ℕ → SubscribeTuple
tuple_of name qos = record { topic_len = length name; topic = name ++ (0 ∷ []); qos = qos }

abbrev request : List SubscribeTuple → MqttSubscribe
request tuples = record { header = 0x82; pkt_id = 7; tuples_len = length tuples; tuples = tuples }

abbrev subscriber : ℕ → Subscriber
subscriber qos = record { qos = qos; client = client }

-- The wildcard reaches both topics, and the one under its prefix twice.
wildcard_run :
    subscribe_handler connected (request (tuple_of (text "a/#") 1 ∷ [])) topics
    ≡ ok (record {
      topics = record {
        root = node b' ' none (
            cons
              (node b'a' none (
                cons
                  (node b'/'
                    (some
                      (record { name = text "a/"; subscribers = subscriber 1 ∷ subscriber 1 ∷ [] }))
                    (cons
                      (node b'b' none (
                        cons
                          (node b'/'
                            (some (record { name = text "a/b/"; subscribers = subscriber 1 ∷ [] }))
                            nil)
                          nil))
                      nil))
                  nil))
              nil);
        size = 2;
      };
      payload = 0x90 ∷ 3 ∷ 0 ∷ 7 ∷ 1 ∷ [];
      rc = 1;
    })
unfolding subscribe_handler client_of subscribe_tuples subscribe_round ending char_at c_str
    remove_occur find_or_create add_to_topic sol_topic_get trie_find trie_prefix_map_tuple
    trie_prefix_map_func2 map_children map_found trie_is_free_node recursive_subscription
    subscribe_children topic_add_subscriber trie_insert release_tuples suback_reply pack_mqtt_packet
    mqtt_packet_suback pack_mqtt_suback pack_u8 malloc write pack_length mqtt_encode_length pack_u16
wildcard_run = refl

-- A closure without a client.
stranger_run :
    subscribe_handler
      (record { fd = 9; obj = none; closure_id = text "x" })
      (request (tuple_of (text "a") 0 ∷ []))
      topics
    ≡ fault null_deref
unfolding subscribe_handler client_of
stranger_run = refl

unsubscribe_run :
    unsubscribe_handler connected
      (record { header = 0xa2; pkt_id = 8; tuples_len = 0; tuples = [] })
    ≡ ok (0xb0 ∷ 2 ∷ 0 ∷ 8 ∷ [], 1)
unfolding unsubscribe_handler client_of pack_mqtt_packet mqtt_packet_ack pack_mqtt_ack pack_u8
    malloc write pack_length mqtt_encode_length pack_u16
unsubscribe_run = refl

abbrev filters : List TopicFilter
filters =
    record { first = b'a'; rest = text "/"; qos = 2 }
    ∷ record { first = b'a'; rest = []; qos = 1 }
    ∷ []

abbrev tuples : List SubscribeTuple
tuples = tuple_of (text "a/") 2 ∷ tuple_of (text "a") 1 ∷ []

filters_held : AllHold filters tuples
filters_held = (
  record {
    characters = unfold c_str in refl;
    topic_len = refl;
    qos = refl;
    no_hash = λ e. absurd (omega (arith, e));
    bytes = (omega arith, (omega arith, tt));
  },
  (
    record {
      characters = unfold c_str in refl;
      topic_len = refl;
      qos = refl;
      no_hash = λ e. absurd (omega (arith, e));
      bytes = (omega arith, (omega arith, tt));
    },
    tt,
  ),
)

subscribe_handler-grants_example :
    ((stale false filters ≡ true)
      × (subscribe_handler connected (request tuples) topics ≡ fault double_free))
    ⊎ ((stale false filters ≡ false)
        × Returns (subscribe_handler connected (request tuples) topics) λ r.
          (r.payload ≡ suback_for 7 (map filter_qos filters))
          × (r.rc ≡ rearm_w)
          × IsTrie r.topics
          × ((name : List ℕ)
              → sol_topic_get r.topics name
                ≡ all_granted client filters (sol_topic_get topics) name))
subscribe_handler-grants_example =
    subscribe_handler-grants filters connected client (request tuples) topics refl filters_held refl
      (omega arith) topics-IsTrie

abbrev note : MqttPublish
note = record {
  header = 0x30;
  pkt_id = 0;
  topiclen = 1;
  topic = text "a" ++ (0 ∷ []);
  payloadlen = 2;
  payload = text "hi" ++ (0 ∷ []);
}

note-Carries : Carries note (text "a") (text "hi")
note-Carries = record {
  topic_text = unfold c_str in refl;
  topic_fits = omega arith;
  topiclen = refl;
  payload_text = unfold c_str in refl;
  payload_fits = omega arith;
  payloadlen = refl;
}

abbrev no_info : SolInfo
no_info = record {
  nclients = 0;
  nconnections = 0;
  start_time = 0;
  bytes_recv = 0;
  bytes_sent = 0;
  messages_sent = 0;
  messages_recv = 0;
}

abbrev sent_whole : Message → ℕ
sent_whole m = length m.1

publish_handler-subscribe_handler_example :
    Returns (subscribe_handler connected (request tuples) topics) λ r.
      Returns (publish_handler sent_whole connected note r.topics no_info) λ d.
        d.messages
        ≡ map (message_for note (text "a") (text "hi")) (
            subscribers_after client
              (slashed b'a' [])
              filters
              (subscribers_of (sol_topic_get topics) (slashed b'a' [])))
publish_handler-subscribe_handler_example =
    publish_handler-subscribe_handler sent_whole filters connected connected client client
      (request tuples) topics note b'a' [] (text "hi") no_info refl refl filters_held refl
      (omega arith) refl topics-IsTrie note-Carries (omega arith, (omega arith, tt))

two_messages :
    map (message_for note (text "a") (text "hi")) (subscribers_after client (text "a/") filters [])
    ≡ message_for note (text "a") (text "hi") (subscriber 1)
      ∷ message_for note (text "a") (text "hi") (subscriber 2)
      ∷ []
two_messages = refl

hash_held : HoldsHash (text "a") (tuple_of (text "a/#") 1)
hash_held = record {
  characters = unfold c_str in refl;
  topic_len = refl;
  no_hash = (λ e. absurd (omega (arith, e)), tt);
  bytes = (omega arith, (omega arith, tt));
}

subscribe_handler-spreads_example :
    Returns (subscribe_handler connected (request (tuple_of (text "a/#") 1 ∷ [])) topics) λ r.
      (r.payload ≡ suback_for 7 (1 ∷ []))
      × (r.rc ≡ rearm_w)
      × IsTrie r.topics
      × ((name : List ℕ)
          → Spread
              (subscriber 1)
              (text "a/")
              (sol_topic_get topics (text "a/"))
              name
              (sol_topic_get topics name)
              (sol_topic_get r.topics name))
subscribe_handler-spreads_example =
    subscribe_handler-spreads connected client (request (tuple_of (text "a/#") 1 ∷ [])) topics
      (text "a") (tuple_of (text "a/#") 1) refl refl refl hash_held topics-IsTrie
