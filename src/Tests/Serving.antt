-- ===== src/Tests/Serving.antt =====
-- The server and the helpers.
use mqttbroker.Base.{
  fault, null_deref, ℕ, zero, suc, ◌+◌, ◌≤◌, ◌<◌, ◌≡◌, refl, ◌↔◌, ◌⊎◌, none, some, List, [], ◌∷◌,
  ◌++◌, map, arith, Run, ok, Returns, length, if◌then◌else◌,
}
use mqttbroker.Pack.{c_str}
use mqttbroker.Network.{Received, Sent, count, recv_bytes, send_bytes}
use mqttbroker.Network.Transfer.{IsRead, IsSent, transfers_return}
use mqttbroker.Mqtt.Packet.{MqttPublish, MqttPacket, qos_bits, set_qos, subscribe_type}
use mqttbroker.Mqtt.Pack.Publish.{Carries}
use mqttbroker.Mqtt.Unpack.{unpack_mqtt_packet}
use mqttbroker.Hashtable.{vacant, hashtable_del, find_index, hashtable_hash_int}
use mqttbroker.Server.{
  SolInfo, Closure, client_of, ServerState, drop_client, count_dropped, err_packet_err, recv_packet,
  Handler, idle, dropped, on_read,
}
use mqttbroker.Server.Receive.{recv_packet-refuses, on_read-never_rearms, Served, handlers-Served}
use mqttbroker.Trie.{Trie, node, nil, cons}
use mqttbroker.Trie.Lookup.{IsTrie, same_key}
use mqttbroker.Core.{Topic, Subscriber, sol_topic_get}
use mqttbroker.Server.Publish.{Message, publish_handler}
use mqttbroker.Server.Publish.Message.{message_for, unpack-message_for}
use mqttbroker.Server.Publish.Delivery.{
  slashed, topic_of, counted, received_one, reply_for, publish_handler-delivers,
}

-- A socket on which the byte of a CONNECT comes in again and again.
recv_connect : ℕ → ℕ → Received × ℕ
recv_connect s zero = (Received.would_block, s)
recv_connect s (suc n) = (Received.bytes (0x10 ∷ []), s + 1)

recv_connect-GivesBytes :
    (s n : ℕ) (bs : List ℕ)
    → 0 < n
    → (recv_connect s n).0 ≡ Received.bytes bs
    → (0 < length bs) × (length bs ≤ n)
unfolding recv_connect
recv_connect-GivesBytes s zero bs h e = absurd (omega arith)
recv_connect-GivesBytes s (suc n) bs h e =
    let same : (0x10 ∷ []) ≡ bs = cc in rw (← same) (omega arith, omega arith)

-- A socket that takes one byte at a time.
send_one : ℕ → List ℕ → Sent × ℕ
send_one s buf = (Sent.taken 1, s + 1)

send_one-TakesBytes :
    (s : ℕ) (buf : List ℕ) (n : ℕ)
    → 0 < length buf
    → (send_one s buf).0 ≡ Sent.taken n
    → (0 < n) × (n ≤ length buf)
unfolding send_one
send_one-TakesBytes s buf n h e = let same : 1 ≡ n = cc in (omega arith, omega arith)

transfers_return_example :
    Returns (recv_bytes recv_connect 0 2) (IsRead recv_connect 0 2 0)
    × Returns (send_bytes send_one 0 (1 ∷ 2 ∷ [])) (IsSent send_one 0 (1 ∷ 2 ∷ []) 0)
transfers_return_example =
    transfers_return recv_connect send_one 0 2 (1 ∷ 2 ∷ []) recv_connect-GivesBytes
      send_one-TakesBytes

first_byte : recv_bytes recv_connect 0 1 ≡ ok (count 1, 0x10 ∷ [], 1)
unfolding recv_bytes recv_connect
first_byte = refl

recv_packet-refuses_example : recv_packet recv_connect 100 0 ≡ ok (err_packet_err, 1)
recv_packet-refuses_example =
    recv_packet-refuses recv_connect 100 0 1 0x10 first_byte (omega arith) (omega arith)

abbrev no_info : SolInfo
no_info = record {
  nclients = 1;
  nconnections = 1;
  start_time = 0;
  bytes_recv = 0;
  bytes_sent = 0;
  messages_sent = 0;
  messages_recv = 0;
}

abbrev call_none : Handler → Closure → MqttPacket → ServerState → Run (ℕ × ServerState)
call_none h cb packet st = ok (1, st)

abbrev closure : Closure
closure = record {
  fd = 5;
  obj = some (record { client_id = b'c' ∷ []; fd = 5; subscriptions = [] });
  closure_id = b'x' ∷ [];
}

abbrev state : ServerState
state = record {
  clients = record { table_size = 4; size = 0; entries = λ i. vacant };
  closures = record { table_size = 4; size = 0; entries = λ i. vacant };
  info = no_info;
}

abbrev state_after : ServerState
state_after = record {
  clients = state.clients;
  closures = state.closures;
  info = count_dropped no_info;
}

on_read_run : on_read recv_connect 100 call_none closure state 0 ≡ ok (dropped, state_after)
unfolding on_read recv_connect recv_bytes drop_client hashtable_del find_index hashtable_hash_int
on_read_run = refl

on_read-never_rearms_example :
    ((dropped ≡ idle) × (state ≡ state_after))
    ⊎ ((dropped ≡ dropped) × (drop_client closure state ≡ ok state_after))
on_read-never_rearms_example =
    on_read-never_rearms recv_connect 100 call_none closure state state_after 0 dropped on_read_run

handlers-Served_example :
    Served subscribe_type ↔ ((subscribe_type ≡ 1) ⊎ ((3 ≤ subscribe_type) × (subscribe_type ≤ 5)))
handlers-Served_example = handlers-Served subscribe_type

-- A PUBLISH to the topic "a" with QoS 2, and a subscriber with QoS 1.
abbrev note : MqttPublish
note = record {
  header = 0x34;
  pkt_id = 11;
  topiclen = 1;
  topic = b'a' ∷ 0 ∷ [];
  payloadlen = 2;
  payload = b'h' ∷ b'i' ∷ 0 ∷ [];
}

note-Carries : Carries note (b'a' ∷ []) (b'h' ∷ b'i' ∷ [])
note-Carries = record {
  topic_text = unfold c_str in refl;
  topic_fits = omega arith;
  topiclen = refl;
  payload_text = unfold c_str in refl;
  payload_fits = omega arith;
  payloadlen = refl;
}

abbrev listener : Subscriber
listener = record { qos = 1; client = record { client_id = b'c' ∷ []; fd = 9; subscriptions = [] } }

abbrev topic_a : Topic
topic_a = record { name = b'a' ∷ b'/' ∷ []; subscribers = listener ∷ [] }

abbrev topics : Trie Topic
topics = record {
  root = node b' ' none (cons (node b'a' none (cons (node b'/' (some topic_a) nil) nil)) nil);
  size = 1;
}

topics-IsTrie : IsTrie topics
topics-IsTrie =
    ((tt, tt), (omega arith, tt), (((tt, tt), (omega arith, tt), ((tt, tt, tt), tt)), tt))

abbrev sent_whole : Message → ℕ
sent_whole m = length m.1

publish_handler-delivers_example :
    Returns (publish_handler sent_whole closure note topics no_info) λ r.
      let t = topic_of topics (slashed b'a' []) in
      let ms = map (message_for note (b'a' ∷ []) (b'h' ∷ b'i' ∷ [])) t.subscribers in
      (r.messages ≡ ms)
      × (r.info ≡ counted sent_whole (b'a' ∷ []) (b'h' ∷ b'i' ∷ []) ms (received_one no_info))
      × ((r.payload, r.rc) ≡ reply_for (qos_bits note.header) note.pkt_id)
      × IsTrie r.topics
      × ((name : List ℕ)
          → sol_topic_get r.topics name
            ≡ (if same_key (slashed b'a' []) name then some t else sol_topic_get topics name))
publish_handler-delivers_example =
    publish_handler-delivers sent_whole (b'a' ∷ []) (b'h' ∷ b'i' ∷ []) closure
      (record { client_id = b'c' ∷ []; fd = 5; subscriptions = [] }) note b'a' [] topics no_info
      refl refl note-Carries topics-IsTrie (omega arith, (omega arith, tt))

-- A PUBLISH before any CONNECT.
stranger_publishes :
    publish_handler sent_whole (record { fd = 5; obj = none; closure_id = [] }) note topics no_info
    ≡ fault null_deref
unfolding publish_handler client_of
stranger_publishes = refl

unpack-message_for_example :
    Returns
      (unpack_mqtt_packet ((message_for note (b'a' ∷ []) (b'h' ∷ b'i' ∷ []) listener).1 ++ []))
      λ (_, q).
        (q
          ≡ MqttPacket.publish (record {
            header = set_qos 0x34 1;
            pkt_id = 11;
            topiclen = 1;
            topic = (b'a' ∷ []) ++ (0 ∷ []);
            payloadlen = 2;
            payload = (b'h' ∷ b'i' ∷ []) ++ (0 ∷ []);
          }))
        × (qos_bits (set_qos 0x34 1) ≡ 1)
unpack-message_for_example =
    unpack-message_for note (b'a' ∷ []) (b'h' ∷ b'i' ∷ []) [] listener note-Carries (omega arith)
      refl (omega arith) (omega arith)
