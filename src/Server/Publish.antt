-- ===== src/Server/Publish.antt =====
-- `publish_handler` of sol/src/server.c: a received PUBLISH goes to every subscriber of its topic.
pub mod Message
pub mod Delivery
use mqttbroker.Base.{
  ℕ, zero, suc, ◌+◌, ◌-◌, ◌%◌, ◌^◌, Option, none, some, List, [], ◌∷◌, out_of_bounds, Run, ok,
  fault, ◌>>=◌, length, take, get_elem?, ltb, leb, ◌==◌, if◌then◌else◌,
}
use mqttbroker.Pack.{Buffer, c_str}
use mqttbroker.Mqtt.Packet
use mqttbroker.Mqtt.Packet.{
  MqttPublish, MqttPacket, qos_bits, set_qos, at_most_once, at_least_once, exactly_once,
  publish_type, mqtt_header_len, mqtt_ack_len,
}
use mqttbroker.Mqtt.Build.{mqtt_packet_ack}
use mqttbroker.Mqtt.Pack.{pack_mqtt_packet}
use mqttbroker.Util.{append_string}
use mqttbroker.Trie.{Trie}
use mqttbroker.Server.{SolInfo, Closure, client_of}
use mqttbroker.Core.{Topic, Subscriber, topic_create, sol_topic_put, sol_topic_get}

abbrev pub puback_byte : ℕ
puback_byte = 0x40

abbrev pub pubrec_byte : ℕ
pubrec_byte = 0x50

-- `pkt->publish.header.bits.qos = qos`
abbrev pub with_qos : MqttPublish → ℕ → MqttPublish
with_qos p qos = record {
  header = set_qos p.header qos;
  pkt_id = p.pkt_id;
  topiclen = p.topiclen;
  topic = p.topic;
  payloadlen = p.payloadlen;
  payload = p.payload;
}

-- `publen` with its `remaininglen_offset`
unfoldable pub publen : MqttPublish → ℕ
publen p =
    let start = mqtt_header_len + 2 + p.topiclen + p.payloadlen in
    let len = if ltb at_most_once (qos_bits p.header) then start + 2 else start in
    let offset =
      if ltb 0x200000 (len - 1)
      then 3
      else if ltb 0x4000 (len - 1)
      then 2
      else if ltb 0x80 (len - 1)
      then 1
      else 0 in
    len + offset

-- The bytes that `send_bytes` is given: `publen` of them from the packed message.
unfoldable pub forward : MqttPublish → Run (List ℕ)
unfolding publen
forward p = do
  pub_buf ← pack_mqtt_packet (MqttPacket.publish p) publish_type
  if leb (publen p) (length pub_buf.out)
      then ok (take (publen p) pub_buf.out)
      else fault out_of_bounds

-- A message handed to `send_bytes`: the descriptor and the bytes.
abbrev pub Message : Type 0
Message = ℕ × List ℕ

-- `topic[topiclen - 1]`
unfoldable pub last_char : MqttPublish → Run ℕ
last_char p = elim p.topiclen [
  | zero ↦ fault out_of_bounds
  | suc i ↦ elim (get_elem? p.topic i) [ none ↦ fault out_of_bounds | some c ↦ ok c ]
]

-- The topic with a slash at its end.
unfoldable pub topic_name : MqttPublish → Run (List ℕ)
unfolding last_char
topic_name p = do
  c ← last_char p
  str ← c_str p.topic
  ok (if c == b'/' then str else append_string str (b'/' ∷ []))

-- `sol_topic_get`, with a new topic put where there is none.
unfoldable pub find_topic : Trie Topic → List ℕ → Topic × Trie Topic
find_topic topics name = elim (sol_topic_get topics name) [
  | some t ↦ (t, topics)
  | none ↦ (topic_create name, sol_topic_put topics (topic_create name))
]

-- `cb->payload` and the result: PUBACK for QoS 1, PUBREC for QoS 2, nothing for QoS 0.
unfoldable pub reply : ℕ → ℕ → Run (Option (List ℕ) × ℕ)
reply qos pkt_id =
    let ack : ℕ → ℕ → Run (Option (List ℕ) × ℕ) = λ byte type. (do
      packed ← pack_mqtt_packet (MqttPacket.ack (mqtt_packet_ack byte pkt_id)) type
      ok (some (take mqtt_ack_len packed.out), 1)) in
    if qos == at_least_once
    then ack puback_byte 4
    else if qos == exactly_once
    then ack pubrec_byte 5
    else ok (none, 0)

-- After the handler: the topics, the counters, the messages sent, `cb->payload` and the result.
pub record Published : Type 0 where
  pub topics : Trie Topic
  pub info : SolInfo
  pub messages : List Message
  pub payload : Option (List ℕ)
  pub rc : ℕ

abbrev pub count_received : SolInfo → SolInfo
count_received info = record {
  nclients = info.nclients;
  nconnections = info.nconnections;
  start_time = info.start_time;
  bytes_recv = info.bytes_recv;
  bytes_sent = info.bytes_sent;
  messages_sent = info.messages_sent;
  messages_recv = (info.messages_recv + 1) % 2 ^ 64;
}

-- `sent` is the result of `send_bytes`, an `ssize_t` as its 64 bits.
module _ (sent : Message → ℕ) where
  abbrev pub count_message : Message → SolInfo → SolInfo
  count_message m info = record {
    nclients = info.nclients;
    nconnections = info.nconnections;
    start_time = info.start_time;
    bytes_recv = info.bytes_recv;
    bytes_sent = (info.bytes_sent + sent m) % 2 ^ 64;
    messages_sent = (info.messages_sent + 1) % 2 ^ 64;
    messages_recv = info.messages_recv;
  }

  -- The loop over the subscribers.
  pub forward_all : MqttPublish → List Subscriber → SolInfo → Run (List Message × SolInfo)
  unfolding forward
  forward_all p [] info = ok ([], info)
  forward_all p (sub ∷ subs) info = do
    bytes ← forward (with_qos p sub.qos)
    let m : Message = (sub.client.fd, bytes)
    (ms, info') ← forward_all (with_qos p sub.qos) subs (count_message m info)
    ok (m ∷ ms, info')

  unfoldable pub publish_handler : Closure → MqttPublish → Trie Topic → SolInfo → Run Published
  unfolding forward_all topic_name find_topic reply
  publish_handler cb p topics info = do
    client ← client_of cb
    name ← topic_name p
    let (t, topics') = find_topic topics name
    (messages, info') ← forward_all p t.subscribers (count_received info)
    (payload, rc) ← reply (qos_bits p.header) p.pkt_id
    ok (record { topics = topics'; info = info'; messages = messages; payload = payload; rc = rc })
