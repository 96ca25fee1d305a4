-- ===== src/Server/Publish/Delivery.antt =====
-- A received PUBLISH reaches every subscriber of its topic, as a packet of the standard with the
-- subscriber's QoS.
use mqttbroker.Base.{
  suc, ◌+◌, ◌^◌, ℕ, ◌%◌, ◌≡◌, refl, ap, ◌∙◌, inl, inr, Option, none, some, List, [], ◌∷◌, ◌++◌, map,
  arith, ok, Returns, >>=-eq-ok, length, get_elem?, All, IsByte, ◌==◌, if◌then◌else◌, Bool-cases,
  Option-cases,
}
use mqttbroker.Pack.{c_str}
use mqttbroker.Mqtt.Packet.{MqttPublish, MqttPacket, qos_bits, at_least_once, exactly_once}
use mqttbroker.Mqtt.Build.{mqtt_packet_ack}
use mqttbroker.Pack.RoundTrip.{u16_bytes}
use mqttbroker.Mqtt.Pack.{pack_mqtt_packet, pack_mqtt_ack}
use mqttbroker.Mqtt.Pack.Publish.{Carries}
use mqttbroker.Mqtt.Pack.Replies.{pack_mqtt_ack-wire}
use mqttbroker.Util.{append_string}
use mathlib.Core.Path.{subst}
use mqttbroker.Trie.{Trie}
use mqttbroker.Trie.Lookup.{same_key, same_key_iff, IsTrie, trie_insert_lem}
use mqttbroker.Core.{SolClient, Topic, Subscriber, topic_create, sol_topic_put, sol_topic_get}
use mqttbroker.Server.Publish.Message.{message_for, forward-wire, Carries-with_qos, messages_after}
use mqttbroker.Server.{SolInfo, Closure, client_of}
use mqttbroker.Server.Publish.{
  with_qos, Message, count_message, forward_all, last_char, topic_name, find_topic, reply,
  count_received, publish_handler, puback_byte, pubrec_byte,
}

-- The last byte of a text that is not empty, and the topic's name with its slash.
abbrev pub last : ℕ → List ℕ → ℕ
last c [] = c
last c (d ∷ ds) = last d ds

abbrev pub slashed : ℕ → List ℕ → List ℕ
slashed c cs = if last c cs == b'/' then c ∷ cs else c ∷ (cs ++ (b'/' ∷ []))

pub c_str-cons :
    (x c : ℕ) (mem cs : List ℕ) → c_str (x ∷ mem) ≡ ok (c ∷ cs) → (x ≡ c) × (c_str mem ≡ ok cs)
unfolding c_str
c_str-cons x c mem cs e = elim (Bool-cases (x == 0)) [
  | inl nul ↦ let bad : ok [] ≡ ok (c ∷ cs) = rw nul at e in absurd (cc)
  | inr more ↦
      let (str, got, q) = >>=-eq-ok (c_str mem) _ (rw more at e) in
      let same : str ≡ cs = cc q in (cc q, got ∙ ap ok same)
]

pub c_str-last :
    (mem : List ℕ) (c : ℕ) (cs : List ℕ)
    → c_str mem ≡ ok (c ∷ cs)
    → get_elem? mem (length cs) ≡ some (last c cs)
c_str-last [] c cs e = unfold c_str in absurd (cc)
c_str-last (x ∷ mem) c [] e = ap some (c_str-cons x c mem [] e).0
c_str-last (x ∷ mem) c (d ∷ ds) e = c_str-last mem d ds (c_str-cons x c mem (d ∷ ds) e).1

last_char-last :
    (p : MqttPublish) (c : ℕ) (cs payload : List ℕ)
    → Carries p (c ∷ cs) payload
    → last_char p ≡ ok (last c cs)
unfolding last_char
last_char-last p c cs payload carried =
    rw (carried.topiclen, last_char, c_str-last p.topic c cs carried.topic_text)

topic_name-slashed :
    (p : MqttPublish) (c : ℕ) (cs payload : List ℕ)
    → Carries p (c ∷ cs) payload
    → topic_name p ≡ ok (slashed c cs)
unfolding topic_name append_string
topic_name-slashed p c cs payload carried =
    rw (last_char-last p c cs payload carried, carried.topic_text) (ground arith)

-- `reply` by the QoS of the received packet.
abbrev pub reply_for : ℕ → ℕ → Option (List ℕ) × ℕ
reply_for qos pkt_id =
    if qos == at_least_once
    then (some (puback_byte ∷ 2 ∷ u16_bytes pkt_id), 1)
    else if qos == exactly_once
    then (some (pubrec_byte ∷ 2 ∷ u16_bytes pkt_id), 1)
    else (none, 0)

ack_packed :
    (byte pkt_id : ℕ)
    → pack_mqtt_ack (mqtt_packet_ack byte pkt_id)
      ≡ ok (record { out = (byte % 256) ∷ 2 ∷ u16_bytes pkt_id; room = 0 })
unfolding mqtt_packet_ack
ack_packed byte pkt_id = pack_mqtt_ack-wire (mqtt_packet_ack byte pkt_id)

puback_packed :
    (pkt_id : ℕ)
    → pack_mqtt_packet (MqttPacket.ack (mqtt_packet_ack puback_byte pkt_id)) 4
      ≡ ok (record { out = puback_byte ∷ 2 ∷ u16_bytes pkt_id; room = 0 })
unfolding pack_mqtt_packet
puback_packed pkt_id = ack_packed puback_byte pkt_id

pubrec_packed :
    (pkt_id : ℕ)
    → pack_mqtt_packet (MqttPacket.ack (mqtt_packet_ack pubrec_byte pkt_id)) 5
      ≡ ok (record { out = pubrec_byte ∷ 2 ∷ u16_bytes pkt_id; room = 0 })
unfolding pack_mqtt_packet
pubrec_packed pkt_id = ack_packed pubrec_byte pkt_id

reply-reply_for : (qos pkt_id : ℕ) → reply qos pkt_id ≡ ok (reply_for qos pkt_id)
unfolding reply
reply-reply_for qos pkt_id = rw (puback_packed pkt_id, pubrec_packed pkt_id) (ground arith)

-- The topic that the packet is for: the one found, or a new one without subscribers.
abbrev pub topic_or : List ℕ → Option Topic → Topic
topic_or name none = record { name = name; subscribers = [] }
topic_or name (some t) = t

abbrev pub topic_of : Trie Topic → List ℕ → Topic
topic_of topics name = topic_or name (sol_topic_get topics name)

module _ (topics : Trie Topic) (name : List ℕ) where
  find_topic-topic_of : (find_topic topics name).0 ≡ topic_of topics name
  unfolding find_topic topic_create
  find_topic-topic_of = go (sol_topic_get topics name) refl
    where
      go :
          (found : Option Topic)
          → sol_topic_get topics name ≡ found
          → (find_topic topics name).0 ≡ topic_of topics name
      go none e = rw (e, find_topic)
      go (some t) e = rw (e, find_topic)

  find_topic-keeps :
      IsTrie topics
      → All IsByte name
      → let topics' = (find_topic topics name).1 in
        IsTrie topics'
        × ((name' : List ℕ)
            → sol_topic_get topics' name' ≡ (
                if same_key name name'
                then some (topic_of topics name)
                else sol_topic_get topics name'))
  unfolding find_topic
  find_topic-keeps trie bytes = elim (Option-cases (sol_topic_get topics name)) [
    | inl e ↦
        let (kept, finds, _) = trie_insert_lem topics name (topic_create name) bytes trie in
        rw (e, find_topic)
          (unfold sol_topic_put topic_create in
            (kept, λ name'. unfold sol_topic_get in finds name'))
    | inr (t, e) ↦ rw (e, find_topic) (trie, same t e)
  ]
    where
      same :
          (t : Topic)
          → sol_topic_get topics name ≡ some t
          → (name' : List ℕ)
          → sol_topic_get topics name'
            ≡ (if same_key name name' then some t else sol_topic_get topics name')
      same t e name' = elim (Bool-cases (same_key name name')) [
        | inl eq ↦ let q : name ≡ name' = (same_key_iff name name').0 eq in rw (eq, ← q) e
        | inr ne ↦ rw ne
      ]

-- A counter to which `added` is added in all, by the messages.
abbrev pub counter : ℕ → ℕ → List Message → ℕ
counter start added [] = start
counter start added (m ∷ ms) = (start + added) % 2 ^ 64

-- The counters with one message more that was received.
abbrev pub received_one : SolInfo → SolInfo
received_one info = record info { messages_recv = (info.messages_recv + 1) % 2 ^ 64 }

module _ (sent : Message → ℕ) (topic payload : List ℕ) where
  abbrev pub count_messages : List Message → SolInfo → SolInfo
  count_messages [] info = info
  count_messages (m ∷ ms) info = count_messages ms (count_message sent m info)

  abbrev pub total : List Message → ℕ
  total [] = 0
  total (m ∷ ms) = sent m + total ms

  -- The counters after the messages: what was sent of them, and how many they are.
  abbrev pub counted : List Message → SolInfo → SolInfo
  counted ms info = record {
    nclients = info.nclients;
    nconnections = info.nconnections;
    start_time = info.start_time;
    bytes_recv = info.bytes_recv;
    bytes_sent = counter info.bytes_sent (total ms) ms;
    messages_sent = counter info.messages_sent (length ms) ms;
    messages_recv = info.messages_recv;
  }

  pub count_messages-counted :
      (ms : List Message) (info : SolInfo) → count_messages ms info ≡ counted ms info
  count_messages-counted [] info = refl
  count_messages-counted (m ∷ []) info =
      let bytes : (info.bytes_sent + sent m) % 2 ^ 64 ≡ (info.bytes_sent + (sent m + 0)) % 2 ^ 64 =
        omega arith in
      rw bytes refl
  count_messages-counted (m ∷ (n ∷ ms)) info =
      let more = total (n ∷ ms) in
      let left = length (n ∷ ms) in
      let bytes : ((info.bytes_sent + sent m) % 2 ^ 64 + more) % 2 ^ 64
          ≡ (info.bytes_sent + (sent m + more)) % 2 ^ 64 =
        omega arith in
      let messages : ((info.messages_sent + 1) % 2 ^ 64 + left) % 2 ^ 64
          ≡ (info.messages_sent + suc left) % 2 ^ 64 =
        omega arith in
      count_messages-counted (n ∷ ms) (count_message sent m info) ∙ rw (bytes, messages) refl

  pub forward_all-messages :
      (subs : List Subscriber) (p : MqttPublish) (info : SolInfo)
      → Carries p topic payload
      → let ms = map (message_for p topic payload) subs in
        forward_all sent p subs info ≡ ok (ms, count_messages ms info)
  unfolding forward_all
  forward_all-messages [] p info c = refl
  forward_all-messages (sub ∷ subs) p info c =
      let p' = with_qos p sub.qos in
      let c' = Carries-with_qos p topic payload sub.qos c in
      let m = message_for p topic payload sub in
      rw (
        forward-wire p' topic payload c',
        forward_all-messages subs p' (count_message sent m info) c',
        messages_after p topic payload sub.qos subs,
      )

  -- `publish_handler` for a client that has connected, on a PUBLISH whose topic is not empty and
  -- whose topic and payload are shorter than 2 ^ 16 bytes and have no NUL in them, with the topics in
  -- a trie in order, returns. Every subscriber of the topic, its name taken with a slash at the end,
  -- is sent the packet of the standard with the subscriber's QoS, in the order of the list, and no
  -- one else is; one message more is counted as received, and of those sent their number and what
  -- `send_bytes` gave for them; PUBACK or PUBREC is left in `cb->payload` for QoS 1 and 2, with the
  -- packet's identifier; and the trie holds the topic from then on, and the others as before.
  pub publish_handler-delivers :
      (cb : Closure) (client : SolClient) (p : MqttPublish) (c : ℕ) (cs : List ℕ)
      (topics : Trie Topic) (info : SolInfo)
      → cb.obj ≡ some client
      → topic ≡ c ∷ cs
      → Carries p topic payload
      → IsTrie topics
      → All IsByte (slashed c cs)
      → Returns (publish_handler sent cb p topics info) λ r.
        let t = topic_of topics (slashed c cs) in
        let ms = map (message_for p topic payload) t.subscribers in
        (r.messages ≡ ms)
        × (r.info ≡ counted ms (received_one info))
        × ((r.payload, r.rc) ≡ reply_for (qos_bits p.header) p.pkt_id)
        × IsTrie r.topics
        × ((name : List ℕ)
            → sol_topic_get r.topics name
              ≡ (if same_key (slashed c cs) name then some t else sol_topic_get topics name))
  unfolding publish_handler client_of
  publish_handler-delivers cb client p c cs topics info o e carried trie bytes =
      let name = slashed c cs in
      let t = topic_of topics name in
      let ms = map (message_for p topic payload) t.subscribers in
      let carried' : Carries p (c ∷ cs) payload = subst (λ x. Carries p x payload) e carried in
      let found : (find_topic topics name).0 ≡ t = find_topic-topic_of topics name in
      let (after, kept) = find_topic-keeps topics name trie bytes in
      (
        record {
          topics = (find_topic topics name).1;
          info = count_messages ms (count_received info);
          messages = ms;
          payload = (reply_for (qos_bits p.header) p.pkt_id).0;
          rc = (reply_for (qos_bits p.header) p.pkt_id).1;
        },
        rw (
          o,
          topic_name-slashed p c cs payload carried',
          found,
          forward_all-messages t.subscribers p (count_received info) carried,
          reply-reply_for (qos_bits p.header) p.pkt_id,
        ),
        (refl, count_messages-counted ms (count_received info), refl, after, kept),
      )
