-- ===== src/Mqtt/Unpack.antt =====
-- Parsing a packet (`unpack_mqtt_packet` and the handlers of `unpack_handlers`). `buf` is the
-- buffer of `on_read`, the bytes behind the packet included.
pub mod Publish
pub mod Unsubscribe
pub mod Subscribe
pub mod Connect
pub mod Total
use mqttbroker.Base.{
  ℕ, zero, suc, ◌+◌, ◌-◌, ◌%◌, ◌^◌, Bool, ◌||◌, Option, none, some, List, [], ◌∷◌, out_of_bounds,
  null_call, bad_index, out_of_fuel, Run, ok, fault, ◌>>=◌, length, drop, get_elem?, ltb, ◌==◌,
  if◌then◌else◌,
}
use mqttbroker.Pack.{unpack_u8, unpack_u16, unpack_bytes, unpack_string16}
use mqttbroker.Mqtt.Length.{mqtt_decode_length}
use mqttbroker.Mqtt.Packet
use mqttbroker.Mqtt.Packet.{
  MqttHeader, MqttConnect, MqttPublish, MqttSubscribe, MqttUnsubscribe, MqttAck, MqttPacket,
  SubscribeTuple, UnsubscribeTuple, qos_bits, type_bits, will_bit, username_bit, password_bit,
  at_most_once, disconnect_type, pingreq_type, pingresp_type,
}

-- Subtraction of `size_t`.
abbrev pub sub64 : ℕ → ℕ → ℕ
sub64 a b = (a + 2 ^ 64 - b) % 2 ^ 64

-- A `size_t` difference stored in a `uint16_t`.
abbrev pub sub16 : ℕ → ℕ → ℕ
sub16 a b = (a + 2 ^ 64 - b) % 2 ^ 16

-- `if (flag) unpack_string16(&buf, &dest)`
unfoldable pub unpack_optional : Bool → List ℕ → Run (Option (List ℕ) × List ℕ)
unpack_optional flag buf =
    let present : Run (Option (List ℕ) × List ℕ) = (do
      (_, dest, rest) ← unpack_string16 buf
      ok (some dest, rest)) in
    if flag then present else ok (none, buf)

-- `if (cid_len > 0)`, with `malloc` and `unpack_bytes`
unfoldable pub unpack_client_id : ℕ → List ℕ → Run (Option (List ℕ) × List ℕ)
unpack_client_id cid_len buf =
    let present : Run (Option (List ℕ) × List ℕ) = (do
      (dest, rest) ← unpack_bytes buf cid_len
      ok (some dest, rest)) in
    if ltb 0 cid_len then present else ok (none, buf)

unfoldable pub unpack_mqtt_connect : List ℕ → MqttHeader → Run (ℕ × MqttPacket)
unpack_mqtt_connect init hdr = do
  (len, _) ← mqtt_decode_length init
  (byte, buf₁) ← unpack_u8 (drop 8 init)
  (keepalive, buf₂) ← unpack_u16 buf₁
  (cid_len, buf₃) ← unpack_u16 buf₂
  (client_id, buf₄) ← unpack_client_id cid_len buf₃
  (will_topic, buf₅) ← unpack_optional (will_bit byte == 1) buf₄
  (will_message, buf₆) ← unpack_optional (will_bit byte == 1) buf₅
  (username, buf₇) ← unpack_optional (username_bit byte == 1) buf₆
  (password, _) ← unpack_optional (password_bit byte == 1) buf₇
  ok (
    len,
    MqttPacket.connect (record {
      header = hdr;
      byte = byte;
      keepalive = keepalive;
      client_id = client_id;
      username = username;
      password = password;
      will_topic = will_topic;
      will_message = will_message;
    }),
  )

-- `if (qos > AT_MOST_ONCE)`; the field is zero otherwise.
unfoldable pub unpack_publish_id : MqttHeader → List ℕ → Run (ℕ × List ℕ)
unpack_publish_id hdr buf = if ltb at_most_once (qos_bits hdr) then unpack_u16 buf else ok (0, buf)

-- `message_len`, a `uint16_t` throughout
unfoldable pub message_len : MqttHeader → ℕ → ℕ → ℕ
message_len hdr len topiclen =
    let start = len % 2 ^ 16 in
    let start' = if ltb at_most_once (qos_bits hdr) then sub16 start 2 else start in
    sub16 start' (2 + topiclen)

unfoldable pub unpack_mqtt_publish : List ℕ → MqttHeader → Run (ℕ × MqttPacket)
unpack_mqtt_publish buf hdr = do
  (len, buf₁) ← mqtt_decode_length buf
  (topiclen, topic, buf₂) ← unpack_string16 buf₁
  (pkt_id, buf₃) ← unpack_publish_id hdr buf₂
  let payloadlen = message_len hdr len topiclen
  (payload, _) ← unpack_bytes buf₃ payloadlen
  ok (
    len,
    MqttPacket.publish (record {
      header = hdr;
      pkt_id = pkt_id;
      topiclen = topiclen;
      topic = topic;
      payloadlen = payloadlen;
      payload = payload;
    }),
  )

-- `while (remaining_bytes > 0)`. The tuples stored, and `len`, of which each round takes one off.
pub subscribe_loop : ℕ → List ℕ → ℕ → ℕ → Run (List SubscribeTuple × ℕ)
subscribe_loop zero buf remaining len = fault out_of_fuel
subscribe_loop (suc fuel) buf remaining len =
    let round : Run (List SubscribeTuple × ℕ) = (do
      (topic_len, topic, buf₁) ← unpack_string16 buf
      (qos, buf₂) ← unpack_u8 buf₁
      (tuples, len') ← subscribe_loop fuel buf₂ (sub64 (sub64 remaining 2) topic_len) (sub64 len 1)
      ok (record { topic_len = topic_len; topic = topic; qos = qos } ∷ tuples, len')) in
    if remaining == 0 then ok ([], len) else round

unfoldable pub unpack_mqtt_subscribe : List ℕ → MqttHeader → Run (ℕ × MqttPacket)
unfolding subscribe_loop
unpack_mqtt_subscribe buf hdr = do
  (len, buf₁) ← mqtt_decode_length buf
  (pkt_id, buf₂) ← unpack_u16 buf₁
  (tuples, len') ← subscribe_loop (suc (length buf₂)) buf₂ (sub64 len 2) len
  ok (
    len',
    MqttPacket.subscribe (record {
      header = hdr;
      pkt_id = pkt_id;
      tuples_len = length tuples % 2 ^ 16;
      tuples = tuples;
    }),
  )

pub unsubscribe_loop : ℕ → List ℕ → ℕ → Run (List UnsubscribeTuple)
unsubscribe_loop zero buf remaining = fault out_of_fuel
unsubscribe_loop (suc fuel) buf remaining =
    let round : Run (List UnsubscribeTuple) = (do
      (topic_len, topic, buf₁) ← unpack_string16 buf
      tuples ← unsubscribe_loop fuel buf₁ (sub64 (sub64 remaining 2) topic_len)
      ok (record { topic_len = topic_len; topic = topic } ∷ tuples)) in
    if remaining == 0 then ok [] else round

unfoldable pub unpack_mqtt_unsubscribe : List ℕ → MqttHeader → Run (ℕ × MqttPacket)
unfolding unsubscribe_loop
unpack_mqtt_unsubscribe buf hdr = do
  (len, buf₁) ← mqtt_decode_length buf
  (pkt_id, buf₂) ← unpack_u16 buf₁
  tuples ← unsubscribe_loop (suc (length buf₂)) buf₂ (sub64 len 2)
  ok (
    len,
    MqttPacket.unsubscribe (record {
      header = hdr;
      pkt_id = pkt_id;
      tuples_len = length tuples % 2 ^ 16;
      tuples = tuples;
    }),
  )

unfoldable pub unpack_mqtt_ack : List ℕ → MqttHeader → Run (ℕ × MqttPacket)
unpack_mqtt_ack buf hdr = do
  (len, buf₁) ← mqtt_decode_length buf
  (pkt_id, _) ← unpack_u16 buf₁
  ok (len, MqttPacket.ack (record { header = hdr; pkt_id = pkt_id }))

abbrev pub UnpackHandler : Type 0
UnpackHandler = List ℕ → MqttHeader → Run (ℕ × MqttPacket)

-- The table, with NULL as `none`.
unfoldable pub unpack_handlers : List (Option UnpackHandler)
unpack_handlers =
    none
    ∷ some unpack_mqtt_connect
    ∷ none
    ∷ some unpack_mqtt_publish
    ∷ some unpack_mqtt_ack
    ∷ some unpack_mqtt_ack
    ∷ some unpack_mqtt_ack
    ∷ some unpack_mqtt_ack
    ∷ some unpack_mqtt_subscribe
    ∷ none
    ∷ some unpack_mqtt_unsubscribe
    ∷ []

-- A call through an entry of the table, as read at an index.
unfoldable pub call_unpack : Option (Option UnpackHandler) → UnpackHandler
call_unpack none buf hdr = fault bad_index
call_unpack (some none) buf hdr = fault null_call
call_unpack (some (some f)) buf hdr = f buf hdr

-- The value is the length that the handler returns, before its conversion to `int`.
unfoldable pub unpack_mqtt_packet : List ℕ → Run (ℕ × MqttPacket)
unfolding call_unpack unpack_handlers
unpack_mqtt_packet [] = fault out_of_bounds
unpack_mqtt_packet (hdr ∷ buf) =
    let type = type_bits hdr in
    if type == disconnect_type || (type == pingreq_type || type == pingresp_type)
    then ok (0, MqttPacket.header hdr)
    else call_unpack (get_elem? unpack_handlers type) buf hdr
