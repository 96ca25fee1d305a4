-- ===== src/Mqtt/Pack.antt =====
-- Serialising a packet (`pack_mqtt_packet` and the handlers of `pack_handlers`). The result is the
-- memory from `malloc`: the bytes written, and how many were left unwritten.
pub mod Publish
pub mod Replies
use mqttbroker.Base.{
  ℕ, zero, suc, ◌+◌, ◌-◌, ◌||◌, Option, none, some, List, [], ◌∷◌, out_of_bounds, null_call,
  bad_index, wrong_member, Run, ok, fault, ◌>>=◌, get_elem?, ltb, ◌==◌, if◌then◌else◌,
}
use mqttbroker.Pack.{Buffer, malloc, write, pack_u8, pack_u16, pack_bytes}
use mqttbroker.Mqtt.Length.{mqtt_encode_length}
use mqttbroker.Mqtt.Packet
use mqttbroker.Mqtt.Packet.{
  MqttHeader, MqttPublish, MqttSuback, MqttConnack, MqttAck, MqttPacket, qos_bits, at_most_once,
  pingreq_type, pingresp_type, mqtt_header_len, mqtt_ack_len,
}

-- `mqtt_encode_length` into memory, with the pointer moved behind it.
unfoldable pub pack_length : Buffer → ℕ → Run Buffer
pack_length ptr len = write ptr (mqtt_encode_length len)

unfoldable pub pack_mqtt_header : MqttHeader → Run Buffer
pack_mqtt_header hdr = do ptr ← pack_u8 (malloc mqtt_header_len) hdr; pack_length ptr 0

unfoldable pub pack_mqtt_ack : MqttAck → Run Buffer
pack_mqtt_ack pkt = do
  ptr₁ ← pack_u8 (malloc mqtt_ack_len) pkt.header
  ptr₂ ← pack_length ptr₁ mqtt_header_len
  pack_u16 ptr₂ pkt.pkt_id

unfoldable pub pack_mqtt_connack : MqttConnack → Run Buffer
pack_mqtt_connack pkt = do
  ptr₁ ← pack_u8 (malloc mqtt_ack_len) pkt.header
  ptr₂ ← pack_length ptr₁ mqtt_header_len
  ptr₃ ← pack_u8 ptr₂ pkt.byte
  pack_u8 ptr₃ pkt.rc

-- `for (i …) pack_u8(&ptr, rcs[i])`, from the codes not yet written
pub pack_rcs : ℕ → List ℕ → Buffer → Run Buffer
pack_rcs zero rcs ptr = ok ptr
pack_rcs (suc n) [] ptr = fault out_of_bounds
pack_rcs (suc n) (rc ∷ rcs) ptr = pack_u8 ptr rc >>= pack_rcs n rcs

unfoldable pub pack_mqtt_suback : MqttSuback → Run Buffer
unfolding pack_rcs
pack_mqtt_suback pkt = do
  ptr₁ ← pack_u8 (malloc (mqtt_header_len + 2 + pkt.rcslen)) pkt.header
  ptr₂ ← pack_length ptr₁ (2 + pkt.rcslen)
  ptr₃ ← pack_u16 ptr₂ pkt.pkt_id
  pack_rcs pkt.rcslen pkt.rcs ptr₃

-- `remaininglen_offset`, from `pktlen`
unfoldable pub remaininglen_offset : ℕ → ℕ
remaininglen_offset pktlen =
    if ltb 0x200000 (pktlen - 1)
    then 3
    else if ltb 0x4000 (pktlen - 1)
    then 2
    else if ltb 0x80 (pktlen - 1)
    then 1
    else 0

-- `pktlen` before the offset is added
unfoldable pub publish_len : MqttPublish → ℕ
publish_len pkt =
    mqtt_header_len
    + 2
    + pkt.topiclen
    + pkt.payloadlen
    + (if ltb at_most_once (qos_bits pkt.header) then 2 else 0)

-- `if (qos > AT_MOST_ONCE) pack_u16(&ptr, pkt_id)`
unfoldable pub pack_publish_id : MqttPublish → Buffer → Run Buffer
pack_publish_id pkt ptr =
    if ltb at_most_once (qos_bits pkt.header) then pack_u16 ptr pkt.pkt_id else ok ptr

unfoldable pub pack_mqtt_publish : MqttPublish → Run Buffer
pack_mqtt_publish pkt = do
  let offset = remaininglen_offset (publish_len pkt)
  let pktlen = publish_len pkt + offset
  ptr₁ ← pack_u8 (malloc pktlen) pkt.header
  ptr₂ ← pack_length ptr₁ (pktlen - mqtt_header_len - offset)
  ptr₃ ← pack_u16 ptr₂ pkt.topiclen
  ptr₄ ← pack_bytes ptr₃ pkt.topic
  ptr₅ ← pack_publish_id pkt ptr₄
  pack_bytes ptr₅ pkt.payload

abbrev pub PackHandler : Type 0
PackHandler = MqttPacket → Run Buffer

-- The handlers read their member of the union.
pack_ack : PackHandler
pack_ack (MqttPacket.ack pkt) = pack_mqtt_ack pkt
pack_ack _ = fault wrong_member

pack_connack : PackHandler
pack_connack (MqttPacket.connack pkt) = pack_mqtt_connack pkt
pack_connack _ = fault wrong_member

pack_suback : PackHandler
pack_suback (MqttPacket.suback pkt) = pack_mqtt_suback pkt
pack_suback _ = fault wrong_member

pack_publish : PackHandler
pack_publish (MqttPacket.publish pkt) = pack_mqtt_publish pkt
pack_publish _ = fault wrong_member

unfoldable pub pack_handlers : List (Option PackHandler)
unfolding pack_ack pack_connack pack_suback pack_publish
pack_handlers =
    none
    ∷ none
    ∷ some pack_connack
    ∷ some pack_publish
    ∷ some pack_ack
    ∷ some pack_ack
    ∷ some pack_ack
    ∷ some pack_ack
    ∷ none
    ∷ some pack_suback
    ∷ none
    ∷ some pack_ack
    ∷ none
    ∷ []

unfoldable pub call_pack : Option (Option PackHandler) → PackHandler
call_pack none pkt = fault bad_index
call_pack (some none) pkt = fault null_call
call_pack (some (some f)) pkt = f pkt

-- The header byte is the first byte of every member of the union.
unfoldable pub header_of : MqttPacket → MqttHeader
header_of (MqttPacket.ack p) = p.header
header_of (MqttPacket.header h) = h
header_of (MqttPacket.connect p) = p.header
header_of (MqttPacket.connack p) = p.header
header_of (MqttPacket.suback p) = p.header
header_of (MqttPacket.publish p) = p.header
header_of (MqttPacket.subscribe p) = p.header
header_of (MqttPacket.unsubscribe p) = p.header

unfoldable pub pack_mqtt_packet : MqttPacket → ℕ → Run Buffer
unfolding call_pack pack_handlers header_of
pack_mqtt_packet pkt type =
    if type == pingreq_type || type == pingresp_type
    then pack_mqtt_header (header_of pkt)
    else call_pack (get_elem? pack_handlers type) pkt
