-- ===== src/Mqtt/Unpack/Publish.antt =====
-- What the parser makes of a PUBLISH of the standard, and of what `pack_mqtt_publish` wrote.
use mqttbroker.Base.{
  ℕ, ◌%◌, ◌^◌, ◌<◌, ◌≡◌, refl, List, [], ◌∷◌, ◌++◌, append_assoc, arith, ok, Returns, length, take,
  length-append, ltb, if◌then◌else◌,
}
use mqttbroker.Pack.{unpack_u16}
use mqttbroker.Pack.RoundTrip.{unpack_string16-append, unpack_bytes-take}
use mqttbroker.Mqtt.Length.{mqtt_encode_length}
use mqttbroker.Mqtt.Length.RoundTrip.{decode-encode}
use mqttbroker.Mqtt.Packet.{
  MqttPublish, MqttPacket, qos_bits, type_bits, at_most_once, publish_type,
}
use mqttbroker.Mqtt.Pack.{pack_mqtt_packet}
use mqttbroker.Mqtt.Pack.Publish.{
  Carries, id_bytes, publish_body, publish_wire, pack_mqtt_publish-wire,
}
use mqttbroker.Mqtt.Unpack.{unpack_publish_id, message_len, unpack_mqtt_publish, unpack_mqtt_packet}

-- A PUBLISH that the broker can receive: its header has the packet type, and its fields and the
-- remaining length fit their places on the wire.
pub record IsPublish (p : MqttPublish) (topic payload : List ℕ) : Type 0 where
  pub header_byte : p.header < 256
  pub header_type : type_bits p.header ≡ publish_type
  pub id_fits : p.pkt_id < 2 ^ 16
  pub topic_fits : length topic < 2 ^ 16
  pub body_fits : length (publish_body p topic payload) < 128 ^ 4

-- The packet that the parser builds: the payload's length is kept modulo 2 ^ 16, and only so much of
-- the payload is read.
abbrev pub received : MqttPublish → List ℕ → List ℕ → MqttPublish
received p topic payload = record {
  header = p.header;
  pkt_id = if ltb at_most_once (qos_bits p.header) then p.pkt_id else 0;
  topiclen = length topic;
  topic = topic ++ (0 ∷ []);
  payloadlen = length payload % 2 ^ 16;
  payload = take (length payload % 2 ^ 16) payload ++ (0 ∷ []);
}

unpack_publish_id-id_bytes :
    (p : MqttPublish) (rest : List ℕ)
    → p.pkt_id < 2 ^ 16
    → unpack_publish_id p.header (id_bytes p ++ rest)
      ≡ ok (if ltb at_most_once (qos_bits p.header) then p.pkt_id else 0, rest)
unfolding unpack_publish_id unpack_u16
unpack_publish_id-id_bytes p rest h = ground arith

module _ (p : MqttPublish) (topic payload : List ℕ) (c : IsPublish p topic payload) where
  message_len-payload :
      message_len p.header (length (publish_body p topic payload)) (length topic)
      ≡ length payload % 2 ^ 16
  unfolding message_len
  message_len-payload = ground (
    arith,
    c.body_fits,
    c.topic_fits,
    length-append topic (id_bytes p ++ payload),
    length-append (id_bytes p) payload,
  )

  -- A PUBLISH of the standard is parsed into its fields, whatever follows it in the buffer; of the
  -- payload the parser keeps the length modulo 2 ^ 16 and as many bytes.
  pub unpack-publish_wire :
      (rest : List ℕ)
      → unpack_mqtt_packet (publish_wire p topic payload ++ rest)
        ≡ ok (length (publish_body p topic payload), MqttPacket.publish (received p topic payload))
  unfolding unpack_mqtt_packet unpack_mqtt_publish
  unpack-publish_wire rest =
      let body = publish_body p topic payload in
      let byte : p.header % 256 ≡ p.header = omega (arith, c.header_byte) in
      rw (byte, c.header_type, append_assoc (mqtt_encode_length (length body)) body rest)
        (rw (
          decode-encode (length body) (body ++ rest) c.body_fits,
          append_assoc topic (id_bytes p ++ payload) rest,
          append_assoc (id_bytes p) payload rest,
          unpack_string16-append topic (id_bytes p ++ (payload ++ rest)) c.topic_fits,
          unpack_publish_id-id_bytes p (payload ++ rest) c.id_fits,
          message_len-payload,
          unpack_bytes-take (length payload % 2 ^ 16) payload rest (omega arith),
        ))

  -- The broker's own PUBLISH, packed into memory of the size that the code computes, is parsed back
  -- into the packet that was packed.
  pub unpack-pack_publish :
      (rest : List ℕ)
      → Carries p topic payload
      → Returns (pack_mqtt_packet (MqttPacket.publish p) publish_type) λ buf.
        (buf.room ≡ 0)
        × (unpack_mqtt_packet (buf.out ++ rest)
            ≡ ok (
              length (publish_body p topic payload),
              MqttPacket.publish (received p topic payload),
            ))
        × (length payload % 2 ^ 16 ≡ p.payloadlen)
  unfolding pack_mqtt_packet
  unpack-pack_publish rest carried = (
    record { out = publish_wire p topic payload; room = 0 },
    pack_mqtt_publish-wire p topic payload carried,
    (refl, unpack-publish_wire rest, omega (arith, carried.payload_fits, carried.payloadlen)),
  )
