-- ===== src/Mqtt/Pack/Publish.antt =====
-- A PUBLISH on the wire, and the memory that it is written to.
use mqttbroker.Base.{
  ℕ, ◌+◌, ◌-◌, ◌%◌, ◌^◌, ◌<◌, ◌≡◌, refl, List, [], ◌∷◌, ◌++◌, append-nil, append_assoc, arith, ok,
  length, length-append, ltb, if◌then◌else◌,
}
use mqttbroker.Pack.{malloc, write, pack_u8, pack_u16, c_str, pack_bytes}
use mqttbroker.Pack.RoundTrip.{u16_bytes, write_then, write_last}
use mqttbroker.Mqtt.Length.{mqtt_encode_length}
use mqttbroker.Mqtt.Length.RoundTrip.{encode_shape}
use mqttbroker.Mqtt.Packet.{MqttPublish, qos_bits, at_most_once}
use mqttbroker.Mqtt.Pack.{
  pack_length, remaininglen_offset, publish_len, pack_publish_id, pack_mqtt_publish,
}

-- The `remaininglen_offset` that the code compares out of the packet's size is the number of bytes
-- that the length encoding takes beyond one.
pub offset-encoded_size :
    (len : ℕ) → remaininglen_offset (len + 2) + 1 ≡ length (mqtt_encode_length len)
unfolding remaininglen_offset
offset-encoded_size len = rw ((encode_shape len).1) (ground arith)

-- The packet's two texts are `topic` and `payload`, neither of which has a NUL in it, with their
-- lengths stored.
pub record Carries (p : MqttPublish) (topic payload : List ℕ) : Type 0 where
  pub topic_text : c_str p.topic ≡ ok topic
  pub topic_fits : length topic < 2 ^ 16
  pub topiclen : p.topiclen ≡ length topic
  pub payload_text : c_str p.payload ≡ ok payload
  pub payload_fits : length payload < 2 ^ 16
  pub payloadlen : p.payloadlen ≡ length payload

-- The packet identifier, which only QoS 1 and 2 have.
abbrev pub id_bytes : MqttPublish → List ℕ
id_bytes p = if ltb at_most_once (qos_bits p.header) then u16_bytes p.pkt_id else []

-- What follows the fixed header of a PUBLISH.
abbrev pub publish_body : MqttPublish → List ℕ → List ℕ → List ℕ
publish_body p topic payload = u16_bytes (length topic) ++ (topic ++ (id_bytes p ++ payload))

-- A PUBLISH by MQTT 3.1.1, section 3.3.
abbrev pub publish_wire : MqttPublish → List ℕ → List ℕ → List ℕ
publish_wire p topic payload =
    let body = publish_body p topic payload in
    (p.header % 256) ∷ (mqtt_encode_length (length body) ++ body)

pack_publish_id-write :
    (p : MqttPublish) (out : List ℕ) (left : ℕ)
    → pack_publish_id p (record { out = out; room = length (id_bytes p) + left })
      ≡ ok (record { out = out ++ id_bytes p; room = left })
unfolding pack_publish_id pack_u16 write
pack_publish_id-write p out left = ground (arith, append-nil out)

module _ (p : MqttPublish) (topic payload : List ℕ) (c : Carries p topic payload) where
  pub publish_len-body : publish_len p ≡ length (publish_body p topic payload) + 2
  unfolding publish_len
  publish_len-body =
      ground
        (arith, length-append topic (id_bytes p ++ payload), length-append (id_bytes p) payload)

  -- For a PUBLISH whose topic and payload are shorter than 2 ^ 16 bytes and have no NUL in them, the
  -- memory has exactly the size of what is written to it, no write leaves it, and it holds the packet
  -- of the standard.
  pub pack_mqtt_publish-wire :
      pack_mqtt_publish p ≡ ok (record { out = publish_wire p topic payload; room = 0 })
  unfolding pack_mqtt_publish pack_u8 pack_length pack_u16 malloc pack_bytes
  pack_mqtt_publish-wire =
      let enc = mqtt_encode_length (length (publish_body p topic payload)) in
      let after_id = length payload in
      let after_topic = length (id_bytes p) + after_id in
      let after_len = length topic + after_topic in
      let after_enc = 2 + after_len in
      rw (body_len) (
        write_then [] ((p.header % 256) ∷ []) _ (length enc + after_enc) _ _ size (
          write_then _ enc _ after_enc _ _ refl (
            write_then _ (u16_bytes p.topiclen) _ after_len _ _ refl (
              rw (c.topic_text) (
                write_then _ topic _ after_topic _ _ refl (
                  rw (pack_publish_id-write p _ after_id, c.payload_text)
                    (write_last _ payload _ (simp (append_assoc, c.topiclen)))))))))
    where
      body_len :
          publish_len p
            + remaininglen_offset (publish_len p)
            - 2
            - remaininglen_offset (publish_len p)
          ≡ length (publish_body p topic payload)
      body_len = omega (arith, publish_len-body)

      parts :
          length (topic ++ (id_bytes p ++ payload))
          ≡ length topic + (length (id_bytes p) + length payload)
      parts = rw (length-append topic (id_bytes p ++ payload), length-append (id_bytes p) payload)

      size :
          publish_len p + remaininglen_offset (publish_len p)
          ≡ 1
            + (length (mqtt_encode_length (length (publish_body p topic payload)))
                + (2 + (length topic + (length (id_bytes p) + length payload))))
      size =
          rw publish_len-body
            (omega (arith, parts, offset-encoded_size (length (publish_body p topic payload))))
