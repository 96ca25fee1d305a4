-- ===== src/Server/Publish/Message.antt =====
-- The message that a subscriber is sent: the packet of the standard with the subscriber's QoS.
use mqttbroker.Base.{
  ℕ, ◌+◌, ◌%◌, ◌^◌, ◌≤◌, ◌<◌, ◌≡◌, refl, sym, ap, ◌∙◌, true, List, [], ◌∷◌, ◌++◌, map, arith,
  out_of_bounds, ok, fault, Returns, length, take, length-append, ltb, leb, ◌==◌, if◌then◌else◌,
}
use mqttbroker.Mqtt.Length.{mqtt_encode_length}
use mqttbroker.Mqtt.Packet.{
  MqttPublish, MqttPacket, qos_bits, type_bits, set_qos, at_most_once, publish_type,
}
use mqttbroker.Mqtt.Pack.{pack_mqtt_packet, pack_mqtt_publish, publish_len, remaininglen_offset}
use mqttbroker.Mqtt.Pack.Publish.{
  Carries, id_bytes, publish_body, publish_wire, pack_mqtt_publish-wire, publish_len-body,
  offset-encoded_size,
}
use mqttbroker.Mqtt.Unpack.{unpack_mqtt_packet}
use mqttbroker.Mqtt.Unpack.Publish.{IsPublish, received, unpack-publish_wire}
use mqttbroker.Core.{Subscriber}
use mqttbroker.Server.Publish.{with_qos, publen, forward, Message}

take_all : (xs : List ℕ) → take (length xs) xs ≡ xs
take_all [] = refl
take_all (x ∷ xs) = ap (λ ys. x ∷ ys) (take_all xs)

send_whole :
    (n : ℕ) (xs : List ℕ)
    → n ≡ length xs
    → (if leb n (length xs) then ok (take n xs) else fault out_of_bounds) ≡ ok xs
send_whole n xs e =
    let fits : leb (length xs) (length xs) ≡ true = ground arith in rw (e, fits, take_all xs)

-- The server computes the size of the message as the packing did.
publen-publish_len :
    (p : MqttPublish) → publen p ≡ publish_len p + remaininglen_offset (publish_len p)
unfolding publen publish_len remaininglen_offset
publen-publish_len p = ground arith

module _ (p : MqttPublish) (topic payload : List ℕ) (c : Carries p topic payload) where
  length-publish_wire : length (publish_wire p topic payload) ≡ publen p
  length-publish_wire =
      let body = publish_body p topic payload in
      let len = publish_len-body p topic payload c in
      let off : remaininglen_offset (publish_len p) + 1
          ≡ length (mqtt_encode_length (length body)) =
        rw len (offset-encoded_size (length body)) in
      rw (publen-publish_len p, length-append (mqtt_encode_length (length body)) body)
        (omega (arith, len, off))

  packed : pack_mqtt_packet (MqttPacket.publish p) publish_type ≡ pack_mqtt_publish p
  unfolding pack_mqtt_packet
  packed = refl

  -- All bytes of the packed message are sent, and no others.
  pub forward-wire : forward p ≡ ok (publish_wire p topic payload)
  unfolding forward
  forward-wire =
      rw (packed, pack_mqtt_publish-wire p topic payload c)
        (send_whole (publen p) (publish_wire p topic payload) (sym length-publish_wire))

set_qos_twice : (h a b : ℕ) → set_qos (set_qos h a) b ≡ set_qos h b
set_qos_twice h a b = omega arith

with_qos_twice : (p : MqttPublish) (a b : ℕ) → with_qos (with_qos p a) b ≡ with_qos p b
with_qos_twice p a b =
    ap
      (λ (h : ℕ). record {
        header = h;
        pkt_id = p.pkt_id;
        topiclen = p.topiclen;
        topic = p.topic;
        payloadlen = p.payloadlen;
        payload = p.payload;
      })
      (set_qos_twice p.header a b)

-- The message for a subscriber: the packet with the subscriber's QoS.
abbrev pub message_for : MqttPublish → List ℕ → List ℕ → Subscriber → Message
message_for p topic payload sub = (sub.client.fd, publish_wire (with_qos p sub.qos) topic payload)

pub Carries-with_qos :
    (p : MqttPublish) (topic payload : List ℕ) (q : ℕ)
    → Carries p topic payload
    → Carries (with_qos p q) topic payload
Carries-with_qos p topic payload q c = record {
  topic_text = c.topic_text;
  topic_fits = c.topic_fits;
  topiclen = c.topiclen;
  payload_text = c.payload_text;
  payload_fits = c.payload_fits;
  payloadlen = c.payloadlen;
}

pub messages_after :
    (p : MqttPublish) (topic payload : List ℕ) (q : ℕ) (subs : List Subscriber)
    → map (message_for (with_qos p q) topic payload) subs ≡ map (message_for p topic payload) subs
messages_after p topic payload q [] = refl
messages_after p topic payload q (sub ∷ subs) =
    ap
      (λ (r : MqttPublish).
        (sub.client.fd, publish_wire r topic payload)
        ∷ map (message_for (with_qos p q) topic payload) subs)
      (with_qos_twice p q sub.qos)
    ∙ ap (λ ms. message_for p topic payload sub ∷ ms) (messages_after p topic payload q subs)

-- What a subscriber with a QoS of at most 2 is sent of a PUBLISH, whose topic and payload are shorter
-- than 2 ^ 16 bytes and have no NUL in them, is parsed back: by the broker's own parser it is a
-- PUBLISH with the subscriber's QoS, the topic and the payload of the packet that was received, and
-- with the packet identifier where the subscriber's QoS has one, whatever follows it.
pub unpack-message_for :
    (p : MqttPublish) (topic payload rest : List ℕ) (sub : Subscriber)
    → Carries p topic payload
    → p.header < 256
    → type_bits p.header ≡ publish_type
    → p.pkt_id < 2 ^ 16
    → sub.qos ≤ 2
    → Returns (unpack_mqtt_packet ((message_for p topic payload sub).1 ++ rest)) λ (_, q).
      (q
        ≡ MqttPacket.publish (record {
          header = set_qos p.header sub.qos;
          pkt_id = if sub.qos == at_most_once then 0 else p.pkt_id;
          topiclen = length topic;
          topic = topic ++ (0 ∷ []);
          payloadlen = length payload;
          payload = payload ++ (0 ∷ []);
        }))
      × (qos_bits (set_qos p.header sub.qos) ≡ sub.qos)
unpack-message_for p topic payload rest sub c small type id qos =
    let p' = with_qos p sub.qos in
    let is : IsPublish p' topic payload = record {
      header_byte = omega arith;
      header_type = omega arith;
      id_fits = id;
      topic_fits = c.topic_fits;
      body_fits = body p';
    } in
    let bits : qos_bits p'.header ≡ sub.qos = omega arith in
    let whole : length payload % 2 ^ 16 ≡ length payload = omega (arith, c.payload_fits) in
    let pkt_id : (if ltb at_most_once (qos_bits p'.header) then p.pkt_id else 0)
        ≡ (if sub.qos == at_most_once then 0 else p.pkt_id) =
      ground (arith, bits) in
    (
      (length (publish_body p' topic payload), MqttPacket.publish (received p' topic payload)),
      unpack-publish_wire p' topic payload is rest,
      (
        rw (whole, take_all payload)
            (ap
              (λ (i : ℕ). MqttPacket.publish (record {
                header = p'.header;
                pkt_id = i;
                topiclen = length topic;
                topic = topic ++ (0 ∷ []);
                payloadlen = length payload;
                payload = payload ++ (0 ∷ []);
              }))
              pkt_id),
        bits,
      ),
    )
  where
    body : (p' : MqttPublish) → length (publish_body p' topic payload) < 128 ^ 4
    body p' = ground (
      arith,
      c.topic_fits,
      c.payload_fits,
      length-append topic (id_bytes p' ++ payload),
      length-append (id_bytes p') payload,
    )
