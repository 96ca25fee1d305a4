-- ===== src/Tests/Packets.antt =====
-- Packets of mqtt.c.
use mqttbroker.Base.{
  ℕ, ◌+◌, ◌*◌, ◌/◌, ◌%◌, ◌^◌, ◌≤◌, ◌<◌, ◌≡◌, refl, ◌≢◌, inr, none, List, [], ◌∷◌, ◌++◌, map, arith,
  out_of_bounds, out_of_fuel, ok, fault, Returns, length, replicate,
}
use mqttbroker.Pack.{c_str, unpack_u8, unpack_u16, pack_u8, pack_u16, malloc, pack_bytes, write}
use mqttbroker.Pack.RoundTrip.{u16_bytes}
use mqttbroker.Mqtt.Length.{mqtt_encode_length, mqtt_decode_length}
use mqttbroker.Mqtt.Length.RoundTrip.{decode-encode}
use mqttbroker.Mqtt.Length.Limits.{decode_takes}
use mqttbroker.Mqtt.Packet.{MqttPublish, MqttPacket, MqttAck, MqttSuback, MqttConnect, mqtt_ack_len}
use mqttbroker.Mqtt.Pack.{
  pack_mqtt_packet, pack_mqtt_publish, pack_mqtt_suback, remaininglen_offset, publish_len,
  pack_length, pack_publish_id,
}
use mqttbroker.Mqtt.Pack.Publish.{
  Carries, publish_wire, pack_mqtt_publish-wire, offset-encoded_size,
}
use mqttbroker.Mqtt.Pack.Replies.{
  byte_of, pack_mqtt_suback-wire, pack_mqtt_suback_overflows, unpack-pack_ack,
}
use mqttbroker.Mqtt.Unpack.{
  unpack_mqtt_packet, unpack_mqtt_connect, unpack_mqtt_subscribe, unpack_mqtt_unsubscribe,
  unpack_client_id, unpack_optional,
}
use mqttbroker.Mqtt.Unpack.Publish
use mqttbroker.Mqtt.Unpack.Publish.{IsPublish, unpack-publish_wire, unpack-pack_publish}
use mqttbroker.Mqtt.Unpack.Connect
use mqttbroker.Mqtt.Unpack.Connect.{
  ConnectFields, IsConnect, connect_body, connect_wire, unpack_mqtt_connect-wire,
  unpack_mqtt_connect_shifted,
}
use mqttbroker.Mqtt.Unpack.Subscribe.{subscribe_wire, unpack_subscribe-wire_faults}
use mqttbroker.Mqtt.Unpack.Unsubscribe.{
  filter_bytes, unsubscribe_tuple, unpack_mqtt_unsubscribe-wire,
}
use mqttbroker.Mqtt.Unpack.Total.{unpack_mqtt_packet-Ends}

abbrev topic : List ℕ
topic = b'a' ∷ b'/' ∷ []

abbrev payload : List ℕ
payload = b'h' ∷ b'i' ∷ []

-- A PUBLISH with QoS 1.
abbrev message : MqttPublish
message = record {
  header = 0x32;
  pkt_id = 7;
  topiclen = 2;
  topic = topic ++ (0 ∷ []);
  payloadlen = 2;
  payload = payload ++ (0 ∷ []);
}

message-Carries : Carries message topic payload
message-Carries = record {
  topic_text = unfold c_str in refl;
  topic_fits = omega arith;
  topiclen = refl;
  payload_text = unfold c_str in refl;
  payload_fits = omega arith;
  payloadlen = refl;
}

message-IsPublish : IsPublish message topic payload
message-IsPublish = record {
  header_byte = omega arith;
  header_type = refl;
  id_fits = omega arith;
  topic_fits = omega arith;
  body_fits = omega arith;
}

pack_mqtt_publish-wire_example :
    pack_mqtt_publish message ≡ ok (record { out = publish_wire message topic payload; room = 0 })
pack_mqtt_publish-wire_example = pack_mqtt_publish-wire message topic payload message-Carries

-- A payload with a NUL in it is cut there: two bytes of the memory are never written.
nul_in_payload :
    pack_mqtt_publish (record message { payloadlen = 3; payload = 1 ∷ 0 ∷ 2 ∷ 0 ∷ [] })
    ≡ ok (record { out = 0x32 ∷ 9 ∷ 0 ∷ 2 ∷ (topic ++ (0 ∷ 7 ∷ 1 ∷ [])); room = 2 })
unfolding pack_mqtt_publish publish_len pack_u8 pack_length pack_u16 malloc pack_bytes write
    pack_publish_id mqtt_encode_length c_str remaininglen_offset
nul_in_payload = refl

unpack-publish_wire_example :
    unpack_mqtt_packet (publish_wire message topic payload ++ (1 ∷ 2 ∷ []))
    ≡ ok (8, MqttPacket.publish (Publish.received message topic payload))
unpack-publish_wire_example =
    unpack-publish_wire message topic payload message-IsPublish (1 ∷ 2 ∷ [])

decode-encode_example : mqtt_decode_length (mqtt_encode_length 321 ++ (5 ∷ [])) ≡ ok (321, 5 ∷ [])
decode-encode_example = decode-encode 321 (5 ∷ []) (omega arith)

decode_takes_example : (321 < 128 ^ 4) × (1 < 3) × (3 ≤ 1 + 4)
decode_takes_example =
    decode_takes (193 ∷ 2 ∷ 5 ∷ []) 321 (5 ∷ []) (omega arith, (omega arith, (omega arith, tt)))
      (unfold mqtt_decode_length in refl)

offset-encoded_size_example : remaininglen_offset (200 + 2) + 1 ≡ length (mqtt_encode_length 200)
offset-encoded_size_example = offset-encoded_size 200

abbrev puback : MqttAck
puback = record { header = 0x40; pkt_id = 500 }

unpack-pack_ack_example : Returns (pack_mqtt_packet (MqttPacket.ack puback) 4) λ buf.
    (buf.room ≡ 0)
    × (length buf.out ≡ mqtt_ack_len)
    × (unpack_mqtt_packet (buf.out ++ []) ≡ ok (2, MqttPacket.ack puback))
unpack-pack_ack_example =
    unpack-pack_ack puback [] (omega arith) (omega arith) (omega arith) (omega arith)

abbrev suback : MqttSuback
suback = record { header = 0x90; pkt_id = 1; rcslen = 3; rcs = 0 ∷ 1 ∷ 2 ∷ [] }

pack_mqtt_suback-wire_example :
    pack_mqtt_suback suback
    ≡ ok (record { out = 0x90 ∷ 5 ∷ (u16_bytes 1 ++ map byte_of (0 ∷ 1 ∷ 2 ∷ [])); room = 0 })
pack_mqtt_suback-wire_example = pack_mqtt_suback-wire suback refl (omega arith)

abbrev long_suback : MqttSuback
long_suback = record { header = 0x90; pkt_id = 1; rcslen = 126; rcs = replicate 126 0 }

pack_mqtt_suback_overflows_example : pack_mqtt_suback long_suback ≡ fault out_of_bounds
pack_mqtt_suback_overflows_example =
    pack_mqtt_suback_overflows long_suback refl (omega arith) (omega arith)

-- A CONNECT with a user name.
abbrev fields : ConnectFields
fields = record {
  level = 4;
  flags = 0x82;
  keepalive = 60;
  client_id = b'c' ∷ b'1' ∷ [];
  will_topic = [];
  will_message = [];
  username = b'u' ∷ [];
  password = [];
}

fields-IsConnect : IsConnect fields
fields-IsConnect = record {
  keepalive = omega arith;
  client_id = omega arith;
  will_topic = omega arith;
  will_message = omega arith;
  username = omega arith;
  password = omega arith;
}

unpack_mqtt_connect-wire_example :
    unpack_mqtt_connect (connect_wire fields ++ (7 ∷ [])) 0x10
    ≡ ok (17, MqttPacket.connect (Connect.received 0x10 fields))
unpack_mqtt_connect-wire_example =
    unpack_mqtt_connect-wire 0x10 fields (7 ∷ []) fields-IsConnect (omega arith)

-- A CONNECT with a long client identifier.
abbrev long_fields : ConnectFields
long_fields = record {
  level = 3;
  flags = 2;
  keepalive = 0;
  client_id = replicate 130 b'c';
  will_topic = [];
  will_message = [];
  username = [];
  password = [];
}

abbrev misread : MqttConnect
misread = record {
  header = 0x10;
  byte = 3;
  keepalive = 512;
  client_id = none;
  username = none;
  password = none;
  will_topic = none;
  will_message = none;
}

misread_run :
    unpack_mqtt_connect (connect_wire long_fields ++ []) 0x10 ≡ ok (142, MqttPacket.connect misread)
unfolding unpack_mqtt_connect mqtt_encode_length mqtt_decode_length unpack_u8 unpack_u16
    unpack_client_id unpack_optional
misread_run = refl

unpack_mqtt_connect_shifted_example :
    (misread.byte ≡ 3) × (misread.keepalive ≡ 2 * 256 + 0 / 256 % 256)
unpack_mqtt_connect_shifted_example =
    unpack_mqtt_connect_shifted 0x10 142 long_fields [] misread (omega arith) (omega arith)
      misread_run

unpack_mqtt_unsubscribe-wire_example :
    unpack_mqtt_unsubscribe
      (mqtt_encode_length 6 ++ (u16_bytes 9 ++ (filter_bytes (topic ∷ []) ++ (3 ∷ []))))
      0xA2
    ≡ ok (
      6,
      MqttPacket.unsubscribe (record {
        header = 0xA2;
        pkt_id = 9;
        tuples_len = 1;
        tuples = unsubscribe_tuple topic ∷ [];
      }),
    )
unpack_mqtt_unsubscribe-wire_example =
    unpack_mqtt_unsubscribe-wire 0xA2 9 (topic ∷ []) (3 ∷ []) (omega arith) (omega arith, tt)
      (omega arith)

unpack_subscribe-wire_faults_example :
    unpack_mqtt_subscribe (subscribe_wire 9 ((topic, 1) ∷ []) ++ replicate 100 0) 0x82
    ≡ fault out_of_bounds
unpack_subscribe-wire_faults_example =
    unpack_subscribe-wire_faults 0x82 9 (omega arith) ((topic, 1) ∷ []) (replicate 100 0)
      (omega arith, tt) (omega arith) (inr (refl, omega arith))

unpack_mqtt_packet-Ends_example : unpack_mqtt_packet (0x82 ∷ 5 ∷ []) ≢ fault out_of_fuel
unpack_mqtt_packet-Ends_example = unpack_mqtt_packet-Ends (0x82 ∷ 5 ∷ [])
