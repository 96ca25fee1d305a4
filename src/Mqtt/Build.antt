-- ===== src/Mqtt/Build.antt =====
-- The functions of mqtt.c that fill in a packet for a reply (`mqtt_packet_…`).
use mqttbroker.Base.{ℕ, ◌%◌, ◌^◌, List, take}
use mqttbroker.Mqtt.Packet.{MqttHeader, MqttAck, MqttConnack, MqttSuback, MqttPublish}

unfoldable pub mqtt_packet_header : ℕ → MqttHeader
mqtt_packet_header byte = byte

unfoldable pub mqtt_packet_ack : ℕ → ℕ → MqttAck
mqtt_packet_ack byte pkt_id = record { header = byte; pkt_id = pkt_id }

unfoldable pub mqtt_packet_connack : ℕ → ℕ → ℕ → MqttConnack
mqtt_packet_connack byte cflags rc = record { header = byte; byte = cflags; rc = rc }

-- `memcpy(suback->rcs, rcs, rcslen)`
unfoldable pub mqtt_packet_suback : ℕ → ℕ → List ℕ → ℕ → MqttSuback
mqtt_packet_suback byte pkt_id rcs rcslen = record {
  header = byte;
  pkt_id = pkt_id;
  rcslen = rcslen;
  rcs = take rcslen rcs;
}

-- The two `size_t` lengths are stored in an `unsigned short`.
unfoldable pub mqtt_packet_publish : ℕ → ℕ → ℕ → List ℕ → ℕ → List ℕ → MqttPublish
mqtt_packet_publish byte pkt_id topiclen topic payloadlen payload = record {
  header = byte;
  pkt_id = pkt_id;
  topiclen = topiclen % 2 ^ 16;
  topic = topic;
  payloadlen = payloadlen % 2 ^ 16;
  payload = payload;
}
