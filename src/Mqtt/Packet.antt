-- ===== src/Mqtt/Packet.antt =====
-- The packet structures of mqtt.h. A header is its byte; the bit fields are read from it in the
-- order of a little-endian machine, lowest first. A `char *` is the memory that it points to, its
-- terminating NUL included, and NULL is `none`.
use mqttbroker.Base.{ℕ, ◌+◌, ◌*◌, ◌/◌, ◌%◌, Option, List}

abbrev pub mqtt_header_len : ℕ
mqtt_header_len = 2

abbrev pub mqtt_ack_len : ℕ
mqtt_ack_len = 4

-- enum packet_type
abbrev pub connect_type : ℕ
connect_type = 1

abbrev pub connack_type : ℕ
connack_type = 2

abbrev pub publish_type : ℕ
publish_type = 3

abbrev pub subscribe_type : ℕ
subscribe_type = 8

abbrev pub suback_type : ℕ
suback_type = 9

abbrev pub unsubscribe_type : ℕ
unsubscribe_type = 10

abbrev pub unsuback_type : ℕ
unsuback_type = 11

abbrev pub pingreq_type : ℕ
pingreq_type = 12

abbrev pub pingresp_type : ℕ
pingresp_type = 13

abbrev pub disconnect_type : ℕ
disconnect_type = 14

-- enum qos_level
abbrev pub at_most_once : ℕ
at_most_once = 0

abbrev pub at_least_once : ℕ
at_least_once = 1

abbrev pub exactly_once : ℕ
exactly_once = 2

-- union mqtt_header
abbrev pub MqttHeader : Type 0
MqttHeader = ℕ

abbrev pub retain_bit : MqttHeader → ℕ
retain_bit byte = byte % 2

abbrev pub qos_bits : MqttHeader → ℕ
qos_bits byte = byte / 2 % 4

abbrev pub dup_bit : MqttHeader → ℕ
dup_bit byte = byte / 8 % 2

abbrev pub type_bits : MqttHeader → ℕ
type_bits byte = byte / 16 % 16

-- `header.bits.qos = qos`
abbrev pub set_qos : MqttHeader → ℕ → MqttHeader
set_qos byte qos = byte / 8 * 8 + qos % 4 * 2 + byte % 2

-- struct mqtt_connect
pub record MqttConnect : Type 0 where
  pub header : MqttHeader
  pub byte : ℕ
  pub keepalive : ℕ
  pub client_id : Option (List ℕ)
  pub username : Option (List ℕ)
  pub password : Option (List ℕ)
  pub will_topic : Option (List ℕ)
  pub will_message : Option (List ℕ)

-- The bit fields of the connect flags.
abbrev pub clean_session_bit : ℕ → ℕ
clean_session_bit byte = byte / 2 % 2

abbrev pub will_bit : ℕ → ℕ
will_bit byte = byte / 4 % 2

abbrev pub password_bit : ℕ → ℕ
password_bit byte = byte / 64 % 2

abbrev pub username_bit : ℕ → ℕ
username_bit byte = byte / 128 % 2

-- struct mqtt_connack
pub record MqttConnack : Type 0 where
  pub header : MqttHeader
  pub byte : ℕ
  pub rc : ℕ

-- An element of `tuples` of struct mqtt_subscribe.
pub record SubscribeTuple : Type 0 where
  pub topic_len : ℕ
  pub topic : List ℕ
  pub qos : ℕ

-- struct mqtt_subscribe
pub record MqttSubscribe : Type 0 where
  pub header : MqttHeader
  pub pkt_id : ℕ
  pub tuples_len : ℕ
  pub tuples : List SubscribeTuple

-- An element of `tuples` of struct mqtt_unsubscribe.
pub record UnsubscribeTuple : Type 0 where
  pub topic_len : ℕ
  pub topic : List ℕ

-- struct mqtt_unsubscribe
pub record MqttUnsubscribe : Type 0 where
  pub header : MqttHeader
  pub pkt_id : ℕ
  pub tuples_len : ℕ
  pub tuples : List UnsubscribeTuple

-- struct mqtt_suback
pub record MqttSuback : Type 0 where
  pub header : MqttHeader
  pub pkt_id : ℕ
  pub rcslen : ℕ
  pub rcs : List ℕ

-- struct mqtt_publish
pub record MqttPublish : Type 0 where
  pub header : MqttHeader
  pub pkt_id : ℕ
  pub topiclen : ℕ
  pub topic : List ℕ
  pub payloadlen : ℕ
  pub payload : List ℕ

-- struct mqtt_ack
pub record MqttAck : Type 0 where
  pub header : MqttHeader
  pub pkt_id : ℕ

-- union mqtt_packet, with the member that is stored
pub data MqttPacket : Type 0 where
  ack : MqttAck → MqttPacket
  header : MqttHeader → MqttPacket
  connect : MqttConnect → MqttPacket
  connack : MqttConnack → MqttPacket
  suback : MqttSuback → MqttPacket
  publish : MqttPublish → MqttPacket
  subscribe : MqttSubscribe → MqttPacket
  unsubscribe : MqttUnsubscribe → MqttPacket
