-- ===== src/Server/Session.antt =====
-- `connect_handler` and `disconnect_handler` of sol/src/server.c: the clients that the server knows.
pub mod Lifecycle
use mqttbroker.Base.{
  ℕ, zero, suc, ◌-◌, ◌^◌, Option, none, some, List, [], null_deref, Run, ok, fault, ◌>>=◌, take,
  if◌then◌else◌,
}
use mqttbroker.Pack.{Buffer, c_str}
use mqttbroker.Core.{SolClient}
use mqttbroker.Hashtable.{HashTable, hashtable_put, hashtable_del, hashtable_exists}
use mqttbroker.Mqtt.Packet
use mqttbroker.Mqtt.Packet.{MqttConnect, MqttPacket, connack_type, mqtt_ack_len}
use mqttbroker.Mqtt.Build.{mqtt_packet_connack}
use mqttbroker.Mqtt.Pack.{pack_mqtt_packet}
use mqttbroker.Server.{Closure, ServerState, count_dropped, rearm_w, drop_client}

abbrev pub connack_byte : ℕ
connack_byte = 0x20

-- `-REARM_W`, as the bits of an `int`
abbrev pub minus_rearm_w : ℕ
minus_rearm_w = 2 ^ 32 - 1

-- After a handler: its result, the closure, `cb->payload`, and the server's state.
pub record Handled : Type 0 where
  pub rc : ℕ
  pub closure : Closure
  pub payload : Option (List ℕ)
  pub state : ServerState

-- `pkt->connect.payload.client_id` as a string; the hash table asserts that it is not NULL.
unfoldable pub client_key : Option (List ℕ) → Run (List ℕ)
client_key none = fault null_deref
client_key (some mem) = c_str mem

-- The identifier is there already: its client and the closure are taken out.
unfoldable pub refuse_double : Closure → ServerState → List ℕ → Handled
refuse_double cb st key = record {
  rc = minus_rearm_w;
  closure = cb;
  payload = none;
  state = record {
    clients = (hashtable_del st.clients key).0;
    closures = (hashtable_del st.closures cb.closure_id).0;
    info = count_dropped st.info;
  };
}

-- `cb->obj = new_client`
abbrev pub with_client : Closure → SolClient → Closure
with_client cb client = record { fd = cb.fd; obj = some client; closure_id = cb.closure_id }

abbrev pub with_clients : ServerState → HashTable SolClient → ServerState
with_clients st clients = record { clients = clients; closures = st.closures; info = st.info }

-- A new client is put under its identifier, and CONNACK left in `cb->payload`.
unfoldable pub accept_client : ℕ → Closure → ServerState → List ℕ → Run Handled
accept_client fuel cb st key = do
  let client : SolClient = record { client_id = key; fd = cb.fd; subscriptions = [] }
  clients ← hashtable_put fuel st.clients key client
  packed ← pack_mqtt_packet (MqttPacket.connack (mqtt_packet_connack connack_byte 0 0)) connack_type
  ok (record {
    rc = rearm_w;
    closure = with_client cb client;
    payload = some (take mqtt_ack_len packed.out);
    state = with_clients st clients;
  })

-- `fuel` is that of `hashtable_put`.
unfoldable pub connect_handler : ℕ → Closure → MqttConnect → ServerState → Run Handled
unfolding client_key refuse_double accept_client
connect_handler fuel cb pkt st = do
  key ← client_key pkt.client_id
  let accepted = accept_client fuel cb st key
  if hashtable_exists st.clients key then ok (refuse_double cb st key) else accepted

-- The client is read through `cb->obj`, and it and the closure are taken out.
unfoldable pub disconnect_handler : Closure → ServerState → Run Handled
unfolding drop_client
disconnect_handler cb st = do
  st' ← drop_client cb st
  ok (record { rc = minus_rearm_w; closure = cb; payload = none; state = st' })
