-- ===== src/Tests/Sessions.antt =====
-- A client that connects and leaves.
use mqttbroker.Base.{ℕ, ◌≡◌, refl, true, none, some, List, [], ◌∷◌, ◌++◌, arith, Returns}
use mqttbroker.Pack.{c_str}
use mqttbroker.Core.{SolClient}
use mqttbroker.Hashtable.{
  HashTable, vacant, hashtable_hash, hashtable_hash_int, hashtable_put, hashtable_get,
  hashtable_del, probe,
}
use mqttbroker.Hashtable.Hash.{crc32, mix}
use mqttbroker.Hashtable.Invariant.{IsTable}
use mqttbroker.Hashtable.Removal.{IsAbsent, hashtable_del-put}
use mqttbroker.Mqtt.Packet.{MqttConnect}
use mqttbroker.Server.{Closure, ServerState, count_dropped, rearm_w}
use mqttbroker.Server.Session.{connack_byte, minus_rearm_w, connect_handler, disconnect_handler}
use mqttbroker.Server.Session.Lifecycle.{connect_handler-lifecycle}

abbrev no_clients : HashTable SolClient
no_clients = record { table_size = 4; size = 0; entries = λ i. vacant }

no_clients-IsTable : IsTable no_clients
no_clients-IsTable = record { nonempty = omega arith; counted = refl }

abbrev identifier : List ℕ
identifier = b'c' ∷ b'1' ∷ []

identifier_place : hashtable_hash no_clients identifier ≡ some 3
unfolding hashtable_hash hashtable_hash_int crc32 mix probe
identifier_place = refl

abbrev someone : SolClient
someone = record { client_id = identifier; fd = 5; subscriptions = [] }

hashtable_del-put_example : Returns (hashtable_put 1 no_clients identifier someone) λ table'.
    ((hashtable_del table' identifier).1 ≡ true)
    × IsAbsent (hashtable_del table' identifier).0 identifier
    × (hashtable_get (hashtable_del table' identifier).0 identifier ≡ none)
hashtable_del-put_example =
    hashtable_del-put 0 no_clients identifier someone 3 no_clients-IsTable (λ i. refl)
      identifier_place

abbrev connection : Closure
connection = record { fd = 5; obj = none; closure_id = b'x' ∷ [] }

abbrev initial : ServerState
initial = record {
  clients = no_clients;
  closures = record { table_size = 4; size = 0; entries = λ i. vacant };
  info = record {
    nclients = 1;
    nconnections = 1;
    start_time = 0;
    bytes_recv = 0;
    bytes_sent = 0;
    messages_sent = 0;
    messages_recv = 0;
  };
}

abbrev connect : MqttConnect
connect = record {
  header = 0x10;
  byte = 2;
  keepalive = 60;
  client_id = some (identifier ++ (0 ∷ []));
  username = none;
  password = none;
  will_topic = none;
  will_message = none;
}

connect_handler-lifecycle_example : Returns (connect_handler 1 connection connect initial) λ r.
    (r.rc ≡ rearm_w)
    × (r.payload ≡ some (connack_byte ∷ 2 ∷ 0 ∷ 0 ∷ []))
    × (hashtable_get r.state.clients identifier ≡ some someone)
    × ((fuel : ℕ) (cb' : Closure)
        → Returns (connect_handler fuel cb' connect r.state) λ again.
          (again.rc ≡ minus_rearm_w)
          × (hashtable_get again.state.clients identifier ≡ none)
          × (again.state.info ≡ count_dropped initial.info))
    × (Returns (disconnect_handler r.closure r.state) λ left.
        (left.rc ≡ minus_rearm_w)
        × (hashtable_get left.state.clients identifier ≡ none)
        × (left.state.info ≡ count_dropped initial.info))
connect_handler-lifecycle_example =
    connect_handler-lifecycle 0 connection connect initial (identifier ++ (0 ∷ [])) identifier refl
      (unfold c_str in refl) 3 no_clients-IsTable (λ i. refl) identifier_place
