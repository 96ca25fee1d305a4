-- ===== src/Server/Session/Lifecycle.antt =====
-- A client that connects, connects once more under its identifier, or disconnects.
use mqttbroker.Base.{
  ℕ, suc, ◌≡◌, refl, ap, ◌∙◌, true, false, none, some, List, [], ◌∷◌, ok, Returns,
}
use mathlib.Core.Path.{subst}
use mqttbroker.Pack.{c_str}
use mqttbroker.Core.{SolClient}
use mqttbroker.Hashtable.{
  HashTable, hashtable_hash, hashtable_put, hashtable_get, hashtable_del, hashtable_exists,
}
use mqttbroker.Hashtable.Invariant.{IsTable}
use mqttbroker.Hashtable.Lookup.{hashtable_get-put}
use mqttbroker.Hashtable.Removal.{IsAbsent, IsAbsent-NoLonger, get-IsAbsent, hashtable_del-put}
use mqttbroker.Mqtt.Packet.{MqttConnect, MqttPacket, connack_type}
use mqttbroker.Mqtt.Build.{mqtt_packet_connack}
use mqttbroker.Mqtt.Pack.{pack_mqtt_packet}
use mqttbroker.Mqtt.Pack.Replies.{pack_mqtt_connack-wire}
use mqttbroker.Server.{Closure, ServerState, count_dropped, rearm_w, drop_client}
use mqttbroker.Server.Session.{
  connack_byte, minus_rearm_w, client_key, refuse_double, with_client, with_clients, accept_client,
  connect_handler, disconnect_handler,
}

exists-get_none :
    {V : Type 0} (table : HashTable V) (key : List ℕ)
    → hashtable_get table key ≡ none
    → hashtable_exists table key ≡ false
unfolding hashtable_exists
exists-get_none table key e = rw (e, hashtable_exists)

exists-get_some :
    {V : Type 0} (table : HashTable V) (key : List ℕ) (val : V)
    → hashtable_get table key ≡ some val
    → hashtable_exists table key ≡ true
unfolding hashtable_exists
exists-get_some table key val e = rw (e, hashtable_exists)

connack_packed :
    pack_mqtt_packet (MqttPacket.connack (mqtt_packet_connack connack_byte 0 0)) connack_type
    ≡ ok (record { out = connack_byte ∷ 2 ∷ 0 ∷ 0 ∷ []; room = 0 })
unfolding pack_mqtt_packet mqtt_packet_connack
connack_packed = pack_mqtt_connack-wire (mqtt_packet_connack connack_byte 0 0)

-- A CONNECT with an identifier that is a string.
module _ (f : ℕ) (cb : Closure) (pkt : MqttConnect) (st : ServerState) (mem key : List ℕ)
    (given : pkt.client_id ≡ some mem) (text : c_str mem ≡ ok key) where
  abbrev pub new_client : SolClient
  new_client = record { client_id = key; fd = cb.fd; subscriptions = [] }

  keyed : client_key pkt.client_id ≡ ok key
  unfolding client_key
  keyed = ap client_key given ∙ text

  accepted :
      (clients : HashTable SolClient)
      → hashtable_get st.clients key ≡ none
      → hashtable_put (suc f) st.clients key new_client ≡ ok clients
      → connect_handler (suc f) cb pkt st
        ≡ ok (record {
          rc = rearm_w;
          closure = with_client cb new_client;
          payload = some (connack_byte ∷ 2 ∷ 0 ∷ 0 ∷ []);
          state = with_clients st clients;
        })
  unfolding connect_handler accept_client
  accepted clients fresh put = rw (keyed, exists-get_none st.clients key fresh, put, connack_packed)

  module _ (index : ℕ) (t : IsTable st.clients) (absent : IsAbsent st.clients key)
      (place : hashtable_hash st.clients key ≡ some index) where
    -- The table with the new client in it.
    stored : Returns (hashtable_put (suc f) st.clients key new_client) λ clients.
        (hashtable_get clients key ≡ some new_client)
        × (hashtable_get (hashtable_del clients key).0 key ≡ none)
    stored =
        let (one, e₁, got) =
          hashtable_get-put f st.clients key new_client index t
            (IsAbsent-NoLonger st.clients key absent) place in
        let (two, e₂, (_, _, gone)) =
          hashtable_del-put f st.clients key new_client index t absent place in
        let same : two ≡ one = cc (e₁, e₂) in
        (one, e₁, (got, subst (λ x. hashtable_get (hashtable_del x key).0 key ≡ none) same gone))

    -- A CONNECT with an identifier that is a string, no key of the clients' table starting with it
    -- and the table having a place for it: `connect_handler` accepts the client, with a CONNACK of
    -- the standard to be written. The client is then found under its identifier. A second CONNECT
    -- with the identifier, on any closure, is refused, and takes the client out; and so does
    -- `disconnect_handler` on the client's closure; both count one client less.
    pub connect_handler-lifecycle : Returns (connect_handler (suc f) cb pkt st) λ r.
        (r.rc ≡ rearm_w)
        × (r.payload ≡ some (connack_byte ∷ 2 ∷ 0 ∷ 0 ∷ []))
        × (hashtable_get r.state.clients key ≡ some new_client)
        × ((fuel : ℕ) (cb' : Closure)
            → Returns (connect_handler fuel cb' pkt r.state) λ again.
              (again.rc ≡ minus_rearm_w)
              × (hashtable_get again.state.clients key ≡ none)
              × (again.state.info ≡ count_dropped st.info))
        × (Returns (disconnect_handler r.closure r.state) λ left.
            (left.rc ≡ minus_rearm_w)
            × (hashtable_get left.state.clients key ≡ none)
            × (left.state.info ≡ count_dropped st.info))
    connect_handler-lifecycle =
        let (clients, put, (got, gone)) = stored in
        let fresh = get-IsAbsent st.clients key absent in
        (
          record {
            rc = rearm_w;
            closure = with_client cb new_client;
            payload = some (connack_byte ∷ 2 ∷ 0 ∷ 0 ∷ []);
            state = with_clients st clients;
          },
          accepted clients fresh put,
          (refl, refl, got, again clients got gone, left clients gone),
        )
      where
        again :
            (clients : HashTable SolClient)
            → hashtable_get clients key ≡ some new_client
            → hashtable_get (hashtable_del clients key).0 key ≡ none
            → (fuel : ℕ) (cb' : Closure)
            → Returns (connect_handler fuel cb' pkt (with_clients st clients)) λ again.
              (again.rc ≡ minus_rearm_w)
              × (hashtable_get again.state.clients key ≡ none)
              × (again.state.info ≡ count_dropped st.info)
        again clients got gone fuel cb' = (
          refuse_double cb' (with_clients st clients) key,
          (unfold connect_handler in rw (keyed, exists-get_some clients key new_client got)),
          (unfold refuse_double in (refl, gone, refl)),
        )

        left :
            (clients : HashTable SolClient)
            → hashtable_get (hashtable_del clients key).0 key ≡ none
            → Returns
                (disconnect_handler (with_client cb new_client) (with_clients st clients))
                λ left.
                  (left.rc ≡ minus_rearm_w)
                  × (hashtable_get left.state.clients key ≡ none)
                  × (left.state.info ≡ count_dropped st.info)
        left clients gone =
            let after : ServerState = record {
              clients = (hashtable_del clients key).0;
              closures = (hashtable_del st.closures cb.closure_id).0;
              info = count_dropped st.info;
            } in
            (
              record {
                rc = minus_rearm_w;
                closure = with_client cb new_client;
                payload = none;
                state = after;
              },
              (unfold disconnect_handler drop_client in refl),
              (refl, gone, refl),
            )
