-- ===== src/Server.antt =====
-- sol/src/server.c: reading a packet from a client, the table of handlers, and the handlers that
-- are modelled.
pub mod Receive
pub mod Publish
pub mod Session
pub mod Subscribe
pub mod Stats
use mqttbroker.Base.{
  ℕ, zero, suc, ◌+◌, ◌-◌, ◌%◌, ◌^◌, bit_and, ◌||◌, Option, none, some, List, [], ◌∷◌, ◌++◌,
  out_of_bounds, null_call, null_deref, bad_index, Run, ok, fault, ◌>>=◌, length, take, drop,
  get_elem?, ltb, ◌==◌, if◌then◌else◌,
}
use mqttbroker.Core.{SolClient}
use mqttbroker.Hashtable.{HashTable, hashtable_del}
use mqttbroker.Network.{Received, Count, count, recv_bytes}
use mqttbroker.Network
use mqttbroker.Mqtt.Length.{mqtt_decode_length}
use mqttbroker.Mqtt.Packet.{MqttHeader, MqttPacket, type_bits, connect_type, disconnect_type}
use mqttbroker.Mqtt.Unpack.{unpack_mqtt_packet}

-- The results of `recv_packet`: the bytes read, with the buffer and `*command`; the three error
-- codes; and the bytes read so far when the connection has been shut down on an error.
pub data RecvPacket : Type 0 where
  read : ℕ → List ℕ → ℕ → RecvPacket
  err_client_dc : RecvPacket
  err_packet_err : RecvPacket
  err_max_req_size : RecvPacket
  shut_down : ℕ → List ℕ → RecvPacket

-- The byte that a call for one byte stored, if its result is positive.
abbrev pub one_byte : Count → List ℕ → Option ℕ
one_byte (count (suc n)) (b ∷ bs) = some b
one_byte result bs = none

-- What is left of old memory behind new bytes written over its start.
abbrev pub overlay : List ℕ → List ℕ → List ℕ
overlay bs old = bs ++ drop (length bs) old

-- The buffer after a packet: its first byte, the first byte of the length, and the body over what
-- the other bytes of the length left there.
abbrev pub stored_packet : ℕ → List ℕ → List ℕ → List ℕ
stored_packet byte length_bytes body =
    byte ∷ (take 1 length_bytes ++ overlay body (drop 1 length_bytes))

abbrev pub read_result : Count → List ℕ → List ℕ → ℕ → RecvPacket
read_result (count n) length_bytes buffer byte = read (1 + length length_bytes + n) buffer byte
read_result Count.error length_bytes buffer byte = shut_down (1 + length length_bytes) buffer

abbrev pub before : ℕ → Option (List ℕ) → Option (List ℕ)
before c none = none
before c (some cs) = some (c ∷ cs)

module _ {S : Type 0} (recv : S → ℕ → Received × S) (max_request_size : ℕ) where
  -- The loop that reads the remaining length; `rounds` is what is left of `buff[4]`, and `none` the
  -- return of `-ERRCLIENTDC`.
  pub recv_length : ℕ → S → Run (Option (List ℕ) × S)
  recv_length zero s = do
    (result, bs, s₁) ← recv_bytes recv s 1
    elim (one_byte result bs) [ none ↦ ok (none, s₁) | some c ↦ fault out_of_bounds ]
  recv_length (suc rounds) s = do
    (result, bs, s₁) ← recv_bytes recv s 1
    let more : ℕ → Run (Option (List ℕ) × S) =
        λ c. (do (later, s₂) ← recv_length rounds s₁; ok (before c later, s₂))
    elim (one_byte result bs) [
      | none ↦ ok (none, s₁)
      | some c ↦ if bit_and c 128 == 0 then ok (some (c ∷ []), s₁) else more c
    ]

  -- The rest of the packet, to the third byte of the buffer on, however long the length is.
  pub recv_rest : ℕ → List ℕ → ℕ → S → Run (RecvPacket × S)
  recv_rest byte length_bytes tlen s = do
    (result, body, s') ← recv_bytes recv s tlen
    let buffer = stored_packet byte length_bytes body
    let done : RecvPacket × S = (read_result result length_bytes buffer byte, s')
    if ltb max_request_size (length buffer) then fault out_of_bounds else ok done

  pub recv_body : ℕ → List ℕ → S → Run (RecvPacket × S)
  recv_body byte length_bytes s = do
    (tlen, _) ← mqtt_decode_length length_bytes
    let rest = recv_rest byte length_bytes tlen s
    if ltb max_request_size tlen then ok (err_max_req_size, s) else rest

  unfoldable pub recv_packet : S → Run (RecvPacket × S)
  unfolding recv_length recv_body recv_rest
  recv_packet s = do
    (result, bs, s₁) ← recv_bytes recv s 1
    let after : ℕ → Run (RecvPacket × S) = λ byte. (do
      (length_bytes, s₂) ← recv_length 4 s₁
      elim length_bytes [ none ↦ ok (err_client_dc, s₂) | some cs ↦ recv_body byte cs s₂ ])
    elim (one_byte result bs) [
      | none ↦ ok (err_client_dc, s₁)
      | some byte ↦
          if ltb disconnect_type byte || ltb byte connect_type
          then ok (err_packet_err, s₁)
          else after byte
    ]

-- The handlers of the table, by name.
pub data Handler : Type 0 where
  connect_handler publish_handler puback_handler pubrec_handler pubrel_handler pubcomp_handler :
      Handler
  subscribe_handler unsubscribe_handler pingreq_handler disconnect_handler : Handler

-- `handlers[15]`: the initialiser has 14 entries, so the last is NULL too.
unfoldable pub handlers : List (Option Handler)
handlers =
    none
    ∷ some connect_handler
    ∷ none
    ∷ some publish_handler
    ∷ some puback_handler
    ∷ some pubrec_handler
    ∷ some pubcomp_handler
    ∷ some subscribe_handler
    ∷ none
    ∷ some unsubscribe_handler
    ∷ none
    ∷ some pingreq_handler
    ∷ none
    ∷ some disconnect_handler
    ∷ none
    ∷ []

-- struct sol_info; the counters are `int` and `long long`, kept as their bits.
pub record SolInfo : Type 0 where
  pub nclients : ℕ
  pub nconnections : ℕ
  pub start_time : ℕ
  pub bytes_recv : ℕ
  pub bytes_sent : ℕ
  pub messages_sent : ℕ
  pub messages_recv : ℕ

-- struct closure: its descriptor, the client, NULL before its CONNECT, and its identifier. The
-- callback is the result of `on_read`.
pub record Closure : Type 0 where
  pub fd : ℕ
  pub obj : Option SolClient
  pub closure_id : List ℕ

-- `cb->obj`, whose `client_id` the handlers log.
unfoldable pub client_of : Closure → Run SolClient
client_of cb = elim cb.obj [ none ↦ fault null_deref | some client ↦ ok client ]

-- The part of the global `sol` and `info` that a read event changes; a closure is stored by its
-- descriptor.
pub record ServerState : Type 0 where
  pub clients : HashTable SolClient
  pub closures : HashTable ℕ
  pub info : SolInfo

-- What a read event ends in: the closure waits for the socket to be writable or readable, it is left
-- alone, or the client is dropped.
pub data AfterRead : Type 0 where
  rearm_write rearm_read idle dropped : AfterRead

abbrev pub rearm_w : ℕ
rearm_w = 1

-- `handlers[hdr.bits.type](cb, &packet)`: the handler that is called.
unfoldable pub handler_at : ℕ → Run Handler
unfolding handlers
handler_at type = elim (get_elem? handlers type) [
  | none ↦ fault bad_index
  | some none ↦ fault null_call
  | some (some h) ↦ ok h
]

-- `info.bytes_recv++`
abbrev pub count_packet : ServerState → ServerState
count_packet st = record {
  clients = st.clients;
  closures = st.closures;
  info = record {
    nclients = st.info.nclients;
    nconnections = st.info.nconnections;
    start_time = st.info.start_time;
    bytes_recv = (st.info.bytes_recv + 1) % 2 ^ 64;
    bytes_sent = st.info.bytes_sent;
    messages_sent = st.info.messages_sent;
    messages_recv = st.info.messages_recv;
  };
}

-- `info.nclients--; info.nconnections--`
abbrev pub count_dropped : SolInfo → SolInfo
count_dropped info = record {
  nclients = (info.nclients + 2 ^ 32 - 1) % 2 ^ 32;
  nconnections = (info.nconnections + 2 ^ 32 - 1) % 2 ^ 32;
  start_time = info.start_time;
  bytes_recv = info.bytes_recv;
  bytes_sent = info.bytes_sent;
  messages_sent = info.messages_sent;
  messages_recv = info.messages_recv;
}

-- The code behind `errdc`: it reads the client's identifier through `cb->obj`.
unfoldable pub drop_client : Closure → ServerState → Run ServerState
drop_client cb st = elim cb.obj [
  | none ↦ fault null_deref
  | some client ↦ ok (record {
    clients = (hashtable_del st.clients client.client_id).0;
    closures = (hashtable_del st.closures cb.closure_id).0;
    info = count_dropped st.info;
  })
]

module _ {S : Type 0} (recv : S → ℕ → Received × S) (max_request_size : ℕ)
    (call : Handler → Closure → MqttPacket → ServerState → Run (ℕ × ServerState)) where
  -- `on_read` from the packet in the buffer on. Both tests compare the result with `REARM_W`.
  unfoldable pub handle_packet : Closure → ServerState → List ℕ → ℕ → Run (AfterRead × ServerState)
  unfolding handler_at
  handle_packet cb st buffer command = do
    (_, packet) ← unpack_mqtt_packet buffer
    handler ← handler_at (type_bits command)
    (rc, st') ← call handler cb packet (count_packet st)
    if rc == rearm_w
        then ok (rearm_write, st')
        else if rc == rearm_w
        then ok (rearm_read, st')
        else ok (idle, st')

  unfoldable pub on_read : Closure → ServerState → S → Run (AfterRead × ServerState)
  unfolding recv_packet handle_packet drop_client
  on_read cb st s = do
    (result, _) ← recv_packet recv max_request_size s
    elim result [
      | read n buffer command ↦ handle_packet cb st buffer command
      | shut_down n buffer ↦ handle_packet cb st buffer 0
      | err_client_dc ↦ ok (idle, st)
      | err_max_req_size ↦ ok (idle, st)
      | err_packet_err ↦ do st' ← drop_client cb st; ok (dropped, st')
    ]
