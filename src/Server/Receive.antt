-- ===== src/Server/Receive.antt =====
-- Which packets the server takes from a client: the first byte of a packet is compared with the
-- packet types, which stand in its upper half.
use mqttbroker.Base.{
  ap, ◌∙◌, ℕ, zero, suc, ◌≤◌, ◌<◌, ◌≡◌, refl, ◌≢◌, ◌↔◌, ◌⊎◌, inl, inr, Bool, true, false, ◌||◌,
  Option, none, some, List, [], ◌∷◌, arith, Fault, out_of_bounds, Run, ok, fault, ◌>>=◌, >>=-eq-ok,
  length, get_elem?, ltb, if◌then◌else◌,
}
use mathlib.Core.Path.{subst}
use mqttbroker.Network.{Received, Count, count, recv_bytes}
use mqttbroker.Mqtt.Length.{mqtt_decode_length}
use mqttbroker.Mqtt.Packet.{MqttPacket, type_bits, connect_type, disconnect_type}
use mqttbroker.Mqtt.Unpack.{unpack_mqtt_packet}
use mqttbroker.Server.{
  Closure, ServerState, drop_client, RecvPacket, read, err_client_dc, err_packet_err,
  err_max_req_size, shut_down, one_byte, stored_packet, read_result, recv_length, recv_rest,
  recv_body, recv_packet, Handler, handlers, handler_at, AfterRead, idle, dropped, handle_packet,
  on_read,
}

abbrev Low : RecvPacket → Type 0
Low (read n buffer command) = command < 16
Low err_client_dc = Unit
Low err_packet_err = Unit
Low err_max_req_size = Unit
Low (shut_down n buffer) = Unit

read_result-Low :
    (result : Count) (cs buffer : List ℕ) (byte : ℕ)
    → byte < 16
    → Low (read_result result cs buffer byte)
read_result-Low (count n) cs buffer byte h = h
read_result-Low Count.error cs buffer byte h = tt

-- A packet whose command has the type 0 has no handler.
handle_packet-fails :
    {S : Type 0} (recv : S → ℕ → Received × S) (max : ℕ)
    (call : Handler → Closure → MqttPacket → ServerState → Run (ℕ × ServerState)) (cb : Closure)
    (st : ServerState) (buffer : List ℕ) (command : ℕ) (a : AfterRead × ServerState)
    → command < 16
    → handle_packet recv max call cb st buffer command ≢ ok a
unfolding handle_packet
handle_packet-fails recv max call cb st buffer command a h e =
    let type : type_bits command ≡ 0 = omega arith in
    let (packet, _, rest) = >>=-eq-ok (unpack_mqtt_packet buffer) _ e in
    let (handler, at, _) = >>=-eq-ok (handler_at (type_bits command)) _ rest in
    absurd (unfold handler_at handlers in cc (rw type at at))

module _ {S : Type 0} (recv : S → ℕ → Received × S) (max_request_size : ℕ) where
  -- Once the first byte has come in, a packet of any type from 1 to 15 is refused: nothing more is
  -- read, and the result is `-ERRPACKETERR`.
  pub recv_packet-refuses :
      (s s' : S) (byte : ℕ)
      → recv_bytes recv s 1 ≡ ok (count 1, byte ∷ [], s')
      → byte < 256
      → 1 ≤ type_bits byte
      → recv_packet recv max_request_size s ≡ ok (err_packet_err, s')
  unfolding recv_packet
  recv_packet-refuses s s' byte got small h =
      let bad : (ltb disconnect_type byte || ltb byte connect_type) ≡ true = ground arith in
      rw (got, bad)

  -- The command of a packet that is read has the type 0.
  abbrev Lows : Run (RecvPacket × S) → Type 0
  Lows m = (r : RecvPacket) (s' : S) → m ≡ ok (r, s') → Low r

  Lows-ok : (r : RecvPacket) (s : S) → Low r → Lows (ok (r, s))
  Lows-ok r s h r' s' e = let same : r ≡ r' = cc in subst Low same h

  Lows-fault : (x : Fault) → Lows (fault x)
  Lows-fault x r s e = absurd (cc)

  Lows-bind :
      {A : Type 0} (m : Run A) (f : A → Run (RecvPacket × S))
      → ((a : A) → Lows (f a))
      → Lows (m >>= f)
  Lows-bind m f h r s' e = let (a, _, rest) = >>=-eq-ok m f e in h a r s' rest

  Lows-if :
      (b : Bool) (m n : Run (RecvPacket × S))
      → (b ≡ true → Lows m)
      → (b ≡ false → Lows n)
      → Lows (if b then m else n)
  Lows-if true m n h k = h refl
  Lows-if false m n h k = k refl

  recv_rest-Low :
      (byte : ℕ) (cs : List ℕ) (tlen : ℕ) (s : S)
      → byte < 16
      → Lows (recv_rest recv max_request_size byte cs tlen s)
  unfolding recv_rest
  recv_rest-Low byte cs tlen s h = Lows-bind (recv_bytes recv s tlen) _ λ t.
      let buffer = stored_packet byte cs t.1 in
      Lows-if (ltb max_request_size (length buffer)) _ (ok (read_result t.0 cs buffer byte, t.2))
        (λ c. Lows-fault out_of_bounds) (λ c. Lows-ok _ t.2 (read_result-Low t.0 cs buffer byte h))

  recv_body-Low :
      (byte : ℕ) (cs : List ℕ) (s : S)
      → byte < 16
      → Lows (recv_body recv max_request_size byte cs s)
  unfolding recv_body
  recv_body-Low byte cs s h = Lows-bind (mqtt_decode_length cs) _ λ l.
      Lows-if (ltb max_request_size l.0) _ (recv_rest recv max_request_size byte cs l.0 s)
        (λ b. Lows-ok err_max_req_size s tt) (λ b. recv_rest-Low byte cs l.0 s h)

  body_if_any :
      (byte : ℕ) (cs : Option (List ℕ)) (s : S)
      → byte < 16
      → Lows (elim cs [
        | none ↦ ok (err_client_dc, s)
        | some cs ↦ recv_body recv max_request_size byte cs s
      ])
  body_if_any byte none s h = Lows-ok err_client_dc s tt
  body_if_any byte (some cs) s h = recv_body-Low byte cs s h

  packet_if_any :
      (first : Option ℕ) (s : S)
      → Lows (elim first [
        | none ↦ ok (err_client_dc, s)
        | some byte ↦
            if ltb disconnect_type byte || ltb byte connect_type
            then ok (err_packet_err, s)
            else recv_length recv max_request_size 4 s >>= λ l. elim l.0 [
              | none ↦ ok (err_client_dc, l.1)
              | some cs ↦ recv_body recv max_request_size byte cs l.1
            ]
      ])
  packet_if_any none s = Lows-ok err_client_dc s tt
  packet_if_any (some byte) s =
      Lows-if (ltb disconnect_type byte || ltb byte connect_type) _ _
        (λ b. Lows-ok err_packet_err s tt)
        (λ b.
          Lows-bind (recv_length recv max_request_size 4 s) _
            λ l. body_if_any byte l.0 l.1 (ground (arith, b)))

  recv_packet-Low : (s : S) → Lows (recv_packet recv max_request_size s)
  unfolding recv_packet
  recv_packet-Low s = Lows-bind (recv_bytes recv s 1) _ λ t. packet_if_any (one_byte t.0 t.1) t.2

  -- `on_read` never gets to waiting for the socket again: when it returns at all, it has left the
  -- closure and the server's state alone, or dropped the client, whatever came in and whatever the
  -- handlers do.
  pub on_read-never_rearms :
      (call : Handler → Closure → MqttPacket → ServerState → Run (ℕ × ServerState)) (cb : Closure)
      (st st' : ServerState) (s : S) (a : AfterRead)
      → on_read recv max_request_size call cb st s ≡ ok (a, st')
      → ((a ≡ idle) × (st ≡ st')) ⊎ ((a ≡ dropped) × (drop_client cb st ≡ ok st'))
  unfolding on_read
  on_read-never_rearms call cb st st' s a e =
      let ((r, s'), got, rest) = >>=-eq-ok (recv_packet recv max_request_size s) _ e in
      after r (recv_packet-Low s r s' got) rest
    where
      after :
          (r : RecvPacket)
          → Low r
          → elim r [
            | read n buffer command ↦ handle_packet recv max_request_size call cb st buffer command
            | shut_down n buffer ↦ handle_packet recv max_request_size call cb st buffer 0
            | err_client_dc ↦ ok (idle, st)
            | err_max_req_size ↦ ok (idle, st)
            | err_packet_err ↦ drop_client cb st >>= λ st'. ok (dropped, st')
          ]
            ≡ ok (a, st')
          → ((a ≡ idle) × (st ≡ st')) ⊎ ((a ≡ dropped) × (drop_client cb st ≡ ok st'))
      after (read n buffer command) low q =
          absurd
            (handle_packet-fails recv max_request_size call cb st buffer command (a, st') low q)
      after (shut_down n buffer) low q =
          absurd
            (handle_packet-fails recv max_request_size call cb st buffer 0 (a, st') (omega arith) q)
      after err_client_dc low q = inl (cc q, cc q)
      after err_max_req_size low q = inl (cc q, cc q)
      after err_packet_err low q =
          let (st₁, d, q') = >>=-eq-ok (drop_client cb st) _ q in
          let same : st₁ ≡ st' = cc q' in inr (cc q', d ∙ ap ok same)

-- The table by the packet types of the protocol.
abbrev meant_handlers : List (Option Handler)
meant_handlers =
    none
    ∷ some Handler.connect_handler
    ∷ none
    ∷ some Handler.publish_handler
    ∷ some Handler.puback_handler
    ∷ some Handler.pubrec_handler
    ∷ some Handler.pubrel_handler
    ∷ some Handler.pubcomp_handler
    ∷ some Handler.subscribe_handler
    ∷ none
    ∷ some Handler.unsubscribe_handler
    ∷ none
    ∷ some Handler.pingreq_handler
    ∷ none
    ∷ some Handler.disconnect_handler
    ∷ []

-- A type of packet that a client sends is given to the handler named for it.
abbrev pub Served : ℕ → Type 0
Served type =
    (h : Handler) × (handler_at type ≡ ok h) × (get_elem? meant_handlers type ≡ some (some h))

-- Of all packet types only CONNECT, PUBLISH, PUBACK and PUBREC are given to their handlers: no
-- PUBREL, PUBCOMP, SUBSCRIBE, UNSUBSCRIBE, PINGREQ or DISCONNECT is.
pub handlers-Served : (type : ℕ) → Served type ↔ ((type ≡ 1) ⊎ ((3 ≤ type) × (type ≤ 5)))
unfolding handler_at handlers
handlers-Served zero = (λ p. absurd (cc p.1), λ p. absurd (ground arith))
handlers-Served (suc zero) = (λ p. inl refl, λ p. (Handler.connect_handler, refl, refl))
handlers-Served (suc (suc zero)) = (λ p. absurd (cc p.1), λ p. absurd (ground arith))
handlers-Served (suc (suc (suc zero))) =
    (λ p. inr (omega arith, omega arith), λ p. (Handler.publish_handler, refl, refl))
handlers-Served (suc (suc (suc (suc zero)))) =
    (λ p. inr (omega arith, omega arith), λ p. (Handler.puback_handler, refl, refl))
handlers-Served (suc (suc (suc (suc (suc zero))))) =
    (λ p. inr (omega arith, omega arith), λ p. (Handler.pubrec_handler, refl, refl))
handlers-Served (suc (suc (suc (suc (suc (suc zero)))))) =
    (λ p. absurd (cc (p.1, p.2)), λ p. absurd (ground arith))
handlers-Served (suc (suc (suc (suc (suc (suc (suc zero))))))) =
    (λ p. absurd (cc (p.1, p.2)), λ p. absurd (ground arith))
handlers-Served (suc (suc (suc (suc (suc (suc (suc (suc zero)))))))) =
    (λ p. absurd (cc p.1), λ p. absurd (ground arith))
handlers-Served (suc (suc (suc (suc (suc (suc (suc (suc (suc zero))))))))) =
    (λ p. absurd (cc p.2), λ p. absurd (ground arith))
handlers-Served (suc (suc (suc (suc (suc (suc (suc (suc (suc (suc zero)))))))))) =
    (λ p. absurd (cc p.1), λ p. absurd (ground arith))
handlers-Served (suc (suc (suc (suc (suc (suc (suc (suc (suc (suc (suc zero))))))))))) =
    (λ p. absurd (cc p.2), λ p. absurd (ground arith))
handlers-Served (suc (suc (suc (suc (suc (suc (suc (suc (suc (suc (suc (suc zero)))))))))))) =
    (λ p. absurd (cc p.1), λ p. absurd (ground arith))
handlers-Served (suc (suc (suc (suc (suc (suc (suc (suc (suc (suc (suc (suc (suc zero))))))))))))) =
    (λ p. absurd (cc p.2), λ p. absurd (ground arith))
handlers-Served
      (suc (suc (suc (suc (suc (suc (suc (suc (suc (suc (suc (suc (suc (suc zero)))))))))))))) =
    (λ p. absurd (cc p.1), λ p. absurd (ground arith))
handlers-Served
      (suc
        (suc (suc (suc (suc (suc (suc (suc (suc (suc (suc (suc (suc (suc (suc zero))))))))))))))) =
    (λ p. absurd (cc p.1), λ p. absurd (ground arith))
handlers-Served
      (suc (
        suc
          (suc (suc (suc (suc (suc (suc (suc (suc (suc (suc (suc (suc (suc (suc n)))))))))))))))) =
    (λ p. absurd (cc p.1), λ p. absurd (ground arith))
