-- ===== src/Mqtt/Unpack/Total.antt =====
-- The parser ends on every buffer.
use mqttbroker.Base.{
  ℕ, zero, suc, ◌<◌, ◌≡◌, ◌≢◌, inl, inr, Bool, true, false, ◌||◌, List, [], ◌∷◌, arith, out_of_fuel,
  Run, ok, fault, ◌>>=◌, Run-cases, length, drop, get_elem?, ltb, ◌==◌, Bool-cases,
}
use mqttbroker.Pack.{unpack_u8, unpack_u16, unpack_bytes, unpack_string16}
use mqttbroker.Pack.RoundTrip.{unpack_string16_takes, unpack_string16-fault, unpack_bytes-fault}
use mqttbroker.Mqtt.Length.{mqtt_decode_length}
use mqttbroker.Mqtt.Length.Limits.{decode-fault}
use mqttbroker.Mqtt.Packet.{type_bits, disconnect_type, pingreq_type, pingresp_type}
use mqttbroker.Mqtt.Unpack.{
  sub64, unpack_optional, unpack_client_id, unpack_mqtt_connect, unpack_publish_id,
  unpack_mqtt_publish, subscribe_loop, unpack_mqtt_subscribe, unsubscribe_loop,
  unpack_mqtt_unsubscribe, unpack_mqtt_ack, unpack_handlers, call_unpack, unpack_mqtt_packet,
}

-- The run is one of the C code: no loop of the model ran out of rounds.
abbrev pub Ends {ℓ} : {A : Type ℓ} → Run A → Type ℓ
Ends r = r ≢ fault out_of_fuel

module _ {ℓ κ} {A : Type ℓ} {B : Type κ} where
  bind-Ends : (m : Run A) (f : A → Run B) → Ends m → ((a : A) → Ends (f a)) → Ends (m >>= f)
  bind-Ends (ok a) f hm hf = hf a
  bind-Ends (fault x) f hm hf = λ e. hm (cc)

ok-Ends {ℓ} : {A : Type ℓ} (a : A) → Ends (ok a)
ok-Ends a e = cc

unpack_u8-Ends : (buf : List ℕ) → Ends (unpack_u8 buf)
unfolding unpack_u8
unpack_u8-Ends [] e = cc
unpack_u8-Ends (b ∷ buf) e = cc

unpack_u16-Ends : (buf : List ℕ) → Ends (unpack_u16 buf)
unfolding unpack_u16
unpack_u16-Ends [] e = cc
unpack_u16-Ends (hi ∷ []) e = cc
unpack_u16-Ends (hi ∷ lo ∷ buf) e = cc

unpack_string16-Ends : (buf : List ℕ) → Ends (unpack_string16 buf)
unpack_string16-Ends buf e = cc (unpack_string16-fault buf e)

unpack_bytes-Ends : (buf : List ℕ) (len : ℕ) → Ends (unpack_bytes buf len)
unpack_bytes-Ends buf len e = cc (unpack_bytes-fault buf len e)

mqtt_decode_length-Ends : (buf : List ℕ) → Ends (mqtt_decode_length buf)
mqtt_decode_length-Ends buf e = ground (arith, decode-fault buf out_of_fuel e)

unpack_optional-Ends : (flag : Bool) (buf : List ℕ) → Ends (unpack_optional flag buf)
unfolding unpack_optional
unpack_optional-Ends true buf =
    bind-Ends (unpack_string16 buf) _ (unpack_string16-Ends buf) (λ a e. cc)
unpack_optional-Ends false buf = λ e. cc

unpack_client_id-Ends : (n : ℕ) (buf : List ℕ) → Ends (unpack_client_id n buf)
unfolding unpack_client_id
unpack_client_id-Ends zero buf = λ e. cc
unpack_client_id-Ends (suc n) buf =
    let given : ltb 0 (suc n) ≡ true = ground arith in
    rw given (bind-Ends (unpack_bytes buf (suc n)) _ (unpack_bytes-Ends buf (suc n)) (λ a e. cc))

unpack_publish_id-Ends : (hdr : ℕ) (buf : List ℕ) → Ends (unpack_publish_id hdr buf)
unfolding unpack_publish_id
unpack_publish_id-Ends hdr buf e = ground (arith, unpack_u16-Ends buf)

subscribe_loop-Ends :
    (fuel : ℕ) (buf : List ℕ) (n len : ℕ) → length buf < fuel → Ends (subscribe_loop fuel buf n len)
unfolding subscribe_loop unpack_u8
subscribe_loop-Ends zero buf n len h = absurd (omega arith)
subscribe_loop-Ends (suc fuel) buf n len h = elim (Bool-cases (n == 0)) [
  | inl done ↦ rw done (λ e. cc)
  | inr more ↦ elim (Run-cases (unpack_string16 buf)) [
    | inr (x, e) ↦ rw (more, e, unpack_string16-fault buf e) (λ r. cc)
    | inl ((tl, dest, []), e) ↦ rw (more, e) (λ r. cc)
    | inl ((tl, dest, q ∷ rest), e) ↦
        let size = unpack_string16_takes buf tl dest (q ∷ rest) e in
        rw (more, e)
          (bind-Ends (subscribe_loop fuel rest (sub64 (sub64 n 2) tl) (sub64 len 1)) _
            (subscribe_loop-Ends fuel rest (sub64 (sub64 n 2) tl) (sub64 len 1)
              (omega (arith, size)))
            (λ a r. cc))
  ]
]

unsubscribe_loop-Ends :
    (fuel : ℕ) (buf : List ℕ) (n : ℕ) → length buf < fuel → Ends (unsubscribe_loop fuel buf n)
unfolding unsubscribe_loop
unsubscribe_loop-Ends zero buf n h = absurd (omega arith)
unsubscribe_loop-Ends (suc fuel) buf n h = elim (Bool-cases (n == 0)) [
  | inl done ↦ rw done (λ e. cc)
  | inr more ↦ elim (Run-cases (unpack_string16 buf)) [
    | inr (x, e) ↦ rw (more, e, unpack_string16-fault buf e) (λ r. cc)
    | inl ((tl, dest, rest), e) ↦
        let size = unpack_string16_takes buf tl dest rest e in
        rw (more, e)
          (bind-Ends (unsubscribe_loop fuel rest (sub64 (sub64 n 2) tl)) _
            (unsubscribe_loop-Ends fuel rest (sub64 (sub64 n 2) tl) (omega (arith, size)))
            (λ a r. cc))
  ]
]

unpack_mqtt_connect-Ends : (buf : List ℕ) (hdr : ℕ) → Ends (unpack_mqtt_connect buf hdr)
unfolding unpack_mqtt_connect
unpack_mqtt_connect-Ends buf hdr = bind-Ends _ _ (mqtt_decode_length-Ends buf) λ l.
    bind-Ends _ _ (unpack_u8-Ends (drop 8 buf)) λ f. bind-Ends _ _ (unpack_u16-Ends f.1) λ k.
      bind-Ends _ _ (unpack_u16-Ends k.1) λ n. bind-Ends _ _ (unpack_client_id-Ends n.0 n.1) λ c.
        bind-Ends _ _ (unpack_optional-Ends _ c.1) λ t.
          bind-Ends _ _ (unpack_optional-Ends _ t.1) λ m.
            bind-Ends _ _ (unpack_optional-Ends _ m.1)
              λ u. bind-Ends _ _ (unpack_optional-Ends _ u.1) λ p e. cc

unpack_mqtt_publish-Ends : (buf : List ℕ) (hdr : ℕ) → Ends (unpack_mqtt_publish buf hdr)
unfolding unpack_mqtt_publish
unpack_mqtt_publish-Ends buf hdr = bind-Ends _ _ (mqtt_decode_length-Ends buf) λ l.
    bind-Ends _ _ (unpack_string16-Ends l.1) λ t.
      bind-Ends _ _ (unpack_publish_id-Ends hdr t.2)
        λ i. bind-Ends _ _ (unpack_bytes-Ends i.1 _) λ p e. cc

unpack_mqtt_subscribe-Ends : (buf : List ℕ) (hdr : ℕ) → Ends (unpack_mqtt_subscribe buf hdr)
unfolding unpack_mqtt_subscribe
unpack_mqtt_subscribe-Ends buf hdr = bind-Ends _ _ (mqtt_decode_length-Ends buf) λ l.
    bind-Ends _ _ (unpack_u16-Ends l.1) λ i.
      bind-Ends _ _ (subscribe_loop-Ends (suc (length i.1)) i.1 _ _ (omega arith)) λ p. ok-Ends _

unpack_mqtt_unsubscribe-Ends : (buf : List ℕ) (hdr : ℕ) → Ends (unpack_mqtt_unsubscribe buf hdr)
unfolding unpack_mqtt_unsubscribe
unpack_mqtt_unsubscribe-Ends buf hdr = bind-Ends _ _ (mqtt_decode_length-Ends buf) λ l.
    bind-Ends _ _ (unpack_u16-Ends l.1) λ i.
      bind-Ends _ _ (unsubscribe_loop-Ends (suc (length i.1)) i.1 _ (omega arith)) λ p. ok-Ends _

unpack_mqtt_ack-Ends : (buf : List ℕ) (hdr : ℕ) → Ends (unpack_mqtt_ack buf hdr)
unfolding unpack_mqtt_ack
unpack_mqtt_ack-Ends buf hdr =
    bind-Ends _ _ (mqtt_decode_length-Ends buf) λ l. bind-Ends _ _ (unpack_u16-Ends l.1) λ i e. cc

-- Every entry of the table of handlers, and what lies past its end.
call_unpack-Ends :
    (type : ℕ) (buf : List ℕ) (hdr : ℕ)
    → Ends (call_unpack (get_elem? unpack_handlers type) buf hdr)
unfolding call_unpack unpack_handlers
call_unpack-Ends zero buf hdr = λ e. cc
call_unpack-Ends (suc zero) buf hdr = unpack_mqtt_connect-Ends buf hdr
call_unpack-Ends (suc (suc zero)) buf hdr = λ e. cc
call_unpack-Ends (suc (suc (suc zero))) buf hdr = unpack_mqtt_publish-Ends buf hdr
call_unpack-Ends (suc (suc (suc (suc zero)))) buf hdr = unpack_mqtt_ack-Ends buf hdr
call_unpack-Ends (suc (suc (suc (suc (suc zero))))) buf hdr = unpack_mqtt_ack-Ends buf hdr
call_unpack-Ends (suc (suc (suc (suc (suc (suc zero)))))) buf hdr = unpack_mqtt_ack-Ends buf hdr
call_unpack-Ends (suc (suc (suc (suc (suc (suc (suc zero))))))) buf hdr =
    unpack_mqtt_ack-Ends buf hdr
call_unpack-Ends (suc (suc (suc (suc (suc (suc (suc (suc zero)))))))) buf hdr =
    unpack_mqtt_subscribe-Ends buf hdr
call_unpack-Ends (suc (suc (suc (suc (suc (suc (suc (suc (suc zero))))))))) buf hdr = λ e. cc
call_unpack-Ends (suc (suc (suc (suc (suc (suc (suc (suc (suc (suc zero)))))))))) buf hdr =
    unpack_mqtt_unsubscribe-Ends buf hdr
call_unpack-Ends (suc (suc (suc (suc (suc (suc (suc (suc (suc (suc (suc n))))))))))) buf hdr =
    λ e. cc

-- The parser ends on every buffer, with a packet or with one of the C code's faults: the rounds
-- that the model gives to its loops are enough.
pub unpack_mqtt_packet-Ends : (buf : List ℕ) → unpack_mqtt_packet buf ≢ fault out_of_fuel
unfolding unpack_mqtt_packet
unpack_mqtt_packet-Ends [] = λ e. cc
unpack_mqtt_packet-Ends (hdr ∷ buf) =
    let type = type_bits hdr in
    elim (Bool-cases (type == disconnect_type || (type == pingreq_type || type == pingresp_type))) [
      | inl bare ↦ rw bare (λ e. cc)
      | inr other ↦ rw other (call_unpack-Ends type buf hdr)
    ]
