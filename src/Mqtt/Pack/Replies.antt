-- ===== src/Mqtt/Pack/Replies.antt =====
-- The broker's replies on the wire, and the memory that they are written to.
use mqttbroker.Base.{
  ℕ, zero, suc, ◌+◌, ◌-◌, ◌%◌, ◌^◌, ◌≤◌, ◌<◌, ◌≡◌, refl, ◌∙◌, inl, inr, true, List, [], ◌∷◌, ◌++◌,
  map, append-nil, append_assoc, arith, out_of_bounds, ok, fault, ◌>>=◌, Returns, length, leb,
  Bool-cases,
}
use mqttbroker.Pack.{malloc, write, pack_u8, pack_u16}
use mqttbroker.Pack.RoundTrip.{u16_bytes, write_step, unpack_u16-u16_bytes}
use mqttbroker.Mqtt.Length.{mqtt_encode_length}
use mqttbroker.Mqtt.Length.RoundTrip.{encode_shape, encode_short}
use mqttbroker.Mqtt.Packet.{MqttHeader, MqttAck, MqttConnack, MqttSuback, MqttPacket, type_bits}
use mqttbroker.Mqtt.Length.RoundTrip.{decode-encode}
use mqttbroker.Mqtt.Unpack.{unpack_mqtt_packet, unpack_mqtt_ack}
use mqttbroker.Mqtt.Packet.{mqtt_ack_len}
use mqttbroker.Mqtt.Pack.{
  pack_mqtt_packet, pack_length, pack_mqtt_header, pack_mqtt_ack, pack_mqtt_connack, pack_rcs,
  pack_mqtt_suback,
}

pub pack_mqtt_header-wire :
    (hdr : MqttHeader) → pack_mqtt_header hdr ≡ ok (record { out = (hdr % 256) ∷ 0 ∷ []; room = 0 })
unfolding pack_mqtt_header pack_u8 pack_length malloc write
pack_mqtt_header-wire hdr = rw (encode_short 0 (omega arith))

pub pack_mqtt_ack-wire :
    (p : MqttAck)
    → pack_mqtt_ack p ≡ ok (record { out = (p.header % 256) ∷ 2 ∷ u16_bytes p.pkt_id; room = 0 })
unfolding pack_mqtt_ack pack_u8 pack_length malloc write pack_u16
pack_mqtt_ack-wire p = rw (encode_short 2 (omega arith))

pub pack_mqtt_connack-wire :
    (p : MqttConnack)
    → pack_mqtt_connack p
      ≡ ok (record { out = (p.header % 256) ∷ 2 ∷ (p.byte % 256) ∷ (p.rc % 256) ∷ []; room = 0 })
unfolding pack_mqtt_connack pack_u8 pack_length malloc write
pack_mqtt_connack-wire p = rw (encode_short 2 (omega arith))

abbrev pub byte_of : ℕ → ℕ
byte_of v = v % 256

pack_rcs-wire :
    (rcs out : List ℕ) (room : ℕ)
    → length rcs ≤ room
    → pack_rcs (length rcs) rcs (record { out = out; room = room })
      ≡ ok (record { out = out ++ map byte_of rcs; room = room - length rcs })
unfolding pack_rcs pack_u8 write
pack_rcs-wire [] out room h = ground (arith, append-nil out)
pack_rcs-wire (rc ∷ rcs) out room h =
    let fits : leb 1 room ≡ true = ground arith in
    rw (fits) (
      rw
        (
          pack_rcs-wire rcs (out ++ (rc % 256 ∷ [])) (room - 1) (omega arith),
          append_assoc out (rc % 256 ∷ []) (map byte_of rcs),
        )
        (ground arith))

pack_rcs-fault :
    (rcs out : List ℕ) (room : ℕ)
    → room < length rcs
    → pack_rcs (length rcs) rcs (record { out = out; room = room }) ≡ fault out_of_bounds
unfolding pack_rcs pack_u8 write
pack_rcs-fault [] out room h = absurd (omega arith)
pack_rcs-fault (rc ∷ rcs) out room h = elim (Bool-cases (leb 1 room)) [
  | inl fits ↦ rw fits (pack_rcs-fault rcs (out ++ (rc % 256 ∷ [])) (room - 1) (ground arith))
  | inr full ↦ rw full
]

-- A SUBACK with its codes; the memory for it has four bytes and one for each code.
module _ (p : MqttSuback) (codes : length p.rcs ≡ p.rcslen) where
  suback_start :
      (left : ℕ)
      → p.rcslen + 1 ≡ length (mqtt_encode_length (2 + p.rcslen)) + left
      → pack_mqtt_suback p
        ≡ pack_rcs p.rcslen p.rcs (record {
          out =
              ([] ++ ((p.header % 256) ∷ []))
              ++ mqtt_encode_length (2 + p.rcslen)
              ++ u16_bytes p.pkt_id;
          room = left;
        })
  unfolding pack_mqtt_suback pack_u8 pack_length malloc pack_u16
  suback_start left e = rw (
    write_step [] ((p.header % 256) ∷ []) (4 + p.rcslen) (3 + p.rcslen) (omega arith),
    ◌>>=◌,
    write_step ((p.header % 256) ∷ []) (mqtt_encode_length (2 + p.rcslen)) (3 + p.rcslen) (2 + left)
        (omega (arith, e)),
    write_step (((p.header % 256) ∷ []) ++ mqtt_encode_length (2 + p.rcslen)) (u16_bytes p.pkt_id)
        (2 + left) left refl,
  )

  rcs_fit :
      (out : List ℕ)
      → pack_rcs p.rcslen p.rcs (record { out = out; room = p.rcslen })
        ≡ ok (record { out = out ++ map byte_of p.rcs; room = 0 })
  rcs_fit out =
      let full : length p.rcs - length p.rcs ≡ 0 = omega arith in
      rw (← codes, pack_rcs-wire p.rcs out (length p.rcs) (omega arith), full)

  rcs_overflow :
      (out : List ℕ) (room : ℕ)
      → room < p.rcslen
      → pack_rcs p.rcslen p.rcs (record { out = out; room = room }) ≡ fault out_of_bounds
  rcs_overflow out room h = rw (← codes) (pack_rcs-fault p.rcs out room (omega arith))

  -- With up to 125 return codes a SUBACK exactly fills its memory, with the packet of the standard.
  pub pack_mqtt_suback-wire :
      p.rcslen < 126
      → pack_mqtt_suback p
        ≡ ok (record {
          out = (p.header % 256) ∷ (2 + p.rcslen) ∷ (u16_bytes p.pkt_id ++ map byte_of p.rcs);
          room = 0;
        })
  pack_mqtt_suback-wire h =
      let one = encode_short (2 + p.rcslen) (omega arith) in
      let size : p.rcslen + 1 ≡ length (mqtt_encode_length (2 + p.rcslen)) + p.rcslen =
        rw one (omega arith) in
      rw (suback_start p.rcslen size, one, rcs_fit)

  -- With 126 codes or more the length takes a second byte, which the size of the memory leaves out:
  -- the last code is written past its end.
  pub pack_mqtt_suback_overflows :
      126 ≤ p.rcslen → p.rcslen < 2 ^ 16 → pack_mqtt_suback p ≡ fault out_of_bounds
  pack_mqtt_suback_overflows h k =
      let enc = length (mqtt_encode_length (2 + p.rcslen)) in
      let bounds : (2 ≤ enc) × (enc ≤ 3) = rw ((encode_shape (2 + p.rcslen)).1) (ground arith) in
      let size : p.rcslen + 1 ≡ enc + (p.rcslen + 1 - enc) = omega arith in
      rw (suback_start (p.rcslen + 1 - enc) size)
        (rcs_overflow _ (p.rcslen + 1 - enc) (omega arith))

-- Both tables hold the handlers of acknowledgements at the types 4 to 7.
ack_handlers :
    (type : ℕ) (p : MqttAck) (buf : List ℕ) (hdr : ℕ)
    → 4 ≤ type
    → type ≤ 7
    → (pack_mqtt_packet (MqttPacket.ack p) type ≡ pack_mqtt_ack p)
      × (type_bits hdr ≡ type → unpack_mqtt_packet (hdr ∷ buf) ≡ unpack_mqtt_ack buf hdr)
unfolding pack_mqtt_packet unpack_mqtt_packet
ack_handlers (suc (suc (suc (suc zero)))) p buf hdr lo hi = (refl, λ e. rw e)
ack_handlers (suc (suc (suc (suc (suc zero))))) p buf hdr lo hi = (refl, λ e. rw e)
ack_handlers (suc (suc (suc (suc (suc (suc zero)))))) p buf hdr lo hi = (refl, λ e. rw e)
ack_handlers (suc (suc (suc (suc (suc (suc (suc zero))))))) p buf hdr lo hi = (refl, λ e. rw e)
ack_handlers type p buf hdr lo hi = absurd (omega arith)

-- The acknowledgements that a client and the broker exchange are parsed back into what was packed.
pub unpack-pack_ack :
    (p : MqttAck) (rest : List ℕ)
    → p.header < 256
    → 4 ≤ type_bits p.header
    → type_bits p.header ≤ 7
    → p.pkt_id < 2 ^ 16
    → Returns (pack_mqtt_packet (MqttPacket.ack p) (type_bits p.header)) λ buf.
      (buf.room ≡ 0)
      × (length buf.out ≡ mqtt_ack_len)
      × (unpack_mqtt_packet (buf.out ++ rest) ≡ ok (2, MqttPacket.ack p))
unfolding unpack_mqtt_ack
unpack-pack_ack p rest hb lo hi hid =
    let wire = (p.header % 256) ∷ 2 ∷ u16_bytes p.pkt_id in
    let byte : p.header % 256 ≡ p.header = omega arith in
    let (packs, unpacks) =
      ack_handlers (type_bits p.header) p (2 ∷ (u16_bytes p.pkt_id ++ rest)) p.header lo hi in
    let length_read =
      rw (encode_short 2 (omega arith)) at
        (decode-encode 2 (u16_bytes p.pkt_id ++ rest) (omega arith)) in
    (
      record { out = wire; room = 0 },
      packs ∙ pack_mqtt_ack-wire p,
      (
        refl,
        refl,
        rw byte (unpacks refl ∙ rw (length_read, unpack_u16-u16_bytes p.pkt_id rest hid)),
      ),
    )
