-- ===== src/Mqtt/Unpack/Unsubscribe.antt =====
-- UNSUBSCRIBE packets of the standard.
use mqttbroker.Base.{
  ℕ, zero, suc, ◌+◌, ◌-◌, ◌%◌, ◌^◌, ◌≤◌, ◌<◌, ◌≡◌, false, List, [], ◌∷◌, ◌++◌, map, append_assoc,
  arith, ok, length, length-append, length-map, All, ◌==◌,
}
use mqttbroker.Pack.RoundTrip.{u16_bytes, unpack_u16-u16_bytes, unpack_string16-append}
use mqttbroker.Mqtt.Length.{mqtt_encode_length}
use mqttbroker.Mqtt.Length.RoundTrip.{decode-encode}
use mqttbroker.Mqtt.Packet.{MqttPacket, UnsubscribeTuple}
use mqttbroker.Mqtt.Unpack.{sub64, unsubscribe_loop, unpack_mqtt_unsubscribe}

-- The topic filters of an UNSUBSCRIBE (section 3.10.3).
abbrev pub filter_bytes : List (List ℕ) → List ℕ
filter_bytes [] = []
filter_bytes (t ∷ ts) = u16_bytes (length t) ++ (t ++ filter_bytes ts)

abbrev pub unsubscribe_tuple : List ℕ → UnsubscribeTuple
unsubscribe_tuple t = record { topic_len = length t; topic = t ++ (0 ∷ []) }

abbrev Fits : List ℕ → Type 0
Fits t = length t < 2 ^ 16

sub64-le : (a b : ℕ) → b ≤ a → a < 2 ^ 64 → sub64 a b ≡ a - b
sub64-le a b h k = omega arith

filter_round :
    (t : List ℕ) (n : ℕ)
    → 2 + (length t + n) < 2 ^ 64
    → sub64 (sub64 (2 + (length t + n)) 2) (length t) ≡ n
filter_round t n h = omega arith

unsubscribe_loop-filter_bytes :
    (fuel : ℕ) (ts : List (List ℕ)) (rest : List ℕ) (n : ℕ)
    → length ts < fuel
    → All Fits ts
    → n ≡ length (filter_bytes ts)
    → n < 2 ^ 64
    → unsubscribe_loop fuel (filter_bytes ts ++ rest) n ≡ ok (map unsubscribe_tuple ts)
unfolding unsubscribe_loop
unsubscribe_loop-filter_bytes zero ts rest n hf fits e big = absurd (omega arith)
unsubscribe_loop-filter_bytes (suc fuel) [] rest n hf fits e big = ground arith
unsubscribe_loop-filter_bytes (suc fuel) (t ∷ ts) rest n hf (fit, fits) e big =
    let left = length (filter_bytes ts) in
    let size : n ≡ 2 + (length t + left) = omega (arith, length-append t (filter_bytes ts)) in
    let more : (n == 0) ≡ false = ground (arith, size) in
    rw (
      more,
      append_assoc t (filter_bytes ts) rest,
      unpack_string16-append t (filter_bytes ts ++ rest) fit,
      unsubscribe_loop-filter_bytes fuel ts rest (sub64 (sub64 n 2) (length t)) (omega arith) fits
          (omega arith) (omega arith),
    )

length-filter_bytes : (ts : List (List ℕ)) → length ts ≤ length (filter_bytes ts)
length-filter_bytes [] = omega arith
length-filter_bytes (t ∷ ts) =
    omega (arith, length-append t (filter_bytes ts), length-filter_bytes ts)

-- An UNSUBSCRIBE of the standard is parsed into its packet identifier and its topic filters, in
-- order, whatever follows it in the buffer.
pub unpack_mqtt_unsubscribe-wire :
    (hdr id : ℕ) (ts : List (List ℕ)) (rest : List ℕ)
    → id < 2 ^ 16
    → All Fits ts
    → 2 + length (filter_bytes ts) < 128 ^ 4
    → unpack_mqtt_unsubscribe
        (mqtt_encode_length (2 + length (filter_bytes ts))
          ++ (u16_bytes id ++ (filter_bytes ts ++ rest)))
        hdr
      ≡ ok (
        2 + length (filter_bytes ts),
        MqttPacket.unsubscribe (record {
          header = hdr;
          pkt_id = id;
          tuples_len = length ts % 2 ^ 16;
          tuples = map unsubscribe_tuple ts;
        }),
      )
unfolding unpack_mqtt_unsubscribe
unpack_mqtt_unsubscribe-wire hdr id ts rest hid fits small =
    let body = filter_bytes ts in
    rw (
      decode-encode (2 + length body) (u16_bytes id ++ (body ++ rest)) small,
      unpack_u16-u16_bytes id (body ++ rest) hid,
      unsubscribe_loop-filter_bytes (suc (length (body ++ rest))) ts rest
          (sub64 (2 + length body) 2)
          (omega (arith, length-append body rest, length-filter_bytes ts)) fits (omega arith)
          (omega arith),
      length-map,
    )
