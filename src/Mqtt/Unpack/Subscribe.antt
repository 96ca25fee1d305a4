-- ===== src/Mqtt/Unpack/Subscribe.antt =====
-- The loop over the topic filters of a SUBSCRIBE. It takes the byte of each requested QoS off the
-- value that it returns, and not off `remaining_bytes`, which its test reads.
use mqttbroker.Base.{
  ℕ, zero, suc, ◌+◌, ◌-◌, ◌^◌, ◌≤◌, ◌<◌, ◌≡◌, refl, sym, ◌⊎◌, inl, inr, false, List, [], ◌∷◌, ◌++◌,
  map, append_assoc, arith, out_of_bounds, Run, ok, fault, ◌>>=◌, Run-cases, length, length-append,
  All, ◌==◌,
}
use mqttbroker.Pack.{unpack_u8, unpack_string16}
use mqttbroker.Pack.RoundTrip.{
  u16_bytes, unpack_u16-u16_bytes, unpack_string16-append, unpack_string16_takes,
  unpack_string16-fault,
}
use mqttbroker.Mqtt.Length.{mqtt_encode_length}
use mqttbroker.Mqtt.Length.RoundTrip.{decode-encode}
use mqttbroker.Mqtt.Packet.{SubscribeTuple}
use mqttbroker.Mqtt.Unpack.{sub64, subscribe_loop, unpack_mqtt_subscribe}

-- The topic filters of a SUBSCRIBE with the QoS that each asks for (section 3.8.3).
abbrev pub request_bytes : List (List ℕ × ℕ) → List ℕ
request_bytes [] = []
request_bytes ((t, q) ∷ ts) = u16_bytes (length t) ++ (t ++ (q ∷ request_bytes ts))

abbrev pub subscribe_tuple : List ℕ × ℕ → SubscribeTuple
subscribe_tuple (t, q) = record { topic_len = length t; topic = t ++ (0 ∷ []); qos = q }

abbrev pub Fits : List ℕ × ℕ → Type 0
Fits r = length r.0 < 2 ^ 16

-- The tuples found first stand before those of the later rounds.
abbrev prepend : List SubscribeTuple → Run (List SubscribeTuple × ℕ) → Run (List SubscribeTuple × ℕ)
prepend ts r = r >>= λ p. ok (ts ++ p.0, p.1)

prepend-nil : (r : Run (List SubscribeTuple × ℕ)) → prepend [] r ≡ r
prepend-nil (ok r) = refl
prepend-nil (fault x) = refl

prepend-cons :
    (t : SubscribeTuple) (ts : List SubscribeTuple) (r : Run (List SubscribeTuple × ℕ))
    → (prepend ts r >>= λ p. ok (t ∷ p.0, p.1)) ≡ prepend (t ∷ ts) r
prepend-cons t ts (ok r) = refl
prepend-cons t ts (fault x) = refl

abbrev take_off : ℕ → ℕ → ℕ
take_off zero len = len
take_off (suc n) len = take_off n (sub64 len 1)

-- After the tuples of the packet the loop goes on, with one byte remaining for each of them.
subscribe_loop_overruns :
    (ts : List (List ℕ × ℕ)) (f fuel : ℕ) (rest : List ℕ) (k n len : ℕ)
    → All Fits ts
    → f ≡ length ts + fuel
    → n ≡ length (request_bytes ts) + k
    → n < 2 ^ 64
    → subscribe_loop f (request_bytes ts ++ rest) n len
      ≡ prepend
          (map subscribe_tuple ts)
          (subscribe_loop fuel rest (length ts + k) (take_off (length ts) len))
unfolding subscribe_loop unpack_u8
subscribe_loop_overruns [] f fuel rest k n len fits ef e big =
    let ef' : f ≡ fuel = omega arith in
    let e' : n ≡ k = omega arith in
    let e'' : 0 + k ≡ k = omega arith in
    rw (ef', e', e'') (sym (prepend-nil (subscribe_loop fuel rest k len)))
subscribe_loop_overruns ((t, q) ∷ ts) zero fuel rest k n len fits ef e big = absurd (omega arith)
subscribe_loop_overruns ((t, q) ∷ ts) (suc f) fuel rest k n len (fit, fits) ef e big =
    let tail = q ∷ request_bytes ts in
    let size : n ≡ 2 + (length t + suc (length (request_bytes ts))) + k =
      omega (arith, length-append t tail) in
    let more : (n == 0) ≡ false = ground (arith, size) in
    let next : suc (length ts) + k ≡ length ts + (k + 1) = omega arith in
    rw
      (
        more,
        append_assoc t tail rest,
        unpack_string16-append t (tail ++ rest) fit,
        subscribe_loop_overruns ts f fuel rest (k + 1) (sub64 (sub64 n 2) (length t)) (sub64 len 1)
            fits (omega arith) (omega arith) (omega arith),
        next,
      )
      (prepend-cons (subscribe_tuple (t, q)) (map subscribe_tuple ts)
        (subscribe_loop fuel rest (length ts + (k + 1)) (take_off (length ts) (sub64 len 1))))

-- With more bytes to go than the buffer holds the loop reads past its end.
subscribe_loop_faults :
    (fuel : ℕ) (buf : List ℕ) (n len : ℕ)
    → length buf < fuel
    → length buf < n
    → n < 2 ^ 64
    → subscribe_loop fuel buf n len ≡ fault out_of_bounds
unfolding subscribe_loop unpack_u8
subscribe_loop_faults zero buf n len hf h big = absurd (omega arith)
subscribe_loop_faults (suc fuel) buf n len hf h big =
    let more : (n == 0) ≡ false = ground arith in
    elim (Run-cases (unpack_string16 buf)) [
      | inr (x, e) ↦ rw (more, e, unpack_string16-fault buf e)
      | inl ((tl, dest, []), e) ↦ rw (more, e)
      | inl ((tl, dest, q ∷ rest), e) ↦
          let size : length buf ≡ 2 + tl + suc (length rest) =
            unpack_string16_takes buf tl dest (q ∷ rest) e in
          rw (
            more,
            e,
            subscribe_loop_faults fuel rest (sub64 (sub64 n 2) tl) (sub64 len 1) (omega arith)
                (omega arith) (omega arith),
          )
    ]

-- One round after the last tuple of a packet with a single one: the count wraps around.
subscribe_loop_wraps :
    (fuel : ℕ) (buf : List ℕ) (len : ℕ)
    → length buf < fuel
    → length buf < 2 ^ 63
    → subscribe_loop fuel buf 1 len ≡ fault out_of_bounds
unfolding subscribe_loop unpack_u8
subscribe_loop_wraps zero buf len hf h = absurd (omega arith)
subscribe_loop_wraps (suc fuel) buf len hf h = elim (Run-cases (unpack_string16 buf)) [
  | inr (x, e) ↦ rw (e, unpack_string16-fault buf e)
  | inl ((tl, dest, []), e) ↦ rw e
  | inl ((tl, dest, q ∷ rest), e) ↦
      let size : length buf ≡ 2 + tl + suc (length rest) =
        unpack_string16_takes buf tl dest (q ∷ rest) e in
      rw (
        e,
        subscribe_loop_faults fuel rest (sub64 (sub64 1 2) tl) (sub64 len 1) (omega arith)
            (omega arith) (omega arith),
      )
]

length-request_bytes : (ts : List (List ℕ × ℕ)) → length ts ≤ length (request_bytes ts)
length-request_bytes [] = omega arith
length-request_bytes ((t, q) ∷ ts) =
    omega (arith, length-append t (q ∷ request_bytes ts), length-request_bytes ts)

plus_zero : (n : ℕ) → n + 0 ≡ n
plus_zero n = omega arith

-- The bytes of a SUBSCRIBE behind its first byte.
abbrev pub subscribe_wire : ℕ → List (List ℕ × ℕ) → List ℕ
subscribe_wire id ts =
    let body = request_bytes ts in mqtt_encode_length (2 + length body) ++ (u16_bytes id ++ body)

module _ (hdr id : ℕ) (hid : id < 2 ^ 16) where
  parse_start :
      (ts : List (List ℕ × ℕ)) (rest : List ℕ)
      → All Fits ts
      → 2 + length (request_bytes ts) < 128 ^ 4
      → (fuel len : ℕ) × (length rest < fuel)
        × (subscribe_loop fuel rest (length ts) len ≡ fault out_of_bounds
            → unpack_mqtt_subscribe (subscribe_wire id ts ++ rest) hdr ≡ fault out_of_bounds)
  unfolding unpack_mqtt_subscribe
  parse_start ts rest fits small =
      let body = request_bytes ts in
      let fuel = suc (length (body ++ rest)) - length ts in
      (
        fuel,
        take_off (length ts) (2 + length body),
        omega (arith, length-append body rest, length-request_bytes ts),
        λ h. rw (
          append_assoc (mqtt_encode_length (2 + length body)) (u16_bytes id ++ body) rest,
          decode-encode (2 + length body) (u16_bytes id ++ (body ++ rest)) small,
          unpack_u16-u16_bytes id (body ++ rest) hid,
          subscribe_loop_overruns ts (suc (length (body ++ rest))) fuel rest 0
              (sub64 (2 + length body) 2) (2 + length body) fits
              (omega (arith, length-append body rest, length-request_bytes ts)) (omega arith)
              (omega arith),
          plus_zero (length ts),
          h,
        ),
      )

  -- A SUBSCRIBE of the standard is never parsed when fewer bytes follow it in the buffer than it has
  -- topic filters, nor when it has a single one, however many bytes follow (fewer than 2 ^ 63): the
  -- loop does not stop behind the last filter, and reads past the end of the buffer.
  pub unpack_subscribe-wire_faults :
      (ts : List (List ℕ × ℕ)) (rest : List ℕ)
      → All Fits ts
      → 2 + length (request_bytes ts) < 128 ^ 4
      → (length rest < length ts) ⊎ ((length ts ≡ 1) × (length rest < 2 ^ 63))
      → unpack_mqtt_subscribe (subscribe_wire id ts ++ rest) hdr ≡ fault out_of_bounds
  unpack_subscribe-wire_faults ts rest fits small (inl few) =
      let (fuel, len, more, finish) = parse_start ts rest fits small in
      finish (
        subscribe_loop_faults fuel rest (length ts) len more few
          (omega (arith, length-request_bytes ts)))
  unpack_subscribe-wire_faults ts rest fits small (inr (one, short)) =
      let (fuel, len, more, finish) = parse_start ts rest fits small in
      finish (rw one (subscribe_loop_wraps fuel rest len more short))
