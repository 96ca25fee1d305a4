-- ===== src/Mqtt/Length/Limits.antt =====
-- What the decoder accepts at all, and what becomes of a length that four bytes cannot hold.
use mqttbroker.Base.{
  ℕ, zero, suc, ◌+◌, ◌*◌, ◌/◌, ◌%◌, ◌^◌, ◌≤◌, ◌<◌, bit_and, ◌≡◌, ap, ◌≢◌, ◌⊎◌, inl, List, [], ◌∷◌,
  ◌++◌, arith, Fault, out_of_bounds, signed_overflow, ok, fault, length, All, IsByte, ltb,
  if◌then◌else◌, low_bits, top_bit,
}
use mqttbroker.Mqtt.Length.{encode_loop, mqtt_encode_length, decode_loop, mqtt_decode_length}
use mqttbroker.Mqtt.Length.RoundTrip.{pow_pos, le_scaled, encode_inner, inner_byte}
use native.Mathlib.Nat.{pow-suc}

-- One round on any byte.
decode_step :
    (c m value : ℕ) (buf : List ℕ)
    → c < 256
    → m ≤ 128 ^ 3
    → value < 2 ^ 32
    → decode_loop (c ∷ buf) m value ≡ (
        if ltb c 128
        then ok (value + c % 128 * m, buf)
        else decode_loop buf (m * 128) (value + c % 128 * m))
unfolding decode_loop
decode_step c m value buf hc hm hv =
    let small : c % 128 * m ≤ 127 * 128 ^ 3 = grind arith in
    let low : bit_and c 127 ≡ c % 128 = omega (arith, low_bits c) in
    let fits : (value + c % 128 * m) % 2 ^ 64 ≡ value + c % 128 * m = omega arith in
    rw (low, top_bit c hc, fits) (ground arith)

-- The fifth byte of an encoding takes `multiplier` past the range of an `int`.
fifth_byte :
    (buf : List ℕ) (value : ℕ) (v : ℕ) (rest : List ℕ)
    → decode_loop buf (128 ^ 4) value ≢ ok (v, rest)
unfolding decode_loop
fifth_byte [] value v rest h = cc
fifth_byte (c ∷ buf) value v rest h = ground arith

digit_le : (d m : ℕ) → d ≤ 127 → d * m ≤ 127 * m
digit_le d m h = grind arith

next_unit : (k m : ℕ) → m * 128 ^ suc k ≡ 128 ^ 4 → (m * 128 * 128 ^ k ≡ 128 ^ 4) × (m ≤ 128 ^ 3)
next_unit k m h =
    let e : m * 128 * 128 ^ k ≡ 128 ^ 4 = omega (arith, ap (λ (t : ℕ). m * t) (pow-suc 128 k)) in
    let b : m * 128 ≤ 128 ^ 4 = le_scaled (m * 128) (128 ^ k) (128 ^ 4) (pow_pos k) (omega arith) in
    (e, omega arith)

-- At most `k` further bytes are read, and the value stays below what `k` groups can add.
decode_loop_takes :
    (k m value : ℕ) (buf : List ℕ) (v : ℕ) (rest : List ℕ)
    → m * 128 ^ k ≡ 128 ^ 4
    → value < m
    → All IsByte buf
    → decode_loop buf m value ≡ ok (v, rest)
    → (v < 128 ^ 4) × (length rest < length buf) × (length buf ≤ length rest + k)
decode_loop_takes zero m value buf v rest hm hv hb h =
    let top : m ≡ 128 ^ 4 = omega arith in absurd (fifth_byte buf value v rest (rw top at h))
decode_loop_takes (suc k) m value [] v rest hm hv hb h = unfold decode_loop in cc
decode_loop_takes (suc k) m value (c ∷ buf) v rest hm hv hb h =
    let (scaled, small) = next_unit k m hm in
    let digit = digit_le (c % 128) m (omega arith) in
    ground (
      arith,
      decode_step c m value buf,
      decode_loop_takes k (m * 128) (value + c % 128 * m) buf v rest,
    )

-- Whatever is decoded fits four bytes, and took one to four bytes of the buffer.
pub decode_takes :
    (buf : List ℕ) (v : ℕ) (rest : List ℕ)
    → All IsByte buf
    → mqtt_decode_length buf ≡ ok (v, rest)
    → (v < 128 ^ 4) × (length rest < length buf) × (length buf ≤ length rest + 4)
unfolding mqtt_decode_length
decode_takes buf v rest hb h = decode_loop_takes 4 1 0 buf v rest (omega arith) (omega arith) hb h

encode_continues :
    (k w m value : ℕ) (rest : List ℕ)
    → 128 ^ k ≤ w
    → m * 128 ^ k ≡ 128 ^ 4
    → value < m
    → (v : ℕ) × (decode_loop (encode_loop k w ++ rest) m value ≡ decode_loop rest (128 ^ 4) v)
encode_continues zero w m value rest hw hm hv =
    let top : m ≡ 128 ^ 4 = omega arith in (value, unfold encode_loop in rw top)
encode_continues (suc k) w m value rest hw hm hv =
    let (scaled, small) = next_unit k m hm in
    let digit = digit_le (w % 128) m (omega arith) in
    let (v, e) =
      encode_continues k (w / 128) (m * 128) (value + w % 128 * m) rest
        (omega (arith, pow-suc 128 k)) scaled (omega arith) in
    (
      v,
      rw
          (
            encode_inner k w (omega (arith, pow-suc 128 k, pow_pos k)),
            inner_byte (w % 128) m value (encode_loop k (w / 128) ++ rest) (omega arith) small
                (omega arith),
          )
          e,
    )

-- A length that four bytes cannot hold is cut off after four bytes that all announce another one,
-- so the decoder never accepts what the encoder stored, whatever follows.
pub encode_too_long :
    (len v : ℕ) (rest rest' : List ℕ)
    → 128 ^ 4 ≤ len
    → mqtt_decode_length (mqtt_encode_length len ++ rest) ≢ ok (v, rest')
unfolding mqtt_decode_length mqtt_encode_length
encode_too_long len v rest rest' h e =
    let (u, eq) = encode_continues 4 len 1 0 rest h (omega arith) (omega arith) in
    fifth_byte rest u v rest' (rw eq at e)

decode_loop-fault :
    (buf : List ℕ) (m value : ℕ) (x : Fault)
    → decode_loop buf m value ≡ fault x
    → (x ≡ out_of_bounds) ⊎ (x ≡ signed_overflow)
unfolding decode_loop
decode_loop-fault [] m value x h = inl (cc)
decode_loop-fault (c ∷ buf) m value x h =
    ground (arith, decode_loop-fault buf (m * 128) ((value + bit_and c 127 * m) % 2 ^ 64) x)

pub decode-fault :
    (buf : List ℕ) (x : Fault)
    → mqtt_decode_length buf ≡ fault x
    → (x ≡ out_of_bounds) ⊎ (x ≡ signed_overflow)
unfolding mqtt_decode_length
decode-fault buf x h = decode_loop-fault buf 1 0 x h
