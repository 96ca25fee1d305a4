-- ===== src/Mqtt/Length/RoundTrip.antt =====
-- The two directions of the length encoding.
use mqttbroker.Base.{
  ℕ, zero, suc, ◌+◌, ◌*◌, ◌/◌, ◌%◌, ◌^◌, ◌≤◌, ◌<◌, bit_and, ◌≡◌, ap, ◌∙◌, List, [], ◌∷◌, ◌++◌,
  arith, ok, length, All, IsByte, ltb, if◌then◌else◌, low_bits, top_bit, set_top_bit,
}
use native.Mathlib.Decide.{dec_lt}
use native.Mathlib.Nat.{div-add-mod, pow-suc, add_assoc}
use mqttbroker.Mqtt.Length.{encode_loop, mqtt_encode_length, decode_loop, mqtt_decode_length}

encode_loop-IsByte : (k len : ℕ) → All IsByte (encode_loop k len)
unfolding encode_loop
encode_loop-IsByte zero len = tt
encode_loop-IsByte (suc k) len =
    ground (arith, set_top_bit (len % 128), encode_loop-IsByte k (len / 128))

-- One round of the decoder on a last byte, and on a byte with the top bit set over `g`.
last_byte :
    (w m value : ℕ) (rest : List ℕ)
    → w < 128
    → m ≤ 128 ^ 3
    → value < 2 ^ 32
    → decode_loop (w ∷ rest) m value ≡ ok (value + w * m, rest)
unfolding decode_loop
last_byte w m value rest hw hm hv =
    let small : w * m ≤ 127 * 128 ^ 3 = grind arith in
    let low : bit_and w 127 ≡ w = omega (arith, low_bits w) in
    let top : bit_and w 128 ≡ 0 = omega (arith, top_bit w) in rw (low, top) (ground arith)

pub inner_byte :
    (g m value : ℕ) (rest : List ℕ)
    → g < 128
    → m ≤ 128 ^ 3
    → value < 2 ^ 32
    → decode_loop ((g + 128) ∷ rest) m value ≡ decode_loop rest (m * 128) (value + g * m)
unfolding decode_loop
inner_byte g m value rest hg hm hv =
    let small : g * m ≤ 127 * 128 ^ 3 = grind arith in
    let low : bit_and (g + 128) 127 ≡ g = omega (arith, low_bits (g + 128)) in
    let top : bit_and (g + 128) 128 ≡ 128 = omega (arith, top_bit (g + 128)) in
    let fits : (value + g * m) % 2 ^ 64 ≡ value + g * m = omega arith in
    rw (low, top, fits) (ground arith)

encode_last : (k len : ℕ) → len < 128 → encode_loop (suc k) len ≡ len ∷ []
unfolding encode_loop
encode_last k len h = ground arith

pub encode_inner :
    (k len : ℕ)
    → 128 ≤ len
    → encode_loop (suc k) len ≡ (len % 128 + 128) ∷ encode_loop k (len / 128)
unfolding encode_loop
encode_inner k len h = rw (set_top_bit (len % 128) (omega arith)) (ground arith)

split_group : (w m : ℕ) → w * m ≡ w % 128 * m + w / 128 * (m * 128)
split_group w m = omega (arith, ap (λ (t : ℕ). t * m) (div-add-mod w 128))

pub pow_pos : (k : ℕ) → 1 ≤ 128 ^ k
pow_pos zero = omega arith
pow_pos (suc k) = rw pow-suc (omega (arith, pow_pos k))

pub le_scaled : (m p b : ℕ) → 1 ≤ p → m * p ≤ b → m ≤ b
le_scaled m p b hp h = grind arith

-- `w` is what is still to be read, at `k` further bytes, and it counts in units of `m`.
decode_loop-encode_loop :
    (k w m value : ℕ) (rest : List ℕ)
    → w < 128 ^ suc k
    → m * 128 ^ k ≤ 128 ^ 3
    → value + w * m < 2 ^ 32
    → decode_loop (encode_loop (suc k) w ++ rest) m value ≡ ok (value + w * m, rest)
decode_loop-encode_loop zero w m value rest hw hm hv =
    rw (encode_last zero w (omega arith))
      (last_byte w m value rest (omega arith) (omega arith) (omega arith))
decode_loop-encode_loop (suc k) w m value rest hw hm hv = elim (dec_lt w 128) [
  | yes p ↦ rw (encode_last (suc k) w p) (last_byte w m value rest p small (omega arith))
  | no p ↦
      rw
        (
          encode_inner (suc k) w (omega arith),
          inner_byte (w % 128) m value (encode_loop (suc k) (w / 128) ++ rest) (omega arith) small
              (omega arith),
        )
        (rw (split_group w m, ← add_assoc value (w % 128 * m) (w / 128 * (m * 128)))
          (decode_loop-encode_loop k (w / 128) (m * 128) (value + w % 128 * m) rest
            (omega (arith, pow-suc 128 (suc k)))
            (omega (arith, pow-suc 128 k, ap (λ (t : ℕ). m * t) (pow-suc 128 k)))
            (omega (arith, split_group w m))))
]
  where
    small : m ≤ 128 ^ 3
    small = le_scaled m (128 ^ suc k) (128 ^ 3) (pow_pos (suc k)) hm

-- For every length that four bytes can hold, the decoder reads back what the encoder stored, and
-- stops behind it, whatever follows.
pub decode-encode :
    (len : ℕ) (rest : List ℕ)
    → len < 128 ^ 4
    → mqtt_decode_length (mqtt_encode_length len ++ rest) ≡ ok (len, rest)
unfolding mqtt_decode_length mqtt_encode_length
decode-encode len rest h =
    let value : 0 + len * 1 ≡ len = omega arith in
    decode_loop-encode_loop 3 len 1 0 rest h (omega arith) (omega arith)
    ∙ ap (λ (n : ℕ). ok (n, rest)) value

-- The bytes that a length takes.
abbrev pub encoded_size : ℕ → ℕ
encoded_size len =
    if ltb len 128 then 1 else if ltb len 16384 then 2 else if ltb len 2097152 then 3 else 4

-- The encoder stores bytes, and `encoded_size` of them: from one, for a length below 128, to four.
pub encode_shape :
    (len : ℕ)
    → All IsByte (mqtt_encode_length len) × (length (mqtt_encode_length len) ≡ encoded_size len)
unfolding mqtt_encode_length
encode_shape len = (encode_loop-IsByte 4 len, unfold encode_loop in ground arith)

pub encode_short : (len : ℕ) → len < 128 → mqtt_encode_length len ≡ len ∷ []
unfolding mqtt_encode_length
encode_short len h = encode_last 3 len h

pub encode_two :
    (len : ℕ)
    → 128 ≤ len
    → len < 128 * 128
    → mqtt_encode_length len ≡ (len % 128 + 128) ∷ (len / 128) ∷ []
unfolding mqtt_encode_length
encode_two len h k = rw (encode_inner 3 len h, encode_last 2 (len / 128) (omega arith))
