-- ===== src/Mqtt/Length.antt =====
-- The remaining length of the fixed header (`mqtt_encode_length`, `mqtt_decode_length`): groups of
-- seven bits, lowest first, with the top bit set on all bytes but the last.
pub mod RoundTrip
pub mod Limits
use mqttbroker.Base.{
  ℕ, zero, suc, ◌+◌, ◌-◌, ◌*◌, ◌/◌, ◌%◌, ◌^◌, List, [], ◌∷◌, Run, ok, fault, out_of_bounds,
  signed_overflow, bit_and, bit_or, if◌then◌else◌, ltb, ◌==◌, ◌||◌,
}

abbrev max_len_bytes : ℕ
max_len_bytes = 4

-- The rounds left are `MAX_LEN_BYTES - bytes`; the result is what the loop stores at `buf`.
pub encode_loop : ℕ → ℕ → List ℕ
encode_loop zero len = []
encode_loop (suc rounds) len =
    let d = len % 128 in
    let len' = len / 128 in
    let rest = encode_loop rounds len' in if ltb 0 len' then bit_or d 128 ∷ rest else d ∷ []

-- The bytes stored at `buf`; the value that the function returns is their number.
unfoldable pub mqtt_encode_length : ℕ → List ℕ
unfolding encode_loop
mqtt_encode_length len = encode_loop max_len_bytes len

-- `multiplier` and `(c & 127) * multiplier` are an `int`, `value` is an `unsigned long long`.
pub decode_loop : List ℕ → ℕ → ℕ → Run (ℕ × List ℕ)
decode_loop [] multiplier value = fault out_of_bounds
decode_loop (c ∷ buf) multiplier value =
    let product = bit_and c 127 * multiplier in
    let multiplier' = multiplier * 128 in
    let value' = (value + product) % 2 ^ 64 in
    let rest = decode_loop buf multiplier' value' in
    if ltb (2 ^ 31 - 1) product || ltb (2 ^ 31 - 1) multiplier'
    then fault signed_overflow
    else if bit_and c 128 == 0
    then ok (value', buf)
    else rest

-- The value, and the buffer behind the encoding.
unfoldable pub mqtt_decode_length : List ℕ → Run (ℕ × List ℕ)
unfolding decode_loop
mqtt_decode_length buf = decode_loop buf 1 0
