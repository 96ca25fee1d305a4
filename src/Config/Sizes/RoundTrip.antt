-- ===== src/Config/Sizes/RoundTrip.antt =====
-- Reading back the amounts that `memory_to_string` and `time_to_string` of sol/src/config.c write.
use native.Mathlib.Nat.{mod-eq_of_lt}
use mqttbroker.Base.{
  false, ℕ, zero, suc, ◌+◌, ◌*◌, ◌/◌, ◌%◌, ◌^◌, ◌<◌, ◌≡◌, refl, ap, ◌∙◌, inl, inr, true, List, [],
  ◌∷◌, ◌++◌, map, arith, Run, ok, ◌>>=◌, length, take_all, length-append, length-map, All, ltb,
  if◌then◌else◌, ltb→lt, Bool-cases, text,
}
use mqttbroker.Util.{number_len, is_digit, parse_int}
use mqttbroker.Util.Numbers.{digit, IsDigit}
use mqttbroker.Util.Print.{
  pos, to_int, to_int_small, show_int, snprintf, Stops, parse_int-show, digits, digits-IsDigit,
  number_len-length,
}
use mqttbroker.Config.Sizes.{
  skip_digits, memory_mul, read_memory_with_mul, time_mul, read_time_with_mul, with_unit,
  memory_to_string, time_to_string,
}

skip_digits-Stops : (unit : List ℕ) → Stops unit → skip_digits unit ≡ unit
unfolding skip_digits
skip_digits-Stops [] h = refl
skip_digits-Stops (c ∷ unit) h = let other : is_digit c ≡ false = ground (arith, h) in rw other refl

skip_digits-digits :
    (ds unit : List ℕ) → All IsDigit ds → Stops unit → skip_digits (map digit ds ++ unit) ≡ unit
unfolding skip_digits
skip_digits-digits [] unit h s = skip_digits-Stops unit s
skip_digits-digits (d ∷ ds) unit (hd, h) s =
    let is : is_digit (b'0' + d) ≡ true = ground arith in rw is (skip_digits-digits ds unit h s)

pub skip_digits-show :
    (n : ℕ) (unit : List ℕ) → Stops unit → skip_digits (show_int (pos n) ++ unit) ≡ unit
unfolding show_int
skip_digits-show n unit s = skip_digits-digits (digits n) unit (digits-IsDigit n) s

snprintf_fits : (size : ℕ) (s : List ℕ) → length s < size → snprintf size s ≡ s
unfolding snprintf
snprintf_fits zero s h = absurd (omega arith)
snprintf_fits (suc room) s h = take_all s room (omega arith)

-- The unit fits, with the NUL behind it, because `number_len` is one more than the digits.
with_unit-fits :
    (n : ℕ) (unit : List ℕ) (more : ℕ)
    → 0 < n
    → n < 2 ^ 31
    → length unit ≡ more
    → with_unit (to_int n) unit more ≡ show_int (pos n) ++ unit
unfolding with_unit show_int
with_unit-fits n unit more p h e = rw (to_int_small n h) (
    snprintf_fits _ _ (
      omega (
        arith,
        number_len-length n p,
        length-append {0} (map digit (digits n)) unit,
        length-map digit (digits n),
      )))

module _ (read : List ℕ → Run ℕ) (mul : List ℕ → ℕ)
    (reads : (s : List ℕ)
      → read s ≡ (parse_int s >>= λ num. ok (num * mul (skip_digits s) % 2 ^ 64))) where
  read-with_unit :
      (n : ℕ) (unit : List ℕ) (more : ℕ)
      → 0 < n
      → n < 2 ^ 31
      → length unit ≡ more
      → Stops unit
      → read (with_unit (to_int n) unit more) ≡ ok (n * mul unit % 2 ^ 64)
  read-with_unit n unit more p h e s =
      rw
        (
          with_unit-fits n unit more p h e,
          reads,
          parse_int-show n unit h s,
          skip_digits-show n unit s,
        )
        refl

read_memory-with_unit :
    (n : ℕ) (unit : List ℕ) (more : ℕ)
    → 0 < n
    → n < 2 ^ 31
    → length unit ≡ more
    → Stops unit
    → read_memory_with_mul (with_unit (to_int n) unit more) ≡ ok (n * memory_mul unit % 2 ^ 64)
unfolding read_memory_with_mul
read_memory-with_unit = read-with_unit read_memory_with_mul memory_mul (λ s. refl)

read_time-with_unit :
    (n : ℕ) (unit : List ℕ) (more : ℕ)
    → 0 < n
    → n < 2 ^ 31
    → length unit ≡ more
    → Stops unit
    → read_time_with_mul (with_unit (to_int n) unit more) ≡ ok (n * time_mul unit % 2 ^ 64)
unfolding read_time_with_mul
read_time-with_unit = read-with_unit read_time_with_mul time_mul (λ s. refl)

-- Rounded down to the unit that `memory_to_string` takes.
abbrev pub whole_units : ℕ → ℕ
whole_units memory =
    if ltb memory 1024
    then memory
    else if ltb memory (2 ^ 20)
    then memory / 1024 * 1024
    else if ltb memory (2 ^ 30)
    then memory / 2 ^ 20 * 2 ^ 20
    else memory / 2 ^ 30 * 2 ^ 30

-- Nothing has no room for its unit.
zero_bytes : read_memory_with_mul (with_unit (to_int 0) (text "b") 1) ≡ ok 0
unfolding read_memory_with_mul with_unit to_int show_int snprintf digits number_len parse_int
    skip_digits memory_mul
zero_bytes = refl

zero_seconds : read_time_with_mul (with_unit (to_int 0) (text "s") 1) ≡ ok 0
unfolding read_time_with_mul with_unit to_int show_int snprintf digits number_len parse_int
    skip_digits time_mul
zero_seconds = refl

read_bytes : (n : ℕ) → n < 1024 → read_memory_with_mul (with_unit (to_int n) (text "b") 1) ≡ ok n
unfolding memory_mul
read_bytes zero h = zero_bytes
read_bytes (suc n) h =
    read_memory-with_unit (suc n) (text "b") 1 (omega arith) (omega arith) refl refl
    ∙ ap ok (omega arith)

read_seconds : (n : ℕ) → n < 60 → read_time_with_mul (with_unit (to_int n) (text "s") 1) ≡ ok n
unfolding time_mul
read_seconds zero h = zero_seconds
read_seconds (suc n) h =
    read_time-with_unit (suc n) (text "s") 1 (omega arith) (omega arith) refl refl
    ∙ ap ok (omega arith)

read_units :
    (n : ℕ) (unit : List ℕ) (more mul : ℕ)
    → 0 < n
    → n < 2 ^ 31
    → length unit ≡ more
    → Stops unit
    → memory_mul unit ≡ mul
    → n * mul < 2 ^ 64
    → read_memory_with_mul (with_unit (to_int n) unit more) ≡ ok (n * mul)
read_units n unit more mul p h e s m fits =
    read_memory-with_unit n unit more p h e s ∙ rw m (ap ok (mod-eq_of_lt fits))

read_spans :
    (n : ℕ) (unit : List ℕ) (more mul : ℕ)
    → 0 < n
    → n < 2 ^ 31
    → length unit ≡ more
    → Stops unit
    → time_mul unit ≡ mul
    → n * mul < 2 ^ 64
    → read_time_with_mul (with_unit (to_int n) unit more) ≡ ok (n * mul)
read_spans n unit more mul p h e s m fits =
    read_time-with_unit n unit more p h e s ∙ rw m (ap ok (mod-eq_of_lt fits))

-- What `memory_to_string` writes is read back, by `read_memory_with_mul`, as the amount rounded down
-- to its unit, for every amount below 2 ^ 61.
pub read_memory-memory_to_string :
    (memory : ℕ)
    → memory < 2 ^ 61
    → read_memory_with_mul (memory_to_string memory) ≡ ok (whole_units memory)
unfolding memory_to_string memory_mul
read_memory-memory_to_string memory h = elim (Bool-cases (ltb memory 1024)) [
  | inl bytes ↦ rw bytes (read_bytes memory (ltb→lt memory 1024 bytes))
  | inr more ↦ elim (Bool-cases (ltb memory 1048576)) [
    | inl kilo ↦
        let lt : memory < 1048576 = ltb→lt memory 1048576 kilo in
        rw (more, kilo)
          (read_units (memory / 1024) (text "Kb") 2 1024 (ground (arith, more)) (omega arith) refl
            refl refl (omega arith))
    | inr more₂ ↦ elim (Bool-cases (ltb memory 1073741824)) [
      | inl mega ↦
          let lt : memory < 1073741824 = ltb→lt memory 1073741824 mega in
          rw (more, more₂, mega)
            (read_units (memory / 2 ^ 20) (text "Mb") 2 (2 ^ 20) (ground (arith, more₂))
              (omega arith) refl refl refl (omega arith))
      | inr giga ↦
          rw (more, more₂, giga)
            (read_units (memory / 2 ^ 30) (text "Gb") 2 (2 ^ 30) (ground (arith, giga))
              (omega arith) refl refl refl (omega arith))
    ]
  ]
]

-- The seconds that `read_time_with_mul` makes of what `time_to_string` writes: minutes and days are
-- whole, and the letter of the hours is not known.
abbrev pub seconds_read : ℕ → ℕ
seconds_read time =
    if ltb time 60
    then time
    else if ltb time 3600
    then time / 60 * 60
    else if ltb time 86400
    then time / 3600
    else time / 86400 * 86400

-- What `time_to_string` writes, for less than 2 ^ 47 seconds, is read back by `read_time_with_mul`
-- as the time rounded down to minutes or days, but from an hour to a day as the number of hours, in
-- seconds.
pub read_time-time_to_string :
    (time : ℕ) → time < 2 ^ 47 → read_time_with_mul (time_to_string time) ≡ ok (seconds_read time)
unfolding time_to_string time_mul
read_time-time_to_string time h = elim (Bool-cases (ltb time 60)) [
  | inl seconds ↦ rw seconds (read_seconds time (ltb→lt time 60 seconds))
  | inr more ↦ elim (Bool-cases (ltb time 3600)) [
    | inl minutes ↦
        let lt : time < 3600 = ltb→lt time 3600 minutes in
        rw (more, minutes)
          (read_spans (time / 60) (text "m") 1 60 (ground (arith, more)) (omega arith) refl refl
            refl (omega arith))
    | inr more₂ ↦ elim (Bool-cases (ltb time 86400)) [
      | inl hours ↦
          let lt : time < 86400 = ltb→lt time 86400 hours in
          rw (more, more₂, hours)
            (read_spans (time / 3600) (text "h") 1 1 (ground (arith, more₂)) (omega arith) refl refl
                refl (omega arith)
              ∙ ap ok (omega arith))
      | inr days ↦
          rw (more, more₂, days)
            (read_spans (time / 86400) (text "d") 1 86400 (ground (arith, days)) (omega arith) refl
              refl refl (omega arith))
    ]
  ]
]

-- What `memory_to_string` writes of less than 2 ^ 61 bytes, `read_memory_with_mul` reads back as the
-- amount rounded down to its unit. What `time_to_string` writes of less than 2 ^ 47 seconds,
-- `read_time_with_mul` reads back as the time rounded down to whole minutes or days, but from an
-- hour to a day as so many seconds as the hours are.
pub to_string_read_back :
    (memory time : ℕ)
    → memory < 2 ^ 61
    → time < 2 ^ 47
    → (read_memory_with_mul (memory_to_string memory) ≡ ok (whole_units memory))
      × (read_time_with_mul (time_to_string time) ≡ ok (seconds_read time))
to_string_read_back memory time m t =
    (read_memory-memory_to_string memory m, read_time-time_to_string time t)
