-- ===== src/Config/Sizes.antt =====
-- Amounts of memory and of time in sol/src/config.c, with the letters of their units.
pub mod RoundTrip
use mqttbroker.Base.{
  ℕ, zero, suc, ◌+◌, ◌*◌, ◌/◌, ◌%◌, ◌^◌, List, [], ◌∷◌, ◌++◌, Run, ok, ◌>>=◌, ltb, ◌==◌,
  if◌then◌else◌, text,
}
use mqttbroker.Hashtable.Hash.{streq}
use mqttbroker.Util.{number_len, is_digit, parse_int}
use mqttbroker.Util.Print.{ℤ, to_int, to_size, show_int, snprintf}

-- The pointer moved to the first character that is no digit; `parse_int` has tested the same ones.
unfoldable pub skip_digits : List ℕ → List ℕ
skip_digits [] = []
skip_digits (c ∷ string) = let rest = skip_digits string in if is_digit c then rest else c ∷ string

unfoldable pub memory_mul : List ℕ → ℕ
memory_mul unit =
    if streq unit (text "kb") 2
    then 1024
    else if streq unit (text "mb") 2
    then 1024 * 1024
    else if streq unit (text "gb") 2
    then 1024 * 1024 * 1024
    else 1

unfoldable pub read_memory_with_mul : List ℕ → Run ℕ
unfolding skip_digits memory_mul
read_memory_with_mul memory_string = do
  num ← parse_int memory_string
  ok (num * memory_mul (skip_digits memory_string) % 2 ^ 64)

-- The `switch` on the first character behind the digits, which is NUL at the end of the string.
unfoldable pub time_mul : List ℕ → ℕ
time_mul [] = 1
time_mul (c ∷ unit) = if c == b'm' then 60 else if c == b'd' then 60 * 60 * 24 else 1

unfoldable pub read_time_with_mul : List ℕ → Run ℕ
unfolding skip_digits time_mul
read_time_with_mul time_string = do
  num ← parse_int time_string
  ok (num * time_mul (skip_digits time_string) % 2 ^ 64)

-- The number with its unit, in as many bytes as `number_len` gives and `more`.
unfoldable pub with_unit : ℤ → List ℕ → ℕ → List ℕ
with_unit translated unit more =
    snprintf (number_len (to_size translated) + more) (show_int translated ++ unit)

unfoldable pub memory_to_string : ℕ → List ℕ
memory_to_string memory =
    if ltb memory 1024
    then with_unit (to_int memory) (text "b") 1
    else if ltb memory 1048576
    then with_unit (to_int (memory / 1024)) (text "Kb") 2
    else if ltb memory 1073741824
    then with_unit (to_int (memory / (1024 * 1024))) (text "Mb") 2
    else with_unit (to_int (memory / (1024 * 1024 * 1024))) (text "Gb") 2

unfoldable pub time_to_string : ℕ → List ℕ
time_to_string time =
    if ltb time 60
    then with_unit (to_int time) (text "s") 1
    else if ltb time (60 * 60)
    then with_unit (to_int (time / 60)) (text "m") 1
    else if ltb time (60 * 60 * 24)
    then with_unit (to_int (time / (60 * 60))) (text "h") 1
    else with_unit (to_int (time / (60 * 60 * 24))) (text "d") 1
