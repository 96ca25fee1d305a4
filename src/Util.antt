-- ===== src/Util.antt =====
-- sol/src/util.c: the string and number helpers. A string is the list of its bytes without the NUL.
pub mod Numbers
pub mod Print
use mqttbroker.Base.{
  ℕ, zero, suc, ◌+◌, ◌-◌, ◌*◌, ◌/◌, ◌^◌, Bool, ◌&&◌, List, [], ◌∷◌, ◌++◌, signed_overflow,
  invalid_char, Run, ok, fault, ltb, leb, ◌==◌, if◌then◌else◌,
}

-- The loop of `number_len`, from the `len` so far; a number has fewer digits than its value.
pub number_len_loop : ℕ → ℕ → ℕ → ℕ
number_len_loop zero number len = len
number_len_loop (suc fuel) number len =
    let longer = number_len_loop fuel (number / 10) (len + 1) in if number == 0 then len else longer

unfoldable pub number_len : ℕ → ℕ
unfolding number_len_loop
number_len number = number_len_loop number number 1

abbrev pub is_digit : ℕ → Bool
is_digit c = leb b'0' c && leb c b'9'

-- The loop of `parse_int`, from the `int` so far.
pub parse_loop : List ℕ → ℕ → Run ℕ
parse_loop [] n = ok n
parse_loop (c ∷ string) n =
    let next = n * 10 + (c - b'0') in
    let rest = parse_loop string next in
    if is_digit c
    then (if ltb (2 ^ 31 - 1) next then fault signed_overflow else rest)
    else (if ltb c 128 then ok n else fault invalid_char)

unfoldable pub parse_int : List ℕ → Run ℕ
unfolding parse_loop
parse_int string = parse_loop string 0

-- Each character is copied to `pp`, which moves on unless the character is `c`.
unfoldable pub remove_occur : List ℕ → ℕ → List ℕ
remove_occur [] c = []
remove_occur (x ∷ str) c = let rest = remove_occur str c in if x == c then rest else x ∷ rest

-- `chunklen` bytes of `chunk`, which the only caller gives its length.
unfoldable pub append_string : List ℕ → List ℕ → List ℕ
append_string src chunk = src ++ chunk
