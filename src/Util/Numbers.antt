-- ===== src/Util/Numbers.antt =====
-- Decimal numbers: how long `number_len` takes them to be, and what `parse_int` reads.
use mqttbroker.Base.{
  ℕ, zero, suc, ◌+◌, ◌-◌, ◌*◌, ◌/◌, ◌^◌, ◌≤◌, ◌<◌, ◌≡◌, refl, ◌≢◌, inl, inr, true, List, [], ◌∷◌,
  ◌++◌, map, arith, signed_overflow, ok, fault, All, ltb, ◌==◌, if◌then◌else◌, Bool-cases,
}
use native.Mathlib.Nat.{pow-suc}
use native.Mathlib.Decide.{dec_lt}
use mqttbroker.Util.{number_len_loop, number_len, is_digit, parse_loop, parse_int}

-- One more digit, from the digits of the tenth part.
next_digit :
    (d number : ℕ)
    → (number / 10 ≡ 0 → d ≡ 0)
    → (0 < number / 10 → 10 ^ d ≤ number / 10 * 10)
    → 0 < number
    → 10 ^ suc d ≤ number * 10
next_digit d number none_left above p = elim (dec_lt 0 (number / 10)) [
  | yes q ↦ omega (arith, pow-suc 10 d, above q)
  | no q ↦ let e : d ≡ 0 = none_left (omega arith) in rw e (omega arith)
]

number_len_loop-digits :
    (fuel number len : ℕ)
    → number ≤ fuel
    → (d : ℕ) × (number_len_loop fuel number len ≡ len + d)
      × (number < 10 ^ d)
      × (number ≡ 0 → d ≡ 0)
      × (0 < number → 10 ^ d ≤ number * 10)
unfolding number_len_loop
number_len_loop-digits zero number len h =
    (0, omega arith, omega arith, λ e. refl, λ p. absurd (omega arith))
number_len_loop-digits (suc fuel) number len h = elim (Bool-cases (number == 0)) [
  | inl none_left ↦
      let e : number ≡ 0 = ground (arith, none_left) in
      rw none_left (0, omega arith, omega arith, λ q. refl, λ p. absurd (omega arith))
  | inr more ↦
      let ne : number ≢ 0 = ground (arith, more) in
      let (d, e, below, bare, above) =
        number_len_loop-digits fuel (number / 10) (len + 1) (omega arith) in
      rw more (
        suc d,
        omega (arith, e),
        omega (arith, below, pow-suc 10 d),
        λ q. absurd (ne q),
        λ p. next_digit d number bare above p,
      )
]

-- `number_len` is one more than `d`, where `d` is the number of decimal digits: the number lies
-- below `10 ^ d`, and, unless it is 0 and `d` too, not below `10 ^ (d - 1)`.
pub number_len-digits :
    (number : ℕ)
    → (d : ℕ) × (number_len number ≡ d + 1)
      × (number < 10 ^ d)
      × (number ≡ 0 → d ≡ 0)
      × (0 < number → 10 ^ d ≤ number * 10)
unfolding number_len
number_len-digits number =
    let (d, e, below, bare, above) = number_len_loop-digits number number 1 (omega arith) in
    (d, omega (arith, e), below, bare, above)

-- The value of decimal digits behind a number.
abbrev pub decimal : ℕ → List ℕ → ℕ
decimal n [] = n
decimal n (d ∷ ds) = decimal (n * 10 + d) ds

abbrev pub digit : ℕ → ℕ
digit d = b'0' + d

abbrev pub IsDigit : ℕ → Type 0
IsDigit d = d < 10

decimal_grows : (ds : List ℕ) (n : ℕ) → n ≤ decimal n ds
decimal_grows [] n = omega arith
decimal_grows (d ∷ ds) n = omega (arith, decimal_grows ds (n * 10 + d))

parse_loop-digits :
    (ds rest : List ℕ) (n : ℕ)
    → All IsDigit ds
    → parse_loop rest (decimal n ds) ≡ ok (decimal n ds)
    → n < 2 ^ 31
    → parse_loop (map digit ds ++ rest) n
      ≡ (if ltb (decimal n ds) (2 ^ 31) then ok (decimal n ds) else fault signed_overflow)
unfolding parse_loop
parse_loop-digits [] rest n h e lt = rw e (ground arith)
parse_loop-digits (d ∷ ds) rest n (hd, h) e lt =
    let value : b'0' + d - b'0' ≡ d = omega arith in
    let is : is_digit (b'0' + d) ≡ true = ground arith in
    elim (Bool-cases (ltb (2 ^ 31 - 1) (n * 10 + d))) [
      | inl over ↦ rw (is, value, over) (ground (arith, over, decimal_grows ds (n * 10 + d)))
      | inr fits ↦
          rw (is, value, fits) (parse_loop-digits ds rest (n * 10 + d) h e (ground (arith, fits)))
    ]

-- `parse_int` on decimal digits, up to the end of the string or another character: their value if
-- it is an `int`, and otherwise the `int` overflows.
pub parse_int-digits :
    (ds rest : List ℕ)
    → All IsDigit ds
    → ((n : ℕ) → parse_loop rest n ≡ ok n)
    → parse_int (map digit ds ++ rest)
      ≡ (if ltb (decimal 0 ds) (2 ^ 31) then ok (decimal 0 ds) else fault signed_overflow)
unfolding parse_int
parse_int-digits ds rest h e = parse_loop-digits ds rest 0 h (e (decimal 0 ds)) (omega arith)
