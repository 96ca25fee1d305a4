-- ===== src/Util/Print.antt =====
-- What `snprintf` and `sprintf` of the C library leave for a decimal number, as sol/src/config.c and
-- sol/src/server.c call them, and how `parse_int` and `number_len` of sol/src/util.c meet it.
use native.Mathlib.Nat.{pow-suc}
use mqttbroker.Base.{
  not, ◌&&◌, ℕ, zero, suc, ◌+◌, ◌-◌, ◌*◌, ◌/◌, ◌%◌, ◌^◌, ◌≤◌, ◌<◌, ◌≡◌, refl, true, ◌∙◌, inl, inr,
  false, List, [], ◌∷◌, ◌++◌, map, arith, ok, KeepsArrays, length, take, length-append, All, ltb,
  ◌==◌, if◌then◌else◌, ltb→lt, lt→ltb, Bool-cases,
}
use mqttbroker.Util.{number_len_loop, number_len, is_digit, parse_loop, parse_int}
use mqttbroker.Util.Numbers.{decimal, digit, IsDigit, parse_int-digits}

-- An `int` or a `long long`: `negsuc n` is the number `- n - 1`.
pub data ℤ : Type 0 where
  pos negsuc : ℕ → ℤ

-- The conversion of an unsigned number to `int`.
unfoldable pub to_int : ℕ → ℤ
to_int n = let low = n % 2 ^ 32 in if ltb low (2 ^ 31) then pos low else negsuc (2 ^ 32 - 1 - low)

-- The value of 64 bits as a `long long`.
unfoldable pub to_long : ℕ → ℤ
to_long n = if ltb n (2 ^ 63) then pos n else negsuc (2 ^ 64 - 1 - n)

-- The conversion of an `int` to `size_t`.
abbrev pub to_size : ℤ → ℕ
to_size (pos n) = n
to_size (negsuc n) = 2 ^ 64 - 1 - n

-- The decimal digits, the last one split off in each round; `number` rounds are enough.
digits_loop : ℕ → ℕ → List ℕ
digits_loop zero number = number ∷ []
digits_loop (suc fuel) number =
    let before = digits_loop fuel (number / 10) in
    if ltb number 10 then number ∷ [] else before ++ (number % 10) ∷ []

unfoldable pub digits : ℕ → List ℕ
unfolding digits_loop
digits number = digits_loop number number

-- `%d`
unfoldable pub show_int : ℤ → List ℕ
unfolding digits
show_int (pos n) = map digit (digits n)
show_int (negsuc n) = b'-' ∷ map digit (digits (n + 1))

-- `snprintf` into `size` bytes keeps one of them for the NUL.
unfoldable pub snprintf : ℕ → List ℕ → List ℕ
snprintf zero s = []
snprintf (suc room) s = take room s

pub to_int_small : (n : ℕ) → n < 2 ^ 31 → to_int n ≡ pos n
unfolding to_int
to_int_small n h = let e : n % 2 ^ 32 ≡ n = omega arith in rw e (ground arith)

decimal-concat : (n : ℕ) (ds : List ℕ) (d : ℕ) → decimal n (ds ++ d ∷ []) ≡ decimal n ds * 10 + d
decimal-concat n [] d = refl
decimal-concat n (e ∷ ds) d = decimal-concat (n * 10 + e) ds d

digits_loop_value : (fuel n : ℕ) → n ≤ fuel → decimal 0 (digits_loop fuel n) ≡ n
unfolding digits_loop
digits_loop_value zero n h = omega arith
digits_loop_value (suc fuel) n h = elim (Bool-cases (ltb n 10)) [
  | inl one ↦ rw one (omega arith)
  | inr more ↦
      let le : n / 10 ≤ fuel = ground (arith, more) in
      rw (more, decimal-concat, digits_loop_value fuel (n / 10) le) (omega arith)
]

pub digits_value : (n : ℕ) → decimal 0 (digits n) ≡ n
unfolding digits
digits_value n = digits_loop_value n n (omega arith)

All-concat : (ds : List ℕ) (d : ℕ) → All IsDigit ds → IsDigit d → All IsDigit (ds ++ d ∷ [])
All-concat [] d h hd = (hd, tt)
All-concat (e ∷ ds) d (he, h) hd = (he, All-concat ds d h hd)

digits_loop-IsDigit : (fuel n : ℕ) → n ≤ fuel → All IsDigit (digits_loop fuel n)
unfolding digits_loop
digits_loop-IsDigit zero n h = (omega arith, tt)
digits_loop-IsDigit (suc fuel) n h = elim (Bool-cases (ltb n 10)) [
  | inl one ↦ rw one (omega (arith, ltb→lt n 10 one), tt)
  | inr more ↦
      let le : n / 10 ≤ fuel = ground (arith, more) in
      rw more (All-concat _ _ (digits_loop-IsDigit fuel (n / 10) le) (omega arith))
]

pub digits-IsDigit : (n : ℕ) → All IsDigit (digits n)
unfolding digits
digits-IsDigit n = digits_loop-IsDigit n n (omega arith)

number_len_loop_zero : (fuel len : ℕ) → number_len_loop fuel 0 len ≡ len
unfolding number_len_loop
number_len_loop_zero zero len = refl
number_len_loop_zero (suc fuel) len = refl

number_len_loop-length :
    (fuel n len : ℕ)
    → n ≤ fuel
    → 0 < n
    → number_len_loop fuel n len ≡ len + length (digits_loop fuel n)
unfolding number_len_loop digits_loop
number_len_loop-length zero n len h p = absurd (omega arith)
number_len_loop-length (suc fuel) n len h p =
    let nonzero : (n == 0) ≡ false = ground arith in
    elim (Bool-cases (ltb n 10)) [
      | inl one ↦
          let none_left : n / 10 ≡ 0 = ground (arith, one) in
          rw (nonzero, one, none_left, number_len_loop_zero) (omega arith)
      | inr more ↦
          let le : n / 10 ≤ fuel = ground (arith, more) in
          let some_left : 0 < n / 10 = ground (arith, more) in
          rw (nonzero, more, number_len_loop-length fuel (n / 10) (len + 1) le some_left)
            (omega (arith, length-append {0} (digits_loop fuel (n / 10)) (n % 10 ∷ [])))
    ]

digits_loop-short : (k fuel n : ℕ) → n < 10 ^ suc k → length (digits_loop fuel n) ≤ suc k
unfolding digits_loop
digits_loop-short k zero n h = omega arith
digits_loop-short zero (suc fuel) n h =
    let one : ltb n 10 ≡ true = lt→ltb n 10 (omega (arith, h)) in rw one (omega arith)
digits_loop-short (suc k) (suc fuel) n h = elim (Bool-cases (ltb n 10)) [
  | inl one ↦ rw one (omega arith)
  | inr more ↦
      let le : n / 10 < 10 ^ suc k = omega (arith, h, pow-suc 10 (suc k)) in
      rw more (
        omega (
          arith,
          digits_loop-short k fuel (n / 10) le,
          length-append {0} (digits_loop fuel (n / 10)) (n % 10 ∷ []),
        ))
]

-- A number below `10 ^ suc k` has no more than `suc k` digits.
pub digits-short : (k n : ℕ) → n < 10 ^ suc k → length (digits n) ≤ suc k
unfolding digits
digits-short k n h = digits_loop-short k n n h

-- `number_len` has a place more than the digits take, but for 0.
pub number_len-length : (n : ℕ) → 0 < n → number_len n ≡ length (digits n) + 1
unfolding number_len digits
number_len-length n p = omega (arith, number_len_loop-length n n 1 (omega arith) p)

-- The text starts with no digit, and with no negative `char`.
abbrev pub Stops : List ℕ → Type 0
Stops [] = Unit {0}
Stops (c ∷ unit) = (not (is_digit c) && ltb c 128) ≡ true

pub parse_loop-Stops : (unit : List ℕ) (n : ℕ) → Stops unit → parse_loop unit n ≡ ok n
unfolding parse_loop
parse_loop-Stops [] n h = refl
parse_loop-Stops (c ∷ unit) n h =
    let other : is_digit c ≡ false = ground (arith, h) in
    let valid : ltb c 128 ≡ true = ground (arith, h) in rw (other, valid) refl

-- A number with a unit behind it is read as the number.
pub parse_int-show :
    (n : ℕ) (unit : List ℕ) → n < 2 ^ 31 → Stops unit → parse_int (show_int (pos n) ++ unit) ≡ ok n
unfolding show_int
parse_int-show n unit h s =
    parse_int-digits (digits n) unit (digits-IsDigit n) (λ k. parse_loop-Stops unit k s)
    ∙ rw (digits_value n, lt→ltb n (2 ^ 31) h) refl

parse_loop-KeepsArrays : (s : List ℕ) (n : ℕ) → KeepsArrays (parse_loop s n)
unfolding parse_loop
parse_loop-KeepsArrays [] n = inl (n, refl)
parse_loop-KeepsArrays (c ∷ s) n = elim (Bool-cases (is_digit c)) [
  | inr other ↦ elim (Bool-cases (ltb c 128)) [
    | inl valid ↦ rw (other, valid) (inl (n, refl))
    | inr negative ↦ rw (other, negative) (inr (inr refl))
  ]
  | inl is ↦ elim (Bool-cases (ltb (2 ^ 31 - 1) (n * 10 + (c - b'0')))) [
    | inl over ↦ rw (is, over) (inr (inl refl))
    | inr fits ↦ rw (is, fits) (parse_loop-KeepsArrays s (n * 10 + (c - b'0')))
  ]
]

pub parse_int-KeepsArrays : (s : List ℕ) → KeepsArrays (parse_int s)
unfolding parse_int
parse_int-KeepsArrays s = parse_loop-KeepsArrays s 0
