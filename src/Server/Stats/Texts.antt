-- ===== src/Server/Stats/Texts.antt =====
-- What `publish_stats` of sol/src/server.c prints of its counters.
use mqttbroker.Base.{
  ℕ, zero, suc, ◌+◌, ◌^◌, ◌≤◌, ◌<◌, ◌≡◌, refl, ◌≢◌, Bool, true, false, ◌&&◌, not, List, [], ◌∷◌,
  ◌++◌, map, arith, ok, length, length-map, All, ◌==◌, lt→ltb,
}
use mqttbroker.Pack.{c_str}
use mqttbroker.Util.{number_len}
use mqttbroker.Util.Numbers.{digit, IsDigit}
use mqttbroker.Util.Print.{
  pos, to_long, show_int, digits, digits-IsDigit, digits-short, number_len-length,
}
use mqttbroker.Server.Stats.{sprintf}

-- The text has no NUL.
abbrev pub NoNul : List ℕ → Type 0
NoNul = All (λ c. c ≢ 0)

pub c_str-NoNul : (s : List ℕ) → NoNul s → c_str (s ++ (0 ∷ [])) ≡ ok s
unfolding c_str
c_str-NoNul [] h = refl
c_str-NoNul (c ∷ s) (here, later) =
    let more : (c == 0) ≡ false = ground (arith, here) in rw (more, c_str-NoNul s later) refl

digits-NoNul : (ds : List ℕ) → All IsDigit ds → NoNul (map digit ds)
digits-NoNul [] h = tt
digits-NoNul (d ∷ ds) (here, later) = (λ e. absurd (omega (arith, e)), digits-NoNul ds later)

show_int-NoNul : (n : ℕ) → NoNul (show_int (pos n))
unfolding show_int
show_int-NoNul n = digits-NoNul (digits n) (digits-IsDigit n)

show_int-short : (n : ℕ) → n < 2 ^ 63 → length (show_int (pos n)) ≤ 19
unfolding show_int
show_int-short n h =
    omega (arith, length-map digit (digits n), digits-short 18 n (omega (arith, h)))

number_len-enough : (n : ℕ) → length (show_int (pos n)) < number_len n + 1
unfolding show_int
number_len-enough zero = unfold number_len digits in omega arith
number_len-enough (suc n) =
    omega (arith, length-map digit (digits (suc n)), number_len-length (suc n) (omega arith))

pub sprintf_fits : (size : ℕ) (s : List ℕ) → length s < size → sprintf size s ≡ ok (s ++ (0 ∷ []))
unfolding sprintf
sprintf_fits size s h = rw (lt→ltb (length s) size h) refl

-- The array of a counter holds its text.
pub sprintf-show :
    (n : ℕ) → sprintf (number_len n + 1) (show_int (pos n)) ≡ ok (show_int (pos n) ++ (0 ∷ []))
sprintf-show n = sprintf_fits (number_len n + 1) (show_int (pos n)) (number_len-enough n)

pub to_long_small : (n : ℕ) → n < 2 ^ 63 → to_long n ≡ pos n
unfolding to_long
to_long_small n h = rw (lt→ltb n (2 ^ 63) h) refl

-- A text that a message can carry.
pub record Fits (str : List ℕ) : Type 0 where
  pub nul : NoNul str
  pub short : length str < 2 ^ 16

unfoldable pub all_nonzero : List ℕ → Bool
all_nonzero [] = true
all_nonzero (c ∷ s) = not (c == 0) && all_nonzero s

NoNul-all_nonzero : (s : List ℕ) → all_nonzero s ≡ true → NoNul s
unfolding all_nonzero
NoNul-all_nonzero [] e = tt
NoNul-all_nonzero (c ∷ s) e = (ground (arith, e), NoNul-all_nonzero s (ground (arith, e)))

pub show_int-Fits : (n : ℕ) → n < 2 ^ 63 → Fits (show_int (pos n))
show_int-Fits n h = record { nul = show_int-NoNul n; short = omega (arith, show_int-short n h) }

pub topic-Fits : (topic : List ℕ) → all_nonzero topic ≡ true → length topic < 2 ^ 16 → Fits topic
topic-Fits topic e h = record { nul = NoNul-all_nonzero topic e; short = h }
