-- ===== src/Base/Bits.antt =====
-- The masks of the length encoding on one byte, as arithmetic.
use Prim.Native.Nat.{ℕ, zero, suc, ◌+◌, ◌*◌, ◌/◌, ◌%◌, ◌≤◌, ◌<◌, bit_and, bit_or}
use mathlib.Core.Path.{◌≡◌, refl}
use mathlib.Core.Logic.{inl, inr}
use mathlib.Core.Bool.{Bool, true, false}
use native.Mathlib.Omega.{arith}
use mqttbroker.Base.Tests.{◌==◌, if◌then◌else◌, Bool-cases}

-- Whether two functions agree on the `left` numbers from `i` on.
agree_from : (ℕ → ℕ) → (ℕ → ℕ) → ℕ → ℕ → Bool
agree_from f g zero i = true
agree_from f g (suc left) i =
    let later = agree_from f g left (i + 1) in if f i == g i then later else false

agree_from-at :
    (f g : ℕ → ℕ) (left i x : ℕ) → i ≤ x → x < i + left → agree_from f g left i ≡ true → f x ≡ g x
unfolding agree_from
agree_from-at f g zero i x lo hi h = absurd (omega arith)
agree_from-at f g (suc left) i x lo hi h = elim (Bool-cases (i == x)) [
  | inl here ↦ let e : x ≡ i = ground (arith, here) in rw e (ground (arith, h))
  | inr later ↦
      agree_from-at f g left (i + 1) x (ground (arith, later)) (omega arith) (ground (arith, h))
]

abbrev low_seven : ℕ → ℕ
low_seven c = bit_and c 127

abbrev top_one : ℕ → ℕ
top_one c = bit_and c 128

abbrev with_top : ℕ → ℕ
with_top c = bit_or c 128

bytes_checked : agree_from low_seven (λ c. c % 128) 256 0 ≡ true
unfolding agree_from
bytes_checked = refl

tops_checked : agree_from top_one (λ c. c / 128 * 128) 256 0 ≡ true
unfolding agree_from
tops_checked = refl

marks_checked : agree_from with_top (λ c. c + 128) 128 0 ≡ true
unfolding agree_from
marks_checked = refl

pub low_bits : (c : ℕ) → c < 256 → bit_and c 127 ≡ c % 128
low_bits c h =
    agree_from-at low_seven (λ c. c % 128) 256 0 c (omega arith) (omega arith) bytes_checked

pub top_bit : (c : ℕ) → c < 256 → bit_and c 128 ≡ c / 128 * 128
top_bit c h =
    agree_from-at top_one (λ c. c / 128 * 128) 256 0 c (omega arith) (omega arith) tops_checked

pub set_top_bit : (c : ℕ) → c < 128 → bit_or c 128 ≡ c + 128
set_top_bit c h =
    agree_from-at with_top (λ c. c + 128) 128 0 c (omega arith) (omega arith) marks_checked
