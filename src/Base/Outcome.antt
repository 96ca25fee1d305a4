-- ===== src/Base/Outcome.antt =====
-- Undefined behaviour of the C code as a value: what a statement does is `ok`, or the fault that
-- it runs into.
use mathlib.Core.Path.{◌≡◌, refl}
use mathlib.Core.Logic.{◌⊎◌, inl, inr}

-- `out_of_bounds`: a read or write outside the buffer; `signed_overflow`: `int` arithmetic out of
-- range; `null_call`: a call of a NULL function pointer; `null_deref`: a read through NULL;
-- `bad_index`: an index past the end of a static table; `wrong_member`: a read of a member of the
-- packet union that is not the one stored; `invalid_char`: `isspace` or `isdigit` of a `char` that
-- is negative; `double_free`: memory freed a second time; `dangling`: a
-- pointer to memory that is not allocated; `out_of_fuel`: no C behaviour, a model's loop that ran
-- out of rounds.
pub data Fault : Type 0 where
  out_of_bounds signed_overflow null_call null_deref bad_index wrong_member : Fault
  double_free dangling invalid_char out_of_fuel : Fault

-- The fault that ended the run, or what it gave.
pub data Run {ℓ} (A : Type ℓ) : Type ℓ where
  fault : Fault → Run A
  ok : A → Run A

-- The next statement runs on what the one before it gave.
infixl 5 ◌>>=◌
abbrev pub ◌>>=◌ {ℓ κ} : {A : Type ℓ} {B : Type κ} (first : Run A) (next : A → Run B) → Run B
fault why >>= next = fault why
ok given >>= next = next given

module _ {ℓ} {A : Type ℓ} where
  -- The run ends without a fault, in a value of which `Post` holds.
  abbrev pub Returns {κ} : (run : Run A) (Post : A → Type κ) → Type (ℓ ⊔ κ)
  Returns run Post = (given : A) × (run ≡ ok given) × Post given

  pub Run-cases :
      (run : Run A) → ((given : A) × (run ≡ ok given)) ⊎ ((why : Fault) × (run ≡ fault why))
  Run-cases (fault why) = inr (why, refl)
  Run-cases (ok given) = inl (given, refl)

  -- Where two statements in a row end without a fault, the first of them did.
  pub >>=-eq-ok {κ} :
      {B : Type κ} (first : Run A) (next : A → Run B) {last : B}
      → (first >>= next) ≡ ok last
      → (given : A) × (first ≡ ok given) × (next given ≡ ok last)
  >>=-eq-ok (fault why) next both = cc
  >>=-eq-ok (ok given) next both = (given, refl, both)

-- The run ends well, or in an `int` that is too large, or in the test of a negative `char`.
abbrev pub KeepsArrays {ℓ} : {A : Type ℓ} → Run A → Type ℓ
KeepsArrays {A = A} run =
    ((given : A) × (run ≡ ok given)) ⊎ (run ≡ fault signed_overflow) ⊎ (run ≡ fault invalid_char)

-- A next statement that ends so keeps it.
pub >>=-KeepsArrays {ℓ κ} :
    {A : Type ℓ} {B : Type κ} (first : Run A) (next : A → Run B)
    → KeepsArrays first
    → ((given : A) → first ≡ ok given → KeepsArrays (next given))
    → KeepsArrays (first >>= next)
>>=-KeepsArrays first next (inl (given, e)) f = rw e (f given e)
>>=-KeepsArrays first next (inr (inl e)) f = rw e (inr (inl refl))
>>=-KeepsArrays first next (inr (inr e)) f = rw e (inr (inr refl))
