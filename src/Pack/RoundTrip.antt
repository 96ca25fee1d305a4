-- ===== src/Pack/RoundTrip.antt =====
-- What the readers of pack.c make of what its writers wrote, and how far they read.
use mqttbroker.Base.{
  ℕ, zero, suc, ◌+◌, ◌-◌, ◌*◌, ◌/◌, ◌%◌, ◌^◌, ◌≤◌, ◌<◌, ◌≡◌, refl, ◌≢◌, inl, inr, List, [], ◌∷◌,
  ◌++◌, arith, Fault, out_of_bounds, Run, ok, fault, ◌>>=◌, Run-cases, length, take, drop,
  length-append, All,
}
use mqttbroker.Pack.{unpack_u16, copy_bytes, unpack_bytes, unpack_string16, Buffer, write, c_str}

-- A C string's characters: none is NUL.
abbrev pub IsText : List ℕ → Type 0
IsText = All (λ c. c ≢ 0)

-- A write that fits.
pub write-ok :
    (buf : Buffer) (bs : List ℕ)
    → length bs ≤ buf.room
    → write buf bs ≡ ok (record { out = buf.out ++ bs; room = buf.room - length bs })
unfolding write
write-ok buf bs h = ground arith

-- The same with the room that is left as a number of its own.
pub write_step :
    (out bs : List ℕ) (room left : ℕ)
    → room ≡ length bs + left
    → write (record { out = out; room = room }) bs ≡ ok (record { out = out ++ bs; room = left })
unfolding write
write_step out bs room left h = ground arith

pub write_then :
    (out bs : List ℕ) (room left : ℕ) (k : Buffer → Run Buffer) (r : Buffer)
    → room ≡ length bs + left
    → k (record { out = out ++ bs; room = left }) ≡ ok r
    → (write (record { out = out; room = room }) bs >>= k) ≡ ok r
write_then out bs room left k r e h = rw (write_step out bs room left e) h

-- The write that fills the memory.
pub write_last :
    (out bs target : List ℕ)
    → out ++ bs ≡ target
    → write (record { out = out; room = length bs }) bs ≡ ok (record { out = target; room = 0 })
unfolding write
write_last out bs target e = ground (arith, e)

copy_bytes-append : (bs rest : List ℕ) → copy_bytes (bs ++ rest) (length bs) ≡ ok (bs, rest)
unfolding copy_bytes
copy_bytes-append [] rest = refl
copy_bytes-append (b ∷ bs) rest = rw (copy_bytes-append bs rest)

pub unpack_bytes-append :
    (bs rest : List ℕ) → unpack_bytes (bs ++ rest) (length bs) ≡ ok (bs ++ (0 ∷ []), rest)
unfolding unpack_bytes
unpack_bytes-append bs rest = rw (copy_bytes-append bs rest)

copy_bytes-take :
    (n : ℕ) (bs rest : List ℕ)
    → n ≤ length bs
    → copy_bytes (bs ++ rest) n ≡ ok (take n bs, drop n bs ++ rest)
unfolding copy_bytes
copy_bytes-take zero bs rest h = refl
copy_bytes-take (suc n) [] rest h = absurd (omega arith)
copy_bytes-take (suc n) (b ∷ bs) rest h = rw (copy_bytes-take n bs rest (omega arith))

pub unpack_bytes-take :
    (n : ℕ) (bs rest : List ℕ)
    → n ≤ length bs
    → unpack_bytes (bs ++ rest) n ≡ ok (take n bs ++ (0 ∷ []), drop n bs ++ rest)
unfolding unpack_bytes
unpack_bytes-take n bs rest h = rw (copy_bytes-take n bs rest h)

copy_bytes_takes :
    (buf : List ℕ) (len : ℕ) (str rest : List ℕ)
    → copy_bytes buf len ≡ ok (str, rest)
    → (length str ≡ len) × (buf ≡ str ++ rest)
unfolding copy_bytes
copy_bytes_takes buf zero str rest h = ground arith
copy_bytes_takes [] (suc len) str rest h = ground arith
copy_bytes_takes (b ∷ buf) (suc len) str rest h = elim (Run-cases (copy_bytes buf len)) [
  | inl ((s, r), e) ↦ ground (arith, e, copy_bytes_takes buf len s r e)
  | inr (x, e) ↦ ground (arith, e)
]

-- The bytes of a 16-bit number on the wire.
abbrev pub u16_bytes : ℕ → List ℕ
u16_bytes v = (v / 256 % 256) ∷ (v % 256) ∷ []

pub unpack_u16-u16_bytes :
    (v : ℕ) (rest : List ℕ) → v < 2 ^ 16 → unpack_u16 (u16_bytes v ++ rest) ≡ ok (v, rest)
unfolding unpack_u16
unpack_u16-u16_bytes v rest h = ground arith

pub unpack_string16-append :
    (str rest : List ℕ)
    → length str < 2 ^ 16
    → unpack_string16 (u16_bytes (length str) ++ (str ++ rest))
      ≡ ok (length str, str ++ (0 ∷ []), rest)
unfolding unpack_string16 unpack_u16
unpack_string16-append str rest h =
    let e : length str / 256 % 256 * 256 + length str % 256 ≡ length str = omega arith in
    rw (e, unpack_bytes-append str rest)

-- The characters of the memory that `unpack_bytes` fills, whatever follows the terminator.
pub c_str-append : (str junk : List ℕ) → IsText str → c_str (str ++ (0 ∷ junk)) ≡ ok str
unfolding c_str
c_str-append [] junk h = refl
c_str-append (c ∷ str) junk h = ground (arith, c_str-append str junk)

pub c_str-IsText : (mem str : List ℕ) → c_str mem ≡ ok str → IsText str × (length str < length mem)
unfolding c_str
c_str-IsText [] str h = ground arith
c_str-IsText (c ∷ mem) str h = elim (Run-cases (c_str mem)) [
  | inl (s, e) ↦ ground (arith, e, c_str-IsText mem s e)
  | inr (x, e) ↦ ground (arith, e)
]

-- A string that was read: its length, and the buffer as it is made up.
pub unpack_string16_takes :
    (buf : List ℕ) (len : ℕ) (dest rest : List ℕ)
    → unpack_string16 buf ≡ ok (len, dest, rest)
    → length buf ≡ 2 + len + length rest
unfolding unpack_string16 unpack_u16 unpack_bytes
unpack_string16_takes [] len dest rest h = cc
unpack_string16_takes (hi ∷ []) len dest rest h = cc
unpack_string16_takes (hi ∷ lo ∷ buf) len dest rest h =
    elim (Run-cases (copy_bytes buf (hi * 256 + lo))) [
      | inl ((s, r), e) ↦
          ground (arith, e, copy_bytes_takes buf (hi * 256 + lo) s r e, length-append s r)
      | inr (x, e) ↦ ground (arith, e)
    ]

copy_bytes-fault :
    (buf : List ℕ) (len : ℕ) {x : Fault} → copy_bytes buf len ≡ fault x → x ≡ out_of_bounds
unfolding copy_bytes
copy_bytes-fault buf zero h = cc
copy_bytes-fault [] (suc len) h = cc
copy_bytes-fault (b ∷ buf) (suc len) {x} h = elim (Run-cases (copy_bytes buf len)) [
  | inl ((s, r), e) ↦ ground (arith, e)
  | inr (y, e) ↦ ground (arith, e, copy_bytes-fault buf len e)
]

-- The readers fail in one way only.
pub unpack_string16-fault :
    (buf : List ℕ) {x : Fault} → unpack_string16 buf ≡ fault x → x ≡ out_of_bounds
unfolding unpack_string16 unpack_u16 unpack_bytes
unpack_string16-fault [] h = cc
unpack_string16-fault (hi ∷ []) h = cc
unpack_string16-fault (hi ∷ lo ∷ buf) h = elim (Run-cases (copy_bytes buf (hi * 256 + lo))) [
  | inl ((s, r), e) ↦ ground (arith, e)
  | inr (y, e) ↦ ground (arith, e, copy_bytes-fault buf (hi * 256 + lo) e)
]

pub unpack_bytes-fault :
    (buf : List ℕ) (len : ℕ) {x : Fault} → unpack_bytes buf len ≡ fault x → x ≡ out_of_bounds
unfolding unpack_bytes
unpack_bytes-fault buf len h = elim (Run-cases (copy_bytes buf len)) [
  | inl ((s, r), e) ↦ ground (arith, e)
  | inr (y, e) ↦ ground (arith, e, copy_bytes-fault buf len e)
]
