-- ===== src/Pack.antt =====
-- sol/src/pack.c: integers and strings in network byte order, read from and written to raw memory.
-- A pointer into a buffer is the list of the bytes from there on; a read past its end faults.
-- A pointer into memory that is being filled is a `Buffer`.
pub mod RoundTrip
use mqttbroker.Base.{
  ℕ, zero, suc, ◌+◌, ◌-◌, ◌*◌, ◌/◌, ◌%◌, ◌^◌, List, [], ◌∷◌, ◌++◌, Run, ok, fault, out_of_bounds,
  ◌>>=◌, if◌then◌else◌, leb, ◌==◌, length,
}

unfoldable pub unpack_u8 : List ℕ → Run (ℕ × List ℕ)
unpack_u8 [] = fault out_of_bounds
unpack_u8 (b ∷ buf) = ok (b, buf)

-- `memcpy` of two bytes and `ntohs`.
unfoldable pub unpack_u16 : List ℕ → Run (ℕ × List ℕ)
unpack_u16 [] = fault out_of_bounds
unpack_u16 (hi ∷ []) = fault out_of_bounds
unpack_u16 (hi ∷ lo ∷ buf) = ok (hi * 256 + lo, buf)

-- `memcpy` of four bytes and `ntohl`.
unfoldable pub unpack_u32 : List ℕ → Run (ℕ × List ℕ)
unpack_u32 buf = do
  (hi, buf₁) ← unpack_u16 buf
  (lo, buf₂) ← unpack_u16 buf₁
  ok (hi * 2 ^ 16 + lo, buf₂)

copy_bytes : List ℕ → ℕ → Run (List ℕ × List ℕ)
copy_bytes buf zero = ok ([], buf)
copy_bytes [] (suc len) = fault out_of_bounds
copy_bytes (b ∷ buf) (suc len) = do (str, rest) ← copy_bytes buf len; ok (b ∷ str, rest)

-- The memory behind `str`: `len` bytes of the buffer and the terminating NUL.
unfoldable pub unpack_bytes : List ℕ → ℕ → Run (List ℕ × List ℕ)
unfolding copy_bytes
unpack_bytes buf len = do (str, rest) ← copy_bytes buf len; ok (str ++ (0 ∷ []), rest)

-- The length that the prefix states, the memory behind `*dest`, and the rest of the buffer.
unfoldable pub unpack_string16 : List ℕ → Run (ℕ × List ℕ × List ℕ)
unpack_string16 buf = do
  (len, buf₁) ← unpack_u16 buf
  (dest, buf₂) ← unpack_bytes buf₁ len
  ok (len, dest, buf₂)

-- Memory from `malloc`: what has been written, in order, and how many bytes are left.
pub record Buffer : Type 0 where
  pub out : List ℕ
  pub room : ℕ

unfoldable pub malloc : ℕ → Buffer
malloc size = record { out = []; room = size }

-- `memcpy(*buf, bs, n); *buf += n`
unfoldable pub write : Buffer → List ℕ → Run Buffer
write buf bs =
    if leb (length bs) buf.room
    then ok (record { out = buf.out ++ bs; room = buf.room - length bs })
    else fault out_of_bounds

unfoldable pub pack_u8 : Buffer → ℕ → Run Buffer
pack_u8 buf val = write buf ((val % 256) ∷ [])

unfoldable pub pack_u16 : Buffer → ℕ → Run Buffer
pack_u16 buf val = write buf ((val / 256 % 256) ∷ (val % 256) ∷ [])

unfoldable pub pack_u32 : Buffer → ℕ → Run Buffer
pack_u32 buf val =
    write buf ((val / 2 ^ 24 % 256) ∷ (val / 2 ^ 16 % 256) ∷ (val / 256 % 256) ∷ (val % 256) ∷ [])

-- The characters that `strlen` counts: up to the first NUL, which has to be there.
unfoldable pub c_str : List ℕ → Run (List ℕ)
c_str [] = fault out_of_bounds
c_str (c ∷ mem) = let rest = c_str mem in if c == 0 then ok [] else do str ← rest; ok (c ∷ str)

unfoldable pub pack_bytes : Buffer → List ℕ → Run Buffer
pack_bytes buf mem = do str ← c_str mem; write buf str
