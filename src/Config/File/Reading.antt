-- ===== src/Config/File/Reading.antt =====
-- The reading of a line and of its words, as `config_load` of sol/src/config.c does it.
use mqttbroker.Base.{
  ltb, ℕ, zero, suc, ◌≤◌, ◌<◌, ◌≡◌, refl, Bool, true, false, List, [], ◌∷◌, ◌++◌, arith, ok, length,
  ◌==◌,
}
use mqttbroker.Config.File.{is_space, fgets, until_nul, strip_spaces, unpack_bytes}
use mqttbroker.Config.File.Settings.{every, IsWord, line_char}

-- A text without newline and NUL, read up to its newline.
pub fgets-line :
    (s rest : List ℕ) (room : ℕ)
    → every line_char s ≡ true
    → length s < room
    → fgets room (s ++ (b'\n' ∷ rest)) ≡ (s ++ (b'\n' ∷ []), rest)
unfolding fgets
fgets-line s rest zero h lt = absurd (omega arith)
fgets-line [] rest (suc room) h lt = refl
fgets-line (c ∷ s) rest (suc room) h lt =
    let more : (c == b'\n') ≡ false = ground (arith, h) in
    rw (more, fgets-line s rest room (ground (arith, h)) (omega arith)) refl

pub until_nul-line :
    (s : List ℕ) → every line_char s ≡ true → until_nul (s ++ (b'\n' ∷ [])) ≡ s ++ (b'\n' ∷ [])
unfolding until_nul
until_nul-line [] h = refl
until_nul-line (c ∷ s) h =
    let more : (c == 0) ≡ false = ground (arith, h) in
    rw (more, until_nul-line s (ground (arith, h))) refl

-- A word up to a space.
pub unpack_bytes-word :
    (s rest : List ℕ) (c room : ℕ)
    → IsWord s
    → is_space c ≡ true
    → length s ≤ room
    → unpack_bytes room (s ++ (c ∷ rest)) ≡ ok (s, c ∷ rest)
unfolding unpack_bytes
unpack_bytes-word [] rest c zero w sp le = rw sp refl
unpack_bytes-word [] rest c (suc room) w sp le = rw sp refl
unpack_bytes-word (d ∷ s) rest c zero w sp le = absurd (omega arith)
unpack_bytes-word (d ∷ s) rest c (suc room) w sp le =
    let more : is_space d ≡ false = ground (arith, w) in
    let valid : ltb d 128 ≡ true = ground (arith, w) in
    rw (more, valid, unpack_bytes-word s rest c room (ground (arith, w)) sp (omega arith)) refl

-- A word with its newline, with the spaces before it left out.
pub unpack_bytes-value :
    (s : List ℕ) (room : ℕ)
    → IsWord s
    → length s ≤ room
    → (pval rest : List ℕ) × (strip_spaces (s ++ (b'\n' ∷ [])) ≡ ok pval)
      × (unpack_bytes room pval ≡ ok (s, rest))
unfolding strip_spaces
unpack_bytes-value [] zero w le = ([], [], refl, unfold unpack_bytes in refl)
unpack_bytes-value [] (suc room) w le = ([], [], refl, unfold unpack_bytes in refl)
unpack_bytes-value (c ∷ s) room w le =
    let more : is_space c ≡ false = ground (arith, w) in
    let valid : ltb c 128 ≡ true = ground (arith, w) in
    (
      c ∷ (s ++ (b'\n' ∷ [])),
      b'\n' ∷ [],
      rw (more, valid) refl,
      unpack_bytes-word (c ∷ s) [] b'\n' room w refl le,
    )

pub every-append :
    (p : ℕ → Bool) (s t : List ℕ) → every p s ≡ true → every p t ≡ true → every p (s ++ t) ≡ true
every-append p [] t hs ht = ht
every-append p (c ∷ s) t hs ht =
    let here : p c ≡ true = ground (arith, hs) in
    rw here (every-append p s t (ground (arith, hs)) ht)

pub every_mono :
    (p q : ℕ → Bool) (s : List ℕ)
    → ((c : ℕ) → p c ≡ true → q c ≡ true)
    → every p s ≡ true
    → every q s ≡ true
every_mono p q [] f h = refl
every_mono p q (c ∷ s) f h =
    let here : q c ≡ true = f c (ground (arith, h)) in
    rw here (every_mono p q s f (ground (arith, h)))
