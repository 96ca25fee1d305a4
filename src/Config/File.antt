-- ===== src/Config/File.antt =====
-- The configuration file of sol/src/config.c, line by line.
pub mod Settings
pub mod Reading
pub mod Values
pub mod Load
pub mod Bounds
use mqttbroker.Base.{
  ◌+◌, ◌^◌, ltb, signed_overflow, invalid_char, ℕ, zero, suc, Bool, true, false, ◌&&◌, ◌||◌, Option,
  none, some, List, [], ◌∷◌, out_of_bounds, out_of_fuel, Run, ok, fault, ◌>>=◌, length, leb, ◌==◌,
  if◌then◌else◌,
}
use mqttbroker.Config.Options.{Config, add_config_value}

-- `isspace` in the C locale
abbrev pub is_space : ℕ → Bool
is_space c = c == b' ' || (leb b'\t' c && leb c b'\r')

-- `fgets` with `room` bytes and one for the NUL: the line, its newline included, and the rest of
-- the file.
unfoldable pub fgets : ℕ → List ℕ → List ℕ × List ℕ
fgets zero file = ([], file)
fgets (suc room) [] = ([], [])
fgets (suc room) (c ∷ file) =
    let (line, rest) = fgets room file in if c == b'\n' then (c ∷ [], file) else (c ∷ line, rest)

-- What the string functions see of the line: it ends at the first NUL.
unfoldable pub until_nul : List ℕ → List ℕ
until_nul [] = []
until_nul (c ∷ line) = let rest = until_nul line in if c == 0 then [] else c ∷ rest

-- `isspace` has no result for a negative `char`.
unfoldable pub strip_spaces : List ℕ → Run (List ℕ)
strip_spaces [] = ok []
strip_spaces (c ∷ str) =
    let rest = strip_spaces str in
    if is_space c then rest else if ltb c 128 then ok (c ∷ str) else fault invalid_char

-- The characters copied to `dest`, and what is left of the string. `dest` has `room` bytes, which
-- `memset` has set to NUL, and one more for the NUL at the end.
unfoldable pub unpack_bytes : ℕ → List ℕ → Run (List ℕ × List ℕ)
unpack_bytes room [] = ok ([], [])
unpack_bytes zero (c ∷ str) =
    if is_space c
    then ok ([], c ∷ str)
    else if ltb c 128
    then fault out_of_bounds
    else fault invalid_char
unpack_bytes (suc room) (c ∷ str) =
    let copied : Run (List ℕ × List ℕ) =
      (unpack_bytes room str >>= λ (word, rest). ok (c ∷ word, rest)) in
    if is_space c then ok ([], c ∷ str) else if ltb c 128 then copied else fault invalid_char

-- `*str == '\0'`
abbrev pub at_end : List ℕ → Bool
at_end [] = true
at_end (c ∷ str) = false

-- `line[0] == '#'`
abbrev pub is_comment : List ℕ → Bool
is_comment [] = false
is_comment (c ∷ line) = c == b'#'

module _ (somaxconn : ℕ) where
  -- The key is there: the value behind it, and the option. The test for an incomplete line looks at
  -- the start of the line again.
  unfoldable pub load_value : Config → List ℕ → List ℕ × List ℕ → Run Config
  load_value config line (key, pline) =
      let set : List ℕ → Run Config = λ pval.
        (unpack_bytes 0xfe pval >>= λ (value, rest). add_config_value somaxconn config key value) in
      strip_spaces pline >>= λ pval. if at_end line then ok config else set pval

  -- The line behind the spaces at its start: the key, and what is behind it.
  unfoldable pub load_key : Config → List ℕ → List ℕ → Run Config
  unfolding load_value
  load_key config line pline =
      if at_end pline then ok config else (unpack_bytes 0xfe pline >>= load_value config line)

  -- One round of the loop.
  unfoldable pub load_line : Config → List ℕ → Run Config
  unfolding load_key
  load_line config line =
      if is_comment line then ok config else (strip_spaces line >>= load_key config line)

  -- The loop, from the rest of the file and `linenr`, an `int`; it takes a character at least in each
  -- round.
  unfoldable pub load_loop : ℕ → ℕ → List ℕ → Config → Run Config
  load_loop fuel linenr [] config = ok config
  load_loop zero linenr (c ∷ file) config = fault out_of_fuel
  load_loop (suc fuel) linenr (c ∷ file) config =
      let (line, rest) = fgets 0xfe (c ∷ file) in
      let round : Run Config =
        (load_line config (until_nul line) >>= λ config'.
        load_loop fuel (linenr + 1) rest config') in
      if ltb (linenr + 1) (2 ^ 31) then round else fault signed_overflow

  -- The file that `fopen` opens, if it does; the configuration, and the result.
  unfoldable pub config_load : Option (List ℕ) → Config → Run (Config × Bool)
  unfolding load_loop
  config_load none config = ok (config, false)
  config_load (some file) config =
      load_loop (length file) 0 file config >>= λ config'. ok (config', true)
