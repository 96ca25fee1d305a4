-- ===== src/Config/File/Bounds.antt =====
-- `config_load` of sol/src/config.c on any file: it ends, and writes nowhere outside its arrays.
use mqttbroker.Base.{
  ◌≡◌, ◌⊎◌, ◌+◌, ◌^◌, ltb, fault, invalid_char, ℕ, zero, suc, ◌≤◌, ◌<◌, refl, inl, inr, Bool, true,
  false, Option, none, some, List, [], ◌∷◌, arith, Run, ok, ◌>>=◌, Returns, KeepsArrays,
  >>=-KeepsArrays, length, ◌==◌, if◌then◌else◌, Bool-cases, text,
}
use mqttbroker.Util.{parse_int}
use mqttbroker.Util.Print.{parse_int-KeepsArrays}
use mqttbroker.Config.Sizes.{read_memory_with_mul, read_time_with_mul}
use mqttbroker.Config.Options.{Config, strcpy, add_config_value, is_key}
use mqttbroker.Config.File.{
  is_space, fgets, until_nul, strip_spaces, unpack_bytes, at_end, is_comment, load_value, load_key,
  load_line, load_loop, config_load,
}
use mqttbroker.Config.File.Values.{strcpy_fits}

fgets_bounds :
    (room : ℕ) (file : List ℕ)
    → (length (fgets room file).0 ≤ room) × (length (fgets room file).1 ≤ length file)
unfolding fgets
fgets_bounds zero file = (omega arith, omega arith)
fgets_bounds (suc room) [] = (omega arith, omega arith)
fgets_bounds (suc room) (c ∷ file) =
    let (line, rest) = fgets_bounds room file in
    elim (Bool-cases (c == b'\n')) [
      | inl e ↦ rw e (omega arith, omega arith)
      | inr e ↦ rw e (omega (arith, line), omega (arith, rest))
    ]

fgets-shorter : (room c : ℕ) (file : List ℕ) → length (fgets (suc room) (c ∷ file)).1 ≤ length file
unfolding fgets
fgets-shorter room c file = elim (Bool-cases (c == b'\n')) [
  | inl e ↦ rw e (omega arith)
  | inr e ↦ rw e (fgets_bounds room file).1
]

until_nul_bound : (s : List ℕ) → length (until_nul s) ≤ length s
unfolding until_nul
until_nul_bound [] = omega arith
until_nul_bound (c ∷ s) = ground (arith, until_nul_bound s)

-- What is left of the string, or the test of a negative `char`.
strip_spaces-Returns :
    (s : List ℕ)
    → (Returns (strip_spaces s) λ rest. length rest ≤ length s)
      ⊎ (strip_spaces s ≡ fault invalid_char)
unfolding strip_spaces
strip_spaces-Returns [] = inl ([], refl, omega arith)
strip_spaces-Returns (c ∷ s) = elim (Bool-cases (is_space c)) [
  | inl sp ↦ elim (strip_spaces-Returns s) [
    | inl (rest, e, le) ↦ inl (rest, rw (sp, e) refl, omega (arith, le))
    | inr e ↦ inr (rw (sp, e) refl)
  ]
  | inr more ↦ elim (Bool-cases (ltb c 128)) [
    | inl valid ↦ inl (c ∷ s, rw (more, valid) refl, omega arith)
    | inr negative ↦ inr (rw (more, negative) refl)
  ]
]

unpack_bytes-Returns :
    (s : List ℕ) (room : ℕ)
    → length s ≤ room
    → (Returns (unpack_bytes room s) λ (word, rest). (length word ≤ room) × (length rest ≤ room))
      ⊎ (unpack_bytes room s ≡ fault invalid_char)
unfolding unpack_bytes
unpack_bytes-Returns [] room le = inl (([], []), refl, (omega arith, omega arith))
unpack_bytes-Returns (c ∷ s) zero le = absurd (omega arith)
unpack_bytes-Returns (c ∷ s) (suc room) le = elim (Bool-cases (is_space c)) [
  | inl sp ↦ inl (([], c ∷ s), rw sp refl, (omega arith, le))
  | inr more ↦ elim (Bool-cases (ltb c 128)) [
    | inr negative ↦ inr (rw (more, negative) refl)
    | inl valid ↦ elim (unpack_bytes-Returns s room (omega arith)) [
      | inl ((word, rest), e, (w, r)) ↦
          inl ((c ∷ word, rest), rw (more, valid, e) refl, (omega (arith, w), omega (arith, r)))
      | inr e ↦ inr (rw (more, valid, e) refl)
    ]
  ]
]

-- A statement that returns with what the next one needs, or tests a negative `char`.
first-KeepsArrays {ℓ κ} :
    {A : Type ℓ} {B : Type κ} {Post : A → Type 0} (first : Run A) (next : A → Run B)
    → Returns first Post ⊎ (first ≡ fault invalid_char)
    → ((given : A) → Post given → KeepsArrays (next given))
    → KeepsArrays (first >>= next)
first-KeepsArrays first next (inl (given, e, post)) f = rw e (f given post)
first-KeepsArrays first next (inr e) f = inr (inr (rw e refl))

read_memory-KeepsArrays : (s : List ℕ) → KeepsArrays (read_memory_with_mul s)
unfolding read_memory_with_mul
read_memory-KeepsArrays s =
    >>=-KeepsArrays (parse_int s) _ (parse_int-KeepsArrays s) (λ n e. inl (_, refl))

read_time-KeepsArrays : (s : List ℕ) → KeepsArrays (read_time_with_mul s)
unfolding read_time_with_mul
read_time-KeepsArrays s =
    >>=-KeepsArrays (parse_int s) _ (parse_int-KeepsArrays s) (λ n e. inl (_, refl))

-- A statement that is run whatever the test says of it.
if-KeepsArrays {ℓ} :
    {A : Type ℓ} (b : Bool) (x y : Run A)
    → KeepsArrays x
    → KeepsArrays y
    → KeepsArrays (if b then x else y)
if-KeepsArrays true x y hx hy = hx
if-KeepsArrays false x y hx hy = hy

strcpy-KeepsArrays : (s : List ℕ) → length s < 0xff → KeepsArrays (strcpy 0xff s)
strcpy-KeepsArrays s lt = inl (s, strcpy_fits s lt)

-- An option whose value is read, or the next one.
option-KeepsArrays {ℓ} :
    {A : Type ℓ} (name key : List ℕ) (first : Run A) (set : A → Config) (other : Run Config)
    → KeepsArrays first
    → KeepsArrays other
    → KeepsArrays (if is_key name key then (first >>= λ a. ok (set a)) else other)
option-KeepsArrays name key first set other h ho =
    if-KeepsArrays (is_key name key) _ other
      (>>=-KeepsArrays first (λ a. ok (set a)) h (λ a e. inl (set a, refl))) ho

module _ (somaxconn : ℕ) where
  add_config_value-KeepsArrays :
      (config : Config) (key value : List ℕ)
      → length value < 0xff
      → KeepsArrays (add_config_value somaxconn config key value)
  unfolding add_config_value
  add_config_value-KeepsArrays config key value lt =
      let copied = strcpy-KeepsArrays value lt in
      let amount = read_memory-KeepsArrays value in
      let count = parse_int-KeepsArrays value in
      let interval = read_time-KeepsArrays value in
      if-KeepsArrays (is_key (text "log_level") key) _ _ (inl (_, refl)) (
        option-KeepsArrays (text "log_path") key (strcpy 0xff value) _ _ copied (
          option-KeepsArrays (text "unix_socket") key (strcpy 0xff value) _ _ copied (
            option-KeepsArrays (text "ip_address") key (strcpy 0xff value) _ _ copied (
              option-KeepsArrays (text "ip_port") key (strcpy 0xff value) _ _ copied (
                option-KeepsArrays (text "max_memory") key (read_memory_with_mul value) _ _ amount (
                  option-KeepsArrays (text "max_request_size") key (read_memory_with_mul value) _ _
                    amount
                    (option-KeepsArrays (text "tcp_backlog") key (parse_int value) _ _ count (
                      option-KeepsArrays (text "stats_publish_interval") key
                        (read_time_with_mul value) _ _ interval (inl (config, refl))))))))))

  load_value-KeepsArrays :
      (config : Config) (line key pline : List ℕ)
      → length pline ≤ 0xfe
      → KeepsArrays (load_value somaxconn config line (key, pline))
  unfolding load_value
  load_value-KeepsArrays config line key pline le =
      first-KeepsArrays (strip_spaces pline) _ (strip_spaces-Returns pline) (λ pval shorter.
        if-KeepsArrays (at_end line) _ _ (inl (_, refl)) (
          first-KeepsArrays (unpack_bytes 0xfe pval) _
            (unpack_bytes-Returns pval 0xfe (omega (arith, le, shorter)))
            (λ (value, rest) (w, r).
              add_config_value-KeepsArrays config key value (omega (arith, w)))))

  load_line-KeepsArrays :
      (config : Config) (line : List ℕ)
      → length line ≤ 0xfe
      → KeepsArrays (load_line somaxconn config line)
  unfolding load_line load_key
  load_line-KeepsArrays config line le = if-KeepsArrays (is_comment line) _ _ (inl (_, refl)) (
      first-KeepsArrays (strip_spaces line) _ (strip_spaces-Returns line) (λ start shorter.
        if-KeepsArrays (at_end start) _ _ (inl (_, refl)) (
          first-KeepsArrays (unpack_bytes 0xfe start) _
            (unpack_bytes-Returns start 0xfe (omega (arith, le, shorter)))
            (λ (key, pline) (w, r). load_value-KeepsArrays config line key pline r))))

  load_loop-KeepsArrays :
      (fuel linenr : ℕ) (file : List ℕ) (config : Config)
      → length file ≤ fuel
      → KeepsArrays (load_loop somaxconn fuel linenr file config)
  unfolding load_loop
  load_loop-KeepsArrays zero linenr [] config le = inl (config, refl)
  load_loop-KeepsArrays (suc fuel) linenr [] config le = inl (config, refl)
  load_loop-KeepsArrays zero linenr (c ∷ file) config le = absurd (omega arith)
  load_loop-KeepsArrays (suc fuel) linenr (c ∷ file) config le =
      let line = (fgets 0xfe (c ∷ file)).0 in
      let rest = (fgets 0xfe (c ∷ file)).1 in
      if-KeepsArrays (ltb (linenr + 1) (2 ^ 31)) _ _
        (>>=-KeepsArrays (load_line somaxconn config (until_nul line)) _
          (load_line-KeepsArrays config (until_nul line)
            (omega (arith, until_nul_bound line, (fgets_bounds 0xfe (c ∷ file)).0)))
          (λ config' e.
            load_loop-KeepsArrays fuel (linenr + 1) rest config'
              (omega (arith, fgets-shorter 0xfd c file))))
        (inr (inl refl))

  -- On every file `config_load` ends: it gives a configuration, or has overflowed an `int`, of a
  -- number that it reads or of the lines that it counts, or has called `isspace` or `isdigit` with a
  -- negative `char`. No copy leaves the line, the key, the value or an array of the configuration.
  pub config_load-KeepsArrays :
      (file : Option (List ℕ)) (config : Config) → KeepsArrays (config_load somaxconn file config)
  unfolding config_load
  config_load-KeepsArrays none config = inl (_, refl)
  config_load-KeepsArrays (some file) config =
      >>=-KeepsArrays (load_loop somaxconn (length file) 0 file config) _
        (load_loop-KeepsArrays (length file) 0 file config (omega arith))
        (λ config' e. inl (_, refl))
