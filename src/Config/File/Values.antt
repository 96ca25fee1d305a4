-- ===== src/Config/File/Values.antt =====
-- The keys and the values of the settings, and the option that `add_config_value` of
-- sol/src/config.c sets by them.
use mqttbroker.Base.{
  ℕ, ◌+◌, ◌*◌, ◌^◌, ◌<◌, ◌≡◌, refl, ap, true, List, [], ◌∷◌, ◌++◌, map, arith, ok, length, All,
  lt→ltb, text,
}
use native.Mathlib.Nat.{mod-eq_of_lt}
use mqttbroker.Util.Numbers.{digit, IsDigit}
use mqttbroker.Util.Print.{pos, show_int, digits, digits-IsDigit, parse_int-show}
use mqttbroker.Config.Sizes.{memory_mul, read_memory_with_mul, time_mul, read_time_with_mul}
use mqttbroker.Config.Sizes.RoundTrip.{skip_digits-show}
use mqttbroker.Config.Options.{Config, strcpy, add_config_value}
use mqttbroker.Config.File.Settings.{
  debugging, info_short, info_long, warnings, errors, MemoryUnit, bytes, kilobytes, megabytes,
  gigabytes, TimeUnit, seconds, minutes, days, Setting, log_level, log_path, unix_socket,
  ip_address, ip_port, max_memory, max_request_size, tcp_backlog, stats_publish_interval,
  memory_letters, memory_factor, time_letters, time_factor, key_of, value_text, apply, word_char,
  IsWord, IsSetting,
}
use mqttbroker.Config.File.Reading.{every-append}

pub digits-IsWord : (ds : List ℕ) → All IsDigit ds → IsWord (map digit ds)
digits-IsWord [] h = refl
digits-IsWord (d ∷ ds) (hd, h) =
    let here : word_char (b'0' + d) ≡ true = ground arith in rw here (digits-IsWord ds h)

pub show_int-IsWord : (n : ℕ) → IsWord (show_int (pos n))
unfolding show_int
show_int-IsWord n = digits-IsWord (digits n) (digits-IsDigit n)

pub amount-IsWord : (n : ℕ) (unit : List ℕ) → IsWord unit → IsWord (show_int (pos n) ++ unit)
amount-IsWord n unit w = every-append word_char (show_int (pos n)) unit (show_int-IsWord n) w

pub memory_letters-IsWord : (unit : MemoryUnit) → IsWord (memory_letters unit)
memory_letters-IsWord bytes = refl
memory_letters-IsWord kilobytes = refl
memory_letters-IsWord megabytes = refl
memory_letters-IsWord gigabytes = refl

pub time_letters-IsWord : (unit : TimeUnit) → IsWord (time_letters unit)
time_letters-IsWord seconds = refl
time_letters-IsWord minutes = refl
time_letters-IsWord days = refl

pub value_text-IsWord : (s : Setting) → IsSetting s → IsWord (value_text s)
value_text-IsWord (log_level debugging) h = refl
value_text-IsWord (log_level info_short) h = refl
value_text-IsWord (log_level info_long) h = refl
value_text-IsWord (log_level warnings) h = refl
value_text-IsWord (log_level errors) h = refl
value_text-IsWord (log_path path) h = h
value_text-IsWord (unix_socket path) h = h
value_text-IsWord (ip_address address) h = h
value_text-IsWord (ip_port port) h = h
value_text-IsWord (max_memory n unit) h = amount-IsWord n _ (memory_letters-IsWord unit)
value_text-IsWord (max_request_size n unit) h = amount-IsWord n _ (memory_letters-IsWord unit)
value_text-IsWord (tcp_backlog n) h = amount-IsWord n [] refl
value_text-IsWord (stats_publish_interval n unit) h = amount-IsWord n _ (time_letters-IsWord unit)

pub key_of-IsWord : (s : Setting) → IsWord (key_of s)
key_of-IsWord (log_level l) = refl
key_of-IsWord (log_path path) = refl
key_of-IsWord (unix_socket path) = refl
key_of-IsWord (ip_address address) = refl
key_of-IsWord (ip_port port) = refl
key_of-IsWord (max_memory n unit) = refl
key_of-IsWord (max_request_size n unit) = refl
key_of-IsWord (tcp_backlog n) = refl
key_of-IsWord (stats_publish_interval n unit) = refl

pub read_memory-unit :
    (n : ℕ) (unit : MemoryUnit)
    → n < 2 ^ 31
    → read_memory_with_mul (show_int (pos n) ++ memory_letters unit) ≡ ok (n * memory_factor unit)
unfolding read_memory_with_mul memory_mul
read_memory-unit n bytes h =
    rw (parse_int-show n (text "b") h refl, skip_digits-show n (text "b") refl)
      (ap ok (mod-eq_of_lt (omega arith)))
read_memory-unit n kilobytes h =
    rw (parse_int-show n (text "kb") h refl, skip_digits-show n (text "kb") refl)
      (ap ok (mod-eq_of_lt (omega arith)))
read_memory-unit n megabytes h =
    rw (parse_int-show n (text "mb") h refl, skip_digits-show n (text "mb") refl)
      (ap ok (mod-eq_of_lt (omega arith)))
read_memory-unit n gigabytes h =
    rw (parse_int-show n (text "gb") h refl, skip_digits-show n (text "gb") refl)
      (ap ok (mod-eq_of_lt (omega arith)))

pub read_time-unit :
    (n : ℕ) (unit : TimeUnit)
    → n < 2 ^ 31
    → read_time_with_mul (show_int (pos n) ++ time_letters unit) ≡ ok (n * time_factor unit)
unfolding read_time_with_mul time_mul
read_time-unit n seconds h =
    rw (parse_int-show n (text "s") h refl, skip_digits-show n (text "s") refl)
      (ap ok (mod-eq_of_lt (omega arith)))
read_time-unit n minutes h =
    rw (parse_int-show n (text "m") h refl, skip_digits-show n (text "m") refl)
      (ap ok (mod-eq_of_lt (omega arith)))
read_time-unit n days h =
    rw (parse_int-show n (text "d") h refl, skip_digits-show n (text "d") refl)
      (ap ok (mod-eq_of_lt (omega arith)))

pub strcpy_fits : (s : List ℕ) → length s < 0xff → strcpy 0xff s ≡ ok s
unfolding strcpy
strcpy_fits s h = rw (lt→ltb (length s) 0xff h) refl

-- Each setting sets its own option, and no other.
pub add_config_value-apply :
    (somaxconn : ℕ) (config : Config) (s : Setting)
    → IsSetting s
    → length (value_text s) < 0xff
    → add_config_value somaxconn config (key_of s) (value_text s) ≡ ok (apply somaxconn s config)
unfolding add_config_value
add_config_value-apply m config (log_level debugging) h lt = refl
add_config_value-apply m config (log_level info_short) h lt = refl
add_config_value-apply m config (log_level info_long) h lt = refl
add_config_value-apply m config (log_level warnings) h lt = refl
add_config_value-apply m config (log_level errors) h lt = refl
add_config_value-apply m config (log_path path) h lt = rw (strcpy_fits path lt) refl
add_config_value-apply m config (unix_socket path) h lt = rw (strcpy_fits path lt) refl
add_config_value-apply m config (ip_address address) h lt = rw (strcpy_fits address lt) refl
add_config_value-apply m config (ip_port port) h lt = rw (strcpy_fits port lt) refl
add_config_value-apply m config (max_memory n unit) h lt = rw (read_memory-unit n unit h) refl
add_config_value-apply m config (max_request_size n unit) h lt = rw (read_memory-unit n unit h) refl
add_config_value-apply m config (tcp_backlog n) h lt = rw (parse_int-show n [] h tt) refl
add_config_value-apply m config (stats_publish_interval n unit) h lt =
    rw (read_time-unit n unit h) refl
