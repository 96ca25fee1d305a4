-- ===== src/Tests/Configuring.antt =====
-- The configuration at concrete inputs.
use mqttbroker.Base.{
  ◌^◌, ◌≡◌, refl, true, some, List, [], ◌∷◌, ◌++◌, arith, ok, fault, invalid_char, KeepsArrays,
  text,
}
use mqttbroker.Util.{number_len, parse_int}
use mqttbroker.Util.Print.{pos, negsuc, to_int, show_int, snprintf, digits}
use mqttbroker.Config.Sizes.{
  skip_digits, memory_mul, read_memory_with_mul, time_mul, read_time_with_mul, with_unit,
  memory_to_string, time_to_string,
}
use mqttbroker.Config.Sizes.RoundTrip.{to_string_read_back}
use mqttbroker.Config.Options.{
  Config, strcpy, add_config_value, config_set_default, config_print, debug, error, inet, unix,
}
use mqttbroker.Config.File.{
  fgets, until_nul, strip_spaces, unpack_bytes, load_value, load_key, load_line, load_loop,
  config_load,
}
use mqttbroker.Config.File.Settings.{
  Line, setting, comment, blank, log_level, errors, max_memory, gigabytes, unix_socket, tcp_backlog,
  apply_lines,
}
use mqttbroker.Config.File.Bounds.{config_load-KeepsArrays}

memory_texts :
    (memory_to_string 64 ≡ text "64b")
    × (memory_to_string 0 ≡ text "0")
    × (memory_to_string 1536 ≡ text "1Kb")
    × (memory_to_string (2 ^ 31) ≡ text "2Gb")
    × (memory_to_string (2 ^ 61) ≡ text "-2147483648Gb")
unfolding memory_to_string with_unit to_int show_int snprintf digits number_len
memory_texts = (refl, refl, refl, refl, refl)

time_texts :
    (time_to_string 59 ≡ text "59s")
    × (time_to_string 7200 ≡ text "2h")
    × (time_to_string 172800 ≡ text "2d")
unfolding time_to_string with_unit to_int show_int snprintf digits number_len
time_texts = (refl, refl, refl)

abbrev defaults : Config
defaults = record {
  version = text "0.0.1";
  run = pos 7;
  loglevel = debug;
  epoll_timeout = negsuc 0;
  socket_family = inet;
  logpath = text "/tmp/sol.log";
  hostname = text "127.0.0.1";
  port = text "1883";
  max_memory = 2147483648;
  max_request_size = 2097152;
  tcp_backlog = 4096;
  stats_pub_interval = 10;
}

default_config : config_set_default 4096 (pos 7) ≡ ok defaults
unfolding config_set_default strcpy read_memory_with_mul read_time_with_mul parse_int skip_digits
    memory_mul time_mul
default_config = refl

printed :
    config_print defaults
    ≡ ok (
        text "Sol v0.0.1 is starting"
        ∷ text "Network settings:"
        ∷ text "\tSocket family: Tcp"
        ∷ text "\tAddress: 127.0.0.1"
        ∷ text "\tPort: 1883"
        ∷ text "\tTcp backlog: 4096"
        ∷ text "\tMax request size: 2Mb"
        ∷ text "Logging:"
        ∷ text "\tlevel: DEBUG"
        ∷ text "\tlogpath: /tmp/sol.log"
        ∷ text "Max memory: 2Gb"
        ∷ [])
unfolding config_print memory_to_string with_unit to_int show_int snprintf digits number_len
printed = refl

-- Levels of information are not read, and the start of a name is taken for the option.
short_names :
    (add_config_value 128 defaults (text "log_level") (text "INFO") ≡ ok defaults)
    × (add_config_value 128 defaults (text "ip") (text "::1")
        ≡ ok (record defaults { hostname = text "::1" }))
unfolding add_config_value strcpy
short_names = (refl, refl)

-- A key alone on its line is given the empty value.
key_alone :
    config_load 128 (some (text "# a\nlog_path\nport 1\n")) defaults
    ≡ ok (record defaults { logpath = [] }, true)
unfolding config_load load_loop load_line load_key load_value fgets until_nul strip_spaces
    unpack_bytes add_config_value strcpy
key_alone = refl

-- A letter that is no ASCII, behind a key.
negative_char :
    config_load 128 (some (text "log_path " ++ (0xc3 ∷ 0xa9 ∷ b'\n' ∷ []))) defaults
    ≡ fault invalid_char
unfolding config_load load_loop load_line load_key load_value fgets until_nul strip_spaces
    unpack_bytes
negative_char = refl

to_string_read_back_example :
    (read_memory_with_mul (memory_to_string 2000000) ≡ ok 1048576)
    × (read_time_with_mul (time_to_string 7200) ≡ ok 2)
to_string_read_back_example = to_string_read_back 2000000 7200 (omega arith) (omega arith)

abbrev lines : List Line
lines =
    comment (text " Sol")
    ∷ setting (log_level errors)
    ∷ blank (text " ")
    ∷ setting (max_memory 2 gigabytes)
    ∷ setting (tcp_backlog 9999)
    ∷ setting (unix_socket (text "/tmp/s.sock"))
    ∷ []

settings_applied : apply_lines 128 lines defaults ≡ record defaults {
  loglevel = error;
  max_memory = 2147483648;
  tcp_backlog = 128;
  socket_family = unix;
  hostname = text "/tmp/s.sock";
}
settings_applied = refl

config_load-KeepsArrays_example :
    KeepsArrays (config_load 128 (some (text "ip_port 1883\nmax_memory 99999999999b\n")) defaults)
config_load-KeepsArrays_example =
    config_load-KeepsArrays 128 (some (text "ip_port 1883\nmax_memory 99999999999b\n")) defaults
