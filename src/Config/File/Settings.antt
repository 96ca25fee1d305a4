-- ===== src/Config/File/Settings.antt =====
-- The lines of a configuration file, as sol/conf/sol.conf has them, and what each is to set.
use mqttbroker.Base.{
  ltb, ℕ, ◌*◌, ◌^◌, ◌<◌, ◌≡◌, Bool, true, ◌&&◌, not, List, [], ◌∷◌, ◌++◌, length, leb, ◌==◌,
  if◌then◌else◌, text,
}
use mqttbroker.Util.Print.{pos, show_int}
use mqttbroker.Config.Options.{Config, debug, warning, error, unix, inet}
use mqttbroker.Config.File.{is_space}

pub data Level : Type 0 where
  debugging info_short info_long warnings errors : Level

pub data MemoryUnit : Type 0 where
  bytes kilobytes megabytes gigabytes : MemoryUnit

pub data TimeUnit : Type 0 where
  seconds minutes days : TimeUnit

pub data Setting : Type 0 where
  log_level : Level → Setting
  log_path unix_socket ip_address ip_port : List ℕ → Setting
  max_memory max_request_size : ℕ → MemoryUnit → Setting
  tcp_backlog : ℕ → Setting
  stats_publish_interval : ℕ → TimeUnit → Setting

pub data Line : Type 0 where
  setting : Setting → Line
  comment blank : List ℕ → Line

abbrev pub memory_letters : MemoryUnit → List ℕ
memory_letters bytes = text "b"
memory_letters kilobytes = text "kb"
memory_letters megabytes = text "mb"
memory_letters gigabytes = text "gb"

abbrev pub memory_factor : MemoryUnit → ℕ
memory_factor bytes = 1
memory_factor kilobytes = 2 ^ 10
memory_factor megabytes = 2 ^ 20
memory_factor gigabytes = 2 ^ 30

abbrev pub time_letters : TimeUnit → List ℕ
time_letters seconds = text "s"
time_letters minutes = text "m"
time_letters days = text "d"

abbrev pub time_factor : TimeUnit → ℕ
time_factor seconds = 1
time_factor minutes = 60
time_factor days = 86400

abbrev pub level_letters : Level → List ℕ
level_letters debugging = text "DEBUG"
level_letters info_short = text "INFO"
level_letters info_long = text "INFORMATION"
level_letters warnings = text "WARNING"
level_letters errors = text "ERROR"

-- INFO and INFORMATION set nothing.
abbrev pub set_level : Level → Config → Config
set_level debugging config = record config { loglevel = debug }
set_level info_short config = config
set_level info_long config = config
set_level warnings config = record config { loglevel = warning }
set_level errors config = record config { loglevel = error }

-- The name of the option.
abbrev pub key_of : Setting → List ℕ
key_of (log_level l) = text "log_level"
key_of (log_path path) = text "log_path"
key_of (unix_socket path) = text "unix_socket"
key_of (ip_address address) = text "ip_address"
key_of (ip_port port) = text "ip_port"
key_of (max_memory n unit) = text "max_memory"
key_of (max_request_size n unit) = text "max_request_size"
key_of (tcp_backlog n) = text "tcp_backlog"
key_of (stats_publish_interval n unit) = text "stats_publish_interval"

-- The value, as it is written in the file.
abbrev pub value_text : Setting → List ℕ
value_text (log_level l) = level_letters l
value_text (log_path path) = path
value_text (unix_socket path) = path
value_text (ip_address address) = address
value_text (ip_port port) = port
value_text (max_memory n unit) = show_int (pos n) ++ memory_letters unit
value_text (max_request_size n unit) = show_int (pos n) ++ memory_letters unit
value_text (tcp_backlog n) = show_int (pos n) ++ []
value_text (stats_publish_interval n unit) = show_int (pos n) ++ time_letters unit

abbrev smaller : ℕ → ℕ → ℕ
smaller a b = if leb a b then a else b

-- What the setting means; `somaxconn` bounds the backlog.
abbrev pub apply : ℕ → Setting → Config → Config
apply somaxconn (log_level l) config = set_level l config
apply somaxconn (log_path path) config = record config { logpath = path }
apply somaxconn (unix_socket path) config = record config { socket_family = unix; hostname = path }
apply somaxconn (ip_address address) config = record config {
  socket_family = inet;
  hostname = address;
}
apply somaxconn (ip_port port) config = record config { port = port }
apply somaxconn (max_memory n unit) config = record config { max_memory = n * memory_factor unit }
apply somaxconn (max_request_size n unit) config = record config {
  max_request_size = n * memory_factor unit;
}
apply somaxconn (tcp_backlog n) config = record config { tcp_backlog = smaller n somaxconn }
apply somaxconn (stats_publish_interval n unit) config = record config {
  stats_pub_interval = n * time_factor unit;
}

abbrev pub word_char : ℕ → Bool
word_char c = not (is_space c) && (not (c == 0) && ltb c 128)

-- Every character has the property.
abbrev pub every : (ℕ → Bool) → List ℕ → Bool
every p [] = true
every p (c ∷ s) = p c && every p s

-- The text has no space, no NUL and no negative `char`.
abbrev pub IsWord : List ℕ → Type 0
IsWord s = every word_char s ≡ true

-- Texts are words, and numbers are an `int`.
abbrev pub IsSetting : Setting → Type 0
IsSetting (log_level l) = Unit {0}
IsSetting (log_path path) = IsWord path
IsSetting (unix_socket path) = IsWord path
IsSetting (ip_address address) = IsWord address
IsSetting (ip_port port) = IsWord port
IsSetting (max_memory n unit) = n < 2 ^ 31
IsSetting (max_request_size n unit) = n < 2 ^ 31
IsSetting (tcp_backlog n) = n < 2 ^ 31
IsSetting (stats_publish_interval n unit) = n < 2 ^ 31

abbrev pub line_char : ℕ → Bool
line_char c = not (c == b'\n') && not (c == 0)

abbrev pub blank_char : ℕ → Bool
blank_char c = is_space c && not (c == b'\n')

-- The line without its newline.
abbrev pub body : Line → List ℕ
body (setting s) = key_of s ++ (b' ' ∷ value_text s)
body (comment words) = b'#' ∷ words
body (blank spaces) = spaces

-- A comment is any text, and a blank line any spaces, without a newline.
abbrev Fits : Line → Type 0
Fits (setting s) = IsSetting s
Fits (comment words) = every line_char words ≡ true
Fits (blank spaces) = every blank_char spaces ≡ true

-- The line fits the buffer, with its newline and a NUL.
abbrev pub IsLine : Line → Type 0
IsLine l = (length (body l) < 0xfe) × Fits l

abbrev pub render : List Line → List ℕ
render [] = []
render (l ∷ lines) = body l ++ (b'\n' ∷ render lines)

abbrev pub apply_line : ℕ → Line → Config → Config
apply_line somaxconn (setting s) config = apply somaxconn s config
apply_line somaxconn (comment words) config = config
apply_line somaxconn (blank spaces) config = config

-- The settings in the order of the lines.
abbrev pub apply_lines : ℕ → List Line → Config → Config
apply_lines somaxconn [] config = config
apply_lines somaxconn (l ∷ lines) config =
    apply_lines somaxconn lines (apply_line somaxconn l config)
