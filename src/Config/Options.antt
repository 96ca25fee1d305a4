-- ===== src/Config/Options.antt =====
-- The configuration of sol/src/config.h, its defaults, and the option that a key and a value set.
use mqttbroker.Base.{
  ℕ, Bool, Option, none, some, List, [], ◌∷◌, ◌++◌, out_of_bounds, null_deref, Run, ok, fault,
  ◌>>=◌, length, take, ltb, leb, ◌==◌, if◌then◌else◌, text,
}
use mqttbroker.Hashtable.Hash.{streq}
use mqttbroker.Util.{parse_int}
use mqttbroker.Util.Print.{ℤ, pos, negsuc, show_int}
use mqttbroker.Config.Sizes.{read_memory_with_mul, read_time_with_mul, memory_to_string}

-- enum log_level, by its numbers
abbrev pub debug : ℕ
debug = 0

abbrev pub information : ℕ
information = 1

abbrev pub warning : ℕ
warning = 2

abbrev pub error : ℕ
error = 3

abbrev pub unix : ℕ
unix = 0

abbrev pub inet : ℕ
inet = 1

-- struct config
pub record Config : Type 0 where
  pub version : List ℕ
  pub run : ℤ
  pub loglevel : ℕ
  pub epoll_timeout : ℤ
  pub socket_family : ℕ
  pub logpath : List ℕ
  pub hostname : List ℕ
  pub port : List ℕ
  pub max_memory : ℕ
  pub max_request_size : ℕ
  pub tcp_backlog : ℕ
  pub stats_pub_interval : ℕ

-- `lmap`
abbrev pub lmap : List (List ℕ × ℕ)
lmap =
    (text "DEBUG", debug)
    ∷ (text "WARNING", warning)
    ∷ (text "ERROR", error)
    ∷ (text "INFO", information)
    ∷ (text "INFORMATION", information)
    ∷ []

-- `strcpy` into an array of `size` bytes.
unfoldable pub strcpy : ℕ → List ℕ → Run (List ℕ)
strcpy size src = if ltb (length src) size then ok src else fault out_of_bounds

-- The loop over the first levels of `lmap`: each one that the value matches is set.
pub set_loglevel : List (List ℕ × ℕ) → List ℕ → ℕ → ℕ
set_loglevel [] value loglevel = loglevel
set_loglevel ((lname, level) ∷ levels) value loglevel =
    set_loglevel levels value (if streq lname value (length value) then level else loglevel)

-- `STREQ("…", key, klen)`
abbrev pub is_key : List ℕ → List ℕ → Bool
is_key name key = streq name key (length key)

-- `somaxconn` is `SOMAXCONN` of the system.
module _ (somaxconn : ℕ) where
  unfoldable pub add_config_value : Config → List ℕ → List ℕ → Run Config
  unfolding set_loglevel
  add_config_value config key value =
      if is_key (text "log_level") key
      then ok (record config { loglevel = set_loglevel (take 3 lmap) value config.loglevel })
      else if is_key (text "log_path") key
      then (strcpy 0xff value >>= λ logpath. ok (record config { logpath = logpath }))
      else if is_key (text "unix_socket") key
      then (strcpy 0xff value >>= λ hostname.
          ok (record config { socket_family = unix; hostname = hostname }))
      else if is_key (text "ip_address") key
      then (strcpy 0xff value >>= λ hostname.
          ok (record config { socket_family = inet; hostname = hostname }))
      else if is_key (text "ip_port") key
      then (strcpy 0xff value >>= λ port. ok (record config { port = port }))
      else if is_key (text "max_memory") key
      then (read_memory_with_mul value >>= λ memory. ok (record config { max_memory = memory }))
      else if is_key (text "max_request_size") key
      then (read_memory_with_mul value >>= λ size. ok (record config { max_request_size = size }))
      else if is_key (text "tcp_backlog") key
      then (parse_int value >>= λ backlog.
          ok (record config { tcp_backlog = if leb backlog somaxconn then backlog else somaxconn }))
      else if is_key (text "stats_publish_interval") key
      then (read_time_with_mul value >>= λ interval.
          ok (record config { stats_pub_interval = interval }))
      else ok config

  -- `eventfd` is the descriptor that `eventfd(0, EFD_NONBLOCK)` gives, or -1.
  unfoldable pub config_set_default : ℤ → Run Config
  unfolding strcpy
  config_set_default eventfd = do
    logpath ← strcpy 0xff (text "/tmp/sol.log")
    hostname ← strcpy 0xff (text "127.0.0.1")
    port ← strcpy 0xff (text "1883")
    memory ← read_memory_with_mul (text "2GB")
    size ← read_memory_with_mul (text "2MB")
    interval ← read_time_with_mul (text "10s")
    ok (record {
      version = text "0.0.1";
      run = eventfd;
      loglevel = debug;
      epoll_timeout = negsuc 0;
      socket_family = inet;
      logpath = logpath;
      hostname = hostname;
      port = port;
      max_memory = memory;
      max_request_size = size;
      tcp_backlog = somaxconn;
      stats_pub_interval = interval;
    })

-- The last name of the first four whose level is set.
pub level_name : List (List ℕ × ℕ) → ℕ → Option (List ℕ) → Option (List ℕ)
level_name [] loglevel llevel = llevel
level_name ((lname, level) ∷ levels) loglevel llevel =
    level_name levels loglevel (if level == loglevel then some lname else llevel)

-- The messages that `config_print` gives to `sol_info`; a name that stays NULL is a fault.
unfoldable pub config_print : Config → Run (List (List ℕ))
unfolding level_name
config_print config =
    let address : List (List ℕ) =
      if config.socket_family == unix
      then (text "\tUnix socket: " ++ config.hostname) ∷ []
      else (text "\tAddress: " ++ config.hostname)
        ∷ (text "\tPort: " ++ config.port)
        ∷ (text "\tTcp backlog: " ++ show_int (pos config.tcp_backlog))
        ∷ [] in
    let sfamily = if config.socket_family == unix then text "Unix" else text "Tcp" in
    let messages : List ℕ → List (List ℕ) = λ llevel.
      (text "Sol v" ++ (text "0.0.1" ++ text " is starting"))
      ∷ text "Network settings:"
      ∷ (text "\tSocket family: " ++ sfamily)
      ∷ (address
          ++ (text "\tMax request size: " ++ memory_to_string config.max_request_size)
            ∷ text "Logging:"
            ∷ (text "\tlevel: " ++ llevel)
            ∷ (text "\tlogpath: " ++ config.logpath)
            ∷ (text "Max memory: " ++ memory_to_string config.max_memory)
            ∷ []) in
    let printed : Run (List (List ℕ)) = elim (level_name (take 4 lmap) config.loglevel none) [
      | none ↦ fault null_deref
      | some llevel ↦ ok (messages llevel)
    ] in
    if ltb config.loglevel warning then printed else ok []
