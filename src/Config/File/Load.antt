-- ===== src/Config/File/Load.antt =====
-- What `config_load` of sol/src/config.c makes of a file whose lines are settings, comments and
-- blank lines.
use mqttbroker.Config.Options.{Config}
