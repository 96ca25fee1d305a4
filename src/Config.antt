-- ===== src/Config.antt =====
-- sol/src/config.c: the options of the broker, and the file that they are read from.
pub mod Sizes
pub mod Options
pub mod File
