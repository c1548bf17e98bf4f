-- ===== src/Config.antt =====
-- internal/config: the configuration, its defaults and the command-line options.
pub mod Types
pub mod Options
pub mod Effect
