-- ===== src/Settings.antt =====
-- ezgrpc2_server_settings.c and ezgrpc2_http2_settings.c.
use ezgrpc.Prelude.{ℕ, ◌+◌, ◌*◌}

-- `struct ezgrpc2_server_settings`, without the two callbacks, which nothing sets or reads. A FILE
-- is a number.
pub record ServerSettings : Type 0 where
  pub max_connections : ℕ
  pub logging_level : ℕ
  pub arena_events_size : ℕ
  pub arena_messages_size : ℕ
  pub logging_fp : ℕ

-- What depends on the compiler and the C library: the sizes of the two structs, and `stderr`.
pub record Platform : Type 0 where
  pub sizeof_event : ℕ
  pub sizeof_message : ℕ
  pub stderr : ℕ

-- The default settings, before `logging_fp` is set.
abbrev pub default_server_settings : Platform → ServerSettings
default_server_settings c = record {
  max_connections = 1024;
  logging_level = 0;
  arena_events_size = c.sizeof_event * 4096;
  arena_messages_size = c.sizeof_message + 1024 * 1034 * 16;
  logging_fp = 0;
}

unfoldable pub server_settings_new : Platform → ServerSettings
server_settings_new c = record (default_server_settings c) { logging_fp = c.stderr }

unfoldable pub set_max_connections : ServerSettings → ℕ → ServerSettings
set_max_connections s n = record s { max_connections = n }

unfoldable pub set_log_fp : ServerSettings → ℕ → ServerSettings
set_log_fp s fp = record s { logging_fp = fp }

unfoldable pub set_log_level : ServerSettings → ℕ → ServerSettings
set_log_level s level = record s { logging_level = level }

pub record Http2Settings : Type 0 where
  pub initial_window_size : ℕ
  pub max_frame_size : ℕ
  pub max_concurrent_streams : ℕ
  pub max_sessions : ℕ
  pub max_paths : ℕ

abbrev pub default_http2_settings : Http2Settings
default_http2_settings = record {
  initial_window_size = 1048576;
  max_frame_size = 16 * 1024;
  max_concurrent_streams = 1024;
  max_sessions = 0;
  max_paths = 10;
}

unfoldable pub http2_settings_new : Http2Settings
http2_settings_new = default_http2_settings

unfoldable pub set_initial_window_size : Http2Settings → ℕ → Http2Settings
set_initial_window_size s n = record s { initial_window_size = n }

unfoldable pub set_max_frame_size : Http2Settings → ℕ → Http2Settings
set_max_frame_size s n = record s { max_frame_size = n }

unfoldable pub set_max_concurrent_streams : Http2Settings → ℕ → Http2Settings
set_max_concurrent_streams s n = record s { max_concurrent_streams = n }

unfoldable pub set_max_paths : Http2Settings → ℕ → Http2Settings
set_max_paths s n = record s { max_paths = n }
