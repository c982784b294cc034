-- ===== src/Setup/Tests.antt =====
-- A server that is made, logs and is freed.
use ezgrpc.Prelude.{ℕ, ◌+◌, ◌≡◌, refl, true, false, Option, none, some, List, [], ◌∷◌, ◌++◌, arith}
use ezgrpc.Wire.{Byte}
use ezgrpc.Events.{events_new}
use ezgrpc.Events.Contents.{Holds-new}
use ezgrpc.Settings.{
  Platform, ServerSettings, server_settings_new, set_max_connections, set_log_level, set_log_fp,
  http2_settings_new, set_max_paths, set_initial_window_size, set_max_frame_size,
  set_max_concurrent_streams,
}
use ezgrpc.LogPool
use ezgrpc.LogPool.{thpool_new, thpool_add_task, work}
use ezgrpc.LogPool.Order.{Runs, created, added}
use ezgrpc.LogPool.Logger.{Logs}
use ezgrpc.Server.{Slot, zero_slot}
use ezgrpc.Setup.{
  Whole, Answers, null, server_new, server_block, log_new, announce, server_log, server_free,
  get_all_sessions_info, unset,
}
use ezgrpc.Setup.Free.{Ends, server_free-Ends}
use ezgrpc.Setup.Log.{Line, server_logs, server_logs-Logs, wanted}

abbrev machine : Platform
machine = record { sizeof_event = 56; sizeof_message = 24; stderr = 2 }

abbrev works : ℕ → Answers
works fd = record {
  inet_pton_fails = false;
  socket = some fd;
  reuseaddr_fails = false;
  v6only_fails = false;
  bind_fails = false;
  listen_fails = false;
  makenonblock_fails = false;
  log_ok = true;
  text = fd;
}

abbrev any4 : Option (List Byte)
any4 = some (48 ∷ 46 ∷ 48 ∷ 46 ∷ 48 ∷ 46 ∷ 48 ∷ [])

abbrev any6 : Option (List Byte)
any6 = some (58 ∷ 58 ∷ [])

abbrev two_only : ServerSettings
two_only = record {
  max_connections = 2;
  logging_level = 4;
  arena_events_size = 0;
  arena_messages_size = 0;
  logging_fp = 2;
}

settings_set :
    set_log_level (set_log_fp (set_max_connections (server_settings_new machine) 2) 2) 4
    ≡ record (server_settings_new machine) { max_connections = 2; logging_level = 4 }
unfolding set_log_level set_log_fp set_max_connections server_settings_new
settings_set = refl

http2_set :
    set_max_paths
      (set_initial_window_size
        (set_max_frame_size (set_max_concurrent_streams http2_settings_new 8) 99)
        77)
      2
    ≡ record {
      initial_window_size = 77;
      max_frame_size = 99;
      max_concurrent_streams = 8;
      max_sessions = 0;
      max_paths = 2;
    }
unfolding set_max_paths set_initial_window_size set_max_frame_size set_max_concurrent_streams
    http2_settings_new
http2_set = refl

no_address : server_new machine true true true (works 3) (works 4) none 1 none 1 none none ≡ null
unfolding server_new
no_address = refl

abbrev open_slot : ℕ → ℕ → Slot
open_slot fd index = record zero_slot {
  fd = some fd;
  sockfd = fd;
  session_uuid = record { uuid = 900 + index; index = index };
}

-- A server of two entries, the second in use.
busy : Whole
unfolding server_block
busy =
    record (server_block true true (works 3) (works 4) any4 any6 80 80 two_only http2_settings_new
      (some 3) (some 4)) { clients = zero_slot ∷ open_slot 7 3 ∷ []; events = some events_new }

one_session : get_all_sessions_info busy.clients ≡ unset ∷ []
unfolding get_all_sessions_info busy
one_session = refl

abbrev greetings : List LogPool.Task
greetings = log_new 3 ∷ log_new 4 ∷ []

busy-Runs : Runs 1 greetings [] busy.logger_thread
unfolding busy announce thpool_add_task log_new
busy-Runs = added (log_new 4) (added (log_new 3) created)

abbrev taken : Answers
taken = record (works 4) { bind_fails = true }

server_free-Ends_example : Ends busy greetings [] (server_free true 2 busy)
unfolding log_new busy
server_free-Ends_example =
    server_free-Ends busy events_new [] greetings [] 2 refl Holds-new busy-Runs (refl, (refl, tt))
      (omega arith)

abbrev talk : List Line
talk =
    record { log_level = 1; text = 11 }
    ∷ record { log_level = 16; text = 12 }
    ∷ record { log_level = 4; text = 13 }
    ∷ []

-- TRACE is not among the levels of the settings.
no_trace : wanted 4 talk ≡ log_new 11 ∷ log_new 13 ∷ []
unfolding wanted
no_trace = refl

server_logs-Logs_example :
    Logs
      (greetings ++ wanted busy.server_settings.logging_level talk)
      (work 11 0 (server_logs talk busy).logger_thread)
unfolding busy server_logs server_log announce thpool_add_task thpool_new
server_logs-Logs_example = server_logs-Logs talk busy greetings [] busy-Runs refl 11 (omega arith)
