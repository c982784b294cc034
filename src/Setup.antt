-- ===== src/Setup.antt =====
-- How a server is made, looked at, logs and ends: `ezgrpc2_server_new`,
-- `ezgrpc2_server_get_all_sessions_info`, `ezgrpc2_server_log` and `ezgrpc2_server_free` of
-- ezgrpc2_server.c.
pub mod New
pub mod Free
pub mod Log
mod Tests
use Prim.Native.Nat.{bit_and}
use ezgrpc.Prelude.{
  ℕ, ◌+◌, Bool, true, false, not, ◌&&◌, ◌||◌, Option, none, some, List, [], ◌∷◌, ◌++◌, length, take,
  replicate, if◌then◌else◌, ◌==◌, ltb,
}
use ezgrpc.Wire.{Byte}
use ezgrpc.Events.{Events, events_new}
use ezgrpc.Settings.{
  Platform, ServerSettings, Http2Settings, server_settings_new, http2_settings_new,
}
use ezgrpc.Paths.{Registry, registry_new}
use ezgrpc.LogPool
use ezgrpc.LogPool.{thpool_new, thpool_add_task, thpool_free}
use ezgrpc.Server.{Slot, zero_slot, Server, session_free}

-- The part of `struct ezgrpc2_server` that `ezgrpc2_server_new` sets. `ipv4` and `ipv6` are the
-- descriptors of `fds[0]` and `fds[1]`; `clients` is the table of the sessions, with the other
-- descriptors. `events` is NULL until the first poll. `has_sessions` and `has_paths` say whether
-- `calloc` gave the tables of the sessions and of the paths, which nothing looks at: without them the
-- pointers are NULL.
pub record Whole : Type 0 where
  pub ipv4_addr : Option (List Byte)
  pub ipv4_port : ℕ
  pub ipv6_addr : Option (List Byte)
  pub ipv6_port : ℕ
  pub server_settings : ServerSettings
  pub http2_settings : Http2Settings
  pub nb_sessions : ℕ
  pub nb_fds : ℕ
  pub ipv4 : Option ℕ
  pub ipv6 : Option ℕ
  pub clients : List Slot
  pub has_sessions : Bool
  pub events : Option Events
  pub has_paths : Bool
  pub registry : Registry
  pub logger_thread : LogPool.Pool

-- What the system answers for one listener: the descriptor of `socket`, and whether each of the other
-- calls fails. `inet_pton` and IPV6_V6ONLY are for IPv6 only, and come before and after `socket`.
-- `log_ok` says whether there is room for the task that logs `text`, once all has succeeded.
pub record Answers : Type 0 where
  pub inet_pton_fails : Bool
  pub socket : Option ℕ
  pub reuseaddr_fails : Bool
  pub v6only_fails : Bool
  pub bind_fails : Bool
  pub listen_fails : Bool
  pub makenonblock_fails : Bool
  pub log_ok : Bool
  pub text : ℕ

-- A listener: its descriptor (none where there is no address), or an error with the descriptor that
-- is left open.
pub data Listener : Type 0 where
  listening : Option ℕ → Listener
  failing : Option ℕ → Listener

unfoldable pub listen_ipv4 : Option (List Byte) → Answers → Listener
listen_ipv4 none a = listening none
listen_ipv4 (some addr) a = elim a.socket [
  | none ↦ failing none
  | some fd ↦
      if a.reuseaddr_fails
      then failing (some fd)
      else if a.bind_fails
      then failing (some fd)
      else if a.listen_fails
      then failing (some fd)
      else if a.makenonblock_fails
      then failing (some fd)
      else listening (some fd)
]

unfoldable pub listen_ipv6 : Option (List Byte) → Answers → Listener
listen_ipv6 none a = listening none
listen_ipv6 (some addr) a = if a.inet_pton_fails then failing none else elim a.socket [
  | none ↦ failing none
  | some fd ↦
      if a.reuseaddr_fails
      then failing (some fd)
      else if a.v6only_fails
      then failing (some fd)
      else if a.bind_fails
      then failing (some fd)
      else if a.listen_fails
      then failing (some fd)
      else if a.makenonblock_fails
      then failing (some fd)
      else listening (some fd)
]

-- NULL; or a server; or, after an error, a free of what was not allocated, with the descriptors that
-- are still open.
pub data Made : Type 0 where
  null : Made
  invalid_free : List ℕ → Made
  made : Whole → Made

abbrev pub still_open : Option ℕ → List ℕ
still_open none = []
still_open (some fd) = fd ∷ []

-- `addr != NULL && strnlen(addr, max + 1) > max`
abbrev pub too_long : ℕ → Option (List Byte) → Bool
too_long max none = false
too_long max (some addr) = ltb max (length addr)

-- `strndup(addr, n)`
abbrev pub duplicate : ℕ → Option (List Byte) → Option (List Byte)
duplicate n none = none
duplicate n (some addr) = some (take n addr)

abbrev pub is_null : Option (List Byte) → Bool
is_null none = true
is_null (some addr) = false

-- The call of `log` that a task makes: the text and the file are one number here, which
-- `vsnprintf` and `logging_fp` give.
unfoldable pub log_new : ℕ → LogPool.Task
log_new text = record { func = 0; userdata = text; has_userdata_cleanup = true }

-- The log of a listener with an address.
unfoldable pub announce : Answers → Option (List Byte) → LogPool.Pool → LogPool.Pool
unfolding log_new
announce a none pool = pool
announce a (some addr) pool = (thpool_add_task a.log_ok a.log_ok (log_new a.text) pool).0

-- The server once both listeners are there.
unfoldable pub server_block :
    (sessions_ok paths_ok : Bool)
    → (v4 v6 : Answers) → (ipv4_addr ipv6_addr : Option (List Byte)) → (ipv4_port ipv6_port : ℕ)
    → ServerSettings
    → Http2Settings
    → (ipv4 ipv6 : Option ℕ) → Whole
unfolding announce
server_block sessions_ok paths_ok v4 v6 ipv4_addr ipv6_addr ipv4_port ipv6_port settings http2 ipv4
      ipv6 =
    record {
      ipv4_addr = duplicate 16 ipv4_addr;
      ipv4_port = ipv4_port;
      ipv6_addr = duplicate 64 ipv6_addr;
      ipv6_port = ipv6_port;
      server_settings = settings;
      http2_settings = http2;
      nb_sessions = settings.max_connections + 2;
      nb_fds = settings.max_connections + 2;
      ipv4 = ipv4;
      ipv6 = ipv6;
      clients = replicate settings.max_connections zero_slot;
      has_sessions = sessions_ok;
      events = none;
      has_paths = paths_ok;
      registry = registry_new http2.max_paths;
      logger_thread = announce v6 ipv6_addr (announce v4 ipv4_addr (thpool_new 1));
    }

abbrev pub or_default {ℓ} : {A : Type ℓ} → Option A → A → A
or_default none a = a
or_default (some b) a = b

-- `fds_ok`, `sessions_ok` and `paths_ok` say whether `calloc` has room for the three tables, of which
-- only the first is looked at; where there is no room for the others of its blocks, an assertion fails.
-- An error calls `ezgrpc2_server_free`, which closes nothing, since `fds` are still NULL, and ends in
-- an invalid free.
unfoldable pub server_new :
    Platform
    → (fds_ok sessions_ok paths_ok : Bool) → (v4 v6 : Answers) → (ipv4_addr : Option (List Byte))
    → (ipv4_port : ℕ) → (ipv6_addr : Option (List Byte)) → (ipv6_port : ℕ) → Option ServerSettings
    → Option Http2Settings
    → Made
server_new c fds_ok sessions_ok paths_ok v4 v6 ipv4_addr ipv4_port ipv6_addr ipv6_port settings
      http2 =
    if is_null ipv4_addr && is_null ipv6_addr
    then null
    else if too_long 15 ipv4_addr
    then null
    else if too_long 63 ipv6_addr
    then null
    else elim (listen_ipv4 ipv4_addr v4) [
      | failing open4 ↦ invalid_free (still_open open4)
      | listening ipv4 ↦ elim (listen_ipv6 ipv6_addr v6) [
        | failing open6 ↦ invalid_free (still_open ipv4 ++ still_open open6)
        | listening ipv6 ↦
            if fds_ok
            then made (
                server_block sessions_ok paths_ok v4 v6 ipv4_addr ipv6_addr ipv4_port ipv6_port
                  (or_default settings (server_settings_new c))
                  (or_default http2 http2_settings_new) ipv4 ipv6)
            else invalid_free (still_open ipv4 ++ still_open ipv6)
      ]
    ]

-- `struct ezgrpc2_session_info` as `malloc` leaves it: nothing of it is set.
pub data SessionInfo : Type 0 where
  unset : SessionInfo

unfoldable pub get_all_sessions_info : List Slot → List SessionInfo
get_all_sessions_info [] = []
get_all_sessions_info (slot ∷ slots) = elim slot.fd [
  | none ↦ get_all_sessions_info slots
  | some fd ↦ unset ∷ get_all_sessions_info slots
]

-- What becomes of descriptors, in order.
pub data Release : Type 0 where
  shut : ℕ → Release
  closing : ℕ → Release

unfoldable pub free_listener : Option ℕ → List Release
free_listener none = []
free_listener (some fd) = closing fd ∷ []

-- `session_free` over the events that the server holds; without events it writes through NULL.
abbrev pub free_session : Bool → Slot → Option Events → Option Events
free_session malloc_ok slot none = none
free_session malloc_ok slot (some es) = elim (session_free malloc_ok slot es) [
  | none ↦ none
  | some (slot', es') ↦ some es'
]

-- The loop over the clients; `none` is a failed assertion of `session_free`, or a write through NULL.
unfoldable pub free_clients :
    Bool → List Slot → Option Events → Option (List Release × Option Events)
unfolding session_free
free_clients malloc_ok [] events = some ([], events)
free_clients malloc_ok (slot ∷ slots) events = elim slot.fd [
  | none ↦ free_clients malloc_ok slots events
  | some fd ↦ elim (free_session malloc_ok slot events) [
    | none ↦ none
    | some es ↦ elim (free_clients malloc_ok slots (some es)) [
      | none ↦ none
      | some (rs, es') ↦ some (shut fd ∷ closing fd ∷ rs, es')
    ]
  ]
]

-- What a call of `ezgrpc2_server_free` comes to: it fails on the way, or it ends in the free of the
-- logger's pool, which is a member of the server and no block of its own. Before that come the
-- releases, the events (which are the user's), and the logger's calls with the tasks that it cleans up.
pub data Freeing : Type 0 where
  fails : Freeing
  frees_member : List Release → Option Events → LogPool.Pool → List LogPool.Task → Freeing

unfoldable pub server_free : Bool → ℕ → Whole → Freeing
unfolding free_listener free_clients
server_free malloc_ok fuel w = elim (free_clients malloc_ok w.clients w.events) [
  | none ↦ fails
  | some (rs, es) ↦
      let (pool, cleaned) = thpool_free fuel w.logger_thread in
      frees_member (free_listener w.ipv4 ++ free_listener w.ipv6 ++ rs) es pool cleaned
]

-- EZGRPC2_SERVER_LOG_NORMAL
abbrev pub log_normal : ℕ
log_normal = 1

-- Nothing looks at whether the task could be added.
unfoldable pub server_log : (task_ok node_ok : Bool) → (log_level text : ℕ) → Whole → Whole
unfolding log_new thpool_add_task
server_log task_ok node_ok log_level text w =
    if not (
      not (bit_and log_level log_normal == 0)
      || not (bit_and log_level w.server_settings.logging_level == 0))
    then w
    else record w {
      logger_thread = (thpool_add_task task_ok node_ok (log_new text) w.logger_thread).0;
    }
