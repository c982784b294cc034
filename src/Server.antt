-- ===== src/Server.antt =====
-- The table of sessions: `session_find`, `session_create`, `session_add`, `session_free` and
-- `session_events` of internal_helpers.c, and `ezgrpc2_server_poll` of ezgrpc2_server.c.
pub mod Table
pub mod Add
pub mod Serve
pub mod Poll
mod Tests
use ezgrpc.Prelude.{
  ℕ, zero, suc, ◌+◌, ◌-◌, Bool, true, false, not, ◌&&◌, ◌||◌, Option, none, some, List, [], ◌∷◌,
  ◌++◌, set, get_elem?, if◌then◌else◌, ◌==◌, ltb,
}
use ezgrpc.Stream.{Stream}
use ezgrpc.Event.{SessionUuid, Event, EventKind, session_uuid_is_equal}
use ezgrpc.Events.{Events, events_write}
use ezgrpc.Session.{Call, Session}

-- `sessions[i]` with `fds[i].fd` (`none` is -1). `ngsession` is the state of nghttp2's session.
pub record Slot : Type 0 where
  pub fd : Option ℕ
  pub session_uuid : SessionUuid
  pub sockfd : ℕ
  pub lstreams : List (ℕ × Stream)
  pub ngsession : ℕ

-- What `memset` leaves of a session.
abbrev pub zero_slot : Slot
zero_slot = record {
  fd = none;
  session_uuid = record { uuid = 0; index = 0 };
  sockfd = 0;
  lstreams = [];
  ngsession = 0;
}

-- `clients` are the entries of the two tables from index 2 on; those before are for the listeners.
-- `closed` are the descriptors that `close` was called for, in order.
pub record Server : Type 0 where
  pub clients : List Slot
  pub events : Events
  pub closed : List ℕ

-- `sessions + session_uuid.index` or NULL. The assertion on the index fails beyond the table, and
-- the entries 0 and 1 stay as `calloc` leaves them.
pub data Lookup : Type 0 where
  present : ℕ → Slot → Lookup
  absent : Lookup
  failed : Lookup

unfoldable pub session_find : SessionUuid → Server → Lookup
unfolding session_uuid_is_equal
session_find uuid server =
    if ltb uuid.index 2
    then if session_uuid_is_equal uuid zero_slot.session_uuid
      then present uuid.index zero_slot
      else absent
    else elim (get_elem? server.clients (uuid.index - 2)) [
      | none ↦ failed
      | some slot ↦
          if session_uuid_is_equal uuid slot.session_uuid then present uuid.index slot else absent
    ]

-- `get_unused_pollfd_ndx`, over the entries from index `i` on.
unfoldable pub get_unused_pollfd_ndx : ℕ → List Slot → Option ℕ
get_unused_pollfd_ndx i [] = none
get_unused_pollfd_ndx i (slot ∷ slots) =
    let next = get_unused_pollfd_ndx (i + 1) slots in
    elim slot.fd [ none ↦ some i | some fd ↦ next ]

-- What the calls of `session_add` and `session_create` answer: the descriptor of `accept` (`none` is
-- -1), what nghttp2 and the socket functions return, whether the address is of a known family, the
-- new uuid and the new state of nghttp2.
pub record Accept : Type 0 where
  pub confd : Option ℕ
  pub callbacks_new : ℕ
  pub server_new_fails : Bool
  pub submit_settings_fails : Bool
  pub makenonblock : ℕ
  pub setsockopt_fails : Bool
  pub known_family : Bool
  pub uuid : ℕ
  pub ngsession : ℕ

pub data Created : Type 0 where
  created : Slot → Created
  refused : Created
  aborted : Created

-- The slot keeps its `fd`, and the index of its uuid is not set yet.
unfoldable pub session_create : Accept → ℕ → Slot → Created
session_create accept confd slot =
    if not (accept.callbacks_new == 0)
    then refused
    else if accept.server_new_fails
    then refused
    else if accept.submit_settings_fails
        || (not (accept.makenonblock == 0) || accept.setsockopt_fails)
    then aborted
    else if accept.known_family
    then created (record slot {
      ngsession = accept.ngsession;
      sockfd = confd;
      lstreams = [];
      session_uuid = record { uuid = accept.uuid; index = slot.session_uuid.index };
    })
    else aborted

-- An event with no data, written to the server's events.
unfoldable pub write_plain : Bool → EventKind → SessionUuid → Events → Option Events
write_plain malloc_ok kind uuid events =
    elim (events_write malloc_ok events
      (record { session_uuid = uuid; kind = kind; userdata = none })) [
        | none ↦ none
        | some (es, res) ↦ some es
      ]

-- The new session at its place, and the event for it.
unfoldable pub session_enter : Bool → ℕ → ℕ → Slot → Server → Option (Server × ℕ)
unfolding write_plain
session_enter malloc_ok ndx confd slot server =
    let uuid : SessionUuid = record { uuid = slot.session_uuid.uuid; index = ndx } in
    elim (write_plain malloc_ok EventKind.connect uuid server.events) [
      | none ↦ none
      | some es ↦ some (
        record server {
          clients =
              set server.clients (ndx - 2) (record slot { session_uuid = uuid; fd = some confd });
          events = es;
        },
        0,
      )
    ]

-- The server and the value returned; `none` is a failed assertion or a call of `abort`.
unfoldable pub session_add : Bool → Accept → Server → Option (Server × ℕ)
unfolding get_unused_pollfd_ndx session_create session_enter
session_add malloc_ok accept server = elim accept.confd [
  | none ↦ some (server, 1)
  | some confd ↦ elim (get_unused_pollfd_ndx 2 server.clients) [
    | none ↦ some (record server { closed = server.closed ++ confd ∷ [] }, 1)
    | some ndx ↦ elim (get_elem? server.clients (ndx - 2)) [
      | none ↦ none
      | some slot ↦ elim (session_create accept confd slot) [
        | created slot' ↦ session_enter malloc_ok ndx confd slot' server
        | refused ↦ some (record server { closed = server.closed ++ confd ∷ [] }, 1)
        | aborted ↦ none
      ]
    ]
  ]
]

-- The entry after `session_free` (its `fd` is the caller's), and the events with the one written.
unfoldable pub session_free : Bool → Slot → Events → Option (Slot × Events)
unfolding write_plain
session_free malloc_ok slot events =
    elim (write_plain malloc_ok EventKind.disconnect slot.session_uuid events) [
      | none ↦ none
      | some es ↦ some (record zero_slot { fd = slot.fd }, es)
    ]

-- nghttp2 over a session's socket: what it wants to do, and what receiving and sending return with
-- the session after the callbacks that they make (`none` where a callback fails an assertion).
pub record Nghttp2 : Type 0 where
  pub want_read : ℕ → Bool
  pub want_write : ℕ → Bool
  pub recv : ℕ → Session → Option (ℕ × ℕ × Session)
  pub send : ℕ → Session → Option (ℕ × ℕ × Session)

pub data Served : Type 0 where
  served : (res ngsession : ℕ) → Session → Served
  failed : Served
  out_of_fuel : Served

-- `while (nghttp2_session_want_write(...))`, on fuel.
unfoldable pub send_loop : ℕ → Nghttp2 → ℕ → Session → Served
send_loop zero ng n session = out_of_fuel
send_loop (suc fuel) ng n session =
    let next : Served = elim (ng.send n session) [
      | none ↦ failed
      | some (res, n', session') ↦
          let rest = send_loop fuel ng n' session' in
          if res == 0 then rest else served 1 n' session'
    ] in
    if ng.want_write n then next else served 0 n session

unfoldable pub session_events : ℕ → Nghttp2 → ℕ → Session → Served
unfolding send_loop
session_events fuel ng n session =
    if not (ng.want_read n) && not (ng.want_write n)
    then served 1 n session
    else if ng.want_read n
    then elim (ng.recv n session) [
      | none ↦ failed
      | some (res, n', session') ↦
          if res == 0 then send_loop fuel ng n' session' else served 1 n' session'
    ]
    else send_loop fuel ng n session
