-- ===== src/Server/Poll.antt =====
-- `ezgrpc2_server_poll` and `ezgrpc2_server_events_poll`.
pub mod Round
pub mod Total
use ezgrpc.Prelude.{
  ℕ, ◌+◌, Bool, true, false, not, ◌&&◌, Option, none, some, List, [], ◌∷◌, ◌++◌, if◌then◌else◌,
  ◌==◌,
}
use ezgrpc.Events.{Events}
use ezgrpc.Session.{Session}
use ezgrpc.Server.{
  Slot, Server, Accept, session_add, session_free, Nghttp2, Served, served, session_events,
}

-- `revents` of an entry: POLLRDHUP or POLLERR, and POLLIN.
pub record Revents : Type 0 where
  pub hangup : Bool
  pub readable : Bool

-- The session of an entry as its callbacks see it; the list of calls is begun anew.
abbrev pub session_of : Slot → Events → Session
session_of slot events = record {
  session_uuid = slot.session_uuid;
  lstreams = slot.lstreams;
  calls = [];
  events = events;
}

-- An entry with the events and the closed descriptors, after a part of the loop; `none` is a failed
-- assertion.
abbrev pub Polled : Type 0
Polled = Option (Slot × Events × List ℕ)

-- `session_free` and `fd = -1`.
unfoldable pub drop_session : Bool → Slot → Events → List ℕ → Polled
unfolding session_free
drop_session malloc_ok slot events closed = elim (session_free malloc_ok slot events) [
  | none ↦ none
  | some (slot', es) ↦ some (record slot' { fd = none }, es, closed)
]

-- What follows `session_events`.
unfoldable pub poll_served : Bool → Slot → List ℕ → Served → Polled
unfolding drop_session
poll_served malloc_ok slot closed (served res ngsession s) =
    let slot' : Slot = record slot {
      session_uuid = s.session_uuid;
      lstreams = s.lstreams;
      ngsession = ngsession;
    } in
    let gone = drop_session malloc_ok slot' s.events (closed ++ slot.sockfd ∷ []) in
    if res == 0 then some (slot', s.events, closed) else gone
poll_served malloc_ok slot closed Served.failed = none
poll_served malloc_ok slot closed Served.out_of_fuel = none

-- The body of the loop over the entries.
unfoldable pub poll_slot : Bool → ℕ → Nghttp2 → Revents → Slot → Events → List ℕ → Polled
unfolding poll_served drop_session session_events
poll_slot malloc_ok fuel ng revents slot events closed = elim slot.fd [
  | none ↦ some (slot, events, closed)
  | some fd ↦
      if revents.hangup
      then drop_session malloc_ok slot events closed
      else if revents.readable
      then poll_served malloc_ok slot closed
          (session_events fuel ng slot.ngsession (session_of slot events))
      else some (slot, events, closed)
]

unfoldable pub poll_slots :
    Bool
    → ℕ
    → Nghttp2
    → List Revents
    → List Slot
    → Events
    → List ℕ
    → Option (List Slot × Events × List ℕ)
unfolding poll_slot
poll_slots malloc_ok fuel ng rs [] events closed = some ([], events, closed)
poll_slots malloc_ok fuel ng [] (slot ∷ slots) events closed = some (slot ∷ slots, events, closed)
poll_slots malloc_ok fuel ng (r ∷ rs) (slot ∷ slots) events closed =
    elim (poll_slot malloc_ok fuel ng r slot events closed) [
      | none ↦ none
      | some (slot', es, cs) ↦ elim (poll_slots malloc_ok fuel ng rs slots es cs) [
        | none ↦ none
        | some (slots', es', cs') ↦ some (slot' ∷ slots', es', cs')
      ]
    ]

-- What `poll(2)` finds: a connection at each listener, and `revents` of each client.
pub record Ready : Type 0 where
  pub ipv4 : Option Accept
  pub ipv6 : Option Accept
  pub revents : List Revents

-- `session_add` where a listener is ready; its result is not looked at.
unfoldable pub add_ready : Bool → Option Accept → Server → Option Server
unfolding session_add
add_ready malloc_ok none server = some server
add_ready malloc_ok (some accept) server = elim (session_add malloc_ok accept server) [
  | none ↦ none
  | some (server', res) ↦ some server'
]

-- `server.events` are those that the user passes; `none` for `ready` is a result of `poll` that is
-- not positive. The new entries are polled with the others, with the `revents` that they had.
unfoldable pub server_poll : Bool → ℕ → Nghttp2 → Option Ready → Server → Option Server
unfolding add_ready poll_slots
server_poll malloc_ok fuel ng none server = some server
server_poll malloc_ok fuel ng (some ready) server = elim (add_ready malloc_ok ready.ipv4 server) [
  | none ↦ none
  | some s4 ↦ elim (add_ready malloc_ok ready.ipv6 s4) [
    | none ↦ none
    | some s6 ↦ elim (poll_slots malloc_ok fuel ng ready.revents s6.clients s6.events s6.closed) [
      | none ↦ none
      | some (slots, es, cs) ↦ some (record { clients = slots; events = es; closed = cs })
    ]
  ]
]

-- Without events of the user's: those that the server holds are written on.
unfoldable pub server_events_poll : Bool → ℕ → Nghttp2 → Option Ready → Server → Option Server
unfolding add_ready poll_slots
server_events_poll malloc_ok fuel ng none server = some server
server_events_poll malloc_ok fuel ng (some ready) server =
    elim (add_ready malloc_ok ready.ipv4 server) [
      | none ↦ none
      | some s4 ↦ elim (add_ready malloc_ok ready.ipv6 s4) [
        | none ↦ none
        | some s6 ↦
            elim (poll_slots malloc_ok fuel ng ready.revents s6.clients s6.events s6.closed) [
              | none ↦ none
              | some (slots, es, cs) ↦ some (record { clients = slots; events = es; closed = cs })
            ]
      ]
    ]
