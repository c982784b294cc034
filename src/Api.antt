-- ===== src/Api.antt =====
-- What a user calls with the uuid of a session: `ezgrpc2_server_session_stream_send`,
-- `ezgrpc2_server_session_stream_end` and `ezgrpc2_server_session_end` of ezgrpc2_session.c.
pub mod Stale
pub mod Total
mod Tests
use ezgrpc.Prelude.{
  ℕ, ◌+◌, ◌-◌, Bool, Option, none, some, List, [], ◌∷◌, ◌++◌, set, if◌then◌else◌, ltb, ◌==◌,
}
use ezgrpc.Wire.{Message}
use ezgrpc.Event.{SessionUuid}
use ezgrpc.Session.{Field, Session, find_stream, put_stream}
use ezgrpc.Headers.{trailers}
use ezgrpc.Server.{
  Slot, Server, Lookup, present, absent, session_find, Nghttp2, Served, served, send_loop,
}
use ezgrpc.Server.Poll.{session_of}

-- What else is asked of nghttp2, by the state of its session.
pub record Submit : Type 0 where
  pub user_data : ℕ → ℕ → Option ℕ
  pub submit_data : ℕ → ℕ → ℕ
  pub submit_trailer : ℕ → ℕ → List Field → ℕ
  pub submit_goaway : ℕ → ℕ → ℕ → ℕ

-- The value returned, the server, and what is left of the user's list; or undefined behaviour or a
-- failed assertion.
pub data Reply : Type 0 where
  replied : ℕ → Server → List Message → Reply
  fault : Reply

-- The entry of index `i` after nghttp2 has run its callbacks. The entries before 2 have no session.
abbrev pub leave : ℕ → Slot → ℕ → Session → Server → Server
leave i slot ngsession s server = record {
  clients =
      set server.clients (i - 2) (record slot {
        session_uuid = s.session_uuid;
        lstreams = s.lstreams;
        ngsession = ngsession;
      });
  events = s.events;
  closed = server.closed;
}

-- The result of the loop of `stream_send`.
unfoldable pub sent : ℕ → Slot → Server → Served → Reply
sent i slot server (served res n s) =
    replied (if res == 0 then 0 else 3) (leave i slot n s server) []
sent i slot server Served.failed = fault
sent i slot server Served.out_of_fuel = fault

unfoldable pub stream_send : ℕ → Nghttp2 → Submit → SessionUuid → ℕ → List Message → Server → Reply
unfolding session_find send_loop sent
stream_send fuel ng submit uuid stream_id messages server = elim (session_find uuid server) [
  | Lookup.failed ↦ fault
  | absent ↦ replied 1 server messages
  | present i slot ↦ if ltb i 2 then fault else elim (submit.user_data slot.ngsession stream_id) [
    | none ↦ replied 2 server messages
    | some a ↦ elim (find_stream a slot.lstreams) [
      | none ↦ fault
      | some s ↦
          let queued : Slot = record slot {
            lstreams =
                put_stream a (record s { lqueue_omessages = s.lqueue_omessages ++ messages })
                  slot.lstreams;
          } in
          sent i slot server (
            send_loop fuel ng (submit.submit_data slot.ngsession stream_id)
              (session_of queued server.events))
    ]
  ]
]

-- One call of `nghttp2_session_send`, whose result is not looked at.
unfoldable pub send_once : Nghttp2 → ℕ → Slot → ℕ → List Message → Server → Reply
send_once ng i slot n messages server = elim (ng.send n (session_of slot server.events)) [
  | none ↦ fault
  | some (res, n', s) ↦ replied 0 (leave i slot n' s server) messages
]

-- (The last list is there for `Reply` only.)
unfoldable pub stream_end : Nghttp2 → Submit → SessionUuid → ℕ → ℕ → Server → Reply
unfolding session_find send_once
stream_end ng submit uuid stream_id status server = elim (session_find uuid server) [
  | Lookup.failed ↦ fault
  | absent ↦ replied 1 server []
  | present i slot ↦ if ltb i 2 then fault else elim (submit.user_data slot.ngsession stream_id) [
    | none ↦ replied 2 server []
    | some a ↦ elim (find_stream a slot.lstreams) [
      | none ↦ fault
      | some s ↦
          send_once ng i slot (submit.submit_trailer slot.ngsession stream_id (trailers status)) []
            server
    ]
  ]
]

unfoldable pub session_end : Nghttp2 → Submit → SessionUuid → ℕ → ℕ → Server → Reply
unfolding session_find send_once
session_end ng submit uuid last_stream_id error_code server = elim (session_find uuid server) [
  | Lookup.failed ↦ fault
  | absent ↦ replied 1 server []
  | present i slot ↦
      if ltb i 2
      then fault
      else send_once ng i slot (submit.submit_goaway slot.ngsession last_stream_id error_code) []
          server
]
