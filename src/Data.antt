-- ===== src/Data.antt =====
-- `on_data_chunk_recv_callback` and `on_frame_recv_data` of internal_nghttp2_callbacks.c: how the
-- bytes of a request are gathered and turned into events.
pub mod Chunk
pub mod Deliver
pub mod Loss
mod Tests
use ezgrpc.Prelude.{
  ℕ, ◌+◌, ◌-◌, Bool, true, false, not, ◌&&◌, Option, none, some, List, [], ◌∷◌, ◌++◌, if◌then◌else◌,
  ◌==◌, ltb, length, take, drop, get_elem?,
}
use ezgrpc.Wire.{Byte, Message}
use ezgrpc.Stream.{Stream}
use ezgrpc.Event.{SessionUuid, Event, EventKind}
use ezgrpc.Paths.{ServerPath, Registry}
use ezgrpc.Parse.{Parsed, parsed, parse_grpc_message}
use ezgrpc.Session.{
  Call, submit_rst_stream, Env, Session, Outcome, returned, fault, called, find_stream, put_stream,
  write_event,
}
use ezgrpc.Headers.{Frame}

-- `memcpy(recv_data + recv_len, data, len)`
unfoldable pub append_chunk : List Byte → Stream → Stream
append_chunk chunk s = record s {
  recv_data =
      take s.recv_len s.recv_data ++ (chunk ++ drop (s.recv_len + length chunk) s.recv_data);
  recv_len = s.recv_len + length chunk;
}

unfoldable pub on_data_chunk_recv : Env → ℕ → List Byte → Session → Outcome
unfolding append_chunk
on_data_chunk_recv env stream_id chunk session = elim (env.user_data stream_id) [
  | none ↦ returned 0 session
  | some a ↦ elim (find_stream a session.lstreams) [
    | none ↦ fault
    | some s ↦
        if ltb env.initial_window_size (s.recv_len + length chunk)
        then returned 1 (called session (submit_rst_stream stream_id 1))
        else returned 0
            (record session { lstreams = put_stream a (append_chunk chunk s) session.lstreams })
  ]
]

-- `memcpy(recv_data, recv_data + lseek, recv_len - lseek)`, of parts that do not overlap.
unfoldable pub consume : ℕ → Stream → Stream
consume lseek s = record s {
  recv_data =
      take (s.recv_len - lseek) (drop lseek s.recv_data) ++ drop (s.recv_len - lseek) s.recv_data;
  recv_len = s.recv_len - lseek;
}

-- What a DATA frame leads to: the stream after it with the events to be written, or undefined
-- behaviour or a failed assertion.
pub data Delivery : Type 0 where
  delivered : Stream → List EventKind → Delivery
  bad : Delivery

-- The last part: a stream that has ended with bytes left.
unfoldable pub loss : Frame → Stream → List EventKind
loss frame s =
    if frame.end_stream && not (s.recv_len == 0) then EventKind.dataloss s.stream_id ∷ [] else []

-- The middle part, given what the parser found. A `memcpy` of parts that overlap is undefined
-- behaviour: that is where more bytes are left than were taken.
unfoldable pub take_messages : Frame → Stream → Parsed → Delivery
unfolding consume loss
take_messages frame s (Parsed.parsed lseek messages) =
    if lseek == 0
    then delivered s (loss frame s)
    else if ltb s.recv_len lseek
    then bad
    else if ltb lseek (s.recv_len - lseek)
    then bad
    else elim messages [
      | none ↦ bad
      | some ms ↦
          let s' = consume lseek s in
          delivered s' (
            EventKind.message ms frame.stream_id (frame.end_stream && (s'.recv_len == 0))
            ∷ loss frame s')
    ]
take_messages frame s Parsed.fault = bad
take_messages frame s Parsed.out_of_fuel = bad

-- The whole of it, for a stream with a path.
pub deliver : Frame → Stream → Delivery
unfolding take_messages
deliver frame s =
    if frame.end_stream && (s.recv_len == 0)
    then delivered s (EventKind.message [] frame.stream_id true ∷ [])
    else take_messages frame s (parse_grpc_message s.recv_data s.recv_len)

-- `ezgrpc2_events_write` of each event in turn.
unfoldable pub write_events : Env → SessionUuid → ℕ → List EventKind → Session → Option Session
unfolding write_event
write_events env uuid userdata [] session = some session
write_events env uuid userdata (k ∷ ks) session =
    elim (write_event env (record { session_uuid = uuid; kind = k; userdata = some userdata })
      session) [ none ↦ none | some session' ↦ write_events env uuid userdata ks session' ]

abbrev pub finish : Env → ℕ → ℕ → Session → Delivery → Outcome
finish env a userdata session bad = fault
finish env a userdata session (delivered s ks) =
    elim (write_events env session.session_uuid userdata ks
      (record session { lstreams = put_stream a s session.lstreams })) [
        | none ↦ fault
        | some session' ↦ returned 0 session'
      ]

unfoldable pub on_frame_recv_data : Env → Frame → Session → Outcome
unfolding deliver write_events
on_frame_recv_data env frame session = elim (env.user_data frame.stream_id) [
  | none ↦ returned 0 (called session (submit_rst_stream frame.stream_id 1))
  | some a ↦ elim (find_stream a session.lstreams) [
    | none ↦ fault
    | some s ↦ elim s.path [
      | none ↦ returned 0 session
      | some p ↦ elim (get_elem? env.registry.paths p) [
        | none ↦ fault
        | some path ↦ finish env a path.userdata session (deliver frame s)
      ]
    ]
  ]
]
