-- ===== src/Session.antt =====
-- `struct ezgrpc2_session` of core.h as the nghttp2 callbacks see it, with what they are given.
use ezgrpc.Prelude.{ℕ, Bool, Option, none, some, List, [], ◌∷◌, ◌++◌, if◌then◌else◌, ◌==◌}
use ezgrpc.Wire.{Byte}
use ezgrpc.Stream.{Stream}
use ezgrpc.Event.{SessionUuid, Event}
use ezgrpc.Events.{Events, events_write}
use ezgrpc.Paths.{Registry}

-- `nghttp2_nv`
pub record Field : Type 0 where
  pub name : List Byte
  pub value : List Byte

-- The calls that the callbacks make of nghttp2, in their order.
pub data Call : Type 0 where
  set_stream_user_data : (stream_id address : ℕ) → Call
  submit_rst_stream : (stream_id error_code : ℕ) → Call
  submit_headers : (end_stream : Bool) (stream_id : ℕ) → List Field → Call
  submit_trailer : (stream_id : ℕ) → List Field → Call

-- `lstreams` holds each stream with its address, in the order of the list; a stream is allocated
-- when it enters the list and freed when it leaves. `calls` are the calls of nghttp2 so far.
pub record Session : Type 0 where
  pub session_uuid : SessionUuid
  pub lstreams : List (ℕ × Stream)
  pub calls : List Call
  pub events : Events

-- What a callback is given from outside: the server's settings and paths, the answer of
-- `nghttp2_session_get_stream_user_data` for each stream id (`none` is NULL), the value returned by
-- `nghttp2_submit_headers`, and whether `malloc` has room for an array of events.
pub record Env : Type 0 where
  pub initial_window_size : ℕ
  pub registry : Registry
  pub user_data : ℕ → Option ℕ
  pub submit_headers_result : ℕ
  pub malloc_ok : Bool

-- The value returned with the new state, or undefined behaviour or a failed assertion.
pub data Outcome : Type 0 where
  returned : ℕ → Session → Outcome
  fault : Outcome

abbrev pub called : Session → Call → Session
called s c = record s { calls = s.calls ++ c ∷ [] }

unfoldable pub find_stream : ℕ → List (ℕ × Stream) → Option Stream
find_stream a [] = none
find_stream a ((b, s) ∷ l) = if b == a then some s else find_stream a l

unfoldable pub put_stream : ℕ → Stream → List (ℕ × Stream) → List (ℕ × Stream)
put_stream a s [] = []
put_stream a s ((b, t) ∷ l) = if b == a then (b, s) ∷ l else (b, t) ∷ put_stream a s l

-- `ezgrpc2_events_write(ezsession->server->events, event)`, whose result is not looked at.
unfoldable pub write_event : Env → Event → Session → Option Session
write_event env event s = elim (events_write env.malloc_ok s.events event) [
  | none ↦ none
  | some (e, _) ↦ some (record s { events = e })
]
