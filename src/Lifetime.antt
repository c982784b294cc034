-- ===== src/Lifetime.antt =====
-- The life of a stream: `on_begin_headers_callback`, `on_stream_close_callback` and the dispatch of
-- `on_frame_recv_callback` in internal_nghttp2_callbacks.c, and `stream_free` of internal_helpers.c.
pub mod Close
pub mod Streams
pub mod Kept
pub mod Callbacks
mod Tests
use ezgrpc.Prelude.{ℕ, ◌+◌, Bool, Option, none, some, List, [], ◌∷◌, ◌++◌, if◌then◌else◌, ◌==◌}
use ezgrpc.Wire.{Byte}
use ezgrpc.Stream.{Stream, Header, stream_new}
use ezgrpc.Session.{
  Call, set_stream_user_data, Env, Session, Outcome, returned, fault, called, find_stream,
}
use ezgrpc.Header.{on_header}
use ezgrpc.Headers.{Frame, on_frame_recv_headers, on_frame_recv_settings}
use ezgrpc.Data.{on_data_chunk_recv, on_frame_recv_data}

-- The stream that is opened; `buffer` is what `malloc` gives for `recv_data`.
unfoldable pub opened : (now stream_id : ℕ) → List Byte → Stream
opened now stream_id buffer = record (stream_new now stream_id) { recv_len = 0; recv_data = buffer }

-- `address` is what `calloc` gives for the stream.
unfoldable pub on_begin_headers : (now address stream_id : ℕ) → List Byte → Session → Outcome
on_begin_headers now address stream_id buffer session = returned 0 (
    called
      (record session {
        lstreams = session.lstreams ++ (address, opened now stream_id buffer) ∷ [];
      })
      (set_stream_user_data stream_id address))

-- `ezgrpc2_list_remove` by `list_cmp_ezstream_id`: the first stream of that id leaves the list.
unfoldable pub first_address : ℕ → List (ℕ × Stream) → Option ℕ
first_address id [] = none
first_address id ((a, s) ∷ l) = if s.stream_id == id then some a else first_address id l

unfoldable pub remove_stream : ℕ → List (ℕ × Stream) → List (ℕ × Stream)
remove_stream id [] = []
remove_stream id ((a, s) ∷ l) = if s.stream_id == id then l else (a, s) ∷ remove_stream id l

-- The assertion that the stream removed is the one that nghttp2 knows, and `stream_free`, which
-- reads the members of the stream: on NULL it faults.
unfoldable pub on_stream_close : Env → ℕ → Session → Outcome
on_stream_close env stream_id session = elim (env.user_data stream_id) [
  | none ↦ fault
  | some a ↦ elim (first_address stream_id session.lstreams) [
    | none ↦ fault
    | some b ↦
        if a == b
        then returned 0 (record session { lstreams = remove_stream stream_id session.lstreams })
        else fault
  ]
]

-- The types of frame that are told apart.
pub data FrameType : Type 0 where
  settings headers payload window_update other : FrameType

-- In the case of HEADERS the number of headers of the stream is read, for the log.
unfoldable pub on_frame_recv : Env → FrameType → Frame → Session → Outcome
on_frame_recv env FrameType.settings frame session = on_frame_recv_settings frame session
on_frame_recv env FrameType.headers frame session = on_frame_recv_headers env frame session
on_frame_recv env FrameType.payload frame session = on_frame_recv_data env frame session
on_frame_recv env FrameType.window_update frame session = returned 0 session
on_frame_recv env FrameType.other frame session = returned 0 session

-- The callbacks, as nghttp2 makes them.
pub data Callback : Type 0 where
  begin_headers : (now address stream_id : ℕ) → List Byte → Callback
  header : (is_headers : Bool) (stream_id : ℕ) (name value : List Byte) → Callback
  frame_recv : FrameType → Frame → Callback
  data_chunk_recv : (stream_id : ℕ) → List Byte → Callback
  stream_close : (stream_id : ℕ) → Callback

unfoldable pub callback : Env → Callback → Session → Outcome
unfolding on_begin_headers on_frame_recv on_stream_close
callback env (begin_headers now address id buffer) session =
    on_begin_headers now address id buffer session
callback env (header is_headers id name value) session =
    on_header env is_headers id name value session
callback env (frame_recv type frame) session = on_frame_recv env type frame session
callback env (data_chunk_recv id chunk) session = on_data_chunk_recv env id chunk session
callback env (stream_close id) session = on_stream_close env id session
