-- ===== src/Headers.antt =====
-- `on_frame_recv_headers` and `on_frame_recv_settings` of internal_nghttp2_callbacks.c.
pub mod Reply
mod Tests
use ezgrpc.Prelude.{
  ℕ, ◌+◌, Bool, true, false, not, ◌&&◌, ◌||◌, Option, none, some, List, [], ◌∷◌, ◌++◌,
  if◌then◌else◌, ◌==◌, codes,
}
use ezgrpc.Wire.{Byte}
use ezgrpc.Stream.{Stream}
use ezgrpc.Status.{status_unimplemented, strstatus, print_status}
use ezgrpc.Session.{
  Field, Call, submit_rst_stream, submit_headers, submit_trailer, Env, Session, Outcome, returned,
  fault, called, find_stream,
}

-- The parts of `frame->hd` that are looked at.
pub record Frame : Type 0 where
  pub stream_id : ℕ
  pub length : ℕ
  pub end_stream : Bool
  pub end_headers : Bool
  pub ack : Bool

abbrev pub status_415 : List Field
status_415 = record { name = codes ":status"; value = codes "415" } ∷ []

abbrev pub status_200 : List Field
status_200 =
    record { name = codes ":status"; value = codes "200" }
    ∷ record { name = codes "content-type"; value = codes "application/grpc" }
    ∷ []

-- The trailers of a stream that ends with a status.
unfoldable pub trailers : ℕ → List Field
trailers status =
    record { name = codes "grpc-status"; value = print_status status }
    ∷ record { name = codes "grpc-message"; value = strstatus status }
    ∷ []

-- What a frame leads to: a value returned with the calls that are made, or a failed assertion.
pub data Answer : Type 0 where
  answer : ℕ → List Call → Answer
  failed : Answer

-- The response headers, and what follows them.
reply_path : Frame → Stream → Answer
unfolding trailers
reply_path frame s = elim s.path [
  | none ↦ answer 0 (
      submit_headers false s.stream_id status_200
      ∷ submit_trailer frame.stream_id (trailers status_unimplemented)
      ∷ [])
  | some p ↦ answer 0 (submit_headers false s.stream_id status_200 ∷ [])
]

-- The reply to the headers of the stream `s`.
pub reply : Env → Frame → Stream → Answer
unfolding reply_path
reply env frame s =
    if not frame.end_headers
    then answer 0 []
    else if frame.end_stream && not s.is_content_grpc
    then if env.submit_headers_result == 0
      then answer 0 (submit_headers true s.stream_id status_415 ∷ [])
      else failed
    else if frame.end_stream
    then answer 0 (submit_rst_stream frame.stream_id 1 ∷ [])
    else if not (s.is_method_post && (s.is_scheme_http && (s.is_te_trailers && s.is_content_grpc)))
    then answer 0 (submit_rst_stream s.stream_id 1 ∷ [])
    else if env.submit_headers_result == 0
    then reply_path frame s
    else answer 1 (submit_headers false s.stream_id status_200 ∷ [])

abbrev pub perform : Session → Answer → Outcome
perform session (answer res calls) =
    returned res (record session { calls = session.calls ++ calls })
perform session failed = fault

unfoldable pub on_frame_recv_headers : Env → Frame → Session → Outcome
unfolding reply
on_frame_recv_headers env frame session = elim (env.user_data frame.stream_id) [
  | none ↦ fault
  | some a ↦ elim (find_stream a session.lstreams) [
    | none ↦ fault
    | some s ↦ perform session (reply env frame s)
  ]
]

-- The settings of the client are not looked at.
unfoldable pub on_frame_recv_settings : Frame → Session → Outcome
on_frame_recv_settings frame session =
    if not (frame.stream_id == 0)
    then returned 0 session
    else if not frame.ack
    then returned 0 session
    else if frame.ack && (frame.length == 0)
    then returned 0 session
    else returned 0 (called session (submit_rst_stream frame.stream_id 1))
