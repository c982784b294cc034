-- ===== src/Data/Loss.antt =====
-- What a stream comes to that holds whole messages when the client ends it.
use ezgrpc.Prelude.{
  ℕ, ◌+◌, ◌-◌, ◌*◌, ◌≤◌, ◌<◌, ◌≡◌, ◌≢◌, refl, sym, ap, ap₂, ◌∙◌, subst, true, false, ◌&&◌, some,
  List, [], ◌∷◌, ◌++◌, ◌==◌, ltb, leb, if◌then◌else◌, arith, length,
}
use native.Mathlib.Decide.{dec_le}
use ezgrpc.Wire.{Byte, Message, IsMessage, frame, frames}
use ezgrpc.Stream.{Stream}
use ezgrpc.Event.{EventKind}
use ezgrpc.Parse.{parsed, parse_grpc_message}
use ezgrpc.Parse.Strides.{CompleteAt}
use ezgrpc.Parse.Frames.{AllEmpty, parse_empty-frames, parse_payload-stays}
use ezgrpc.Headers.{Frame}
use ezgrpc.Data.{consume, delivered, bad, loss, take_messages, deliver}
use ezgrpc.Data.Deliver.{take_messages_overlaps}

take_messages_found :
    (frame : Frame) (s : Stream) (lseek : ℕ) (ms : List Message)
    → 0 < lseek
    → lseek ≤ s.recv_len
    → s.recv_len - lseek ≤ lseek
    → take_messages frame s (parsed lseek (some ms))
      ≡ delivered (consume lseek s) (
          EventKind.message ms frame.stream_id
            (frame.end_stream && ((consume lseek s).recv_len == 0))
          ∷ loss frame (consume lseek s))
unfolding take_messages
take_messages_found frame s lseek ms pos inside apart =
    let e : (lseek == 0) ≡ false = ground arith in
    let f : ltb s.recv_len lseek ≡ false = ground arith in
    let g : ltb lseek (s.recv_len - lseek) ≡ false = ground arith in rw (e, f) (rw g refl)

-- The events where bytes are left, and where none are.
take_events :
    (frame : Frame) (s : Stream) (lseek : ℕ) (ms : List Message)
    → frame.end_stream ≡ true
    → s.recv_len - lseek ≢ 0
    → delivered (consume lseek s) (
        EventKind.message ms frame.stream_id (frame.end_stream && ((consume lseek s).recv_len == 0))
        ∷ loss frame (consume lseek s))
      ≡ delivered
          (consume lseek s)
          (EventKind.message ms frame.stream_id false ∷ EventKind.dataloss s.stream_id ∷ [])
unfolding consume loss
take_events frame s lseek ms end left =
    let e : (s.recv_len - lseek == 0) ≡ false = ground (arith, left) in rw (end, e)

take_last :
    (frame : Frame) (s : Stream) (ms : List Message)
    → frame.end_stream ≡ true
    → delivered (consume s.recv_len s) (
        EventKind.message ms frame.stream_id
          (frame.end_stream && ((consume s.recv_len s).recv_len == 0))
        ∷ loss frame (consume s.recv_len s))
      ≡ delivered (consume s.recv_len s) (EventKind.message ms frame.stream_id true ∷ [])
unfolding consume loss
take_last frame s ms end =
    let e : (s.recv_len - s.recv_len == 0) ≡ true = ground arith in rw (end, e)

-- A stream that holds just one complete message, of some payload that does not itself look like a
-- complete message, when the client ends it: only the five bytes of the prefix are taken. A payload
-- of at most five bytes is then copied to the front, the message is reported as one that others
-- follow, and then its own payload is reported as lost. Of a longer one the copy overlaps, which is
-- undefined behaviour.
pub deliver_payload-loss :
    (frame_ : Frame) (s : Stream) (m : Message) (tail : List Byte)
    → IsMessage m
    → 0 < m.len
    → s.recv_data ≡ frame m ++ tail
    → s.recv_len ≡ 5 + m.len
    → s.recv_len ≤ length s.recv_data
    → ¬ CompleteAt s.recv_data s.recv_len 5
    → frame_.end_stream ≡ true
    → deliver frame_ s ≡ (
        if leb m.len 5
        then delivered (consume 5 s) (
            EventKind.message (m ∷ []) frame_.stream_id false ∷ EventKind.dataloss s.stream_id ∷ [])
        else bad)
unfolding deliver
deliver_payload-loss frame_ s m tail is pos held count room not_prefix end =
    let not_done : (frame_.end_stream && (s.recv_len == 0)) ≡ false = ground arith in
    rw (not_done, found)
      (elim (dec_le m.len 5) [
        | yes short ↦
            let small : leb m.len 5 ≡ true = ground arith in
            rw small (
              take_messages_found frame_ s 5 (m ∷ []) (omega arith) (omega arith) (omega arith)
              ∙ take_events frame_ s 5 (m ∷ []) end (λ h. omega arith))
        | no long ↦
            let big : leb m.len 5 ≡ false = ground arith in
            rw big
              (take_messages_overlaps frame_ s 5 (some (m ∷ [])) (λ h. omega arith) (omega arith))
      ])
  where
    clear : ¬ CompleteAt (frame m ++ tail) (5 + m.len) 5
    clear =
        subst (λ w. ¬ CompleteAt w (5 + m.len) 5) held
          (subst (λ n. ¬ CompleteAt s.recv_data n 5) count not_prefix)

    inside : 5 + m.len ≤ length (frame m ++ tail)
    inside = subst (λ w. 5 + m.len ≤ length w) held (subst (λ n. n ≤ length s.recv_data) count room)

    found : parse_grpc_message s.recv_data s.recv_len ≡ parsed 5 (some (m ∷ []))
    found =
        ap₂ parse_grpc_message held count
        ∙ parse_payload-stays m tail (5 + m.len) is (omega arith) inside clear

-- A stream that holds just messages with no payload when the client ends it: they are all reported,
-- as the last ones, and nothing is lost.
pub deliver_empty-ends :
    (frame_ : Frame) (s : Stream) (m : Message) (ms : List Message) (tail : List Byte)
    → AllEmpty (m ∷ ms)
    → s.recv_data ≡ frames (m ∷ ms) ++ tail
    → s.recv_len ≡ 5 * length (m ∷ ms)
    → s.recv_len ≤ length s.recv_data
    → frame_.end_stream ≡ true
    → deliver frame_ s
      ≡ delivered (consume s.recv_len s) (EventKind.message (m ∷ ms) frame_.stream_id true ∷ [])
unfolding deliver
deliver_empty-ends frame_ s m ms tail e held count room end =
    let not_done : (frame_.end_stream && (s.recv_len == 0)) ≡ false = ground arith in
    rw (not_done, found)
      (take_messages_found frame_ s s.recv_len (m ∷ ms) (omega arith) (omega arith) (omega arith)
        ∙ take_last frame_ s (m ∷ ms) end)
  where
    found : parse_grpc_message s.recv_data s.recv_len ≡ parsed s.recv_len (some (m ∷ ms))
    found =
        ap (λ w. parse_grpc_message w s.recv_len) held
        ∙ parse_empty-frames m ms tail s.recv_len e (omega arith) (omega arith)
            (subst (λ w. s.recv_len ≤ length w) held room)
        ∙ ap (λ n. parsed n (some (m ∷ ms))) (sym count)
