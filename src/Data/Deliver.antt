-- ===== src/Data/Deliver.antt =====
-- What a DATA frame delivers of the bytes that a stream has received.
use ezgrpc.Prelude.{
  ℕ, ◌-◌, ◌≤◌, ◌<◌, ◌≡◌, ◌≢◌, refl, sym, ◌∙◌, subst, ◌⊎◌, inl, inr, Bool, true, false, not, ◌&&◌,
  ◌||◌, Option, some, List, [], ◌∷◌, ◌==◌, ltb, arith, drop, Bool-cases,
}
use native.Mathlib.Decide.{ℕ_discrete, dec_le}
use ezgrpc.Wire.{Message, frame}
use ezgrpc.Stream.{Stream}
use ezgrpc.Event.{EventKind}
use ezgrpc.Parse.{parsed, parse_grpc_message}
use ezgrpc.Parse.Strides.{parse_grpc_message-Strides}
use ezgrpc.Headers.{Frame}
use ezgrpc.Data.{consume, Delivery, delivered, bad, loss, take_messages, deliver}
use ezgrpc.Data.Chunk.{IsBuffered, received, consume-IsBuffered}

-- Whether some event says that the stream has ended in order, or in the middle of a message.
abbrev pub ends : List EventKind → Bool
ends [] = false
ends (EventKind.message ms id e ∷ ks) = e || ends ks
ends (_ ∷ ks) = ends ks

abbrev pub has_loss : List EventKind → Bool
has_loss [] = false
has_loss (EventKind.dataloss id ∷ ks) = true
has_loss (_ ∷ ks) = has_loss ks

pub record Delivers (window : ℕ) (frame : Frame) (s : Stream) (o : Delivery) : Type 0 where
  pub after : Stream
  pub kinds : List EventKind
  pub consumed : ℕ
  pub is : o ≡ delivered after kinds
  pub buffered : IsBuffered window after
  pub inside : consumed ≤ s.recv_len
  pub rest : received after ≡ drop consumed (received s)
  pub same :
      (after.path ≡ s.path) × (after.nb_headers ≡ s.nb_headers) × (after.stream_id ≡ s.stream_id)
  pub ended : ends kinds ≡ (frame.end_stream && (after.recv_len == 0))
  pub lost : has_loss kinds ≡ (frame.end_stream && not (after.recv_len == 0))

-- The parser takes something, and leaves more bytes than it took: the parts of the `memcpy` overlap.
pub record Overlaps (s : Stream) : Type 0 where
  pub taken : ℕ
  pub made : Option (List Message)
  pub parse : parse_grpc_message s.recv_data s.recv_len ≡ parsed taken made
  pub some_taken : taken ≢ 0
  pub inside : taken ≤ s.recv_len
  pub more_left : taken < s.recv_len - taken

pub take_messages_overlaps :
    (frame : Frame) (s : Stream) (lseek : ℕ) (made : Option (List Message))
    → lseek ≢ 0
    → lseek < s.recv_len - lseek
    → take_messages frame s (parsed lseek made) ≡ bad
unfolding take_messages
take_messages_overlaps frame s lseek made some_bytes over =
    let e : (lseek == 0) ≡ false = ground arith in
    let f : ltb s.recv_len lseek ≡ false = ground arith in
    let g : ltb lseek (s.recv_len - lseek) ≡ true = ground arith in rw (e, f) (rw g refl)

ends-loss : (frame : Frame) (s : Stream) → ends (loss frame s) ≡ false
unfolding loss
ends-loss frame s = ground arith

has_loss-loss :
    (frame : Frame) (s : Stream)
    → has_loss (loss frame s) ≡ (frame.end_stream && not (s.recv_len == 0))
unfolding loss
has_loss-loss frame s = ground arith

message-ends :
    (frame : Frame) (s : Stream)
    → ((frame.end_stream && (s.recv_len == 0)) || ends (loss frame s))
      ≡ (frame.end_stream && (s.recv_len == 0))
message-ends frame s = rw (ends-loss frame s) (ground arith)

consume_same :
    (lseek : ℕ) (s : Stream)
    → ((consume lseek s).path ≡ s.path)
      × ((consume lseek s).nb_headers ≡ s.nb_headers)
      × ((consume lseek s).stream_id ≡ s.stream_id)
unfolding consume
consume_same lseek s = (refl, refl, refl)

no_loss : (e z : Bool) → (e && z) ≡ true → false ≡ (e && not z)
no_loss e z h = ground arith

module _ (window : ℕ) (frame : Frame) (s : Stream) (b : IsBuffered window s) where
  keep_all :
      (ks : List EventKind)
      → ends ks ≡ (frame.end_stream && (s.recv_len == 0))
      → has_loss ks ≡ (frame.end_stream && not (s.recv_len == 0))
      → Delivers window frame s (delivered s ks)
  keep_all ks e l = record {
    after = s;
    kinds = ks;
    consumed = 0;
    is = refl;
    buffered = b;
    inside = omega arith;
    rest = refl;
    same = (refl, refl, refl);
    ended = e;
    lost = l;
  }

  took :
      (lseek : ℕ) (ms : List Message)
      → lseek ≤ s.recv_len
      → lseek ≢ 0
      → s.recv_len - lseek ≤ lseek
      → Delivers window frame s (take_messages frame s (parsed lseek (some ms)))
  unfolding take_messages
  took lseek ms inside some_bytes apart =
      let moved = consume-IsBuffered window lseek s b inside in
      let e : (lseek == 0) ≡ false = ground arith in
      let f : ltb s.recv_len lseek ≡ false = ground arith in
      let g : ltb lseek (s.recv_len - lseek) ≡ false = ground arith in
      rw (e, f)
        (rw g (record {
          after = consume lseek s;
          kinds = _;
          consumed = lseek;
          is = refl;
          buffered = moved.0;
          inside = inside;
          rest = moved.1;
          same = consume_same lseek s;
          ended = message-ends frame (consume lseek s);
          lost = has_loss-loss frame (consume lseek s);
        }))

  none_taken :
      (made : Option (List Message))
      → (frame.end_stream && (s.recv_len == 0)) ≡ false
      → Delivers window frame s (take_messages frame s (parsed 0 made))
  unfolding take_messages
  none_taken made more =
      keep_all (loss frame s) (ends-loss frame s ∙ sym more) (has_loss-loss frame s)

  -- What a DATA frame comes to.
  abbrev pub Result : Delivery → Type 0
  Result o = Delivers window frame s o ⊎ ((o ≡ bad) × Overlaps s)

  take_messages-Delivers :
      (lseek : ℕ) (made : Option (List Message)) (ms : List Message)
      → parse_grpc_message s.recv_data s.recv_len ≡ parsed lseek made
      → lseek ≤ s.recv_len
      → (frame.end_stream && (s.recv_len == 0)) ≡ false
      → (lseek ≡ 0) ⊎ (made ≡ some ms)
      → Result (take_messages frame s (parsed lseek made))
  take_messages-Delivers lseek made ms parse inside more given = elim (ℕ_discrete lseek 0) [
    | yes e ↦
        subst (λ k. Result (take_messages frame s (parsed k made))) (sym e)
          (inl (none_taken made more))
    | no e ↦ elim (dec_le (s.recv_len - lseek) lseek) [
      | no over ↦ inr (
        take_messages_overlaps frame s lseek made e (omega (arith, over)),
        record {
          taken = lseek;
          made = made;
          parse = parse;
          some_taken = e;
          inside = inside;
          more_left = omega (arith, over);
        },
      )
      | yes apart ↦ elim given [
        | inl z ↦ absurd (e z)
        | inr m ↦
            subst (λ o. Result (take_messages frame s (parsed lseek o))) (sym m)
              (inl (took lseek ms inside e apart))
      ]
    ]
  ]

  -- A DATA frame on a stream with a path, in a buffer of at least five bytes, fails no assertion, uses
  -- no list that was not made and reads nothing behind the buffer. Unless it leaves more bytes than it
  -- removes, it removes some received bytes from the front and keeps the others, in order, in a buffer
  -- of the same size; and if the frame ends the stream, exactly one of two things is reported: that
  -- the stream has ended, when no byte is left, or that data was lost, when some are; and otherwise
  -- neither. Where it leaves more than it removes, the `memcpy` is of parts that overlap, which is
  -- undefined behaviour.
  pub deliver-Delivers : 5 ≤ window → Result (deliver frame s)
  unfolding deliver
  deliver-Delivers five = elim (Bool-cases (frame.end_stream && (s.recv_len == 0))) [
    | inl done ↦ rw done (
        inl (
          keep_all (EventKind.message [] frame.stream_id true ∷ []) (sym done)
            (no_loss frame.end_stream (s.recv_len == 0) done)))
    | inr more ↦
        let o =
          parse_grpc_message-Strides s.recv_data s.recv_len (omega (arith, b))
            (omega (arith, five, b)) in
        rw (more, o.is) (take_messages-Delivers o.end o.made o.ms o.is o.within more o.given)
  ]
