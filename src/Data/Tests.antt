-- ===== src/Data/Tests.antt =====
-- A stream with a receive buffer of sixteen bytes.
use ezgrpc.Prelude.{◌≡◌, refl, true, false, [], ◌∷◌, ◌++◌, arith, replicate, if◌then◌else◌, leb}
use ezgrpc.Wire.{Message, frame, frames, htonl_bytes, ntohl_at}
use ezgrpc.Stream.{Stream, stream_new}
use ezgrpc.Event.{EventKind}
use ezgrpc.Parse.Strides.{CompleteAt}
use ezgrpc.Headers.{Frame}
use ezgrpc.Data.{consume, deliver, delivered, bad}
use ezgrpc.Data.Chunk.{IsBuffered}
use ezgrpc.Data.Deliver.{Result, deliver-Delivers}
use ezgrpc.Data.Loss.{deliver_payload-loss}

abbrev hi : Message
hi = record { cflag = 0; len = 2; payload = 104 ∷ 105 ∷ [] }

abbrev empty : Message
empty = record { cflag = 0; len = 0; payload = [] }

-- The message `hi`, and nine bytes that do not count.
abbrev holding : Stream
holding = record (stream_new 7 1) { recv_len = 7; recv_data = frame hi ++ replicate 9 0 }

abbrev holding_empty : Stream
holding_empty = record (stream_new 7 1) {
  recv_len = 10;
  recv_data = frames (empty ∷ empty ∷ []) ++ replicate 6 0;
}

abbrev last : Frame
last = record { stream_id = 1; length = 7; end_stream = true; end_headers = false; ack = false }

holding-IsBuffered : IsBuffered 16 holding
unfolding frame htonl_bytes
holding-IsBuffered = record { size = refl; within = omega arith }

deliver-Delivers_example : Result 16 last holding holding-IsBuffered (deliver last holding)
deliver-Delivers_example = deliver-Delivers 16 last holding holding-IsBuffered (omega arith)

no_prefix : ¬ CompleteAt holding.recv_data holding.recv_len 5
unfolding frame htonl_bytes ntohl_at
no_prefix = omega arith

deliver_payload-loss_example : deliver last holding ≡ (
    if leb 2 5
    then delivered
        (consume 5 holding)
        (EventKind.message (hi ∷ []) 1 false ∷ EventKind.dataloss holding.stream_id ∷ [])
    else bad)
deliver_payload-loss_example =
    deliver_payload-loss last holding hi (replicate 9 0)
      (record { len_eq = refl; len_fits = omega arith }) (omega arith) refl refl
      (omega (arith, holding-IsBuffered)) no_prefix refl
