-- ===== src/Send/Tests.antt =====
-- The sending side at concrete streams.
use ezgrpc.Prelude.{◌<◌, ◌≡◌, refl, false, [], ◌∷◌, arith, length, replicate}
use ezgrpc.Wire.{Message, frames, frame, htonl_bytes}
use ezgrpc.Stream.{Stream, stream_new}
use ezgrpc.Send.{aborted, data_source_read, wrote}
use ezgrpc.Send.Pending.{Reads, IsReady, pending}
use ezgrpc.Send.Reads.{data_source_read-Reads}
use ezgrpc.Send.Drain.{sent, read_all, read_all-frames}
use ezgrpc.Send.Empty.{read_empty-aborts}

abbrev hi : Message
hi = record { cflag = 0; len = 2; payload = 104 ∷ 105 ∷ [] }

abbrev abc : Message
abc = record { cflag = 1; len = 3; payload = 97 ∷ 98 ∷ 99 ∷ [] }

abbrev nothing : Message
nothing = record { cflag = 0; len = 0; payload = [] }

abbrev queued : Stream
queued = record (stream_new 7 1) { lqueue_omessages = hi ∷ abc ∷ [] }

queued-IsReady : IsReady queued
unfolding stream_new
queued-IsReady = record { sendable = omega arith; begun = tt }

-- A buffer of nine bytes takes the first message, and has no room for another prefix.
read_nine :
    data_source_read 9 queued
    ≡ wrote
        (0 ∷ 0 ∷ 0 ∷ 0 ∷ 2 ∷ 104 ∷ 105 ∷ [])
        false
        (record queued { lqueue_omessages = abc ∷ [] })
unfolding data_source_read stream_new htonl_bytes
read_nine = refl

data_source_read-Reads_example : Reads 9 [] queued (data_source_read 9 queued)
data_source_read-Reads_example = data_source_read-Reads 9 queued (omega arith) queued-IsReady

read_all-frames_example :
    (after : Stream) × (read_all (replicate 16 6) queued ≡ sent (frames (hi ∷ abc ∷ [])) after)
    × (pending after ≡ [])
unfolding stream_new frames frame htonl_bytes
read_all-frames_example =
    read_all-frames (replicate 16 6) queued (omega arith) (omega arith) refl lengths
  where
    lengths : length (frames (hi ∷ abc ∷ [])) < 16
    lengths = omega arith

read_empty-aborts_example :
    data_source_read 16
      (record queued { is_trunc = false; trunc_seek = 0; lqueue_omessages = nothing ∷ hi ∷ [] })
    ≡ aborted
read_empty-aborts_example = read_empty-aborts 16 0 queued nothing (hi ∷ []) (omega arith) refl
