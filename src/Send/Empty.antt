-- ===== src/Send/Empty.antt =====
-- A queued message with no payload.
use ezgrpc.Prelude.{ℕ, ◌≤◌, ◌≡◌, false, List, ◌∷◌, arith}
use ezgrpc.Wire.{Message, htonl_bytes}
use ezgrpc.Stream.{Stream}
use ezgrpc.Send.{aborted, round_trunc, round_prefix, round, read_loop, data_source_read}

-- A message of length zero at the front of the queue stops the process: once its prefix is written,
-- the next round asserts `msg->len > ezstream->trunc_seek`, unless the buffer ended just there.
pub read_empty-aborts :
    (buf_len k : ℕ) (s : Stream) (m : Message) (ms : List Message)
    → 6 ≤ buf_len
    → m.len ≡ 0
    → data_source_read buf_len
        (record s { is_trunc = false; trunc_seek = k; lqueue_omessages = m ∷ ms })
      ≡ aborted
unfolding data_source_read read_loop round round_trunc round_prefix htonl_bytes
read_empty-aborts buf_len k s m ms room e = ground arith
