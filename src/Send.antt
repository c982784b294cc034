-- ===== src/Send.antt =====
-- `data_source_read_callback2` of internal_nghttp2_callbacks.c: nghttp2 asks for at most `buf_len`
-- bytes of the stream's queued messages.
pub mod Pending
pub mod Reads
pub mod Drain
pub mod Empty
mod Tests
use ezgrpc.Prelude.{
  ℕ, zero, suc, ◌+◌, ◌-◌, ◌*◌, Bool, true, false, List, [], ◌∷◌, ◌++◌, if◌then◌else◌, ltb, leb,
  ◌==◌, length, take, drop,
}
use ezgrpc.Wire.{Byte, htonl_bytes}
use ezgrpc.Stream.{Stream}

-- What a call comes to: the bytes written to `buf` and whether `*data_flags` was set (to
-- EOF | NO_END_STREAM), NGHTTP2_INTERNAL_ERROR, or a failed `assert`.
pub data Outcome : Type 0 where
  wrote : List Byte → Bool → Stream → Outcome
  internal_error : Outcome
  aborted : Outcome
  out_of_fuel : Outcome

-- The body of the loop: go round again with the bytes written so far, or leave.
pub data Round : Type 0 where
  again : List Byte → Stream → Round
  leave : Outcome → Round

-- The part of the round for a message whose prefix is out (`is_trunc`), given its `len` and data.
round_trunc : ℕ → List Byte → Stream → ℕ → List Byte → Round
round_trunc buf_len buf s len payload =
    let rem = buf_len - length buf in
    if ltb buf_len (length buf)
    then leave aborted
    else if rem == 0
    then leave (wrote buf false s)
    else if leb len s.trunc_seek
    then leave aborted
    else if leb (len - s.trunc_seek) rem
    then again (buf ++ take (len - s.trunc_seek) (drop s.trunc_seek payload)) (record s {
      is_trunc = false;
      trunc_seek = 0;
      lqueue_omessages = drop 1 s.lqueue_omessages;
    })
    else leave (
        wrote (buf ++ take rem (drop s.trunc_seek payload)) false
          (record s { trunc_seek = s.trunc_seek + rem }))

-- The part for a message that has not been begun: its five bytes of prefix, if they fit.
round_prefix : ℕ → List Byte → Stream → Byte → ℕ → Round
round_prefix buf_len buf s cflag len =
    if leb (length buf + 5) buf_len
    then again (buf ++ (cflag ∷ htonl_bytes len)) (record s { is_trunc = true; trunc_seek = 0 })
    else leave (wrote buf false s)

pub round : ℕ → List Byte → Stream → Round
unfolding round_trunc round_prefix
round buf_len buf s = elim s.lqueue_omessages [
  | [] ↦ leave (wrote buf true s)
  | msg ∷ _ ↦
      if s.is_trunc
      then round_trunc buf_len buf s msg.len msg.payload
      else round_prefix buf_len buf s msg.cflag msg.len
]

-- The `while (1)`, on fuel.
read_loop : ℕ → ℕ → List Byte → Stream → Outcome
unfolding round
read_loop zero buf_len buf s = out_of_fuel
read_loop (suc fuel) buf_len buf s = elim (round buf_len buf s) [
  | again buf' s' ↦ read_loop fuel buf_len buf' s'
  | leave o ↦ o
]

-- Two rounds a message, and one to leave, are enough.
abbrev pub rounds : Stream → ℕ
rounds s = 2 * length s.lqueue_omessages + 2

pub data_source_read : ℕ → Stream → Outcome
unfolding read_loop
data_source_read buf_len s =
    if ltb buf_len 5 then internal_error else read_loop (rounds s) buf_len [] s
