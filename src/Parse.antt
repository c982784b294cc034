-- ===== src/Parse.antt =====
-- `parse_grpc_message` of internal_nghttp2_callbacks.c: the messages of what a stream has received.
pub mod Strides
pub mod Frames
mod Tests
use ezgrpc.Prelude.{
  ℕ, zero, suc, ◌+◌, ◌%◌, ◌^◌, Option, none, some, List, [], ◌∷◌, ◌++◌, if◌then◌else◌, ltb, leb,
  get_or, drop, length,
}
use ezgrpc.Wire.{Byte, Message, message_new, ntohl_at}

-- The returned offset and what `*messages` holds: `none` is a pointer that was never assigned, and
-- a push through it is a fault.
pub data Parsed : Type 0 where
  parsed : ℕ → Option (List Message) → Parsed
  fault : Parsed
  out_of_fuel : Parsed

-- `wire` is the buffer, of which `len` bytes count. To read behind the buffer is a fault; the tests
-- of the code come first, so that its reads are those that the tests let through.
parse_loop : ℕ → List Byte → ℕ → ℕ → ℕ → Option (List Message) → Parsed
parse_loop zero wire len seek lseek messages = out_of_fuel
parse_loop (suc fuel) wire len seek lseek messages =
    let msg_len = ntohl_at wire (seek + 1) in
    let msg = message_new (get_or wire seek 0) (drop (seek + 5) wire) msg_len in
    let pushed : Parsed = elim messages [
      | none ↦ fault
      | some l ↦ parse_loop fuel wire len (seek + 5) (seek + 5) (some (l ++ msg ∷ []))
    ] in
    if leb len seek
    then parsed lseek messages
    else if ltb len (seek + 5)
    then parsed lseek messages
    else if ltb (length wire) (seek + 5)
    then fault
    else if ltb len (seek + 5 + msg_len)
    then parsed lseek messages
    else if ltb (length wire) (seek + 5 + msg_len)
    then fault
    else pushed

-- From four bytes on, `wire[1]` to `wire[4]` are read. A `uint32_t` sum decides whether the list is
-- made; the loop reads five bytes a round, so `len + 1` rounds are enough.
pub parse_grpc_message : List Byte → ℕ → Parsed
unfolding parse_loop
parse_grpc_message wire len =
    if ltb len 4
    then parsed 0 none
    else if ltb (length wire) 5
    then fault
    else parse_loop (len + 1) wire len 0 0
        (if leb ((ntohl_at wire 1 + 5) % 2 ^ 32) len then some [] else none)
