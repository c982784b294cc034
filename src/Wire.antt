-- ===== src/Wire.antt =====
-- ezgrpc2_message.c, and the wire format that the two directions share: `uread_u32` under `ntohl`
-- and `htonl`.
pub mod Endian
pub mod Size
mod Tests
use ezgrpc.Prelude.{
  ℕ, ◌+◌, ◌*◌, ◌/◌, ◌%◌, ◌^◌, ◌<◌, ◌≡◌, List, [], ◌∷◌, ◌++◌, arith, length, get_or, take,
}

abbrev pub Byte : Type 0
Byte = ℕ

-- `struct ezgrpc2_message`; `payload` is the flexible array `data[]`.
pub record Message : Type 0 where
  pub cflag : Byte
  pub len : ℕ
  pub payload : List Byte

-- `len` is a uint32_t.
unfoldable pub message_new : Byte → List Byte → ℕ → Message
message_new cflag bytes data_len = record {
  cflag = cflag;
  len = data_len % 2 ^ 32;
  payload = take data_len bytes;
}

-- What `message_new` returns for a length that fits its field.
pub record IsMessage (m : Message) : Type 0 where
  pub len_eq : m.len ≡ length m.payload
  pub len_fits : m.len < 2 ^ 32

-- `htonl` and the four bytes that `memcpy` writes of its result.
unfoldable pub htonl_bytes : ℕ → List Byte
htonl_bytes n = n / 2 ^ 24 % 256 ∷ n / 2 ^ 16 % 256 ∷ n / 2 ^ 8 % 256 ∷ n % 256 ∷ []

-- `ntohl(uread_u32(p))` at offset `i` of a buffer.
unfoldable pub ntohl_at : List Byte → ℕ → ℕ
ntohl_at bytes i =
    get_or bytes i 0 * 2 ^ 24
    + get_or bytes (i + 1) 0 * 2 ^ 16
    + get_or bytes (i + 2) 0 * 2 ^ 8
    + get_or bytes (i + 3) 0

-- The gRPC length-prefixed form of a message.
unfoldable pub frame : Message → List Byte
frame m = m.cflag ∷ htonl_bytes m.len ++ m.payload

unfoldable pub frames : List Message → List Byte
frames [] = []
frames (m ∷ ms) = frame m ++ frames ms
