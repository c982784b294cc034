-- ===== src/Messages.antt =====
-- ezgrpc2_messages.c: a buffer of length-prefixed messages that is checked once and then read message
-- by message. (The build takes the lists of ezgrpc2_messages.h in its place.)
pub mod Valid
pub mod Exact
pub mod Next
mod Tests
use ezgrpc.Prelude.{
  ℕ, zero, suc, ◌+◌, Bool, Option, none, some, List, [], ◌∷◌, get_or, drop, take, if◌then◌else◌,
  ◌==◌, leb, ltb,
}
use ezgrpc.Wire.{Byte, Message, ntohl_at}

-- The value returned and the count, from offset `seek` on; `none` is out of fuel.
unfoldable pub valid_loop : ℕ → List Byte → ℕ → ℕ → ℕ → Option (ℕ × ℕ)
valid_loop zero wire len seek nb_messages = none
valid_loop (suc fuel) wire len seek nb_messages =
    let msg_len = ntohl_at wire (seek + 1) in
    let rest = valid_loop fuel wire len (seek + 5 + msg_len) (nb_messages + 1) in
    if leb len seek
    then some (seek, nb_messages)
    else if ltb len (seek + 1)
    then some (0, nb_messages)
    else if ltb len (seek + 5)
    then some (0, nb_messages)
    else if ltb len (seek + 5 + msg_len)
    then some (0, nb_messages)
    else rest

-- The sums are of type size_t, and of offsets into a buffer. A round takes five bytes or more.
unfoldable pub is_valid_length_prefixed_messages : List Byte → ℕ → Option (ℕ × ℕ)
is_valid_length_prefixed_messages wire len =
    if len == 0 then some (0, 0) else valid_loop (len + 1) wire len 0 0

pub record Messages : Type 0 where
  pub bytes : List Byte
  pub data_len : ℕ
  pub nb_messages : ℕ
  pub seek : ℕ

pub data MessagesNew : Type 0 where
  null : MessagesNew
  messages : Messages → MessagesNew
  out_of_fuel : MessagesNew

unfoldable pub messages_new : List Byte → ℕ → MessagesNew
messages_new wire len = elim (is_valid_length_prefixed_messages wire len) [
  | none ↦ out_of_fuel
  | some (end, n) ↦
      if end == 0
      then null
      else messages (record { bytes = wire; data_len = len; nb_messages = n; seek = 0 })
]

-- The struct that is returned; `at` is the offset in the buffer that its `data` points to, or none
-- for NULL.
pub record View : Type 0 where
  pub cflag : Byte
  pub len : ℕ
  pub at : Option ℕ

abbrev pub no_view : View
no_view = record { cflag = 0; len = 0; at = none }

unfoldable pub messages_peek : Messages → View
messages_peek ms = if ms.seek == ms.data_len then no_view else record {
  cflag = get_or ms.bytes ms.seek 0;
  len = ntohl_at ms.bytes (ms.seek + 1);
  at = some (ms.seek + 4);
}

unfoldable pub messages_rewind : Messages → Messages
messages_rewind ms = record ms { seek = 0 }

unfoldable pub messages_count : Messages → ℕ
messages_count ms = ms.nb_messages

unfoldable pub messages_next : Messages → View × Messages
messages_next ms = if ms.seek == ms.data_len then (no_view, ms) else (
  record {
    cflag = get_or ms.bytes ms.seek 0;
    len = ntohl_at ms.bytes (ms.seek + 1);
    at = some (ms.seek + 5);
  },
  record ms { seek = ms.seek + 5 + ntohl_at ms.bytes (ms.seek + 1) },
)

-- The message that a view shows.
unfoldable pub shown : List Byte → View → Option Message
shown bytes v = elim v.at [
  | none ↦ none
  | some i ↦ some (record { cflag = v.cflag; len = v.len; payload = take v.len (drop i bytes) })
]

-- To call `messages_next` until its `data` is NULL, on fuel.
unfoldable pub next_all : ℕ → Messages → Option (List Message)
next_all zero ms = none
next_all (suc fuel) ms =
    let (v, ms') = messages_next ms in
    elim (shown ms.bytes v) [
      | none ↦ some []
      | some m ↦ elim (next_all fuel ms') [ none ↦ none | some r ↦ some (m ∷ r) ]
    ]
