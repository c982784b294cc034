-- ===== src/Messages/Tests.antt =====
-- Two messages in a buffer, the second empty.
use ezgrpc.Prelude.{◌≡◌, ◌≢◌, ◌↔◌, refl, some, List, [], ◌∷◌, length, arith}
use ezgrpc.Wire.{Byte, Message, frames, ntohl_at}
use ezgrpc.Messages.{
  messages_new, messages, null, messages_count, messages_rewind, next_all,
  is_valid_length_prefixed_messages, valid_loop,
}
use ezgrpc.Messages.Valid.{AllMessages}
use ezgrpc.Messages.Exact.{checked, messages_new-frames}
use ezgrpc.Messages.Next.{next_all-frames}

abbrev two : List Message
two =
    record { cflag = 0; len = 2; payload = 104 ∷ 105 ∷ [] }
    ∷ record { cflag = 1; len = 0; payload = [] }
    ∷ []

abbrev buffer : List Byte
buffer = 0 ∷ 0 ∷ 0 ∷ 0 ∷ 2 ∷ 104 ∷ 105 ∷ 1 ∷ 0 ∷ 0 ∷ 0 ∷ 0 ∷ []

taken : messages_new buffer 12 ≡ messages (checked buffer 2)
unfolding messages_new is_valid_length_prefixed_messages valid_loop ntohl_at
taken = refl

-- A byte is missing.
cut_short : messages_new buffer 11 ≡ null
unfolding messages_new is_valid_length_prefixed_messages valid_loop ntohl_at
cut_short = refl

nothing : messages_new [] 0 ≡ null
unfolding messages_new is_valid_length_prefixed_messages valid_loop ntohl_at
nothing = refl

counted : messages_count (messages_rewind (checked buffer 2)) ≡ 2
unfolding messages_count messages_rewind
counted = refl

messages_new-frames_example :
    (messages_new buffer 12 ≡ messages (checked buffer 2))
    ↔ ((ms : List Message) × (ms ≢ []) × AllMessages ms × (buffer ≡ frames ms) × (2 ≡ length ms))
messages_new-frames_example = messages_new-frames buffer 2 (omega arith)

next_all-frames_example : next_all 3 (checked (frames two) 2) ≡ some two
next_all-frames_example = next_all-frames two (omega arith)
