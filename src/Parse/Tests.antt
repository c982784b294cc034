-- ===== src/Parse/Tests.antt =====
-- The parser at concrete buffers.
use ezgrpc.Prelude.{◌≡◌, refl, List, [], ◌∷◌, ◌++◌, some, ◌≤◌, length, arith}
use ezgrpc.Wire.{Byte, Message, frame, htonl_bytes, ntohl_at}
use ezgrpc.Parse.{parsed, parse_grpc_message}
use ezgrpc.Parse.Strides.{CompleteAt, Outcome, parse_grpc_message-Strides}
use ezgrpc.Parse.Frames.{parse_payload-stays}

abbrev hi : Message
hi = record { cflag = 0; len = 2; payload = 104 ∷ 105 ∷ [] }

-- A message of two bytes, and three bytes of what follows it.
abbrev wire : List Byte
wire = 0 ∷ 0 ∷ 0 ∷ 0 ∷ 2 ∷ 104 ∷ 105 ∷ 0 ∷ 0 ∷ 0 ∷ []

parse_grpc_message-Strides_example : Outcome wire 10 (parse_grpc_message wire 10)
parse_grpc_message-Strides_example = parse_grpc_message-Strides wire 10 (omega arith) (omega arith)

no_prefix : ¬ CompleteAt (frame hi ++ []) 7 5
unfolding frame htonl_bytes ntohl_at
no_prefix = omega arith

held : 7 ≤ length (frame hi ++ [])
unfolding frame htonl_bytes
held = omega arith

parse_payload-stays_example : parse_grpc_message (frame hi ++ []) 7 ≡ parsed 5 (some (hi ∷ []))
parse_payload-stays_example =
    parse_payload-stays hi [] 7 (record { len_eq = refl; len_fits = omega arith }) (omega arith)
      held no_prefix
