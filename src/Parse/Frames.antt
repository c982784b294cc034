-- ===== src/Parse/Frames.antt =====
-- `parse_grpc_message` on what a peer sends: frames one after another.
use ezgrpc.Prelude.{
  ℕ, ◌+◌, ◌*◌, ◌≤◌, ◌<◌, ◌≡◌, refl, sym, ap, ap₂, subst, ◌∙◌, inl, inr, List, [], ◌∷◌, ◌++◌, some,
  arith, append_assoc, length, get_or, drop, length-append,
}
use ezgrpc.Wire.{Byte, Message, IsMessage, message_new, htonl_bytes, frame, frames}
use ezgrpc.Wire.Endian.{ntohl_at-frame, message_new-frame}
use ezgrpc.Parse.{parsed, parse_grpc_message}
use ezgrpc.Parse.Strides.{
  CompleteAt, message_at, Strides, Outcome, stop, next, parse_grpc_message-Strides,
}

module _ (wire : List Byte) (len : ℕ) where
  Strides-unique :
      {i j j' : ℕ} {ms ms' : List Message}
      → Strides wire len i ms j
      → Strides wire len i ms' j'
      → (ms ≡ ms') × (j ≡ j')
  Strides-unique (stop no_room) (stop _) = (refl, refl)
  Strides-unique (stop no_room) (next room s) = absurd (no_room room)
  Strides-unique (next room s) (stop no_room) = absurd (no_room room)
  Strides-unique (next {i} room s) (next _ s') =
      let (p, q) = Strides-unique s s' in (ap (◌∷◌ (message_at wire len i)) p, q)

  Strides-le : {i j : ℕ} {ms : List Message} → Strides wire len i ms j → i ≤ j
  Strides-le (stop _) = omega arith
  Strides-le (next _ s) = omega (arith, Strides-le s)

  -- A walk that finds something is what the parser gives.
  pub parse_of_Strides :
      {j : ℕ} {m : Message} {ms : List Message}
      → len ≤ length wire
      → Strides wire len 0 (m ∷ ms) j
      → parse_grpc_message wire len ≡ parsed j (some (m ∷ ms))
  parse_of_Strides {j} {m} {ms} held (next room s) = elim o.given [
    | inl e ↦ absurd (omega (arith, Strides-le s, same.1))
    | inr e ↦ o.is ∙ ap₂ parsed same.1 (e ∙ ap some same.0)
  ]
    where
      o : Outcome wire len (parse_grpc_message wire len)
      o = parse_grpc_message-Strides wire len held (omega (arith, room))

      same : (o.ms ≡ m ∷ ms) × (o.end ≡ j)
      same = Strides-unique o.strides (next room s)

length-frame : (m : Message) → length (frame m) ≡ 5 + length m.payload
unfolding frame htonl_bytes
length-frame m = omega arith

module _ (before after : List Byte) (m : Message) (is : IsMessage m) (len : ℕ)
    (fits : length before + (5 + m.len) ≤ len) where
  abbrev around : List Byte
  around = before ++ (frame m ++ after)

  message_at-frame : message_at around len (length before) ≡ m
  message_at-frame =
      ap (λ n. message_new (get_or around (length before) 0) (drop (length before + 5) around) n)
        (ntohl_at-frame before after m is)
      ∙ message_new-frame before after m is

  CompleteAt-frame : CompleteAt around len (length before)
  CompleteAt-frame = omega (arith, ntohl_at-frame before after m is)

  -- One step of the walk, over the prefix of a frame.
  next-frame :
      {j : ℕ} {ms : List Message}
      → Strides around len (length before + 5) ms j
      → Strides around len (length before) (m ∷ ms) j
  next-frame {j} {ms} s =
      subst (λ x. Strides around len (length before) (x ∷ ms) j) message_at-frame
        (next CompleteAt-frame s)

Strides-cast :
    {wire wire' : List Byte} {len i i' j j' : ℕ} {ms : List Message}
    → wire ≡ wire'
    → i ≡ i'
    → j ≡ j'
    → Strides wire len i ms j
    → Strides wire' len i' ms j'
Strides-cast {wire} {wire'} {len} {i} {i'} {j} {j'} {ms} p q r s =
    subst (λ k. Strides wire' len i' ms k) r
      (subst (λ k. Strides wire' len k ms j) q (subst (λ w. Strides w len i ms j) p s))

abbrev pub AllEmpty : List Message → Type 0
AllEmpty [] = Unit {0}
AllEmpty (m ∷ ms) = IsMessage m × (m.len ≡ 0) × AllEmpty ms

frames-Strides :
    (before tail : List Byte) (ms : List Message) (len : ℕ)
    → AllEmpty ms
    → length before + 5 * length ms ≤ len
    → len < length before + 5 * length ms + 5
    → Strides (before ++ (frames ms ++ tail)) len (length before) ms (length before + 5 * length ms)
unfolding frames
frames-Strides before tail [] len e fits short =
    Strides-cast refl refl (omega arith) (stop (λ room. omega arith))
frames-Strides before tail (m ∷ ms) len (is, e, es) fits short =
    Strides-cast (ap (◌++◌ before) (sym (append_assoc (frame m) (frames ms) tail))) refl
      (omega (arith, end))
      (next-frame before (frames ms ++ tail) m is len (omega arith) (
        Strides-cast (append_assoc before (frame m) (frames ms ++ tail)) end refl (
          frames-Strides (before ++ frame m) tail ms len es (omega (arith, end))
            (omega (arith, end)))))
  where
    end : length (before ++ frame m) ≡ length before + 5
    end = omega (arith, length-append before (frame m), length-frame m, is)

-- Messages with no payload, followed by less than a prefix, are all found, in order, and the offset
-- is where the last one ends, whatever the buffer holds behind.
pub parse_empty-frames :
    (m : Message) (ms : List Message) (tail : List Byte) (len : ℕ)
    → AllEmpty (m ∷ ms)
    → 5 * length (m ∷ ms) ≤ len
    → len < 5 * length (m ∷ ms) + 5
    → len ≤ length (frames (m ∷ ms) ++ tail)
    → parse_grpc_message (frames (m ∷ ms) ++ tail) len
      ≡ parsed (5 * length (m ∷ ms)) (some (m ∷ ms))
parse_empty-frames m ms tail len e fits short held = parse_of_Strides _ _ held (
    Strides-cast refl refl (omega arith)
      (frames-Strides [] tail (m ∷ ms) len e (omega arith) (omega arith)))

-- A first message that has a payload is found, but the offset is that of its payload, not of its end,
-- where the payload does not itself look like a complete message and what was received is in the
-- buffer: the caller keeps the payload and
-- reads it as the next message's prefix.
pub parse_payload-stays :
    (m : Message) (tail : List Byte) (len : ℕ)
    → IsMessage m
    → 5 + m.len ≤ len
    → len ≤ length (frame m ++ tail)
    → ¬ CompleteAt (frame m ++ tail) len 5
    → parse_grpc_message (frame m ++ tail) len ≡ parsed 5 (some (m ∷ []))
parse_payload-stays m tail len is fits held not_prefix =
    parse_of_Strides _ _ held (next-frame [] tail m is len (omega arith) (stop not_prefix))
