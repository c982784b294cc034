-- ===== src/Messages/Exact.antt =====
-- Which buffers are valid: those of frames, and no others.
use ezgrpc.Prelude.{
  ℕ, zero, suc, ◌+◌, ◌*◌, ◌/◌, ◌%◌, ◌^◌, ◌<◌, ◌≤◌, ◌≡◌, ◌≢◌, ◌↔◌, inl, inr, refl, sym, ap, ◌∙◌,
  some, List, [], ◌∷◌, ◌++◌, append_assoc, drop, take, length, length-append, length-take,
  take-append-drop, ◌==◌, arith, Bool-cases, Option-cases,
}
use ezgrpc.Wire.{Byte, Message, IsMessage, ntohl_at, htonl_bytes, frame, frames}
use ezgrpc.Wire.Endian.{ntohl_at-frame, ntohl_at-append}
use native.Mathlib.Decide.{dec_le}
use ezgrpc.Messages.{
  Messages, messages, valid_loop, is_valid_length_prefixed_messages, messages_new,
}
use ezgrpc.Messages.Valid.{
  AllMessages, AllBytes, length-frame, valid_loop_on, valid_loop_end, valid_loop_cut,
  valid_loop-frames,
}

-- What is accepted, from an offset on.
record Framed (rest : List Byte) (count : ℕ) : Type 0 where
  ms : List Message
  is : rest ≡ frames ms
  all : AllMessages ms
  number : count ≡ length ms

-- A first frame of bytes that are long enough for one.
record First (rest : List Byte) : Type 0 where
  m : Message
  after : List Byte
  is : rest ≡ frame m ++ after
  good : IsMessage m
  bytes : AllBytes after

pub AllBytes-drop : (n : ℕ) (bs : List Byte) → AllBytes bs → AllBytes (drop n bs)
AllBytes-drop zero bs h = h
AllBytes-drop (suc n) [] h = tt
AllBytes-drop (suc n) (b ∷ bs) h = AllBytes-drop n bs h.1

htonl_bytes_of :
    (b c d e n : ℕ)
    → b < 256
    → c < 256
    → d < 256
    → e < 256
    → n ≡ b * 2 ^ 24 + c * 2 ^ 16 + d * 2 ^ 8 + e
    → htonl_bytes n ≡ b ∷ c ∷ d ∷ e ∷ []
unfolding htonl_bytes
htonl_bytes_of b c d e n hb hc hd he h =
    let x : n / 2 ^ 24 % 256 ≡ b = omega arith in
    let y : n / 2 ^ 16 % 256 ≡ c = omega arith in
    let z : n / 2 ^ 8 % 256 ≡ d = omega arith in
    let w : n % 256 ≡ e = omega arith in rw (x, y, z, w) refl

front-First : (rest : List Byte) → AllBytes rest → 5 + ntohl_at rest 1 ≤ length rest → First rest
unfolding frame ntohl_at
front-First [] h room = absurd (omega arith)
front-First (a ∷ []) h room = absurd (omega arith)
front-First (a ∷ b ∷ []) h room = absurd (omega arith)
front-First (a ∷ b ∷ c ∷ []) h room = absurd (omega arith)
front-First (a ∷ b ∷ c ∷ d ∷ []) h room = absurd (omega arith)
front-First (a ∷ b ∷ c ∷ d ∷ e ∷ r) h room =
    let n = b * 2 ^ 24 + c * 2 ^ 16 + d * 2 ^ 8 + e in
    let fits : n ≤ length r = omega (arith, room) in
    let same = htonl_bytes_of b c d e n h.1.0 h.1.1.0 h.1.1.1.0 h.1.1.1.1.0 refl in
    record {
      m = record { cflag = a; len = n; payload = take n r };
      after = drop n r;
      is =
          ap (λ l. a ∷ b ∷ c ∷ d ∷ e ∷ l) (sym (take-append-drop n r))
          ∙ ap (λ l. a ∷ (l ++ take n r) ++ drop n r) (sym same);
      good = record { len_eq = omega (arith, length-take n r, fits); len_fits = omega (arith, h) };
      bytes = AllBytes-drop n r h.1.1.1.1.1;
    }

nothing-Framed : (rest : List Byte) → length rest ≡ 0 → Framed rest 0
unfolding frames
nothing-Framed [] h = record { ms = []; is = refl; all = tt; number = refl }
nothing-Framed (b ∷ bs) h = absurd (omega arith)

-- Nothing else is accepted.
valid_loop-Framed :
    (fuel nb : ℕ) (before rest : List Byte) (len end total : ℕ)
    → AllBytes rest
    → len ≡ length before + length rest
    → valid_loop fuel (before ++ rest) len (length before) nb ≡ some (end, total)
    → end ≢ 0
    → (count : ℕ) × (total ≡ nb + count) × Framed rest count
unfolding valid_loop frames
valid_loop-Framed zero nb before rest len end total bytes size e ne = cc
valid_loop-Framed (suc fuel) nb before rest len end total bytes size e ne =
    let wire = before ++ rest in
    let n = ntohl_at rest 1 in
    let here : ntohl_at wire (length before + 1) ≡ n = ntohl_at-append before rest 1 in
    elim (dec_le len (length before)) [
      | yes over ↦
          let stop = sym (valid_loop_end fuel wire len (length before) nb over) ∙ e in
          (0, ground (arith, stop), nothing-Framed rest (omega (arith, size, over)))
      | no more ↦ elim (dec_le (length before + 5 + n) len) [
        | no short ↦
            let cut =
              sym (
                valid_loop_cut fuel wire len (length before) nb (omega (arith, more))
                  (omega (arith, short, here)))
              ∙ e in
            absurd (ne (ground (arith, cut)))
        | yes room ↦
            let f = front-First rest bytes (omega (arith, size, room)) in
            let len_is : ntohl_at wire (length before + 1) ≡ f.m.len =
              ap (λ (r : List Byte). ntohl_at (before ++ r) (length before + 1)) f.is
              ∙ ntohl_at-frame before f.after f.m f.good in
            let whole : wire ≡ (before ++ frame f.m) ++ f.after =
              ap (λ l. before ++ l) f.is ∙ sym (append_assoc before (frame f.m) f.after) in
            let longer : length (before ++ frame f.m) ≡ length before + 5 + f.m.len =
              omega (arith, length-append before (frame f.m), length-frame f.m, f.good.len_eq) in
            let lengths : length rest ≡ length (frame f.m) + length f.after =
              ap length f.is ∙ length-append (frame f.m) f.after in
            let on =
              sym (
                valid_loop_on fuel wire len (length before) nb f.m.len len_is
                  (omega (arith, room, len_is, here)))
              ∙ e in
            let moved : valid_loop fuel ((before ++ frame f.m) ++ f.after) len
                  (length (before ++ frame f.m)) (nb + 1)
                ≡ some (end, total) =
              ap (λ w. valid_loop fuel w len (length (before ++ frame f.m)) (nb + 1)) (sym whole)
              ∙ ap (λ (k : ℕ). valid_loop fuel wire len k (nb + 1)) longer
              ∙ on in
            let (count, sum, r) =
              valid_loop-Framed fuel (nb + 1) (before ++ frame f.m) f.after len end total f.bytes
                (omega (arith, size, lengths, length-append before (frame f.m))) moved ne in
            (
              suc count,
              omega (arith, sum),
              record {
                ms = f.m ∷ r.ms;
                is = f.is ∙ ap (λ l. frame f.m ++ l) r.is;
                all = (f.good, r.all);
                number = ap suc r.number;
              },
            )
      ]
    ]

-- The buffer as it is once it has been checked.
abbrev pub checked : List Byte → ℕ → Messages
checked wire n = record { bytes = wire; data_len = length wire; nb_messages = n; seek = 0 }

frames_ne_nil : (ms : List Message) → ms ≢ [] → 0 < length (frames ms)
unfolding frames frame
frames_ne_nil [] h = absurd (h refl)
frames_ne_nil (m ∷ ms) h = omega arith

module _ (wire : List Byte) (n : ℕ) where
  messages_new_inv :
      messages_new wire (length wire) ≡ messages (checked wire n)
      → (end : ℕ) × (is_valid_length_prefixed_messages wire (length wire) ≡ some (end, n))
        × (end ≢ 0)
  unfolding messages_new
  messages_new_inv e = elim (Option-cases (is_valid_length_prefixed_messages wire (length wire))) [
    | inl v ↦ absurd (ground arith)
    | inr ((end, k), v) ↦ (end, ground arith, ground arith)
  ]

  is_valid_inv :
      (end : ℕ)
      → is_valid_length_prefixed_messages wire (length wire) ≡ some (end, n)
      → end ≢ 0
      → (length wire ≢ 0) × (valid_loop (length wire + 1) wire (length wire) 0 0 ≡ some (end, n))
  unfolding is_valid_length_prefixed_messages
  is_valid_inv end v ne = elim (Bool-cases (length wire == 0)) [
    | inl z ↦ absurd (ground arith)
    | inr some_bytes ↦ (ground (arith, some_bytes), ground (arith, some_bytes))
  ]

  messages_new_of :
      0 < length wire
      → valid_loop (length wire + 1) wire (length wire) 0 0 ≡ some (length wire, n)
      → messages_new wire (length wire) ≡ messages (checked wire n)
  unfolding messages_new is_valid_length_prefixed_messages
  messages_new_of h e = ground arith

empty : length (frames []) ≡ 0
unfolding frames
empty = refl

-- A buffer of bytes is taken, with a count, exactly when it is the frames of one or more messages,
-- as many as the count says, with nothing behind them.
pub messages_new-frames :
    (wire : List Byte) (n : ℕ)
    → AllBytes wire
    → (messages_new wire (length wire) ≡ messages (checked wire n))
      ↔ ((ms : List Message) × (ms ≢ []) × AllMessages ms × (wire ≡ frames ms) × (n ≡ length ms))
messages_new-frames wire n bytes = (parsed, accepted)
  where
    parsed :
        messages_new wire (length wire) ≡ messages (checked wire n)
        → (ms : List Message) × (ms ≢ []) × AllMessages ms × (wire ≡ frames ms) × (n ≡ length ms)
    parsed e =
        let (end, v, ne) = messages_new_inv wire n e in
        let (some_bytes, loop) = is_valid_inv wire n end v ne in
        let (count, sum, f) =
          valid_loop-Framed (length wire + 1) 0 [] wire (length wire) end n bytes (omega arith) loop
            ne in
        (
          f.ms,
          λ none_there. absurd (some_bytes (ap length (f.is ∙ ap frames none_there) ∙ empty)),
          f.all,
          f.is,
          omega (arith, sum, f.number),
        )

    accepted :
        ((ms : List Message) × (ms ≢ []) × AllMessages ms × (wire ≡ frames ms) × (n ≡ length ms))
        → messages_new wire (length wire) ≡ messages (checked wire n)
    accepted (ms, ne, all, is, count) =
        messages_new_of wire n (omega (arith, ap length is, frames_ne_nil ms ne)) (
          ap (λ w. valid_loop (length wire + 1) w (length wire) 0 0) is
          ∙ valid_loop-frames (length wire + 1) 0 [] ms (length wire) all
              (omega (arith, ap length is)) (omega (arith, ap length is))
          ∙ ap (λ (k : ℕ). some (length wire, k)) (omega (arith, count)))
