-- ===== src/Messages/Next.antt =====
-- `ezgrpc2_messages_next` and `ezgrpc2_messages_peek`.
use ezgrpc.Prelude.{
  ℕ, suc, ◌+◌, ◌≡◌, ◌≢◌, refl, sym, ap, ◌∙◌, false, some, List, [], ◌∷◌, ◌++◌, append_assoc, get_or,
  drop, take, length, length-append, ◌==◌, arith, get_or-append, drop-append, take-append_exact,
}
use ezgrpc.Wire.{Byte, Message, IsMessage, htonl_bytes, frame, frames}
use ezgrpc.Wire.Endian.{ntohl_at-frame}
use ezgrpc.Messages.{Messages, View, no_view, shown, messages_next, messages_peek, next_all}
use ezgrpc.Messages.Exact.{checked}
use ezgrpc.Messages.Valid.{AllMessages, length-frame}

-- The list of a buffer of frames, at the offset where `before` ends.
abbrev pub at_offset : List Byte → List Message → ℕ → Messages
at_offset before ms n = record {
  bytes = before ++ frames ms;
  data_len = length before + length (frames ms);
  nb_messages = n;
  seek = length before;
}

module _ (before : List Byte) (m : Message) (ms : List Message) (is : IsMessage m) (n : ℕ) where
  abbrev wire : List Byte
  wire = before ++ (frame m ++ frames ms)

  cflag_at : get_or wire (length before) 0 ≡ m.cflag
  unfolding frame
  cflag_at = ap (λ (k : ℕ). get_or wire k 0) (omega arith) ∙ get_or-append before _ 0 0

  payload_at : take m.len (drop (length before + 5) wire) ≡ m.payload
  unfolding frame htonl_bytes
  payload_at =
      ap (take m.len) (drop-append before (frame m ++ frames ms) 5)
      ∙ take-append_exact m.len m.payload (frames ms) (sym is.len_eq)

  longer : length (before ++ frame m) ≡ length before + 5 + m.len
  longer = omega (arith, length-append before (frame m), length-frame m, is.len_eq)

  total : length (frame m ++ frames ms) ≡ 5 + m.len + length (frames ms)
  total = omega (arith, length-append (frame m) (frames ms), length-frame m, is.len_eq)

  -- The state behind the message.
  moved :
      record (at_offset before (m ∷ ms) n) { seek = length before + 5 + m.len }
      ≡ at_offset (before ++ frame m) ms n
  unfolding frames
  moved = ground (arith, longer, total, append_assoc before (frame m) (frames ms))

  next_step : messages_next (at_offset before (m ∷ ms) n) ≡ (
    record { cflag = m.cflag; len = m.len; at = some (length before + 5) },
    at_offset (before ++ frame m) ms n,
  )
  unfolding messages_next frames
  next_step =
      let more : (length before == length before + length (frame m ++ frames ms)) ≡ false =
        ground (arith, total) in
      let len_is = ntohl_at-frame before (frames ms) m is in
      rw (more, cflag_at, len_is)
        (ap
          (λ (s : Messages).
            (record { cflag = m.cflag; len = m.len; at = some (length before + 5) }, s))
          moved)

end_step :
    (before : List Byte) (n : ℕ)
    → messages_next (at_offset before [] n) ≡ (no_view, at_offset before [] n)
unfolding messages_next frames
end_step before n = ground arith

next_all_end :
    (fuel : ℕ) (s : Messages) → messages_next s ≡ (no_view, s) → next_all (suc fuel) s ≡ some []
unfolding next_all shown
next_all_end fuel s e = rw (e, next_all) refl

next_all_cons :
    (fuel : ℕ) (s s' : Messages) (v : View) (m : Message) (r : List Message)
    → messages_next s ≡ (v, s')
    → shown s.bytes v ≡ some m
    → next_all fuel s' ≡ some r
    → next_all (suc fuel) s ≡ some (m ∷ r)
unfolding next_all
next_all_cons fuel s s' v m r e f h = ground arith

next_all_from :
    (before : List Byte) (ms : List Message) (n : ℕ)
    → AllMessages ms
    → next_all (suc (length ms)) (at_offset before ms n) ≡ some ms
unfolding frames shown
next_all_from before [] n all = next_all_end 0 (at_offset before [] n) (end_step before n)
next_all_from before (m ∷ ms) n all =
    next_all_cons (suc (length ms)) (at_offset before (m ∷ ms) n)
      (at_offset (before ++ frame m) ms n)
      (record { cflag = m.cflag; len = m.len; at = some (length before + 5) }) m ms
      (next_step before m ms all.0 n)
      (ap (λ p. some (record m { payload = p })) (payload_at before m ms all.0 n))
      (next_all_from (before ++ frame m) ms n all.1)

-- A buffer of frames, read from its start, gives its messages in order and then NULL.
pub next_all-frames :
    (ms : List Message)
    → AllMessages ms
    → next_all (suc (length ms)) (checked (frames ms) (length ms)) ≡ some ms
next_all-frames ms all =
    ap
      (λ (k : ℕ).
        next_all (suc (length ms)) (record (checked (frames ms) (length ms)) { data_len = k }))
      (omega arith)
    ∙ next_all_from [] ms (length ms) all

-- Wherever the list stands, `ezgrpc2_messages_peek` gives the flag and the length that
-- `ezgrpc2_messages_next` gives, but data that begins one byte earlier, with the last byte of the
-- length.
pub messages_peek_early :
    (s : Messages)
    → s.seek ≢ s.data_len
    → ((messages_peek s).cflag ≡ (messages_next s).0.cflag)
      × ((messages_peek s).len ≡ (messages_next s).0.len)
      × ((messages_next s).0.at ≡ some (s.seek + 5))
      × ((messages_peek s).at ≡ some (s.seek + 4))
unfolding messages_peek messages_next
messages_peek_early s more =
    let e : (s.seek == s.data_len) ≡ false = ground (arith, more) in rw e (refl, refl, refl, refl)
