-- ===== src/Messages/Valid.antt =====
-- Buffers of frames are valid.
use ezgrpc.Prelude.{
  ℕ, zero, suc, ◌+◌, ◌<◌, ◌≤◌, ◌≡◌, sym, ap, ◌∙◌, some, List, [], ◌∷◌, ◌++◌, append_assoc, length,
  length-append, arith,
}
use ezgrpc.Wire.{Byte, Message, IsMessage, ntohl_at, htonl_bytes, frame, frames}
use ezgrpc.Wire.Endian.{ntohl_at-frame}
use ezgrpc.Messages.{valid_loop}

abbrev pub AllMessages : List Message → Type 0
AllMessages [] = Unit {0}
AllMessages (m ∷ ms) = IsMessage m × AllMessages ms

abbrev pub AllBytes : List Byte → Type 0
AllBytes [] = Unit {0}
AllBytes (b ∷ bs) = (b < 256) × AllBytes bs

pub length-frame : (m : Message) → length (frame m) ≡ 5 + length m.payload
unfolding frame htonl_bytes
length-frame m = omega arith

module _ (fuel : ℕ) (wire : List Byte) (len seek nb : ℕ) where
  -- A round that goes on, and one that does not.
  pub valid_loop_on :
      (n : ℕ)
      → ntohl_at wire (seek + 1) ≡ n
      → seek + 5 + n ≤ len
      → valid_loop (suc fuel) wire len seek nb ≡ valid_loop fuel wire len (seek + 5 + n) (nb + 1)
  unfolding valid_loop
  valid_loop_on n e h = ground (arith, e, h)

  pub valid_loop_end : len ≤ seek → valid_loop (suc fuel) wire len seek nb ≡ some (seek, nb)
  unfolding valid_loop
  valid_loop_end h = ground arith

  pub valid_loop_cut :
      seek < len
      → len < seek + 5 + ntohl_at wire (seek + 1)
      → valid_loop (suc fuel) wire len seek nb ≡ some (0, nb)
  unfolding valid_loop
  valid_loop_cut h g = ground arith

-- Frames are accepted, whatever is before them.
pub valid_loop-frames :
    (fuel nb : ℕ) (before : List Byte) (ms : List Message) (len : ℕ)
    → AllMessages ms
    → length (frames ms) < fuel
    → len ≡ length before + length (frames ms)
    → valid_loop fuel (before ++ frames ms) len (length before) nb ≡ some (len, nb + length ms)
unfolding frames
valid_loop-frames zero nb before ms len all h size = absurd (omega arith)
valid_loop-frames (suc fuel) nb before [] len all h size =
    valid_loop_end fuel (before ++ []) len (length before) nb (omega (arith, size))
    ∙ ground (arith, size)
valid_loop-frames (suc fuel) nb before (m ∷ ms) len all h size =
    let n = ntohl_at-frame before (frames ms) m all.0 in
    let total = length-append (frame m) (frames ms) in
    let prefix = length-append before (frame m) in
    let longer : length (before ++ frame m) ≡ length before + 5 + m.len =
      omega (arith, prefix, length-frame m, all.0.len_eq) in
    let on =
      valid_loop_on fuel (before ++ (frame m ++ frames ms)) len (length before) nb m.len n
        (omega (arith, size, total, length-frame m, all.0.len_eq)) in
    let rest =
      valid_loop-frames fuel (nb + 1) (before ++ frame m) ms len all.1
        (omega (arith, h, total, length-frame m)) (omega (arith, size, total, prefix)) in
    on
    ∙ ap (λ (k : ℕ). valid_loop fuel (before ++ (frame m ++ frames ms)) len k (nb + 1)) (sym longer)
    ∙ ap (λ w. valid_loop fuel w len (length (before ++ frame m)) (nb + 1))
        (sym (append_assoc before (frame m) (frames ms)))
    ∙ rest
    ∙ ap (λ (k : ℕ). some (len, k)) (omega arith)
