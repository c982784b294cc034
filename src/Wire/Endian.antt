-- ===== src/Wire/Endian.antt =====
-- What is read back of a frame that was written.
use ezgrpc.Prelude.{
  ap₂, ℕ, ◌+◌, ◌%◌, ◌^◌, ◌<◌, ◌≡◌, ap, ◌∙◌, List, ◌++◌, arith, length, get_or, drop, take,
  get_or-append, drop-append, take-append_self,
}
use native.Mathlib.Nat.{add_assoc}
use ezgrpc.Wire.{Byte, Message, IsMessage, message_new, htonl_bytes, ntohl_at, frame}

pub ntohl_at-append :
    (before after : List Byte) (i : ℕ)
    → ntohl_at (before ++ after) (length before + i) ≡ ntohl_at after i
unfolding ntohl_at
ntohl_at-append before after i = simp (add_assoc, get_or-append)

-- `ntohl` undoes `htonl`, wherever the four bytes stand in a buffer.
pub ntohl_at-htonl :
    (before after : List Byte) (n : ℕ)
    → n < 2 ^ 32
    → ntohl_at (before ++ (htonl_bytes n ++ after)) (length before + 0) ≡ n
unfolding ntohl_at htonl_bytes
ntohl_at-htonl before after n fits = ntohl_at-append before _ 0 ∙ omega arith

zero_add : (n : ℕ) → n ≡ n + 0
zero_add n = omega arith

module _ (before after : List Byte) (m : Message) (is : IsMessage m) where
  pub ntohl_at-frame : ntohl_at (before ++ (frame m ++ after)) (length before + 1) ≡ m.len
  unfolding ntohl_at htonl_bytes frame
  ntohl_at-frame =
      let fits = is.len_fits in ntohl_at-append before (frame m ++ after) 1 ∙ omega arith

  message_new_exact : message_new m.cflag (m.payload ++ after) m.len ≡ m
  unfolding message_new
  message_new_exact = λ i. record { cflag = m.cflag; len = fits i; payload = whole i }
    where
      fits : m.len % 2 ^ 32 ≡ m.len
      fits = let h = is.len_fits in omega arith

      whole : take m.len (m.payload ++ after) ≡ m.payload
      whole = rw is.len_eq (take-append_self m.payload after)

  pub message_new-frame :
      message_new
        (get_or (before ++ (frame m ++ after)) (length before) 0)
        (drop (length before + 5) (before ++ (frame m ++ after)))
        m.len
      ≡ m
  unfolding frame htonl_bytes
  message_new-frame =
      ap₂ (λ c p. message_new c p m.len)
        (ap (λ k. get_or (before ++ (frame m ++ after)) k 0) (zero_add (length before))
          ∙ get_or-append before (frame m ++ after) 0 0)
        (drop-append before (frame m ++ after) 5)
      ∙ message_new_exact
