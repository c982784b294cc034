-- ===== src/Send/Drain.antt =====
-- Reads one after another, until the queue has been sent.
use ezgrpc.Prelude.{
  sym, ap, ◌∙◌, Bool-cases, length-append, ℕ, suc, ◌+◌, ◌≤◌, ◌<◌, ◌≡◌, refl, ◌⊎◌, inl, inr, Bool,
  true, false, List, [], ◌∷◌, ◌++◌, arith, append-nil, append_assoc, length,
}
use ezgrpc.Wire.{Byte, Message, frames}
use ezgrpc.Stream.{Stream}
use ezgrpc.Send.{wrote, data_source_read}
use ezgrpc.Send.Pending.{rest_of, rest_of-false, pending, is_empty, Sendable, InMessage, IsReady}
use ezgrpc.Send.Reads.{data_source_read-Reads}

-- Reads one after another, with the sizes of nghttp2's buffers; the bytes written in all.
pub data Sent : Type 0 where
  sent : List Byte → Stream → Sent
  failed : Sent

abbrev prepend : List Byte → Sent → Sent
prepend out (sent more s) = sent (out ++ more) s
prepend out failed = failed

pub read_all : List ℕ → Stream → Sent
read_all [] s = sent [] s
read_all (n ∷ ns) s = elim (data_source_read n s) [
  | wrote out eof s' ↦ prepend out (read_all ns s')
  | _ ↦ failed
]

abbrev pub Large : List ℕ → Type 0
Large [] = Unit {0}
Large (n ∷ ns) = (5 ≤ n) × Large ns

record Drains (s : Stream) (reads : ℕ) (o : Sent) : Type 0 where
  out : List Byte
  after : Stream
  is : o ≡ sent out after
  split : out ++ pending after ≡ pending s
  progress : (reads ≤ length out) ⊎ (pending after ≡ [])
  ready : IsReady after

pending-nil : (b : Bool) (k : ℕ) (q : List Message) → is_empty q ≡ true → rest_of b k q ≡ []
pending-nil b k [] e = refl
pending-nil b k (m ∷ ms) e = cc

append-eq-nil {ℓ} : {A : Type ℓ} (xs ys : List A) → xs ++ ys ≡ [] → ys ≡ []
append-eq-nil [] ys e = e
append-eq-nil (x ∷ xs) ys e = cc

pending_of_empty : (s : Stream) → is_empty s.lqueue_omessages ≡ true → pending s ≡ []
unfolding pending
pending_of_empty s e = pending-nil s.is_trunc s.trunc_seek s.lqueue_omessages e

step_progress {ℓ} :
    (n : ℕ) (xs ys : List Byte) (P : Type ℓ)
    → 5 ≤ n
    → n < length xs + 5
    → {k : ℕ} → (k ≤ length ys) ⊎ P
    → (suc k ≤ length (xs ++ ys)) ⊎ P
step_progress n xs ys P l f (inl p) = inl (omega (arith, length-append xs ys))
step_progress n xs ys P l f (inr p) = inr p

read_all-Drains :
    (ns : List ℕ) (s : Stream) → Large ns → IsReady s → Drains s (length ns) (read_all ns s)
unfolding read_all
read_all-Drains [] s large r = record {
  out = [];
  after = s;
  is = refl;
  split = refl;
  progress = inl (omega arith);
  ready = r;
}
read_all-Drains (n ∷ ns) s (l, large) r =
    let a = data_source_read-Reads n s l r in
    let d = read_all-Drains ns a.after large a.ready in
    rw (a.is, read_all)
      (rw d.is (record {
        out = a.out ++ d.out;
        after = d.after;
        is = refl;
        split = append_assoc a.out d.out (pending d.after) ∙ ap (◌++◌ a.out) d.split ∙ a.split;
        progress = elim (Bool-cases a.eof) [
          | inl e ↦ inr (
              append-eq-nil d.out (pending d.after)
                (d.split ∙ pending_of_empty a.after (sym a.ended ∙ e)))
          | inr e ↦ step_progress n a.out d.out (pending d.after ≡ []) l (a.full e) d.progress
        ];
        ready = d.ready;
      }))

not_begun : (s : Stream) → s.is_trunc ≡ false → InMessage s.is_trunc s.trunc_seek s.lqueue_omessages
not_begun s e = rw e tt

pending_of_not_begun : (s : Stream) → s.is_trunc ≡ false → pending s ≡ frames s.lqueue_omessages
unfolding pending
pending_of_not_begun s e = rw e (rest_of-false s.trunc_seek s.lqueue_omessages)

-- A stream that is between two messages sends the frames of its queue, and nothing else, once it is
-- read more often than there are bytes: whatever the sizes of the buffers, from five bytes on.
pub read_all-frames :
    (ns : List ℕ) (s : Stream)
    → Large ns
    → Sendable s.lqueue_omessages
    → s.is_trunc ≡ false
    → length (frames s.lqueue_omessages) < length ns
    → (after : Stream) × (read_all ns s ≡ sent (frames s.lqueue_omessages) after)
      × (pending after ≡ [])
read_all-frames ns s large q e enough =
    (d.after, d.is ∙ ap (λ o. sent o d.after) (got_all drained), drained)
  where
    d : Drains s (length ns) (read_all ns s)
    d = read_all-Drains ns s large (record { sendable = q; begun = not_begun s e })

    whole : d.out ++ pending d.after ≡ frames s.lqueue_omessages
    whole = d.split ∙ pending_of_not_begun s e

    drained : pending d.after ≡ []
    drained = elim d.progress [
      | inl p ↦ absurd (omega (arith, ap length whole, length-append d.out (pending d.after)))
      | inr p ↦ p
    ]

    got_all : pending d.after ≡ [] → d.out ≡ frames s.lqueue_omessages
    got_all p = sym (append-nil d.out) ∙ ap (◌++◌ d.out) (sym p) ∙ whole
