-- ===== src/Send/Pending.antt =====
-- What is still to be sent of a stream, and that each read takes it from the front.
use ezgrpc.Prelude.{
  sym, ap, ◌∙◌, Bool-cases, tests, leb, ltb, ◌==◌, length-append, length-take, length-drop,
  take-append-drop, drop-drop, take_of_length-le, ℕ, ◌+◌, ◌-◌, ◌*◌, ◌≤◌, ◌<◌, ◌≡◌, refl, inl, inr,
  Bool, true, false, List, [], ◌∷◌, ◌++◌, arith, append_assoc, if◌then◌else◌, length, take, drop,
}
use ezgrpc.Wire.{Byte, Message, IsMessage, frame, frames, htonl_bytes}
use ezgrpc.Stream.{Stream}
use ezgrpc.Send.{Outcome, wrote, Round, again, leave, round_trunc, round_prefix, round}

-- The bytes that the peer has not had yet.
abbrev pub rest_of : Bool → ℕ → List Message → List Byte
rest_of b k [] = []
rest_of true k (m ∷ ms) = drop k m.payload ++ frames ms
rest_of false k (m ∷ ms) = frames (m ∷ ms)

unfoldable pub pending : Stream → List Byte
pending s = rest_of s.is_trunc s.trunc_seek s.lqueue_omessages

-- Every queued message has a payload, of the length that it names.
abbrev pub Sendable : List Message → Type 0
Sendable [] = Unit {0}
Sendable (m ∷ ms) = IsMessage m × (0 < m.len) × Sendable ms

-- A message that has been begun is at the front, and not all of it is out.
abbrev pub InMessage : Bool → ℕ → List Message → Type 0
InMessage false k ms = Unit {0}
InMessage true k [] = ⊥
InMessage true k (m ∷ ms) = k < m.len

pub record IsReady (s : Stream) : Type 0 where
  pub sendable : Sendable s.lqueue_omessages
  pub begun : InMessage s.is_trunc s.trunc_seek s.lqueue_omessages

abbrev pub is_empty : List Message → Bool
is_empty [] = true
is_empty (m ∷ ms) = false

-- A way out of the loop: some bytes and what is left make up what there was to send; the flag is set
-- when nothing is queued, and otherwise the buffer has no room for another prefix.
pub record Reads (buf_len : ℕ) (buf : List Byte) (s : Stream) (o : Outcome) : Type 0 where
  pub out : List Byte
  pub eof : Bool
  pub after : Stream
  pub is : o ≡ wrote out eof after
  pub split : out ++ pending after ≡ buf ++ pending s
  pub fits : length out ≤ buf_len
  pub ended : eof ≡ is_empty after.lqueue_omessages
  pub full : eof ≡ false → buf_len < length out + 5
  pub ready : IsReady after

-- The rounds that a stream can still take.
abbrev pub measure : Bool → List Message → ℕ
measure true q = 2 * length q
measure false q = 2 * length q + 1

pub record Again (buf_len : ℕ) (buf : List Byte) (s : Stream) (buf' : List Byte) (s' : Stream)
    : Type 0 where
  pub split : buf' ++ pending s' ≡ buf ++ pending s
  pub fits : length buf' ≤ buf_len
  pub ready : IsReady s'
  pub less : measure s'.is_trunc s'.lqueue_omessages < measure s.is_trunc s.lqueue_omessages

abbrev pub GoodRound : ℕ → List Byte → Stream → Round → Type 0
GoodRound buf_len buf s (again buf' s') = Again buf_len buf s buf' s'
GoodRound buf_len buf s (leave o) = Reads buf_len buf s o

pub rest_of-false : (k : ℕ) (q : List Message) → rest_of false k q ≡ frames q
unfolding frames
rest_of-false k [] = refl
rest_of-false k (m ∷ ms) = refl

-- Any cut of a payload is in its place again.
cut-split :
    (buf p tail : List Byte) (k r : ℕ)
    → (buf ++ take r (drop k p)) ++ (drop (k + r) p ++ tail) ≡ buf ++ (drop k p ++ tail)
cut-split buf p tail k r =
    rw (append_assoc, ← drop-drop k r p)
      (ap (◌++◌ buf) (
        sym (append_assoc (take r (drop k p)) (drop r (drop k p)) tail)
        ∙ ap (λ t. t ++ tail) (take-append-drop r (drop k p))))

module _ (buf_len : ℕ) (buf : List Byte) (s : Stream) (fits : length buf ≤ buf_len) where
  prefix-GoodRound :
      (k : ℕ) (m : Message) (ms : List Message)
      → let s' = record s { is_trunc = false; trunc_seek = k; lqueue_omessages = m ∷ ms } in
        IsReady s' → GoodRound buf_len buf s' (round_prefix buf_len buf s' m.cflag m.len)
  unfolding round_prefix pending frames frame htonl_bytes
  prefix-GoodRound k m ms r = elim (Bool-cases (leb (length buf + 5) buf_len)) [
    | inl room ↦ rw room (record {
      split = simp append_assoc;
      fits = omega (tests, length-append buf (m.cflag ∷ htonl_bytes m.len));
      ready = record { sendable = r.sendable; begun = r.sendable.1 };
      less = omega arith;
    })
    | inr full ↦ rw full (record {
      out = buf;
      eof = false;
      after = _;
      is = refl;
      split = refl;
      fits = fits;
      ended = refl;
      full = λ _. ground (arith, full);
      ready = r;
    })
  ]

  cut-GoodRound :
      (k rem : ℕ) (m : Message) (ms : List Message)
      → let s' = record s { is_trunc = true; trunc_seek = k; lqueue_omessages = m ∷ ms } in
        rem ≡ buf_len - length buf
        → IsReady s'
        → GoodRound buf_len buf s' (
            if leb (m.len - k) rem
            then again
                (buf ++ take (m.len - k) (drop k m.payload))
                (record s { is_trunc = false; trunc_seek = 0; lqueue_omessages = ms })
            else leave (
                wrote
                  (buf ++ take rem (drop k m.payload))
                  false
                  (record s' { trunc_seek = k + rem })))
  unfolding pending
  cut-GoodRound k rem m ms e r = elim (Bool-cases (leb (m.len - k) rem)) [
    | inl all ↦
        let whole : take (m.len - k) (drop k m.payload) ≡ drop k m.payload =
          take_of_length-le _ _ (omega (arith, length-drop k m.payload)) in
        rw (all, whole)
          (record {
            split = rw (rest_of-false 0 ms) (append_assoc buf (drop k m.payload) (frames ms));
            fits = omega (tests, length-append buf (drop k m.payload), length-drop k m.payload);
            ready = record { sendable = r.sendable.2; begun = tt };
            less = omega arith;
          })
    | inr part ↦ rw part (record {
      out = _;
      eof = false;
      after = _;
      is = refl;
      split = cut-split buf m.payload (frames ms) k rem;
      fits = omega (
        arith,
        length-append buf (take rem (drop k m.payload)),
        length-take rem (drop k m.payload),
      );
      ended = refl;
      full = λ _. filled part;
      ready = record { sendable = r.sendable; begun = ground (arith, part) };
    })
  ]
    where
      filled :
          leb (m.len - k) rem ≡ false → buf_len < length (buf ++ take rem (drop k m.payload)) + 5
      filled part =
          let short : rem < m.len - k = ground (arith, part) in
          omega (
            arith,
            length-append buf (take rem (drop k m.payload)),
            length-take rem (drop k m.payload),
            length-drop k m.payload,
          )

  trunc-GoodRound :
      (k : ℕ) (m : Message) (ms : List Message)
      → let s' = record s { is_trunc = true; trunc_seek = k; lqueue_omessages = m ∷ ms } in
        IsReady s' → GoodRound buf_len buf s' (round_trunc buf_len buf s' m.len m.payload)
  unfolding round_trunc
  trunc-GoodRound k m ms r =
      let within : ltb buf_len (length buf) ≡ false = ground arith in
      let inside : leb m.len k ≡ false = ground arith in
      rw within (elim (Bool-cases (buf_len - length buf == 0)) [
        | inl full ↦ rw full (record {
          out = buf;
          eof = false;
          after = _;
          is = refl;
          split = refl;
          fits = fits;
          ended = refl;
          full = λ _. ground (arith, full);
          ready = r;
        })
        | inr room ↦ rw (room, inside) (cut-GoodRound k (buf_len - length buf) m ms refl r)
      ])

  round_at-GoodRound :
      (b : Bool) (k : ℕ) (q : List Message)
      → let s' = record s { is_trunc = b; trunc_seek = k; lqueue_omessages = q } in
        IsReady s' → GoodRound buf_len buf s' (round buf_len buf s')
  unfolding round
  round_at-GoodRound b k [] r = record {
    out = buf;
    eof = true;
    after = _;
    is = refl;
    split = refl;
    fits = fits;
    ended = refl;
    full = λ e. cc;
    ready = r;
  }
  round_at-GoodRound true k (m ∷ ms) r = trunc-GoodRound k m ms r
  round_at-GoodRound false k (m ∷ ms) r = prefix-GoodRound k m ms r

pub round-GoodRound :
    (buf_len : ℕ) (buf : List Byte) (s : Stream)
    → length buf ≤ buf_len
    → IsReady s
    → GoodRound buf_len buf s (round buf_len buf s)
round-GoodRound buf_len buf s fits =
    round_at-GoodRound buf_len buf s fits s.is_trunc s.trunc_seek s.lqueue_omessages
