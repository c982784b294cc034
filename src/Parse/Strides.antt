-- ===== src/Parse/Strides.antt =====
-- What the loop of `parse_grpc_message` does, in full: it looks for a message at the offsets 0, 5,
-- 10, ..., whatever the lengths that it reads there.
use ezgrpc.Prelude.{
  subst, ℕ, zero, suc, ◌+◌, ◌≤◌, ◌<◌, ◌%◌, ◌^◌, ◌≡◌, refl, sym, ap, ◌∙◌, ◌⊎◌, inl, inr, Bool, true,
  false, List, [], ◌∷◌, ◌++◌, Option, none, some, arith, append_assoc, append-nil, if◌then◌else◌,
  drop, get_or, ltb, leb, length,
}
use native.Mathlib.Decide.{dec_le}
use ezgrpc.Wire.{Byte, Message, message_new, ntohl_at}
use ezgrpc.Parse.{Parsed, parsed, parse_loop, parse_grpc_message}

add_one : (n : ℕ) → n + 1 ≡ suc n
add_one n = omega arith

past_both :
    (b c : Bool) (x y z : Parsed)
    → b ≡ false
    → c ≡ false
    → (if b then x else if c then y else z) ≡ z
past_both b c x y z e f = rw (e, f) refl

module _ (wire : List Byte) (len : ℕ) where
  -- A prefix and the payload that it names lie within the first `len` bytes from offset `i` on.
  abbrev pub CompleteAt : ℕ → Type 0
  CompleteAt i = i + 5 + ntohl_at wire (i + 1) ≤ len

  abbrev pub message_at : ℕ → Message
  message_at i = message_new (get_or wire i 0) (drop (i + 5) wire) (ntohl_at wire (i + 1))

  -- From offset `i` the messages `ms` are found five bytes apart, up to offset `j`.
  pub data Strides : ℕ → List Message → ℕ → Type 0 where
    stop : {i : ℕ} → ¬ CompleteAt i → Strides i [] i
    next :
        {i j : ℕ} {ms : List Message}
        → CompleteAt i
        → Strides (i + 5) ms j
        → Strides i (message_at i ∷ ms) j

  pub record Found (l : List Message) (i : ℕ) (o : Parsed) : Type 0 where
    pub ms : List Message
    pub end : ℕ
    pub is : o ≡ parsed end (some (l ++ ms))
    pub strides : Strides i ms end
    pub within : end ≤ len

  -- What `parse_grpc_message` gives its caller: an offset, and a list that was made if the offset is
  -- not zero.
  pub record Outcome (o : Parsed) : Type 0 where
    pub ms : List Message
    pub end : ℕ
    pub made : Option (List Message)
    pub is : o ≡ parsed end made
    pub given : (end ≡ 0) ⊎ (made ≡ some ms)
    pub strides : Strides 0 ms end
    pub within : end ≤ len

  nothing : (made : Option (List Message)) → ¬ CompleteAt 0 → Outcome (parsed 0 made)
  nothing made no_room = record {
    ms = [];
    end = 0;
    made = made;
    is = refl;
    given = inl refl;
    strides = stop no_room;
    within = omega arith;
  }

  module _ (held : len ≤ length wire) where
    parse_loop_incomplete :
        (fuel i : ℕ) (o : Option (List Message))
        → ¬ CompleteAt i
        → parse_loop (suc fuel) wire len i i o ≡ parsed i o
    unfolding parse_loop
    parse_loop_incomplete fuel i o no_room = ground arith

    parse_loop_complete :
        (fuel i : ℕ) (l : List Message)
        → CompleteAt i
        → parse_loop (suc fuel) wire len i i (some l)
          ≡ parse_loop fuel wire len (i + 5) (i + 5) (some (l ++ message_at i ∷ []))
    unfolding parse_loop
    parse_loop_complete fuel i l room = ground arith

    parse_loop-Found :
        (fuel i : ℕ) (l : List Message)
        → i ≤ len
        → len < fuel + i
        → Found l i (parse_loop fuel wire len i i (some l))
    parse_loop-Found zero i l inside enough = absurd (omega arith)
    parse_loop-Found (suc fuel) i l inside enough =
        elim (dec_le (i + 5 + ntohl_at wire (i + 1)) len) [
          | yes room ↦
              let f =
                parse_loop-Found fuel (i + 5) (l ++ message_at i ∷ []) (omega arith)
                  (omega arith) in
              record {
                ms = message_at i ∷ f.ms;
                end = f.end;
                is =
                    parse_loop_complete fuel i l room
                    ∙ f.is
                    ∙ ap (λ m. parsed f.end (some m)) (append_assoc l (message_at i ∷ []) f.ms);
                strides = next room f.strides;
                within = f.within;
              }
          | no no_room ↦ record {
            ms = [];
            end = i;
            is =
                parse_loop_incomplete fuel i (some l) no_room
                ∙ ap (λ m. parsed i (some m)) (sym (append-nil l));
            strides = stop no_room;
            within = inside;
          }
        ]

    made_of : Option (List Message)
    made_of = if leb ((ntohl_at wire 1 + 5) % 2 ^ 32) len then some [] else none

    enter :
        5 ≤ length wire
        → 4 ≤ len
        → parse_grpc_message wire len ≡ parse_loop (suc len) wire len 0 0 made_of
    unfolding parse_grpc_message made_of
    enter five h =
        let buffer : ltb (length wire) 5 ≡ false = ground arith in
        let long : ltb len 4 ≡ false = ground arith in
        past_both _ _ _ _ _ long buffer ∙ ap (λ k. parse_loop k wire len 0 0 made_of) (add_one len)

    enter_made :
        5 ≤ length wire
        → 5 + ntohl_at wire 1 ≤ len
        → parse_grpc_message wire len ≡ parse_loop (suc len) wire len 0 0 (some [])
    unfolding made_of
    enter_made five h =
        let made : leb ((ntohl_at wire 1 + 5) % 2 ^ 32) len ≡ true = ground arith in
        enter five (omega arith) ∙ rw made refl

    -- For every buffer of at least five bytes, of which `len` were received, `parse_grpc_message`
    -- returns and reads nothing behind the buffer. It pushes to no list that was not made, and finds
    -- exactly the messages that a walk in steps of five bytes finds, each within the received bytes;
    -- the caller reads the list only if the offset is not zero, and then the list was made. Where four
    -- bytes were received, the byte behind them is read too.
    pub parse_grpc_message-Strides : 5 ≤ length wire → Outcome (parse_grpc_message wire len)
    unfolding parse_grpc_message
    parse_grpc_message-Strides five = elim (dec_le (0 + 5 + ntohl_at wire (0 + 1)) len) [
      | yes room ↦
          let f = parse_loop-Found (suc len) 0 [] (omega arith) (omega arith) in
          record {
            ms = f.ms;
            end = f.end;
            made = some f.ms;
            is = enter_made five room ∙ f.is;
            given = inr refl;
            strides = f.strides;
            within = f.within;
          }
      | no no_room ↦ elim (dec_le 4 len) [
        | yes long ↦
            subst Outcome (sym (enter five long ∙ parse_loop_incomplete len 0 made_of no_room))
              (nothing made_of no_room)
        | no short ↦ let e : ltb len 4 ≡ true = ground arith in rw e (nothing none no_room)
      ]
    ]
