-- ===== src/Dump/Reading.antt =====
-- The bytes can be read back from a dump.
use ezgrpc.Prelude.{
  ℕ, zero, suc, ◌+◌, ◌-◌, ◌*◌, ◌/◌, ◌%◌, ◌<◌, ◌≤◌, ◌≡◌, inl, inr, refl, sym, ap, ◌∙◌, Bool, true,
  false, ◌&&◌, Option, some, none, List, [], ◌∷◌, ◌++◌, append-nil, append_assoc, take, drop,
  length, replicate, length-take, length-append, length-replicate, take-append-drop, arith,
  if◌then◌else◌, ◌==◌, ltb, Bool-cases,
}
use ezgrpc.Wire.{Byte}
use ezgrpc.Messages.Valid.{AllBytes}
use ezgrpc.Messages.Exact.{AllBytes-drop}
use ezgrpc.Dump.{
  look_up, dump_decode_binary, dump_decode_ascii, framed, dump_lines, dump_empty, dump_remaining,
  ezdump,
}

-- The value of a digit.
unfoldable pub digit_value : Byte → ℕ
digit_value c = if ltb c 58 then c - 48 else c - 87

-- What is to be done after a character where no digit has been read: a bar begins the text, which
-- with its frame has twenty more characters, and a space is passed over.
abbrev pub after : Byte → ℕ × Option ℕ
after c = if c == 124 then (20, none) else if c == 32 then (0, none) else (0, some (digit_value c))

-- To read the digits of a dump, two to a byte.
unfoldable pub undump : ℕ → Option ℕ → List Byte → List Byte
unfolding digit_value
undump skip high [] = []
undump (suc skip) high (c ∷ cs) = undump skip high cs
undump zero none (c ∷ cs) = undump (after c).0 (after c).1 cs
undump zero (some high) (c ∷ cs) = (high * 16 + digit_value c) ∷ undump 0 none cs

after_digit : (n : ℕ) → n < 16 → after (look_up n) ≡ (0, some n)
unfolding look_up digit_value
after_digit n h = ground (arith, h)

digit_value-look_up : (n : ℕ) → n < 16 → digit_value (look_up n) ≡ n
unfolding look_up digit_value
digit_value-look_up n h = ground (arith, h)

undump_byte :
    (b : Byte) (cs : List Byte)
    → b < 256
    → undump 0 none (look_up (b / 16 % 16) ∷ look_up (b % 16) ∷ cs) ≡ b ∷ undump 0 none cs
unfolding undump
undump_byte b cs h =
    let e = after_digit (b / 16 % 16) (omega arith) in
    let f = digit_value-look_up (b % 16) (omega arith) in
    rw (e, undump, f) (ap (λ (k : ℕ). k ∷ undump 0 none cs) (omega (arith, h)))

undump_space :
    (b : Bool) (cs : List Byte)
    → undump 0 none ((if b then 32 ∷ [] else []) ++ cs) ≡ undump 0 none cs
unfolding undump
undump_space true cs = refl
undump_space false cs = refl

undump_binary :
    (i : ℕ) (bs rest : List Byte)
    → AllBytes bs
    → undump 0 none (dump_decode_binary i bs ++ rest) ≡ bs ++ undump 0 none rest
unfolding dump_decode_binary undump
undump_binary i [] rest h = refl
undump_binary i (b ∷ bs) rest h =
    let space = if i == 7 then 32 ∷ [] else [] in
    let more = dump_decode_binary (i + 1) bs in
    undump_byte b (32 ∷ (space ++ more) ++ rest) h.0
    ∙ ap (λ l. b ∷ l)
        (ap (undump 0 none) (append_assoc space more rest)
          ∙ undump_space (i == 7) (more ++ rest)
          ∙ undump_binary (i + 1) bs rest h.1)

undump_empty :
    (n i count : ℕ) (rest : List Byte)
    → undump 0 none (dump_empty n i count ++ rest) ≡ undump 0 none rest
unfolding dump_empty undump
undump_empty zero i count rest = refl
undump_empty (suc n) i count rest =
    let space = if (i == 7) && ltb 7 count then 32 ∷ [] else [] in
    let more = dump_empty n (i + 1) count in
    ap (undump 0 none) (append_assoc space more rest)
    ∙ undump_space ((i == 7) && ltb 7 count) (more ++ rest)
    ∙ undump_empty n (i + 1) count rest

undump_skips :
    (skip : ℕ) (cs rest : List Byte)
    → length cs ≡ skip
    → undump skip none (cs ++ rest) ≡ undump 0 none rest
unfolding undump
undump_skips zero [] rest e = refl
undump_skips zero (c ∷ cs) rest e = absurd (omega arith)
undump_skips (suc skip) [] rest e = absurd (omega arith)
undump_skips (suc skip) (c ∷ cs) rest e = undump_skips skip cs rest (omega arith)

undump-framed :
    (text rest : List Byte)
    → length text ≡ 16
    → undump 0 none (framed text ++ rest) ≡ undump 0 none rest
unfolding undump
undump-framed text rest e =
    undump_skips 20 (32 ∷ text ++ 32 ∷ 124 ∷ 10 ∷ []) rest
      (omega (arith, length-append text (32 ∷ 124 ∷ 10 ∷ [])))

length-dump_decode_ascii : (bs : List Byte) → length (dump_decode_ascii bs) ≡ length bs
unfolding dump_decode_ascii
length-dump_decode_ascii [] = refl
length-dump_decode_ascii (b ∷ bs) = ap suc (length-dump_decode_ascii bs)

AllBytes-take : (n : ℕ) (bs : List Byte) → AllBytes bs → AllBytes (take n bs)
AllBytes-take zero bs h = tt
AllBytes-take (suc n) [] h = tt
AllBytes-take (suc n) (b ∷ bs) h = (h.0, AllBytes-take n bs h.1)

undump_lines :
    (n : ℕ) (bs rest : List Byte)
    → AllBytes bs
    → 16 * n ≤ length bs
    → undump 0 none (dump_lines n bs ++ rest) ≡ take (16 * n) bs ++ undump 0 none rest
unfolding dump_lines
undump_lines zero bs rest h le = refl
undump_lines (suc n) bs rest h le =
    let row = take 16 bs in
    let text = framed (dump_decode_ascii row) in
    let more = dump_lines n (drop 16 bs) in
    let long : length row ≡ 16 = omega (arith, length-take 16 bs, le) in
    let behind : 16 * n ≤ length (drop 16 bs) =
      omega (arith, le, ap length (take-append-drop 16 bs), length-append row (drop 16 bs), long) in
    ap (undump 0 none) (append_assoc (dump_decode_binary 0 row) (text ++ more) rest)
    ∙ undump_binary 0 row ((text ++ more) ++ rest) (AllBytes-take 16 bs h)
    ∙ ap (λ l. row ++ l)
        (ap (undump 0 none) (append_assoc text more rest)
          ∙ undump-framed (dump_decode_ascii row) (more ++ rest)
              (length-dump_decode_ascii row ∙ long)
          ∙ undump_lines n (drop 16 bs) rest (AllBytes-drop 16 bs h) behind)
    ∙ sym (append_assoc row (take (16 * n) (drop 16 bs)) (undump 0 none rest))
    ∙ ap (λ l. l ++ undump 0 none rest) (take_add 16 (16 * n) (16 * suc n) bs (omega arith))
  where
    take_add :
        (m k n : ℕ) (xs : List Byte) → n ≡ m + k → take m xs ++ take k (drop m xs) ≡ take n xs
    take_add zero k n xs e = ap (λ (j : ℕ). take j xs) (omega (arith, e))
    take_add (suc m) k zero xs e = absurd (omega (arith, e))
    take_add (suc m) zero (suc n) [] e = refl
    take_add (suc m) (suc k) (suc n) [] e = refl
    take_add (suc m) k (suc n) (x ∷ xs) e = ap (λ l. x ∷ l) (take_add m k n xs (omega (arith, e)))

undump_remaining :
    (bs : List Byte) → AllBytes bs → length bs < 16 → undump 0 none (dump_remaining bs) ≡ bs
unfolding dump_remaining undump
undump_remaining bs h few =
    let left = 16 - length bs in
    let text = dump_decode_ascii bs ++ replicate left 32 in
    let filler : ℕ = 32 in
    let long : length text ≡ 16 = omega (
      arith,
      few,
      length-append (dump_decode_ascii bs) (replicate left 32),
      length-dump_decode_ascii bs,
      length-replicate left filler,
    ) in
    undump_binary 0 bs (dump_empty left 0 left ++ framed text) h
    ∙ ap (λ l. bs ++ l)
        (undump_empty left 0 left (framed text)
          ∙ ap (undump 0 none) (sym (append-nil (framed text)))
          ∙ undump-framed text [] long)
    ∙ append-nil bs

-- To read the pairs of digits of a dump, and to pass over its text, gives the bytes that were dumped,
-- however many they are.
pub undump-ezdump : (bs : List Byte) → AllBytes bs → undump 0 none (ezdump bs) ≡ bs
unfolding ezdump undump
undump-ezdump bs h = elim (Bool-cases (length bs == 0)) [
  | inl empty ↦ rw empty (sym (nothing bs (ground (arith, empty))))
  | inr some_bytes ↦ rw some_bytes (elim (Bool-cases (length bs % 16 == 0)) [
    | inl whole ↦ rw whole (
        undump_lines n bs [] h fits
        ∙ append-nil (take (16 * n) bs)
        ∙ take_all (16 * n) bs (ground (arith, whole)))
    | inr more ↦ rw more (
        undump_lines n bs (dump_remaining (drop (16 * n) bs)) h fits
        ∙ ap (λ l. take (16 * n) bs ++ l)
            (undump_remaining (drop (16 * n) bs) (AllBytes-drop (16 * n) bs h) few)
        ∙ take-append-drop (16 * n) bs)
  ])
]
  where
    n : ℕ
    n = length bs / 16

    fits : 16 * n ≤ length bs
    fits = omega arith

    few : length (drop (16 * n) bs) < 16
    few = omega (
      arith,
      ap length (take-append-drop (16 * n) bs),
      length-append (take (16 * n) bs) (drop (16 * n) bs),
      length-take (16 * n) bs,
    )

    nothing : (l : List Byte) → length l ≡ 0 → l ≡ []
    nothing [] e = refl
    nothing (b ∷ l) e = absurd (omega arith)

    take_all : (k : ℕ) (l : List Byte) → length l ≤ k → take k l ≡ l
    take_all zero [] e = refl
    take_all zero (b ∷ l) e = absurd (omega arith)
    take_all (suc k) [] e = refl
    take_all (suc k) (b ∷ l) e = ap (λ l. b ∷ l) (take_all k l (omega arith))
