-- ===== src/Dump.antt =====
-- `ezdump` of internal_helpers.c: bytes as lines of hexadecimal digits and of text.
pub mod Reading
mod Tests
use ezgrpc.Prelude.{
  ℕ, zero, suc, ◌+◌, ◌-◌, ◌*◌, ◌/◌, ◌%◌, Bool, ◌&&◌, Option, some, none, List, [], ◌∷◌, ◌++◌, take,
  drop, length, replicate, if◌then◌else◌, ◌==◌, ltb,
}
use ezgrpc.Wire.{Byte}

-- `look_up`: "0123456789abcdef"
unfoldable pub look_up : ℕ → Byte
look_up n = if ltb n 10 then 48 + n else 87 + n

-- What is put out for bytes of which the first has this index.
unfoldable pub dump_decode_binary : ℕ → List Byte → List Byte
unfolding look_up
dump_decode_binary i [] = []
dump_decode_binary i (b ∷ bs) =
    look_up (b / 16 % 16) ∷ look_up (b % 16) ∷ 32 ∷ (if i == 7 then 32 ∷ [] else [])
    ++ dump_decode_binary (i + 1) bs

-- A byte that is not one of ASCII that can be printed is a dot.
unfoldable pub dump_decode_ascii : List Byte → List Byte
dump_decode_ascii [] = []
dump_decode_ascii (b ∷ bs) =
    (if ltb b 32 then 46 else if ltb b 127 then b else 46) ∷ dump_decode_ascii bs

-- `printf("| ")`, the text, `printf(" |")` and `puts("")`.
abbrev pub framed : List Byte → List Byte
framed text = 124 ∷ 32 ∷ text ++ 32 ∷ 124 ∷ 10 ∷ []

-- The first loop: so many lines of sixteen bytes.
unfoldable pub dump_lines : ℕ → List Byte → List Byte
unfolding dump_decode_binary dump_decode_ascii
dump_lines zero bytes = []
dump_lines (suc n) bytes =
    dump_decode_binary 0 (take 16 bytes)
    ++ (framed (dump_decode_ascii (take 16 bytes)) ++ dump_lines n (drop 16 bytes))

-- "write the empty": of `count` rounds those from `i` on, as many as `n`.
unfoldable pub dump_empty : ℕ → ℕ → ℕ → List Byte
dump_empty zero i count = []
dump_empty (suc n) i count =
    32 ∷ 32 ∷ 32 ∷ (if (i == 7) && ltb 7 count then 32 ∷ [] else []) ++ dump_empty n (i + 1) count

-- "write the remaining"
unfoldable pub dump_remaining : List Byte → List Byte
unfolding dump_decode_binary dump_decode_ascii dump_empty
dump_remaining bytes =
    let left = 16 - length bytes in
    dump_decode_binary 0 bytes
    ++ (dump_empty left 0 left ++ framed (dump_decode_ascii bytes ++ replicate left 32))

unfoldable pub ezdump : List Byte → List Byte
unfolding dump_lines dump_remaining
ezdump bytes =
    let len = length bytes in
    if len == 0
    then []
    else dump_lines (len / 16) bytes
      ++ (if len % 16 == 0 then [] else dump_remaining (drop (16 * (len / 16)) bytes))
