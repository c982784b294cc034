-- ===== src/Dump/Tests.antt =====
-- Dumps of a few bytes.
use ezgrpc.Prelude.{◌≡◌, refl, none, List, [], ◌∷◌, length, replicate, arith}
use ezgrpc.Wire.{Byte}
use ezgrpc.Dump.{
  ezdump, dump_lines, dump_remaining, dump_decode_binary, dump_decode_ascii, dump_empty, look_up,
}
use ezgrpc.Dump.Reading.{undump, undump-ezdump}

-- "hi" and a bar.
abbrev three : List Byte
three = 104 ∷ 105 ∷ 124 ∷ []

shown : length (ezdump three) ≡ 70
unfolding ezdump dump_lines dump_remaining dump_decode_binary dump_decode_ascii dump_empty look_up
shown = refl

-- A line of eight bytes is one character longer than any other: both loops add the space in the
-- middle.
eight : length (ezdump (replicate 8 97)) ≡ 71
unfolding ezdump dump_lines dump_remaining dump_decode_binary dump_decode_ascii dump_empty look_up
eight = refl

nine : length (ezdump (replicate 9 97)) ≡ 70
unfolding ezdump dump_lines dump_remaining dump_decode_binary dump_decode_ascii dump_empty look_up
nine = refl

undump-ezdump_example : undump 0 none (ezdump three) ≡ three
undump-ezdump_example = undump-ezdump three (omega arith, (omega arith, (omega arith, tt)))
