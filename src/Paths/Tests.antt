-- ===== src/Paths/Tests.antt =====
-- A table of three paths, of which two are in use.
use ezgrpc.Prelude.{◌≡◌, refl, true, none, some, List, [], ◌∷◌, arith, set, get_elem?, codes, take}
use ezgrpc.Wire.{Byte}
use ezgrpc.Paths.{
  Registry, zero_path, strncpy, streq, register_path, unregister_path, unregister_loop, first_char,
  match_path, match_loop,
}
use ezgrpc.Paths.Text.{IsText}
use ezgrpc.Paths.Register.{IsRegistry, entry}
use ezgrpc.Paths.Unregister.{unregister_path-register_path, register_path-overwrites}

abbrev say : List Byte
say = codes "/s/Say"

abbrev ask : List Byte
ask = codes "/s/Ask"

abbrev tell : List Byte
tell = codes "/s/Tell"

abbrev two : Registry
two = record {
  nb_paths = 2;
  max_paths = 3;
  paths = entry say 10 1 1 ∷ entry ask 11 1 1 ∷ zero_path ∷ [];
}

two-IsRegistry : IsRegistry two
two-IsRegistry = record { sized = refl; within = omega arith }

tell-IsText : IsText tell
tell-IsText = (
  omega arith,
  (omega arith, (omega arith, (omega arith, (omega arith, (omega arith, (omega arith, tt)))))),
)

ask-IsText : IsText ask
ask-IsText =
    (omega arith, (omega arith, (omega arith, (omega arith, (omega arith, (omega arith, tt))))))

tell_fresh : match_path two tell ≡ none
unfolding match_path match_loop strncpy streq
tell_fresh = refl

say_first :
    unregister_loop (first_char two.paths) say 0 (take two.max_paths two.paths) ≡ some (0, 10)
unfolding unregister_loop strncpy streq
say_first = refl

used : first_char (register_path two tell 12 1 1).0.paths ≡ true
unfolding register_path strncpy
used = refl

unregister_path-register_path_example :
    unregister_path (register_path two tell 12 1 1).0 tell
    ≡ (record two { paths = set two.paths 2 zero_path }, some 12)
unregister_path-register_path_example =
    unregister_path-register_path two tell 12 1 1 two-IsRegistry (omega arith) (omega arith)
      tell-IsText (omega arith) tell_fresh used

register_path-overwrites_example :
    (get_elem? (unregister_path two say).0.paths 1 ≡ get_elem? two.paths 1)
    × (get_elem? (register_path (unregister_path two say).0 tell 12 1 1).0.paths 1
        ≡ some (entry tell 12 1 1))
register_path-overwrites_example =
    register_path-overwrites two say tell 0 10 12 1 1 two-IsRegistry (omega arith) (omega arith)
      say_first (omega arith)
