-- ===== src/Paths/Unregister.antt =====
-- Taking a path out of the table.
use ezgrpc.Prelude.{
  ap₂, ℕ, zero, suc, ◌+◌, ◌-◌, ◌%◌, ◌^◌, ◌<◌, ◌≡◌, ◌≢◌, refl, ap, ◌∙◌, true, false, Option, none,
  some, List, [], ◌∷◌, arith, length, length-set, set, take, get_elem?, get_elem?-set_self,
  get_elem?-set_ne, take_of_length-le,
}
use ezgrpc.Wire.{Byte}
use ezgrpc.Paths.{
  ServerPath, Registry, streq, path_max_len, zero_path, register_path, match_loop, match_path,
  first_char, unregister_loop, unregister_path,
}
use ezgrpc.Paths.Text.{IsText, streq-strncpy}
use ezgrpc.Paths.Register.{IsRegistry, entry, register_path_room}

-- An entry that the first `n` do not hide.
unregister_loop-set :
    (path : List Byte) (n i : ℕ) (ps : List ServerPath) (p : ServerPath)
    → n < length ps
    → match_loop path i (take n ps) ≡ none
    → streq path p.path ≡ true
    → unregister_loop true path i (set ps n p) ≡ some (i + n, p.userdata)
unfolding unregister_loop match_loop
unregister_loop-set path n i [] p h miss hit = elim h [ ]
unregister_loop-set path zero i (q ∷ ps) p h miss hit = ground arith
unregister_loop-set path (suc n) i (q ∷ ps) p h miss hit =
    ground (arith, unregister_loop-set path n (i + 1) ps p)

set-set {ℓ} : {A : Type ℓ} (xs : List A) (i : ℕ) (a b : A) → set (set xs i a) i b ≡ set xs i b
set-set [] i a b = refl
set-set (x ∷ xs) zero a b = refl
set-set (x ∷ xs) (suc i) a b = ap (◌∷◌ x) (set-set xs i a b)

unregister_path_found :
    (r : Registry) (path : List Byte) (i userdata : ℕ)
    → unregister_loop (first_char r.paths) path 0 (take r.max_paths r.paths) ≡ some (i, userdata)
    → unregister_path r path ≡ (
      record r { paths = set r.paths i zero_path; nb_paths = (r.nb_paths + 2 ^ 64 - 1) % 2 ^ 64 },
      some userdata,
    )
unfolding unregister_path
unregister_path_found r path i userdata e = rw (e, unregister_path)

-- Registering a path that no request finds yet, of less than 64 bytes and without NUL, in a table that
-- has room for it and less than 2 ^ 64 entries, and unregistering it again gives back its `userdata` and
-- the number of paths, and clears the entry that it had, provided that the first entry of the table is
-- then in use.
pub unregister_path-register_path :
    (r : Registry) (path : List Byte) (userdata encoding type : ℕ)
    → IsRegistry r
    → r.nb_paths < r.max_paths
    → r.max_paths < 2 ^ 64
    → IsText path
    → length path < path_max_len
    → match_path r path ≡ none
    → first_char (register_path r path userdata encoding type).0.paths ≡ true
    → unregister_path (register_path r path userdata encoding type).0 path
      ≡ (record r { paths = set r.paths r.nb_paths zero_path }, some userdata)
unfolding match_path
unregister_path-register_path r path userdata encoding type is room size t short fresh used =
    rw (register_path_room r is room path userdata encoding type)
      (unregister_path_found r' path r.nb_paths userdata found ∙ same)
  where
    e : ServerPath
    e = entry path userdata encoding type

    r' : Registry
    r' = record r { paths = set r.paths r.nb_paths e; nb_paths = r.nb_paths + 1 }

    used' : first_char r'.paths ≡ true
    used' = rw (register_path_room r is room path userdata encoding type) at used

    whole : take r.max_paths r'.paths ≡ r'.paths
    whole = take_of_length-le _ _ (omega (arith, is, length-set r.paths r.nb_paths e))

    found :
        unregister_loop (first_char r'.paths) path 0 (take r'.max_paths r'.paths)
        ≡ some (r.nb_paths, userdata)
    found =
        rw (used', whole)
          (unregister_loop-set path r.nb_paths 0 r.paths e (omega (arith, is)) fresh
              (streq-strncpy path 63 t short)
            ∙ ap (λ (k : ℕ). some (k, userdata)) (omega arith))

    back : (r'.nb_paths + 2 ^ 64 - 1) % 2 ^ 64 ≡ r.nb_paths
    back = omega arith

    after : (ps : List ServerPath) (n : ℕ) → Registry × Option ℕ
    after ps n = (record r { paths = ps; nb_paths = n }, some userdata)

    same :
        after (set r'.paths r.nb_paths zero_path) ((r'.nb_paths + 2 ^ 64 - 1) % 2 ^ 64)
        ≡ after (set r.paths r.nb_paths zero_path) r.nb_paths
    same = ap₂ after (set-set r.paths r.nb_paths e zero_path) back

-- A path that is taken out of the table anywhere but at the end leaves a hole, and the next
-- registration overwrites the last entry in use, which was still registered.
pub register_path-overwrites :
    (r : Registry) (path new : List Byte) (i u userdata encoding type : ℕ)
    → IsRegistry r
    → r.max_paths < 2 ^ 64
    → 0 < r.nb_paths
    → unregister_loop (first_char r.paths) path 0 (take r.max_paths r.paths) ≡ some (i, u)
    → i ≢ r.nb_paths - 1
    → let r' = (unregister_path r path).0 in
      let r'' = (register_path r' new userdata encoding type).0 in
      (get_elem? r'.paths (r.nb_paths - 1) ≡ get_elem? r.paths (r.nb_paths - 1))
      × (get_elem? r''.paths (r.nb_paths - 1) ≡ some (entry new userdata encoding type))
register_path-overwrites r path new i u userdata encoding type is size pos found other =
    rw (unregister_path_found r path i u found) (kept, rw room overwritten)
  where
    r' : Registry
    r' = record r { paths = set r.paths i zero_path; nb_paths = (r.nb_paths + 2 ^ 64 - 1) % 2 ^ 64 }

    count : r'.nb_paths ≡ r.nb_paths - 1
    count = let w = is.within in omega arith

    is' : IsRegistry r'
    is' = record {
      sized = length-set r.paths i zero_path ∙ is.sized;
      within = let w = is.within in omega arith;
    }

    room : register_path r' new userdata encoding type ≡ (
      record r' {
        paths = set r'.paths r'.nb_paths (entry new userdata encoding type);
        nb_paths = r'.nb_paths + 1;
      },
      0,
    )
    room = register_path_room r' is' (let w = is.within in omega arith) new userdata encoding type

    kept : get_elem? r'.paths (r.nb_paths - 1) ≡ get_elem? r.paths (r.nb_paths - 1)
    kept = get_elem?-set_ne r.paths i (r.nb_paths - 1) zero_path other

    overwritten :
        get_elem? (set r'.paths r'.nb_paths (entry new userdata encoding type)) (r.nb_paths - 1)
        ≡ some (entry new userdata encoding type)
    overwritten = rw count (get_elem?-set_self r'.paths (r.nb_paths - 1) _ (omega (arith, is', is)))

first_char-set_zero : (ps : List ServerPath) → first_char (set ps 0 zero_path) ≡ false
first_char-set_zero [] = refl
first_char-set_zero (p ∷ ps) = refl

unregister_loop_off :
    (path : List Byte) (i : ℕ) (ps : List ServerPath) → unregister_loop false path i ps ≡ none
unfolding unregister_loop
unregister_loop_off path i [] = refl
unregister_loop_off path i (p ∷ ps) = unregister_loop_off path (i + 1) ps

unregister_path_no_first :
    (r : Registry) (path : List Byte)
    → first_char r.paths ≡ false
    → unregister_path r path ≡ (r, none)
unfolding unregister_path
unregister_path_no_first r path e =
    let miss : unregister_loop (first_char r.paths) path 0 (take r.max_paths r.paths) ≡ none =
      rw e (unregister_loop_off path 0 (take r.max_paths r.paths)) in
    rw (miss, unregister_path)

-- Once the first entry of the table has been taken out, no path can be unregistered.
pub unregister_path_blocked :
    (r : Registry) (path other : List Byte) (u : ℕ)
    → unregister_loop (first_char r.paths) path 0 (take r.max_paths r.paths) ≡ some (0, u)
    → let r' = (unregister_path r path).0 in unregister_path r' other ≡ (r', none)
unregister_path_blocked r path other u found =
    rw (unregister_path_found r path 0 u found)
      (unregister_path_no_first _ other (first_char-set_zero r.paths))
