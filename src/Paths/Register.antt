-- ===== src/Paths/Register.antt =====
-- Registering a path, and finding it again.
use ezgrpc.Prelude.{
  ℕ, ◌+◌, ◌≤◌, ◌<◌, ◌≡◌, ◌≢◌, refl, ap, ◌∙◌, inl, inr, Bool, false, Option, none, some, List, [],
  ◌∷◌, ◌++◌, arith, Bool-cases, length, length-set, length-take, set, take, take-set, if◌then◌else◌,
}
use ezgrpc.Wire.{Byte}
use ezgrpc.Paths.{
  ServerPath, Registry, strncpy, streq, path_max_len, register_path, match_loop, match_path,
}
use ezgrpc.Paths.Text.{IsText, streq-strncpy, eq_of_streq}

pub record IsRegistry (r : Registry) : Type 0 where
  pub sized : length r.paths ≡ r.max_paths
  pub within : r.nb_paths ≤ r.max_paths

abbrev pub or_else {ℓ} : {A : Type ℓ} → Option A → Option A → Option A
or_else none o = o
or_else (some a) o = some a

or_else-none : (o : Option ℕ) → or_else o none ≡ o
or_else-none none = refl
or_else-none (some a) = refl

match_loop-snoc :
    (v : List Byte) (i : ℕ) (ps : List ServerPath) (p : ServerPath)
    → match_loop v i (ps ++ p ∷ [])
      ≡ or_else (match_loop v i ps) (if streq v p.path then some (i + length ps) else none)
unfolding match_loop
match_loop-snoc v i [] p = ground arith
match_loop-snoc v i (q ∷ ps) p = ground (arith, match_loop-snoc v (i + 1) ps p)

-- A full table is left as it is, and 1 is returned.
pub register_path_full :
    (r : Registry) (path : List Byte) (userdata encoding type : ℕ)
    → r.max_paths ≤ r.nb_paths
    → register_path r path userdata encoding type ≡ (r, 1)
unfolding register_path
register_path_full r path userdata encoding type full = ground arith

-- What is stored of a path.
abbrev pub entry : List Byte → ℕ → ℕ → ℕ → ServerPath
entry path userdata encoding type = record {
  path = strncpy path_max_len path;
  userdata = userdata;
  accept_content_encoding = encoding;
  accept_content_type = type;
}

module _ (r : Registry) (is : IsRegistry r) (room : r.nb_paths < r.max_paths) (path : List Byte)
    (userdata encoding type : ℕ) where
  pub register_path_room : register_path r path userdata encoding type ≡ (
    record r {
      paths = set r.paths r.nb_paths (entry path userdata encoding type);
      nb_paths = r.nb_paths + 1;
    },
    0,
  )
  unfolding register_path
  register_path_room = ground arith

  pub register_path-match_path :
      (value : List Byte)
      → match_path (register_path r path userdata encoding type).0 value
        ≡ or_else
            (match_path r value)
            (if streq value (entry path userdata encoding type).path then some r.nb_paths else none)
  unfolding match_path
  register_path-match_path value = rw register_path_room (
      ap (match_loop value 0)
        (take-set r.paths r.nb_paths (entry path userdata encoding type) (omega (arith, is)))
      ∙ match_loop-snoc value 0 (take r.nb_paths r.paths) (entry path userdata encoding type)
      ∙ ap
          (λ (k : ℕ).
            or_else (match_loop value 0 (take r.nb_paths r.paths))
              (if streq value (entry path userdata encoding type).path then some k else none))
          (omega (arith, is, length-take r.nb_paths r.paths)))

  register_path-IsRegistry : IsRegistry (register_path r path userdata encoding type).0
  register_path-IsRegistry = rw register_path_room (record {
    sized = length-set r.paths r.nb_paths (entry path userdata encoding type) ∙ is.sized;
    within = omega arith;
  })

  -- Where there is room, a path of less than 64 bytes is registered with 0 returned, the table stays
  -- well formed, and a request for the path then finds the new entry, unless it found one before.
  pub register_path_lem :
      IsText path
      → length path < path_max_len
      → let r' = (register_path r path userdata encoding type).0 in
        ((register_path r path userdata encoding type).1 ≡ 0)
        × IsRegistry r'
        × (match_path r' path ≡ or_else (match_path r path) (some r.nb_paths))
  register_path_lem t short = (
    rw register_path_room refl,
    register_path-IsRegistry,
    register_path-match_path path
        ∙ ap (λ (b : Bool). or_else (match_path r path) (if b then some r.nb_paths else none))
            (streq-strncpy path 63 t short),
  )

  -- Where there is room, to register a path of less than 64 bytes changes nothing for a request for
  -- any other text: it finds what it found before.
  pub register_path_others :
      (value : List Byte)
      → IsText path
      → length path < path_max_len
      → IsText value
      → value ≢ path
      → match_path (register_path r path userdata encoding type).0 value ≡ match_path r value
  register_path_others value t short tv ne =
      register_path-match_path value
      ∙ ap (λ (b : Bool). or_else (match_path r value) (if b then some r.nb_paths else none)) other
      ∙ or_else-none (match_path r value)
    where
      other : streq value (entry path userdata encoding type).path ≡ false
      other = elim (Bool-cases (streq value (entry path userdata encoding type).path)) [
        | inl e ↦ absurd (
            ne (
              eq_of_streq value path (entry path userdata encoding type).path tv t e
                (streq-strncpy path 63 t short)))
        | inr e ↦ e
      ]
