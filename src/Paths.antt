-- ===== src/Paths.antt =====
-- The table of registered paths: `struct ezgrpc2_path`, `ezgrpc2_server_register_path` and
-- `ezgrpc2_server_unregister_path` of ezgrpc2_server.c, and the search for a request's `:path` in
-- `on_header_callback`.
pub mod Text
pub mod Register
pub mod Unregister
mod Tests
use ezgrpc.Prelude.{
  ℕ, zero, suc, ◌+◌, ◌-◌, ◌%◌, ◌^◌, Bool, true, false, not, ◌&&◌, Option, none, some, List, [], ◌∷◌,
  ◌++◌, if◌then◌else◌, ◌==◌, ltb, get_elem?, set, take, replicate,
}
use ezgrpc.Wire.{Byte}

-- CONFIG_PATH_MAX_LEN of config.mk
abbrev pub path_max_len : ℕ
path_max_len = 64

-- `path` is the whole array, padded by `strncpy` with zeros.
pub record ServerPath : Type 0 where
  pub path : List Byte
  pub userdata : ℕ
  pub accept_content_encoding : ℕ
  pub accept_content_type : ℕ

abbrev pub zero_path : ServerPath
zero_path = record {
  path = replicate path_max_len 0;
  userdata = 0;
  accept_content_encoding = 0;
  accept_content_type = 0;
}

-- The part of `struct ezgrpc2_server` that the functions here use. `paths` has the `max_paths`
-- entries that `calloc` gave.
pub record Registry : Type 0 where
  pub nb_paths : ℕ
  pub max_paths : ℕ
  pub paths : List ServerPath

unfoldable pub registry_new : ℕ → Registry
registry_new max_paths = record {
  nb_paths = 0;
  max_paths = max_paths;
  paths = replicate max_paths zero_path;
}

-- `strncpy(dst, src, n)` into an array of `n` bytes.
unfoldable pub strncpy : ℕ → List Byte → List Byte
strncpy n src = take n (src ++ replicate n 0)

-- `!strcmp` of a text with no zero byte and the text that an array holds. (An array without a zero
-- byte is read past its end by the C code; it equals no text here.)
unfoldable pub streq : List Byte → List Byte → Bool
streq [] [] = false
streq [] (b ∷ bs) = b == 0
streq (c ∷ cs) [] = false
streq (c ∷ cs) (b ∷ bs) = not (c == 0) && (c == b) && streq cs bs

-- The new table and the value returned.
pub register_path : Registry → List Byte → ℕ → ℕ → ℕ → Registry × ℕ
unfolding strncpy
register_path r path userdata encoding type = if ltb r.max_paths (r.nb_paths + 1) then (r, 1) else (
  record r {
    paths = set r.paths r.nb_paths (record {
      path = strncpy path_max_len path;
      userdata = userdata;
      accept_content_encoding = encoding;
      accept_content_type = type;
    });
    nb_paths = r.nb_paths + 1;
  },
  0,
)

-- `server->paths[0].path[0]`, as a truth value
abbrev pub first_char : List ServerPath → Bool
first_char [] = false
first_char (p ∷ ps) = elim p.path [ [] ↦ false | b ∷ bs ↦ not (b == 0) ]

-- The loop over the table from index `i` on, which stops at the first entry that passes the test.
pub unregister_loop : Bool → List Byte → ℕ → List ServerPath → Option (ℕ × ℕ)
unregister_loop guard path i [] = none
unregister_loop guard path i (p ∷ ps) =
    let next = unregister_loop guard path (i + 1) ps in
    if guard && streq path p.path then some (i, p.userdata) else next

-- The new table and the pointer returned (`none` is NULL). `nb_paths` is a `size_t`.
pub unregister_path : Registry → List Byte → Registry × Option ℕ
unfolding unregister_loop streq
unregister_path r path =
    elim (unregister_loop (first_char r.paths) path 0 (take r.max_paths r.paths)) [
      | none ↦ (r, none)
      | some (i, userdata) ↦ (
        record r { paths = set r.paths i zero_path; nb_paths = (r.nb_paths + 2 ^ 64 - 1) % 2 ^ 64 },
        some userdata,
      )
    ]

-- The loop of `on_header_callback` over the first `nb_paths` entries: the index of the first match.
unfoldable pub match_loop : List Byte → ℕ → List ServerPath → Option ℕ
match_loop value i [] = none
match_loop value i (p ∷ ps) =
    let next = match_loop value (i + 1) ps in if streq value p.path then some i else next

unfoldable pub match_path : Registry → List Byte → Option ℕ
unfolding match_loop streq
match_path r value = match_loop value 0 (take r.nb_paths r.paths)
