-- ===== src/Arena.antt =====
-- ezgrpc2_arena_event.c and ezgrpc2_arena_message.c: structs handed out of one buffer from its start.
pub mod Regions
pub mod Reads
mod Tests
use ezgrpc.Prelude.{
  ℕ, ◌+◌, ◌-◌, ◌%◌, ◌^◌, Bool, Option, none, some, List, [], ◌∷◌, ◌++◌, if◌then◌else◌, ◌==◌, ltb,
}

-- The sizes that the compiler chooses: of the header of an arena, and of the struct that it hands
-- out with its alignment.
pub record Layout : Type 0 where
  pub header : ℕ
  pub sizeof : ℕ
  pub alignof : ℕ

-- `struct ezgrpc2_arena_event` and `struct ezgrpc2_arena_message`. `buf` is the address of the
-- flexible array, and `room` the number of bytes that are allocated for it.
pub record Arena : Type 0 where
  pub write : ℕ
  pub read : ℕ
  pub count : ℕ
  pub size : ℕ
  pub buf : ℕ
  pub room : ℕ

-- A sum of `size_t`, which wraps around.
abbrev pub wrap : ℕ → ℕ
wrap n = n % 2 ^ 64

-- `malloc(size)` at this address, for the header and the array together.
unfoldable pub arena_event_new : Layout → ℕ → ℕ → Arena
arena_event_new c address size = record {
  write = 0;
  read = 0;
  count = 0;
  size = size;
  buf = address + c.header;
  room = size - c.header;
}

-- The new arena and the offset in `buf` that is handed out, or NULL.
unfoldable pub arena_event_malloc : Layout → Arena → Arena × Option ℕ
arena_event_malloc c a =
    let alignment = (a.buf + a.write) % c.alignof in
    if ltb a.size (wrap (a.write + c.sizeof + alignment)) then (a, none) else (
      record a { write = wrap (a.write + (alignment + c.sizeof)) },
      some (wrap (alignment + a.write)),
    )

unfoldable pub arena_event_read : Layout → Arena → Arena × Option ℕ
arena_event_read c a =
    if a.count == 0
    then (a, none)
    else let alignment = (a.buf + a.read) % c.alignof in
      (
        record a { read = wrap (a.read + (alignment + c.sizeof)); count = a.count - 1 },
        some (wrap (alignment + a.read)),
      )

unfoldable pub arena_event_is_empty : Arena → Bool
arena_event_is_empty a = a.count == 0

unfoldable pub arena_event_count : Arena → ℕ
arena_event_count a = a.count

unfoldable pub arena_event_reset : Arena → Arena
arena_event_reset a = record a { write = 0; read = 0; count = 0 }

-- `malloc(sizeof(*arena_message) + size)`, a sum that wraps around.
unfoldable pub arena_message_new : Layout → ℕ → ℕ → Arena
arena_message_new c address size = record {
  write = 0;
  read = 0;
  count = 0;
  size = size;
  buf = address + c.header;
  room = wrap (c.header + size) - c.header;
}

-- `msg->len = size` is written at the offset.
unfoldable pub arena_message_malloc : Layout → Arena → ℕ → Arena × Option ℕ
arena_message_malloc c a size =
    let alignment = (a.buf + a.write) % c.alignof in
    if ltb a.size (wrap (a.write + c.sizeof + size + alignment)) then (a, none) else (
      record a { write = wrap (a.write + (alignment + c.sizeof + size)) },
      some (wrap (alignment + a.write)),
    )

-- `len` is what the struct at the offset holds.
unfoldable pub arena_message_read : Layout → (len : ℕ → ℕ) → Arena → Arena × Option ℕ
arena_message_read c len a =
    if a.count == 0
    then (a, none)
    else let alignment = (a.buf + a.read) % c.alignof in
      (
        record a {
          read = wrap (a.read + (alignment + c.sizeof + len (wrap (alignment + a.read))));
          count = a.count - 1;
        },
        some (wrap (alignment + a.read)),
      )

-- The name says otherwise: the value is zero, which is false, when the count is zero.
unfoldable pub arena_message_is_empty : Arena → ℕ
arena_message_is_empty a = a.count

unfoldable pub arena_message_count : Arena → ℕ
arena_message_count a = a.count

-- A part of the array that was handed out: where it begins, and its bytes.
pub record Region : Type 0 where
  pub start : ℕ
  pub bytes : ℕ

-- Calls of `ezgrpc2_arena_message_malloc` for messages of these sizes, with what each hands out.
unfoldable pub mallocs : Layout → Arena → List ℕ → Arena × List Region
mallocs c a [] = (a, [])
mallocs c a (size ∷ sizes) =
    let (a', offset) = arena_message_malloc c a size in
    let (a'', regions) = mallocs c a' sizes in
    elim offset [
      | none ↦ (a'', regions)
      | some start ↦ (a'', record { start = start; bytes = c.sizeof + size } ∷ regions)
    ]

-- The calls that a user makes on an arena of events.
pub data Use : Type 0 where
  alloc reading reset : Use

unfoldable pub use_arena : Layout → Arena → List Use → Arena
use_arena c a [] = a
use_arena c a (Use.alloc ∷ us) = use_arena c (arena_event_malloc c a).0 us
use_arena c a (Use.reading ∷ us) = use_arena c (arena_event_read c a).0 us
use_arena c a (Use.reset ∷ us) = use_arena c (arena_event_reset a) us
