-- ===== src/Arena/Reads.antt =====
-- What is read of an arena of events.
use ezgrpc.Prelude.{ℕ, ◌≡◌, refl, true, none, List, [], ◌∷◌, arith, ◌∙◌}
use ezgrpc.Arena.{
  Layout, Arena, Use, use_arena, arena_event_new, arena_event_malloc, arena_event_read,
  arena_event_reset, arena_event_is_empty,
}

module _ (c : Layout) (a : Arena) where
  malloc-count : (arena_event_malloc c a).0.count ≡ a.count
  unfolding arena_event_malloc
  malloc-count = ground arith

  read-count : a.count ≡ 0 → (arena_event_read c a).0.count ≡ 0
  unfolding arena_event_read
  read-count h = ground arith

  read_none : a.count ≡ 0 → ((arena_event_read c a).1 ≡ none) × (arena_event_is_empty a ≡ true)
  unfolding arena_event_read arena_event_is_empty
  read_none h = (ground arith, ground arith)

use_arena-count :
    (c : Layout) (a : Arena) (us : List Use) → a.count ≡ 0 → (use_arena c a us).count ≡ 0
unfolding use_arena arena_event_reset
use_arena-count c a [] h = h
use_arena-count c a (Use.alloc ∷ us) h =
    use_arena-count c (arena_event_malloc c a).0 us (malloc-count c a ∙ h)
use_arena-count c a (Use.reading ∷ us) h =
    use_arena-count c (arena_event_read c a).0 us (read-count c a h)
use_arena-count c a (Use.reset ∷ us) h = use_arena-count c (arena_event_reset a) us refl

-- Nothing that was put into an arena of events is ever read: after any calls the arena says that it
-- is empty, and a read gives NULL, since no call counts what is handed out.
pub use_arena-reads_nothing :
    (c : Layout) (address size : ℕ) (us : List Use)
    → let a = use_arena c (arena_event_new c address size) us in
      ((arena_event_read c a).1 ≡ none) × (arena_event_is_empty a ≡ true)
unfolding arena_event_new
use_arena-reads_nothing c address size us =
    let a = use_arena c (arena_event_new c address size) us in
    read_none c a (use_arena-count c (arena_event_new c address size) us refl)
