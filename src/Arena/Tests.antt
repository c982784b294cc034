-- ===== src/Arena/Tests.antt =====
-- Arenas at work.
use ezgrpc.Prelude.{◌≡◌, refl, none, [], ◌∷◌, arith}
use ezgrpc.Arena.{
  Layout, arena_event_new, arena_message_new, arena_message_malloc, mallocs, arena_message_is_empty,
  arena_message_count, arena_message_read, arena_event_count,
}
use ezgrpc.Arena.Regions.{InLine, mallocs-InLine}

abbrev layout : Layout
layout = record { header = 32; sizeof = 8; alignof = 4 }

-- The third message does not fit any more.
three :
    (mallocs layout (arena_message_new layout 96 40) (4 ∷ 8 ∷ 12 ∷ [])).1
    ≡ record { start = 0; bytes = 12 } ∷ record { start = 12; bytes = 16 } ∷ []
unfolding mallocs arena_message_malloc arena_message_new
three = refl

-- After a message of five bytes the next struct stands at an address that four does not divide, since
-- the remainder is added where it should be taken from four.
askew :
    (mallocs layout (arena_message_new layout 96 40) (5 ∷ 1 ∷ [])).1
    ≡ record { start = 0; bytes = 13 } ∷ record { start = 14; bytes = 9 } ∷ []
unfolding mallocs arena_message_malloc arena_message_new
askew = refl

-- Nothing is counted, and so nothing read.
read_null :
    (arena_message_read layout
      (λ n. 4)
      (arena_message_malloc layout (arena_message_new layout 96 40) 4).0).1
    ≡ none
unfolding arena_message_read arena_message_malloc arena_message_new
read_null = refl

zero_is_not_empty : arena_message_is_empty (arena_message_new layout 96 40) ≡ 0
unfolding arena_message_is_empty arena_message_new
zero_is_not_empty = refl

counts :
    (arena_message_count (arena_message_new layout 96 40) ≡ 0)
    × (arena_event_count (arena_event_new layout 96 40) ≡ 0)
unfolding arena_message_count arena_event_count arena_message_new arena_event_new
counts = (refl, refl)

mallocs-InLine_example :
    InLine 0
      (arena_message_new layout 96 40).room
      (mallocs layout (arena_message_new layout 96 40) (4 ∷ 8 ∷ 12 ∷ [])).1
mallocs-InLine_example =
    mallocs-InLine layout 96 40 (4 ∷ 8 ∷ 12 ∷ []) (omega arith) (omega arith)
      (omega arith, (omega arith, (omega arith, tt)))
