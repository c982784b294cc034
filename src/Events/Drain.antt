-- ===== src/Events/Drain.antt =====
-- Reading until NULL, and `ezgrpc2_events_free`, which does so.
use ezgrpc.Prelude.{
  ℕ, zero, suc, ◌+◌, ◌<◌, ◌≡◌, refl, ap, ◌∙◌, some, false, List, [], ◌∷◌, map, append-nil, arith,
  length, take,
}
use ezgrpc.Wire.{Message}
use ezgrpc.Event.{Event, EventKind}
use ezgrpc.Events.{Block, Events, events_read, drain, message_lists, events_free}
use ezgrpc.Events.Contents.{content, Holds}

drain-content :
    (fuel : ℕ) (bs : List Block) (w : ℕ)
    → length bs < fuel
    → drain fuel (record { bevents = bs; windex = w }) ≡ some (content bs w)
unfolding drain events_read
drain-content zero bs w h = elim h [ ]
drain-content (suc fuel) [] w h = refl
drain-content (suc zero) (b ∷ []) w h = absurd (omega arith)
drain-content (suc (suc fuel)) (b ∷ []) w h = ap some (append-nil (take w b))
drain-content (suc fuel) (b ∷ c ∷ bs) w h =
    ground (arith, drain-content fuel (c ∷ bs) w (omega arith))

-- Reading until NULL gives the events in the order in which they were written, and there are never
-- more reads with an answer than arrays.
pub drain-Holds :
    (es : Events) (xs : List Event)
    → Holds es xs
    → drain (length es.bevents + 1) es ≡ some (map some xs)
drain-Holds es xs h =
    drain-content (length es.bevents + 1) es.bevents es.windex (omega arith) ∙ ap some h.is

-- The message lists that the events carry.
unfoldable pub carried : List Event → List (List Message)
carried [] = []
carried (e ∷ es) = elim e.kind [ EventKind.message ms id end ↦ ms ∷ carried es | _ ↦ carried es ]

message_lists-map : (xs : List Event) → message_lists (map some xs) ≡ carried xs
unfolding message_lists carried
message_lists-map [] = refl
message_lists-map (e ∷ es) = ground (arith, message_lists-map es)

-- `ezgrpc2_events_free` frees each message list that is still held once, in order, and never the
-- `ezgrpc2_events` itself.
pub events_free-carried :
    (es : Events) (xs : List Event) → Holds es xs → events_free es ≡ some (carried xs, false)
unfolding events_free
events_free-carried es xs h =
    rw (drain-Holds es xs h, events_free) (ap (λ l. some (l, false)) (message_lists-map xs))
