-- ===== src/Events/Tests.antt =====
-- The events at concrete lists.
use ezgrpc.Prelude.{◌≡◌, some, true, [], ◌∷◌, ◌++◌, map, length, ◌+◌}
use ezgrpc.Wire.{Message}
use ezgrpc.Event.{Event, EventKind}
use ezgrpc.Events.{Events, events_new, events_write, drain}
use ezgrpc.Events.Contents.{Holds, Holds-new, events_write-Holds}
use ezgrpc.Events.Drain.{drain-Holds}

abbrev hi : Message
hi = record { cflag = 0; len = 2; payload = 104 ∷ 105 ∷ [] }

abbrev first : Event
first = record {
  session_uuid = record { uuid = 5; index = 0 };
  kind = EventKind.message (hi ∷ []) 1 true;
  userdata = some 9;
}

abbrev second : Event
second = record {
  session_uuid = record { uuid = 5; index = 0 };
  kind = EventKind.dataloss 1;
  userdata = some 9;
}

events_write-Holds_example :
    (after : Events) × (events_write true events_new first ≡ some (after, 0))
    × Holds after ([] ++ first ∷ [])
events_write-Holds_example = events_write-Holds events_new [] first Holds-new

-- The events after that write.
abbrev one : Events
one = (events_write-Holds events_new [] first Holds-new).0

one-Holds : Holds one (first ∷ [])
one-Holds = (events_write-Holds events_new [] first Holds-new).2

drain-Holds_example : drain (length one.bevents + 1) one ≡ some (map some (first ∷ []))
drain-Holds_example = drain-Holds one (first ∷ []) one-Holds
