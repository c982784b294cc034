-- ===== src/Events.antt =====
-- ezgrpc2_events.c: the events of a poll, in arrays of 64 on a list.
pub mod Contents
pub mod Drain
mod Tests
use ezgrpc.Prelude.{
  ℕ, zero, suc, ◌+◌, Option, none, some, Bool, true, false, not, List, [], ◌∷◌, ◌++◌, if◌then◌else◌,
  ◌==◌, length, set, take, replicate,
}
use ezgrpc.Event.{Event, EventKind}
use ezgrpc.Wire.{Message}

abbrev pub events_block : ℕ
events_block = 64

-- An entry that was never written is `none`.
abbrev pub Block : Type 0
Block = List (Option Event)

pub record Events : Type 0 where
  pub bevents : List Block
  pub windex : ℕ

unfoldable pub events_new : Events
events_new = record { bevents = []; windex = events_block }

-- `arrevents[i] = event` in the last array; `none` is a write through NULL.
pub write_last : List Block → ℕ → Event → Option (List Block)
write_last [] i event = none
write_last (b ∷ []) i event = some (set b i (some event) ∷ [])
write_last (b ∷ c ∷ bs) i event = elim (write_last (c ∷ bs) i event) [
  | none ↦ none
  | some bs' ↦ some (b ∷ bs')
]

store : Events → Event → Option (Events × ℕ)
unfolding write_last
store events event = elim (write_last events.bevents events.windex event) [
  | none ↦ none
  | some bs ↦ some (record { bevents = bs; windex = events.windex + 1 }, 0)
]

-- The new state and the value returned. `malloc_ok` says whether `malloc` finds room for an array.
pub events_write : (malloc_ok : Bool) → Events → Event → Option (Events × ℕ)
unfolding store
events_write malloc_ok events event =
    if events.windex == events_block
    then if malloc_ok
      then store
          (record { bevents = events.bevents ++ replicate events_block none ∷ []; windex = 0 })
          event
      else some (events, 1)
    else store events event

-- The array that is handed out with its `*len`, or NULL.
unfoldable pub events_read : Events → Option (Block × ℕ) × Events
events_read events = elim events.bevents [
  | [] ↦ (none, events)
  | b ∷ bs ↦
      if length bs == 0
      then (some (b, events.windex), record { bevents = bs; windex = events_block })
      else (some (b, events_block), record events { bevents = bs })
]

-- What a reader gets until it is given NULL, on fuel; `length bevents + 1` reads are enough.
unfoldable pub drain : ℕ → Events → Option (List (Option Event))
unfolding events_read
drain zero events = none
drain (suc fuel) events =
    let (read, events') = events_read events in
    elim read [
      | none ↦ some []
      | some (b, n) ↦ elim (drain fuel events') [ none ↦ none | some r ↦ some (take n b ++ r) ]
    ]

-- `ezgrpc2_messages_free` on the messages of each MESSAGE event of a drained list.
pub message_lists : List (Option Event) → List (List Message)
message_lists [] = []
message_lists (none ∷ es) = message_lists es
message_lists (some e ∷ es) = elim e.kind [
  | EventKind.message ms id end ↦ ms ∷ message_lists es
  | _ ↦ message_lists es
]

-- What `ezgrpc2_events_free` frees: the message lists, and whether the struct itself. The loop ends
-- with `arrevents == NULL`, and the line after it tests just that.
pub events_free : Events → Option (List (List Message) × Bool)
unfolding drain message_lists
events_free events = elim (drain (length events.bevents + 1) events) [
  | none ↦ none
  | some es ↦ let arrevents_is_null = true in some (message_lists es, not arrevents_is_null)
]
