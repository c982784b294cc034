-- ===== src/Setup/Free.antt =====
-- `ezgrpc2_server_free`.
use ezgrpc.Prelude.{
  ℕ, ◌≤◌, ◌≡◌, inl, inr, refl, sym, ap, ◌∙◌, subst, true, Option, none, some, List, [], ◌∷◌, ◌++◌,
  append_assoc, append-nil, arith, Option-cases,
}
use ezgrpc.Event.{Event, EventKind}
use ezgrpc.Events.{Events}
use ezgrpc.Events.Contents.{Holds}
use ezgrpc.LogPool
use ezgrpc.LogPool.{thpool_free}
use ezgrpc.LogPool.Order.{Runs}
use ezgrpc.LogPool.Join.{Freed, AllCleaned, thpool_free-Freed}
use ezgrpc.Server.{Slot, session_free}
use ezgrpc.Server.Add.{write_plain-Written}
use ezgrpc.Setup.{
  Whole, Release, shut, closing, free_listener, free_session, free_clients, Freeing, frees_member,
  server_free,
}

-- What an open entry is released by, and the event for it.
pub releases : List Slot → List Release
releases [] = []
releases (slot ∷ slots) = elim slot.fd [
  | none ↦ releases slots
  | some fd ↦ shut fd ∷ closing fd ∷ releases slots
]

abbrev pub farewell : Slot → Event
farewell slot = record {
  session_uuid = slot.session_uuid;
  kind = EventKind.disconnect;
  userdata = none;
}

pub farewells : List Slot → List Event
farewells [] = []
farewells (slot ∷ slots) = elim slot.fd [
  | none ↦ farewells slots
  | some fd ↦ farewell slot ∷ farewells slots
]

farewells_cons :
    (slot : Slot) (slots : List Slot) (fd : ℕ)
    → slot.fd ≡ some fd
    → farewells (slot ∷ slots) ≡ farewell slot ∷ farewells slots
unfolding farewells
farewells_cons slot slots fd f = ground arith

pub record Clears (slots : List Slot) (xs : List Event) (o : Option (List Release × Option Events))
    : Type 0 where
  pub after : Events
  pub is : o ≡ some (releases slots, some after)
  pub holds : Holds after (xs ++ farewells slots)

session_free_lem :
    (slot : Slot) (es : Events) (xs : List Event)
    → Holds es xs
    → (es' : Events) × (free_session true slot (some es) ≡ some es')
      × Holds es' (xs ++ farewell slot ∷ [])
unfolding session_free
session_free_lem slot es xs h =
    let w = write_plain-Written EventKind.disconnect slot.session_uuid es xs h in
    (w.after, rw (w.is, free_session, session_free) refl, w.holds)

free_clients-Clears :
    (slots : List Slot) (es : Events) (xs : List Event)
    → Holds es xs
    → Clears slots xs (free_clients true slots (some es))
unfolding free_clients releases farewells
free_clients-Clears [] es xs h = record { after = es; is = refl; holds = rw (append-nil xs) h }
free_clients-Clears (slot ∷ slots) es xs h = elim (Option-cases slot.fd) [
  | inl f ↦
      let r = free_clients-Clears slots es xs h in
      record { after = r.after; is = ground (arith, r.is); holds = rw (f, farewells) r.holds }
  | inr (fd, f) ↦
      let (es', e, h') = session_free_lem slot es xs h in
      let r = free_clients-Clears slots es' (xs ++ farewell slot ∷ []) h' in
      record {
        after = r.after;
        is = ground (arith, e, r.is);
        holds =
            subst (Holds r.after)
              (append_assoc xs (farewell slot ∷ []) (farewells slots)
                ∙ ap (λ l. xs ++ l) (sym (farewells_cons slot slots fd f)))
              r.holds;
      }
]

pub record Ends (w : Whole) (a : List LogPool.Task) (xs : List Event) (o : Freeing) : Type 0 where
  pub events : Events
  pub pool : LogPool.Pool
  pub cleaned : List LogPool.Task
  pub is :
      o
      ≡ frees_member
          (free_listener w.ipv4 ++ free_listener w.ipv6 ++ releases w.clients)
          (some events)
          pool
          cleaned
  pub holds : Holds events (xs ++ farewells w.clients)
  pub logged : Freed a (pool, cleaned)

-- To free a server that holds events always ends in the free of the logger's pool, which is a member
-- of the server: undefined behaviour. Before that, each listener has been closed, and the descriptor of
-- each session shut down and closed, once each, in the order of the tables; for each session DISCONNECT
-- has been written behind the events that are held; and each log call that was asked for has been made
-- or cleaned up. `malloc` has room and the logger's thread is given two steps to end.
pub server_free-Ends :
    (w : Whole) (es : Events) (xs : List Event) (a k : List LogPool.Task) (fuel : ℕ)
    → w.events ≡ some es
    → Holds es xs
    → Runs 1 a k w.logger_thread
    → AllCleaned a
    → 2 ≤ fuel
    → Ends w a xs (server_free true fuel w)
unfolding server_free
server_free-Ends w es xs a k fuel given h r clean enough =
    let c = free_clients-Clears w.clients es xs h in
    rw (given, c.is, server_free)
      (record {
        events = c.after;
        pool = (thpool_free fuel w.logger_thread).0;
        cleaned = (thpool_free fuel w.logger_thread).1;
        is = refl;
        holds = c.holds;
        logged = thpool_free-Freed r clean fuel enough;
      })
