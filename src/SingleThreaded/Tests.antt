-- ===== src/SingleThreaded/Tests.antt =====
-- Four events of one session.
use ezgrpc.Prelude.{
  ℕ, ◌≡◌, refl, true, false, Option, none, some, List, [], ◌∷◌, ◌==◌, if◌then◌else◌,
}
use ezgrpc.Event.{Event, EventKind}
use ezgrpc.Server.{Server}
use ezgrpc.Service.Sample.{hi, uuid, events_of, server_with}
use ezgrpc.SingleThreaded.{Program, path0, path1, App, callback_path0}

abbrev program : Program
program = record {
  path_userdata = λ pointer.
      if pointer == 40
      then some (record { is_unary = false; callback = path0 })
      else if pointer == 41
      then some (record { is_unary = true; callback = path1 })
      else none;
}

abbrev event : EventKind → Option ℕ → Event
event kind userdata = record { session_uuid = uuid; kind = kind; userdata = userdata }

abbrev happened : List Event
happened =
    event EventKind.connect none
    ∷ event (EventKind.message (hi ∷ hi ∷ []) 1 true) (some 40)
    ∷ event (EventKind.message (hi ∷ hi ∷ []) 1 true) (some 41)
    ∷ event (EventKind.dataloss 1) none
    ∷ []

abbrev app : App Server
app = record { server = server_with (events_of happened 4 60); pp = 7; answers = [] }

-- The counter goes through the messages of a callback.
two_messages : (callback_path0 258).1 ≡ 260
unfolding callback_path0
two_messages = refl
