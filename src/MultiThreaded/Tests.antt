-- ===== src/MultiThreaded/Tests.antt =====
-- Events of one session, for a streaming and for a unary path.
use ezgrpc.Prelude.{
  ℕ, ◌+◌, ◌≡◌, refl, true, false, Option, none, some, List, [], ◌∷◌, map, arith, ◌==◌,
  if◌then◌else◌,
}
use ezgrpc.Wire.{Message}
use ezgrpc.Event.{Event, EventKind}
use ezgrpc.Events.{events_read}
use ezgrpc.Events.Contents.{Holds}
use ezgrpc.Server.{Server}
use ezgrpc.Service.{Service}
use ezgrpc.Service.Fills.{server_service, server_laws}
use ezgrpc.Service.Sample.{
  hi, uuid, ng, submit, ng-Works, ng-Steady, events_of, server_with, server-IsHeld,
}
use ezgrpc.Pool.{Task, Worker, pool_new, add_task, add_task2, worker, poll}
use ezgrpc.SingleThreaded.{Program, path0, path1}
use ezgrpc.MultiThreaded.{
  UserData, App, start, task, handle_events, handle_array, handle_event, handle_event_message,
  handle_event_dataloss, hand_over, create_userdata, add_to_pool, step_opool, run_task,
  handle_opool, rounds,
}
use ezgrpc.MultiThreaded.Results.{Result}
use ezgrpc.MultiThreaded.Answers.{Answered, handle_opool-Answered}
use ezgrpc.MultiThreaded.Reads.{AllFor}
use ezgrpc.MultiThreaded.Reaches.{Reaches, started, handled, ordered_turn, GoesOn, Reaches-GoesOn}

abbrev program : Program
program = record {
  path_userdata = λ pointer.
      if pointer == 40
      then some (record { is_unary = false; callback = path0 })
      else if pointer == 41
      then some (record { is_unary = true; callback = path1 })
      else none;
}

abbrev event : EventKind → Option ℕ → Event
event kind userdata = record { session_uuid = uuid; kind = kind; userdata = userdata }

abbrev happened : List Event
happened =
    event EventKind.connect none
    ∷ event (EventKind.message (hi ∷ hi ∷ []) 1 true) (some 40)
    ∷ event (EventKind.dataloss 1) (some 41)
    ∷ []

abbrev service : Service Server
service = server_service 5 ng submit

happened-Holds : Holds (events_of happened 3 61) happened
happened-Holds = record {
  sized = (refl, tt);
  low = omega arith;
  high = omega arith;
  room = λ h. (λ e. cc);
  is = refl;
}

all_for : AllFor service (server_laws ng 5 submit 2 ng-Works ng-Steady) program happened
unfolding server_laws
all_for = (
  ((omega arith, omega arith), tt),
  (
    ((omega arith, omega arith), (record { is_unary = false; callback = path0 }, refl)),
    (((omega arith, omega arith), (record { is_unary = true; callback = path1 }, refl)), tt),
  ),
)

abbrev first_app : App Server
first_app = start (server_with (events_of happened 3 61))

abbrev or_else : App Server → Option (App Server) → App Server
or_else app none = app
or_else app (some app') = app'

abbrev second_app : App Server
second_app = or_else first_app (handle_events service program true 4 first_app)

abbrev third_app : App Server
third_app = or_else first_app (step_opool true (λ i. i) 0 0 second_app)

begun : Reaches service (server_laws ng 5 submit 2 ng-Works ng-Steady) program first_app happened
unfolding server_laws
begun =
    started (server_with (events_of happened 3 61)) happened
      (server-IsHeld (events_of happened 3 61) happened happened-Holds) all_for

-- The one message is a task of the ordered pool, and the loss one of the other.
handed_over :
    handle_events service program true 4 first_app ≡ some second_app
    × (map (λ (t : Task). t.address) second_app.opool.shared.queue ≡ 1 ∷ [])
    × (map (λ (t : Task). t.address) second_app.upool.shared.queue ≡ 2 ∷ [])
unfolding handle_events handle_array handle_event handle_event_message handle_event_dataloss
    hand_over create_userdata add_to_pool add_task add_task2 server_service events_read start
    pool_new
handed_over = (refl, refl, refl)

turned : step_opool true (λ i. i) 0 0 second_app ≡ some third_app
unfolding handle_events handle_array handle_event handle_event_message handle_event_dataloss
    hand_over create_userdata add_to_pool add_task add_task2 server_service events_read start
    pool_new step_opool run_task worker
turned = refl

Reaches-GoesOn_example :
    GoesOn service (server_laws ng 5 submit 2 ng-Works ng-Steady) program third_app []
Reaches-GoesOn_example =
    Reaches-GoesOn service (server_laws ng 5 submit 2 ng-Works ng-Steady) program (
      ordered_turn second_app third_app [] (λ i. i) 0 0
        (handled first_app second_app happened 4 begun (omega arith) handed_over.0) turned)

abbrev reply : UserData
reply = record {
  stream_id = 1;
  session_uuid = uuid;
  end_stream = true;
  status = 0;
  imessages = some (hi ∷ []);
  omessages = some (hi ∷ hi ∷ []);
  callback = path0;
}

abbrev result : Result
result = record { task = record (task 1) { ret = 1 }; userdata = reply; messages = hi ∷ hi ∷ [] }

-- A task has been run.
abbrev finished_app : App Server
finished_app = record {
  server = server_with (events_of happened 3 61);
  opool = record {
    shared = record {
      queue = [];
      finished = record (task 1) { ret = 1 } ∷ [];
      running = 0;
      live = 1;
      stop = false;
    };
    workers = Worker.waiting ∷ [];
  };
  upool = pool_new 2;
  heap = λ a. if a == 1 then some reply else none;
  fresh = 2;
  answers = [];
}

handle_opool-Answered_example :
    Answered service
      (server_laws ng 5 submit 2 ng-Works ng-Steady)
      (record finished_app { opool = (poll [] finished_app.opool).0 })
      (result ∷ [])
      happened
      (handle_opool service finished_app)
    × ((poll [] finished_app.opool).0.shared.finished ≡ [])
unfolding server_laws
handle_opool-Answered_example =
    handle_opool-Answered service (server_laws ng 5 submit 2 ng-Works ng-Steady) finished_app
      (result ∷ []) happened (server-IsHeld (events_of happened 3 61) happened happened-Holds)
      ((
        record { in_time = refl; at = refl; out = refl; known = (omega arith, omega arith) },
        tt,
        tt,
      ))
      refl

-- The responses of a callback carry the values of the counter.
five_messages :
    map
      (λ (m : Message). m.payload)
      (rounds 2 (λ i. 258 + i) (record { cflag = 0; len = 5; payload = 1 ∷ 1 ∷ 1 ∷ 1 ∷ 9 ∷ [] }))
    ≡ (2 ∷ 1 ∷ 0 ∷ 0 ∷ 9 ∷ []) ∷ (3 ∷ 1 ∷ 0 ∷ 0 ∷ 9 ∷ []) ∷ []
unfolding rounds
five_messages = refl
