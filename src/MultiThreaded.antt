-- ===== src/MultiThreaded.antt =====
-- examples/multi_threaded.c: the requests are handed to two thread pools, and the results are polled
-- and sent, over the calls of `Service`.
pub mod Tasks
pub mod Results
pub mod Answers
pub mod Pools
pub mod Turns
pub mod Added
pub mod Polled
pub mod Handles
pub mod Handed
pub mod Reads
pub mod Reaches
mod Tests
use ezgrpc.Prelude.{
  ℕ, zero, suc, ◌+◌, Bool, true, false, not, ◌&&◌, ◌||◌, Option, none, some, List, [], ◌∷◌, ◌++◌,
  length, take, get_elem?, if◌then◌else◌, ◌==◌, ltb,
}
use ezgrpc.Wire.{Message, message_new}
use ezgrpc.Event.{SessionUuid, Event, EventKind}
use ezgrpc.Service.{Service}
use ezgrpc.Pool.{Task, Worker, Pool, pool_new, add_task, poll, worker}
use ezgrpc.SingleThreaded.{
  PathCallback, path0, path1, PathUserdata, Program, Answer, sent, ended, status_ok,
  status_invalid_argument, status_data_loss, text0, text1, write_u32,
}

-- `struct userdata_t`, and the function of the task that is added with it.
pub record UserData : Type 0 where
  pub stream_id : ℕ
  pub session_uuid : SessionUuid
  pub end_stream : Bool
  pub status : ℕ
  pub imessages : Option (List Message)
  pub omessages : Option (List Message)
  pub callback : PathCallback

-- The structs that are allocated, by their addresses.
abbrev pub Heap : Type 0
Heap = ℕ → Option UserData

abbrev pub put : ℕ → Option UserData → Heap → Heap
put a v heap = λ b. if b == a then v else heap b

-- The server, the two pools, the heap with the next address that is free, and the calls on the server
-- so far.
pub record App (S : Type 0) : Type 0 where
  pub server : S
  pub opool : Pool
  pub upool : Pool
  pub heap : Heap
  pub fresh : ℕ
  pub answers : List Answer

-- `none` is a write to NULL, where `malloc` has no room.
unfoldable pub create_userdata :
    {S : Type 0}
    → (malloc_ok : Bool) → SessionUuid
    → ℕ
    → List Message
    → Bool
    → ℕ
    → PathCallback
    → App S
    → Option (App S × ℕ)
create_userdata malloc_ok uuid id messages end_stream status callback app =
    if malloc_ok
    then some (
      record app {
        heap =
            put app.fresh
              (some (record {
                stream_id = id;
                session_uuid = uuid;
                end_stream = end_stream;
                status = status;
                imessages = some messages;
                omessages = none;
                callback = callback;
              }))
              app.heap;
        fresh = app.fresh + 1;
      },
      app.fresh,
    )
    else none

-- `none` is a second free, or one of what was never allocated.
unfoldable pub free_userdata : ℕ → Heap → Option Heap
free_userdata a heap = elim (heap a) [ none ↦ none | some u ↦ some (put a none heap) ]

-- `n` rounds of the loop of a callback. `seen i` is the value of the atomic counter `pp` in round `i`,
-- which the callbacks of other workers change meanwhile.
unfoldable pub rounds : ℕ → (ℕ → ℕ) → Message → List Message
rounds zero seen m = []
rounds (suc n) seen m = write_u32 (seen 0) m ∷ rounds n (λ i. seen (suc i)) m

unfoldable pub callback_path0 : (ℕ → ℕ) → UserData → UserData
unfolding rounds
callback_path0 seen u =
    if u.status == status_ok
    then record u { omessages = some (rounds 5 seen (message_new 0 text0 11)) }
    else record u { omessages = some [] }

unfoldable pub callback_path1 : (ℕ → ℕ) → UserData → UserData
unfolding rounds
callback_path1 seen u =
    if u.status == status_ok
    then record u { omessages = some (rounds 5 seen (message_new 0 text1 11)); imessages = none }
    else record u { omessages = some [] }

abbrev pub run_callback : (ℕ → ℕ) → UserData → UserData
run_callback seen u = elim u.callback [
  | path0 ↦ callback_path0 seen u
  | path1 ↦ callback_path1 seen u
]

-- The pools that `main` makes: the tasks of the one are to be done in order.
unfoldable pub start : {S : Type 0} → S → App S
start server = record {
  server = server;
  opool = pool_new 1;
  upool = pool_new 2;
  heap = λ a. none;
  fresh = 1;
  answers = [];
}

-- The task of `ezgrpc2_pthpool_add_task(pool, callback, data, NULL, NULL)`: the callback returns the
-- pointer that it is given.
abbrev pub task : ℕ → Task
task a = record {
  address = a;
  is_timeout = false;
  timeout = 0;
  func = λ userdata. userdata;
  userdata = a;
  ret = 0;
  has_userdata_cleanup = false;
  has_ret_cleanup = false;
}

-- Unary requests go to the one pool and the others to the other.
unfoldable pub add_to_pool : {S : Type 0} → Bool → ℕ → App S → App S
unfolding add_task
add_to_pool is_unary a app =
    if is_unary
    then record app { upool = (add_task true (task a) app.upool).0 }
    else record app { opool = (add_task true (task a) app.opool).0 }

-- The next step of a worker: to run a task is to call its callback. `none` is a callback that is given
-- a struct that is not there, or that writes a response where the machine does not take the store of
-- a `uint32_t` at an address that four does not divide: `msg->data` is at offset 5 of its block.
unfoldable pub run_task : (unaligned : Bool) → (ℕ → ℕ) → Pool → ℕ → Heap → Option Heap
unfolding callback_path0 callback_path1
run_task unaligned seen pool i heap = elim (get_elem? pool.workers i) [
  | some (Worker.working t) ↦ elim (heap t.userdata) [
    | none ↦ none
    | some u ↦
        if unaligned || not (u.status == status_ok)
        then some (put t.userdata (some (run_callback seen u)) heap)
        else none
  ]
  | _ ↦ some heap
]

unfoldable pub step_opool :
    {S : Type 0} → (unaligned : Bool) → (ℕ → ℕ) → ℕ → ℕ → App S → Option (App S)
unfolding run_task worker
step_opool unaligned seen now i app = elim (run_task unaligned seen app.opool i app.heap) [
  | none ↦ none
  | some heap ↦ some (record app { heap = heap; opool = worker now i app.opool })
]

unfoldable pub step_upool :
    {S : Type 0} → (unaligned : Bool) → (ℕ → ℕ) → ℕ → ℕ → App S → Option (App S)
unfolding run_task worker
step_upool unaligned seen now i app = elim (run_task unaligned seen app.upool i app.heap) [
  | none ↦ none
  | some heap ↦ some (record app { heap = heap; upool = worker now i app.upool })
]

-- `create_userdata` and the call that adds the task.
unfoldable pub hand_over :
    {S : Type 0}
    → (malloc_ok : Bool) → PathUserdata
    → SessionUuid
    → ℕ
    → List Message
    → Bool
    → ℕ
    → App S
    → Option (App S)
unfolding create_userdata add_to_pool
hand_over malloc_ok path uuid id messages end_stream status app =
    elim (create_userdata malloc_ok uuid id messages end_stream status path.callback app) [
      | none ↦ none
      | some (app', userdata) ↦ some (add_to_pool path.is_unary userdata app')
    ]

module _ {S : Type 0} (service : Service S) where
  -- `ezgrpc2_server_session_stream_end`, whose result is not looked at.
  unfoldable pub answer_end : SessionUuid → ℕ → ℕ → App S → Option (App S)
  answer_end uuid id status app = elim (service.stream_end uuid id status app.server) [
    | none ↦ none
    | some (res, s) ↦
        some (record app { server = s; answers = app.answers ++ ended uuid id status res ∷ [] })
  ]

  -- What is done with a result that has been polled and not timed out.
  unfoldable pub send_result : ℕ → App S → Option (App S)
  unfolding answer_end
  send_result a app = elim (app.heap a) [
    | none ↦ none
    | some userdata ↦ elim userdata.omessages [
      | none ↦ none
      | some messages ↦
          elim (service.stream_send userdata.session_uuid userdata.stream_id messages app.server) [
            | none ↦ none
            | some (res, s) ↦
                let app' : App S = record app {
                  server = s;
                  answers =
                      app.answers
                      ++ sent userdata.session_uuid userdata.stream_id messages res ∷ [];
                } in
                let last =
                  answer_end userdata.session_uuid userdata.stream_id userdata.status app' in
                if res == 0
                then (if userdata.end_stream then last else some app')
                else if ltb res 4
                then some app'
                else none
          ]
    ]
  ]

  -- The body of the loop of `handle_thread_pool`.
  unfoldable pub handle_result : Task → App S → Option (App S)
  unfolding send_result free_userdata
  handle_result t app =
      let timed_out : Option (App S) = elim (free_userdata t.userdata app.heap) [
        | none ↦ none
        | some heap ↦ some (record app { heap = heap })
      ] in
      let in_time : Option (App S) = elim (send_result t.ret app) [
        | none ↦ none
        | some app' ↦ elim (free_userdata t.ret app'.heap) [
          | none ↦ none
          | some heap ↦ some (record app' { heap = heap })
        ]
      ] in
      if t.is_timeout then timed_out else in_time

  unfoldable pub handle_results : List Task → App S → Option (App S)
  unfolding handle_result
  handle_results [] app = some app
  handle_results (t ∷ ts) app = elim (handle_result t app) [
    | none ↦ none
    | some app' ↦ handle_results ts app'
  ]

  -- `handle_thread_pool(server, ordered_pool)`
  unfoldable pub handle_opool : App S → Option (App S)
  unfolding handle_results poll
  handle_opool app =
      let (pool, lresults) = poll [] app.opool in
      handle_results lresults (record app { opool = pool })

  -- `handle_thread_pool(server, unordered_pool)`
  unfoldable pub handle_upool : App S → Option (App S)
  unfolding handle_results poll
  handle_upool app =
      let (pool, lresults) = poll [] app.upool in
      handle_results lresults (record app { upool = pool })

  module _ (program : Program) where
    abbrev pub path_of : Event → Option PathUserdata
    path_of event = elim event.userdata [
      | none ↦ none
      | some pointer ↦ program.path_userdata pointer
    ]

    unfoldable pub handle_event_message :
        (malloc_ok : Bool) → Event → List Message → ℕ → Bool → App S → Option (App S)
    unfolding answer_end hand_over
    handle_event_message malloc_ok event messages id end_stream app = elim (path_of event) [
      | none ↦ none
      | some path ↦
          if path.is_unary && (not end_stream || not (length messages == 1))
          then answer_end event.session_uuid id status_invalid_argument app
          else hand_over malloc_ok path event.session_uuid id messages end_stream status_ok app
    ]

    unfoldable pub handle_event_dataloss : (malloc_ok : Bool) → Event → ℕ → App S → Option (App S)
    unfolding hand_over
    handle_event_dataloss malloc_ok event id app = elim (path_of event) [
      | none ↦ none
      | some path ↦ hand_over malloc_ok path event.session_uuid id [] true status_data_loss app
    ]

    -- The `switch` on the type of the event.
    unfoldable pub handle_event : (malloc_ok : Bool) → Event → App S → Option (App S)
    unfolding handle_event_message handle_event_dataloss
    handle_event malloc_ok event app = elim event.kind [
      | EventKind.message ms id end ↦ handle_event_message malloc_ok event ms id end app
      | EventKind.dataloss id ↦ handle_event_dataloss malloc_ok event id app
      | EventKind.cancel id ↦ some app
      | EventKind.connect ↦ some app
      | EventKind.disconnect ↦ some app
    ]

    -- The events of an array; one that was never written has no type.
    unfoldable pub handle_array : (malloc_ok : Bool) → List (Option Event) → App S → Option (App S)
    unfolding handle_event
    handle_array malloc_ok [] app = some app
    handle_array malloc_ok (none ∷ es) app = none
    handle_array malloc_ok (some event ∷ es) app = elim (handle_event malloc_ok event app) [
      | none ↦ none
      | some app' ↦ handle_array malloc_ok es app'
    ]

    -- `while ((event = ezgrpc2_events_read(events, &nb_event)) != NULL)`, on fuel.
    unfoldable pub handle_events : (malloc_ok : Bool) → ℕ → App S → Option (App S)
    unfolding handle_array
    handle_events malloc_ok zero app = none
    handle_events malloc_ok (suc fuel) app =
        let (read, s) = service.read app.server in
        elim read [
          | none ↦ some (record app { server = s })
          | some (block, nb_event) ↦
              elim (handle_array malloc_ok (take nb_event block) (record app { server = s })) [
                | none ↦ none
                | some app' ↦ handle_events malloc_ok fuel app'
              ]
        ]
