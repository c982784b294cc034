-- ===== src/SingleThreaded.antt =====
-- examples/single_threaded.c: a server that answers each event at once, over the calls of `Service`.
pub mod Answers
pub mod Steps
pub mod Total
pub mod OnServer
mod Tests
use ezgrpc.Prelude.{
  ℕ, zero, suc, ◌+◌, ◌/◌, ◌%◌, ◌^◌, Bool, true, false, not, ◌&&◌, ◌||◌, Option, none, some, List,
  [], ◌∷◌, ◌++◌, length, take, drop, if◌then◌else◌, ◌==◌, ltb,
}
use ezgrpc.Wire.{Byte, Message, message_new}
use ezgrpc.Event.{SessionUuid, Event, EventKind}
use ezgrpc.Service.{Service}

-- The two callbacks of the program, and `struct path_userdata_t`.
pub data PathCallback : Type 0 where
  path0 path1 : PathCallback

pub record PathUserdata : Type 0 where
  pub is_unary : Bool
  pub callback : PathCallback

-- `path_userdata` of `main`, by the pointers that are registered with the paths; any other pointer is
-- not one to such a struct.
pub record Program : Type 0 where
  pub path_userdata : ℕ → Option PathUserdata

-- A call that is made, and what it returns.
pub data Answer : Type 0 where
  sent : (uuid : SessionUuid) (stream_id : ℕ) (messages : List Message) (res : ℕ) → Answer
  ended : (uuid : SessionUuid) (stream_id : ℕ) (status : ℕ) (res : ℕ) → Answer

-- The state of the server, the counter `pp`, which is an int, and the calls so far.
pub record App (S : Type 0) : Type 0 where
  pub server : S
  pub pp : ℕ
  pub answers : List Answer

-- EZGRPC2_GRPC_STATUS_OK, EZGRPC2_GRPC_STATUS_INVALID_ARGUMENT, EZGRPC2_GRPC_STATUS_DATA_LOSS
abbrev pub status_ok : ℕ
status_ok = 0

abbrev pub status_invalid_argument : ℕ
status_invalid_argument = 3

abbrev pub status_data_loss : ℕ
status_data_loss = 15

-- "    path0!" and "    path1!" with the zero byte at the end.
abbrev pub text0 : List Byte
text0 = 32 ∷ 32 ∷ 32 ∷ 32 ∷ 112 ∷ 97 ∷ 116 ∷ 104 ∷ 48 ∷ 33 ∷ 0 ∷ []

abbrev pub text1 : List Byte
text1 = 32 ∷ 32 ∷ 32 ∷ 32 ∷ 112 ∷ 97 ∷ 116 ∷ 104 ∷ 49 ∷ 33 ∷ 0 ∷ []

-- `*(uint32_t*)(msg->data) = pp` on a machine with the lowest byte first that takes the store at any
-- address (`msg->data` is at offset 5 of its block).
abbrev pub write_u32 : ℕ → Message → Message
write_u32 n m = record m {
  payload = n % 256 ∷ n / 2 ^ 8 % 256 ∷ n / 2 ^ 16 % 256 ∷ n / 2 ^ 24 % 256 ∷ drop 4 m.payload;
}

-- `n` rounds of the loop of a callback: the messages and the counter.
unfoldable pub respond : ℕ → List Byte → ℕ → List Message × ℕ
respond zero text pp = ([], pp)
respond (suc n) text pp =
    let (ms, pp') = respond n text ((pp + 1) % 2 ^ 32) in
    (write_u32 pp (message_new 0 text 11) ∷ ms, pp')

unfoldable pub callback_path0 : ℕ → List Message × ℕ
unfolding respond
callback_path0 pp = respond 2 text0 pp

unfoldable pub callback_path1 : ℕ → List Message × ℕ
unfolding respond
callback_path1 pp = respond 2 text1 pp

abbrev pub run_callback : PathCallback → ℕ → List Message × ℕ
run_callback path0 pp = callback_path0 pp
run_callback path1 pp = callback_path1 pp

module _ {S : Type 0} (service : Service S) (program : Program) where
  -- `ezgrpc2_server_session_stream_end`, whose result is not looked at.
  unfoldable pub answer_end : SessionUuid → ℕ → ℕ → App S → Option (App S)
  answer_end uuid id status app = elim (service.stream_end uuid id status app.server) [
    | none ↦ none
    | some (res, s) ↦
        some (record app { server = s; answers = app.answers ++ ended uuid id status res ∷ [] })
  ]

  -- From the call of the path's callback on.
  unfoldable pub process : PathUserdata → SessionUuid → ℕ → Bool → App S → Option (App S)
  unfolding answer_end
  process path uuid id end_stream app =
      let (messages, pp) = run_callback path.callback app.pp in
      elim (service.stream_send uuid id messages app.server) [
        | none ↦ none
        | some (res, s) ↦
            let app' : App S = record {
              server = s;
              pp = pp;
              answers = app.answers ++ sent uuid id messages res ∷ [];
            } in
            let last = answer_end uuid id status_ok app' in
            if res == 0
            then (if end_stream then last else some app')
            else if ltb res 4
            then some app'
            else none
      ]

  unfoldable pub handle_event_message : Event → List Message → ℕ → Bool → App S → Option (App S)
  unfolding answer_end process
  handle_event_message event messages id end_stream app = elim event.userdata [
    | none ↦ none
    | some pointer ↦ elim (program.path_userdata pointer) [
      | none ↦ none
      | some path ↦
          if path.is_unary && (not end_stream || not (length messages == 1))
          then answer_end event.session_uuid id status_invalid_argument app
          else process path event.session_uuid id end_stream app
    ]
  ]

  unfoldable pub handle_event_dataloss : Event → ℕ → App S → Option (App S)
  unfolding answer_end
  handle_event_dataloss event id app = answer_end event.session_uuid id status_data_loss app

  -- The `switch` on the type of the event.
  unfoldable pub handle_event : Event → App S → Option (App S)
  handle_event event app = elim event.kind [
    | EventKind.message ms id end ↦ handle_event_message event ms id end app
    | EventKind.dataloss id ↦ handle_event_dataloss event id app
    | EventKind.cancel id ↦ some app
    | EventKind.connect ↦ some app
    | EventKind.disconnect ↦ some app
  ]

  -- The events of an array; one that was never written has no type.
  unfoldable pub handle_array : List (Option Event) → App S → Option (App S)
  unfolding handle_event
  handle_array [] app = some app
  handle_array (none ∷ es) app = none
  handle_array (some event ∷ es) app = elim (handle_event event app) [
    | none ↦ none
    | some app' ↦ handle_array es app'
  ]

  -- `while ((event = ezgrpc2_events_read(events, &nb_event)) != NULL)`, on fuel.
  unfoldable pub handle_events : ℕ → App S → Option (App S)
  unfolding handle_array
  handle_events zero app = none
  handle_events (suc fuel) app =
      let (read, s) = service.read app.server in
      elim read [
        | none ↦ some (record app { server = s })
        | some (block, nb_event) ↦
            elim (handle_array (take nb_event block) (record app { server = s })) [
              | none ↦ none
              | some app' ↦ handle_events fuel app'
            ]
      ]
