-- ===== src/MultiThreaded/Reads.antt =====
-- The events that the program reads, as they keep the pools right.
use ezgrpc.Prelude.{
  ℕ, zero, suc, ◌<◌, ◌≡◌, ◌≢◌, ◌⊎◌, inl, inr, refl, sym, ap, subst, Option, Bool, true, some, List,
  [], ◌∷◌, ◌++◌, map, length, length-append, arith, Bool-cases,
}
use ezgrpc.Wire.{Message}
use ezgrpc.Event.{Event, EventKind}
use ezgrpc.Service.{Service, IsService}
use ezgrpc.SingleThreaded.{
  PathUserdata, Program, ended, status_ok, status_invalid_argument, status_data_loss,
}
use ezgrpc.SingleThreaded.Answers.{malformed}
use ezgrpc.MultiThreaded.{
  App, answer_end, path_of, handle_event_message, handle_event_dataloss, handle_event, handle_array,
  handle_events,
}
use ezgrpc.MultiThreaded.Handles.{IsSafe, handed-IsSafe, hand_over-handed}
use ezgrpc.MultiThreaded.Handed.{
  Asks, Takes, refused, Did, Did-nothing, Did-join, passed-Did, answered-Did, handed-Did,
}

module _ {S : Type 0} (service : Service S) (laws : IsService S service) where
  module _ (program : Program) where
    -- A MESSAGE and a DATALOSS are for a registered path.
    abbrev pub IsFor : EventKind → Event → Type 0
    IsFor (EventKind.message ms id end) event =
        (path : PathUserdata) × (path_of service program event ≡ some path)
    IsFor (EventKind.dataloss id) event =
        (path : PathUserdata) × (path_of service program event ≡ some path)
    IsFor kind event = Unit {0}

    abbrev pub AllFor : List Event → Type 0
    AllFor [] = Unit {0}
    AllFor (e ∷ es) = (laws.Known e.session_uuid × IsFor e.kind e) × AllFor es

    -- The program returns, and has done its part for the events `ys`.
    pub record Hands (ys : List Event) (app : App S) (xs : List Event) (o : Option (App S))
        : Type 0 where
      pub after : App S
      pub is : o ≡ some after
      pub safe : IsSafe service laws after xs
      pub did : Did service program ys app after

    module _ (app : App S) (xs : List Event) (safe : IsSafe service laws app xs) (event : Event)
        (known : laws.Known event.session_uuid) where
      answer_end-Hands :
          (id status : ℕ)
          → ((res : ℕ)
              → Takes service program event app.heap app.fresh
                  (ended event.session_uuid id status res ∷ [])
                  []
                  [])
          → Hands (event ∷ []) app xs (answer_end service event.session_uuid id status app)
      unfolding answer_end
      answer_end-Hands id status takes =
          let r = laws.finishes event.session_uuid id status app.server xs known safe.good in
          rw (r.is, answer_end)
            (record {
              after = record app {
                server = r.after;
                answers = app.answers ++ ended event.session_uuid id status r.res ∷ [];
              };
              is = refl;
              safe = record { good = r.good; pools = safe.pools };
              did = answered-Did service program event app r.after _ (takes r.res);
            })

      message-Hands :
          (ms : List Message) (id : ℕ) (end : Bool) (path : PathUserdata)
          → event.kind ≡ EventKind.message ms id end
          → path_of service program event ≡ some path
          → Hands
              (event ∷ [])
              app
              xs
              (handle_event_message service program true event ms id end app)
      unfolding handle_event_message
      message-Hands ms id end path kind e =
          rw (e, handle_event_message)
            (elim (Bool-cases (malformed path ms end)) [
              | inl bad ↦ rw bad (
                  answer_end-Hands id status_invalid_argument
                    (λ res. refused ms id end path res kind e bad))
              | inr fine ↦ rw fine (record {
                after = _;
                is = hand_over-handed path event.session_uuid id ms end status_ok app;
                safe =
                    handed-IsSafe service laws app xs safe path event.session_uuid id ms end
                      status_ok known;
                did =
                    handed-Did service program event app path ms id end status_ok
                      (Asks.message ms id end kind e fine);
              })
            ])

      dataloss-Hands :
          (id : ℕ) (path : PathUserdata)
          → event.kind ≡ EventKind.dataloss id
          → path_of service program event ≡ some path
          → Hands (event ∷ []) app xs (handle_event_dataloss service program true event id app)
      unfolding handle_event_dataloss
      dataloss-Hands id path kind e =
          rw (e, handle_event_dataloss)
            (record {
              after = _;
              is = hand_over-handed path event.session_uuid id [] true status_data_loss app;
              safe =
                  handed-IsSafe service laws app xs safe path event.session_uuid id [] true
                    status_data_loss known;
              did =
                  handed-Did service program event app path [] id true status_data_loss
                    (Asks.dataloss id kind e);
            })

      loss :
          (id : ℕ)
          → event.kind ≡ EventKind.dataloss id
          → handle_event service program true event app
            ≡ handle_event_dataloss service program true event id app
      unfolding handle_event
      loss id e = ground arith

      asked :
          (ms : List Message) (id : ℕ) (end : Bool)
          → event.kind ≡ EventKind.message ms id end
          → handle_event service program true event app
            ≡ handle_event_message service program true event ms id end app
      unfolding handle_event
      asked ms id end e = ground arith

      event-Hands :
          IsFor event.kind event
          → Hands (event ∷ []) app xs (handle_event service program true event app)
      unfolding handle_event
      event-Hands h = by_kind event.kind refl h
        where
          still :
              (event.kind ≡ EventKind.connect)
                ⊎ ((event.kind ≡ EventKind.disconnect)
                    ⊎ ((id : ℕ) × (event.kind ≡ EventKind.cancel id)))
              → handle_event service program true event app ≡ some app
              → Hands (event ∷ []) app xs (handle_event service program true event app)
          still k e = record {
            after = app;
            is = e;
            safe = safe;
            did = passed-Did service program event app k;
          }

          by_kind :
              (kind : EventKind)
              → event.kind ≡ kind
              → IsFor kind event
              → Hands (event ∷ []) app xs (handle_event service program true event app)
          by_kind EventKind.connect e h = still (inl e) (ground arith)
          by_kind EventKind.disconnect e h = still (inr (inl e)) (ground arith)
          by_kind (EventKind.cancel id) e h = still (inr (inr (id, e))) (ground arith)
          by_kind (EventKind.dataloss id) e h = rw (loss id e) (dataloss-Hands id h.0 e h.1)
          by_kind (EventKind.message ms id end) e h =
              rw (asked ms id end e) (message-Hands ms id end h.0 e h.1)

    array-Hands :
        (ys xs : List Event) (app : App S)
        → IsSafe service laws app xs
        → AllFor ys
        → Hands ys app xs (handle_array service program true (map some ys) app)
    unfolding handle_array
    array-Hands [] xs app safe h = record {
      after = app;
      is = refl;
      safe = safe;
      did = Did-nothing service program app app.server;
    }
    array-Hands (y ∷ ys) xs app safe h =
        let s = event-Hands app xs safe y h.0.0 h.0.1 in
        let r = array-Hands ys xs s.after s.safe h.1 in
        rw (s.is, handle_array)
          (record {
            after = r.after;
            is = r.is;
            safe = r.safe;
            did = Did-join service program (y ∷ []) ys app s.after r.after s.did r.did;
          })

    AllFor-append : (xs ys : List Event) → AllFor (xs ++ ys) → AllFor xs × AllFor ys
    AllFor-append [] ys h = (tt, h)
    AllFor-append (x ∷ xs) ys h = let r = AllFor-append xs ys h.1 in ((h.0, r.0), r.1)

    nonempty : (xs : List Event) → xs ≢ [] → 0 < length xs
    nonempty [] h = absurd (h refl)
    nonempty (x ∷ xs) h = omega arith

    pub handle_events-Hands :
        (fuel : ℕ) (xs : List Event) (app : App S)
        → IsSafe service laws app xs
        → AllFor xs
        → length xs < fuel
        → Hands xs app [] (handle_events service program true fuel app)
    unfolding handle_events
    handle_events-Hands zero xs app safe h enough = absurd (omega arith)
    handle_events-Hands (suc fuel) xs app safe h enough =
        let s = (service.read app.server).1 in
        elim (laws.reads app.server xs safe.good) [
          | inr none_left ↦
              rw (none_left.given, handle_events)
                (record {
                  after = record app { server = s };
                  is = refl;
                  safe = record { good = none_left.good; pools = safe.pools };
                  did =
                      subst (λ ys. Did service program ys app (record app { server = s }))
                        (sym none_left.nothing) (Did-nothing service program app s);
                })
          | inl some_left ↦
              let split =
                AllFor-append some_left.first some_left.rest (subst AllFor some_left.split h) in
              let read : App S = record app { server = s } in
              let a =
                array-Hands some_left.first some_left.rest read
                  (record { good = some_left.good; pools = safe.pools }) split.0 in
              let r = handle_events-Hands fuel some_left.rest a.after a.safe split.1 (
                omega (
                  arith,
                  ap length some_left.split,
                  length-append some_left.first some_left.rest,
                  nonempty some_left.first some_left.more,
                )) in
              let first =
                Did-join service program [] some_left.first app read a.after
                  (Did-nothing service program app s) a.did in
              rw (some_left.given, handle_events)
                (rw some_left.entries (
                  rw (a.is, handle_events)
                    (record {
                      after = r.after;
                      is = r.is;
                      safe = r.safe;
                      did =
                          subst (λ ys. Did service program ys app r.after) (sym some_left.split)
                            (Did-join service program some_left.first some_left.rest app a.after
                              r.after first r.did);
                    })))
        ]
