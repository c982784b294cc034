-- ===== src/SingleThreaded/Steps.antt =====
-- What the single threaded server does with one event.
use ezgrpc.Prelude.{
  ℕ, ◌≡◌, ◌≢◌, ◌⊎◌, inl, inr, refl, sym, ap, ◌∙◌, subst, Bool, true, false, Option, some, List, [],
  ◌∷◌, ◌++◌, append_assoc, append-nil, arith, ◌==◌, ltb, Bool-cases,
}
use ezgrpc.Wire.{Message}
use ezgrpc.Event.{SessionUuid, Event, EventKind}
use ezgrpc.Service.{Service, IsService}
use ezgrpc.SingleThreaded.{
  PathUserdata, Program, Answer, sent, ended, App, status_ok, status_invalid_argument,
  status_data_loss, run_callback, answer_end, process, handle_event_message, handle_event_dataloss,
  handle_event,
}
use ezgrpc.SingleThreaded.Answers.{malformed, Says, passed, lost, refused, answered, completed}

module _ {S : Type 0} (service : Service S) (laws : IsService S service) (program : Program) where
  -- An event of a session that the table has room for; a MESSAGE is for a registered path.
  abbrev pub IsFor : EventKind → Option ℕ → Type 0
  IsFor (EventKind.message ms id end) userdata =
      (pointer : ℕ) × (path : PathUserdata) × (userdata ≡ some pointer)
      × (program.path_userdata pointer ≡ some path)
  IsFor kind userdata = Unit {0}

  abbrev pub AllFor : List Event → Type 0
  AllFor [] = Unit {0}
  AllFor (e ∷ es) = (laws.Known e.session_uuid × IsFor e.kind e.userdata) × AllFor es

  pub record Step (P : List Answer → ℕ → Type 0) (app : App S) (xs : List Event)
      (o : Option (App S)) : Type 0 where
    pub after : App S
    pub new : List Answer
    pub is : o ≡ some after
    pub good : laws.Good after.server xs
    pub answers : after.answers ≡ app.answers ++ new
    pub says : P new after.pp

  module _ (app : App S) (xs : List Event) (good : laws.Good app.server xs) where
    answer_end-Step :
        (P : List Answer → ℕ → Type 0) (u : SessionUuid) (id status : ℕ)
        → laws.Known u
        → ((res : ℕ) → P (ended u id status res ∷ []) app.pp)
        → Step P app xs (answer_end service program u id status app)
    unfolding answer_end
    answer_end-Step P u id status known says =
        let r = laws.finishes u id status app.server xs known good in
        rw (r.is, answer_end)
          (record {
            after = record app {
              server = r.after;
              answers = app.answers ++ ended u id status r.res ∷ [];
            };
            new = ended u id status r.res ∷ [];
            is = refl;
            good = r.good;
            answers = refl;
            says = says r.res;
          })

  module _ (app : App S) (xs : List Event) (good : laws.Good app.server xs) where
    module _ (event : Event) (messages : List Message) (id : ℕ) (end_stream : Bool) (pointer : ℕ)
        (path : PathUserdata) (known : laws.Known event.session_uuid)
        (kind : event.kind ≡ EventKind.message messages id end_stream)
        (userdata : event.userdata ≡ some pointer)
        (registered : program.path_userdata pointer ≡ some path) where
      -- The stream is ended after the messages have been sent.
      abbrev after_send : S → ℕ → App S
      after_send s res = record {
        server = s;
        pp = (run_callback path.callback app.pp).1;
        answers =
            app.answers
            ++ sent event.session_uuid id (run_callback path.callback app.pp).0 res ∷ [];
      }

      both_calls :
          (s : S) (res : ℕ)
          → laws.Good s xs
          → res ≡ 0
          → end_stream ≡ true
          → malformed path messages end_stream ≡ false
          → Step
              (Says program app.pp event)
              app
              xs
              (answer_end service program event.session_uuid id status_ok (after_send s res))
      both_calls s res good' ok ends fine =
          let out = run_callback path.callback app.pp in
          let f =
            answer_end-Step (after_send s res) xs good'
              (λ new pp. Says program app.pp event (sent event.session_uuid id out.0 res ∷ new) pp)
              event.session_uuid id status_ok known
              (λ last.
                subst
                  (λ n.
                    Says program app.pp event
                      (sent event.session_uuid id out.0 n
                        ∷ ended event.session_uuid id status_ok last
                        ∷ [])
                      out.1)
                  (sym ok)
                  (completed messages id pointer path last
                    (kind ∙ ap (λ b. EventKind.message messages id b) ends) userdata registered
                    (subst (λ b. malformed path messages b ≡ false) ends fine))) in
          record {
            after = f.after;
            new = sent event.session_uuid id out.0 res ∷ f.new;
            is = f.is;
            good = f.good;
            answers =
                f.answers
                ∙ append_assoc app.answers (sent event.session_uuid id out.0 res ∷ []) f.new;
            says = f.says;
          }

      process-Step :
          malformed path messages end_stream ≡ false
          → Step
              (Says program app.pp event)
              app
              xs
              (process service program path event.session_uuid id end_stream app)
      unfolding process
      process-Step fine =
          let out = run_callback path.callback app.pp in
          let r = laws.sends event.session_uuid id out.0 app.server xs known good in
          let stops : (r.res ≢ 0) ⊎ (end_stream ≡ false)
              → Step (Says program app.pp event) app xs (some (after_send r.after r.res)) =
            λ h. record {
              after = after_send r.after r.res;
              new = sent event.session_uuid id out.0 r.res ∷ [];
              is = refl;
              good = r.good;
              answers = refl;
              says =
                  answered messages id end_stream pointer path r.res kind userdata registered fine
                    h;
            } in
          rw (r.is, process)
            (elim (Bool-cases (r.res == 0)) [
              | inr bad ↦
                  let in_range : ltb r.res 4 ≡ true = ground (arith, r.small) in
                  rw (bad, in_range) (stops (inl (ground (arith, bad))))
              | inl ok ↦ rw ok (elim (Bool-cases end_stream) [
                | inr open_ended ↦ rw open_ended (stops (inr open_ended))
                | inl ends ↦ rw ends (both_calls r.after r.res r.good (ground arith) ends fine)
              ])
            ])

      message_refused :
          malformed path messages end_stream ≡ true
          → handle_event_message service program event messages id end_stream app
            ≡ answer_end service program event.session_uuid id status_invalid_argument app
      unfolding handle_event_message
      message_refused bad =
          rw (userdata, handle_event_message) (rw (registered, handle_event_message) (rw bad refl))

      message_taken :
          malformed path messages end_stream ≡ false
          → handle_event_message service program event messages id end_stream app
            ≡ process service program path event.session_uuid id end_stream app
      unfolding handle_event_message
      message_taken fine =
          rw (userdata, handle_event_message) (rw (registered, handle_event_message) (rw fine refl))

      message-Step :
          Step
            (Says program app.pp event)
            app
            xs
            (handle_event_message service program event messages id end_stream app)
      message-Step = elim (Bool-cases (malformed path messages end_stream)) [
        | inl bad ↦ subst (Step (Says program app.pp event) app xs) (sym (message_refused bad)) (
            answer_end-Step app xs good (Says program app.pp event) event.session_uuid id
              status_invalid_argument known
              (λ res. refused messages id end_stream pointer path res kind userdata registered bad))
        | inr fine ↦
            subst (Step (Says program app.pp event) app xs) (sym (message_taken fine))
              (process-Step fine)
      ]

    module _ (event : Event) where
      loss :
          (id : ℕ)
          → event.kind ≡ EventKind.dataloss id
          → handle_event service program event app
            ≡ answer_end service program event.session_uuid id status_data_loss app
      unfolding handle_event handle_event_dataloss
      loss id e = ground arith

      request :
          (ms : List Message) (id : ℕ) (end : Bool)
          → event.kind ≡ EventKind.message ms id end
          → handle_event service program event app
            ≡ handle_event_message service program event ms id end app
      unfolding handle_event
      request ms id end e = ground arith

    -- One event.
    pub event-Step :
        (event : Event)
        → laws.Known event.session_uuid
        → IsFor event.kind event.userdata
        → Step (Says program app.pp event) app xs (handle_event service program event app)
    unfolding handle_event
    event-Step event known is_for = by_kind event.kind refl is_for
      where
        still :
            (event.kind ≡ EventKind.connect)
              ⊎ ((event.kind ≡ EventKind.disconnect)
                  ⊎ ((id : ℕ) × (event.kind ≡ EventKind.cancel id)))
            → handle_event service program event app ≡ some app
            → Step (Says program app.pp event) app xs (handle_event service program event app)
        still h e = rw e (record {
          after = app;
          new = [];
          is = refl;
          good = good;
          answers = sym (append-nil app.answers);
          says = passed h;
        })

        by_kind :
            (kind : EventKind)
            → event.kind ≡ kind
            → IsFor kind event.userdata
            → Step (Says program app.pp event) app xs (handle_event service program event app)
        by_kind EventKind.connect e h = still (inl e) (ground arith)
        by_kind EventKind.disconnect e h = still (inr (inl e)) (ground arith)
        by_kind (EventKind.cancel id) e h = still (inr (inr (id, e))) (ground arith)
        by_kind (EventKind.dataloss id) e h = rw (loss event id e) (
            answer_end-Step app xs good (Says program app.pp event) event.session_uuid id
              status_data_loss known (λ res. lost id res e))
        by_kind (EventKind.message ms id end) e (pointer, path, userdata, registered) =
            rw (request event ms id end e)
              (message-Step event ms id end pointer path known e userdata registered)
