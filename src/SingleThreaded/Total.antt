-- ===== src/SingleThreaded/Total.antt =====
-- All events that are held.
use ezgrpc.Prelude.{
  ℕ, zero, suc, ◌<◌, ◌≡◌, ◌≢◌, inl, inr, refl, sym, ap, ◌∙◌, subst, Option, some, List, [], ◌∷◌,
  ◌++◌, map, append_assoc, append-nil, length, arith, length-append,
}
use ezgrpc.Event.{Event}
use ezgrpc.Service.{Service, IsService}
use ezgrpc.SingleThreaded.{Program, Answer, App, handle_array, handle_events}
use ezgrpc.SingleThreaded.Answers.{AllSaid, AllSaid-append}
use ezgrpc.SingleThreaded.Steps.{AllFor, event-Step}

module _ {S : Type 0} (service : Service S) (laws : IsService S service) (program : Program) where
  -- The program returns with a server that holds the events `xs`, and has answered.
  pub record Answered (ys : List Event) (app : App S) (xs : List Event) (o : Option (App S))
      : Type 0 where
    pub after : App S
    pub new : List Answer
    pub is : o ≡ some after
    pub good : laws.Good after.server xs
    pub answers : after.answers ≡ app.answers ++ new
    pub says : AllSaid program ys app.pp new after.pp

  array-Answered :
      (ys xs : List Event) (app : App S)
      → laws.Good app.server xs
      → AllFor service laws program ys
      → Answered ys app xs (handle_array service program (map some ys) app)
  unfolding handle_array
  array-Answered [] xs app good h = record {
    after = app;
    new = [];
    is = refl;
    good = good;
    answers = sym (append-nil app.answers);
    says = (refl, refl);
  }
  array-Answered (y ∷ ys) xs app good h =
      let s = event-Step service laws program app xs good y h.0.0 h.0.1 in
      let r = array-Answered ys xs s.after s.good h.1 in
      rw (s.is, handle_array)
        (record {
          after = r.after;
          new = s.new ++ r.new;
          is = r.is;
          good = r.good;
          answers =
              r.answers ∙ ap (λ l. l ++ r.new) s.answers ∙ append_assoc app.answers s.new r.new;
          says = record {
            first = s.new;
            rest = r.new;
            pp = s.after.pp;
            whole = refl;
            one = s.says;
            others = r.says;
          };
        })

  AllFor-append :
      (xs ys : List Event)
      → AllFor service laws program (xs ++ ys)
      → AllFor service laws program xs × AllFor service laws program ys
  AllFor-append [] ys h = (tt, h)
  AllFor-append (x ∷ xs) ys h = let r = AllFor-append xs ys h.1 in ((h.0, r.0), r.1)

  nonempty : (xs : List Event) → xs ≢ [] → 0 < length xs
  nonempty [] h = absurd (h refl)
  nonempty (x ∷ xs) h = omega arith

  -- The server reads all events that it holds and answers each once, in the order in which they were
  -- written, none being left: nothing for CONNECT, DISCONNECT and CANCEL, DATA_LOSS for a loss,
  -- INVALID_ARGUMENT for a request that a unary service does not take, and for any other request the
  -- two messages of its path's callback, with OK behind them if they could be sent and the request is
  -- at its end. As many reads as there are events, and one, are enough.
  pub handle_events-Answered :
      (fuel : ℕ) (xs : List Event) (app : App S)
      → laws.Good app.server xs
      → AllFor service laws program xs
      → length xs < fuel
      → Answered xs app [] (handle_events service program fuel app)
  unfolding handle_events
  handle_events-Answered zero xs app good h enough = absurd (omega arith)
  handle_events-Answered (suc fuel) xs app good h enough = elim (laws.reads app.server xs good) [
    | inr none_left ↦
        rw (none_left.given, handle_events)
          (record {
            after = record app { server = (service.read app.server).1 };
            new = [];
            is = refl;
            good = none_left.good;
            answers = sym (append-nil app.answers);
            says =
                subst (λ ys. AllSaid program ys app.pp [] app.pp) (sym none_left.nothing)
                  (refl, refl);
          })
    | inl some_left ↦
        let split =
          AllFor-append some_left.first some_left.rest
            (subst (AllFor service laws program) some_left.split h) in
        let a =
          array-Answered some_left.first some_left.rest
            (record app { server = (service.read app.server).1 }) some_left.good split.0 in
        let r = handle_events-Answered fuel some_left.rest a.after a.good split.1 (
          omega (
            arith,
            ap length some_left.split,
            length-append some_left.first some_left.rest,
            nonempty some_left.first some_left.more,
          )) in
        rw (some_left.given, handle_events)
          (rw some_left.entries (
            rw (a.is, handle_events)
              (record {
                after = r.after;
                new = a.new ++ r.new;
                is = r.is;
                good = r.good;
                answers =
                    r.answers
                    ∙ ap (λ l. l ++ r.new) a.answers
                    ∙ append_assoc app.answers a.new r.new;
                says =
                    subst (λ ys. AllSaid program ys app.pp (a.new ++ r.new) r.after.pp)
                      (sym some_left.split)
                      (AllSaid-append program some_left.first some_left.rest app.pp a.after.pp
                        r.after.pp a.new r.new a.says r.says);
              })))
  ]
