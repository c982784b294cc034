-- ===== src/MultiThreaded/Results.antt =====
-- `handle_thread_pool`: what becomes of the results of a pool.
use ezgrpc.Prelude.{
  ℕ, ◌≡◌, ◌≢◌, ◌⊎◌, inl, inr, refl, sym, ap, ◌∙◌, true, false, Option, none, some, List, [], ◌∷◌,
  ◌++◌, append_assoc, arith, ◌==◌, ltb, Bool-cases,
}
use ezgrpc.Wire.{Message}
use ezgrpc.Event.{Event}
use ezgrpc.Service.{Service, IsService}
use ezgrpc.Pool.{Task}
use ezgrpc.SingleThreaded.{Answer, sent, ended}
use ezgrpc.MultiThreaded.{
  UserData, Heap, put, App, answer_end, send_result, handle_result, free_userdata,
}

-- A result with the struct and the messages of its response.
pub record Result : Type 0 where
  pub task : Task
  pub userdata : UserData
  pub messages : List Message

-- The calls that a result is answered by.
pub data Sends (r : Result) : List Answer → Type 0 where
  only :
      (res : ℕ)
      → (res ≢ 0) ⊎ (r.userdata.end_stream ≡ false)
      → Sends r (sent r.userdata.session_uuid r.userdata.stream_id r.messages res ∷ [])
  with_end :
      (res : ℕ)
      → r.userdata.end_stream ≡ true
      → Sends r (
          sent r.userdata.session_uuid r.userdata.stream_id r.messages 0
          ∷ ended r.userdata.session_uuid r.userdata.stream_id r.userdata.status res
          ∷ [])

pub record Splits (P : List Answer → Type 0) (Q : List Answer → Type 0) (answers : List Answer)
    : Type 0 where
  pub first : List Answer
  pub rest : List Answer
  pub whole : answers ≡ first ++ rest
  pub one : P first
  pub others : Q rest

-- The results are answered in their order.
abbrev pub AllSent : List Result → List Answer → Type 0
AllSent [] answers = answers ≡ []
AllSent (r ∷ rs) answers = Splits (Sends r) (AllSent rs) answers

-- No result is at this address.
abbrev pub Away : ℕ → List Result → Type 0
Away a [] = Unit {0}
Away a (r ∷ rs) = (a ≢ r.task.ret) × Away a rs

abbrev pub AllFreed : Heap → List Result → Type 0
AllFreed heap [] = Unit {0}
AllFreed heap (r ∷ rs) = (heap r.task.ret ≡ none) × AllFreed heap rs

module _ {S : Type 0} (service : Service S) (laws : IsService S service) where
  -- The callback has returned the address of the struct, and left messages in it.
  pub record IsReady (heap : Heap) (r : Result) : Type 0 where
    pub in_time : r.task.is_timeout ≡ false
    pub at : heap r.task.ret ≡ some r.userdata
    pub out : r.userdata.omessages ≡ some r.messages
    pub known : laws.Known r.userdata.session_uuid

  -- All are, at different addresses.
  abbrev pub AllReady : Heap → List Result → Type 0
  AllReady heap [] = Unit {0}
  AllReady heap (r ∷ rs) = IsReady heap r × Away r.task.ret rs × AllReady heap rs

  module _ (a : ℕ) (heap : Heap) where
    pub put_other : (b : ℕ) → b ≢ a → put a none heap b ≡ heap b
    put_other b h = ground arith

    pub put_same : put a none heap a ≡ none
    put_same = ground arith

    pub AllReady-put :
        (rs : List Result) → Away a rs → AllReady heap rs → AllReady (put a none heap) rs
    AllReady-put [] away h = tt
    AllReady-put (r ∷ rs) away h = (
      record {
        in_time = h.0.in_time;
        at = put_other r.task.ret (λ e. away.0 (sym e)) ∙ h.0.at;
        out = h.0.out;
        known = h.0.known;
      },
      h.1,
      AllReady-put rs away.1 h.2,
    )

  -- The calls are made, and the rest of the state is as it was.
  pub record Called (P : List Answer → Type 0) (app : App S) (heap : Heap) (xs : List Event)
      (o : Option (App S)) : Type 0 where
    pub server : S
    pub new : List Answer
    pub is : o ≡ some (record app { server = server; answers = app.answers ++ new; heap = heap })
    pub good : laws.Good server xs
    pub says : P new

  module _ (app : App S) (xs : List Event) (good : laws.Good app.server xs) where
    module _ (r : Result) (ready : IsReady app.heap r) (P : List Answer → Type 0)
        (says : (new : List Answer) → Sends r new → P new) where
      abbrev after_send : S → ℕ → App S
      after_send s res = record app {
        server = s;
        answers =
            app.answers ++ sent r.userdata.session_uuid r.userdata.stream_id r.messages res ∷ [];
      }

      end_too :
          (s : S)
          → laws.Good s xs
          → r.userdata.end_stream ≡ true
          → Called P app app.heap xs (
              answer_end service r.userdata.session_uuid r.userdata.stream_id r.userdata.status
                (after_send s 0))
      unfolding answer_end
      end_too s good' ends =
          let u = r.userdata in
          let f = laws.finishes u.session_uuid u.stream_id u.status s xs ready.known good' in
          rw (f.is, answer_end)
            (record {
              server = f.after;
              new =
                  sent u.session_uuid u.stream_id r.messages 0
                  ∷ ended u.session_uuid u.stream_id u.status f.res
                  ∷ [];
              is =
                  ap (λ l. some (record app { server = f.after; answers = l }))
                    (append_assoc app.answers (sent u.session_uuid u.stream_id r.messages 0 ∷ [])
                      (ended u.session_uuid u.stream_id u.status f.res ∷ []));
              good = f.good;
              says = says _ (with_end f.res ends);
            })

      send_result-Called : Called P app app.heap xs (send_result service r.task.ret app)
      unfolding send_result
      send_result-Called =
          let u = r.userdata in
          let c = laws.sends u.session_uuid u.stream_id r.messages app.server xs ready.known good in
          let stops : (c.res ≢ 0) ⊎ (u.end_stream ≡ false)
              → Called P app app.heap xs (some (after_send c.after c.res)) =
            λ h. record {
              server = c.after;
              new = sent u.session_uuid u.stream_id r.messages c.res ∷ [];
              is = refl;
              good = c.good;
              says = says _ (only c.res h);
            } in
          rw (ready.at, send_result)
            (rw (ready.out, send_result)
              (rw (c.is, send_result)
                (elim (Bool-cases (c.res == 0)) [
                  | inr bad ↦
                      let in_range : ltb c.res 4 ≡ true = ground (arith, c.small) in
                      rw (bad, in_range) (stops (inl (ground (arith, bad))))
                  | inl ok ↦ rw ok (elim (Bool-cases u.end_stream) [
                    | inr open_ended ↦ rw open_ended (stops (inr open_ended))
                    | inl ends ↦
                        let zero_is : c.res ≡ 0 = ground (arith, ok) in
                        rw (ends, zero_is) (end_too c.after c.good ends)
                  ])
                ])))

      pub handle_result-Called :
          Called P app (put r.task.ret none app.heap) xs (handle_result service r.task app)
      unfolding handle_result free_userdata
      handle_result-Called =
          let c = send_result-Called in
          rw (ready.in_time, handle_result)
            (rw (c.is, handle_result)
              (rw (ready.at, free_userdata)
                (record {
                  server = c.server;
                  new = c.new;
                  is = refl;
                  good = c.good;
                  says = c.says;
                })))
