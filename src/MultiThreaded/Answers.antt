-- ===== src/MultiThreaded/Answers.antt =====
-- All results of a pool.
use ezgrpc.Prelude.{
  ℕ, ◌≡◌, refl, sym, ◌∙◌, subst, Option, none, some, List, [], ◌∷◌, ◌++◌, map, append_assoc,
  append-nil,
}
use ezgrpc.Event.{Event}
use ezgrpc.Service.{Service, IsService}
use ezgrpc.Pool.{Task, poll}
use ezgrpc.SingleThreaded.{Answer}
use ezgrpc.MultiThreaded.{put, App, handle_result, handle_results, handle_opool, handle_upool}
use ezgrpc.MultiThreaded.Results.{
  Result, Sends, AllSent, Away, AllFreed, AllReady, put_other, put_same, AllReady-put, Called,
  handle_result-Called,
}

module _ {S : Type 0} (service : Service S) (laws : IsService S service) where
  -- Every result is answered, and its struct freed.
  pub record Answered (app : App S) (rs : List Result) (xs : List Event) (o : Option (App S))
      : Type 0 where
    pub after : App S
    pub new : List Answer
    pub is : o ≡ some after
    pub good : laws.Good after.server xs
    pub answers : after.answers ≡ app.answers ++ new
    pub says : AllSent rs new
    pub freed : AllFreed after.heap rs
    pub kept : (a : ℕ) → Away a rs → after.heap a ≡ app.heap a
    pub pools : (after.opool ≡ app.opool) × (after.upool ≡ app.upool) × (after.fresh ≡ app.fresh)

  Answered-cons :
      (app : App S) (r : Result) (rs : List Result) (xs : List Event)
      → Away r.task.ret rs
      → (c : Called service laws
          (Sends r)
          app
          (put r.task.ret none app.heap)
          xs
          (handle_result service r.task app))
      → Answered
          (record app {
            server = c.server;
            answers = app.answers ++ c.new;
            heap = put r.task.ret none app.heap;
          })
          rs
          xs
          (handle_results service (map (λ (x : Result). x.task) rs) (record app {
            server = c.server;
            answers = app.answers ++ c.new;
            heap = put r.task.ret none app.heap;
          }))
      → Answered app
          (r ∷ rs)
          xs
          (handle_results service (map (λ (x : Result). x.task) (r ∷ rs)) app)
  unfolding handle_results
  Answered-cons app r rs xs away c more =
      rw (c.is, handle_results)
        (record {
          after = more.after;
          new = c.new ++ more.new;
          is = more.is;
          good = more.good;
          answers = more.answers ∙ append_assoc app.answers c.new more.new;
          says = record {
            first = c.new;
            rest = more.new;
            whole = refl;
            one = c.says;
            others = more.says;
          };
          freed =
              (more.kept r.task.ret away ∙ put_same service laws r.task.ret app.heap, more.freed);
          kept = λ a h. more.kept a h.1 ∙ put_other service laws r.task.ret app.heap a h.0;
          pools = more.pools;
        })

  pub handle_results-Answered :
      (rs : List Result) (app : App S) (xs : List Event)
      → laws.Good app.server xs
      → AllReady service laws app.heap rs
      → Answered app rs xs (handle_results service (map (λ (r : Result). r.task) rs) app)
  unfolding handle_results
  handle_results-Answered [] app xs good ready = record {
    after = app;
    new = [];
    is = refl;
    good = good;
    answers = sym (append-nil app.answers);
    says = refl;
    freed = tt;
    kept = λ a h. refl;
    pools = (refl, refl, refl);
  }
  handle_results-Answered (r ∷ rs) app xs good ready =
      let c = handle_result-Called service laws app xs good r ready.0 (Sends r) (λ new h. h) in
      Answered-cons app r rs xs ready.1 c (
        handle_results-Answered rs
          (record app {
            server = c.server;
            answers = app.answers ++ c.new;
            heap = put r.task.ret none app.heap;
          })
          xs c.good (AllReady-put service laws r.task.ret app.heap rs ready.1 ready.2))

  module _ (app : App S) (rs : List Result) (xs : List Event) (good : laws.Good app.server xs)
      (ready : AllReady service laws app.heap rs) where
    -- Over a service whose calls to send on a stream and to end one return, as those of the
    -- server do where each socket takes bytes again after at most a bounded number of sends that
    -- it blocks and no callback that nghttp2 makes to send fails an assertion, and where each
    -- result of the ordered pool is of a task that was in time, with its own struct, the
    -- response in it, and a session that the table has room for: `handle_thread_pool` returns,
    -- sends each response, in the order in which the tasks were finished, ends the stream with
    -- the status of the struct where the request was at its end and the response could be sent,
    -- frees each struct and no other, and leaves no result.
    pub handle_opool-Answered :
        app.opool.shared.finished ≡ map (λ (r : Result). r.task) rs
        → Answered (record app { opool = (poll [] app.opool).0 }) rs xs (handle_opool service app)
          × ((poll [] app.opool).0.shared.finished ≡ [])
    unfolding handle_opool poll
    handle_opool-Answered finished = (
      subst
          (λ (l : List Task).
            Answered (record app { opool = (poll [] app.opool).0 }) rs xs
              (handle_results service l (record app { opool = (poll [] app.opool).0 })))
          (sym finished)
          (handle_results-Answered rs (record app { opool = (poll [] app.opool).0 }) xs good ready),
      refl,
    )

    pub handle_upool-Answered :
        app.upool.shared.finished ≡ map (λ (r : Result). r.task) rs
        → Answered (record app { upool = (poll [] app.upool).0 }) rs xs (handle_upool service app)
    unfolding handle_upool poll
    handle_upool-Answered finished =
        subst
          (λ (l : List Task).
            Answered (record app { upool = (poll [] app.upool).0 }) rs xs
              (handle_results service l (record app { upool = (poll [] app.upool).0 })))
          (sym finished)
          (handle_results-Answered rs (record app { upool = (poll [] app.upool).0 }) xs good ready)
