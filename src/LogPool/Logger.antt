-- ===== src/LogPool/Logger.antt =====
-- The pool of one worker, by which the server logs.
use ezgrpc.Prelude.{
  ℕ, zero, suc, ◌+◌, ◌*◌, ◌≤◌, ◌≡◌, inl, inr, refl, sym, ap, ◌∙◌, Bool, true, false, some, none,
  List, [], ◌∷◌, ◌++◌, append-nil, append_assoc, get_elem?, set, length, map, arith, Bool-cases,
}
use ezgrpc.LogPool.{
  Task, Worker, Shared, Pool, acquire, worker_step, worker, work, thpool_new, thpool_add_task,
  stop_pool, woken,
}
use ezgrpc.LogPool.Held.{task_of}
use ezgrpc.LogPool.Order.{
  Runs, created, added, refused, stopped, stepped, Runs-InOrder, taken_by, taken_at, refused_lem,
  idle_stopped, idle_nothing, idle_task, list_cases, taken_in, taken_out,
}
use ezgrpc.LogPool.Drains.{work-Drained, is_gone, needs, worker_at}

-- The calls made, and the task of the worker, are the tasks that were taken, in that order.
record IsLogger (k : List Task) (p : Pool) : Type 0 where
  pub thread : Worker
  pub workers : p.workers ≡ thread ∷ []
  pub calls : p.shared.called ++ task_of thread ≡ k
  pub ends : is_gone thread ≡ true → p.shared.stop ≡ true

task_of-woken : (w : Worker) → (task_of (woken w) ≡ task_of w) × (is_gone (woken w) ≡ is_gone w)
task_of-woken Worker.starting = (refl, refl)
task_of-woken Worker.idle = (refl, refl)
task_of-woken Worker.waiting = (refl, refl)
task_of-woken Worker.gone = (refl, refl)
task_of-woken (Worker.working t) = (refl, refl)

-- What a step of the worker does.
record Goes (k : List Task) (s : Shared) (w : Worker) (r : Shared × Worker) : Type 0 where
  calls : r.0.called ++ task_of r.1 ≡ k ++ taken_by w s
  ends : is_gone r.1 ≡ true → r.0.stop ≡ true

module _ (k : List Task) (s : Shared) where
  acquire-Goes : s.called ++ [] ≡ k → Goes k s Worker.idle (acquire s)
  acquire-Goes c = elim (Bool-cases s.stop) [
    | inl st ↦
        let (u, v) = idle_stopped s st in
        rw v (record { calls = rw u (c ∙ sym (append-nil k)); ends = λ _. st })
    | inr go ↦ elim (list_cases s.queue) [
      | inl empty ↦
          let (u, v) = idle_nothing s go empty in
          rw v (record { calls = rw u (c ∙ sym (append-nil k)); ends = λ h. cc })
      | inr (t, q, f) ↦
          let (u, v) = idle_task s t q go f in
          rw v (record {
            calls = rw u (ap (λ l. l ++ t ∷ []) (sym (append-nil s.called) ∙ c));
            ends = λ h. cc;
          })
    ]
  ]

  worker_step-Goes :
      (w : Worker)
      → s.called ++ task_of w ≡ k
      → (is_gone w ≡ true → s.stop ≡ true)
      → Goes k s w (worker_step w s)
  unfolding worker_step
  worker_step-Goes Worker.starting c e = record { calls = c ∙ sym (append-nil k); ends = λ h. cc }
  worker_step-Goes Worker.idle c e = acquire-Goes c
  worker_step-Goes Worker.waiting c e = record { calls = c ∙ sym (append-nil k); ends = λ h. cc }
  worker_step-Goes Worker.gone c e = record { calls = c ∙ sym (append-nil k); ends = e }
  worker_step-Goes (Worker.working t) c e = record {
    calls = append-nil (s.called ++ t ∷ []) ∙ c ∙ sym (append-nil k);
    ends = λ h. cc;
  }

module _ (k : List Task) (p : Pool) (is : IsLogger k p) where
  thread_at : get_elem? p.workers 0 ≡ some is.thread
  thread_at = ap (λ ws. get_elem? ws 0) is.workers

  stepped-IsLogger : (i : ℕ) → IsLogger (k ++ taken_at i p) (worker i p)
  unfolding worker
  stepped-IsLogger zero =
      let goes = worker_step-Goes k p.shared is.thread is.calls is.ends in
      rw (taken_in 0 p is.thread thread_at, worker_at 0 p is.thread thread_at)
        (record {
          thread = (worker_step is.thread p.shared).1;
          workers = ap (λ ws. set ws 0 (worker_step is.thread p.shared).1) is.workers;
          calls = goes.calls;
          ends = goes.ends;
        })
  stepped-IsLogger (suc i) =
      let e : get_elem? p.workers (suc i) ≡ none = ap (λ ws. get_elem? ws (suc i)) is.workers in
      rw (taken_out (suc i) p e, append-nil k) (rw (e, worker) is)

  woken-IsLogger :
      (q : List Task) (st : Bool)
      → (p.shared.stop ≡ true → st ≡ true)
      → IsLogger k (record {
        shared = record (p.shared) { queue = q; stop = st };
        workers = map woken p.workers;
      })
  woken-IsLogger q st h = record {
    thread = woken is.thread;
    workers = ap (map woken) is.workers;
    calls = ap (λ l. p.shared.called ++ l) (task_of-woken is.thread).0 ∙ is.calls;
    ends = λ g. h (is.ends (sym (task_of-woken is.thread).1 ∙ g));
  }

Runs-IsLogger : {a k : List Task} {p : Pool} → Runs 1 a k p → IsLogger k p
unfolding thpool_add_task stop_pool thpool_new
Runs-IsLogger created = record {
  thread = Worker.starting;
  workers = refl;
  calls = refl;
  ends = λ h. cc;
}
Runs-IsLogger (added {a} {k} {p} t r) =
    woken-IsLogger k p (Runs-IsLogger r) (p.shared.queue ++ t ∷ []) p.shared.stop (λ h. h)
Runs-IsLogger (refused {a} {k} {p} task_ok node_ok t h r) =
    rw (refused_lem task_ok node_ok t p h) (Runs-IsLogger r)
Runs-IsLogger (stopped {a} {k} {p} r) =
    woken-IsLogger k p (Runs-IsLogger r) p.shared.queue true (λ h. refl)
Runs-IsLogger (stepped {a} {k} {p} i r) = stepped-IsLogger k p (Runs-IsLogger r) i

still_alive :
    (w : Worker) (st : Bool) → st ≡ false → (is_gone w ≡ true → st ≡ true) → is_gone w ≡ false
still_alive w st go ends = elim (Bool-cases (is_gone w)) [
  | inl gone ↦ absurd (differ (ends gone) go)
  | inr alive ↦ alive
]
  where
    differ : {b : Bool} → b ≡ true → ¬ (b ≡ false)
    differ e f = cc

needs-le : (w : Worker) (q : List Task) → needs w q ≤ 3 + 2 * length q
needs-le Worker.starting [] = omega arith
needs-le Worker.waiting [] = omega arith
needs-le Worker.gone [] = omega arith
needs-le Worker.idle [] = omega arith
needs-le (Worker.working t) [] = omega arith
needs-le Worker.starting (t ∷ q) = omega arith
needs-le Worker.waiting (t ∷ q) = omega arith
needs-le Worker.gone (t ∷ q) = omega arith
needs-le Worker.idle (t ∷ q) = omega arith
needs-le (Worker.working _) (t ∷ q) = omega arith

pub record Logs (a : List Task) (p : Pool) : Type 0 where
  pub called : p.shared.called ≡ a
  pub queue : p.shared.queue ≡ []

-- The thread of a pool of one that is not stopped makes, if it goes on, the calls of all tasks that
-- were added, in the order in which they were.
pub work-Logs :
    {a k : List Task} {p : Pool}
    → Runs 1 a k p
    → p.shared.stop ≡ false
    → (fuel : ℕ) → 3 + 2 * length p.shared.queue ≤ fuel
    → Logs a (work fuel 0 p)
work-Logs {a} {k} {p} r go fuel enough =
    let is = Runs-IsLogger r in
    let w = is.thread in
    let d =
      work-Drained fuel 0 p w p.shared.queue (thread_at k p is) go
        (still_alive w p.shared.stop go is.ends) refl
        (omega (arith, enough, needs-le w p.shared.queue)) in
    record {
      called =
          d.called
          ∙ sym (append_assoc p.shared.called (task_of w) p.shared.queue)
          ∙ ap (λ l. l ++ p.shared.queue) is.calls
          ∙ sym (Runs-InOrder r).order;
      queue = d.queue;
    }
