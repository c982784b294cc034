-- ===== src/Pool/Single.antt =====
-- The pool of one worker: "worker must be one for an ordered execution" (examples/multi_threaded.c).
use ezgrpc.Prelude.{
  ℕ, zero, suc, ◌≡◌, inl, inr, refl, sym, ap, ◌∙◌, Bool, true, false, some, none, List, [], ◌∷◌,
  ◌++◌, map, set, get_elem?, length, append_assoc, arith, Bool-cases, Option-cases, length-set,
  if◌then◌else◌,
}
use ezgrpc.Pool.{
  Task, Worker, Shared, Pool, pool_new, execute, acquire, worker_step, worker, add_task2, poll,
  stop_pool, woken,
}
use ezgrpc.Pool.Invariant.{Runs, created, added, polled, stopped, stepped}
use ezgrpc.Pool.Runs.{acquire_stopped, acquire_nothing, acquire_task, list_cases}

abbrev pub task_of : Worker → List Task
task_of (Worker.working t) = t ∷ []
task_of (Worker.ran t) = t ∷ []
task_of _ = []

-- What the functions of tasks are given.
abbrev pub userdata_of : List Task → List ℕ
userdata_of [] = []
userdata_of (t ∷ ts) = t.userdata ∷ userdata_of ts

userdata_of-append : (ts us : List Task) → userdata_of (ts ++ us) ≡ userdata_of ts ++ userdata_of us
userdata_of-append [] us = refl
userdata_of-append (t ∷ ts) us = ap (λ l. t.userdata ∷ l) (userdata_of-append ts us)

-- The tasks that have been run, the one that the worker has and those that wait, in this order.
abbrev passing : Shared → Worker → List ℕ
passing s w = userdata_of s.finished ++ (userdata_of (task_of w) ++ userdata_of s.queue)

record IsSingle (a p : List Task) (pool : Pool) : Type 0 where
  thread : Worker
  workers : pool.workers ≡ thread ∷ []
  order : userdata_of a ≡ userdata_of p ++ passing pool.shared thread

task_of-woken : (w : Worker) → task_of (woken w) ≡ task_of w
task_of-woken Worker.starting = refl
task_of-woken Worker.idle = refl
task_of-woken Worker.waiting = refl
task_of-woken Worker.gone = refl
task_of-woken (Worker.working t) = refl
task_of-woken (Worker.ran t) = refl

length-woken : (ws : List Worker) → length (map woken ws) ≡ length ws
length-woken [] = refl
length-woken (w ∷ ws) = ap suc (length-woken ws)

length-worker : (now i : ℕ) (pool : Pool) → length (worker now i pool).workers ≡ length pool.workers
unfolding worker
length-worker now i pool = elim (Option-cases (get_elem? pool.workers i)) [
  | inl e ↦ rw (e, worker) refl
  | inr (w, e) ↦ rw (e, worker) (length-set pool.workers i (worker_step now w pool.shared).1)
]

execute-userdata : (now : ℕ) (t : Task) → (execute now t).userdata ≡ t.userdata
unfolding execute
execute-userdata now t = ground arith

-- No step lets a task overtake another.
module _ (now : ℕ) (s : Shared) where
  acquire-passing : passing (acquire s).0 (acquire s).1 ≡ passing s Worker.idle
  acquire-passing = elim (Bool-cases s.stop) [
    | inl st ↦ rw (acquire_stopped s st) refl
    | inr go ↦ elim (list_cases s.queue) [
      | inl nothing ↦ rw (acquire_nothing s go nothing) refl
      | inr (t, q, e) ↦
          rw (acquire_task s t q go e) (ap (λ l. userdata_of s.finished ++ userdata_of l) (sym e))
    ]
  ]

  worker_step-passing :
      (w : Worker) → passing (worker_step now w s).0 (worker_step now w s).1 ≡ passing s w
  unfolding worker_step
  worker_step-passing Worker.starting = refl
  worker_step-passing Worker.idle = acquire-passing
  worker_step-passing Worker.waiting = refl
  worker_step-passing Worker.gone = refl
  worker_step-passing (Worker.working t) =
      ap (λ (k : ℕ). userdata_of s.finished ++ k ∷ userdata_of s.queue) (execute-userdata now t)
  worker_step-passing (Worker.ran t) =
      ap (λ l. l ++ userdata_of s.queue) (userdata_of-append s.finished (t ∷ []))
      ∙ append_assoc (userdata_of s.finished) (t.userdata ∷ []) (userdata_of s.queue)

new-IsSingle : (n : ℕ) → length (pool_new n).workers ≡ 1 → IsSingle [] [] (pool_new n)
unfolding pool_new
new-IsSingle zero e = absurd (omega arith)
new-IsSingle (suc zero) e = record { thread = Worker.starting; workers = refl; order = refl }
new-IsSingle (suc (suc n)) e = absurd (omega arith)

module _ (a p : List Task) (pool : Pool) (is : IsSingle a p pool) where
  added-IsSingle :
      (malloc_ok : Bool) (t : Task)
      → IsSingle (if malloc_ok then a ++ t ∷ [] else a) p (add_task2 malloc_ok t pool).0
  unfolding add_task2
  added-IsSingle false t = is
  added-IsSingle true t = record {
    thread = woken is.thread;
    workers = ap (map woken) is.workers;
    order =
        let s = pool.shared in
        let new = record t { is_timeout = false; ret = 0 } in
        let behind : passing (record s { queue = s.queue ++ new ∷ [] }) (woken is.thread)
            ≡ passing s is.thread ++ t.userdata ∷ [] =
          rw (task_of-woken is.thread, userdata_of-append s.queue (new ∷ []))
            (ap (λ l. userdata_of s.finished ++ l)
                (sym (
                  append_assoc (userdata_of (task_of is.thread)) (userdata_of s.queue)
                    (t.userdata ∷ [])))
              ∙ sym (
                  append_assoc (userdata_of s.finished)
                    (userdata_of (task_of is.thread) ++ userdata_of s.queue) (t.userdata ∷ []))) in
        userdata_of-append a (t ∷ [])
        ∙ ap (λ l. l ++ t.userdata ∷ []) is.order
        ∙ append_assoc (userdata_of p) (passing s is.thread) (t.userdata ∷ [])
        ∙ ap (λ l. userdata_of p ++ l) (sym behind);
  }

  polled-IsSingle : IsSingle a (poll p pool).1 (poll p pool).0
  unfolding poll
  polled-IsSingle = record {
    thread = is.thread;
    workers = is.workers;
    order =
        is.order
        ∙ sym (append_assoc (userdata_of p) (userdata_of pool.shared.finished) _)
        ∙ ap (λ l. l ++ (userdata_of (task_of is.thread) ++ userdata_of pool.shared.queue))
            (sym (userdata_of-append p pool.shared.finished));
  }

  stopped-IsSingle : IsSingle a p (stop_pool pool)
  unfolding stop_pool
  stopped-IsSingle = record {
    thread = woken is.thread;
    workers = ap (map woken) is.workers;
    order = rw (task_of-woken is.thread) is.order;
  }

  stepped-IsSingle : (now i : ℕ) → IsSingle a p (worker now i pool)
  unfolding worker
  stepped-IsSingle now zero =
      let e : get_elem? pool.workers 0 ≡ some is.thread = ap (λ ws. get_elem? ws 0) is.workers in
      rw (e, worker)
        (record {
          thread = (worker_step now is.thread pool.shared).1;
          workers = ap (λ ws. set ws 0 (worker_step now is.thread pool.shared).1) is.workers;
          order =
              is.order
              ∙ ap (λ l. userdata_of p ++ l) (sym (worker_step-passing now pool.shared is.thread));
        })
  stepped-IsSingle now (suc i) =
      let e : get_elem? pool.workers (suc i) ≡ none = ap (λ ws. get_elem? ws (suc i)) is.workers in
      rw (e, worker) is

Runs-IsSingle :
    {a p : List Task} {pool : Pool} → Runs a p pool → length pool.workers ≡ 1 → IsSingle a p pool
unfolding add_task2 poll stop_pool
Runs-IsSingle (created n) e = new-IsSingle n e
Runs-IsSingle (added {a} {p} {pool} true t r) e =
    added-IsSingle a p pool (Runs-IsSingle r (sym (length-woken pool.workers) ∙ e)) true t
Runs-IsSingle (added {a} {p} {pool} false t r) e = Runs-IsSingle r e
Runs-IsSingle (polled {a} {p} {pool} r) e = polled-IsSingle a p pool (Runs-IsSingle r e)
Runs-IsSingle (stopped {a} {p} {pool} r) e =
    stopped-IsSingle a p pool (Runs-IsSingle r (sym (length-woken pool.workers) ∙ e))
Runs-IsSingle (stepped {a} {p} {pool} now i r) e =
    stepped-IsSingle a p pool (Runs-IsSingle r (sym (length-worker now i pool) ∙ e)) now i

-- The data of a pool's tasks, in the order in which the tasks were added, are those of the tasks that
-- have been polled, in the order in which they were, and others behind them.
pub record Ordered (a p : List Task) : Type 0 where
  pub later : List ℕ
  pub order : userdata_of a ≡ userdata_of p ++ later

-- From a pool of one worker the results are polled in the order in which their tasks were added,
-- whenever tasks are added, the pool is polled or stopped, and the worker takes a step.
pub Runs-Ordered :
    {a p : List Task} {pool : Pool} → Runs a p pool → length pool.workers ≡ 1 → Ordered a p
Runs-Ordered {a} {p} {pool} r one =
    let is = Runs-IsSingle r one in
    record { later = passing pool.shared is.thread; order = is.order }
