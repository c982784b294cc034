-- ===== src/MultiThreaded/Tasks.antt =====
-- What is true of the tasks of a pool, by where they are.
use ezgrpc.Prelude.{
  ℕ, zero, suc, ◌+◌, ◌≤◌, ◌≡◌, inl, inr, subst, true, false, some, List, [], ◌∷◌, ◌++◌, map, set,
  get_elem?, replicate, arith, Bool-cases, Option-cases,
}
use ezgrpc.Pool.{
  Task, Worker, Pool, execute, acquire, worker_step, worker, woken, pool_new, add_task, add_task2,
  poll,
}
use ezgrpc.Pool.Runs.{acquire_stopped, acquire_nothing, acquire_task, list_cases}
use ezgrpc.Pool.Counts.{total, count, has}

abbrev pub All : (Task → Type 0) → List Task → Type 0
All P [] = Unit {0}
All P (t ∷ ts) = P t × All P ts

abbrev pub OfWorker : (Task → Type 0) → (Task → Type 0) → Worker → Type 0
OfWorker P Q (Worker.working t) = P t
OfWorker P Q (Worker.ran t) = Q t
OfWorker P Q w = Unit {0}

abbrev pub AllOf : (Task → Type 0) → (Task → Type 0) → List Worker → Type 0
AllOf P Q [] = Unit {0}
AllOf P Q (w ∷ ws) = OfWorker P Q w × AllOf P Q ws

-- `P` of the tasks that are still to be run and `Q` of those that have been run.
pub record AllTasks (P Q : Task → Type 0) (p : Pool) : Type 0 where
  pub finished : All Q p.shared.finished
  pub workers : AllOf P Q p.workers
  pub queue : All P p.shared.queue

-- How many tasks of the pool are allocated at this address.
abbrev pub tasks_at : ℕ → Pool → ℕ
tasks_at k p = count k p.shared.finished + total (has k) p.workers + count k p.shared.queue

pub All-append : (P : Task → Type 0) (ts us : List Task) → All P ts → All P us → All P (ts ++ us)
All-append P [] us h l = l
All-append P (t ∷ ts) us h l = (h.0, All-append P ts us h.1 l)

-- To pass to another predicate, a task may be taken to be counted.
pub All-map :
    {P Q : Task → Type 0} (ts : List Task)
    → ((t : Task) → 1 ≤ count t.address ts → P t → Q t)
    → All P ts
    → All Q ts
All-map [] f h = tt
All-map {P} {Q} (t ∷ ts) f h = (f t first h.0, All-map ts others h.1)
  where
    first : 1 ≤ count t.address (t ∷ ts)
    first = ground arith

    others : (u : Task) → 1 ≤ count u.address ts → P u → Q u
    others u le = f u (omega (arith, le))

pub AllOf-map :
    {P Q P' Q' : Task → Type 0} (ws : List Worker)
    → ((t : Task) → 1 ≤ total (has t.address) ws → P t → P' t)
    → ((t : Task) → 1 ≤ total (has t.address) ws → Q t → Q' t)
    → AllOf P Q ws
    → AllOf P' Q' ws
AllOf-map [] f g h = tt
AllOf-map {P} {Q} {P'} {Q'} (w ∷ ws) f g h = (
  here w f g h.0,
  AllOf-map ws (λ t le. f t (omega (arith, le))) (λ t le. g t (omega (arith, le))) h.1,
)
  where
    here :
        (v : Worker)
        → ((t : Task) → 1 ≤ has t.address v + total (has t.address) ws → P t → P' t)
        → ((t : Task) → 1 ≤ has t.address v + total (has t.address) ws → Q t → Q' t)
        → OfWorker P Q v
        → OfWorker P' Q' v
    here Worker.starting f g x = tt
    here Worker.idle f g x = tt
    here Worker.waiting f g x = tt
    here Worker.gone f g x = tt
    here (Worker.working t) f g x = f t (ground arith) x
    here (Worker.ran t) f g x = g t (ground arith) x

pub AllTasks-map :
    {P Q P' Q' : Task → Type 0} (p : Pool)
    → ((t : Task) → 1 ≤ tasks_at t.address p → P t → P' t)
    → ((t : Task) → 1 ≤ tasks_at t.address p → Q t → Q' t)
    → AllTasks P Q p
    → AllTasks P' Q' p
AllTasks-map p f g h = record {
  finished = All-map p.shared.finished (λ t le. g t (omega (arith, le))) h.finished;
  workers =
      AllOf-map p.workers (λ t le. f t (omega (arith, le))) (λ t le. g t (omega (arith, le)))
        h.workers;
  queue = All-map p.shared.queue (λ t le. f t (omega (arith, le))) h.queue;
}

module _ (P Q : Task → Type 0) where
  AllOf-woken : (ws : List Worker) → AllOf P Q ws → AllOf P Q (map woken ws)
  AllOf-woken [] h = tt
  AllOf-woken (Worker.starting ∷ ws) h = (tt, AllOf-woken ws h.1)
  AllOf-woken (Worker.idle ∷ ws) h = (tt, AllOf-woken ws h.1)
  AllOf-woken (Worker.waiting ∷ ws) h = (tt, AllOf-woken ws h.1)
  AllOf-woken (Worker.gone ∷ ws) h = (tt, AllOf-woken ws h.1)
  AllOf-woken (Worker.working t ∷ ws) h = (h.0, AllOf-woken ws h.1)
  AllOf-woken (Worker.ran t ∷ ws) h = (h.0, AllOf-woken ws h.1)

  AllOf-replicate : (n : ℕ) → AllOf P Q (replicate n Worker.starting)
  AllOf-replicate zero = tt
  AllOf-replicate (suc n) = (tt, AllOf-replicate n)

  AllOf-set :
      (ws : List Worker) (i : ℕ) (w : Worker)
      → OfWorker P Q w
      → AllOf P Q ws
      → AllOf P Q (set ws i w)
  AllOf-set [] i w x h = tt
  AllOf-set (v ∷ ws) zero w x h = (x, h.1)
  AllOf-set (v ∷ ws) (suc i) w x h = (h.0, AllOf-set ws i w x h.1)

  pub AllOf-get :
      (ws : List Worker) (i : ℕ) (w : Worker)
      → get_elem? ws i ≡ some w
      → AllOf P Q ws
      → OfWorker P Q w
  AllOf-get [] i w e h = cc
  AllOf-get (v ∷ ws) zero w e h = subst (OfWorker P Q) (head e) h.0
    where
      head : {a b : Worker} → some a ≡ some b → a ≡ b
      head e = cc
  AllOf-get (v ∷ ws) (suc i) w e h = AllOf-get ws i w e h.1

  pub pool_new-AllTasks : (n : ℕ) → AllTasks P Q (pool_new n)
  unfolding pool_new
  pool_new-AllTasks n = record { finished = tt; workers = AllOf-replicate n; queue = tt }

  pub add_task-AllTasks :
      (t : Task) (p : Pool)
      → P (record t { timeout = 0; is_timeout = false; ret = 0 })
      → AllTasks P Q p
      → AllTasks P Q (add_task true t p).0
  unfolding add_task add_task2
  add_task-AllTasks t p x h = record {
    finished = h.finished;
    workers = AllOf-woken p.workers h.workers;
    queue = All-append P p.shared.queue _ h.queue (x, tt);
  }

  pub poll-AllTasks : (p : Pool) → AllTasks P Q p → AllTasks P Q (poll [] p).0
  unfolding poll
  poll-AllTasks p h = record { finished = tt; workers = h.workers; queue = h.queue }

  acquire-AllTasks :
      (p : Pool) (i : ℕ)
      → AllTasks P Q p
      → AllTasks P Q
          (record { shared = (acquire p.shared).0; workers = set p.workers i (acquire p.shared).1 })
  acquire-AllTasks p i h = elim (Bool-cases p.shared.stop) [
    | inl st ↦ rw (acquire_stopped p.shared st) (record {
      finished = h.finished;
      workers = AllOf-set p.workers i Worker.gone tt h.workers;
      queue = h.queue;
    })
    | inr go ↦ elim (list_cases p.shared.queue) [
      | inl nothing ↦ rw (acquire_nothing p.shared go nothing) (record {
        finished = h.finished;
        workers = AllOf-set p.workers i Worker.waiting tt h.workers;
        queue = h.queue;
      })
      | inr (t, q, e) ↦
          let x : All P (t ∷ q) = subst (All P) e h.queue in
          rw (acquire_task p.shared t q go e) (record {
            finished = h.finished;
            workers = AllOf-set p.workers i (Worker.working t) x.0 h.workers;
            queue = x.1;
          })
    ]
  ]

  -- The step of a worker, where a task that is run comes to satisfy the second predicate.
  pub worker-AllTasks :
      (now i : ℕ) (p : Pool)
      → ((t : Task) → get_elem? p.workers i ≡ some (Worker.working t) → P t → Q (execute now t))
      → AllTasks P Q p
      → AllTasks P Q (worker now i p)
  unfolding worker worker_step
  worker-AllTasks now i p run h = elim (Option-cases (get_elem? p.workers i)) [
    | inl e ↦ rw (e, worker) h
    | inr (w, e) ↦ rw (e, worker) (by_place w e (AllOf-get p.workers i w e h.workers))
  ]
    where
      by_place :
          (w : Worker)
          → get_elem? p.workers i ≡ some w
          → OfWorker P Q w
          → AllTasks P Q (record {
            shared = (worker_step now w p.shared).0;
            workers = set p.workers i (worker_step now w p.shared).1;
          })
      by_place Worker.starting e x = record {
        finished = h.finished;
        workers = AllOf-set p.workers i Worker.idle tt h.workers;
        queue = h.queue;
      }
      by_place Worker.idle e x = acquire-AllTasks p i h
      by_place Worker.waiting e x = record {
        finished = h.finished;
        workers = AllOf-set p.workers i Worker.idle tt h.workers;
        queue = h.queue;
      }
      by_place (Worker.working t) e x = record {
        finished = h.finished;
        workers = AllOf-set p.workers i (Worker.ran (execute now t)) (run t e x) h.workers;
        queue = h.queue;
      }
      by_place (Worker.ran t) e x = record {
        finished = All-append Q p.shared.finished (t ∷ []) h.finished (x, tt);
        workers = AllOf-set p.workers i Worker.idle tt h.workers;
        queue = h.queue;
      }
      by_place Worker.gone e x = record {
        finished = h.finished;
        workers = AllOf-set p.workers i Worker.gone tt h.workers;
        queue = h.queue;
      }
