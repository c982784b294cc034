-- ===== src/LogPool.antt =====
-- thpool.c: the pool that runs the server's log calls on a thread of its own. What a worker does with
-- the mutex held is one step of it, and so is the call of a task's function.
pub mod Held
pub mod Order
pub mod Drains
pub mod Logger
pub mod Join
mod Tests
use ezgrpc.Prelude.{
  ℕ, zero, suc, ◌+◌, ◌-◌, Bool, true, false, not, Option, none, some, List, [], ◌∷◌, ◌++◌, map, set,
  get_elem?, length, replicate, if◌then◌else◌,
}

-- `struct task_t`. A function and its argument are numbers; of the cleanup function only whether it
-- is NULL is known.
pub record Task : Type 0 where
  pub func : ℕ
  pub userdata : ℕ
  pub has_userdata_cleanup : Bool

-- Where a worker is: before its first lock, about to take the mutex, in `pthread_cond_wait`, with a
-- task to run, or past its loop.
pub data Worker : Type 0 where
  starting idle waiting gone : Worker
  working : Task → Worker

-- `live` is an int. `called` are the calls of tasks' functions made so far, in order.
pub record Shared : Type 0 where
  pub queue : List Task
  pub live : ℕ
  pub stop : Bool
  pub called : List Task

pub record Pool : Type 0 where
  pub shared : Shared
  pub workers : List Worker

-- From where the mutex has just been taken: to leave, to wait or to have a task. (With `stop` set no
-- task is taken, so that the branch that gives one back is not reached.)
unfoldable pub acquire : Shared → Shared × Worker
acquire s = if s.stop then (record s { live = s.live - 1 }, Worker.gone) else elim s.queue [
  | [] ↦ (s, Worker.waiting)
  | t ∷ q ↦ (record s { queue = q }, Worker.working t)
]

-- The next step of a worker. One that waits may wake up for no reason.
unfoldable pub worker_step : Worker → Shared → Shared × Worker
unfolding acquire
worker_step Worker.starting s = (record s { live = s.live + 1 }, Worker.idle)
worker_step Worker.idle s = acquire s
worker_step Worker.waiting s = (s, Worker.idle)
worker_step (Worker.working t) s = (record s { called = s.called ++ t ∷ [] }, Worker.idle)
worker_step Worker.gone s = (s, Worker.gone)

-- The step of the worker of index `i`.
unfoldable pub worker : ℕ → Pool → Pool
unfolding worker_step
worker i p = elim (get_elem? p.workers i) [
  | none ↦ p
  | some w ↦
      let (s, w') = worker_step w p.shared in record { shared = s; workers = set p.workers i w' }
]

-- `thpool_new`, up to where it waits for the workers to start.
unfoldable pub thpool_new : ℕ → Pool
thpool_new workers = record {
  shared = record { queue = []; live = 0; stop = false; called = [] };
  workers = replicate workers Worker.starting;
}

-- `thpool_init` sets all of a pool that the caller has; the calls that were made stay made.
unfoldable pub thpool_init : Pool → ℕ → Pool
thpool_init p workers = record {
  shared = record (p.shared) { queue = []; live = 0; stop = false };
  workers = replicate workers Worker.starting;
}

-- `pthread_cond_broadcast`
abbrev pub woken : Worker → Worker
woken Worker.waiting = Worker.idle
woken w = w

-- The flags say whether there is room for the task and for its node in the list.
unfoldable pub thpool_add_task : (task_ok node_ok : Bool) → Task → Pool → Pool × ℕ
thpool_add_task task_ok node_ok t p =
    if not task_ok then (p, 1) else if not node_ok then (p, 1) else (
      record {
        shared = record (p.shared) { queue = p.shared.queue ++ t ∷ [] };
        workers = map woken p.workers;
      },
      0,
    )

-- `n` steps of the worker of index `i`.
unfoldable pub work : ℕ → ℕ → Pool → Pool
work zero i p = p
work (suc n) i p = work n i (worker i p)

-- To set `stop`, and to wake the workers.
unfoldable pub stop_pool : Pool → Pool
stop_pool p = record { shared = record (p.shared) { stop = true }; workers = map woken p.workers }

-- `pthread_join` of the workers from index `i` on, `n` of them, each of which is given `fuel` steps
-- to end. (The others may make steps meanwhile.)
unfoldable pub join : ℕ → ℕ → ℕ → Pool → Pool
unfolding work
join fuel zero i p = p
join fuel (suc n) i p = join fuel n (i + 1) (work fuel i p)

unfoldable pub thpool_stop_and_join : ℕ → Pool → Pool
unfolding stop_pool join
thpool_stop_and_join fuel p = join fuel (length p.workers) 0 (stop_pool p)

-- The tasks of a queue whose userdata is cleaned up, in order.
unfoldable pub clean_queue : List Task → List Task
clean_queue [] = []
clean_queue (t ∷ ts) =
    let rest = clean_queue ts in if t.has_userdata_cleanup then t ∷ rest else rest

-- The pool when its workers have been joined, and the calls of cleanup functions.
unfoldable pub thpool_free : ℕ → Pool → Pool × List Task
unfolding thpool_stop_and_join clean_queue
thpool_free fuel p =
    let joined = thpool_stop_and_join fuel p in
    (
      record joined { shared = record (joined.shared) { queue = [] } },
      clean_queue joined.shared.queue,
    )
