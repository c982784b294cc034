-- ===== src/Pool.antt =====
-- ezgrpc2_pthpool.c: the pollable thread pool. What a worker does with the mutex held is one step of
-- it, and so is the call of a task's function, which it makes without the mutex.
pub mod Counts
pub mod Invariant
pub mod Runs
pub mod Outcomes
pub mod Single
mod Tests
use ezgrpc.Prelude.{
  ℕ, ◌+◌, ◌-◌, Bool, true, false, not, ◌&&◌, Option, none, some, List, [], ◌∷◌, ◌++◌, map, set,
  get_elem?, replicate, if◌then◌else◌, ◌==◌, ltb,
}

-- `struct ezgrpc2_pthpool_result_t`; `address` is where it is allocated. Pointers are numbers, and
-- NULL is 0; of a cleanup function only whether it is there is known.
pub record Task : Type 0 where
  pub address : ℕ
  pub is_timeout : Bool
  pub timeout : ℕ
  pub func : ℕ → ℕ
  pub userdata : ℕ
  pub ret : ℕ
  pub has_userdata_cleanup : Bool
  pub has_ret_cleanup : Bool

-- Where a worker is: before its first lock, about to take the mutex, in `pthread_cond_wait`, with a
-- task to run, with a task that it has run, or past its loop.
pub data Worker : Type 0 where
  starting idle waiting gone : Worker
  working ran : Task → Worker

-- What the mutex guards. `running` and `live` are ints.
pub record Shared : Type 0 where
  pub queue : List Task
  pub finished : List Task
  pub running : ℕ
  pub live : ℕ
  pub stop : Bool

pub record Pool : Type 0 where
  pub shared : Shared
  pub workers : List Worker

unfoldable pub pool_new : ℕ → Pool
pool_new workers = record {
  shared = record { queue = []; finished = []; running = 0; live = 0; stop = false };
  workers = replicate workers Worker.starting;
}

-- `now` is what `time(NULL)` returns.
unfoldable pub execute : ℕ → Task → Task
execute now t =
    if not (t.timeout == 0) && ltb t.timeout now
    then record t { is_timeout = true }
    else record t { ret = t.func t.userdata }

-- The inner loop, from where the mutex has just been taken: to leave, to wait or to have a task.
-- (No task has been taken when `stop` is found set, so the branch that gives it back is not reached.)
unfoldable pub acquire : Shared → Shared × Worker
acquire s = if s.stop then (record s { live = s.live - 1 }, Worker.gone) else elim s.queue [
  | [] ↦ (s, Worker.waiting)
  | t ∷ q ↦ (record s { queue = q; running = s.running + 1 }, Worker.working t)
]

-- The next step of a worker. One that waits may wake up for no reason.
unfoldable pub worker_step : ℕ → Worker → Shared → Shared × Worker
unfolding acquire execute
worker_step now Worker.starting s = (record s { live = s.live + 1 }, Worker.idle)
worker_step now Worker.idle s = acquire s
worker_step now Worker.waiting s = (s, Worker.idle)
worker_step now (Worker.working t) s = (s, Worker.ran (execute now t))
worker_step now (Worker.ran t) s =
    (record s { finished = s.finished ++ t ∷ []; running = s.running - 1 }, Worker.idle)
worker_step now Worker.gone s = (s, Worker.gone)

-- The step of the worker of index `i`.
unfoldable pub worker : ℕ → ℕ → Pool → Pool
unfolding worker_step
worker now i p = elim (get_elem? p.workers i) [
  | none ↦ p
  | some w ↦
      let (s, w') = worker_step now w p.shared in
      record { shared = s; workers = set p.workers i w' }
]

-- `pthread_cond_broadcast`
abbrev pub woken : Worker → Worker
woken Worker.waiting = Worker.idle
woken w = w

-- The new task; `malloc_ok` says whether there is room for it.
unfoldable pub add_task2 : Bool → Task → Pool → Pool × ℕ
add_task2 malloc_ok t p =
    if malloc_ok
    then (
      record {
        shared = record (p.shared) {
          queue = p.shared.queue ++ record t { is_timeout = false; ret = 0 } ∷ [];
        };
        workers = map woken p.workers;
      },
      0,
    )
    else (p, 1)

unfoldable pub add_task : Bool → Task → Pool → Pool × ℕ
unfolding add_task2
add_task malloc_ok t p = add_task2 malloc_ok (record t { timeout = 0 }) p

-- `ezgrpc2_list_concat_and_empty_src(l, pool->finished)`
unfoldable pub poll : List Task → Pool → Pool × List Task
poll l p = (record p { shared = record (p.shared) { finished = [] } }, l ++ p.shared.finished)

abbrev pub is_nil : List Task → Bool
is_nil [] = true
is_nil (t ∷ ts) = false

unfoldable pub is_empty : Pool → Bool
is_empty p = (p.shared.running == 0) && (is_nil p.shared.finished && is_nil p.shared.queue)

-- The first part of `ezgrpc2_pthpool_stop_and_join` and of `ezgrpc2_pthpool_free`.
unfoldable pub stop_pool : Pool → Pool
stop_pool p = record { shared = record (p.shared) { stop = true }; workers = map woken p.workers }

-- The calls that `ezgrpc2_pthpool_free` makes once the workers have been joined.
pub data Cleanup : Type 0 where
  userdata_cleanup : Task → Cleanup
  ret_cleanup : Task → Cleanup

unfoldable pub clean_finished : List Task → List Cleanup
clean_finished [] = []
clean_finished (t ∷ ts) =
    (if t.has_userdata_cleanup then Cleanup.userdata_cleanup t ∷ [] else [])
    ++ ((if t.has_ret_cleanup then Cleanup.ret_cleanup t ∷ [] else []) ++ clean_finished ts)

unfoldable pub clean_queue : List Task → List Cleanup
clean_queue [] = []
clean_queue (t ∷ ts) =
    (if t.has_userdata_cleanup then Cleanup.userdata_cleanup t ∷ [] else []) ++ clean_queue ts

unfoldable pub pool_free : Pool → List Cleanup
unfolding clean_finished clean_queue
pool_free p = clean_finished p.shared.finished ++ clean_queue p.shared.queue
