-- ===== src/Pool/Tests.antt =====
-- A pool of two workers and one task.
use ezgrpc.Prelude.{◌+◌, ◌≡◌, refl, length, true, false, [], ◌∷◌}
use ezgrpc.Pool.{
  Task, Pool, pool_new, add_task2, poll, worker, stop_pool, is_empty, execute, acquire, worker_step,
}
use ezgrpc.Pool.Invariant.{Runs, created, added, stepped, stopped, polled, IsPool}
use ezgrpc.Pool.Runs.{Runs-IsPool}
use ezgrpc.Pool.Single.{Ordered, Runs-Ordered}

abbrev task : Task
task = record {
  address = 40;
  is_timeout = false;
  timeout = 0;
  func = λ n. n + 1;
  userdata = 7;
  ret = 0;
  has_userdata_cleanup = true;
  has_ret_cleanup = true;
}

abbrev done : Task
done = record task { ret = 8 }

-- The task is added, and a worker takes it, runs it and puts it back.
abbrev busy_pool : Pool
busy_pool = worker 9 0 (worker 9 0 (worker 9 0 (worker 9 0 (add_task2 true task (pool_new 2)).0)))

busy_pool-Runs : Runs (task ∷ []) [] busy_pool
busy_pool-Runs = stepped 9 0 (stepped 9 0 (stepped 9 0 (stepped 9 0 (added true task (created 2)))))

Runs-IsPool_example : IsPool (task ∷ []) [] busy_pool
Runs-IsPool_example = Runs-IsPool busy_pool-Runs

ran : busy_pool.shared.finished ≡ done ∷ []
unfolding pool_new add_task2 worker worker_step acquire execute
ran = refl

empty : is_empty (poll [] busy_pool).0 ≡ true
unfolding is_empty poll pool_new add_task2 worker worker_step acquire execute
empty = refl

-- A task that no worker took before the pool was stopped.
abbrev stopped_pool : Pool
stopped_pool = worker 9 0 (worker 9 0 (stop_pool (add_task2 true task (pool_new 1)).0))

stopped_pool-Runs : Runs (task ∷ []) [] stopped_pool
stopped_pool-Runs = stepped 9 0 (stepped 9 0 (stopped (added true task (created 1))))

abbrev second_task : Task
second_task = record task { address = 50; userdata = 9 }

-- The pool of one worker with two tasks, of which the first has been run and polled.
abbrev polled_pool : Pool
polled_pool =
    (poll [] (
      worker 9 0 (
        worker 9 0 (
          worker 9 0
            (worker 9 0 (add_task2 true second_task (add_task2 true task (pool_new 1)).0).0))))).0

single_run : Runs (task ∷ second_task ∷ []) (done ∷ []) polled_pool
unfolding pool_new add_task2 worker worker_step acquire execute poll
single_run = polled (
    stepped 9 0 (
      stepped 9 0
        (stepped 9 0 (stepped 9 0 (added true second_task (added true task (created 1)))))))

one_worker : length polled_pool.workers ≡ 1
unfolding pool_new add_task2 worker worker_step acquire execute poll
one_worker = refl

Runs-Ordered_example : Ordered (task ∷ second_task ∷ []) (done ∷ [])
Runs-Ordered_example = Runs-Ordered single_run one_worker
