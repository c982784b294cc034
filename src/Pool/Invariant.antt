-- ===== src/Pool/Invariant.antt =====
-- The runs of a pool, the invariant, and what the calls of the user keep.
use ezgrpc.Prelude.{
  ℕ, ◌+◌, ◌≤◌, ◌≡◌, ◌≢◌, ◌⊎◌, refl, sym, ◌∙◌, subst, Bool, true, false, some, List, [], ◌∷◌, ◌++◌,
  set, get_elem?, if◌then◌else◌, arith,
}
use ezgrpc.Pool.{Task, Worker, Shared, Pool, pool_new, worker, add_task2, poll, stop_pool}
use ezgrpc.Pool.Counts.{
  total, total-set, total-woken, total-replicate, total-elem, busy, alive, asleep, asleep-woken,
  count, count-append, has,
}

-- The pools that come of `pool_new` by the calls of the user and the steps of the workers, in any
-- order, with the tasks that were added and those that were polled so far.
pub data Runs : List Task → List Task → Pool → Type 0 where
  created : (n : ℕ) → Runs [] [] (pool_new n)
  added :
      {a p : List Task} {pool : Pool} (malloc_ok : Bool) (t : Task)
      → Runs a p pool
      → Runs (if malloc_ok then a ++ t ∷ [] else a) p (add_task2 malloc_ok t pool).0
  polled : {a p : List Task} {pool : Pool} → Runs a p pool → Runs a (poll p pool).1 (poll p pool).0
  stopped : {a p : List Task} {pool : Pool} → Runs a p pool → Runs a p (stop_pool pool)
  stepped :
      {a p : List Task} {pool : Pool} (now i : ℕ) → Runs a p pool → Runs a p (worker now i pool)

-- The counters are right, no worker sleeps while there is a task to take or the pool is stopped, and
-- every task that was added is in one place: polled, finished, with a worker or queued.
pub record IsPool (a p : List Task) (pool : Pool) : Type 0 where
  pub running_is : pool.shared.running ≡ total busy pool.workers
  pub live_is : pool.shared.live ≡ total alive pool.workers
  pub awake : (pool.shared.stop ≡ true) ⊎ (pool.shared.queue ≢ []) → total asleep pool.workers ≡ 0
  pub kept :
      (k : ℕ)
      → count k a
        ≡ count k p
          + count k pool.shared.finished
          + total (has k) pool.workers
          + count k pool.shared.queue

pub pool_new-IsPool : (n : ℕ) → IsPool [] [] (pool_new n)
unfolding pool_new
pool_new-IsPool n = record {
  running_is = sym (total-replicate busy n refl);
  live_is = sym (total-replicate alive n refl);
  awake = λ _. total-replicate asleep n refl;
  kept = λ k. omega (arith, total-replicate (has k) n refl);
}

module _ (a p : List Task) (pool : Pool) (is : IsPool a p pool) where
  pub add_task2-IsPool :
      (malloc_ok : Bool) (t : Task)
      → IsPool (if malloc_ok then a ++ t ∷ [] else a) p (add_task2 malloc_ok t pool).0
  unfolding add_task2
  add_task2-IsPool false t = is
  add_task2-IsPool true t = record {
    running_is = is.running_is ∙ sym (total-woken busy pool.workers refl);
    live_is = omega (arith, is.live_is, total-woken alive pool.workers refl);
    awake = λ _. asleep-woken pool.workers;
    kept = λ k. omega (
      arith,
      is.kept k,
      count-append k a (t ∷ []),
      count-append k pool.shared.queue (record t { is_timeout = false; ret = 0 } ∷ []),
      total-woken (has k) pool.workers refl,
    );
  }

  pub poll-IsPool : IsPool a (poll p pool).1 (poll p pool).0
  unfolding poll
  poll-IsPool = record {
    running_is = is.running_is;
    live_is = is.live_is;
    awake = is.awake;
    kept = λ k. omega (arith, is.kept k, count-append k p pool.shared.finished);
  }

  pub stop_pool-IsPool : IsPool a p (stop_pool pool)
  unfolding stop_pool
  stop_pool-IsPool = record {
    running_is = is.running_is ∙ sym (total-woken busy pool.workers refl);
    live_is = omega (arith, is.live_is, total-woken alive pool.workers refl);
    awake = λ _. asleep-woken pool.workers;
    kept = λ k. omega (arith, is.kept k, total-woken (has k) pool.workers refl);
  }

  -- The pool with a changed shared part and a changed worker.
  abbrev pub moved : ℕ → Shared × Worker → Pool
  moved i o = record { shared = o.0; workers = set pool.workers i o.1 }

  module _ (i : ℕ) (w : Worker) (e : get_elem? pool.workers i ≡ some w) where
    -- What one worker's change must respect.
    pub record Moves (o : Shared × Worker) : Type 0 where
      pub runs : o.0.running + busy w ≡ pool.shared.running + busy o.1
      pub lives : o.0.live + alive w ≡ pool.shared.live + alive o.1
      pub sleeps :
          (o.0.stop ≡ true) ⊎ (o.0.queue ≢ [])
          → asleep o.1 ≡ 0 × ((pool.shared.stop ≡ true) ⊎ (pool.shared.queue ≢ []))
      pub keeps :
          (k : ℕ)
          → count k o.0.finished + has k o.1 + count k o.0.queue
            ≡ count k pool.shared.finished + has k w + count k pool.shared.queue

    pub moved-IsPool : (o : Shared × Worker) → Moves o → IsPool a p (moved i o)
    moved-IsPool o m = record {
      running_is = omega (arith, m.runs, is.running_is, total-set busy pool.workers i w o.1 e);
      live_is = omega (arith, m.lives, is.live_is, total-set alive pool.workers i w o.1 e);
      awake = λ h.
          let (s, q) = m.sleeps h in
          omega (arith, s, is.awake q, total-set asleep pool.workers i w o.1 e);
      kept = λ k. omega (arith, m.keeps k, is.kept k, total-set (has k) pool.workers i w o.1 e);
    }

    pub idle-alive : w ≡ Worker.idle → 1 ≤ pool.shared.live
    idle-alive h = omega (
      arith,
      is.live_is,
      subst (λ v. alive v ≤ total alive pool.workers) h (total-elem alive pool.workers i w e),
    )

    pub ran-busy : (t : Task) → w ≡ Worker.ran t → 1 ≤ pool.shared.running
    ran-busy t h = omega (
      arith,
      is.running_is,
      subst (λ v. busy v ≤ total busy pool.workers) h (total-elem busy pool.workers i w e),
    )
