-- ===== src/Pool/Runs.antt =====
-- What a step of a worker keeps.
use ezgrpc.Prelude.{
  ℕ, ◌+◌, ◌-◌, ◌≡◌, ◌⊎◌, inl, inr, refl, sym, ap, subst, Bool, true, false, some, List, [], ◌∷◌,
  get_elem?, ◌==◌, arith, Bool-cases, Option-cases,
}
use ezgrpc.Pool.{Task, Worker, Shared, Pool, execute, acquire, worker_step, worker}
use ezgrpc.Pool.Invariant.{
  Runs, created, added, polled, stopped, stepped, IsPool, pool_new-IsPool, add_task2-IsPool,
  poll-IsPool, stop_pool-IsPool, Moves, moved-IsPool, idle-alive, ran-busy,
}
use ezgrpc.Pool.Counts.{count, count-append, one_if}

pub acquire_stopped :
    (s : Shared) → s.stop ≡ true → acquire s ≡ (record s { live = s.live - 1 }, Worker.gone)
unfolding acquire
acquire_stopped s e = ground arith

pub acquire_nothing : (s : Shared) → s.stop ≡ false → s.queue ≡ [] → acquire s ≡ (s, Worker.waiting)
unfolding acquire
acquire_nothing s e f = ground arith

pub acquire_task :
    (s : Shared) (t : Task) (q : List Task)
    → s.stop ≡ false
    → s.queue ≡ t ∷ q
    → acquire s ≡ (record s { queue = q; running = s.running + 1 }, Worker.working t)
unfolding acquire
acquire_task s t q e f = ground arith

pub list_cases : (ts : List Task) → (ts ≡ []) ⊎ ((t : Task) × (q : List Task) × (ts ≡ t ∷ q))
list_cases [] = inl refl
list_cases (t ∷ q) = inr (t, q, refl)

execute-address : (now : ℕ) (t : Task) → (execute now t).address ≡ t.address
unfolding execute
execute-address now t = ground arith

module _ (a p : List Task) (pool : Pool) (is : IsPool a p pool) (i : ℕ) where
  acquire-Moves :
      (e : get_elem? pool.workers i ≡ some Worker.idle)
      → Moves a p pool is i Worker.idle e (acquire pool.shared)
  acquire-Moves e = elim (Bool-cases pool.shared.stop) [
    | inl st ↦
        subst (Moves a p pool is i Worker.idle e) (sym (acquire_stopped pool.shared st)) (record {
          runs = omega arith;
          lives = omega (arith, idle-alive a p pool is i Worker.idle e refl);
          sleeps = λ h. (refl, h);
          keeps = λ k. omega arith;
        })
    | inr go ↦ elim (list_cases pool.shared.queue) [
      | inl none_left ↦
          subst (Moves a p pool is i Worker.idle e) (sym (acquire_nothing pool.shared go none_left))
            (record {
              runs = omega arith;
              lives = omega arith;
              sleeps = λ h. elim h [
                | inl st ↦ absurd (differ go st)
                | inr some_left ↦ absurd (some_left none_left)
              ];
              keeps = λ k. omega arith;
            })
      | inr (t, q, f) ↦
          subst (Moves a p pool is i Worker.idle e) (sym (acquire_task pool.shared t q go f))
            (record {
              runs = omega arith;
              lives = omega arith;
              sleeps = λ h. (refl, inr (λ z. cc));
              keeps = λ k. omega (arith, ap (count k) f);
            })
    ]
  ]
    where
      differ : {b : Bool} → b ≡ false → ¬ (b ≡ true)
      differ f t = cc

  worker_step-Moves :
      (now : ℕ) (w : Worker) (e : get_elem? pool.workers i ≡ some w)
      → Moves a p pool is i w e (worker_step now w pool.shared)
  unfolding worker_step
  worker_step-Moves now Worker.starting e = record {
    runs = omega arith;
    lives = omega arith;
    sleeps = λ h. (refl, h);
    keeps = λ k. omega arith;
  }
  worker_step-Moves now Worker.idle e = acquire-Moves e
  worker_step-Moves now Worker.waiting e = record {
    runs = omega arith;
    lives = omega arith;
    sleeps = λ h. (refl, h);
    keeps = λ k. omega arith;
  }
  worker_step-Moves now Worker.gone e = record {
    runs = omega arith;
    lives = omega arith;
    sleeps = λ h. (refl, h);
    keeps = λ k. omega arith;
  }
  worker_step-Moves now (Worker.working t) e = record {
    runs = omega arith;
    lives = omega arith;
    sleeps = λ h. (refl, h);
    keeps = λ k.
        ap (λ n. count k pool.shared.finished + one_if (n == k) + count k pool.shared.queue)
          (execute-address now t);
  }
  worker_step-Moves now (Worker.ran t) e = record {
    runs = omega (arith, ran-busy a p pool is i (Worker.ran t) e t refl);
    lives = omega arith;
    sleeps = λ h. (refl, h);
    keeps = λ k. omega (arith, count-append k pool.shared.finished (t ∷ []));
  }

  pub worker-IsPool : (now : ℕ) → IsPool a p (worker now i pool)
  unfolding worker
  worker-IsPool now = elim (Option-cases (get_elem? pool.workers i)) [
    | inl e ↦ rw (e, worker) is
    | inr (w, e) ↦ rw (e, worker) (moved-IsPool a p pool is i w e _ (worker_step-Moves now w e))
  ]

-- Whatever the user calls and however the workers take turns: the counters are right, no worker
-- sleeps while there is a task to take or the pool is stopped, and every task that was added is in
-- just one place: polled, finished, with a worker or queued.
pub Runs-IsPool : {a p : List Task} {pool : Pool} → Runs a p pool → IsPool a p pool
Runs-IsPool (created n) = pool_new-IsPool n
Runs-IsPool (added {a} {p} {pool} malloc_ok t r) =
    add_task2-IsPool a p pool (Runs-IsPool r) malloc_ok t
Runs-IsPool (polled {a} {p} {pool} r) = poll-IsPool a p pool (Runs-IsPool r)
Runs-IsPool (stopped {a} {p} {pool} r) = stop_pool-IsPool a p pool (Runs-IsPool r)
Runs-IsPool (stepped {a} {p} {pool} now i r) = worker-IsPool a p pool (Runs-IsPool r) i now
