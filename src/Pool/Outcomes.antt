-- ===== src/Pool/Outcomes.antt =====
-- What a user sees of a pool: whether it is empty, and what is cleaned up at the end.
use ezgrpc.Prelude.{
  ℕ, ◌+◌, ◌≤◌, ◌≡◌, inl, inr, refl, ap, true, List, [], ◌∷◌, ◌++◌, ◌==◌, arith, Bool-cases,
}
use ezgrpc.Pool.{
  Task, Worker, Pool, is_empty, is_nil, Cleanup, userdata_cleanup, ret_cleanup, clean_finished,
  clean_queue, pool_free,
}
use ezgrpc.Pool.Counts.{total, busy, count, has, one_if}
use ezgrpc.Pool.Invariant.{Runs}
use ezgrpc.Pool.Runs.{Runs-IsPool}

has-le-busy : (k : ℕ) (w : Worker) → has k w ≤ busy w
has-le-busy k Worker.starting = omega arith
has-le-busy k Worker.idle = omega arith
has-le-busy k Worker.waiting = omega arith
has-le-busy k Worker.gone = omega arith
has-le-busy k (Worker.working t) = ground arith
has-le-busy k (Worker.ran t) = ground arith

total-has-le-busy : (k : ℕ) (ws : List Worker) → total (has k) ws ≤ total busy ws
total-has-le-busy k [] = omega arith
total-has-le-busy k (w ∷ ws) = omega (arith, has-le-busy k w, total-has-le-busy k ws)

count_nil : (k : ℕ) (ts : List Task) → is_nil ts ≡ true → count k ts ≡ 0
count_nil k [] e = refl
count_nil k (t ∷ ts) e = cc

-- When `ezgrpc2_pthpool_is_empty` says so, every task that was added has been polled.
pub is_empty-Runs :
    {a p : List Task} (pool : Pool) (k : ℕ)
    → Runs a p pool
    → is_empty pool ≡ true
    → count k p ≡ count k a
unfolding is_empty
is_empty-Runs pool k r e =
    let is = Runs-IsPool r in
    let idle : pool.shared.running ≡ 0 = ground arith in
    let f : is_nil pool.shared.finished ≡ true = ground arith in
    let q : is_nil pool.shared.queue ≡ true = ground arith in
    omega (
      arith,
      is.kept k,
      is.running_is,
      total-has-le-busy k pool.workers,
      count_nil k pool.shared.finished f,
      count_nil k pool.shared.queue q,
    )

-- The workers have been joined.
abbrev pub AllGone : List Worker → Type 0
AllGone [] = Unit {0}
AllGone (w ∷ ws) = (w ≡ Worker.gone) × AllGone ws

total-AllGone : (k : ℕ) (ws : List Worker) → AllGone ws → total (has k) ws ≡ 0
total-AllGone k [] g = refl
total-AllGone k (w ∷ ws) g = omega (arith, ap (has k) g.0, total-AllGone k ws g.1)

-- How often the userdata of the task of an address is cleaned up.
abbrev pub cleaned : ℕ → List Cleanup → ℕ
cleaned k [] = 0
cleaned k (userdata_cleanup t ∷ cs) = one_if (t.address == k) + cleaned k cs
cleaned k (ret_cleanup t ∷ cs) = cleaned k cs

abbrev pub AllCleanable : List Task → Type 0
AllCleanable [] = Unit {0}
AllCleanable (t ∷ ts) = (t.has_userdata_cleanup ≡ true) × AllCleanable ts

cleaned-append : (k : ℕ) (xs ys : List Cleanup) → cleaned k (xs ++ ys) ≡ cleaned k xs + cleaned k ys
cleaned-append k [] ys = omega arith
cleaned-append k (userdata_cleanup t ∷ xs) ys = omega (arith, cleaned-append k xs ys)
cleaned-append k (ret_cleanup t ∷ xs) ys = cleaned-append k xs ys

cleaned-clean_finished :
    (k : ℕ) (ts : List Task) → AllCleanable ts → cleaned k (clean_finished ts) ≡ count k ts
unfolding clean_finished
cleaned-clean_finished k [] c = refl
cleaned-clean_finished k (t ∷ ts) c = elim (Bool-cases t.has_ret_cleanup) [
  | inl r ↦ rw (c.0, r) (omega (arith, cleaned-clean_finished k ts c.1))
  | inr r ↦ rw (c.0, r) (omega (arith, cleaned-clean_finished k ts c.1))
]

cleaned-clean_queue :
    (k : ℕ) (ts : List Task) → AllCleanable ts → cleaned k (clean_queue ts) ≡ count k ts
unfolding clean_queue
cleaned-clean_queue k [] c = refl
cleaned-clean_queue k (t ∷ ts) c = rw c.0 (omega (arith, cleaned-clean_queue k ts c.1))

-- Once all workers have ended, to free the pool cleans up the userdata of every task that was added
-- and not polled, just as often as it was added, where the tasks that are left have a function for it.
pub pool_free-Runs :
    {a p : List Task} (pool : Pool) (k : ℕ)
    → Runs a p pool
    → AllGone pool.workers
    → AllCleanable pool.shared.finished
    → AllCleanable pool.shared.queue
    → cleaned k (pool_free pool) + count k p ≡ count k a
unfolding pool_free
pool_free-Runs pool k r gone cf cq = omega (
  arith,
  (Runs-IsPool r).kept k,
  total-AllGone k pool.workers gone,
  cleaned-append k (clean_finished pool.shared.finished) (clean_queue pool.shared.queue),
  cleaned-clean_finished k pool.shared.finished cf,
  cleaned-clean_queue k pool.shared.queue cq,
)
