-- ===== src/LogPool/Tests.antt =====
-- The pool of log calls at work.
use ezgrpc.Prelude.{ℕ, ◌≡◌, refl, true, [], ◌∷◌, arith}
use ezgrpc.LogPool.{Task, Pool, worker, work, thpool_new, thpool_init, thpool_add_task, thpool_free}
use ezgrpc.LogPool.Order.{Runs, created, added, stepped, InOrder, Runs-InOrder}
use ezgrpc.LogPool.Logger.{Logs, work-Logs}
use ezgrpc.LogPool.Join.{Freed, thpool_free-Freed}

abbrev line : ℕ → Task
line n = record { func = 1; userdata = n; has_userdata_cleanup = true }

-- One thread, which takes the first of two lines between their coming.
abbrev logging : Pool
logging =
    (thpool_add_task true true (line 8)
      (worker 0 (worker 0 (thpool_add_task true true (line 7) (thpool_new 1)).0))).0

logging-Runs : Runs 1 (line 7 ∷ line 8 ∷ []) (line 7 ∷ []) logging
unfolding thpool_add_task worker thpool_new
logging-Runs = added (line 8) (stepped 0 (stepped 0 (added (line 7) created)))

written : (work 5 0 logging).shared.called ≡ line 7 ∷ line 8 ∷ []
unfolding thpool_add_task worker thpool_new work
written = refl

-- Freed at once, the pool calls what the thread has, and cleans up the rest.
freed : (thpool_free 2 logging).1 ≡ line 8 ∷ []
unfolding thpool_add_task worker thpool_new thpool_free
freed = refl

begun_again : (thpool_init logging 1).shared.queue ≡ []
unfolding thpool_init
begun_again = refl

Runs-InOrder_example : InOrder (line 7 ∷ line 8 ∷ []) (line 7 ∷ []) logging
Runs-InOrder_example = Runs-InOrder logging-Runs

work-Logs_example : Logs (line 7 ∷ line 8 ∷ []) (work 5 0 logging)
unfolding thpool_add_task worker thpool_new
work-Logs_example = work-Logs logging-Runs refl 5 (omega arith)

thpool_free-Freed_example : Freed (line 7 ∷ line 8 ∷ []) (thpool_free 2 logging)
thpool_free-Freed_example = thpool_free-Freed logging-Runs (refl, (refl, tt)) 2 (omega arith)
