-- ===== src/LogPool/Order.antt =====
-- The order in which the tasks of a pool are handed out.
use ezgrpc.Prelude.{
  ℕ, ◌-◌, ◌≡◌, ◌⊎◌, inl, inr, refl, sym, ap, ◌∙◌, Bool, true, false, some, none, List, [], ◌∷◌,
  ◌++◌, append-nil, append_assoc, get_elem?, set, arith, if◌then◌else◌, Bool-cases, Option-cases,
}
use mathlib.Core.List.{Perm, perm_middle, perm_append_singleton}
use mathlib.Core.List.Perm
use ezgrpc.LogPool.{
  Task, Worker, Shared, Pool, acquire, worker_step, worker, thpool_new, thpool_add_task, stop_pool,
}
use ezgrpc.LogPool.Held.{
  task_of, held, held-woken, held-replicate, held-takes, held-runs, held-same,
}

-- The task that a worker takes in its next step.
abbrev pub taken_by : Worker → Shared → List Task
taken_by Worker.idle s = if s.stop then [] else elim s.queue [ [] ↦ [] | t ∷ q ↦ t ∷ [] ]
taken_by _ s = []

abbrev pub taken_at : ℕ → Pool → List Task
taken_at i p = elim (get_elem? p.workers i) [ none ↦ [] | some w ↦ taken_by w p.shared ]

-- The pools that come of `thpool_new`, `thpool_add_task`, `stop` and the steps of the workers in any
-- order, with the tasks that were added, and those that were taken, each in order.
pub data Runs (n : ℕ) : List Task → List Task → Pool → Type 0 where
  created : Runs n [] [] (thpool_new n)
  added :
      {a k : List Task} {p : Pool} (t : Task)
      → Runs n a k p
      → Runs n (a ++ t ∷ []) k (thpool_add_task true true t p).0
  refused :
      {a k : List Task} {p : Pool} (task_ok node_ok : Bool) (t : Task)
      → (task_ok ≡ false) ⊎ (node_ok ≡ false)
      → Runs n a k p
      → Runs n a k (thpool_add_task task_ok node_ok t p).0
  stopped : {a k : List Task} {p : Pool} → Runs n a k p → Runs n a k (stop_pool p)
  stepped :
      {a k : List Task} {p : Pool} (i : ℕ)
      → Runs n a k p
      → Runs n a (k ++ taken_at i p) (worker i p)

-- First in, first out, and nothing is lost or run twice.
pub record InOrder (a k : List Task) (p : Pool) : Type 0 where
  pub order : a ≡ k ++ p.shared.queue
  pub once : Perm (p.shared.called ++ held p.workers) k

pub refused_lem :
    (task_ok node_ok : Bool) (t : Task) (p : Pool)
    → (task_ok ≡ false) ⊎ (node_ok ≡ false)
    → thpool_add_task task_ok node_ok t p ≡ (p, 1)
unfolding thpool_add_task
refused_lem task_ok node_ok t p h = ground arith

pub taken_out : (i : ℕ) (p : Pool) → get_elem? p.workers i ≡ none → taken_at i p ≡ []
taken_out i p e = ground arith

pub taken_in :
    (i : ℕ) (p : Pool) (w : Worker)
    → get_elem? p.workers i ≡ some w
    → taken_at i p ≡ taken_by w p.shared
taken_in i p w e = ground arith

-- What an idle worker takes, and what becomes of it.
pub idle_stopped :
    (s : Shared)
    → s.stop ≡ true
    → (taken_by Worker.idle s ≡ []) × (acquire s ≡ (record s { live = s.live - 1 }, Worker.gone))
unfolding acquire
idle_stopped s e = (ground arith, ground arith)

pub idle_nothing :
    (s : Shared)
    → s.stop ≡ false
    → s.queue ≡ []
    → (taken_by Worker.idle s ≡ []) × (acquire s ≡ (s, Worker.waiting))
unfolding acquire
idle_nothing s e f = (ground arith, ground arith)

pub idle_task :
    (s : Shared) (t : Task) (q : List Task)
    → s.stop ≡ false
    → s.queue ≡ t ∷ q
    → (taken_by Worker.idle s ≡ t ∷ []) × (acquire s ≡ (record s { queue = q }, Worker.working t))
unfolding acquire
idle_task s t q e f = (ground arith, ground arith)

pub list_cases : (ts : List Task) → (ts ≡ []) ⊎ ((t : Task) × (q : List Task) × (ts ≡ t ∷ q))
list_cases [] = inl refl
list_cases (t ∷ q) = inr (t, q, refl)

thpool_new-InOrder : (n : ℕ) → InOrder [] [] (thpool_new n)
unfolding thpool_new
thpool_new-InOrder n = record { order = refl; once = rw (held-replicate n) (Perm.refl []) }

module _ (a k : List Task) (p : Pool) (is : InOrder a k p) where
  added-InOrder : (t : Task) → InOrder (a ++ t ∷ []) k (thpool_add_task true true t p).0
  unfolding thpool_add_task
  added-InOrder t = record {
    order = ap (λ l. l ++ t ∷ []) is.order ∙ append_assoc k p.shared.queue (t ∷ []);
    once = rw (held-woken p.workers) is.once;
  }

  stopped-InOrder : InOrder a k (stop_pool p)
  unfolding stop_pool
  stopped-InOrder = record { order = is.order; once = rw (held-woken p.workers) is.once }

  -- What a step of a worker has to keep.
  record Keeps (i : ℕ) (w : Worker) (r : Shared × Worker) : Type 0 where
    order : a ≡ (k ++ taken_by w p.shared) ++ r.0.queue
    once : Perm (r.0.called ++ held (set p.workers i r.1)) (k ++ taken_by w p.shared)

  still :
      (i : ℕ) (w w' : Worker) (s : Shared)
      → get_elem? p.workers i ≡ some w
      → task_of w ≡ []
      → task_of w' ≡ []
      → taken_by w p.shared ≡ []
      → s.queue ≡ p.shared.queue
      → s.called ≡ p.shared.called
      → Keeps i w (s, w')
  still i w w' s e f g none_taken q c = record {
    order = rw (none_taken, append-nil k, q) is.order;
    once = rw (none_taken, append-nil k, c, held-same p.workers i w w' e (f ∙ sym g)) is.once;
  }

  takes :
      (i : ℕ) (t : Task) (q : List Task)
      → get_elem? p.workers i ≡ some Worker.idle
      → p.shared.stop ≡ false
      → p.shared.queue ≡ t ∷ q
      → Keeps i Worker.idle (record (p.shared) { queue = q }, Worker.working t)
  takes i t q e go f = record {
    order =
        rw ((idle_task p.shared t q go f).0, append_assoc k (t ∷ []) q)
          (is.order ∙ ap (λ l. k ++ l) f);
    once = rw (idle_task p.shared t q go f).0 (
        Perm.trans (Perm.append_left p.shared.called (held-takes p.workers i Worker.idle t e refl))
          (Perm.trans (perm_middle p.shared.called (held p.workers))
            (Perm.trans (Perm.cons t is.once) (Perm.symm (perm_append_singleton t k)))));
  }

  runs :
      (i : ℕ) (t : Task)
      → get_elem? p.workers i ≡ some (Worker.working t)
      → Keeps i
          (Worker.working t)
          (record (p.shared) { called = p.shared.called ++ t ∷ [] }, Worker.idle)
  runs i t e = record {
    order = rw (append-nil k) is.order;
    once =
        rw
          (append-nil k, append_assoc p.shared.called (t ∷ []) (held (set p.workers i Worker.idle)))
          (Perm.trans (Perm.append_left p.shared.called (held-runs p.workers i t e)) is.once);
  }

  acquire-Keeps :
      (i : ℕ) → get_elem? p.workers i ≡ some Worker.idle → Keeps i Worker.idle (acquire p.shared)
  acquire-Keeps i e = elim (Bool-cases p.shared.stop) [
    | inl st ↦ let (u, v) = idle_stopped p.shared st in rw v (still i _ _ _ e refl refl u refl refl)
    | inr go ↦ elim (list_cases p.shared.queue) [
      | inl empty ↦
          let (u, v) = idle_nothing p.shared go empty in
          rw v (still i _ _ _ e refl refl u refl refl)
      | inr (t, q, f) ↦ rw (idle_task p.shared t q go f).1 (takes i t q e go f)
    ]
  ]

  worker_step-Keeps :
      (i : ℕ) (w : Worker) → get_elem? p.workers i ≡ some w → Keeps i w (worker_step w p.shared)
  unfolding worker_step
  worker_step-Keeps i Worker.starting e = still i _ _ _ e refl refl refl refl refl
  worker_step-Keeps i Worker.idle e = acquire-Keeps i e
  worker_step-Keeps i Worker.waiting e = still i _ _ _ e refl refl refl refl refl
  worker_step-Keeps i Worker.gone e = still i _ _ _ e refl refl refl refl refl
  worker_step-Keeps i (Worker.working t) e = runs i t e

  worker-InOrder : (i : ℕ) → InOrder a (k ++ taken_at i p) (worker i p)
  unfolding worker
  worker-InOrder i = elim (Option-cases (get_elem? p.workers i)) [
    | inl e ↦ rw (taken_out i p e, append-nil k) (rw (e, worker) is)
    | inr (w, e) ↦
        let kept = worker_step-Keeps i w e in
        rw (taken_in i p w e) (rw (e, worker) (record { order = kept.order; once = kept.once }))
  ]

-- Whatever the order in which tasks are added and workers take turns: the tasks are taken from the
-- queue in the order in which they were added, and each one that was taken has been called once or is
-- with a worker.
pub Runs-InOrder : {n : ℕ} {a k : List Task} {p : Pool} → Runs n a k p → InOrder a k p
Runs-InOrder {n} created = thpool_new-InOrder n
Runs-InOrder (added {a} {k} {p} t r) = added-InOrder a k p (Runs-InOrder r) t
Runs-InOrder (refused {a} {k} {p} task_ok node_ok t h r) =
    rw (refused_lem task_ok node_ok t p h) (Runs-InOrder r)
Runs-InOrder (stopped {a} {k} {p} r) = stopped-InOrder a k p (Runs-InOrder r)
Runs-InOrder (stepped {a} {k} {p} i r) = worker-InOrder a k p (Runs-InOrder r) i
