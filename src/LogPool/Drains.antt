-- ===== src/LogPool/Drains.antt =====
-- What becomes of the queue where a worker is let to run.
use ezgrpc.Prelude.{
  ℕ, zero, suc, ◌+◌, ◌*◌, ◌≤◌, ◌≡◌, ◌⊎◌, inl, inr, refl, sym, ap, ◌∙◌, subst, Bool, true, false,
  some, List, [], ◌∷◌, ◌++◌, append-nil, append_assoc, get_elem?, set, length, get_elem?-set_self,
  arith,
}
use ezgrpc.LogPool.{Task, Worker, Shared, Pool, worker_step, worker, work}
use ezgrpc.LogPool.Held.{task_of, get_elem-length}
use ezgrpc.LogPool.Order.{idle_nothing, idle_task}

-- The pool after a step of the worker of index `i`.
abbrev pub stepped_by : ℕ → Pool → Shared × Worker → Pool
stepped_by i p r = record { shared = r.0; workers = set p.workers i r.1 }

pub worker_at :
    (i : ℕ) (p : Pool) (w : Worker)
    → get_elem? p.workers i ≡ some w
    → worker i p ≡ stepped_by i p (worker_step w p.shared)
unfolding worker
worker_at i p w e = rw (e, worker) refl

pub stepped_at :
    (i : ℕ) (p : Pool) (w : Worker) (r : Shared × Worker)
    → get_elem? p.workers i ≡ some w
    → get_elem? (stepped_by i p r).workers i ≡ some r.1
stepped_at i p w r e = get_elem?-set_self p.workers i r.1 (get_elem-length p.workers i w e)

-- The steps after which a worker has emptied a queue.
abbrev pub needs : Worker → List Task → ℕ
needs Worker.idle q = 2 * length q
needs (Worker.working t) q = 1 + 2 * length q
needs _ [] = 0
needs _ (t ∷ q) = 3 + 2 * length q

-- All of `ts` have been called, in order, and none is queued.
pub record Drained (p : Pool) (ts : List Task) (after : Pool) : Type 0 where
  pub queue : after.shared.queue ≡ []
  pub called : after.shared.called ≡ p.shared.called ++ ts

abbrev pub is_gone : Worker → Bool
is_gone Worker.gone = true
is_gone _ = false

-- The same from the pool before a step in which nothing is called.
silent :
    {p p' after : Pool} {ts : List Task}
    → p'.shared.called ≡ p.shared.called
    → Drained p' ts after
    → Drained p ts after
silent {ts} e d = record { queue = d.queue; called = d.called ∙ ap (λ l. l ++ ts) e }

needs-idle :
    (w : Worker) (q : List Task) (fuel : ℕ)
    → (w ≡ Worker.starting) ⊎ (w ≡ Worker.waiting)
    → needs w q ≤ suc fuel
    → needs Worker.idle q ≤ fuel
needs-idle w [] fuel e h = omega arith
needs-idle w (t ∷ q) fuel (inl e) h = omega (arith, subst (λ v. needs v (t ∷ q) ≤ suc fuel) e h)
needs-idle w (t ∷ q) fuel (inr e) h = omega (arith, subst (λ v. needs v (t ∷ q) ≤ suc fuel) e h)

-- In a pool that is not stopped a worker that goes on makes the calls of its task and of all that are
-- queued, in order.
pub work-Drained :
    (fuel i : ℕ) (p : Pool) (w : Worker) (q : List Task)
    → get_elem? p.workers i ≡ some w
    → p.shared.stop ≡ false
    → is_gone w ≡ false
    → p.shared.queue ≡ q
    → needs w q ≤ fuel
    → Drained p (task_of w ++ q) (work fuel i p)
unfolding work worker_step
work-Drained zero i p Worker.gone q e go alive f h = cc
work-Drained zero i p Worker.idle [] e go alive f h = record {
  queue = f;
  called = sym (append-nil p.shared.called);
}
work-Drained zero i p Worker.idle (t ∷ q) e go alive f h = absurd (omega arith)
work-Drained zero i p Worker.starting [] e go alive f h = record {
  queue = f;
  called = sym (append-nil p.shared.called);
}
work-Drained zero i p Worker.starting (t ∷ q) e go alive f h = absurd (omega arith)
work-Drained zero i p Worker.waiting [] e go alive f h = record {
  queue = f;
  called = sym (append-nil p.shared.called);
}
work-Drained zero i p Worker.waiting (t ∷ q) e go alive f h = absurd (omega arith)
work-Drained zero i p (Worker.working t) q e go alive f h = absurd (omega arith)
work-Drained (suc fuel) i p Worker.gone q e go alive f h = cc
work-Drained (suc fuel) i p Worker.starting q e go alive f h =
    let r = worker_step Worker.starting p.shared in
    rw (worker_at i p Worker.starting e) (
      silent refl (
        work-Drained fuel i (stepped_by i p r) Worker.idle q (stepped_at i p Worker.starting r e) go
          refl f (needs-idle Worker.starting q fuel (inl refl) h)))
work-Drained (suc fuel) i p Worker.waiting q e go alive f h =
    let r = worker_step Worker.waiting p.shared in
    rw (worker_at i p Worker.waiting e) (
      silent refl (
        work-Drained fuel i (stepped_by i p r) Worker.idle q (stepped_at i p Worker.waiting r e) go
          refl f (needs-idle Worker.waiting q fuel (inr refl) h)))
work-Drained (suc fuel) i p (Worker.working t) q e go alive f h =
    let r = worker_step (Worker.working t) p.shared in
    let rest =
      work-Drained fuel i (stepped_by i p r) Worker.idle q (stepped_at i p (Worker.working t) r e)
        go refl f (omega arith) in
    rw (worker_at i p (Worker.working t) e) (record {
      queue = rest.queue;
      called = rest.called ∙ append_assoc p.shared.called (t ∷ []) q;
    })
work-Drained (suc fuel) i p Worker.idle [] e go alive f h =
    let r : Shared × Worker = (p.shared, Worker.waiting) in
    rw (worker_at i p Worker.idle e, (idle_nothing p.shared go f).1)
      (silent refl (
        work-Drained fuel i (stepped_by i p r) Worker.waiting [] (stepped_at i p Worker.idle r e) go
          refl f (omega arith)))
work-Drained (suc fuel) i p Worker.idle (t ∷ q) e go alive f h =
    let r : Shared × Worker = (record (p.shared) { queue = q }, Worker.working t) in
    rw (worker_at i p Worker.idle e, (idle_task p.shared t q go f).1)
      (silent refl (
        work-Drained fuel i (stepped_by i p r) (Worker.working t) q (stepped_at i p Worker.idle r e)
          go refl refl (omega arith)))
