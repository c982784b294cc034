-- ===== src/LogPool/Join.antt =====
-- `thpool_stop_and_join` and `thpool_free`.
use ezgrpc.Prelude.{
  ℕ, zero, suc, ◌+◌, ◌-◌, ◌<◌, ◌≤◌, ◌≡◌, ◌≢◌, refl, sym, ap, ◌∙◌, subst, true, some, List, [], ◌∷◌,
  ◌++◌, append-nil, get_elem?, length, map, arith, get_elem?-set_ne, length-set,
}
use native.Mathlib.Decide.{dec_lt}
use mathlib.Core.List.{Perm}
use mathlib.Core.List.Perm
use ezgrpc.LogPool.{
  Task, Worker, Shared, Pool, worker_step, work, stop_pool, join, thpool_stop_and_join, clean_queue,
  thpool_free, woken,
}
use ezgrpc.LogPool.Held.{task_of, held}
use ezgrpc.LogPool.Order.{Runs, stopped, stepped, Runs-InOrder, idle_stopped}
use ezgrpc.LogPool.Drains.{worker_at, stepped_at, stepped_by}

-- The steps after which a worker of a pool that is stopped has left its loop.
abbrev to_end : Worker → ℕ
to_end Worker.gone = 0
to_end Worker.idle = 1
to_end _ = 2

-- Worker `i` has ended and the others are where they were.
record Ended (i : ℕ) (p after : Pool) : Type 0 where
  pub ended : get_elem? after.workers i ≡ some Worker.gone
  pub others : (j : ℕ) → i ≢ j → get_elem? after.workers j ≡ get_elem? p.workers j
  pub stop : after.shared.stop ≡ true
  pub size : length after.workers ≡ length p.workers
  pub queue : after.shared.queue ≡ p.shared.queue

module _ (i : ℕ) (p : Pool) (r : Shared × Worker) where
  through :
      {after : Pool}
      → r.0.queue ≡ p.shared.queue
      → Ended i (stepped_by i p r) after
      → Ended i p after
  through q e = record {
    ended = e.ended;
    others = λ j ne. e.others j ne ∙ get_elem?-set_ne p.workers i j r.1 ne;
    stop = e.stop;
    size = e.size ∙ length-set p.workers i r.1;
    queue = e.queue ∙ q;
  }

work-Ended :
    (fuel i : ℕ) (p : Pool) (w : Worker)
    → get_elem? p.workers i ≡ some w
    → p.shared.stop ≡ true
    → to_end w ≤ fuel
    → Ended i p (work fuel i p)
unfolding work worker_step
work-Ended zero i p Worker.gone e st h = record {
  ended = e;
  others = λ j ne. refl;
  stop = st;
  size = refl;
  queue = refl;
}
work-Ended zero i p Worker.idle e st h = absurd (omega arith)
work-Ended zero i p Worker.starting e st h = absurd (omega arith)
work-Ended zero i p Worker.waiting e st h = absurd (omega arith)
work-Ended zero i p (Worker.working t) e st h = absurd (omega arith)
work-Ended (suc fuel) i p Worker.gone e st h =
    let r = worker_step Worker.gone p.shared in
    rw (worker_at i p Worker.gone e) (
      through i p r refl (
        work-Ended fuel i (stepped_by i p r) Worker.gone (stepped_at i p Worker.gone r e) st
          (omega arith)))
work-Ended (suc fuel) i p Worker.starting e st h =
    let r = worker_step Worker.starting p.shared in
    rw (worker_at i p Worker.starting e) (
      through i p r refl (
        work-Ended fuel i (stepped_by i p r) Worker.idle (stepped_at i p Worker.starting r e) st
          (omega arith)))
work-Ended (suc fuel) i p Worker.waiting e st h =
    let r = worker_step Worker.waiting p.shared in
    rw (worker_at i p Worker.waiting e) (
      through i p r refl (
        work-Ended fuel i (stepped_by i p r) Worker.idle (stepped_at i p Worker.waiting r e) st
          (omega arith)))
work-Ended (suc fuel) i p (Worker.working t) e st h =
    let r = worker_step (Worker.working t) p.shared in
    rw (worker_at i p (Worker.working t) e) (
      through i p r refl (
        work-Ended fuel i (stepped_by i p r) Worker.idle (stepped_at i p (Worker.working t) r e) st
          (omega arith)))
work-Ended (suc fuel) i p Worker.idle e st h =
    let r : Shared × Worker = (record (p.shared) { live = p.shared.live - 1 }, Worker.gone) in
    rw (worker_at i p Worker.idle e, (idle_stopped p.shared st).1)
      (through i p r refl (
        work-Ended fuel i (stepped_by i p r) Worker.gone (stepped_at i p Worker.idle r e) st
          (omega arith)))

-- The workers before index `i` have ended.
abbrev GoneBefore : ℕ → Pool → Type 0
GoneBefore i p = (j : ℕ) → j < i → get_elem? p.workers j ≡ some Worker.gone

record Joined (n i : ℕ) (p after : Pool) : Type 0 where
  pub gone : GoneBefore (n + i) after
  pub stop : after.shared.stop ≡ true
  pub size : length after.workers ≡ length p.workers
  pub queue : after.shared.queue ≡ p.shared.queue

get_elem-some :
    (ws : List Worker) (i : ℕ) → i < length ws → (w : Worker) × (get_elem? ws i ≡ some w)
get_elem-some [] i h = absurd (omega arith)
get_elem-some (w ∷ ws) zero h = (w, refl)
get_elem-some (w ∷ ws) (suc i) h = get_elem-some ws i (omega arith)

to_end-le : (w : Worker) → to_end w ≤ 2
to_end-le Worker.starting = omega arith
to_end-le Worker.idle = omega arith
to_end-le Worker.waiting = omega arith
to_end-le Worker.gone = omega arith
to_end-le (Worker.working t) = omega arith

join-Joined :
    (fuel n i : ℕ) (p : Pool)
    → 2 ≤ fuel
    → p.shared.stop ≡ true
    → n + i ≤ length p.workers
    → GoneBefore i p
    → Joined n i p (join fuel n i p)
unfolding join
join-Joined fuel zero i p enough st le gone = record {
  gone = λ j h. gone j (omega arith);
  stop = st;
  size = refl;
  queue = refl;
}
join-Joined fuel (suc n) i p enough st le gone =
    let (w, e) = get_elem-some p.workers i (omega arith) in
    let d = work-Ended fuel i p w e st (omega (arith, to_end-le w)) in
    let rest =
      join-Joined fuel n (i + 1) (work fuel i p) enough d.stop (omega (arith, d.size)) (before d) in
    record {
      gone = λ j h. rest.gone j (omega arith);
      stop = rest.stop;
      size = rest.size ∙ d.size;
      queue = rest.queue ∙ d.queue;
    }
  where
    before : {after : Pool} → Ended i p after → GoneBefore (i + 1) after
    before {after} d j h = elim (dec_lt j i) [
      | yes below ↦ d.others j (λ e. absurd (omega (arith, e, below))) ∙ gone j below
      | no no_lower ↦
          let here : i ≡ j = omega (arith, no_lower, h) in
          subst (λ m. get_elem? after.workers m ≡ some Worker.gone) here d.ended
    ]

held_gone :
    (ws : List Worker)
    → ((j : ℕ) → j < length ws → get_elem? ws j ≡ some Worker.gone)
    → held ws ≡ []
held_gone [] g = refl
held_gone (w ∷ ws) g =
    let h : task_of w ≡ [] = ap task_of (same (g 0 (omega arith))) in
    rw h (held_gone ws (λ j l. g (suc j) (omega arith)))
  where
    same : {v : Worker} → some v ≡ some Worker.gone → v ≡ Worker.gone
    same e = cc

-- Joining the workers is one of the runs.
module _ {n : ℕ} {a : List Task} where
  work-Runs :
      (fuel i : ℕ) {k : List Task} {p : Pool}
      → Runs n a k p
      → (k' : List Task) × Runs n a k' (work fuel i p)
  unfolding work
  work-Runs zero i {k} r = (k, r)
  work-Runs (suc fuel) i {k} {p} r = work-Runs fuel i (stepped i r)

  join-Runs :
      (fuel m i : ℕ) {k : List Task} {p : Pool}
      → Runs n a k p
      → (k' : List Task) × Runs n a k' (join fuel m i p)
  unfolding join
  join-Runs fuel zero i {k} r = (k, r)
  join-Runs fuel (suc m) i r = join-Runs fuel m (i + 1) (work-Runs fuel i r).1

abbrev pub AllCleaned : List Task → Type 0
AllCleaned [] = Unit {0}
AllCleaned (t ∷ ts) = (t.has_userdata_cleanup ≡ true) × AllCleaned ts

length-woken : (ws : List Worker) → length (map woken ws) ≡ length ws
length-woken [] = refl
length-woken (w ∷ ws) = omega (arith, length-woken ws)

AllCleaned-right : (xs ys : List Task) → AllCleaned (xs ++ ys) → AllCleaned ys
AllCleaned-right [] ys h = h
AllCleaned-right (x ∷ xs) ys h = AllCleaned-right xs ys h.1

clean_queue-AllCleaned : (ts : List Task) → AllCleaned ts → clean_queue ts ≡ ts
unfolding clean_queue
clean_queue-AllCleaned [] h = refl
clean_queue-AllCleaned (t ∷ ts) h = simp (h.0, clean_queue-AllCleaned ts h.1)

pub record Freed (a : List Task) (r : Pool × List Task) : Type 0 where
  pub ended : held r.0.workers ≡ []
  pub emptied : r.0.shared.queue ≡ []
  pub accounted : Perm (r.0.shared.called ++ r.1) a

-- To free a pool whose tasks all have a cleanup function, with two steps for each worker to end: no
-- worker has a task left, the queue is empty, and the tasks that were called, before or meanwhile,
-- and those whose userdata is cleaned up are together those that were added, each just once.
pub thpool_free-Freed :
    {n : ℕ} {a k : List Task} {p : Pool}
    → Runs n a k p
    → AllCleaned a
    → (fuel : ℕ) → 2 ≤ fuel
    → Freed a (thpool_free fuel p)
unfolding thpool_free thpool_stop_and_join stop_pool
thpool_free-Freed {n} {a} {k} {p} r clean fuel enough =
    let size : length (map woken p.workers) ≡ length p.workers = length-woken p.workers in
    let j =
      join-Joined fuel (length p.workers) 0 (stop_pool p) enough refl (omega (arith, size))
        (λ j h. elim h [ ]) in
    let (k', r') = join-Runs fuel (length p.workers) 0 (stopped r) in
    let is = Runs-InOrder r' in
    let after = join fuel (length p.workers) 0 (stop_pool p) in
    let ended : held after.workers ≡ [] =
      held_gone after.workers (λ j' h. j.gone j' (omega (arith, j.size, size, h))) in
    record {
      ended = ended;
      emptied = refl;
      accounted =
          let all_clean : AllCleaned (k' ++ after.shared.queue) = subst AllCleaned is.order clean in
          let left : clean_queue after.shared.queue ≡ after.shared.queue =
            clean_queue-AllCleaned after.shared.queue
              (AllCleaned-right k' after.shared.queue all_clean) in
          let called : Perm after.shared.called k' =
            subst (λ l. Perm l k')
              (ap (λ l. after.shared.called ++ l) ended ∙ append-nil after.shared.called) is.once in
          subst (λ l. Perm (after.shared.called ++ l) a) (sym left)
            (subst (Perm (after.shared.called ++ after.shared.queue)) (sym is.order)
              (Perm.append_right after.shared.queue called));
    }
