-- ===== src/MultiThreaded/Turns.antt =====
-- What a step of a worker keeps of the two pools and the heap.
use ezgrpc.Prelude.{
  ℕ, ◌≡◌, ◌≢◌, inl, inr, refl, sym, ap, ◌∙◌, subst, some, none, true, get_elem?, arith,
  Option-cases,
}
use ezgrpc.Service.{Service, IsService}
use ezgrpc.Pool.{Task, Worker, Pool, execute, worker}
use ezgrpc.Pool.Runs.{worker-IsPool}
use ezgrpc.MultiThreaded.{Heap, run_task}
use ezgrpc.MultiThreaded.Tasks.{AllOf-get, worker-AllTasks}
use ezgrpc.MultiThreaded.Pools.{
  worker-tasks_at, Live, Answerable, ToRun, HasRun, Grows, Tasks-Grows, Pools, ran_heap,
  ran-Answerable, ran-Grows, ran_other,
}

-- A task without a timeout is run whenever its turn comes.
execute_lem :
    (now : ℕ) (t : Task) → t.timeout ≡ 0 → execute now t ≡ record t { ret = t.func t.userdata }
unfolding execute
execute_lem now t e = ground arith

module _ {S : Type 0} (service : Service S) (laws : IsService S service) (heap : Heap) (fresh : ℕ)
    (p q : Pool) (x : Pools service laws heap fresh p q) where
  executed :
      (now : ℕ) (h : Heap) (t : Task)
      → ToRun service laws h t
      → Answerable service laws h t.address
      → HasRun service laws h (execute now t)
  executed now h t y z =
      subst (HasRun service laws h) (sym (execute_lem now t y.whole))
        (record { early = y.early; ret = y.func ∙ y.own; answerable = z })

  pub record Runs (seen : ℕ → ℕ) (now i : ℕ) : Type 0 where
    pub after : Heap
    pub is : run_task true seen p i heap ≡ some after
    pub pools : Pools service laws after fresh (worker now i p) q

  module _ (seen : ℕ → ℕ) (now i : ℕ) where
    moved :
        (h : Heap)
        → Grows service laws heap h
        → ((k : ℕ) → heap k ≡ none → h k ≡ none)
        → ((t : Task)
            → get_elem? p.workers i ≡ some (Worker.working t)
            → Answerable service laws h t.address)
        → Pools service laws h fresh (worker now i p) q
    moved h g still answers = record {
      first =
          worker-AllTasks (ToRun service laws h) (HasRun service laws h) now i p
            (λ t e y. executed now h t y (answers t e))
            (Tasks-Grows service laws heap h p g x.first);
      second = Tasks-Grows service laws heap h q g x.second;
      apart = λ k. omega (arith, x.apart k, worker-tasks_at k now i p x.first_counted);
      unused = λ k le. (
        omega (arith, (x.unused k le).0, worker-tasks_at k now i p x.first_counted),
        still k (x.unused k le).1,
      );
      first_counted = record {
        added = x.first_counted.added;
        polled = x.first_counted.polled;
        is = worker-IsPool x.first_counted.added x.first_counted.polled p x.first_counted.is i now;
      };
      second_counted = x.second_counted;
    }

    idle_run :
        run_task true seen p i heap ≡ some heap
        → ((t : Task) → get_elem? p.workers i ≢ some (Worker.working t))
        → Runs seen now i
    idle_run e no_task = record {
      after = heap;
      is = e;
      pools =
          moved heap (record { live = λ a y. y; answerable = λ a y. y }) (λ k e. e)
            (λ t e. absurd (no_task t e));
    }

    task_run : (t : Task) → get_elem? p.workers i ≡ some (Worker.working t) → Runs seen now i
    unfolding run_task
    task_run t e =
        let y =
          AllOf-get (ToRun service laws heap) (HasRun service laws heap) p.workers i
            (Worker.working t) e x.first.workers in
        let live = subst (Live service laws heap) (sym y.own) y.live in
        let h = ran_heap service laws seen heap t.userdata live in
        record {
          after = h;
          is = rw (e, run_task) (rw (live.at, run_task) refl);
          pools =
              moved h (ran-Grows service laws seen heap t.userdata live)
                (λ k nothing.
                  ran_other service laws seen heap t.userdata live k (λ same. cc) ∙ nothing)
                (λ u f.
                  let same : t.userdata ≡ u.address =
                    y.own ∙ ap (λ (v : Task). v.address) (one t u e f) in
                  subst (Answerable service laws h) same
                    (ran-Answerable service laws seen heap t.userdata live));
        }
      where
        one :
            (t u : Task)
            → get_elem? p.workers i ≡ some (Worker.working t)
            → get_elem? p.workers i ≡ some (Worker.working u)
            → t ≡ u
        one t u e f = cc

    -- A worker of the first pool takes its turn.
    pub worker-Runs : Runs seen now i
    unfolding run_task
    worker-Runs = elim (Option-cases (get_elem? p.workers i)) [
      | inl e ↦ idle_run (rw (e, run_task) refl) (λ t f. cc)
      | inr (w, e) ↦ by_place w e
    ]
      where
        by_place : (w : Worker) → get_elem? p.workers i ≡ some w → Runs seen now i
        by_place Worker.starting e = idle_run (rw (e, run_task) refl) (λ t f. cc)
        by_place Worker.idle e = idle_run (rw (e, run_task) refl) (λ t f. cc)
        by_place Worker.waiting e = idle_run (rw (e, run_task) refl) (λ t f. cc)
        by_place Worker.gone e = idle_run (rw (e, run_task) refl) (λ t f. cc)
        by_place (Worker.ran t) e = idle_run (rw (e, run_task) refl) (λ u f. cc)
        by_place (Worker.working t) e = task_run t e
