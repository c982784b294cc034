-- ===== src/MultiThreaded/Pools.antt =====
-- The structs that the tasks of the two pools are given, and the heap.
use ezgrpc.Prelude.{
  ℕ, ◌+◌, ◌≤◌, ◌≡◌, ◌≢◌, inl, inr, refl, sym, ◌∙◌, subst, true, false, some, none, List, [], ◌∷◌,
  ◌++◌, arith, Bool-cases, ◌==◌,
}
use ezgrpc.Wire.{Message}
use ezgrpc.Service.{Service, IsService}
use ezgrpc.Pool.{Task, Pool, worker, add_task, add_task2, poll}
use ezgrpc.Pool.Counts.{total-woken, count-append, has, one_if}
use ezgrpc.Pool.Invariant.{IsPool, add_task2-IsPool, poll-IsPool}
use ezgrpc.Pool.Runs.{worker-IsPool}
use ezgrpc.MultiThreaded.{UserData, Heap, put, run_callback, callback_path0, callback_path1}
use ezgrpc.SingleThreaded.{PathCallback, path0, path1}
use ezgrpc.MultiThreaded.Tasks.{AllTasks, tasks_at, AllTasks-map}

-- The counters of a pool are right, for some tasks that were added and polled.
pub record Counted (p : Pool) : Type 0 where
  pub added : List Task
  pub polled : List Task
  pub is : IsPool added polled p

pub worker-tasks_at :
    (k now i : ℕ) (p : Pool) → Counted p → tasks_at k (worker now i p) ≡ tasks_at k p
worker-tasks_at k now i p c =
    omega (arith, c.is.kept k, (worker-IsPool c.added c.polled p c.is i now).kept k)

pub add_task-tasks_at :
    (k : ℕ) (t : Task) (p : Pool)
    → tasks_at k (add_task true t p).0 ≡ tasks_at k p + one_if (t.address == k)
unfolding add_task add_task2
add_task-tasks_at k t p = omega (
  arith,
  count-append k p.shared.queue (record t { timeout = 0; is_timeout = false; ret = 0 } ∷ []),
  total-woken (has k) p.workers refl,
)

pub add_task-Counted : (t : Task) (p : Pool) → Counted p → Counted (add_task true t p).0
unfolding add_task
add_task-Counted t p c = record {
  added = c.added ++ record t { timeout = 0 } ∷ [];
  polled = c.polled;
  is = add_task2-IsPool c.added c.polled p c.is true (record t { timeout = 0 });
}

pub poll-Counted : (p : Pool) → Counted p → Counted (poll [] p).0
unfolding poll
poll-Counted p c = record {
  added = c.added;
  polled = c.polled ++ p.shared.finished;
  is = poll-IsPool c.added c.polled p c.is;
}

module _ {S : Type 0} (service : Service S) (laws : IsService S service) where
  -- There is a struct at the address, of a session that the table has room for.
  pub record Live (heap : Heap) (a : ℕ) : Type 0 where
    pub userdata : UserData
    pub at : heap a ≡ some userdata
    pub known : laws.Known userdata.session_uuid

  -- There is one with a response.
  pub record Answerable (heap : Heap) (a : ℕ) : Type 0 where
    pub userdata : UserData
    pub messages : List Message
    pub at : heap a ≡ some userdata
    pub out : userdata.omessages ≡ some messages
    pub known : laws.Known userdata.session_uuid

  pub record ToRun (heap : Heap) (t : Task) : Type 0 where
    pub own : t.userdata ≡ t.address
    pub whole : t.timeout ≡ 0
    pub early : t.is_timeout ≡ false
    pub func : t.func t.userdata ≡ t.userdata
    pub live : Live heap t.address

  pub record HasRun (heap : Heap) (t : Task) : Type 0 where
    pub early : t.is_timeout ≡ false
    pub ret : t.ret ≡ t.address
    pub answerable : Answerable heap t.address

  -- No struct is lost.
  pub record Grows (h h' : Heap) : Type 0 where
    pub live : (a : ℕ) → Live h a → Live h' a
    pub answerable : (a : ℕ) → Answerable h a → Answerable h' a

  pub ToRun-at :
      (h h' : Heap) (t : Task) → (Live h t.address → Live h' t.address) → ToRun h t → ToRun h' t
  ToRun-at h h' t f x = record {
    own = x.own;
    whole = x.whole;
    early = x.early;
    func = x.func;
    live = f x.live;
  }

  pub HasRun-at :
      (h h' : Heap) (t : Task)
      → (Answerable h t.address → Answerable h' t.address)
      → HasRun h t
      → HasRun h' t
  HasRun-at h h' t f x = record { early = x.early; ret = x.ret; answerable = f x.answerable }

  pub Live-at : (h h' : Heap) (a : ℕ) → h' a ≡ h a → Live h a → Live h' a
  Live-at h h' a e x = record { userdata = x.userdata; at = e ∙ x.at; known = x.known }

  pub Answerable-at : (h h' : Heap) (a : ℕ) → h' a ≡ h a → Answerable h a → Answerable h' a
  Answerable-at h h' a e x = record {
    userdata = x.userdata;
    messages = x.messages;
    at = e ∙ x.at;
    out = x.out;
    known = x.known;
  }

  -- The tasks of a pool, for a heap.
  abbrev pub Tasks : Heap → Pool → Type 0
  Tasks heap p = AllTasks (ToRun heap) (HasRun heap) p

  pub Tasks-Grows : (h h' : Heap) (p : Pool) → Grows h h' → Tasks h p → Tasks h' p
  Tasks-Grows h h' p g x =
      AllTasks-map p (λ t le. ToRun-at h h' t (g.live t.address))
        (λ t le. HasRun-at h h' t (g.answerable t.address)) x

  -- Of two pools: each task has a struct of its own, which it was added with, and every address from
  -- `fresh` on is free.
  pub record Pools (heap : Heap) (fresh : ℕ) (p q : Pool) : Type 0 where
    pub first : Tasks heap p
    pub second : Tasks heap q
    pub apart : (k : ℕ) → tasks_at k p + tasks_at k q ≤ 1
    pub unused : (k : ℕ) → fresh ≤ k → (tasks_at k p + tasks_at k q ≡ 0) × (heap k ≡ none)
    pub first_counted : Counted p
    pub second_counted : Counted q

  pub Pools-swap : (h : Heap) (f : ℕ) (p q : Pool) → Pools h f p q → Pools h f q p
  Pools-swap h f p q x = record {
    first = x.second;
    second = x.first;
    apart = λ k. omega (arith, x.apart k);
    unused = λ k le. (omega (arith, (x.unused k le).0), (x.unused k le).1);
    first_counted = x.second_counted;
    second_counted = x.first_counted;
  }

  -- A callback leaves a response, and the session as it is.
  run_callback-answers :
      (seen : ℕ → ℕ) (u : UserData)
      → ((run_callback seen u).session_uuid ≡ u.session_uuid)
        × ((ms : List Message) × ((run_callback seen u).omessages ≡ some ms))
  unfolding callback_path0 callback_path1
  run_callback-answers seen u = by_path u.callback refl
    where
      by_path :
          (c : PathCallback)
          → u.callback ≡ c
          → ((run_callback seen u).session_uuid ≡ u.session_uuid)
            × ((ms : List Message) × ((run_callback seen u).omessages ≡ some ms))
      by_path path0 e = elim (Bool-cases (u.status == 0)) [
        | inl ok ↦ rw (e, ok) (refl, (_, refl))
        | inr bad ↦ rw (e, bad) (refl, (_, refl))
      ]
      by_path path1 e = elim (Bool-cases (u.status == 0)) [
        | inl ok ↦ rw (e, ok) (refl, (_, refl))
        | inr bad ↦ rw (e, bad) (refl, (_, refl))
      ]

  module _ (seen : ℕ → ℕ) (heap : Heap) (a : ℕ) (x : Live heap a) where
    abbrev pub ran_heap : Heap
    ran_heap = put a (some (run_callback seen x.userdata)) heap

    pub ran_at : ran_heap a ≡ some (run_callback seen x.userdata)
    ran_at = ground arith

    pub ran_other : (b : ℕ) → b ≢ a → ran_heap b ≡ heap b
    ran_other b h = ground arith

    pub ran-Answerable : Answerable ran_heap a
    ran-Answerable =
        let (same, response) = run_callback-answers seen x.userdata in
        record {
          userdata = run_callback seen x.userdata;
          messages = response.0;
          at = ran_at;
          out = response.1;
          known = subst laws.Known (sym same) x.known;
        }

    pub ran-Grows : Grows heap ran_heap
    ran-Grows = record {
      live = λ b y. elim (Bool-cases (b == a)) [
        | inl e ↦
            let same : a ≡ b = ground (arith, e) in
            let r = ran-Answerable in
            subst (Live ran_heap) same
              (record { userdata = r.userdata; at = r.at; known = r.known })
        | inr ne ↦ Live-at heap ran_heap b (ran_other b (ground (arith, ne))) y
      ];
      answerable = λ b y. elim (Bool-cases (b == a)) [
        | inl e ↦
            let same : a ≡ b = ground (arith, e) in subst (Answerable ran_heap) same ran-Answerable
        | inr ne ↦ Answerable-at heap ran_heap b (ran_other b (ground (arith, ne))) y
      ];
    }
