-- ===== src/MultiThreaded/Added.antt =====
-- What a new task and its struct keep of the two pools and the heap.
use ezgrpc.Prelude.{
  ℕ, ◌+◌, ◌≡◌, ◌≢◌, inl, inr, refl, sym, ap, ◌∙◌, true, some, none, arith, Bool-cases, ◌==◌,
}
use ezgrpc.Service.{Service, IsService}
use ezgrpc.Pool.{Pool, add_task}
use ezgrpc.MultiThreaded.{UserData, Heap, put, task}
use ezgrpc.MultiThreaded.Tasks.{add_task-AllTasks}
use ezgrpc.MultiThreaded.Pools.{
  add_task-tasks_at, add_task-Counted, ToRun, HasRun, Grows, Live-at, Answerable-at, Tasks-Grows,
  Pools,
}

module _ {S : Type 0} (service : Service S) (laws : IsService S service) (heap : Heap) (fresh : ℕ)
    (p q : Pool) (x : Pools service laws heap fresh p q) where
  module _ (u : UserData) (known : laws.Known u.session_uuid) where
    abbrev new_heap : Heap
    new_heap = put fresh (some u) heap

    new_other : (b : ℕ) → b ≢ fresh → new_heap b ≡ heap b
    new_other b h = ground arith

    new_at : new_heap fresh ≡ some u
    new_at = ground arith

    nothing_there : heap fresh ≡ none
    nothing_there = (x.unused fresh (omega arith)).1

    apart_from : (b : ℕ) (v : UserData) → heap b ≡ some v → b ≢ fresh
    apart_from b v e same = differ (sym e ∙ ap heap same ∙ nothing_there)
      where
        differ : {v : UserData} → some v ≢ none
        differ e = cc

    new-Grows : Grows service laws heap new_heap
    new-Grows = record {
      live = λ b y.
          Live-at service laws heap new_heap b (new_other b (apart_from b y.userdata y.at)) y;
      answerable = λ b y.
          Answerable-at service laws heap new_heap b (new_other b (apart_from b y.userdata y.at)) y;
    }

    -- A task is added with a new struct.
    pub add_task-Pools : Pools service laws new_heap (fresh + 1) (add_task true (task fresh) p).0 q
    add_task-Pools = record {
      first =
          add_task-AllTasks (ToRun service laws new_heap) (HasRun service laws new_heap)
            (task fresh) p
            (record {
              own = refl;
              whole = refl;
              early = refl;
              func = refl;
              live = record { userdata = u; at = new_at; known = known };
            })
            (Tasks-Grows service laws heap new_heap p new-Grows x.first);
      second = Tasks-Grows service laws heap new_heap q new-Grows x.second;
      apart = λ k. elim (Bool-cases (fresh == k)) [
        | inl e ↦
            grind (arith, add_task-tasks_at k (task fresh) p, (x.unused k (ground (arith, e))).0, e)
        | inr e ↦ grind (arith, add_task-tasks_at k (task fresh) p, x.apart k, e)
      ];
      unused = λ k le. (
        grind (arith, add_task-tasks_at k (task fresh) p, (x.unused k (omega (arith, le))).0, le),
        new_other k (λ same. omega (arith, le, same)) ∙ (x.unused k (omega (arith, le))).1,
      );
      first_counted = add_task-Counted (task fresh) p x.first_counted;
      second_counted = x.second_counted;
    }
