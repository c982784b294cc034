-- ===== src/MultiThreaded/Polled.antt =====
-- What it keeps of the two pools and the heap to poll the one.
use ezgrpc.Prelude.{ℕ, ◌≤◌, ◌≡◌, refl, ap, ◌∙◌, List, [], ◌∷◌, map, arith}
use ezgrpc.Service.{Service, IsService}
use ezgrpc.Pool.{Task, Pool, poll}
use ezgrpc.Pool.Counts.{count}
use ezgrpc.MultiThreaded.{Heap}
use ezgrpc.MultiThreaded.Tasks.{All, tasks_at, AllTasks-map, poll-AllTasks}
use ezgrpc.MultiThreaded.Results.{Result, Away, AllReady}
use ezgrpc.MultiThreaded.Pools.{
  poll-Counted, ToRun, HasRun, Live-at, Answerable-at, ToRun-at, HasRun-at, Pools,
}

module _ {S : Type 0} (service : Service S) (laws : IsService S service) (heap : Heap) (fresh : ℕ)
    (p q : Pool) (x : Pools service laws heap fresh p q) where
  -- What has been polled, and how it is to be answered.
  pub record Given (ts : List Task) : Type 0 where
    pub results : List Result
    pub is : ts ≡ map (λ (r : Result). r.task) results
    pub ready : AllReady service laws heap results
    pub away : (a : ℕ) → count a ts ≡ 0 → Away a results

  given :
      (ts : List Task) → All (HasRun service laws heap) ts → ((k : ℕ) → count k ts ≤ 1) → Given ts
  given [] h distinct = record { results = []; is = refl; ready = tt; away = λ a e. tt }
  given (t ∷ ts) h distinct =
      let g = given ts h.1 (λ k. omega (arith, distinct k)) in
      let z = h.0.answerable in
      let once : count t.address ts ≡ 0 = grind (arith, distinct t.address) in
      record {
        results = record { task = t; userdata = z.userdata; messages = z.messages } ∷ g.results;
        is = ap (λ l. t ∷ l) g.is;
        ready = (
          record { in_time = h.0.early; at = ap heap h.0.ret ∙ z.at; out = z.out; known = z.known },
          g.away t.ret (ap (λ (k : ℕ). count k ts) h.0.ret ∙ once),
          g.ready,
        );
        away = λ a e. (λ same. apart a same e, g.away a (omega (arith, e)));
      }
    where
      apart : (a : ℕ) → a ≡ t.ret → ¬ (count a (t ∷ ts) ≡ 0)
      apart a same e = grind (arith, same, h.0.ret, e)

  pub finished-Given : Given p.shared.finished
  finished-Given = given p.shared.finished x.first.finished (λ k. omega (arith, x.apart k))

  -- The results are taken from the first pool, and their structs freed.
  pub poll-Pools :
      (h : Heap)
      → ((a : ℕ) → Away a finished-Given.results → h a ≡ heap a)
      → Pools service laws h fresh (poll [] p).0 q
  unfolding poll
  poll-Pools h kept = record {
    first =
        AllTasks-map (poll [] p).0
          (λ t le.
            ToRun-at service laws heap h t
              (Live-at service laws heap h t.address (same t.address le)))
          (λ t le.
            HasRun-at service laws heap h t
              (Answerable-at service laws heap h t.address (same t.address le)))
          (poll-AllTasks (ToRun service laws heap) (HasRun service laws heap) p x.first);
    second =
        AllTasks-map q
          (λ t le.
            ToRun-at service laws heap h t
              (Live-at service laws heap h t.address (other t.address le)))
          (λ t le.
            HasRun-at service laws heap h t
              (Answerable-at service laws heap h t.address (other t.address le)))
          x.second;
    apart = λ k. omega (arith, x.apart k);
    unused = λ k le. (
      omega (arith, (x.unused k le).0),
      kept k (finished-Given.away k (omega (arith, (x.unused k le).0))) ∙ (x.unused k le).1,
    );
    first_counted = poll-Counted p x.first_counted;
    second_counted = x.second_counted;
  }
    where
      same : (a : ℕ) → 1 ≤ tasks_at a (poll [] p).0 → h a ≡ heap a
      same a le = kept a (finished-Given.away a (omega (arith, x.apart a, le)))

      other : (a : ℕ) → 1 ≤ tasks_at a q → h a ≡ heap a
      other a le = kept a (finished-Given.away a (omega (arith, x.apart a, le)))
