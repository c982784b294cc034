-- ===== src/MultiThreaded/Reaches.antt =====
-- The states that the program comes to, with its workers taking turns in any order.
use ezgrpc.Prelude.{
  true, ℕ, ◌<◌, ◌≡◌, refl, sym, ◌∙◌, subst, some, none, Option, List, [], arith, length,
}
use ezgrpc.Event.{Event}
use ezgrpc.Service.{Service, IsService}
use ezgrpc.Pool.{pool_new}
use ezgrpc.Pool.Invariant.{pool_new-IsPool}
use ezgrpc.Pool.Counts.{total-replicate, has}
use ezgrpc.SingleThreaded.{Program}
use ezgrpc.MultiThreaded.{
  App, start, handle_events, step_opool, step_upool, handle_opool, handle_upool,
}
use ezgrpc.MultiThreaded.Tasks.{tasks_at, pool_new-AllTasks}
use ezgrpc.MultiThreaded.Pools.{ToRun, HasRun, Counted}
use ezgrpc.MultiThreaded.Handles.{
  IsSafe, Goes, step_opool-Goes, step_upool-Goes, handle_opool-Goes, handle_upool-Goes,
}
use ezgrpc.MultiThreaded.Reads.{AllFor, handle_events-Hands}

new_tasks_at : (k n : ℕ) → tasks_at k (pool_new n) ≡ 0
unfolding pool_new
new_tasks_at k n = omega (arith, total-replicate (has k) n refl)

new_Counted : (n : ℕ) → Counted (pool_new n)
new_Counted n = record { added = []; polled = []; is = pool_new-IsPool n }

module _ {S : Type 0} (service : Service S) (laws : IsService S service) (program : Program) where
  -- The program with the events that its server holds. Between the steps of the program's thread,
  -- which polls the server, handles its events and the results of the pools, the workers of the pools
  -- take steps.
  pub data Reaches : App S → List Event → Type 0 where
    started :
        (s : S) (xs : List Event)
        → laws.Good s xs
        → AllFor service laws program xs
        → Reaches (start s) xs
    polled :
        (app : App S) (xs ys : List Event) (s : S)
        → Reaches app xs
        → laws.Good s ys
        → AllFor service laws program ys
        → Reaches (record app { server = s }) ys
    handled :
        (app app' : App S) (xs : List Event) (fuel : ℕ)
        → Reaches app xs
        → length xs < fuel
        → handle_events service program true fuel app ≡ some app'
        → Reaches app' []
    ordered_turn :
        (app app' : App S) (xs : List Event) (seen : ℕ → ℕ) (now i : ℕ)
        → Reaches app xs
        → step_opool true seen now i app ≡ some app'
        → Reaches app' xs
    unordered_turn :
        (app app' : App S) (xs : List Event) (seen : ℕ → ℕ) (now i : ℕ)
        → Reaches app xs
        → step_upool true seen now i app ≡ some app'
        → Reaches app' xs
    ordered_results :
        (app app' : App S) (xs : List Event)
        → Reaches app xs
        → handle_opool service app ≡ some app'
        → Reaches app' xs
    unordered_results :
        (app app' : App S) (xs : List Event)
        → Reaches app xs
        → handle_upool service app ≡ some app'
        → Reaches app' xs

  pub start-IsSafe : (s : S) (xs : List Event) → laws.Good s xs → IsSafe service laws (start s) xs
  unfolding start
  start-IsSafe s xs good = record {
    good = good;
    pools = record {
      first =
          pool_new-AllTasks (ToRun service laws (λ a. none)) (HasRun service laws (λ a. none)) 1;
      second =
          pool_new-AllTasks (ToRun service laws (λ a. none)) (HasRun service laws (λ a. none)) 2;
      apart = λ k. omega (arith, new_tasks_at k 1, new_tasks_at k 2);
      unused = λ k le. (omega (arith, new_tasks_at k 1, new_tasks_at k 2), refl);
      first_counted = new_Counted 1;
      second_counted = new_Counted 2;
    };
  }

  Goes-IsSafe :
      (app' : App S) (xs : List Event) (o : Option (App S))
      → Goes service laws xs o
      → o ≡ some app'
      → IsSafe service laws app' xs
  Goes-IsSafe app' xs o g e =
      subst (λ (a : App S). IsSafe service laws a xs) (same g.after app' (sym g.is ∙ e)) g.safe
    where
      same : (a b : App S) → some a ≡ some b → a ≡ b
      same a b e = cc

  events_read :
      (fuel : ℕ) (xs : List Event) (app : App S)
      → IsSafe service laws app xs
      → AllFor service laws program xs
      → length xs < fuel
      → Goes service laws [] (handle_events service program true fuel app)
  events_read fuel xs app safe all enough =
      let r = handle_events-Hands service laws program fuel xs app safe all enough in
      record { after = r.after; is = r.is; safe = r.safe }

  record Holding (app : App S) (xs : List Event) : Type 0 where
    safe : IsSafe service laws app xs
    all : AllFor service laws program xs

  Reaches-Holding : {app : App S} {xs : List Event} → Reaches app xs → Holding app xs
  Reaches-Holding (started s xs good all) = record { safe = start-IsSafe s xs good; all = all }
  Reaches-Holding (polled app xs ys s r good all) = record {
    safe = record { good = good; pools = (Reaches-Holding r).safe.pools };
    all = all;
  }
  Reaches-Holding (handled app app' xs fuel r enough e) =
      let h = Reaches-Holding r in
      record {
        safe = Goes-IsSafe app' [] _ (events_read fuel xs app h.safe h.all enough) e;
        all = tt;
      }
  Reaches-Holding (ordered_turn app app' xs seen now i r e) =
      let h = Reaches-Holding r in
      record {
        safe = Goes-IsSafe app' xs _ (step_opool-Goes service laws app xs h.safe seen now i) e;
        all = h.all;
      }
  Reaches-Holding (unordered_turn app app' xs seen now i r e) =
      let h = Reaches-Holding r in
      record {
        safe = Goes-IsSafe app' xs _ (step_upool-Goes service laws app xs h.safe seen now i) e;
        all = h.all;
      }
  Reaches-Holding (ordered_results app app' xs r e) =
      let h = Reaches-Holding r in
      record {
        safe = Goes-IsSafe app' xs _ (handle_opool-Goes service laws app xs h.safe) e;
        all = h.all;
      }
  Reaches-Holding (unordered_results app app' xs r e) =
      let h = Reaches-Holding r in
      record {
        safe = Goes-IsSafe app' xs _ (handle_upool-Goes service laws app xs h.safe) e;
        all = h.all;
      }

  -- Every step that the program or a worker may take next returns.
  pub record GoesOn (app : App S) (xs : List Event) : Type 0 where
    pub events :
        (fuel : ℕ)
        → length xs < fuel
        → (after : App S) × (handle_events service program true fuel app ≡ some after)
    pub ordered_turns :
        (seen : ℕ → ℕ) (now i : ℕ) → (after : App S) × (step_opool true seen now i app ≡ some after)
    pub unordered_turns :
        (seen : ℕ → ℕ) (now i : ℕ) → (after : App S) × (step_upool true seen now i app ≡ some after)
    pub ordered : (after : App S) × (handle_opool service app ≡ some after)
    pub unordered : (after : App S) × (handle_upool service app ≡ some after)

  -- On a machine that takes the store of a `uint32_t` at any address, over a service whose calls
  -- return, and where `malloc` has room, in whatever order the program's thread and the workers of its
  -- two pools take their steps, and whatever well formed servers with events for registered paths it
  -- polls: each step that may be taken next returns, and so meets no NULL or freed struct and no failed
  -- assertion. A callback always finds the struct that its task was added with;
  -- each result that is polled has its response in place; no struct is freed twice or used when it
  -- has been freed; and to read the events ends with one read more than there are events.
  pub Reaches-GoesOn : {app : App S} {xs : List Event} → Reaches app xs → GoesOn app xs
  Reaches-GoesOn {app} {xs} r =
      let h = Reaches-Holding r in
      let returns : (ys : List Event) (o : Option (App S))
          → Goes service laws ys o
          → (after : App S) × (o ≡ some after) =
        λ ys o g. (g.after, g.is) in
      record {
        events = λ fuel enough. returns [] _ (events_read fuel xs app h.safe h.all enough);
        ordered_turns =
            λ seen now i. returns xs _ (step_opool-Goes service laws app xs h.safe seen now i);
        unordered_turns =
            λ seen now i. returns xs _ (step_upool-Goes service laws app xs h.safe seen now i);
        ordered = returns xs _ (handle_opool-Goes service laws app xs h.safe);
        unordered = returns xs _ (handle_upool-Goes service laws app xs h.safe);
      }
