-- ===== src/MultiThreaded/Handles.antt =====
-- The turns of the workers and the results that the program sends, as they keep the pools right.
use ezgrpc.Prelude.{ℕ, ◌+◌, ◌≡◌, inl, inr, refl, true, Bool, Option, some, none, List, Bool-cases}
use ezgrpc.Wire.{Message}
use ezgrpc.Event.{SessionUuid, Event}
use ezgrpc.Service.{Service, IsService}
use ezgrpc.Pool.{Pool}
use ezgrpc.SingleThreaded.{PathUserdata}
use ezgrpc.MultiThreaded.{
  UserData, Heap, App, create_userdata, add_to_pool, hand_over, step_opool, step_upool,
  handle_opool, handle_upool, put,
}
use ezgrpc.MultiThreaded.Answers.{handle_opool-Answered, handle_upool-Answered}
use ezgrpc.MultiThreaded.Pools.{Pools, Pools-swap}
use ezgrpc.MultiThreaded.Turns.{worker-Runs}
use ezgrpc.MultiThreaded.Added.{add_task-Pools}
use ezgrpc.MultiThreaded.Polled.{finished-Given, poll-Pools}

-- The program when a struct and its task have been added.
abbrev pub handed :
    {S : Type 0} → PathUserdata → SessionUuid → ℕ → List Message → Bool → ℕ → App S → App S
handed path u id ms end status app = add_to_pool path.is_unary app.fresh (record app {
  heap =
      put app.fresh
        (some (record {
          stream_id = id;
          session_uuid = u;
          end_stream = end;
          status = status;
          imessages = some ms;
          omessages = none;
          callback = path.callback;
        }))
        app.heap;
  fresh = app.fresh + 1;
})

pub hand_over-handed :
    {S : Type 0} (path : PathUserdata) (u : SessionUuid) (id : ℕ) (ms : List Message) (end : Bool)
    (status : ℕ) (app : App S)
    → hand_over true path u id ms end status app ≡ some (handed path u id ms end status app)
unfolding hand_over create_userdata
hand_over-handed path u id ms end status app = refl

module _ {S : Type 0} (service : Service S) (laws : IsService S service) where
  -- The server holds the events `xs`, and each task of the pools has a struct of its own.
  pub record IsSafe (app : App S) (xs : List Event) : Type 0 where
    pub good : laws.Good app.server xs
    pub pools : Pools service laws app.heap app.fresh app.opool app.upool

  -- A step returns, and leaves a program for which this holds.
  pub record Goes (xs : List Event) (o : Option (App S)) : Type 0 where
    pub after : App S
    pub is : o ≡ some after
    pub safe : IsSafe after xs

  same_pools :
      (h : Heap) (f f' : ℕ) (p p' q q' : Pool)
      → p' ≡ p
      → q' ≡ q
      → f' ≡ f
      → Pools service laws h f p q
      → Pools service laws h f' p' q'
  same_pools h f f' p p' q q' e e' e'' x = rw (e, e', e'') x

  module _ (app : App S) (xs : List Event) (safe : IsSafe app xs) where
    pub step_opool-Goes : (seen : ℕ → ℕ) (now i : ℕ) → Goes xs (step_opool true seen now i app)
    unfolding step_opool
    step_opool-Goes seen now i =
        let r =
          worker-Runs service laws app.heap app.fresh app.opool app.upool safe.pools seen now i in
        rw (r.is, step_opool)
          (record { after = _; is = refl; safe = record { good = safe.good; pools = r.pools } })

    pub step_upool-Goes : (seen : ℕ → ℕ) (now i : ℕ) → Goes xs (step_upool true seen now i app)
    unfolding step_upool
    step_upool-Goes seen now i =
        let swapped = Pools-swap service laws app.heap app.fresh app.opool app.upool safe.pools in
        let r =
          worker-Runs service laws app.heap app.fresh app.upool app.opool swapped seen now i in
        rw (r.is, step_upool)
          (record {
            after = _;
            is = refl;
            safe = record {
              good = safe.good;
              pools = Pools-swap service laws _ app.fresh _ app.opool r.pools;
            };
          })

    pub handle_opool-Goes : Goes xs (handle_opool service app)
    handle_opool-Goes =
        let x = safe.pools in
        let g = finished-Given service laws app.heap app.fresh app.opool app.upool x in
        let a = (handle_opool-Answered service laws app g.results xs safe.good g.ready g.is).0 in
        record {
          after = a.after;
          is = a.is;
          safe = record {
            good = a.good;
            pools =
                same_pools a.after.heap app.fresh a.after.fresh _ a.after.opool app.upool
                  a.after.upool a.pools.0 a.pools.1 a.pools.2
                  (poll-Pools service laws app.heap app.fresh app.opool app.upool x a.after.heap
                    a.kept);
          };
        }

    pub handle_upool-Goes : Goes xs (handle_upool service app)
    handle_upool-Goes =
        let x = Pools-swap service laws app.heap app.fresh app.opool app.upool safe.pools in
        let g = finished-Given service laws app.heap app.fresh app.upool app.opool x in
        let a = handle_upool-Answered service laws app g.results xs safe.good g.ready g.is in
        record {
          after = a.after;
          is = a.is;
          safe = record {
            good = a.good;
            pools =
                same_pools a.after.heap app.fresh a.after.fresh app.opool a.after.opool _
                  a.after.upool a.pools.0 a.pools.1 a.pools.2
                  (Pools-swap service laws a.after.heap app.fresh _ app.opool (
                    poll-Pools service laws app.heap app.fresh app.upool app.opool x a.after.heap
                      a.kept));
          };
        }

    pub handed-IsSafe :
        (path : PathUserdata) (u : SessionUuid) (id : ℕ) (ms : List Message) (end : Bool)
        (status : ℕ)
        → laws.Known u
        → IsSafe (handed path u id ms end status app) xs
    unfolding add_to_pool
    handed-IsSafe path u id ms end status known =
        let new : UserData = record {
          stream_id = id;
          session_uuid = u;
          end_stream = end;
          status = status;
          imessages = some ms;
          omessages = none;
          callback = path.callback;
        } in
        elim (Bool-cases path.is_unary) [
          | inl unary ↦ rw unary (record {
            good = safe.good;
            pools = Pools-swap service laws _ (app.fresh + 1) _ app.opool (
                add_task-Pools service laws app.heap app.fresh app.upool app.opool
                  (Pools-swap service laws app.heap app.fresh app.opool app.upool safe.pools) new
                  known);
          })
          | inr streaming ↦ rw streaming (record {
            good = safe.good;
            pools =
                add_task-Pools service laws app.heap app.fresh app.opool app.upool safe.pools new
                  known;
          })
        ]
