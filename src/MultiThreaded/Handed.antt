-- ===== src/MultiThreaded/Handed.antt =====
-- What becomes of the events: the tasks that are added for them, and the calls that are made.
use ezgrpc.Prelude.{
  ℕ, ◌+◌, ◌<◌, ◌≤◌, ◌≡◌, ◌⊎◌, refl, sym, ap, ◌∙◌, Bool, true, false, some, none, List, [], ◌∷◌,
  ◌++◌, append_assoc, append-nil, arith, inl, inr, Bool-cases,
}
use ezgrpc.Wire.{Message}
use ezgrpc.Event.{Event, EventKind}
use ezgrpc.Service.{Service}
use ezgrpc.Pool.{Task, add_task, add_task2}
use ezgrpc.SingleThreaded.{
  PathUserdata, Program, Answer, ended, status_ok, status_invalid_argument, status_data_loss,
}
use ezgrpc.SingleThreaded.Answers.{malformed}
use ezgrpc.MultiThreaded.Handles.{handed}
use ezgrpc.MultiThreaded.{UserData, Heap, put, App, add_to_pool, path_of, task}

-- The struct that a task is to get.
abbrev pub request : Event → PathUserdata → List Message → ℕ → Bool → ℕ → UserData
request event path ms id end status = record {
  stream_id = id;
  session_uuid = event.session_uuid;
  end_stream = end;
  status = status;
  imessages = some ms;
  omessages = none;
  callback = path.callback;
}

module _ {S : Type 0} (service : Service S) (program : Program) where
  -- The event is one that is handed to a pool, for this path and with this struct.
  pub data Asks (event : Event) (path : PathUserdata) : UserData → Type 0 where
    message :
        (ms : List Message) (id : ℕ) (end : Bool)
        → event.kind ≡ EventKind.message ms id end
        → path_of service program event ≡ some path
        → malformed path ms end ≡ false
        → Asks event path (request event path ms id end status_ok)
    dataloss :
        (id : ℕ)
        → event.kind ≡ EventKind.dataloss id
        → path_of service program event ≡ some path
        → Asks event path (request event path [] id true status_data_loss)

  -- The calls that are made for an event, and the tasks that are added to the ordered and to the
  -- unordered pool, by the heap.
  pub data Takes (event : Event) (heap : Heap) (fresh : ℕ)
      : List Answer → List Task → List Task → Type 0 where
    passed :
        (event.kind ≡ EventKind.connect)
          ⊎ ((event.kind ≡ EventKind.disconnect) ⊎ ((id : ℕ) × (event.kind ≡ EventKind.cancel id)))
        → Takes event heap fresh [] [] []
    refused :
        (ms : List Message) (id : ℕ) (end : Bool) (path : PathUserdata) (res : ℕ)
        → event.kind ≡ EventKind.message ms id end
        → path_of service program event ≡ some path
        → malformed path ms end ≡ true
        → Takes event heap fresh
            (ended event.session_uuid id status_invalid_argument res ∷ [])
            []
            []
    ordered :
        (t : Task) (path : PathUserdata) (u : UserData)
        → Asks event path u
        → path.is_unary ≡ false
        → t.userdata < fresh
        → heap t.userdata ≡ some u
        → Takes event heap fresh [] (t ∷ []) []
    unordered :
        (t : Task) (path : PathUserdata) (u : UserData)
        → Asks event path u
        → path.is_unary ≡ true
        → t.userdata < fresh
        → heap t.userdata ≡ some u
        → Takes event heap fresh [] [] (t ∷ [])

  pub record Cut (P Q : List Answer → List Task → List Task → Type 0) (new : List Answer)
      (os us : List Task) : Type 0 where
    pub n : List Answer
    pub m : List Answer
    pub o : List Task
    pub o' : List Task
    pub u : List Task
    pub u' : List Task
    pub answers_are : new ≡ n ++ m
    pub ordered_are : os ≡ o ++ o'
    pub unordered_are : us ≡ u ++ u'
    pub one : P n o u
    pub others : Q m o' u'

  -- Each event in its turn.
  abbrev pub AllTaken : List Event → Heap → ℕ → List Answer → List Task → List Task → Type 0
  AllTaken [] heap fresh new os us = (new ≡ []) × (os ≡ []) × (us ≡ [])
  AllTaken (e ∷ es) heap fresh new os us =
      Cut (Takes e heap fresh) (AllTaken es heap fresh) new os us

  Takes-later :
      (e : Event) (h h' : Heap) (f f' : ℕ) (new : List Answer) (os us : List Task)
      → ((a : ℕ) → a < f → h' a ≡ h a)
      → f ≤ f'
      → Takes e h f new os us
      → Takes e h' f' new os us
  Takes-later e h h' f f' new os us same le (passed k) = passed k
  Takes-later e h h' f f' new os us same le (refused ms id end path res k r b) =
      refused ms id end path res k r b
  Takes-later e h h' f f' new os us same le (ordered t path u asks s lt at) =
      ordered t path u asks s (omega (arith, lt, le)) (same t.userdata lt ∙ at)
  Takes-later e h h' f f' new os us same le (unordered t path u asks s lt at) =
      unordered t path u asks s (omega (arith, lt, le)) (same t.userdata lt ∙ at)

  AllTaken-later :
      (es : List Event) (h h' : Heap) (f f' : ℕ) (new : List Answer) (os us : List Task)
      → ((a : ℕ) → a < f → h' a ≡ h a)
      → f ≤ f'
      → AllTaken es h f new os us
      → AllTaken es h' f' new os us
  AllTaken-later [] h h' f f' new os us same le x = x
  AllTaken-later (e ∷ es) h h' f f' new os us same le x = record {
    n = x.n;
    m = x.m;
    o = x.o;
    o' = x.o';
    u = x.u;
    u' = x.u';
    answers_are = x.answers_are;
    ordered_are = x.ordered_are;
    unordered_are = x.unordered_are;
    one = Takes-later e h h' f f' x.n x.o x.u same le x.one;
    others = AllTaken-later es h h' f f' x.m x.o' x.u' same le x.others;
  }

  AllTaken-append :
      (xs ys : List Event) (h : Heap) (f : ℕ) (n m : List Answer) (o o' u u' : List Task)
      → AllTaken xs h f n o u
      → AllTaken ys h f m o' u'
      → AllTaken (xs ++ ys) h f (n ++ m) (o ++ o') (u ++ u')
  AllTaken-append [] ys h f n m o o' u u' x y = rw (x.0, x.1, x.2) y
  AllTaken-append (e ∷ xs) ys h f n m o o' u u' x y = record {
    n = x.n;
    m = x.m ++ m;
    o = x.o;
    o' = x.o' ++ o';
    u = x.u;
    u' = x.u' ++ u';
    answers_are = ap (λ l. l ++ m) x.answers_are ∙ append_assoc x.n x.m m;
    ordered_are = ap (λ l. l ++ o') x.ordered_are ∙ append_assoc x.o x.o' o';
    unordered_are = ap (λ l. l ++ u') x.unordered_are ∙ append_assoc x.u x.u' u';
    one = x.one;
    others = AllTaken-append xs ys h f x.m m x.o' o' x.u' u' x.others y;
  }

  -- What the program has done about events: what it has added to the calls and to the queues, in the
  -- order of the events.
  pub record Did (es : List Event) (app after : App S) : Type 0 where
    pub new : List Answer
    pub os : List Task
    pub us : List Task
    pub answers : after.answers ≡ app.answers ++ new
    pub ordered_queue : after.opool.shared.queue ≡ app.opool.shared.queue ++ os
    pub unordered_queue : after.upool.shared.queue ≡ app.upool.shared.queue ++ us
    pub kept : (a : ℕ) → a < app.fresh → after.heap a ≡ app.heap a
    pub later : app.fresh ≤ after.fresh
    pub taken : AllTaken es after.heap after.fresh new os us

  pub Did-nothing : (app : App S) (s : S) → Did [] app (record app { server = s })
  Did-nothing app s = record {
    new = [];
    os = [];
    us = [];
    answers = sym (append-nil app.answers);
    ordered_queue = sym (append-nil app.opool.shared.queue);
    unordered_queue = sym (append-nil app.upool.shared.queue);
    kept = λ a lt. refl;
    later = omega arith;
    taken = (refl, refl, refl);
  }

  pub Did-join : (xs ys : List Event) (a b c : App S) → Did xs a b → Did ys b c → Did (xs ++ ys) a c
  Did-join xs ys a b c x y = record {
    new = x.new ++ y.new;
    os = x.os ++ y.os;
    us = x.us ++ y.us;
    answers = y.answers ∙ ap (λ l. l ++ y.new) x.answers ∙ append_assoc a.answers x.new y.new;
    ordered_queue =
        y.ordered_queue
        ∙ ap (λ l. l ++ y.os) x.ordered_queue
        ∙ append_assoc a.opool.shared.queue x.os y.os;
    unordered_queue =
        y.unordered_queue
        ∙ ap (λ l. l ++ y.us) x.unordered_queue
        ∙ append_assoc a.upool.shared.queue x.us y.us;
    kept = λ k lt. y.kept k (omega (arith, lt, x.later)) ∙ x.kept k lt;
    later = omega (arith, x.later, y.later);
    taken =
        AllTaken-append xs ys c.heap c.fresh x.new y.new x.os y.os x.us y.us
          (AllTaken-later xs b.heap c.heap b.fresh c.fresh x.new x.os x.us y.kept y.later x.taken)
          y.taken;
  }

  one_taken :
      (e : Event) (h : Heap) (f : ℕ) (new : List Answer) (os us : List Task)
      → Takes e h f new os us
      → AllTaken (e ∷ []) h f new os us
  one_taken e h f new os us x = record {
    n = new;
    m = [];
    o = os;
    o' = [];
    u = us;
    u' = [];
    answers_are = sym (append-nil new);
    ordered_are = sym (append-nil os);
    unordered_are = sym (append-nil us);
    one = x;
    others = (refl, refl, refl);
  }

  pub passed-Did :
      (e : Event) (app : App S)
      → (e.kind ≡ EventKind.connect)
        ⊎ ((e.kind ≡ EventKind.disconnect) ⊎ ((id : ℕ) × (e.kind ≡ EventKind.cancel id)))
      → Did (e ∷ []) app app
  passed-Did e app k = record {
    new = [];
    os = [];
    us = [];
    answers = sym (append-nil app.answers);
    ordered_queue = sym (append-nil app.opool.shared.queue);
    unordered_queue = sym (append-nil app.upool.shared.queue);
    kept = λ a lt. refl;
    later = omega arith;
    taken = one_taken e app.heap app.fresh [] [] [] (passed k);
  }

  -- An event for which a call is made.
  pub answered-Did :
      (e : Event) (app : App S) (s : S) (new : List Answer)
      → Takes e app.heap app.fresh new [] []
      → Did (e ∷ []) app (record app { server = s; answers = app.answers ++ new })
  answered-Did e app s new x = record {
    new = new;
    os = [];
    us = [];
    answers = refl;
    ordered_queue = sym (append-nil app.opool.shared.queue);
    unordered_queue = sym (append-nil app.upool.shared.queue);
    kept = λ a lt. refl;
    later = omega arith;
    taken = one_taken e app.heap app.fresh new [] [] x;
  }

  -- One for which a task is added.
  pub handed-Did :
      (e : Event) (app : App S) (path : PathUserdata) (ms : List Message) (id : ℕ) (end : Bool)
      (status : ℕ)
      → Asks e path (request e path ms id end status)
      → Did (e ∷ []) app (handed path e.session_uuid id ms end status app)
  unfolding add_to_pool add_task add_task2
  handed-Did e app path ms id end status asks = elim (Bool-cases path.is_unary) [
    | inl unary ↦ rw unary (record {
      new = [];
      os = [];
      us = task app.fresh ∷ [];
      answers = sym (append-nil app.answers);
      ordered_queue = sym (append-nil app.opool.shared.queue);
      unordered_queue = refl;
      kept = other;
      later = omega arith;
      taken =
          one_taken e heap (app.fresh + 1) [] [] (task app.fresh ∷ [])
            (unordered (task app.fresh) path _ asks unary (omega arith) there);
    })
    | inr streaming ↦ rw streaming (record {
      new = [];
      os = task app.fresh ∷ [];
      us = [];
      answers = sym (append-nil app.answers);
      ordered_queue = refl;
      unordered_queue = sym (append-nil app.upool.shared.queue);
      kept = other;
      later = omega arith;
      taken =
          one_taken e heap (app.fresh + 1) [] (task app.fresh ∷ []) []
            (ordered (task app.fresh) path _ asks streaming (omega arith) there);
    })
  ]
    where
      heap : Heap
      heap = put app.fresh (some (request e path ms id end status)) app.heap

      there : heap app.fresh ≡ some (request e path ms id end status)
      there = ground arith

      other : (a : ℕ) → a < app.fresh → heap a ≡ app.heap a
      other a lt = ground (arith, lt)
