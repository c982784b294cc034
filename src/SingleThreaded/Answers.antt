-- ===== src/SingleThreaded/Answers.antt =====
-- Which calls the single threaded server makes for the events that it reads.
use ezgrpc.Prelude.{
  ℕ, ◌≡◌, ◌≢◌, ◌⊎◌, ap, ◌∙◌, subst, Bool, true, false, not, ◌&&◌, ◌||◌, some, List, [], ◌∷◌, ◌++◌,
  append_assoc, length, ◌==◌,
}
use ezgrpc.Wire.{Message}
use ezgrpc.Event.{Event, EventKind}
use ezgrpc.SingleThreaded.{
  PathUserdata, Program, Answer, sent, ended, status_ok, status_invalid_argument, status_data_loss,
  run_callback,
}

-- A request that a unary service does not take.
abbrev pub malformed : PathUserdata → List Message → Bool → Bool
malformed path messages end_stream = path.is_unary && (not end_stream || not (length messages == 1))

-- The calls that an event is answered by, with the counter before and after.
pub data Says (program : Program) (pp : ℕ) (event : Event) : List Answer → ℕ → Type 0 where
  passed :
      (event.kind ≡ EventKind.connect)
        ⊎ ((event.kind ≡ EventKind.disconnect) ⊎ ((id : ℕ) × (event.kind ≡ EventKind.cancel id)))
      → Says program pp event [] pp
  lost :
      (id res : ℕ)
      → event.kind ≡ EventKind.dataloss id
      → Says program pp event (ended event.session_uuid id status_data_loss res ∷ []) pp
  refused :
      (messages : List Message) (id : ℕ) (end_stream : Bool) (pointer : ℕ) (path : PathUserdata)
      (res : ℕ)
      → event.kind ≡ EventKind.message messages id end_stream
      → event.userdata ≡ some pointer
      → program.path_userdata pointer ≡ some path
      → malformed path messages end_stream ≡ true
      → Says program pp event (ended event.session_uuid id status_invalid_argument res ∷ []) pp
  answered :
      (messages : List Message) (id : ℕ) (end_stream : Bool) (pointer : ℕ) (path : PathUserdata)
      (res : ℕ)
      → event.kind ≡ EventKind.message messages id end_stream
      → event.userdata ≡ some pointer
      → program.path_userdata pointer ≡ some path
      → malformed path messages end_stream ≡ false
      → (res ≢ 0) ⊎ (end_stream ≡ false)
      → Says program pp event
          (sent event.session_uuid id (run_callback path.callback pp).0 res ∷ [])
          (run_callback path.callback pp).1
  completed :
      (messages : List Message) (id : ℕ) (pointer : ℕ) (path : PathUserdata) (res : ℕ)
      → event.kind ≡ EventKind.message messages id true
      → event.userdata ≡ some pointer
      → program.path_userdata pointer ≡ some path
      → malformed path messages true ≡ false
      → Says program pp event
          (sent event.session_uuid id (run_callback path.callback pp).0 0
            ∷ ended event.session_uuid id status_ok res
            ∷ [])
          (run_callback path.callback pp).1

pub record Split (P : List Answer → ℕ → Type 0) (Q : ℕ → List Answer → Type 0)
    (answers : List Answer) : Type 0 where
  pub first : List Answer
  pub rest : List Answer
  pub pp : ℕ
  pub whole : answers ≡ first ++ rest
  pub one : P first pp
  pub others : Q pp rest

-- The calls that events are answered by, each event in its turn, with the counter before and after.
abbrev pub AllSaid : Program → List Event → ℕ → List Answer → ℕ → Type 0
AllSaid program [] pp answers last = (answers ≡ []) × (last ≡ pp)
AllSaid program (e ∷ es) pp answers last =
    Split (Says program pp e) (λ mid rest. AllSaid program es mid rest last) answers

pub AllSaid-append :
    (program : Program) (xs ys : List Event) (pp mid last : ℕ) (first rest : List Answer)
    → AllSaid program xs pp first mid
    → AllSaid program ys mid rest last
    → AllSaid program (xs ++ ys) pp (first ++ rest) last
AllSaid-append program [] ys pp mid last first rest (e, f) h =
    rw e (subst (λ n. AllSaid program ys n rest last) f h)
AllSaid-append program (x ∷ xs) ys pp mid last first rest s h = record {
  first = s.first;
  rest = s.rest ++ rest;
  pp = s.pp;
  whole = ap (λ l. l ++ rest) s.whole ∙ append_assoc s.first s.rest rest;
  one = s.one;
  others = AllSaid-append program xs ys s.pp mid last s.rest rest s.others h;
}
