-- ===== src/Server/Poll/Round.antt =====
-- One round over the table of sessions.
use ezgrpc.Prelude.{
  ℕ, ◌+◌, ◌≡◌, ◌≢◌, ◌⊎◌, refl, sym, ap, ◌∙◌, inl, inr, subst, Bool, true, false, Option, none, some,
  List, [], ◌∷◌, ◌++◌, arith, Bool-cases, Option-cases, ◌==◌,
}
use native.Mathlib.Decide.{ℕ_discrete}
use ezgrpc.Event.{SessionUuid, Event, EventKind}
use ezgrpc.Events.{Events}
use ezgrpc.Events.Contents.{Holds}
use ezgrpc.Session.{Session}
use ezgrpc.Server.{Slot, zero_slot, Nghttp2, Served, served, session_events, session_free}
use ezgrpc.Server.Table.{IsSlot, IsFree, IsTable}
use ezgrpc.Server.Add.{write_plain-Written}
use ezgrpc.Server.Serve.{Patient, Keeps, Aborted, Does, session_events-Does, Does-Settled}
use ezgrpc.Server.Poll.{
  Revents, session_of, Polled, drop_session, poll_served, poll_slot, poll_slots,
}

abbrev pub disconnect_event : SessionUuid → Event
disconnect_event uuid = record { session_uuid = uuid; kind = EventKind.disconnect; userdata = none }

-- The entry after a call of nghttp2.
abbrev pub resumed : Slot → ℕ → Session → Slot
resumed slot n s = record slot {
  session_uuid = s.session_uuid;
  lstreams = s.lstreams;
  ngsession = n;
}

-- What the body of the loop does with an entry: nothing, where it is unused or nothing is ready; to
-- clear it after a hangup, without closing its descriptor; to go on with it where `session_events`
-- gives 0; to close its descriptor and clear it where that gives anything else. A session that ends
-- leaves the event DISCONNECT.
pub data Turn (ng : Nghttp2) (revents : Revents) (s : Slot) (es : Events) (xs : List Event)
    (closed : List ℕ) : Polled → Type 0 where
  unused : s.fd ≡ none → Turn ng revents s es xs closed (some (s, es, closed))
  hung_up :
      {fd : ℕ} {es' : Events}
      → s.fd ≡ some fd
      → revents.hangup ≡ true
      → Holds es' (xs ++ disconnect_event s.session_uuid ∷ [])
      → Turn ng revents s es xs closed (some (zero_slot, es', closed))
  quiet :
      {fd : ℕ}
      → s.fd ≡ some fd
      → revents.hangup ≡ false
      → revents.readable ≡ false
      → Turn ng revents s es xs closed (some (s, es, closed))
  goes_on :
      {fd n : ℕ} {s' : Session}
      → s.fd ≡ some fd
      → revents.hangup ≡ false
      → revents.readable ≡ true
      → Does ng s.ngsession (session_of s es) (served 0 n s')
      → Turn ng revents s es xs closed (some (resumed s n s', s'.events, closed))
  done :
      {fd res n : ℕ} {s' : Session} {ys : List Event} {es' : Events}
      → s.fd ≡ some fd
      → revents.hangup ≡ false
      → revents.readable ≡ true
      → Does ng s.ngsession (session_of s es) (served res n s')
      → res ≢ 0
      → Holds s'.events ys
      → Holds es' (ys ++ disconnect_event s'.session_uuid ∷ [])
      → Turn ng revents s es xs closed (some (zero_slot, es', closed ++ s.sockfd ∷ []))
  aborts :
      {fd : ℕ}
      → s.fd ≡ some fd
      → revents.hangup ≡ false
      → revents.readable ≡ true
      → Does ng s.ngsession (session_of s es) Served.failed
      → Turn ng revents s es xs closed none

drop_session-is :
    (s : Slot) (es : Events) (xs : List Event) (closed : List ℕ)
    → Holds es xs
    → (es' : Events) × (drop_session true s es closed ≡ some (zero_slot, es', closed))
      × Holds es' (xs ++ disconnect_event s.session_uuid ∷ [])
unfolding drop_session session_free
drop_session-is s es xs closed h =
    let w = write_plain-Written EventKind.disconnect s.session_uuid es xs h in
    (w.after, rw (w.is, drop_session, session_free) refl, w.holds)

module _ (malloc_ok : Bool) (fuel : ℕ) (ng : Nghttp2) (revents : Revents) (s : Slot) (es : Events)
    (closed : List ℕ) where
  poll_free : s.fd ≡ none → poll_slot malloc_ok fuel ng revents s es closed ≡ some (s, es, closed)
  unfolding poll_slot
  poll_free e = ground arith

  poll_hangup :
      (fd : ℕ)
      → s.fd ≡ some fd
      → revents.hangup ≡ true
      → poll_slot malloc_ok fuel ng revents s es closed ≡ drop_session malloc_ok s es closed
  unfolding poll_slot
  poll_hangup fd e f = ground arith

  poll_readable :
      (fd : ℕ)
      → s.fd ≡ some fd
      → revents.hangup ≡ false
      → revents.readable ≡ true
      → poll_slot malloc_ok fuel ng revents s es closed
        ≡ poll_served malloc_ok s closed (session_events fuel ng s.ngsession (session_of s es))
  unfolding poll_slot
  poll_readable fd e f g = ground arith

  poll_quiet :
      (fd : ℕ)
      → s.fd ≡ some fd
      → revents.hangup ≡ false
      → revents.readable ≡ false
      → poll_slot malloc_ok fuel ng revents s es closed ≡ some (s, es, closed)
  unfolding poll_slot
  poll_quiet fd e f g = ground arith

module _ (ng : Nghttp2) (fuel : ℕ) (patient : Patient ng fuel) (keeps : Keeps ng)
    (revents : Revents) (s : Slot) (es : Events) (xs : List Event) (closed : List ℕ)
    (h : Holds es xs) where
  abbrev Turned : Polled → Type 0
  Turned = Turn ng revents s es xs closed

  poll_served-Turn :
      (fd : ℕ)
      → s.fd ≡ some fd
      → revents.hangup ≡ false
      → revents.readable ≡ true
      → (o : Served) → Does ng s.ngsession (session_of s es) o
      → Turned (poll_served true s closed o)
  unfolding poll_served
  poll_served-Turn fd e on reads o does = elim (Does-Settled ng keeps xs h does) [
    | inr (failed, a) ↦
        rw (failed, poll_served)
          (aborts e on reads (subst (Does ng s.ngsession (session_of s es)) failed does))
    | inl r ↦
        let does' = subst (Does ng s.ngsession (session_of s es)) r.is does in
        rw (r.is, poll_served)
          (elim (ℕ_discrete r.res 0) [
            | yes ok ↦
                let same : (r.res == 0) ≡ true = ground arith in
                rw same (
                  goes_on e on reads (
                    subst
                      (λ res.
                        Does ng s.ngsession (session_of s es) (served res r.ngsession r.after))
                      ok does'))
            | no bad ↦
                let (es', dropped, held) =
                  drop_session-is (resumed s r.ngsession r.after) r.after.events r.held.0
                    (closed ++ s.sockfd ∷ []) r.held.1 in
                let same : (r.res == 0) ≡ false = ground arith in
                rw same (subst Turned (sym dropped) (done e on reads does' bad r.held.1 held))
          ])
  ]

  -- The body of the loop over the entries does what `Turn` says, in each of its cases, where the
  -- socket of the session takes bytes again after at most a bounded number of sends that it blocks,
  -- `malloc` has room for the event, and the calls of nghttp2 that return keep the uuid and leave
  -- well formed events.
  pub poll_slot-Turn : Turned (poll_slot true fuel ng revents s es closed)
  poll_slot-Turn = elim (Option-cases s.fd) [
    | inl free ↦ subst Turned (sym (poll_free true fuel ng revents s es closed free)) (unused free)
    | inr (fd, e) ↦ elim (Bool-cases revents.hangup) [
      | inl hung ↦
          let (es', dropped, held) = drop_session-is s es xs closed h in
          subst Turned (sym (poll_hangup true fuel ng revents s es closed fd e hung ∙ dropped))
            (hung_up e hung held)
      | inr on ↦ elim (Bool-cases revents.readable) [
        | inr none_ready ↦
            subst Turned (sym (poll_quiet true fuel ng revents s es closed fd e on none_ready))
              (quiet e on none_ready)
        | inl reads ↦
            subst Turned (sym (poll_readable true fuel ng revents s es closed fd e on reads)) (
              poll_served-Turn fd e on reads _
                (session_events-Does ng fuel patient s.ngsession (session_of s es)))
      ]
    ]
  ]

zero_slot-IsFree : IsFree zero_slot
zero_slot-IsFree = record { fd_is = refl; index_is = refl }

pub record Entry (i : ℕ) (o : Polled) : Type 0 where
  pub after : Slot
  pub events : Events
  pub closed_after : List ℕ
  pub is : o ≡ some (after, events, closed_after)
  pub slot : IsSlot i after
  pub held : (xs : List Event) × Holds events xs

module _ (ng : Nghttp2) (keeps : Keeps ng) (i : ℕ) (revents : Revents) (s : Slot) (es : Events)
    (xs : List Event) (closed : List ℕ) (h : Holds es xs) where
  same_slot :
      (s' : Slot) (es' : Events) (closed' : List ℕ)
      → IsSlot i s'
      → (ys : List Event) × Holds es' ys
      → Entry i (some (s', es', closed'))
  same_slot s' es' closed' is held = record {
    after = s';
    events = es';
    closed_after = closed';
    is = refl;
    slot = is;
    held = held;
  }

  resumed-IsSlot :
      (fd : ℕ) (n : ℕ) (s' : Session)
      → s.fd ≡ some fd
      → IsSlot i s
      → s'.session_uuid ≡ s.session_uuid
      → IsSlot i (resumed s n s')
  resumed-IsSlot fd n s' e (inl free) u = absurd (none_some (sym free.fd_is ∙ e))
    where
      none_some : none ≡ some fd → ⊥
      none_some f = cc
  resumed-IsSlot fd n s' e (inr opened) u = inr (record {
    fd = opened.fd;
    fd_is = opened.fd_is;
    sockfd_is = opened.sockfd_is;
    index_is = ap (λ v. v.index) u ∙ opened.index_is;
  })

  -- An entry that is well formed stays so, or some callback has failed an assertion.
  Turn-Entry :
      {o : Polled}
      → IsSlot i s
      → Turn ng revents s es xs closed o
      → Entry i o ⊎ ((o ≡ none) × Aborted ng)
  Turn-Entry is (unused e) = inl (same_slot s es closed is (xs, h))
  Turn-Entry is (hung_up {fd} {es'} e f held) =
      inl (same_slot zero_slot es' closed (inl zero_slot-IsFree) (_, held))
  Turn-Entry is (quiet e f g) = inl (same_slot s es closed is (xs, h))
  Turn-Entry is (goes_on {fd} {n} {s'} e f g does) = elim (Does-Settled ng keeps xs h does) [
    | inr (failed, a) ↦ absurd (not_failed failed)
    | inl r ↦
        let same : r.after ≡ s' = after_is r.is in
        inl (
          same_slot (resumed s n s') s'.events closed
            (resumed-IsSlot fd n s' e is (subst (λ t. t.session_uuid ≡ s.session_uuid) same r.uuid))
            (subst (λ t. (ys : List Event) × Holds t.events ys) same r.held))
  ]
    where
      not_failed : served 0 n s' ≡ Served.failed → ⊥
      not_failed e = cc

      after_is : {res m : ℕ} {t : Session} → served 0 n s' ≡ served res m t → t ≡ s'
      after_is e = cc
  Turn-Entry is (done {fd} {res} {n} {s'} {ys} {es'} e f g does bad held after) =
      inl (same_slot zero_slot es' (closed ++ s.sockfd ∷ []) (inl zero_slot-IsFree) (_, after))
  Turn-Entry is (aborts e f g does) = elim (Does-Settled ng keeps xs h does) [
    | inr (failed, a) ↦ inr (refl, a)
    | inl r ↦ absurd (not_served r.is)
  ]
    where
      not_served : {res m : ℕ} {t : Session} → Served.failed ≡ served res m t → ⊥
      not_served e = cc

pub record Rounds (i : ℕ) (o : Option (List Slot × Events × List ℕ)) : Type 0 where
  pub slots : List Slot
  pub events : Events
  pub closed : List ℕ
  pub is : o ≡ some (slots, events, closed)
  pub table : IsTable i slots
  pub held : (xs : List Event) × Holds events xs

Rounds-same :
    (i : ℕ) (slots : List Slot) (es : Events) (xs : List Event) (closed : List ℕ)
    → IsTable i slots
    → Holds es xs
    → Rounds i (some (slots, es, closed))
Rounds-same i slots es xs closed table h = record {
  slots = slots;
  events = es;
  closed = closed;
  is = refl;
  table = table;
  held = (xs, h);
}

module _ (ng : Nghttp2) (fuel : ℕ) (patient : Patient ng fuel) (keeps : Keeps ng) where
  -- A round over the table leaves a well formed table and well formed events, or some callback has
  -- failed an assertion.
  pub poll_slots-IsTable :
      (i : ℕ) (rs : List Revents) (slots : List Slot) (es : Events) (xs : List Event)
      (closed : List ℕ)
      → IsTable i slots
      → Holds es xs
      → let o = poll_slots true fuel ng rs slots es closed in Rounds i o ⊎ ((o ≡ none) × Aborted ng)
  unfolding poll_slots
  poll_slots-IsTable i rs [] es xs closed table h = inl (Rounds-same i [] es xs closed tt h)
  poll_slots-IsTable i [] (s ∷ slots) es xs closed table h =
      inl (Rounds-same i (s ∷ slots) es xs closed table h)
  poll_slots-IsTable i (r ∷ rs) (s ∷ slots) es xs closed table h =
      elim (Turn-Entry ng keeps i r s es xs closed h table.0
        (poll_slot-Turn ng fuel patient keeps r s es xs closed h)) [
          | inr (failed, a) ↦ rw (failed, poll_slots) (inr (refl, a))
          | inl e ↦
              elim (poll_slots-IsTable (i + 1) rs slots e.events e.held.0 e.closed_after table.1
                e.held.1) [
                  | inr (failed, a) ↦
                      rw (e.is, poll_slots) (rw (failed, poll_slots) (inr (refl, a)))
                  | inl rest ↦
                      rw (e.is, poll_slots)
                        (rw (rest.is, poll_slots)
                          (inl (record {
                            slots = e.after ∷ rest.slots;
                            events = rest.events;
                            closed = rest.closed;
                            is = refl;
                            table = (e.slot, rest.table);
                            held = rest.held;
                          })))
                ]
        ]
