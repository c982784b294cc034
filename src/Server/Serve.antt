-- ===== src/Server/Serve.antt =====
-- `session_events` over an nghttp2 whose socket takes bytes again, and what its callbacks keep.
use ezgrpc.Prelude.{
  ℕ, zero, suc, ◌+◌, ◌*◌, ◌≤◌, ◌<◌, ◌≡◌, ◌≢◌, ◌⊎◌, refl, ap, sym, subst, ◌∙◌, inl, inr, true, false,
  none, some, List, arith, Bool-cases, Option-cases, ◌==◌, if◌then◌else◌,
}
use native.Mathlib.Decide.{ℕ_discrete}
use native.Mathlib.Nat.{mul-le-mul_right}
use ezgrpc.Event.{Event}
use ezgrpc.Events.Contents.{Holds}
use ezgrpc.Session.{Session}
use ezgrpc.Server.{Nghttp2, Served, served, send_loop, session_events}

-- `nghttp2_session_send` also returns 0 where `send` gave EWOULDBLOCK, and then has as much left as
-- before. `left` counts the frames that are to be sent, and `blocked` the calls for which the socket
-- still takes nothing, of which there are at most `most` between two frames.
pub record Patient (ng : Nghttp2) (fuel : ℕ) : Type 0 where
  pub left : ℕ → ℕ
  pub blocked : ℕ → ℕ
  pub most : ℕ
  pub small : (n : ℕ) → left n * suc most + blocked n < fuel
  pub bounded : (n : ℕ) → blocked n ≤ most
  pub send_goes :
      (n n' : ℕ) (s s' : Session)
      → ng.want_write n ≡ true
      → ng.send n s ≡ some (0, n', s')
      → (left n' < left n) ⊎ ((left n' ≡ left n) × (blocked n' < blocked n))

-- What a call leaves of a session.
abbrev pub Kept : Session → Session → Type 0
Kept s s' = (s'.session_uuid ≡ s.session_uuid) × ((ys : List Event) × Holds s'.events ys)

-- A call that returns, with whatever result, has changed neither the uuid of the session nor made its
-- events ill formed. Callbacks may fail assertions.
pub record Keeps (ng : Nghttp2) : Type 0 where
  pub recv_keeps :
      (n res n' : ℕ) (s s' : Session) (xs : List Event)
      → Holds s.events xs
      → ng.recv n s ≡ some (res, n', s')
      → Kept s s'
  pub send_keeps :
      (n res n' : ℕ) (s s' : Session) (xs : List Event)
      → Holds s.events xs
      → ng.send n s ≡ some (res, n', s')
      → Kept s s'

-- Besides, no callback that is made to send fails an assertion.
pub record Works (ng : Nghttp2) (fuel : ℕ) : Type 0 where
  pub patient : Patient ng fuel
  pub keeps : Keeps ng
  pub send_returns : (n : ℕ) (s : Session) → ng.send n s ≢ none

pub record Serves (session : Session) (o : Served) : Type 0 where
  pub res : ℕ
  pub ngsession : ℕ
  pub after : Session
  pub is : o ≡ served res ngsession after
  pub uuid : after.session_uuid ≡ session.session_uuid
  pub held : (xs : List Event) × Holds after.events xs

module _ (ng : Nghttp2) where
  -- Some call ends in a failed assertion of a callback.
  pub data Aborted : Type 0 where
    in_recv : {n : ℕ} {s : Session} → ng.recv n s ≡ none → Aborted
    in_send : {n : ℕ} {s : Session} → ng.send n s ≡ none → Aborted

  -- What `while (nghttp2_session_want_write(...))` comes to, without fuel.
  pub data Ends : ℕ → Session → Served → Type 0 where
    drained : {n : ℕ} {s : Session} → ng.want_write n ≡ false → Ends n s (served 0 n s)
    refused :
        {n res n' : ℕ} {s s' : Session}
        → ng.want_write n ≡ true
        → ng.send n s ≡ some (res, n', s')
        → res ≢ 0
        → Ends n s (served 1 n' s')
    aborts :
        {n : ℕ} {s : Session} → ng.want_write n ≡ true → ng.send n s ≡ none → Ends n s Served.failed
    sends :
        {n n' : ℕ} {s s' : Session} {o : Served}
        → ng.want_write n ≡ true
        → ng.send n s ≡ some (0, n', s')
        → Ends n' s' o
        → Ends n s o

  -- What `session_events` comes to.
  pub data Does (n : ℕ) (s : Session) : Served → Type 0 where
    idle : ng.want_read n ≡ false → ng.want_write n ≡ false → Does n s (served 1 n s)
    recv_refused :
        {res n' : ℕ} {s' : Session}
        → ng.want_read n ≡ true
        → ng.recv n s ≡ some (res, n', s')
        → res ≢ 0
        → Does n s (served 1 n' s')
    recv_aborts : ng.want_read n ≡ true → ng.recv n s ≡ none → Does n s Served.failed
    received :
        {n' : ℕ} {s' : Session} {o : Served}
        → ng.want_read n ≡ true
        → ng.recv n s ≡ some (0, n', s')
        → Ends n' s' o
        → Does n s o
    only_sends :
        {o : Served} → ng.want_read n ≡ false → ng.want_write n ≡ true → Ends n s o → Does n s o

  module _ (fuel n : ℕ) (s : Session) where
    loop_drained : ng.want_write n ≡ false → send_loop (suc fuel) ng n s ≡ served 0 n s
    unfolding send_loop
    loop_drained e = rw (e, send_loop) refl

    loop_aborts :
        ng.want_write n ≡ true → ng.send n s ≡ none → send_loop (suc fuel) ng n s ≡ Served.failed
    unfolding send_loop
    loop_aborts e f = rw (e, send_loop) (rw (f, send_loop) refl)

    pub loop_goes :
        (res n' : ℕ) (s' : Session)
        → ng.want_write n ≡ true
        → ng.send n s ≡ some (res, n', s')
        → send_loop (suc fuel) ng n s
          ≡ (if res == 0 then send_loop fuel ng n' s' else served 1 n' s')
    unfolding send_loop
    loop_goes res n' s' e f = rw (e, send_loop) (rw (f, send_loop) refl)

module _ (ng : Nghttp2) (bound : ℕ) (patient : Patient ng bound) where
  measure : ℕ → ℕ
  measure n = patient.left n * suc patient.most + patient.blocked n

  measure_less :
      (n n' : ℕ)
      → (patient.left n' < patient.left n)
        ⊎ ((patient.left n' ≡ patient.left n) × (patient.blocked n' < patient.blocked n))
      → measure n' < measure n
  unfolding measure
  measure_less n n' (inl less) =
      omega (arith, mul-le-mul_right (suc patient.most) less, patient.bounded n')
  measure_less n n' (inr (same, less)) = rw same (omega (arith, less))

  send_loop-Ends :
      (fuel n : ℕ) (s : Session) → measure n < fuel → Ends ng n s (send_loop fuel ng n s)
  send_loop-Ends zero n s enough = absurd (omega arith)
  send_loop-Ends (suc fuel) n s enough = elim (Bool-cases (ng.want_write n)) [
    | inr quiet ↦ subst (Ends ng n s) (sym (loop_drained ng fuel n s quiet)) (drained quiet)
    | inl more ↦ elim (Option-cases (ng.send n s)) [
      | inl fails ↦
          subst (Ends ng n s) (sym (loop_aborts ng fuel n s more fails)) (aborts more fails)
      | inr ((res, n', s'), sent) ↦
          subst (Ends ng n s) (sym (loop_goes ng fuel n s res n' s' more sent))
            (elim (ℕ_discrete res 0) [
              | yes ok ↦
                  let sent' : ng.send n s ≡ some (0, n', s') =
                    sent ∙ ap (λ r. some (r, n', s')) ok in
                  let next =
                    send_loop-Ends fuel n' s'
                      (omega (arith, measure_less n n' (patient.send_goes n n' s s' more sent'))) in
                  let same : (res == 0) ≡ true = ground arith in rw same (sends more sent' next)
              | no bad ↦
                  let same : (res == 0) ≡ false = ground arith in rw same (refused more sent bad)
            ])
    ]
  ]

  pub send_loop_bound-Ends : (n : ℕ) (s : Session) → Ends ng n s (send_loop bound ng n s)
  unfolding measure
  send_loop_bound-Ends n s = send_loop-Ends bound n s (patient.small n)

  -- Within the fuel, `session_events` comes to what the rules `Does` and `Ends` say: it returns 1, and
  -- does nothing, where nghttp2 wants neither to read nor to write; it receives where nghttp2 wants to
  -- read, and then sends until nghttp2 has no more to send, which gives 0; a call that does not return
  -- 0 ends it with 1, and a failed assertion ends it too. The socket takes bytes again after at most
  -- a bounded number of sends that it blocks.
  pub session_events-Does : (n : ℕ) (s : Session) → Does ng n s (session_events bound ng n s)
  unfolding session_events
  session_events-Does n s = elim (Bool-cases (ng.want_read n)) [
    | inl reads ↦
        rw (reads, session_events)
          (elim (Option-cases (ng.recv n s)) [
            | inl fails ↦ rw (fails, session_events) (recv_aborts reads fails)
            | inr ((res, n', s'), got) ↦
                rw (got, session_events)
                  (elim (ℕ_discrete res 0) [
                    | yes ok ↦
                        let same : (res == 0) ≡ true = ground arith in
                        rw same (
                          received reads (got ∙ ap (λ r. some (r, n', s')) ok)
                            (send_loop_bound-Ends n' s'))
                    | no bad ↦
                        let same : (res == 0) ≡ false = ground arith in
                        rw same (recv_refused reads got bad)
                  ])
          ])
    | inr quiet ↦ elim (Bool-cases (ng.want_write n)) [
      | inl more ↦
          rw (quiet, more, session_events) (only_sends quiet more (send_loop_bound-Ends n s))
      | inr none_left ↦ rw (quiet, none_left, session_events) (idle quiet none_left)
    ]
  ]

module _ (ng : Nghttp2) (keeps : Keeps ng) where
  -- What has come to a result has kept the session, or some callback has failed an assertion.
  abbrev pub Settled : Session → Served → Type 0
  Settled s o = Serves s o ⊎ ((o ≡ Served.failed) × Aborted ng)

  served_whole : {s s' : Session} (res n : ℕ) → Kept s s' → Serves s (served res n s')
  served_whole {s} {s'} res n k = record {
    res = res;
    ngsession = n;
    after = s';
    is = refl;
    uuid = k.0;
    held = k.1;
  }

  through : {s s' : Session} {o : Served} → Kept s s' → Settled s' o → Settled s o
  through k (inl r) = inl (record {
    res = r.res;
    ngsession = r.ngsession;
    after = r.after;
    is = r.is;
    uuid = r.uuid ∙ k.0;
    held = r.held;
  })
  through k (inr failed) = inr failed

  pub Ends-Settled :
      {n : ℕ} {s : Session} {o : Served} (xs : List Event)
      → Holds s.events xs
      → Ends ng n s o
      → Settled s o
  Ends-Settled xs h (drained e) = inl (served_whole 0 _ (refl, (xs, h)))
  Ends-Settled xs h (refused {n} {res} {n'} {s} {s'} e f r) =
      inl (served_whole 1 n' (keeps.send_keeps n res n' s s' xs h f))
  Ends-Settled xs h (aborts e f) = inr (refl, in_send f)
  Ends-Settled xs h (sends {n} {n'} {s} {s'} e f rest) =
      let k = keeps.send_keeps n 0 n' s s' xs h f in through k (Ends-Settled k.1.0 k.1.1 rest)

  pub Does-Settled :
      {n : ℕ} {s : Session} {o : Served} (xs : List Event)
      → Holds s.events xs
      → Does ng n s o
      → Settled s o
  Does-Settled xs h (idle e f) = inl (served_whole 1 _ (refl, (xs, h)))
  Does-Settled {n} {s} xs h (recv_refused {res} {n'} {s'} e f r) =
      inl (served_whole 1 n' (keeps.recv_keeps n res n' s s' xs h f))
  Does-Settled xs h (recv_aborts e f) = inr (refl, in_recv f)
  Does-Settled {n} {s} xs h (received {n'} {s'} e f rest) =
      let k = keeps.recv_keeps n 0 n' s s' xs h f in through k (Ends-Settled k.1.0 k.1.1 rest)
  Does-Settled xs h (only_sends e f rest) = Ends-Settled xs h rest

Ends_returns :
    {ng : Nghttp2} {n : ℕ} {s : Session} {o : Served}
    → ((n : ℕ) (s : Session) → ng.send n s ≢ none)
    → Ends ng n s o
    → o ≢ Served.failed
Ends_returns never (drained e) = λ f. cc
Ends_returns never (refused e f r) = λ g. cc
Ends_returns never (aborts e f) = λ g. never _ _ f
Ends_returns never (sends e f rest) = Ends_returns never rest

pub send_loop-Serves :
    (ng : Nghttp2) (fuel : ℕ)
    → Works ng fuel
    → (n : ℕ) (s : Session) (xs : List Event) → Holds s.events xs
    → Serves s (send_loop fuel ng n s)
send_loop-Serves ng fuel works n s xs h =
    let ends = send_loop_bound-Ends ng fuel works.patient n s in
    elim (Ends-Settled ng works.keeps xs h ends) [
      | inl r ↦ r
      | inr (e, a) ↦ absurd (Ends_returns works.send_returns ends e)
    ]

blocked_loop :
    (ng : Nghttp2) (n : ℕ) (s : Session)
    → ng.want_write n ≡ true
    → ng.send n s ≡ some (0, n, s)
    → (fuel : ℕ) → send_loop fuel ng n s ≡ Served.out_of_fuel
unfolding send_loop
blocked_loop ng n s more blocked zero = refl
blocked_loop ng n s more blocked (suc fuel) =
    loop_goes ng fuel n s 0 n s more blocked ∙ blocked_loop ng n s more blocked fuel

-- Where nghttp2 receives, then has something to send, and the socket takes nothing, so that the call
-- that sends returns 0 and changes nothing, `session_events` does not return, whatever the fuel.
pub session_events_spins :
    (ng : Nghttp2) (n n' : ℕ) (s s' : Session) (fuel : ℕ)
    → ng.want_read n ≡ true
    → ng.recv n s ≡ some (0, n', s')
    → ng.want_write n' ≡ true
    → ng.send n' s' ≡ some (0, n', s')
    → session_events fuel ng n s ≡ Served.out_of_fuel
unfolding session_events
session_events_spins ng n n' s s' fuel reads got more blocked =
    rw (reads, session_events) (rw (got, session_events) (blocked_loop ng n' s' more blocked fuel))
