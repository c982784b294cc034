-- ===== src/Service/Keeps.antt =====
-- What the calls of a user leave as it is.
use ezgrpc.Prelude.{
  ℕ, zero, suc, ◌-◌, ◌≡◌, ◌⊎◌, inl, inr, refl, ◌∙◌, subst, true, false, some, List, [], ◌∷◌, ◌++◌,
  set, get_elem?, length, length-set, arith, ◌==◌, ltb, Bool-cases, Option-cases,
}
use ezgrpc.Wire.{Message}
use ezgrpc.Stream.{Stream}
use ezgrpc.Event.{SessionUuid, session_uuid_is_equal}
use ezgrpc.Session.{Session, find_stream, put_stream}
use ezgrpc.Headers.{trailers}
use ezgrpc.Server.{
  Slot, Server, Lookup, present, absent, session_find, Nghttp2, Served, zero_slot, served,
  send_loop,
}
use ezgrpc.Server.Poll.{session_of}
use ezgrpc.Api.{Submit, Reply, replied, leave, sent, stream_send, send_once, stream_end}

module _ (submit : Submit) where
  -- The streams that nghttp2 knows are among those of the session.
  abbrev pub Tracks : ℕ → List (ℕ × Stream) → Type 0
  Tracks n ls =
      (id a : ℕ) → submit.user_data n id ≡ some a → (t : Stream) × (find_stream a ls ≡ some t)

  abbrev pub AllTrack : List Slot → Type 0
  AllTrack [] = Unit {0}
  AllTrack (s ∷ ss) = Tracks s.ngsession s.lstreams × AllTrack ss

  AllTrack-set :
      (ss : List Slot) (j : ℕ) (s : Slot)
      → AllTrack ss
      → Tracks s.ngsession s.lstreams
      → AllTrack (set ss j s)
  AllTrack-set [] j s h t = tt
  AllTrack-set (r ∷ ss) zero s h t = (t, h.1)
  AllTrack-set (r ∷ ss) (suc j) s h t = (h.0, AllTrack-set ss j s h.1 t)

  pub AllTrack-elem :
      (ss : List Slot) (j : ℕ) (s : Slot)
      → AllTrack ss
      → get_elem? ss j ≡ some s
      → Tracks s.ngsession s.lstreams
  AllTrack-elem [] j s h e = cc
  AllTrack-elem (r ∷ ss) zero s h e =
      subst (λ (q : Slot). Tracks q.ngsession q.lstreams) (same e) h.0
    where
      same : some r ≡ some s → r ≡ s
      same f = cc
  AllTrack-elem (r ∷ ss) (suc j) s h e = AllTrack-elem ss j s h.1 e

  -- Sending runs callbacks that write no event, and forgets the streams that it closes; to submit
  -- data or trailers opens and closes no stream.
  pub record Steady (ng : Nghttp2) : Type 0 where
    pub send_events :
        (n res n' : ℕ) (s s' : Session) → ng.send n s ≡ some (res, n', s') → s'.events ≡ s.events
    pub send_tracks :
        (n res n' : ℕ) (s s' : Session)
        → ng.send n s ≡ some (res, n', s')
        → Tracks n s.lstreams
        → Tracks n' s'.lstreams
    pub data_tracks :
        (n id : ℕ) (ls : List (ℕ × Stream)) → Tracks n ls → Tracks (submit.submit_data n id) ls
    pub trailer_tracks :
        (n id status : ℕ) (ls : List (ℕ × Stream))
        → Tracks n ls
        → Tracks (submit.submit_trailer n id (trailers status)) ls

  pub record Keeps (server after : Server) : Type 0 where
    pub events : after.events ≡ server.events
    pub size : length after.clients ≡ length server.clients
    pub tracks : AllTrack after.clients

  abbrev pub Kept : Server → Reply → Type 0
  Kept server (replied res after rest) = Keeps server after
  Kept server Reply.fault = Unit {0}

  abbrev KeptServed : Session → Served → Type 0
  KeptServed s (served res n s') = (s'.events ≡ s.events) × Tracks n s'.lstreams
  KeptServed s Served.failed = Unit {0}
  KeptServed s Served.out_of_fuel = Unit {0}

  put_stream_found :
      (a b : ℕ) (s t : Stream) (ls : List (ℕ × Stream))
      → find_stream b ls ≡ some t
      → (t' : Stream) × (find_stream b (put_stream a s ls) ≡ some t')
  unfolding find_stream put_stream
  put_stream_found a b s t [] e = cc
  put_stream_found a b s t ((c, r) ∷ ls) e = elim (Bool-cases (c == b)) [
    | inl here ↦ elim (Bool-cases (c == a)) [
      | inl put ↦ (s, rw put (rw here refl))
      | inr other ↦ (r, rw other (rw here refl))
    ]
    | inr later ↦
        let e' : find_stream b ls ≡ some t = ground arith in
        elim (Bool-cases (c == a)) [
          | inl put ↦ (t, rw put (rw later e'))
          | inr other ↦
              let (t', e'') = put_stream_found a b s t ls e' in (t', rw other (rw later e''))
        ]
  ]

  put_stream-Tracks :
      (n a : ℕ) (s : Stream) (ls : List (ℕ × Stream)) → Tracks n ls → Tracks n (put_stream a s ls)
  put_stream-Tracks n a s ls h id b e = let (t, f) = h id b e in put_stream_found a b s t ls f

  KeptServed-through :
      (s s' : Session) (o : Served) → s'.events ≡ s.events → KeptServed s' o → KeptServed s o
  KeptServed-through s s' (served res n t) e h = (h.0 ∙ e, h.1)
  KeptServed-through s s' Served.failed e h = tt
  KeptServed-through s s' Served.out_of_fuel e h = tt

  module _ (ng : Nghttp2) (steady : Steady ng) where
    send_loop-Kept :
        (fuel n : ℕ) (s : Session) → Tracks n s.lstreams → KeptServed s (send_loop fuel ng n s)
    unfolding send_loop
    send_loop-Kept zero n s h = tt
    send_loop-Kept (suc fuel) n s h = elim (Bool-cases (ng.want_write n)) [
      | inr quiet ↦ rw (quiet, send_loop) (refl, h)
      | inl more ↦
          rw (more, send_loop)
            (elim (Option-cases (ng.send n s)) [
              | inl e ↦ rw (e, send_loop) tt
              | inr ((res, n', s'), e) ↦
                  let ev = steady.send_events n res n' s s' e in
                  let t = steady.send_tracks n res n' s s' e h in
                  rw (e, send_loop)
                    (elim (Bool-cases (res == 0)) [
                      | inl ok ↦ rw ok (KeptServed-through s s' _ ev (send_loop-Kept fuel n' s' t))
                      | inr bad ↦ rw bad (ev, t)
                    ])
            ])
    ]

    module _ (server : Server) (all : AllTrack server.clients) where
      same-Keeps : Keeps server server
      same-Keeps = record { events = refl; size = refl; tracks = all }

      leave-Keeps :
          (i : ℕ) (slot : Slot) (n : ℕ) (s : Session)
          → s.events ≡ server.events
          → Tracks n s.lstreams
          → Keeps server (leave i slot n s server)
      leave-Keeps i slot n s e t = record {
        events = e;
        size = length-set server.clients (i - 2) _;
        tracks = AllTrack-set server.clients (i - 2) _ all t;
      }

      sent-Kept :
          (i : ℕ) (slot : Slot) (s : Session) (o : Served)
          → s.events ≡ server.events
          → KeptServed s o
          → Kept server (sent i slot server o)
      unfolding sent
      sent-Kept i slot s (served res n t) e h = leave-Keeps i slot n t (h.0 ∙ e) h.1
      sent-Kept i slot s Served.failed e h = tt
      sent-Kept i slot s Served.out_of_fuel e h = tt

      send_once-Kept :
          (i : ℕ) (slot : Slot) (n : ℕ)
          → Tracks n slot.lstreams
          → Kept server (send_once ng i slot n [] server)
      unfolding send_once
      send_once-Kept i slot n t = elim (Option-cases (ng.send n (session_of slot server.events))) [
        | inl e ↦ rw (e, send_once) tt
        | inr ((res, n', s'), e) ↦
            rw (e, send_once)
              (leave-Keeps i slot n' s' (steady.send_events n res n' _ s' e)
                (steady.send_tracks n res n' _ s' e t))
      ]

      module _ (uuid : SessionUuid) where
        -- The session that is found is one of the table, or one before it.
        find_cases :
            (session_find uuid server ≡ Lookup.failed)
            ⊎ ((session_find uuid server ≡ absent)
                ⊎ ((i : ℕ) × (slot : Slot) × (session_find uuid server ≡ present i slot)
                    × ((ltb i 2 ≡ true) ⊎ Tracks slot.ngsession slot.lstreams)))
        unfolding session_find
        find_cases = elim (Bool-cases (ltb uuid.index 2)) [
          | inl low ↦
              rw low (elim (Bool-cases (session_uuid_is_equal uuid zero_slot.session_uuid)) [
                | inl same ↦ rw same (inr (inr (uuid.index, zero_slot, refl, inl low)))
                | inr differ ↦ rw differ (inr (inl refl))
              ])
          | inr high ↦ rw high (elim (Option-cases (get_elem? server.clients (uuid.index - 2))) [
            | inl out ↦ rw (out, session_find) (inl refl)
            | inr (slot, e) ↦
                rw (e, session_find)
                  (elim (Bool-cases (session_uuid_is_equal uuid slot.session_uuid)) [
                    | inl same ↦ rw same (
                        inr (
                          inr (
                            uuid.index,
                            slot,
                            refl,
                            inr (AllTrack-elem server.clients (uuid.index - 2) slot all e),
                          )))
                    | inr differ ↦ rw differ (inr (inl refl))
                  ])
          ])
        ]

        still_tracked :
            (i : ℕ) (slot : Slot)
            → ltb i 2 ≡ false
            → (ltb i 2 ≡ true) ⊎ Tracks slot.ngsession slot.lstreams
            → Tracks slot.ngsession slot.lstreams
        still_tracked i slot high (inl low) = cc
        still_tracked i slot high (inr t) = t

        pub stream_send-Kept :
            (fuel id : ℕ) (ms : List Message)
            → Kept server (stream_send fuel ng submit uuid id ms server)
        unfolding stream_send
        stream_send-Kept fuel id ms = elim find_cases [
          | inl e ↦ rw (e, stream_send) tt
          | inr (inl e) ↦ rw (e, stream_send) same-Keeps
          | inr (inr (i, slot, e, which)) ↦
              rw (e, stream_send)
                (elim (Bool-cases (ltb i 2)) [
                  | inl low ↦ rw low tt
                  | inr high ↦ rw high (elim (Option-cases (submit.user_data slot.ngsession id)) [
                    | inl unknown ↦ rw (unknown, stream_send) same-Keeps
                    | inr (a, known) ↦
                        let t = still_tracked i slot high which in
                        let (s, f) = t id a known in
                        let put : List (ℕ × Stream) =
                          put_stream a (record s { lqueue_omessages = s.lqueue_omessages ++ ms })
                            slot.lstreams in
                        let session = session_of (record slot { lstreams = put }) server.events in
                        rw (known, stream_send)
                          (rw (f, stream_send)
                            (sent-Kept i slot session _ refl (
                              send_loop-Kept fuel (submit.submit_data slot.ngsession id) session (
                                steady.data_tracks slot.ngsession id put
                                  (put_stream-Tracks slot.ngsession a _ slot.lstreams t)))))
                  ])
                ])
        ]

        pub stream_end-Kept :
            (id status : ℕ) → Kept server (stream_end ng submit uuid id status server)
        unfolding stream_end
        stream_end-Kept id status = elim find_cases [
          | inl e ↦ rw (e, stream_end) tt
          | inr (inl e) ↦ rw (e, stream_end) same-Keeps
          | inr (inr (i, slot, e, which)) ↦
              rw (e, stream_end)
                (elim (Bool-cases (ltb i 2)) [
                  | inl low ↦ rw low tt
                  | inr high ↦ rw high (elim (Option-cases (submit.user_data slot.ngsession id)) [
                    | inl unknown ↦ rw (unknown, stream_end) same-Keeps
                    | inr (a, known) ↦
                        let t = still_tracked i slot high which in
                        let (s, f) = t id a known in
                        rw (known, stream_end)
                          (rw (f, stream_end)
                            (send_once-Kept i slot
                              (submit.submit_trailer slot.ngsession id (trailers status))
                              (steady.trailer_tracks slot.ngsession id status slot.lstreams t)))
                  ])
                ])
        ]
