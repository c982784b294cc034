-- ===== src/Api/Total.antt =====
-- The calls of a user on a well formed server.
use ezgrpc.Prelude.{
  ℕ, zero, suc, ◌+◌, ◌-◌, ◌≡◌, ◌⊎◌, inl, inr, refl, ap, ◌∙◌, subst, Bool, true, false, some, List,
  [], ◌∷◌, get_elem?, set, arith, ltb, Bool-cases, Option-cases, if◌then◌else◌,
}
use ezgrpc.Wire.{Message}
use ezgrpc.Stream.{Stream}
use ezgrpc.Event.{Event, SessionUuid, session_uuid_is_equal}
use ezgrpc.Events.Contents.{Holds}
use ezgrpc.Session.{Session, find_stream}
use ezgrpc.Server.{Slot, Server, present, absent, session_find, Nghttp2, Served}
use ezgrpc.Server.Table.{IsSlot, IsOpen, IsTable, IsTable-set}
use ezgrpc.Server.Serve.{Works, Serves, send_loop-Serves}
use ezgrpc.Server.Poll.{session_of}
use ezgrpc.Server.Poll.Total.{IsServer}
use ezgrpc.Api.{Submit, Reply, replied, leave, sent, stream_send, send_once, stream_end}

-- What a call comes to: 1 or 2, with nothing changed, or a result that says that nghttp2 was run,
-- with the user's list emptied where `empties` says so.
pub record Replies (empties : Bool) (messages : List Message) (server : Server) (o : Reply)
    : Type 0 where
  pub res : ℕ
  pub after : Server
  pub rest : List Message
  pub is : o ≡ replied res after rest
  pub keeps : IsServer after
  pub outcome :
      (((res ≡ 1) ⊎ (res ≡ 2)) × (after ≡ server) × (rest ≡ messages))
      ⊎ (((res ≡ 0) ⊎ (res ≡ 3)) × (rest ≡ (if empties then [] else messages)))

IsTable-elem :
    (i j : ℕ) (ss : List Slot) (s : Slot)
    → IsTable i ss
    → get_elem? ss j ≡ some s
    → IsSlot (i + j) s
IsTable-elem i j [] s t e = cc
IsTable-elem i zero (r ∷ ss) s t e =
    subst (IsSlot (i + 0)) (same e) (subst (λ k. IsSlot k r) (omega arith) t.0)
  where
    same : some r ≡ some s → r ≡ s
    same e = cc
IsTable-elem i (suc j) (r ∷ ss) s t e =
    subst (λ k. IsSlot k s) (omega arith) (IsTable-elem (i + 1) j ss s t.1 e)

module _ (server : Server) (is : IsServer server) (uuid : SessionUuid) (j : ℕ) (slot : Slot)
    (index : uuid.index ≡ 2 + j) (at : get_elem? server.clients j ≡ some slot) where
  find_cases :
      (session_find uuid server ≡ absent)
      ⊎ ((session_find uuid server ≡ present uuid.index slot) × IsOpen (2 + j) slot)
  unfolding session_find session_uuid_is_equal
  find_cases =
      let client : ltb uuid.index 2 ≡ false = ground arith in
      let here : get_elem? server.clients (uuid.index - 2) ≡ some slot =
        ap (get_elem? server.clients) (omega arith) ∙ at in
      rw (client, session_find)
        (rw (here, session_find)
          (elim (Bool-cases (session_uuid_is_equal uuid slot.session_uuid)) [
            | inr differ ↦ rw differ (inl refl)
            | inl same ↦
                rw same (inr (refl, opened same (IsTable-elem 2 j server.clients slot is.table at)))
          ]))
    where
      opened :
          session_uuid_is_equal uuid slot.session_uuid ≡ true
          → IsSlot (2 + j) slot
          → IsOpen (2 + j) slot
      opened same (inl free) = absurd (clash same free.index_is)
        where
          clash :
              session_uuid_is_equal uuid slot.session_uuid ≡ true → ¬ (slot.session_uuid.index ≡ 0)
          clash same z = ground (arith, index)
      opened same (inr o) = o

  nothing_done :
      (empties : Bool) (messages : List Message) (n : ℕ)
      → (n ≡ 1) ⊎ (n ≡ 2)
      → Replies empties messages server (replied n server messages)
  nothing_done empties messages n which = record {
    res = n;
    after = server;
    rest = messages;
    is = refl;
    keeps = is;
    outcome = inl (which, refl, refl);
  }

  leave-IsServer :
      (n : ℕ) (s : Session) (xs : List Event)
      → IsOpen (2 + j) slot
      → s.session_uuid ≡ slot.session_uuid
      → Holds s.events xs
      → IsServer (leave uuid.index slot n s server)
  leave-IsServer n s xs o e h = record {
    table =
        subst (λ k. IsTable 2 (set server.clients k left)) (omega arith)
          (IsTable-set 2 j server.clients left is.table (
            inr (record {
              fd = o.fd;
              fd_is = o.fd_is;
              sockfd_is = o.sockfd_is;
              index_is = ap (λ u. u.index) e ∙ o.index_is;
            })));
    held = (xs, h);
  }
    where
      left : Slot
      left = record slot { session_uuid = s.session_uuid; lstreams = s.lstreams; ngsession = n }

  sent-Replies :
      (messages : List Message) (s : Session) (o : Served)
      → IsOpen (2 + j) slot
      → s.session_uuid ≡ slot.session_uuid
      → Serves s o
      → Replies true messages server (sent uuid.index slot server o)
  unfolding sent
  sent-Replies messages s o opened e r =
      rw (r.is, sent)
        (record {
          res = _;
          after = leave uuid.index slot r.ngsession r.after server;
          rest = [];
          is = refl;
          keeps = leave-IsServer r.ngsession r.after r.held.0 opened (r.uuid ∙ e) r.held.1;
          outcome = inr (ground arith, refl);
        })

  send_once-Replies :
      (ng : Nghttp2) (fuel n : ℕ)
      → Works ng fuel
      → IsOpen (2 + j) slot
      → Replies false [] server (send_once ng uuid.index slot n [] server)
  unfolding send_once
  send_once-Replies ng fuel n works opened =
      elim (Option-cases (ng.send n (session_of slot server.events))) [
        | inl failed ↦ absurd (works.send_returns n (session_of slot server.events) failed)
        | inr ((res, n', s'), e) ↦
            let kept =
              works.keeps.send_keeps n res n' (session_of slot server.events) s' is.held.0 is.held.1
                e in
            rw (e, send_once)
              (record {
                res = 0;
                after = leave uuid.index slot n' s' server;
                rest = [];
                is = refl;
                keeps = leave-IsServer n' s' kept.1.0 opened kept.0 kept.1.1;
                outcome = inr (inl refl, refl);
              })
      ]

-- The streams that nghttp2 knows of a session are among its streams.
pub record Knows (submit : Submit) (slot : Slot) : Type 0 where
  pub stream :
      (id a : ℕ)
      → submit.user_data slot.ngsession id ≡ some a
      → (s : Stream) × (find_stream a slot.lstreams ≡ some s)

module _ (server : Server) (is : IsServer server) (uuid : SessionUuid) (j : ℕ) (slot : Slot)
    (index : uuid.index ≡ 2 + j) (at : get_elem? server.clients j ≡ some slot) (ng : Nghttp2)
    (fuel : ℕ) (works : Works ng fuel) (submit : Submit) (knows : Knows submit slot) where
  client : ltb uuid.index 2 ≡ false
  client = ground arith

  -- To send on any stream of any session of the table returns, with a well formed server: 1 where
  -- the session is not there and 2 where the stream is not, with nothing changed, and else 0, or 3
  -- where nghttp2 fails, with the user's list emptied.
  pub stream_send-Replies :
      (stream_id : ℕ) (messages : List Message)
      → Replies true messages server (stream_send fuel ng submit uuid stream_id messages server)
  unfolding stream_send
  stream_send-Replies stream_id messages = elim (find_cases server is uuid j slot index at) [
    | inl gone ↦
        rw (gone, stream_send)
          (nothing_done server is uuid j slot index at true messages 1 (inl refl))
    | inr (found, opened) ↦
        rw (found, stream_send)
          (rw client (elim (Option-cases (submit.user_data slot.ngsession stream_id)) [
            | inl unknown ↦
                rw (unknown, stream_send)
                  (nothing_done server is uuid j slot index at true messages 2 (inr refl))
            | inr (a, known) ↦
                let (s, e) = knows.stream stream_id a known in
                rw (known, stream_send)
                  (rw (e, stream_send)
                    (sent-Replies server is uuid j slot index at messages _ _ opened refl
                      (send_loop-Serves ng fuel works _ _ is.held.0 is.held.1)))
          ]))
  ]

  -- To end any stream of any session of the table returns, with a well formed server: 1 where the
  -- session is not there and 2 where the stream is not, with nothing changed, and else 0 or 3.
  pub stream_end-Replies :
      (stream_id status : ℕ)
      → Replies false [] server (stream_end ng submit uuid stream_id status server)
  unfolding stream_end
  stream_end-Replies stream_id status = elim (find_cases server is uuid j slot index at) [
    | inl gone ↦
        rw (gone, stream_end) (nothing_done server is uuid j slot index at false [] 1 (inl refl))
    | inr (found, opened) ↦
        rw (found, stream_end)
          (rw client (elim (Option-cases (submit.user_data slot.ngsession stream_id)) [
            | inl unknown ↦
                rw (unknown, stream_end)
                  (nothing_done server is uuid j slot index at false [] 2 (inr refl))
            | inr (a, known) ↦
                let (s, e) = knows.stream stream_id a known in
                rw (known, stream_end)
                  (rw (e, stream_end)
                    (send_once-Replies server is uuid j slot index at ng fuel _ works opened))
          ]))
  ]
