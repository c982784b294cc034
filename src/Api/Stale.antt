-- ===== src/Api/Stale.antt =====
-- A uuid whose session has ended.
use ezgrpc.Prelude.{
  ℕ, ◌+◌, ◌-◌, ◌≡◌, refl, ap, ◌∙◌, false, some, List, [], get_elem?, arith, ltb, ◌==◌,
}
use ezgrpc.Wire.{Message}
use ezgrpc.Event.{SessionUuid, session_uuid_is_equal}
use ezgrpc.Server.{Slot, Server, absent, session_find, Nghttp2}
use ezgrpc.Server.Table.{IsFree}
use ezgrpc.Api.{Submit, replied, stream_send, stream_end, session_end}

module _ (server : Server) (uuid : SessionUuid) (j : ℕ) (slot : Slot) (index : uuid.index ≡ 2 + j)
    (is : get_elem? server.clients j ≡ some slot) (free : IsFree slot) where
  session_find-absent : session_find uuid server ≡ absent
  unfolding session_find session_uuid_is_equal
  session_find-absent =
      let client : ltb uuid.index 2 ≡ false = ground arith in
      let at : get_elem? server.clients (uuid.index - 2) ≡ some slot =
        ap (get_elem? server.clients) (omega arith) ∙ is in
      let differs : (uuid.index == slot.session_uuid.index) ≡ false =
        ground (arith, free.index_is) in
      rw (client, session_find) (rw (at, session_find) (rw (differs) refl))

  -- Once the session at an entry has ended, and the entry has not been taken again, each call with
  -- its uuid returns 1, leaves the server as it is, and leaves the messages in the user's list.
  pub stale_uuid :
      (fuel : ℕ) (ng : Nghttp2) (submit : Submit) (stream_id n : ℕ) (messages : List Message)
      → (stream_send fuel ng submit uuid stream_id messages server ≡ replied 1 server messages)
        × (stream_end ng submit uuid stream_id n server ≡ replied 1 server [])
        × (session_end ng submit uuid stream_id n server ≡ replied 1 server [])
  unfolding stream_send stream_end session_end
  stale_uuid fuel ng submit stream_id n messages = (
    rw (session_find-absent, stream_send) refl,
    rw (session_find-absent, stream_end) refl,
    rw (session_find-absent, session_end) refl,
  )
