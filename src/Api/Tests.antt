-- ===== src/Api/Tests.antt =====
-- A server with one client, which has one stream.
use ezgrpc.Prelude.{◌≡◌, refl, true, none, some, [], ◌∷◌, arith, inl, inr, if◌then◌else◌, ◌==◌}
use ezgrpc.Wire.{Message}
use ezgrpc.Stream.{stream_new}
use ezgrpc.Event.{SessionUuid}
use ezgrpc.Events.{events_new}
use ezgrpc.Events.Contents.{Holds-new}
use ezgrpc.Session.{find_stream}
use ezgrpc.Server.{Slot, zero_slot, Server, Nghttp2}
use ezgrpc.Server.Poll.Total.{IsServer}
use ezgrpc.Api.{Submit, replied, stream_send, stream_end, session_end}
use ezgrpc.Api.Stale.{stale_uuid}
use ezgrpc.Api.Total.{Knows}

abbrev hi : Message
hi = record { cflag = 0; len = 2; payload = 104 ∷ 105 ∷ [] }

abbrev uuid : SessionUuid
uuid = record { uuid = 70; index = 2 }

abbrev client : Slot
client = record {
  fd = some 8;
  session_uuid = uuid;
  sockfd = 8;
  lstreams = (200, stream_new 7 1) ∷ [];
  ngsession = 1;
}

abbrev server : Server
server = record { clients = client ∷ zero_slot ∷ []; events = events_new; closed = [] }

server-IsServer : IsServer server
server-IsServer = record {
  table = (
    inr (record { fd = 8; fd_is = refl; sockfd_is = refl; index_is = refl }),
    (inl (record { fd_is = refl; index_is = refl }), tt),
  );
  held = ([], Holds-new);
}

-- An nghttp2 that has one frame to send in state 1.
abbrev ng : Nghttp2
ng = record {
  want_read = λ n. true;
  want_write = λ n. n == 1;
  recv = λ n s. some (0, n, s);
  send = λ n s. some (0, 0, s);
}

abbrev submit : Submit
submit = record {
  user_data = λ n id. if id == 1 then some 200 else none;
  submit_data = λ n id. 1;
  submit_trailer = λ n id fields. 1;
  submit_goaway = λ n id code. 1;
}

submit-Knows : Knows submit client
unfolding find_stream
submit-Knows = record { stream = λ id a e. (stream_new 7 1, ground arith) }

abbrev old : SessionUuid
old = record { uuid = 69; index = 3 }

stale_uuid_example :
    (stream_send 2 ng submit old 1 (hi ∷ []) server ≡ replied 1 server (hi ∷ []))
    × (stream_end ng submit old 1 5 server ≡ replied 1 server [])
    × (session_end ng submit old 1 5 server ≡ replied 1 server [])
stale_uuid_example =
    stale_uuid server old 1 zero_slot refl refl (record { fd_is = refl; index_is = refl }) 2 ng
      submit 1 5 (hi ∷ [])
