-- ===== src/Service/Sample.antt =====
-- A server of two entries with one session, of one stream, for the tests.
use ezgrpc.Prelude.{
  ℕ, ◌≡◌, refl, subst, true, none, some, List, [], ◌∷◌, ◌++◌, map, replicate, arith, inl, inr,
  if◌then◌else◌, ◌==◌,
}
use ezgrpc.Wire.{Message}
use ezgrpc.Stream.{Stream, stream_new}
use ezgrpc.Event.{SessionUuid, Event}
use ezgrpc.Events.{Events}
use ezgrpc.Events.Contents.{Holds}
use ezgrpc.Session.{find_stream}
use ezgrpc.Server.{Slot, zero_slot, Server, Nghttp2}
use ezgrpc.Server.Serve.{Works, Kept}
use ezgrpc.Api.{Submit}
use ezgrpc.Service.Keeps.{Tracks, Steady}
use ezgrpc.Service.Fills.{IsHeld}

abbrev pub hi : Message
hi = record { cflag = 0; len = 2; payload = 104 ∷ 105 ∷ [] }

abbrev pub uuid : SessionUuid
uuid = record { uuid = 70; index = 2 }

abbrev client : Slot
client = record {
  fd = some 8;
  session_uuid = uuid;
  sockfd = 8;
  lstreams = (200, stream_new 7 1) ∷ [];
  ngsession = 2;
}

-- An nghttp2 that knows no stream in state 0, and that has one frame to send in the states 1 and 3,
-- of which the socket takes nothing in state 3.
abbrev pub ng : Nghttp2
ng = record {
  want_read = λ n. true;
  want_write = λ n. if n == 1 then true else n == 3;
  recv = λ n s. some (0, n, s);
  send = λ n s. some (0, if n == 0 then 0 else if n == 3 then 1 else 2, s);
}

abbrev pub submit : Submit
submit = record {
  user_data = λ n id. if n == 0 then none else if id == 1 then some 200 else none;
  submit_data = λ n id. if n == 0 then 0 else 3;
  submit_trailer = λ n id fields. if n == 0 then 0 else 1;
  submit_goaway = λ n id code. n;
}

pub ng-Works : Works ng 5
ng-Works = record {
  patient = record {
    left = λ n. if n == 1 then 1 else if n == 3 then 1 else 0;
    blocked = λ n. if n == 3 then 1 else 0;
    most = 1;
    small = λ n. ground arith;
    bounded = λ n. ground arith;
    send_goes = λ n n' s s' more e. ground (arith, e);
  };
  keeps = record {
    recv_keeps =
        λ n res n' s s' xs h e. let same : s ≡ s' = cc in subst (Kept s) same (refl, (xs, h));
    send_keeps =
        λ n res n' s s' xs h e. let same : s ≡ s' = cc in subst (Kept s) same (refl, (xs, h));
  };
  send_returns = λ n s e. cc;
}

-- The states other than 0 know the same streams.
known_same :
    (n m : ℕ) (ls : List (ℕ × Stream))
    → (m == 0) ≡ (n == 0)
    → Tracks submit n ls
    → Tracks submit m ls
known_same n m ls same h id a e = h id a (ground arith)

pub ng-Steady : Steady submit ng
ng-Steady = record {
  send_events = λ n res n' s s' e. ground arith;
  send_tracks = λ n res n' s s' e h.
      let same : s ≡ s' = cc in
      subst (λ t. Tracks submit n' t.lstreams) same (known_same n n' s.lstreams (ground arith) h);
  data_tracks = λ n id ls h. known_same n (if n == 0 then 0 else 3) ls (ground arith) h;
  trailer_tracks = λ n id status ls h. known_same n (if n == 0 then 0 else 1) ls (ground arith) h;
}

-- The events of a list, with the entries that are not used.
abbrev pub events_of : List Event → (used left : ℕ) → Events
events_of xs used left = record {
  bevents = (map some xs ++ replicate left none) ∷ [];
  windex = used;
}

abbrev pub server_with : Events → Server
server_with es = record { clients = client ∷ zero_slot ∷ []; events = es; closed = [] }

pub server-IsHeld :
    (es : Events) (xs : List Event) → Holds es xs → IsHeld ng 5 submit 2 (server_with es) xs
unfolding find_stream
server-IsHeld es xs h = record {
  table = (
    inr (record { fd = 8; fd_is = refl; sockfd_is = refl; index_is = refl }),
    (inl (record { fd_is = refl; index_is = refl }), tt),
  );
  holds = h;
  size = refl;
  tracks = (λ id a e. (stream_new 7 1, ground arith), ((λ id a e. cc), tt));
}
