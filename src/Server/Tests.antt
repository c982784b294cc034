-- ===== src/Server/Tests.antt =====
-- A server for two clients, one of which is there.
use ezgrpc.Prelude.{
  ℕ, zero, suc, ◌≡◌, ◌≢◌, refl, subst, true, false, Option, none, some, List, [], ◌∷◌, ◌++◌, arith,
  inl, inr, get_elem?, ltb, if◌then◌else◌, ◌-◌, ◌==◌, replicate,
}
use ezgrpc.Event.{Event}
use ezgrpc.Events.{events_new}
use ezgrpc.Events.Contents.{Holds, Holds-new}
use ezgrpc.Session.{Session, Outcome, returned, fault, called, set_stream_user_data}
use ezgrpc.Lifetime.{opened, on_begin_headers}
use ezgrpc.Server.{
  Slot, zero_slot, Server, Accept, Nghttp2, Served, session_add, session_events,
  get_unused_pollfd_ndx,
}
use ezgrpc.Server.Table.{IsTable}
use ezgrpc.Server.Add.{Succeeds, Enters, session_add-Enters}
use ezgrpc.Server.Serve.{Patient, Keeps, Kept, Does, session_events-Does, session_events_spins}
use ezgrpc.Server.Poll.{Revents, Ready, session_of, poll_slot}
use ezgrpc.Server.Poll.Round.{Turn, poll_slot-Turn}

abbrev client : Slot
client = record {
  fd = some 8;
  session_uuid = record { uuid = 70; index = 2 };
  sockfd = 8;
  lstreams = [];
  ngsession = 3;
}

abbrev server : Server
server = record { clients = client ∷ zero_slot ∷ []; events = events_new; closed = [] }

server-IsTable : IsTable 2 server.clients
server-IsTable = (
  inr (record { fd = 8; fd_is = refl; sockfd_is = refl; index_is = refl }),
  (inl (record { fd_is = refl; index_is = refl }), tt),
)

abbrev accept : Accept
accept = record {
  confd = some 9;
  callbacks_new = 0;
  server_new_fails = false;
  submit_settings_fails = false;
  makenonblock = 0;
  setsockopt_fails = false;
  known_family = true;
  uuid = 71;
  ngsession = 1;
}

accept-Succeeds : Succeeds accept 9
accept-Succeeds = record {
  confd_is = refl;
  callbacks = refl;
  server = refl;
  settings = refl;
  nonblock = refl;
  setsockopt = refl;
  family = refl;
}

unused : get_unused_pollfd_ndx 2 server.clients ≡ some 3
unfolding get_unused_pollfd_ndx
unused = refl

session_add-Enters_example : Enters accept 9 3 [] (session_add true accept server)
session_add-Enters_example =
    session_add-Enters server accept 9 3 [] server-IsTable Holds-new accept-Succeeds unused

abbrev full : Server
full = record server { clients = client ∷ [] }

full_used : (j : ℕ) (s : Slot) → get_elem? full.clients j ≡ some s → s.fd ≢ none
full_used zero s e = λ f. ground arith
full_used (suc j) s e = cc

-- What nghttp2 gives for the outcome of the one callback that it makes.
abbrev after_callback : ℕ → Outcome → Option (ℕ × ℕ × Session)
after_callback n (returned res s) = some (res, n, s)
after_callback n fault = none

-- An nghttp2 that receives the headers of stream 3 and has as many frames to send as its state says;
-- in state 6 it has four, and the socket takes nothing once.
abbrev ng : Nghttp2
ng = record {
  want_read = λ n. true;
  want_write = λ n. if n == 6 then true else if ltb 0 n then ltb n 5 else false;
  recv = λ n s. after_callback n (on_begin_headers 7 300 3 (replicate 16 0) s);
  send = λ n s. some (0, if n == 6 then 4 else n - 1, s);
}

abbrev left : ℕ → ℕ
left n = if n == 6 then 4 else if ltb n 5 then n else 0

ng-Patient : Patient ng 10
ng-Patient = record {
  left = left;
  blocked = λ n. if n == 6 then 1 else 0;
  most = 1;
  small = λ n. ground arith;
  bounded = λ n. ground arith;
  send_goes = λ n n' s s' more e. ground (arith, e);
}

opens :
    (n res n' : ℕ) (s s' : Session) (xs : List Event)
    → Holds s.events xs
    → after_callback n (on_begin_headers 7 300 3 (replicate 16 0) s) ≡ some (res, n', s')
    → Kept s s'
unfolding on_begin_headers
opens n res n' s s' xs h e =
    let opening : Session =
      called (record s { lstreams = s.lstreams ++ (300, opened 7 3 (replicate 16 0)) ∷ [] })
        (set_stream_user_data 3 300) in
    let same : opening ≡ s' = cc in subst (Kept s) same (refl, (xs, h))

ng-Keeps : Keeps ng
ng-Keeps = record {
  recv_keeps = λ n res n' s s' xs h e. opens n res n' s s' xs h e;
  send_keeps =
      λ n res n' s s' xs h e. let same : s ≡ s' = cc in subst (Kept s) same (refl, (xs, h));
}

session_events-Does_example :
    Does ng 6 (session_of client events_new) (session_events 10 ng 6 (session_of client events_new))
session_events-Does_example = session_events-Does ng 10 ng-Patient 6 (session_of client events_new)

-- The same, with a socket that takes nothing.
abbrev stuck : Nghttp2
stuck = record ng { recv = λ n s. some (0, n, s); send = λ n s. some (0, n, s) }

session_events_spins_example :
    session_events 10 stuck 3 (session_of client events_new) ≡ Served.out_of_fuel
session_events_spins_example =
    session_events_spins stuck 3 3 (session_of client events_new) (session_of client events_new) 10
      refl refl refl refl

abbrev readable : Revents
readable = record { hangup = false; readable = true }

poll_slot-Turn_example :
    Turn ng readable client events_new [] [] (poll_slot true 10 ng readable client events_new [])
poll_slot-Turn_example =
    poll_slot-Turn ng 10 ng-Patient ng-Keeps readable client events_new [] [] Holds-new

abbrev ready : Ready
ready = record { ipv4 = some accept; ipv6 = none; revents = readable ∷ [] }
