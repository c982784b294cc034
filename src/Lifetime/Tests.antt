-- ===== src/Lifetime/Tests.antt =====
-- A session with one stream.
use ezgrpc.Prelude.{◌≡◌, refl, true, false, none, some, [], ◌∷◌, arith, replicate, inr}
use ezgrpc.Stream.{Stream, stream_new}
use ezgrpc.Events.{events_new}
use ezgrpc.Events.Contents.{Holds-new}
use ezgrpc.Paths.{registry_new}
use ezgrpc.Session.{Env, Session, set_stream_user_data, find_stream, returned, fault, called}
use ezgrpc.Headers.{Frame}
use ezgrpc.Lifetime.{
  FrameType, frame_recv, callback, opened, first_address, on_begin_headers, on_stream_close,
}
use ezgrpc.Lifetime.Close.{on_stream_close-on_begin_headers, on_stream_close_reopened}
use ezgrpc.Lifetime.Streams.{IsSession}
use ezgrpc.Lifetime.Callbacks.{Settles, callback-IsSession}

abbrev env : Env
env = record {
  initial_window_size = 16;
  registry = registry_new 2;
  user_data = λ id. some 200;
  submit_headers_result = 0;
  malloc_ok = true;
}

-- The stream 1, at address 200, has a path.
abbrev stream : Stream
stream = record (opened 7 1 (replicate 16 0)) { path = some 1 }

abbrev session : Session
session = record {
  session_uuid = record { uuid = 5; index = 0 };
  lstreams = (200, stream) ∷ [];
  calls = [];
  events = events_new;
}

session-IsSession : IsSession env session
unfolding opened stream_new registry_new
session-IsSession = record {
  streams = (
    record {
      buffered = record { size = refl; within = omega arith };
      few = omega arith;
      path = omega arith;
    },
    tt,
  );
  distinct = (tt, tt);
  held = ([], Holds-new);
}

abbrev last : Frame
last = record { stream_id = 1; length = 0; end_stream = true; end_headers = false; ack = false }

found : find_stream 200 session.lstreams ≡ some stream
unfolding find_stream
found = refl

-- The DATA frame that ends the stream.
callback-IsSession_example :
    Settles env session session-IsSession
      (frame_recv FrameType.payload last)
      (callback env (frame_recv FrameType.payload last) session)
callback-IsSession_example =
    callback-IsSession env (frame_recv FrameType.payload last) session session-IsSession
      (inr (200, stream, refl, found)) refl refl (omega arith)

unknown : first_address 3 session.lstreams ≡ none
unfolding first_address opened stream_new
unknown = refl

known : first_address 1 session.lstreams ≡ some 200
unfolding first_address opened stream_new
known = refl

on_stream_close-on_begin_headers_example :
    (opening : Session) × (on_begin_headers 8 200 3 (replicate 16 0) session ≡ returned 0 opening)
    × (on_stream_close env 3 opening ≡ returned 0 (called session (set_stream_user_data 3 200)))
on_stream_close-on_begin_headers_example =
    on_stream_close-on_begin_headers env session 8 200 3 (replicate 16 0) unknown refl

on_stream_close_reopened_example :
    (opening : Session) × (on_begin_headers 8 300 1 (replicate 16 0) session ≡ returned 0 opening)
    × (on_stream_close (record env { user_data = λ id. some 300 }) 1 opening ≡ fault)
on_stream_close_reopened_example =
    on_stream_close_reopened (record env { user_data = λ id. some 300 }) session 8 300 1
      (replicate 16 0) 200 known (omega arith) refl
