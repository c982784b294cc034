-- ===== src/Headers/Tests.antt =====
-- The answer to one request.
use ezgrpc.Prelude.{◌≡◌, ◌↔◌, refl, true, false, some, List, [], ◌∷◌, arith, codes}
use ezgrpc.Stream.{stream_new}
use ezgrpc.Session.{Env, Field, submit_headers}
use ezgrpc.Headers.{Frame, status_200, answer, reply}
use ezgrpc.Headers.Reply.{IsCall, reply-IsCall}
use ezgrpc.Header.Request.{stream_headers}
use ezgrpc.Paths.Register.{entry}

abbrev env : Env
env = record {
  initial_window_size = 16;
  registry = record { nb_paths = 1; max_paths = 1; paths = entry (codes "/s/Say") 10 1 1 ∷ [] };
  user_data = λ id. some 100;
  submit_headers_result = 0;
  malloc_ok = true;
}

abbrev frame : Frame
frame = record { stream_id = 1; length = 30; end_stream = false; end_headers = true; ack = false }

abbrev hs : List Field
hs =
    record { name = codes ":method"; value = codes "POST" }
    ∷ record { name = codes ":scheme"; value = codes "http" }
    ∷ record { name = codes ":path"; value = codes "/s/Say" }
    ∷ record { name = codes "content-type"; value = codes "application/grpc+proto" }
    ∷ record { name = codes "te"; value = codes "trailers" }
    ∷ []

reply-IsCall_example :
    (reply env frame (stream_headers env.registry hs (record (stream_new 7 1) { recv_data = [] })).1
      ≡ answer 0 (submit_headers false 1 status_200 ∷ []))
    ↔ IsCall env.registry hs
reply-IsCall_example = reply-IsCall env frame hs 7 1 [] (omega arith) refl refl refl
