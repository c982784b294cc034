-- ===== src/Lifetime/Callbacks.antt =====
-- What every callback keeps, and that none of them fails under what nghttp2 promises.
use ezgrpc.Prelude.{
  ℕ, ◌+◌, ◌≤◌, ◌≡◌, refl, sym, ◌⊎◌, inl, inr, subst, Bool, true, false, none, some, List, ◌==◌,
  arith, length, get_elem?, ltb, Bool-cases, Option-cases,
}
use ezgrpc.Data.Deliver.{Overlaps, Delivers}
use ezgrpc.Wire.{Byte}
use ezgrpc.Stream.{Stream, stream_new}
use ezgrpc.Events.Contents.{Holds}
use ezgrpc.Session.{Env, Session, Outcome, returned, fault, find_stream, put_stream}
use ezgrpc.Header.{stream_max_headers, on_header}
use ezgrpc.Headers.{Frame, on_frame_recv_headers, on_frame_recv_settings}
use ezgrpc.Data.{append_chunk, Delivery, deliver, finish, on_data_chunk_recv, on_frame_recv_data}
use ezgrpc.Data.Chunk.{append_chunk-IsBuffered}
use ezgrpc.Data.Deliver.{deliver-Delivers}
use ezgrpc.Lifetime.{
  opened, on_begin_headers, on_stream_close, FrameType, Callback, begin_headers, header, frame_recv,
  data_chunk_recv, stream_close, callback, on_frame_recv,
}
use ezgrpc.Lifetime.Close.{close_same}
use ezgrpc.Lifetime.Kept.{
  stream_header-IsStream, stream_header-id, get_elem_some, write_events-Written,
}
use ezgrpc.Paths.{ServerPath}
use ezgrpc.Headers.Reply.{reply_answers}
use ezgrpc.Lifetime.Streams.{
  InTable, IsStream, AllStreams, IsSession, AllStreams-find, AllStreams-put, AllStreams-append,
  AllStreams-remove, ids, Absent, Distinct, Distinct-append, Distinct-remove, ids-put,
  first_address-found,
}
use native.Mathlib.Decide.{dec_le}

-- What nghttp2 promises of a callback that it makes: a stream that a header or a HEADERS frame is
-- for was opened and is still there, data for a stream that it does not know comes with NULL, and a
-- stream that is closed was opened under its id and is still there. `malloc` gives a buffer of the
-- size asked for. Headers do not begin on a stream that is open, as they do for trailers.
abbrev Known : Env → Session → ℕ → Type 0
Known env session id =
    (a : ℕ) × (s : Stream) × (env.user_data id ≡ some a) × (find_stream a session.lstreams ≡ some s)

abbrev pub Allowed : Env → Session → Callback → Type 0
Allowed env session (begin_headers now address id buffer) =
    (length buffer ≡ env.initial_window_size) × Absent id (ids session.lstreams)
Allowed env session (header is_headers id name value) = Known env session id
Allowed env session (frame_recv FrameType.headers frame) = Known env session frame.stream_id
Allowed env session (frame_recv FrameType.payload frame) =
    (env.user_data frame.stream_id ≡ none) ⊎ Known env session frame.stream_id
Allowed env session (frame_recv _ frame) = Unit {0}
Allowed env session (data_chunk_recv id chunk) = (env.user_data id ≡ none) ⊎ Known env session id
Allowed env session (stream_close id) =
    (a : ℕ) × (s : Stream) × (env.user_data id ≡ some a)
    × (find_stream a session.lstreams ≡ some s)
    × (s.stream_id ≡ id)

-- A DATA frame of a stream of which the `memcpy` of what is left overlaps.
abbrev pub Overlapping : Env → Session → Callback → Type 0
Overlapping env session (frame_recv FrameType.payload frame) =
    (a : ℕ) × (s : Stream) × (env.user_data frame.stream_id ≡ some a)
    × (find_stream a session.lstreams ≡ some s)
    × Overlaps s
Overlapping env session _ = ⊥

pub record Returns (env : Env) (o : Outcome) : Type 0 where
  pub res : ℕ
  pub after : Session
  pub is : o ≡ returned res after
  pub session : IsSession env after

module _ (env : Env) (session : Session) (is : IsSession env session) where
  -- A callback that changes no stream and no event.
  same_streams :
      (res : ℕ) (after : Session)
      → after.lstreams ≡ session.lstreams
      → after.events ≡ session.events
      → Returns env (returned res after)
  same_streams res after e f = record {
    res = res;
    after = after;
    is = refl;
    session = record {
      streams = subst (AllStreams (IsStream env)) (sym e) is.streams;
      distinct = subst (λ l. Distinct (ids l)) (sym e) is.distinct;
      held = (is.held.0, subst (λ es. Holds es is.held.0) (sym f) is.held.1);
    };
  }

  begin_headers-Returns :
      (now address id : ℕ) (buffer : List Byte)
      → length buffer ≡ env.initial_window_size
      → Absent id (ids session.lstreams)
      → Returns env (on_begin_headers now address id buffer session)
  unfolding on_begin_headers opened stream_new
  begin_headers-Returns now address id buffer e new = record {
    res = 0;
    after = _;
    is = refl;
    session = record {
      streams =
          AllStreams-append (IsStream env) session.lstreams address (opened now id buffer)
            is.streams
            (record {
              buffered = record { size = e; within = omega arith };
              few = omega arith;
              path = tt;
            });
      distinct = Distinct-append session.lstreams address (opened now id buffer) is.distinct new;
      held = is.held;
    };
  }

  put-Returns :
      (res a : ℕ) (old s : Stream)
      → find_stream a session.lstreams ≡ some old
      → s.stream_id ≡ old.stream_id
      → IsStream env s
      → Returns env (returned res (record session { lstreams = put_stream a s session.lstreams }))
  put-Returns res a old s found same st = record {
    res = res;
    after = _;
    is = refl;
    session = record {
      streams = AllStreams-put (IsStream env) a session.lstreams s is.streams st;
      distinct = subst Distinct (sym (ids-put a session.lstreams old s found same)) is.distinct;
      held = is.held;
    };
  }

  header-Returns :
      (is_headers : Bool) (id : ℕ) (name value : List Byte)
      → Known env session id
      → Returns env (on_header env is_headers id name value session)
  unfolding on_header
  header-Returns false id name value known = same_streams 0 session refl refl
  header-Returns true id name value (a, s, e, f) =
      let st = AllStreams-find (IsStream env) a session.lstreams is.streams f in
      rw (e, on_header)
        (rw f (
          put-Returns _ a s _ f (stream_header-id env name value s st)
            (stream_header-IsStream env name value s st)))

  headers-Returns :
      (frame : Frame)
      → env.submit_headers_result ≡ 0
      → Known env session frame.stream_id
      → Returns env (on_frame_recv_headers env frame session)
  unfolding on_frame_recv_headers
  headers-Returns frame ok (a, s, e, f) =
      let (res, calls, g) = reply_answers env frame s ok in
      rw (e, on_frame_recv_headers) (rw f (rw g (same_streams res _ refl refl)))

  settings-Returns : (frame : Frame) → Returns env (on_frame_recv_settings frame session)
  unfolding on_frame_recv_settings
  settings-Returns frame = elim (Bool-cases (frame.stream_id == 0)) [
    | inl e ↦ elim (Bool-cases frame.ack) [
      | inl f ↦ elim (Bool-cases (frame.length == 0)) [
        | inl g ↦ rw (e, f, g) (same_streams 0 session refl refl)
        | inr g ↦ rw (e, f, g) (same_streams 0 _ refl refl)
      ]
      | inr f ↦ rw (e, f) (same_streams 0 session refl refl)
    ]
    | inr e ↦ rw e (same_streams 0 session refl refl)
  ]

  chunk-Returns :
      (id : ℕ) (chunk : List Byte)
      → (env.user_data id ≡ none) ⊎ Known env session id
      → Returns env (on_data_chunk_recv env id chunk session)
  unfolding on_data_chunk_recv append_chunk
  chunk-Returns id chunk (inl e) = rw (e, on_data_chunk_recv) (same_streams 0 session refl refl)
  chunk-Returns id chunk (inr (a, s, e, f)) =
      rw (e, on_data_chunk_recv)
        (rw f (elim (dec_le (s.recv_len + length chunk) env.initial_window_size) [
          | yes fits ↦
              let st = AllStreams-find (IsStream env) a session.lstreams is.streams f in
              let more : ltb env.initial_window_size (s.recv_len + length chunk) ≡ false =
                ground arith in
              rw more (
                put-Returns 0 a s _ f refl (record {
                  buffered =
                      (append_chunk-IsBuffered env.initial_window_size chunk s st.buffered fits).0;
                  few = st.few;
                  path = st.path;
                }))
          | no over ↦
              let more : ltb env.initial_window_size (s.recv_len + length chunk) ≡ true =
                ground arith in
              rw more (same_streams 1 _ refl refl)
        ]))

  abbrev pub Settles : Callback → Outcome → Type 0
  Settles cb o = Returns env o ⊎ ((o ≡ fault) × Overlapping env session cb)

  delivers-Returns :
      (frame : Frame) (a userdata : ℕ) (s : Stream) (o : Delivery)
      → find_stream a session.lstreams ≡ some s
      → env.malloc_ok ≡ true
      → IsStream env s
      → Delivers env.initial_window_size frame s o
      → Returns env (finish env a userdata session o)
  delivers-Returns frame a userdata s o found ok st d =
      let after : IsStream env d.after = record {
        buffered = d.buffered;
        few = subst (λ n. n ≤ stream_max_headers) (sym d.same.1) st.few;
        path = subst (InTable env.registry) (sym d.same.0) st.path;
      } in
      let w =
        write_events-Written env session.session_uuid userdata d.kinds
          (record session { lstreams = put_stream a d.after session.lstreams }) is.held.0 ok
          is.held.1 in
      rw d.is (
        rw (w.is, finish)
          (record {
            res = 0;
            after = w.after;
            is = refl;
            session = record {
              streams =
                  subst (AllStreams (IsStream env)) (sym w.streams)
                    (AllStreams-put (IsStream env) a session.lstreams d.after is.streams after);
              distinct =
                  subst (λ l. Distinct (ids l)) (sym w.streams)
                    (subst Distinct (sym (ids-put a session.lstreams s d.after found d.same.2))
                      is.distinct);
              held = w.held;
            };
          }))

  deliver-Settles :
      (frame : Frame) (a userdata : ℕ) (s : Stream)
      → env.user_data frame.stream_id ≡ some a
      → find_stream a session.lstreams ≡ some s
      → env.malloc_ok ≡ true
      → 5 ≤ env.initial_window_size
      → IsStream env s
      → Settles
          (frame_recv FrameType.payload frame)
          (finish env a userdata session (deliver frame s))
  deliver-Settles frame a userdata s known found ok five st =
      elim (deliver-Delivers env.initial_window_size frame s st.buffered five) [
        | inl d ↦ inl (delivers-Returns frame a userdata s (deliver frame s) found ok st d)
        | inr (e, over) ↦ rw (e, finish) (inr (refl, (a, s, known, found, over)))
      ]

  data_no_path :
      (frame : Frame) (a : ℕ) (s : Stream)
      → env.user_data frame.stream_id ≡ some a
      → find_stream a session.lstreams ≡ some s
      → s.path ≡ none
      → on_frame_recv_data env frame session ≡ returned 0 session
  unfolding on_frame_recv_data
  data_no_path frame a s e f g = rw (e, on_frame_recv_data) (rw f (rw g refl))

  data_path :
      (frame : Frame) (a p : ℕ) (s : Stream) (path : ServerPath)
      → env.user_data frame.stream_id ≡ some a
      → find_stream a session.lstreams ≡ some s
      → s.path ≡ some p
      → get_elem? env.registry.paths p ≡ some path
      → (o : Outcome) → finish env a path.userdata session (deliver frame s) ≡ o
      → on_frame_recv_data env frame session ≡ o
  unfolding on_frame_recv_data
  data_path frame a p s path e f g h o is_o = rw (e, on_frame_recv_data) (rw f (rw g (rw h is_o)))

  data_unknown :
      (frame : Frame)
      → env.user_data frame.stream_id ≡ none
      → Returns env (on_frame_recv_data env frame session)
  unfolding on_frame_recv_data
  data_unknown frame e = rw (e, on_frame_recv_data) (same_streams 0 _ refl refl)

  data-Settles :
      (frame : Frame)
      → env.malloc_ok ≡ true
      → 5 ≤ env.initial_window_size
      → (env.user_data frame.stream_id ≡ none) ⊎ Known env session frame.stream_id
      → Settles (frame_recv FrameType.payload frame) (on_frame_recv_data env frame session)
  data-Settles frame ok five (inl e) = inl (data_unknown frame e)
  data-Settles frame ok five (inr (a, s, e, f)) =
      let st = AllStreams-find (IsStream env) a session.lstreams is.streams f in
      elim (Option-cases s.path) [
        | inl g ↦ inl (
            subst (Returns env) (sym (data_no_path frame a s e f g))
              (same_streams 0 session refl refl))
        | inr (p, g) ↦
            let (path, h) =
              get_elem_some env.registry.paths p (subst (InTable env.registry) g st.path) in
            subst (Settles (frame_recv FrameType.payload frame))
              (sym (data_path frame a p s path e f g h _ refl))
              (deliver-Settles frame a path.userdata s e f ok five st)
      ]

  close-Returns :
      (id a : ℕ) (s : Stream)
      → env.user_data id ≡ some a
      → find_stream a session.lstreams ≡ some s
      → s.stream_id ≡ id
      → Returns env (on_stream_close env id session)
  close-Returns id a s e f same =
      rw
        (close_same env session id a e
          (first_address-found a id session.lstreams s is.distinct f same))
        (record {
          res = 0;
          after = _;
          is = refl;
          session = record {
            streams = AllStreams-remove (IsStream env) id session.lstreams is.streams;
            distinct = Distinct-remove id session.lstreams is.distinct;
            held = is.held;
          };
        })

  frame_recv-Settles :
      (type : FrameType) (frame : Frame)
      → env.malloc_ok ≡ true
      → env.submit_headers_result ≡ 0
      → 5 ≤ env.initial_window_size
      → Allowed env session (frame_recv type frame)
      → Settles (frame_recv type frame) (on_frame_recv env type frame session)
  unfolding on_frame_recv
  frame_recv-Settles FrameType.settings frame m h w p = inl (settings-Returns frame)
  frame_recv-Settles FrameType.headers frame m h w p = inl (headers-Returns frame h p)
  frame_recv-Settles FrameType.payload frame m h w p = data-Settles frame m w p
  frame_recv-Settles FrameType.window_update frame m h w p = inl (same_streams 0 session refl refl)
  frame_recv-Settles FrameType.other frame m h w p = inl (same_streams 0 session refl refl)

-- A callback on a session whose streams have different ids, buffers of the window's size, no more
-- headers than there is room for and paths that are registered, and whose list of events is well
-- formed, returns, without undefined behaviour and without a failed assertion, and leaves such a
-- session; or else it is that of a DATA frame, of whose stream the `memcpy` that keeps what is left
-- overlaps. The callback is one that `Allowed` lets nghttp2 make, where headers
-- begin only on a stream that is not open, so that there are no trailers; `malloc` has room, the
-- window is of at least five bytes, and `nghttp2_submit_headers` succeeds.
pub callback-IsSession :
    (env : Env) (cb : Callback) (session : Session) (is : IsSession env session)
    → Allowed env session cb
    → env.malloc_ok ≡ true
    → env.submit_headers_result ≡ 0
    → 5 ≤ env.initial_window_size
    → Settles env session is cb (callback env cb session)
unfolding callback
callback-IsSession env (begin_headers now address id buffer) session is p m h w =
    inl (begin_headers-Returns env session is now address id buffer p.0 p.1)
callback-IsSession env (header is_headers id name value) session is p m h w =
    inl (header-Returns env session is is_headers id name value p)
callback-IsSession env (frame_recv type frame) session is p m h w =
    frame_recv-Settles env session is type frame m h w p
callback-IsSession env (data_chunk_recv id chunk) session is p m h w =
    inl (chunk-Returns env session is id chunk p)
callback-IsSession env (stream_close id) session is (a, s, e, f, same) m h w =
    inl (close-Returns env session is id a s e f same)
