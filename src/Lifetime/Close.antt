-- ===== src/Lifetime/Close.antt =====
-- Opening and closing streams.
use ezgrpc.Prelude.{ℕ, ◌≡◌, ◌≢◌, refl, ap, ◌∙◌, none, some, List, [], ◌∷◌, ◌++◌, arith}
use ezgrpc.Wire.{Byte}
use ezgrpc.Stream.{Stream, stream_new}
use ezgrpc.Session.{set_stream_user_data, Env, Session, returned, fault, called}
use ezgrpc.Lifetime.{opened, on_begin_headers, first_address, remove_stream, on_stream_close}

first_address-append :
    (id : ℕ) (l : List (ℕ × Stream)) (a : ℕ) (s : Stream)
    → first_address id l ≡ none
    → s.stream_id ≡ id
    → (first_address id (l ++ (a, s) ∷ []) ≡ some a) × (remove_stream id (l ++ (a, s) ∷ []) ≡ l)
unfolding first_address remove_stream
first_address-append id [] a s new e = ground arith
first_address-append id ((b, t) ∷ l) a s new e = ground (arith, first_address-append id l a s)

first_address_kept :
    (id : ℕ) (l l' : List (ℕ × Stream)) (a : ℕ)
    → first_address id l ≡ some a
    → first_address id (l ++ l') ≡ some a
unfolding first_address
first_address_kept id [] l' a e = cc
first_address_kept id ((b, t) ∷ l) l' a e = ground (arith, first_address_kept id l l' a)

pub close_same :
    (env : Env) (session : Session) (id a : ℕ)
    → env.user_data id ≡ some a
    → first_address id session.lstreams ≡ some a
    → on_stream_close env id session
      ≡ returned 0 (record session { lstreams = remove_stream id session.lstreams })
unfolding on_stream_close
close_same env session id a e f = ground arith

close_differs :
    (env : Env) (session : Session) (id a b : ℕ)
    → env.user_data id ≡ some a
    → first_address id session.lstreams ≡ some b
    → a ≢ b
    → on_stream_close env id session ≡ fault
unfolding on_stream_close
close_differs env session id a b e f ne = ground arith

module _ (env : Env) (session : Session) (now address id : ℕ) (buffer : List Byte) where
  -- A stream whose id is new, opened and then closed, leaves the session as it was, but for the call
  -- that told nghttp2 of it.
  pub on_stream_close-on_begin_headers :
      first_address id session.lstreams ≡ none
      → env.user_data id ≡ some address
      → (opening : Session) × (on_begin_headers now address id buffer session ≡ returned 0 opening)
        × (on_stream_close env id opening
            ≡ returned 0 (called session (set_stream_user_data id address)))
  unfolding on_begin_headers on_stream_close opened stream_new
  on_stream_close-on_begin_headers new known =
      let e = first_address-append id session.lstreams address (opened now id buffer) new refl in
      (
        _,
        refl,
        close_same env _ id address known e.0
            ∙ ap
                (λ l.
                  returned 0
                    (record (called session (set_stream_user_data id address)) { lstreams = l }))
                e.1,
      )

  -- Two header blocks on one stream, as in a request with trailers, open two streams of the same id.
  -- nghttp2 then knows the second, and to close the stream fails an assertion.
  pub on_stream_close_reopened :
      (other : ℕ)
      → first_address id session.lstreams ≡ some other
      → address ≢ other
      → env.user_data id ≡ some address
      → (opening : Session) × (on_begin_headers now address id buffer session ≡ returned 0 opening)
        × (on_stream_close env id opening ≡ fault)
  unfolding on_begin_headers on_stream_close
  on_stream_close_reopened other old ne known =
      let e =
        first_address_kept id session.lstreams ((address, opened now id buffer) ∷ []) other old in
      (_, refl, close_differs env _ id address other known e ne)
