-- ===== src/Header.antt =====
-- `on_header_callback` of internal_nghttp2_callbacks.c.
pub mod Step
pub mod Request
mod Tests
use ezgrpc.Prelude.{
  ℕ, ◌+◌, Bool, true, false, ◌&&◌, Option, none, some, List, [], ◌∷◌, ◌++◌, if◌then◌else◌, ◌==◌,
  ltb, leb, length, take, codes, bytes_eq,
}
use ezgrpc.Wire.{Byte}
use ezgrpc.Stream.{Stream, Header}
use ezgrpc.Paths.{Registry, match_path}
use ezgrpc.Session.{Env, Session, Outcome, returned, fault, find_stream, put_stream}

-- CONFIG_STREAM_MAX_HEADERS
abbrev pub stream_max_headers : ℕ
stream_max_headers = 32

-- `!EZSTRCMP(text, bytes)`
unfoldable pub ezstreq : List Byte → List Byte → Bool
ezstreq text bytes = (length text == length bytes) && bytes_eq text bytes

-- The copy of a header at the end of the array.
unfoldable pub keep_header : List Byte → List Byte → Stream → Stream
keep_header name value s = record s {
  headers =
      s.headers
      ++ record { namelen = length name; name = name; valuelen = length value; value = value } ∷ [];
  nb_headers = s.nb_headers + 1;
}

-- The path that a request is for; it stays where none is found.
unfoldable pub set_path : Registry → List Byte → Stream → Stream
set_path registry value s = elim (match_path registry value) [
  | none ↦ s
  | some i ↦ record s { path = some i }
]

-- The ladder of names.
unfoldable pub read_header : Registry → List Byte → List Byte → Stream → Stream
unfolding ezstreq set_path
read_header registry name value s =
    if ezstreq (codes ":method") name
    then record s { is_method_post = ezstreq (codes "POST") value }
    else if ezstreq (codes ":scheme") name
    then record s { is_scheme_http = ezstreq (codes "http") value }
    else if ezstreq (codes ":path") name
    then set_path registry value s
    else if ezstreq (codes "content-type") name
    then record s {
      hcontent_type = some value;
      is_content_grpc =
          leb 16 (length value) && bytes_eq (codes "application/grpc") (take 16 value);
    }
    else if ezstreq (codes "grpc-encoding") name
    then record s { hgrpc_encoding = some value }
    else if ezstreq (codes "grpc-accept-encoding") name
    then record s { hgrpc_accept_encoding = some value }
    else if ezstreq (codes "grpc-timeout") name
    then record s { hgrpc_timeout = some value }
    else if ezstreq (codes "te") name
    then record s { is_te_trailers = ezstreq (codes "trailers") value }
    else s

-- One header of a stream: the value returned, and the stream.
unfoldable pub stream_header : Registry → List Byte → List Byte → Stream → ℕ × Stream
unfolding keep_header read_header
stream_header registry name value s =
    if ltb stream_max_headers (s.nb_headers + 1)
    then (1, s)
    else (0, read_header registry name value (keep_header name value s))

-- `is_headers` says that the frame is of type HEADERS. A stream that nghttp2 does not know is a
-- dereference of NULL.
unfoldable pub on_header : Env → (is_headers : Bool) → ℕ → List Byte → List Byte → Session → Outcome
unfolding stream_header
on_header env is_headers stream_id name value session =
    if is_headers
    then elim (env.user_data stream_id) [
      | none ↦ fault
      | some a ↦ elim (find_stream a session.lstreams) [
        | none ↦ fault
        | some s ↦
            let (res, s') = stream_header env.registry name value s in
            returned res (record session { lstreams = put_stream a s' session.lstreams })
      ]
    ]
    else returned 0 session
