-- ===== src/Header/Step.antt =====
-- What one header does to the four marks of a request.
use ezgrpc.Prelude.{
  ◌≡◌, refl, subst, true, false, ◌&&◌, List, arith, if◌then◌else◌, leb, length, take, codes,
  bytes_eq, eq_of_bytes_eq,
}
use ezgrpc.Wire.{Byte}
use ezgrpc.Stream.{Stream}
use ezgrpc.Paths.{Registry, match_path}
use ezgrpc.Paths.Register.{or_else}
use ezgrpc.Header.{ezstreq, set_path, read_header}

pub eq_of_ezstreq : (a b : List Byte) → ezstreq a b ≡ true → a ≡ b
unfolding ezstreq
eq_of_ezstreq a b h = eq_of_bytes_eq a b (ground arith)

-- A name is equal to one text only.
exclusive :
    (a b name : List Byte) → ezstreq b a ≡ false → ezstreq a name ≡ true → ezstreq b name ≡ false
exclusive a b name ne e = subst (λ n. ezstreq b n ≡ false) (eq_of_ezstreq a name e) ne

module _ (registry : Registry) (name value : List Byte) (s : Stream) where
  abbrev after : Stream
  after = read_header registry name value s

  pub is_method_post-read :
      after.is_method_post
      ≡ (if ezstreq (codes ":method") name then ezstreq (codes "POST") value else s.is_method_post)
  unfolding read_header set_path
  is_method_post-read = ground arith

  -- A header of another name than the ladder tests before it.
  before : (a b : List Byte) → ezstreq b a ≡ false → ezstreq a name ≡ true → ezstreq b name ≡ false
  before a b = exclusive a b name

  pub is_scheme_http-read :
      after.is_scheme_http
      ≡ (if ezstreq (codes ":scheme") name then ezstreq (codes "http") value else s.is_scheme_http)
  unfolding read_header set_path
  is_scheme_http-read =
      ground (arith, before (codes ":scheme") (codes ":method") (unfold ezstreq bytes_eq in refl))

  pub is_content_grpc-read : after.is_content_grpc ≡ (
      if ezstreq (codes "content-type") name
      then leb 16 (length value) && bytes_eq (codes "application/grpc") (take 16 value)
      else s.is_content_grpc)
  unfolding read_header set_path
  is_content_grpc-read = ground (
    arith,
    before (codes "content-type") (codes ":method") (unfold ezstreq bytes_eq in refl),
    before (codes "content-type") (codes ":scheme") (unfold ezstreq bytes_eq in refl),
    before (codes "content-type") (codes ":path") (unfold ezstreq bytes_eq in refl),
  )

  pub is_te_trailers-read :
      after.is_te_trailers
      ≡ (if ezstreq (codes "te") name then ezstreq (codes "trailers") value else s.is_te_trailers)
  unfolding read_header set_path
  is_te_trailers-read = ground (
    arith,
    before (codes "te") (codes ":method") (unfold ezstreq bytes_eq in refl),
    before (codes "te") (codes ":scheme") (unfold ezstreq bytes_eq in refl),
    before (codes "te") (codes ":path") (unfold ezstreq bytes_eq in refl),
    before (codes "te") (codes "content-type") (unfold ezstreq bytes_eq in refl),
    before (codes "te") (codes "grpc-encoding") (unfold ezstreq bytes_eq in refl),
    before (codes "te") (codes "grpc-accept-encoding") (unfold ezstreq bytes_eq in refl),
    before (codes "te") (codes "grpc-timeout") (unfold ezstreq bytes_eq in refl),
  )

  pub nb_headers-read : after.nb_headers ≡ s.nb_headers
  unfolding read_header set_path
  nb_headers-read = ground arith

  pub path-read : after.path ≡ (
      if ezstreq (codes ":path") name then or_else (match_path registry value) s.path else s.path)
  unfolding read_header set_path
  path-read = ground (
    arith,
    before (codes ":path") (codes ":method") (unfold ezstreq bytes_eq in refl),
    before (codes ":path") (codes ":scheme") (unfold ezstreq bytes_eq in refl),
  )

  -- The buffer and the messages to be sent are not touched.
  pub recv-read :
      (after.recv_len ≡ s.recv_len)
      × (after.recv_data ≡ s.recv_data)
      × (after.stream_id ≡ s.stream_id)
  unfolding read_header set_path
  recv-read = ground arith

  pub headers-read : after.headers ≡ s.headers
  unfolding read_header set_path
  headers-read = ground arith
