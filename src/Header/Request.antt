-- ===== src/Header/Request.antt =====
-- The headers of a whole request, in the order in which nghttp2 hands them over.
use ezgrpc.Prelude.{
  ℕ, ◌+◌, ◌≤◌, ◌<◌, ◌≡◌, refl, ap, ◌∙◌, Bool, ◌&&◌, Option, none, some, List, [], ◌∷◌, arith,
  if◌then◌else◌, ◌==◌, leb, length, take, codes, bytes_eq, ◌++◌, map, append-nil, append_assoc, sym,
}
use native.Mathlib.Decide.{dec_lt}
use ezgrpc.Wire.{Byte}
use ezgrpc.Stream.{Stream, Header}
use ezgrpc.Paths.{Registry, match_path}
use ezgrpc.Paths.Register.{or_else}
use ezgrpc.Session.{Field}
use ezgrpc.Header.{ezstreq, keep_header, read_header, stream_header, stream_max_headers}
use ezgrpc.Header.Step.{
  is_method_post-read, is_scheme_http-read, is_content_grpc-read, is_te_trailers-read,
  nb_headers-read, path-read, recv-read, headers-read,
}

-- nghttp2 calls the callback for each header, until one call does not return 0.
pub stream_headers : Registry → List Field → Stream → ℕ × Stream
stream_headers registry [] s = (0, s)
stream_headers registry (h ∷ hs) s =
    let (res, s') = stream_header registry h.name h.value s in
    let rest = stream_headers registry hs s' in if res == 0 then rest else (res, s')

-- The value of the last header of a name.
pub last_value : List Byte → List Field → Option (List Byte)
last_value name [] = none
last_value name (h ∷ hs) =
    or_else (last_value name hs) (if ezstreq name h.name then some h.value else none)

-- The last registered path that a `:path` header names.
pub last_path : Registry → List Field → Option ℕ
last_path registry [] = none
last_path registry (h ∷ hs) =
    or_else (last_path registry hs)
      (if ezstreq (codes ":path") h.name then match_path registry h.value else none)

-- A mark is what the last header of its name says, and is as before where there is none.
abbrev pub judge : (List Byte → Bool) → Bool → Option (List Byte) → Bool
judge f b none = b
judge f b (some v) = f v

abbrev pub is_grpc_type : List Byte → Bool
is_grpc_type v = leb 16 (length v) && bytes_eq (codes "application/grpc") (take 16 v)

-- A header as it is kept.
abbrev pub kept_header : Field → Header
kept_header h = record {
  namelen = length h.name;
  name = h.name;
  valuelen = length h.value;
  value = h.value;
}

pub record Read (registry : Registry) (hs : List Field) (s s' : Stream) : Type 0 where
  pub method :
      s'.is_method_post
      ≡ judge (ezstreq (codes "POST")) s.is_method_post (last_value (codes ":method") hs)
  pub scheme :
      s'.is_scheme_http
      ≡ judge (ezstreq (codes "http")) s.is_scheme_http (last_value (codes ":scheme") hs)
  pub te :
      s'.is_te_trailers
      ≡ judge (ezstreq (codes "trailers")) s.is_te_trailers (last_value (codes "te") hs)
  pub content :
      s'.is_content_grpc
      ≡ judge is_grpc_type s.is_content_grpc (last_value (codes "content-type") hs)
  pub path : s'.path ≡ or_else (last_path registry hs) s.path
  pub headers : s'.headers ≡ s.headers ++ map kept_header hs
  pub count : s'.nb_headers ≡ s.nb_headers + length hs
  pub recv_len : s'.recv_len ≡ s.recv_len
  pub recv_data : s'.recv_data ≡ s.recv_data
  pub stream_id : s'.stream_id ≡ s.stream_id

judge-cons :
    (f : List Byte → Bool) (b : Bool) (name : List Byte) (h : Field) (hs : List Field)
    → judge f (if ezstreq name h.name then f h.value else b) (last_value name hs)
      ≡ judge f b (last_value name (h ∷ hs))
unfolding last_value
judge-cons f b name h hs = ground arith

path-cons :
    (registry : Registry) (o : Option ℕ) (h : Field) (hs : List Field)
    → or_else
        (last_path registry hs)
        (if ezstreq (codes ":path") h.name then or_else (match_path registry h.value) o else o)
      ≡ or_else (last_path registry (h ∷ hs)) o
unfolding last_path
path-cons registry o h hs = ground arith

module _ (registry : Registry) (h : Field) (hs : List Field) (s s' : Stream) where
  abbrev first : Stream
  first = read_header registry h.name h.value (keep_header h.name h.value s)

  Read-cons : Read registry hs first s' → Read registry (h ∷ hs) s s'
  unfolding keep_header
  Read-cons r = record {
    method =
        r.method
        ∙ ap (λ b. judge (ezstreq (codes "POST")) b (last_value (codes ":method") hs))
            (is_method_post-read registry h.name h.value (keep_header h.name h.value s))
        ∙ judge-cons (ezstreq (codes "POST")) s.is_method_post (codes ":method") h hs;
    scheme =
        r.scheme
        ∙ ap (λ b. judge (ezstreq (codes "http")) b (last_value (codes ":scheme") hs))
            (is_scheme_http-read registry h.name h.value (keep_header h.name h.value s))
        ∙ judge-cons (ezstreq (codes "http")) s.is_scheme_http (codes ":scheme") h hs;
    te =
        r.te
        ∙ ap (λ b. judge (ezstreq (codes "trailers")) b (last_value (codes "te") hs))
            (is_te_trailers-read registry h.name h.value (keep_header h.name h.value s))
        ∙ judge-cons (ezstreq (codes "trailers")) s.is_te_trailers (codes "te") h hs;
    content =
        r.content
        ∙ ap (λ b. judge is_grpc_type b (last_value (codes "content-type") hs))
            (is_content_grpc-read registry h.name h.value (keep_header h.name h.value s))
        ∙ judge-cons is_grpc_type s.is_content_grpc (codes "content-type") h hs;
    path =
        r.path
        ∙ ap (or_else (last_path registry hs))
            (path-read registry h.name h.value (keep_header h.name h.value s))
        ∙ path-cons registry s.path h hs;
    headers =
        r.headers
        ∙ ap (λ l. l ++ map kept_header hs)
            (headers-read registry h.name h.value (keep_header h.name h.value s))
        ∙ append_assoc s.headers (kept_header h ∷ []) (map kept_header hs);
    count =
        omega (arith, r, nb_headers-read registry h.name h.value (keep_header h.name h.value s));
    recv_len = r.recv_len ∙ kept.0;
    recv_data = r.recv_data ∙ kept.1;
    stream_id = r.stream_id ∙ kept.2;
  }
    where
      kept :
          (first.recv_len ≡ s.recv_len)
          × (first.recv_data ≡ s.recv_data)
          × (first.stream_id ≡ s.stream_id)
      kept = recv-read registry h.name h.value (keep_header h.name h.value s)

pub nb_headers-first :
    (registry : Registry) (h : Field) (s : Stream)
    → (read_header registry h.name h.value (keep_header h.name h.value s)).nb_headers
      ≡ s.nb_headers + 1
unfolding keep_header
nb_headers-first registry h s =
    nb_headers-read registry h.name h.value (keep_header h.name h.value s)

pub stream_header_room :
    (registry : Registry) (h : Field) (s : Stream)
    → s.nb_headers < stream_max_headers
    → stream_header registry h.name h.value s
      ≡ (0, read_header registry h.name h.value (keep_header h.name h.value s))
unfolding stream_header
stream_header_room registry h s room = ground arith

pub stream_header_full :
    (registry : Registry) (h : Field) (s : Stream)
    → stream_max_headers ≤ s.nb_headers
    → stream_header registry h.name h.value s ≡ (1, s)
unfolding stream_header
stream_header_full registry h s full = ground arith

-- After the headers of a request, in whatever order, each mark of the stream says whether the last
-- header of its name has the value that gRPC asks for, the path is the last registered one that was
-- named, the names and the values of all headers are kept behind those that were there, with their
-- lengths and their number, and what was received is as it was; 0 is returned. There are at most 32
-- headers.
pub stream_headers-Read :
    (registry : Registry) (hs : List Field) (s : Stream)
    → s.nb_headers + length hs ≤ stream_max_headers
    → ((stream_headers registry hs s).0 ≡ 0) × Read registry hs s (stream_headers registry hs s).1
unfolding stream_headers last_value last_path
stream_headers-Read registry [] s room = (
  refl,
  record {
    method = refl;
    scheme = refl;
    te = refl;
    content = refl;
    path = refl;
    headers = sym (append-nil s.headers);
    count = omega arith;
    recv_len = refl;
    recv_data = refl;
    stream_id = refl;
  },
)
stream_headers-Read registry (h ∷ hs) s room =
    let s' = read_header registry h.name h.value (keep_header h.name h.value s) in
    let counted : s'.nb_headers ≡ s.nb_headers + 1 = nb_headers-first registry h s in
    let ih = stream_headers-Read registry hs s' (omega arith) in
    rw (stream_header_room registry h s (omega arith))
      (ih.0, Read-cons registry h hs s (stream_headers registry hs s').1 ih.1)

-- However many headers there are, at most 32 are kept, and the callback returns 1, which closes the
-- session, exactly when there are more.
pub stream_headers_bounded :
    (registry : Registry) (hs : List Field) (s : Stream)
    → s.nb_headers ≤ stream_max_headers
    → ((stream_headers registry hs s).1.nb_headers ≤ stream_max_headers)
      × ((stream_headers registry hs s).0
          ≡ (if leb (s.nb_headers + length hs) stream_max_headers then 0 else 1))
unfolding stream_headers
stream_headers_bounded registry [] s small = (small, ground arith)
stream_headers_bounded registry (h ∷ hs) s small = elim (dec_lt s.nb_headers stream_max_headers) [
  | yes room ↦
      let s' = read_header registry h.name h.value (keep_header h.name h.value s) in
      let counted : s'.nb_headers ≡ s.nb_headers + 1 = nb_headers-first registry h s in
      let ih = stream_headers_bounded registry hs s' (omega arith) in
      rw (stream_header_room registry h s room)
        (ih.0, ih.1 ∙ ap (λ (b : Bool). if b then 0 else 1) (same_bound counted))
  | no full ↦ rw (stream_header_full registry h s (omega arith)) (small, ground arith)
]
  where
    same_bound :
        {n : ℕ}
        → n ≡ s.nb_headers + 1
        → leb (n + length hs) stream_max_headers
          ≡ leb (s.nb_headers + length (h ∷ hs)) stream_max_headers
    same_bound e = ap (λ k. leb k stream_max_headers) (omega arith)
