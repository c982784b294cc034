-- ===== src/Headers/Reply.antt =====
-- Which requests are answered, and how.
use ezgrpc.Prelude.{
  ℕ, ◌≤◌, ◌≡◌, ◌≢◌, ◌↔◌, refl, sym, ap, ◌∙◌, Bool, true, false, Option, none, some, List, [], ◌∷◌,
  codes, arith, length, bytes_eq_self,
}
use ezgrpc.Wire.{Byte}
use ezgrpc.Stream.{Stream, stream_new}
use ezgrpc.Paths.{Registry}
use ezgrpc.Paths.Register.{or_else}
use ezgrpc.Session.{Field, Call, submit_headers, Env}
use ezgrpc.Headers.{Frame, status_200, Answer, answer, failed, reply_path, reply}
use ezgrpc.Header.{stream_max_headers, ezstreq}
use ezgrpc.Header.Step.{eq_of_ezstreq}
use ezgrpc.Header.Request.{
  stream_headers, Read, stream_headers-Read, last_value, last_path, judge, is_grpc_type,
}

-- A request that gRPC over HTTP/2 asks for, by its headers alone, for a path that is registered.
pub record IsCall (registry : Registry) (hs : List Field) : Type 0 where
  pub method : last_value (codes ":method") hs ≡ some (codes "POST")
  pub scheme : last_value (codes ":scheme") hs ≡ some (codes "http")
  pub te : last_value (codes "te") hs ≡ some (codes "trailers")
  pub content :
      (v : List Byte) × (last_value (codes "content-type") hs ≡ some v) × (is_grpc_type v ≡ true)
  pub path : last_path registry hs ≢ none

-- The marks of a stream that takes a call.
record IsMarked (s : Stream) : Type 0 where
  method : s.is_method_post ≡ true
  scheme : s.is_scheme_http ≡ true
  te : s.is_te_trailers ≡ true
  content : s.is_content_grpc ≡ true
  path : s.path ≢ none

module _ (env : Env) (frame : Frame) (s : Stream) (ok : env.submit_headers_result ≡ 0)
    (eh : frame.end_headers ≡ true) (es : frame.end_stream ≡ false) where
  accepts :
      IsMarked s → reply env frame s ≡ answer 0 (submit_headers false s.stream_id status_200 ∷ [])
  unfolding reply reply_path
  accepts m = ground (arith, m.path)

  marked :
      reply env frame s ≡ answer 0 (submit_headers false s.stream_id status_200 ∷ []) → IsMarked s
  unfolding reply reply_path
  marked e = ground arith

judge_marked :
    (f : List Byte → Bool) (o : Option (List Byte))
    → judge f false o ≡ true
    → (v : List Byte) × (o ≡ some v) × (f v ≡ true)
judge_marked f none h = cc
judge_marked f (some v) h = (v, refl, h)

judge_text :
    (t : List Byte) (o : Option (List Byte)) → judge (ezstreq t) false o ≡ true → o ≡ some t
judge_text t none h = cc
judge_text t (some v) h = ap some (sym (eq_of_ezstreq t v h))

judge_found :
    (f : List Byte → Bool) (o : Option (List Byte)) (v : List Byte)
    → o ≡ some v
    → f v ≡ true
    → judge f false o ≡ true
judge_found f o v e h = rw e h

ezstreq_self : (t : List Byte) → ezstreq t t ≡ true
unfolding ezstreq
ezstreq_self t = rw (bytes_eq_self t) (ground arith)

or_else-none : (o : Option ℕ) → or_else o none ≡ o
or_else-none none = refl
or_else-none (some i) = refl

module _ (registry : Registry) (hs : List Field) (now stream_id : ℕ) (buf : List Byte) (s' : Stream)
    (r : Read registry hs (record (stream_new now stream_id) { recv_data = buf }) s') where
  IsMarked-IsCall : IsMarked s' → IsCall registry hs
  unfolding stream_new
  IsMarked-IsCall m = record {
    method = judge_text _ _ (sym r.method ∙ m.method);
    scheme = judge_text _ _ (sym r.scheme ∙ m.scheme);
    te = judge_text _ _ (sym r.te ∙ m.te);
    content = judge_marked is_grpc_type _ (sym r.content ∙ m.content);
    path = λ e. m.path (r.path ∙ or_else-none (last_path registry hs) ∙ e);
  }

  IsCall-IsMarked : IsCall registry hs → IsMarked s'
  unfolding stream_new
  IsCall-IsMarked c = record {
    method = r.method ∙ judge_found _ _ _ c.method (ezstreq_self (codes "POST"));
    scheme = r.scheme ∙ judge_found _ _ _ c.scheme (ezstreq_self (codes "http"));
    te = r.te ∙ judge_found _ _ _ c.te (ezstreq_self (codes "trailers"));
    content = r.content ∙ judge_found is_grpc_type _ c.content.0 c.content.1 c.content.2;
    path = λ e. c.path (sym (or_else-none (last_path registry hs)) ∙ sym r.path ∙ e);
  }

-- A request of at most 32 headers, whose HEADERS frame ends them and not the stream, is answered by
-- the response headers of status 200 and nothing else exactly when it is a gRPC call: the last
-- `:method` is POST, the last `:scheme` http, the last `te` trailers, the last `content-type` begins
-- with application/grpc, and some `:path` is registered. (`nghttp2_submit_headers` returns 0.)
pub reply-IsCall :
    (env : Env) (frame : Frame) (hs : List Field) (now stream_id : ℕ) (buf : List Byte)
    → length hs ≤ stream_max_headers
    → env.submit_headers_result ≡ 0
    → frame.end_headers ≡ true
    → frame.end_stream ≡ false
    → let s = record (stream_new now stream_id) { recv_data = buf } in
      (reply env frame (stream_headers env.registry hs s).1
        ≡ answer 0 (submit_headers false stream_id status_200 ∷ []))
      ↔ IsCall env.registry hs
unfolding stream_new
reply-IsCall env frame hs now stream_id buf few ok eh es = (
  λ e.
      IsMarked-IsCall env.registry hs now stream_id buf s' read
        (marked env frame s' ok eh es (e ∙ sym (same_id read.stream_id))),
  λ c.
      accepts env frame s' ok eh es (IsCall-IsMarked env.registry hs now stream_id buf s' read c)
      ∙ same_id read.stream_id,
)
  where
    s : Stream
    s = record (stream_new now stream_id) { recv_data = buf }

    s' : Stream
    s' = (stream_headers env.registry hs s).1

    read : Read env.registry hs s s'
    read = (stream_headers-Read env.registry hs s (omega arith)).1

    same_id :
        s'.stream_id ≡ stream_id
        → answer 0 (submit_headers false s'.stream_id status_200 ∷ [])
          ≡ answer 0 (submit_headers false stream_id status_200 ∷ [])
    same_id e = ap (λ n. answer 0 (submit_headers false n status_200 ∷ [])) e

reply_not_failed :
    (env : Env) (frame : Frame) (s : Stream)
    → env.submit_headers_result ≡ 0
    → reply env frame s ≢ failed
unfolding reply reply_path
reply_not_failed env frame s ok e = ground arith

answer_of : (a : Answer) → a ≢ failed → (res : ℕ) × (calls : List Call) × (a ≡ answer res calls)
answer_of (answer res calls) ne = (res, calls, refl)
answer_of failed ne = absurd (ne refl)

-- Where nghttp2 takes the headers, the reply is given with no assertion failed.
pub reply_answers :
    (env : Env) (frame : Frame) (s : Stream)
    → env.submit_headers_result ≡ 0
    → (res : ℕ) × (calls : List Call) × (reply env frame s ≡ answer res calls)
reply_answers env frame s ok = answer_of _ (reply_not_failed env frame s ok)
