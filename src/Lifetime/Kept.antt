-- ===== src/Lifetime/Kept.antt =====
-- What a header of a stream and the writing of events keep.
use ezgrpc.Prelude.{
  ℕ, zero, suc, ◌+◌, ◌<◌, ◌≡◌, refl, sym, ap, ◌∙◌, inl, inr, subst, Bool, true, false, Option, none,
  some, List, [], ◌∷◌, ◌++◌, if◌then◌else◌, arith, length, get_elem?, Option-cases,
}
use ezgrpc.Wire.{Byte}
use ezgrpc.Stream.{Stream}
use ezgrpc.Event.{Event, EventKind, SessionUuid}
use ezgrpc.Events.Contents.{Holds, events_write-Holds}
use ezgrpc.Paths.{Registry}
use ezgrpc.Session.{Env, Session, write_event}
use ezgrpc.Header.{stream_max_headers, stream_header}
use ezgrpc.Data.{write_events}
use ezgrpc.Prelude.{take, length-take, codes}
use ezgrpc.Paths.{ServerPath, match_path, match_loop}
use ezgrpc.Paths.Register.{or_else}
use ezgrpc.Header.{ezstreq, keep_header, read_header}
use ezgrpc.Header.Step.{recv-read, nb_headers-read, path-read}
use ezgrpc.Header.Request.{stream_header_room, stream_header_full}
use ezgrpc.Lifetime.Streams.{InTable, IsStream}
use native.Mathlib.Decide.{dec_lt}

match_loop_below :
    (v : List Byte) (i : ℕ) (ps : List ServerPath) (k : ℕ)
    → match_loop v i ps ≡ some k
    → k < i + length ps
unfolding match_loop
match_loop_below v i [] k e = cc
match_loop_below v i (p ∷ ps) k e = ground (arith, match_loop_below v (i + 1) ps k)

InTable-match_path :
    (registry : Registry) (v : List Byte) → InTable registry (match_path registry v)
unfolding match_path
InTable-match_path registry v = elim (Option-cases (match_path registry v)) [
  | inl e ↦ subst (InTable registry) (sym e) tt
  | inr (k, e) ↦ subst (InTable registry) (sym e) (
      omega (
        arith,
        match_loop_below v 0 (take registry.nb_paths registry.paths) k e,
        length-take registry.nb_paths registry.paths,
      ))
]

InTable-or_else :
    (registry : Registry) (o o' : Option ℕ)
    → InTable registry o
    → InTable registry o'
    → InTable registry (or_else o o')
InTable-or_else registry none o' p q = q
InTable-or_else registry (some k) o' p q = p

InTable-if :
    (registry : Registry) (b : Bool) (o o' : Option ℕ)
    → InTable registry o
    → InTable registry o'
    → InTable registry (if b then o else o')
InTable-if registry true o o' p q = p
InTable-if registry false o o' p q = q

module _ (env : Env) (name value : List Byte) (s : Stream) (is : IsStream env s) where
  abbrev read : Stream
  read = read_header env.registry name value (keep_header name value s)

  read-IsStream : s.nb_headers < stream_max_headers → IsStream env read
  unfolding keep_header
  read-IsStream room = record {
    buffered = record {
      size = ap length same.1 ∙ is.buffered.size;
      within = omega (arith, same.0, is.buffered);
    };
    few = omega (arith, nb_headers-read env.registry name value (keep_header name value s));
    path =
        subst (InTable env.registry)
          (sym (path-read env.registry name value (keep_header name value s)))
          (InTable-if env.registry (ezstreq (codes ":path") name) _ _
            (InTable-or_else env.registry _ _ (InTable-match_path env.registry value) is.path)
            is.path);
  }
    where
      same :
          (read.recv_len ≡ s.recv_len)
          × (read.recv_data ≡ s.recv_data)
          × (read.stream_id ≡ s.stream_id)
      same = recv-read env.registry name value (keep_header name value s)

  pub stream_header-IsStream : IsStream env (stream_header env.registry name value s).1
  stream_header-IsStream = elim (dec_lt s.nb_headers stream_max_headers) [
    | yes room ↦
        subst (λ r. IsStream env r.1)
          (sym (stream_header_room env.registry (record { name = name; value = value }) s room))
          (read-IsStream room)
    | no full ↦
        subst (λ r. IsStream env r.1)
          (sym (
            stream_header_full env.registry (record { name = name; value = value }) s
              (omega arith)))
          is
  ]

  pub stream_header-id : (stream_header env.registry name value s).1.stream_id ≡ s.stream_id
  unfolding keep_header
  stream_header-id = elim (dec_lt s.nb_headers stream_max_headers) [
    | yes room ↦
        ap (λ r. r.1.stream_id)
          (stream_header_room env.registry (record { name = name; value = value }) s room)
        ∙ (recv-read env.registry name value (keep_header name value s)).2
    | no full ↦
        ap (λ r. r.1.stream_id)
          (stream_header_full env.registry (record { name = name; value = value }) s (omega arith))
  ]

nothing : (i : ℕ) → ¬ (i < 0)
nothing i = omega arith

pub get_elem_some :
    {A : Type 0} (xs : List A) (i : ℕ) → i < length xs → (x : A) × (get_elem? xs i ≡ some x)
get_elem_some [] i below = absurd (nothing i below)
get_elem_some (x ∷ xs) zero below = (x, refl)
get_elem_some (x ∷ xs) (suc i) below = get_elem_some xs i (omega (arith, below))

-- Events that are written are held behind those before.
pub record Written (session : Session) (o : Option Session) : Type 0 where
  pub after : Session
  pub is : o ≡ some after
  pub streams : after.lstreams ≡ session.lstreams
  pub held : (xs : List Event) × Holds after.events xs

pub write_events-Written :
    (env : Env) (uuid : SessionUuid) (userdata : ℕ) (ks : List EventKind) (session : Session)
    (xs : List Event)
    → env.malloc_ok ≡ true
    → Holds session.events xs
    → Written session (write_events env uuid userdata ks session)
unfolding write_events
write_events-Written env uuid userdata [] session xs ok h = record {
  after = session;
  is = refl;
  streams = refl;
  held = (xs, h);
}
write_events-Written env uuid userdata (k ∷ ks) session xs ok h =
    let event : Event = record { session_uuid = uuid; kind = k; userdata = some userdata } in
    let (es, written, h') = events_write-Holds session.events xs event h in
    let r =
      write_events-Written env uuid userdata ks (record session { events = es }) (xs ++ event ∷ [])
        ok h' in
    rw (ok, written, write_events, write_event)
      (rw r.is (record { after = r.after; is = refl; streams = r.streams; held = r.held }))
