-- ===== src/Lifetime/Streams.antt =====
-- What holds of every stream of a session.
use ezgrpc.Prelude.{
  ℕ, ◌≤◌, ◌<◌, ◌≡◌, ◌≢◌, refl, sym, ap, ◌∙◌, inl, inr, subst, true, false, Option, none, some, List,
  [], ◌∷◌, ◌++◌, ◌==◌, arith, length, Bool-cases,
}
use ezgrpc.Stream.{Stream}
use ezgrpc.Event.{Event}
use ezgrpc.Events.Contents.{Holds}
use ezgrpc.Paths.{Registry}
use ezgrpc.Session.{Env, Session, find_stream, put_stream}
use ezgrpc.Header.{stream_max_headers}
use ezgrpc.Data.Chunk.{IsBuffered}
use ezgrpc.Lifetime.{remove_stream, first_address}

-- An index that `on_header_callback` may have stored.
abbrev pub InTable : Registry → Option ℕ → Type 0
InTable registry none = Unit {0}
InTable registry (some p) = p < length registry.paths

pub record IsStream (env : Env) (s : Stream) : Type 0 where
  pub buffered : IsBuffered env.initial_window_size s
  pub few : s.nb_headers ≤ stream_max_headers
  pub path : InTable env.registry s.path

abbrev pub AllStreams : (Stream → Type 0) → List (ℕ × Stream) → Type 0
AllStreams P [] = Unit {0}
AllStreams P ((a, s) ∷ l) = P s × AllStreams P l

-- The ids of the streams; no two are the same.
abbrev pub ids : List (ℕ × Stream) → List ℕ
ids [] = []
ids ((a, s) ∷ l) = s.stream_id ∷ ids l

abbrev pub Absent : ℕ → List ℕ → Type 0
Absent i [] = Unit {0}
Absent i (j ∷ js) = (j ≢ i) × Absent i js

abbrev pub Distinct : List ℕ → Type 0
Distinct [] = Unit {0}
Distinct (i ∷ is) = Absent i is × Distinct is

pub record IsSession (env : Env) (session : Session) : Type 0 where
  pub streams : AllStreams (IsStream env) session.lstreams
  pub distinct : Distinct (ids session.lstreams)
  pub held : (xs : List Event) × Holds session.events xs

module _ (P : Stream → Type 0) where
  pub AllStreams-find :
      (a : ℕ) (l : List (ℕ × Stream)) {s : Stream} → AllStreams P l → find_stream a l ≡ some s → P s
  unfolding find_stream
  AllStreams-find a [] p e = cc
  AllStreams-find a ((b, t) ∷ l) {s} p e = elim (Bool-cases (b == a)) [
    | inl hit ↦ subst P (same hit) p.0
    | inr miss ↦ AllStreams-find a l p.1 (rest miss)
  ]
    where
      same : (b == a) ≡ true → t ≡ s
      same hit = ground arith

      rest : (b == a) ≡ false → find_stream a l ≡ some s
      rest miss = ground arith

  pub AllStreams-put :
      (a : ℕ) (l : List (ℕ × Stream)) (s : Stream)
      → AllStreams P l
      → P s
      → AllStreams P (put_stream a s l)
  unfolding put_stream
  AllStreams-put a [] s p q = tt
  AllStreams-put a ((b, t) ∷ l) s p q = elim (Bool-cases (b == a)) [
    | inl hit ↦ rw hit (q, p.1)
    | inr miss ↦ rw miss (p.0, AllStreams-put a l s p.1 q)
  ]

  pub AllStreams-append :
      (l : List (ℕ × Stream)) (a : ℕ) (s : Stream)
      → AllStreams P l
      → P s
      → AllStreams P (l ++ (a, s) ∷ [])
  AllStreams-append [] a s p q = (q, tt)
  AllStreams-append ((b, t) ∷ l) a s p q = (p.0, AllStreams-append l a s p.1 q)

  pub AllStreams-remove :
      (id : ℕ) (l : List (ℕ × Stream)) → AllStreams P l → AllStreams P (remove_stream id l)
  unfolding remove_stream
  AllStreams-remove id [] p = tt
  AllStreams-remove id ((b, t) ∷ l) p = elim (Bool-cases (t.stream_id == id)) [
    | inl hit ↦ rw hit p.1
    | inr miss ↦ rw miss (p.0, AllStreams-remove id l p.1)
  ]

ids-append :
    (l : List (ℕ × Stream)) (a : ℕ) (s : Stream)
    → ids (l ++ (a, s) ∷ []) ≡ ids l ++ s.stream_id ∷ []
ids-append [] a s = refl
ids-append ((b, t) ∷ l) a s = ap (◌∷◌ t.stream_id) (ids-append l a s)

Absent-append : (i j : ℕ) (is : List ℕ) → Absent i is → j ≢ i → Absent i (is ++ j ∷ [])
Absent-append i j [] p ne = (ne, tt)
Absent-append i j (k ∷ is) p ne = (p.0, Absent-append i j is p.1 ne)

Distinct-append_ids : (j : ℕ) (is : List ℕ) → Distinct is → Absent j is → Distinct (is ++ j ∷ [])
Distinct-append_ids j [] d p = (tt, tt)
Distinct-append_ids j (i ∷ is) d p =
    (Absent-append i j is d.0 (λ e. p.0 (sym e)), Distinct-append_ids j is d.1 p.1)

-- A stream whose id is new.
pub Distinct-append :
    (l : List (ℕ × Stream)) (a : ℕ) (s : Stream)
    → Distinct (ids l)
    → Absent s.stream_id (ids l)
    → Distinct (ids (l ++ (a, s) ∷ []))
Distinct-append l a s d p =
    subst Distinct (sym (ids-append l a s)) (Distinct-append_ids s.stream_id (ids l) d p)

-- A stream that is put in the place of one of the same id.
pub ids-put :
    (a : ℕ) (l : List (ℕ × Stream)) (s s' : Stream)
    → find_stream a l ≡ some s
    → s'.stream_id ≡ s.stream_id
    → ids (put_stream a s' l) ≡ ids l
unfolding find_stream put_stream
ids-put a [] s s' e same = refl
ids-put a ((b, t) ∷ l) s s' e same = elim (Bool-cases (b == a)) [
  | inl hit ↦
      let is : t ≡ s = ground arith in
      rw hit (ap (λ (i : ℕ). i ∷ ids l) (same ∙ sym (ap (λ u. u.stream_id) is)))
  | inr miss ↦
      let later : find_stream a l ≡ some s = ground arith in
      rw miss (ap (◌∷◌ t.stream_id) (ids-put a l s s' later same))
]

Absent-remove :
    (i id : ℕ) (l : List (ℕ × Stream)) → Absent i (ids l) → Absent i (ids (remove_stream id l))
unfolding remove_stream
Absent-remove i id [] p = tt
Absent-remove i id ((a, s) ∷ l) p = elim (Bool-cases (s.stream_id == id)) [
  | inl hit ↦ rw hit p.1
  | inr miss ↦ rw miss (p.0, Absent-remove i id l p.1)
]

pub Distinct-remove :
    (id : ℕ) (l : List (ℕ × Stream)) → Distinct (ids l) → Distinct (ids (remove_stream id l))
unfolding remove_stream
Distinct-remove id [] d = tt
Distinct-remove id ((a, s) ∷ l) d = elim (Bool-cases (s.stream_id == id)) [
  | inl hit ↦ rw hit d.1
  | inr miss ↦ rw miss (Absent-remove s.stream_id id l d.0, Distinct-remove id l d.1)
]

found-id :
    (a i : ℕ) (l : List (ℕ × Stream)) (s : Stream)
    → Absent i (ids l)
    → find_stream a l ≡ some s
    → s.stream_id ≢ i
unfolding find_stream
found-id a i [] s p e = λ h. cc
found-id a i ((b, t) ∷ l) s p e = elim (Bool-cases (b == a)) [
  | inl hit ↦ let is : t ≡ s = ground arith in subst (λ u. u.stream_id ≢ i) is p.0
  | inr miss ↦ let later : find_stream a l ≡ some s = ground arith in found-id a i l s p.1 later
]

-- The only stream of an id is the one that is found by its address.
pub first_address-found :
    (a id : ℕ) (l : List (ℕ × Stream)) (s : Stream)
    → Distinct (ids l)
    → find_stream a l ≡ some s
    → s.stream_id ≡ id
    → first_address id l ≡ some a
unfolding find_stream first_address
first_address-found a id [] s d e same = cc
first_address-found a id ((b, t) ∷ l) s d e same = elim (Bool-cases (b == a)) [
  | inl hit ↦
      let is : t ≡ s = ground arith in
      let named : t.stream_id ≡ id = ap (λ u. u.stream_id) is ∙ same in
      let is_b : b ≡ a = ground arith in ground (arith, named, is_b)
  | inr miss ↦
      let later : find_stream a l ≡ some s = ground arith in
      elim (Bool-cases (t.stream_id == id)) [
        | inl twice ↦
            let named : t.stream_id ≡ id = ground arith in
            absurd (found-id a t.stream_id l s d.0 later (same ∙ sym named))
        | inr other ↦
            let ih = first_address-found a id l s d.1 later same in ground (arith, ih, other)
      ]
]
