-- ===== src/Events/Contents.antt =====
-- The list of arrays as a queue of events.
use ezgrpc.Prelude.{
  take-set, append-nil, ℕ, ◌+◌, ◌≤◌, ◌<◌, ◌≡◌, ◌≢◌, ◌⊎◌, refl, sym, ap, ◌∙◌, Option, none, some,
  true, false, List, [], ◌∷◌, ◌++◌, map, append_assoc, arith, ◌==◌, length, set, take, replicate,
  Bool-cases, length-set, inl, inr,
}
use ezgrpc.Event.{Event}
use ezgrpc.Events.{events_block, Block, Events, events_new, write_last, store, events_write}

-- All arrays but the last are full, and the last has `w` entries.
abbrev pub content : List Block → ℕ → Block
content [] w = []
content (b ∷ []) w = take w b
content (b ∷ c ∷ bs) w = take events_block b ++ content (c ∷ bs) w

abbrev pub Sized : List Block → Type 0
Sized [] = Unit {0}
Sized (b ∷ bs) = (length b ≡ events_block) × Sized bs

-- `es` holds the events `xs`, oldest first.
pub record Holds (es : Events) (xs : List Event) : Type 0 where
  pub sized : Sized es.bevents
  pub low : 1 ≤ es.windex
  pub high : es.windex ≤ events_block
  pub room : es.windex < events_block → es.bevents ≢ []
  pub is : content es.bevents es.windex ≡ map some xs

pub Holds-new : Holds events_new []
unfolding events_new
Holds-new = record {
  sized = tt;
  low = omega arith;
  high = omega arith;
  room = λ h. absurd (omega arith);
  is = refl;
}

record Writes (bs : List Block) (w : ℕ) (e : Event) : Type 0 where
  after : List Block
  is : write_last bs w e ≡ some after
  ne_nil : after ≢ []
  sized : Sized after
  content_is : content after (w + 1) ≡ content bs w ++ some e ∷ []

-- The last array of `c ∷ bs` is not the first of `b ∷ c ∷ bs`.
content-cons :
    (b : Block) (bs : List Block) (w : ℕ)
    → bs ≢ []
    → content (b ∷ bs) w ≡ take events_block b ++ content bs w
content-cons b [] w ne = absurd (ne refl)
content-cons b (c ∷ bs) w ne = refl

write_last-Writes :
    (bs : List Block) (w : ℕ) (e : Event) → w < events_block → Sized bs → bs ≢ [] → Writes bs w e
unfolding write_last
write_last-Writes [] w e h s ne = absurd (ne refl)
write_last-Writes (b ∷ []) w e h (s, t) ne = record {
  after = set b w (some e) ∷ [];
  is = refl;
  ne_nil = λ p. cc;
  sized = (length-set b w (some e) ∙ s, tt);
  content_is = take-set b w (some e) (omega arith);
}
write_last-Writes (b ∷ c ∷ bs) w e h (s, t) ne =
    let r = write_last-Writes (c ∷ bs) w e h t (λ p. cc) in
    record {
      after = b ∷ r.after;
      is = rw r.is;
      ne_nil = λ p. cc;
      sized = (s, r.sized);
      content_is =
          content-cons b r.after (w + 1) r.ne_nil
          ∙ ap (◌++◌ (take events_block b)) r.content_is
          ∙ sym (append_assoc (take events_block b) (content (c ∷ bs) w) (some e ∷ []));
    }

record Stored (es : Events) (xs : List Event) (o : Option (Events × ℕ)) : Type 0 where
  after : Events
  is : o ≡ some (after, 0)
  holds : Holds after xs

map-snoc : (xs : List Event) (e : Event) → map some xs ++ some e ∷ [] ≡ map some (xs ++ e ∷ [])
map-snoc [] e = refl
map-snoc (x ∷ xs) e = ap (◌∷◌ (some x)) (map-snoc xs e)

store-Stored :
    (es : Events) (xs : List Event) (e : Event)
    → es.windex < events_block
    → Sized es.bevents
    → es.bevents ≢ []
    → content es.bevents es.windex ≡ map some xs
    → Stored es (xs ++ e ∷ []) (store es e)
unfolding store
store-Stored es xs e h s ne is =
    let r = write_last-Writes es.bevents es.windex e h s ne in
    rw (r.is, store)
      (record {
        after = record { bevents = r.after; windex = es.windex + 1 };
        is = refl;
        holds = record {
          sized = r.sized;
          low = omega arith;
          high = omega arith;
          room = λ _. r.ne_nil;
          is = r.content_is ∙ ap (λ l. l ++ some e ∷ []) is ∙ map-snoc xs e;
        };
      })

content-append_block :
    (bs : List Block) (w : ℕ) (b : Block)
    → w ≡ events_block
    → content (bs ++ b ∷ []) 0 ≡ content bs w
content-append_block [] w b e = refl
content-append_block (c ∷ []) w b e = rw e (append-nil (take events_block c))
content-append_block (c ∷ d ∷ bs) w b e =
    ap (◌++◌ (take events_block c)) (content-append_block (d ∷ bs) w b e)

Sized-append :
    (bs : List Block) (b : Block) → Sized bs → length b ≡ events_block → Sized (bs ++ b ∷ [])
Sized-append [] b s e = (e, tt)
Sized-append (c ∷ bs) b s e = (s.0, Sized-append bs b s.1 e)

append-ne-nil : (bs : List Block) (b : Block) → bs ++ b ∷ [] ≢ []
append-ne-nil [] b p = cc
append-ne-nil (c ∷ bs) b p = cc

-- When `malloc` succeeds, a written event goes behind those that are held, and 0 is returned.
pub events_write-Holds :
    (es : Events) (xs : List Event) (e : Event)
    → Holds es xs
    → (after : Events) × (events_write true es e ≡ some (after, 0)) × Holds after (xs ++ e ∷ [])
unfolding events_write
events_write-Holds es xs e h = elim (Bool-cases (es.windex == events_block)) [
  | inl full ↦
      let s =
        store-Stored
          (record { bevents = es.bevents ++ replicate events_block none ∷ []; windex = 0 }) xs e
          (omega arith) (Sized-append es.bevents _ h.sized refl) (append-ne-nil es.bevents _)
          (content-append_block es.bevents es.windex _ (ground arith) ∙ h.is) in
      rw full (s.after, s.is, s.holds)
  | inr space ↦
      let below : es.windex < events_block = ground arith in
      let s = store-Stored es xs e below h.sized (h.room below) h.is in
      rw space (s.after, s.is, s.holds)
]

-- When `malloc` fails the events are as they were, and 1 is returned if an array was needed.
pub events_write-no_memory :
    (es : Events) (xs : List Event) (e : Event)
    → Holds es xs
    → (events_write false es e ≡ some (es, 1))
      ⊎ ((after : Events) × (events_write false es e ≡ some (after, 0))
          × Holds after (xs ++ e ∷ []))
unfolding events_write
events_write-no_memory es xs e h = elim (Bool-cases (es.windex == events_block)) [
  | inl full ↦ rw full (inl refl)
  | inr space ↦
      let below : es.windex < events_block = ground arith in
      let s = store-Stored es xs e below h.sized (h.room below) h.is in
      rw space (inr (s.after, s.is, s.holds))
]
