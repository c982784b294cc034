-- ===== src/Service/Reads.antt =====
-- A read of `ezgrpc2_events_read`.
use ezgrpc.Prelude.{
  ℕ, ◌≤◌, ◌≡◌, ◌≢◌, ◌⊎◌, inl, inr, refl, sym, ap, ◌∙◌, subst, some, List, [], ◌∷◌, ◌++◌, map,
  append-nil, length, length-take, take, arith, min,
}
use ezgrpc.Event.{Event}
use ezgrpc.Events.{Block, Events, events_block, events_read}
use ezgrpc.Events.Contents.{content, Holds}
use ezgrpc.Service.{Hands, Empties}

record Parted (p q : Block) (xs : List Event) : Type 0 where
  first : List Event
  rest : List Event
  split : xs ≡ first ++ rest
  left : p ≡ map some first
  right : q ≡ map some rest

part : (p q : Block) (xs : List Event) → p ++ q ≡ map some xs → Parted p q xs
part [] q xs e = record { first = []; rest = xs; split = refl; left = refl; right = e }
part (o ∷ p) q [] e = cc
part (o ∷ p) q (x ∷ xs) e =
    let r = part p q xs (tails e) in
    record {
      first = x ∷ r.first;
      rest = r.rest;
      split = ap (λ l. x ∷ l) r.split;
      left = ground (arith, e, r.left);
      right = r.right;
    }
  where
    tails : o ∷ p ++ q ≡ some x ∷ map some xs → p ++ q ≡ map some xs
    tails f = cc

nothing_left : (xs : List Event) → [] ≡ map some xs → xs ≡ []
nothing_left [] e = refl
nothing_left (x ∷ xs) e = cc

-- An array that has been begun has an event.
some_first :
    (b : Block) (n : ℕ) (first : List Event)
    → length b ≡ events_block
    → 1 ≤ n
    → take n b ≡ map some first
    → first ≢ []
some_first b n first full low e none_first =
    let short : length (take n b) ≡ 0 = ap length (e ∙ ap (map some) none_first) in
    let at_most : 1 ≤ length b = omega (arith, full) in absurd (few short (length-take n b) at_most)
  where
    few : length (take n b) ≡ 0 → length (take n b) ≡ min n (length b) → 1 ≤ length b → ⊥
    few p q r = ground (arith, low)

abbrev held_in : List Block → ℕ → Events
held_in bs w = record { bevents = bs; windex = w }

later_read :
    (b c : Block) (bs : List Block) (w : ℕ)
    → events_read (held_in (b ∷ c ∷ bs) w) ≡ (some (b, events_block), held_in (c ∷ bs) w)
unfolding events_read
later_read b c bs w = ground arith

-- A read hands out the oldest array with its events, all of them if it is the last; where none is
-- held it gives NULL.
pub events_read_lem :
    (bs : List Block) (w : ℕ) (xs : List Event)
    → Holds (held_in bs w) xs
    → Hands Holds xs (events_read (held_in bs w)) ⊎ Empties Holds xs (events_read (held_in bs w))
unfolding events_read
events_read_lem [] w xs h =
    let empty = nothing_left xs h.is in
    inr (record { given = refl; nothing = empty; good = subst (Holds (held_in [] w)) empty h })
events_read_lem (b ∷ []) w xs h = inl (record {
  block = b;
  size = w;
  first = xs;
  rest = [];
  given = refl;
  entries = h.is;
  split = sym (append-nil xs);
  more = some_first b w xs h.sized.0 h.low h.is;
  good = record {
    sized = tt;
    low = omega arith;
    high = omega arith;
    room = λ l. absurd (omega arith);
    is = refl;
  };
})
events_read_lem (b ∷ c ∷ bs) w xs h =
    let p = part (take events_block b) (content (c ∷ bs) w) xs h.is in
    inl (
      rw (later_read b c bs w) (record {
        block = b;
        size = events_block;
        first = p.first;
        rest = p.rest;
        given = refl;
        entries = p.left;
        split = p.split;
        more = some_first b events_block p.first h.sized.0 (omega arith) p.left;
        good = record {
          sized = h.sized.1;
          low = h.low;
          high = h.high;
          room = λ l. (λ z. cc);
          is = p.right;
        };
      }))
