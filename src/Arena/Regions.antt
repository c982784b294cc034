-- ===== src/Arena/Regions.antt =====
-- Where the messages of an arena stand.
use ezgrpc.Prelude.{
  ℕ, ◌+◌, ◌-◌, ◌%◌, ◌^◌, ◌≤◌, ◌<◌, ◌≡◌, sym, ap, subst, ◌∙◌, true, false, some, List, [], ◌∷◌,
  arith, ltb, Bool-cases, inl, inr,
}
use native.Mathlib.Nat.{mod-lt, mod-eq_of_lt}
use ezgrpc.Arena.{
  wrap, Layout, Arena, Region, arena_message_new, arena_message_malloc, mallocs, arena_event_new,
  arena_event_malloc,
}

-- One behind the other from an offset on, within a size.
abbrev pub InLine : ℕ → ℕ → List Region → Type 0
InLine from size [] = Unit {0}
InLine from size (r ∷ rs) =
    (from ≤ r.start) × (r.start + r.bytes ≤ size) × InLine (r.start + r.bytes) size rs

InLine-later : (i j size : ℕ) (rs : List Region) → i ≤ j → InLine j size rs → InLine i size rs
InLine-later i j size [] h l = tt
InLine-later i j size (r ∷ rs) h l = (omega (arith, h, l.0), l.1, l.2)

-- No sum that is made for a message of this size wraps around: the address is aligned by less than
-- `alignof`.
abbrev pub Small : Layout → ℕ → ℕ → Type 0
Small c capacity size = capacity + c.sizeof + size + c.alignof < 2 ^ 64

abbrev pub AllSmall : Layout → ℕ → List ℕ → Type 0
AllSmall c capacity [] = Unit {0}
AllSmall c capacity (size ∷ sizes) = Small c capacity size × AllSmall c capacity sizes

module _ (c : Layout) (a : Arena) (size : ℕ) (sizes : List ℕ) where
  abbrev padding : ℕ
  padding = (a.buf + a.write) % c.alignof

  mallocs-full :
      ltb a.size (wrap (a.write + c.sizeof + size + padding)) ≡ true
      → (mallocs c a (size ∷ sizes)).1 ≡ (mallocs c a sizes).1
  unfolding mallocs arena_message_malloc
  mallocs-full full = ground (arith, full)

  mallocs-fits :
      ltb a.size (wrap (a.write + c.sizeof + size + padding)) ≡ false
      → (mallocs c a (size ∷ sizes)).1
        ≡ record { start = wrap (padding + a.write); bytes = c.sizeof + size }
          ∷ (mallocs c (record a { write = wrap (a.write + (padding + c.sizeof + size)) }) sizes).1
  unfolding mallocs arena_message_malloc
  mallocs-fits fits = ground (arith, fits)

  module _ (aligned : 0 < c.alignof) (inside : a.write ≤ a.size) (small : Small c a.size size) where
    padding_less : padding < c.alignof
    padding_less = mod-lt (a.buf + a.write) aligned

    start_is : wrap (padding + a.write) ≡ padding + a.write
    start_is = mod-eq_of_lt (omega (arith, padding_less, inside, small))

    end_is : wrap (a.write + (padding + c.sizeof + size)) ≡ a.write + (padding + c.sizeof + size)
    end_is = mod-eq_of_lt (omega (arith, padding_less, inside, small))

    asked_is : wrap (a.write + c.sizeof + size + padding) ≡ a.write + c.sizeof + size + padding
    asked_is = mod-eq_of_lt (omega (arith, padding_less, inside, small))

    fits_within :
        ltb a.size (wrap (a.write + c.sizeof + size + padding)) ≡ false
        → a.write + (padding + c.sizeof + size) ≤ a.size
    fits_within e =
        let e' : ltb a.size (a.write + c.sizeof + size + padding) ≡ false =
          subst (λ n. ltb a.size n ≡ false) asked_is e in
        grind (arith, e')

mallocs-InLine_from :
    (c : Layout) (a : Arena) (sizes : List ℕ)
    → 0 < c.alignof
    → a.write ≤ a.size
    → AllSmall c a.size sizes
    → InLine a.write a.size (mallocs c a sizes).1
unfolding mallocs
mallocs-InLine_from c a [] aligned inside small = tt
mallocs-InLine_from c a (size ∷ sizes) aligned inside small =
    elim (Bool-cases
      (ltb a.size (wrap (a.write + c.sizeof + size + (a.buf + a.write) % c.alignof)))) [
        | inl full ↦
            subst (InLine a.write a.size) (sym (mallocs-full c a size sizes full))
              (mallocs-InLine_from c a sizes aligned inside small.1)
        | inr fits ↦
            let within = fits_within c a size sizes aligned inside small.0 fits in
            let start = start_is c a size sizes aligned inside small.0 in
            let end = end_is c a size sizes aligned inside small.0 in
            let a' : Arena = record a {
              write = wrap (a.write + ((a.buf + a.write) % c.alignof + c.sizeof + size));
            } in
            let ih = mallocs-InLine_from c a' sizes aligned (omega (arith, end, within)) small.1 in
            subst (InLine a.write a.size) (sym (mallocs-fits c a size sizes fits)) (
              omega (arith, start),
              omega (arith, start, within),
              InLine-later _ _ a.size _ (omega (arith, start, end)) ih,
            )
      ]

-- Wherever the arena is, the messages that are handed out follow one another without overlap, each
-- with room for its struct and its data, within the memory that is allocated, as long as no sum of
-- sizes reaches 2 ^ 64: neither that of the header and the size of the arena, nor, for each message
-- that is asked for, that of the size of the arena, the struct, the data and the alignment.
pub mallocs-InLine :
    (c : Layout) (address size : ℕ) (sizes : List ℕ)
    → 0 < c.alignof
    → c.header + size < 2 ^ 64
    → AllSmall c size sizes
    → let a = arena_message_new c address size in InLine 0 a.room (mallocs c a sizes).1
unfolding arena_message_new
mallocs-InLine c address size sizes aligned little small =
    let a = arena_message_new c address size in
    let room : a.room ≡ size = whole c size little in
    subst (λ n. InLine 0 n (mallocs c a sizes).1) (sym room)
      (mallocs-InLine_from c a sizes aligned (omega arith) small)
  where
    whole :
        (c : Layout) (size : ℕ)
        → c.header + size < 2 ^ 64
        → wrap (c.header + size) - c.header ≡ size
    whole c size little = omega (arith, mod-eq_of_lt little)

-- A message whose size and struct come to 2 ^ 64 is handed out at the start of any arena that stands
-- aligned, however small: the sum wraps around.
pub arena_message_malloc_wraps :
    (c : Layout) (address capacity size : ℕ)
    → c.sizeof + size ≡ 2 ^ 64
    → (address + c.header) % c.alignof ≡ 0
    → (arena_message_malloc c (arena_message_new c address capacity) size).1 ≡ some 0
unfolding arena_message_new arena_message_malloc
arena_message_malloc_wraps c address capacity size huge aligned =
    let z : address + c.header + 0 ≡ address + c.header = omega arith in
    let at : (address + c.header + 0) % c.alignof ≡ 0 = ap (λ (n : ℕ). n % c.alignof) z ∙ aligned in
    let whole : 0 + c.sizeof + size + 0 ≡ 2 ^ 64 = omega arith in
    let asked : wrap (0 + c.sizeof + size + 0) ≡ 0 = ap wrap whole in ground (arith, at, asked)

-- An arena of events that is asked to have room for just one hands that one out, although the memory
-- that is allocated behind its header ends before the event does.
pub arena_event_overflows :
    (c : Layout) (address size : ℕ)
    → 0 < c.sizeof
    → c.sizeof ≤ size
    → size < c.sizeof + c.header
    → size < 2 ^ 64
    → (address + c.header) % c.alignof ≡ 0
    → let a = arena_event_new c address size in
      ((arena_event_malloc c a).1 ≡ some 0) × (a.room < 0 + c.sizeof)
unfolding arena_event_new arena_event_malloc
arena_event_overflows c address size some_event enough little narrow aligned =
    let z : address + c.header + 0 ≡ address + c.header = omega arith in
    let at : (address + c.header + 0) % c.alignof ≡ 0 = ap (λ (n : ℕ). n % c.alignof) z ∙ aligned in
    let asked : wrap (0 + c.sizeof + 0) ≡ c.sizeof = mod-eq_of_lt (omega arith) ∙ omega arith in
    (ground (arith, at, asked), omega arith)
