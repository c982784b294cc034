-- ===== src/LinkedList/Back.antt =====
-- Taking the back of a list.
use ezgrpc.Prelude.{
  ℕ, ◌-◌, ◌≡◌, ◌≢◌, refl, ap, ◌∙◌, true, false, some, [], ◌∷◌, ◌++◌, arith, ◌==◌, length-append,
}
use ezgrpc.LinkedList.{Node, Store, put, Ends, set_next, pop_back}
use ezgrpc.LinkedList.Links.{
  Nodes, first_of, last_of, Links, Apart, Distinct, IsList, Last, Links-Last,
}
use ezgrpc.LinkedList.Queue.{Leaves, set_next_found, last_of-snoc}

pop_back_rest :
    (l : Ends) (h h1 : Store) (node : Node)
    → l.count ≢ 0
    → h l.back ≡ some node
    → node.prev ≢ 0
    → set_next node.prev 0 h ≡ some h1
    → pop_back l h ≡ some (record l { back = node.prev; count = l.count - 1 }, h1, node.content)
unfolding pop_back
pop_back_rest l h h1 node ne e more f =
    let some_left : (l.count == 0) ≡ false = ground (arith, ne) in
    let before : (node.prev == 0) ≡ false = ground (arith, more) in simp (some_left, e, before, f)

pop_back_last :
    (l : Ends) (h : Store) (node : Node)
    → l.count ≡ 1
    → h l.back ≡ some node
    → node.prev ≡ 0
    → pop_back l h ≡ some (record { front = 0; back = 0; count = 0 }, h, node.content)
unfolding pop_back
pop_back_last l h node one e end =
    let some_left : (l.count == 0) ≡ false = ground (arith, one) in
    let just_one : (l.count == 1) ≡ true = ground (arith, one) in
    let before : (node.prev == 0) ≡ true = ground (arith, end) in
    simp (some_left, e, before, just_one)

Links-snoc :
    (h : Store) (before after : ℕ) (xs : Nodes) (a d : ℕ)
    → Links h before (xs ++ (a, d) ∷ []) after
    → Links h before xs a
      × (h a ≡ some (record { next = after; prev = last_of before xs; content = d }))
Links-snoc h before after [] a d l = (tt, l.1)
Links-snoc h before after ((b, e) ∷ xs) a d l =
    let rest = Links-snoc h b after xs a d l.2 in
    (
      (
        l.0,
        l.1 ∙ ap (λ n. some (record { next = n; prev = before; content = e })) (joint xs),
        rest.0,
      ),
      rest.1,
    )
  where
    joint : (xs : Nodes) → first_of (xs ++ (a, d) ∷ []) after ≡ first_of xs a
    joint [] = refl
    joint ((c, f) ∷ xs) = refl

Apart-front : (c : ℕ) (xs : Nodes) (a d : ℕ) → Apart c (xs ++ (a, d) ∷ []) → Apart c xs
Apart-front c [] a d p = tt
Apart-front c ((b, e) ∷ xs) a d p = (p.0, Apart-front c xs a d p.1)

Distinct-front : (xs : Nodes) (a d : ℕ) → Distinct (xs ++ (a, d) ∷ []) → Distinct xs
Distinct-front [] a d p = tt
Distinct-front ((b, e) ∷ xs) a d p = (Apart-front b xs a d p.0, Distinct-front xs a d p.1)

-- A pop at the back takes the last node, what is before it is a list again, and its data is returned.
pub pop_back-IsList :
    (h : Store) (l : Ends) (ns : Nodes) (a d : ℕ)
    → IsList h l (ns ++ (a, d) ∷ [])
    → Leaves ns d (pop_back l h)
pop_back-IsList h l [] a d is = record {
  ends = record { front = 0; back = 0; count = 0 };
  store = h;
  is =
      pop_back_last l h (record { next = 0; prev = 0; content = d }) is.count_is
        (ap h is.back_is ∙ is.links.1) refl;
  list = record { links = tt; distinct = tt; front_is = refl; back_is = refl; count_is = refl };
}
pop_back-IsList h l ((b, e) ∷ ms) a d is = record {
  ends = record l { back = last_of b ms; count = l.count - 1 };
  store = put (last_of b ms) (record (last.node) { next = 0 }) h;
  is =
      pop_back_rest l h _ (record { next = 0; prev = last_of b ms; content = d })
        (λ z. omega (arith, z, is.count_is)) (ap h (is.back_is ∙ last_of-snoc b ms a d) ∙ split.1)
        last.nonzero (set_next_found h (last_of b ms) 0 last.node last.is);
  list = record {
    links = last.relinks 0;
    distinct = Distinct-front ((b, e) ∷ ms) a d is.distinct;
    front_is = is.front_is;
    back_is = refl;
    count_is = omega (arith, is.count_is, length-append ((b, e) ∷ ms) ((a, d) ∷ []));
  };
}
  where
    split :
        Links h 0 ((b, e) ∷ ms) a
        × (h a ≡ some (record { next = 0; prev = last_of b ms; content = d }))
    split = Links-snoc h 0 0 ((b, e) ∷ ms) a d is.links

    last : Last h 0 ((b, e) ∷ ms)
    last = Links-Last h 0 a b e ms (Distinct-front ((b, e) ∷ ms) a d is.distinct) split.0
