-- ===== src/LinkedList/Concat.antt =====
-- One list hung behind another.
use ezgrpc.Prelude.{
  ℕ, ◌+◌, ◌≡◌, ◌≢◌, refl, sym, ap, ◌∙◌, subst, true, false, Option, some, [], ◌∷◌, ◌++◌, arith,
  ◌==◌, length-append, append-nil,
}
use ezgrpc.LinkedList.{Node, Store, put, Ends, list_new, set_next, set_prev, concat_and_empty_src}
use ezgrpc.LinkedList.Links.{
  Nodes, first_of, last_of, Links, Apart, Distinct, IsList, Links-put, put_same, put_other,
  Links-append, Last, Links-Last,
}
use ezgrpc.LinkedList.Queue.{set_next_found, set_prev_found}

-- No node of the one list is a node of the other.
abbrev pub Disjoint : Nodes → Nodes → Type 0
Disjoint [] ys = Unit {0}
Disjoint ((a, d) ∷ xs) ys = Apart a ys × Disjoint xs ys

Apart-append : (a : ℕ) (xs ys : Nodes) → Apart a xs → Apart a ys → Apart a (xs ++ ys)
Apart-append a [] ys p q = q
Apart-append a ((b, d) ∷ xs) ys p q = (p.0, Apart-append a xs ys p.1 q)

pub Distinct-append :
    (xs ys : Nodes) → Distinct xs → Distinct ys → Disjoint xs ys → Distinct (xs ++ ys)
Distinct-append [] ys p q r = q
Distinct-append ((a, d) ∷ xs) ys p q r =
    (Apart-append a xs ys p.0 r.0, Distinct-append xs ys p.1 q r.1)

-- The last node of the one is apart from the other, and the first of the other from the one.
Disjoint-last : (a d : ℕ) (xs ys : Nodes) → Disjoint ((a, d) ∷ xs) ys → Apart (last_of a xs) ys
Disjoint-last a d [] ys r = r.0
Disjoint-last a d ((b, e) ∷ xs) ys r = Disjoint-last b e xs ys r.1

Disjoint-first : (b e : ℕ) (xs ms : Nodes) → Disjoint xs ((b, e) ∷ ms) → Apart b xs
Disjoint-first b e [] ms r = tt
Disjoint-first b e ((a, d) ∷ xs) ms r = ((λ same. r.0.0 (sym same)), Disjoint-first b e xs ms r.1)

last_of-append :
    (before : ℕ) (xs : Nodes) (b e : ℕ) (ms : Nodes)
    → last_of before (xs ++ (b, e) ∷ ms) ≡ last_of b ms
last_of-append before [] b e ms = refl
last_of-append before ((a, d) ∷ xs) b e ms = last_of-append a xs b e ms

pub record Joins (ns : Nodes) (o : Option (Ends × Ends × Store)) : Type 0 where
  pub ends : Ends
  pub source : Ends
  pub store : Store
  pub is : o ≡ some (ends, source, store)
  pub list : IsList store ends ns
  pub emptied : IsList store source []

concat_nothing :
    (dst src : Ends) (h : Store)
    → src.count ≡ 0
    → concat_and_empty_src dst src h ≡ some (dst, src, h)
unfolding concat_and_empty_src
concat_nothing dst src h e =
    let nothing : (src.count == 0) ≡ true = ground (arith, e) in simp nothing

concat_first :
    (dst src : Ends) (h : Store)
    → src.count ≢ 0
    → dst.front ≡ 0
    → dst.back ≡ 0
    → concat_and_empty_src dst src h
      ≡ some (
        record { front = src.front; back = src.back; count = dst.count + src.count },
        list_new,
        h,
      )
unfolding concat_and_empty_src
concat_first dst src h ne f e =
    let some_left : (src.count == 0) ≡ false = ground (arith, ne) in
    let no_front : (dst.front == 0) ≡ true = ground (arith, f) in
    let no_back : (dst.back == 0) ≡ true = ground (arith, e) in simp (some_left, no_front, no_back)

concat_behind :
    (dst src : Ends) (h h1 h2 : Store)
    → src.count ≢ 0
    → dst.front ≢ 0
    → dst.back ≢ 0
    → set_next dst.back src.front h ≡ some h1
    → set_prev src.front dst.back h1 ≡ some h2
    → concat_and_empty_src dst src h
      ≡ some (
        record { front = dst.front; back = src.back; count = dst.count + src.count },
        list_new,
        h2,
      )
unfolding concat_and_empty_src
concat_behind dst src h h1 h2 ne f e g k =
    let some_left : (src.count == 0) ≡ false = ground (arith, ne) in
    let with_front : (dst.front == 0) ≡ false = ground (arith, f) in
    let with_back : (dst.back == 0) ≡ false = ground (arith, e) in
    simp (some_left, with_front, with_back, g, k)

nil-IsList : (h : Store) → IsList h list_new []
nil-IsList h = record {
  links = tt;
  distinct = tt;
  front_is = refl;
  back_is = refl;
  count_is = refl;
}

module _ (h : Store) (dst src : Ends) (a d b e : ℕ) (xs ms : Nodes) (x : IsList h dst ((a, d) ∷ xs))
    (y : IsList h src ((b, e) ∷ ms)) (disjoint : Disjoint ((a, d) ∷ xs) ((b, e) ∷ ms)) where
  last : Last h 0 ((a, d) ∷ xs)
  last = Links-Last h 0 0 a d xs x.distinct x.links

  abbrev hung : Node
  hung = record { next = first_of ms 0; prev = last_of a xs; content = e }

  abbrev h1 : Store
  h1 = put (last_of a xs) (record (last.node) { next = b }) h

  abbrev h2 : Store
  h2 = put b hung h1

  elsewhere : Apart (last_of a xs) ((b, e) ∷ ms)
  elsewhere = Disjoint-last a d xs ((b, e) ∷ ms) disjoint

  first_kept : h1 b ≡ some (record { next = first_of ms 0; prev = 0; content = e })
  first_kept =
      put_other h (last_of a xs) b (record (last.node) { next = b }) elsewhere.0 ∙ y.links.1

  next_set : set_next dst.back src.front h ≡ some h1
  next_set =
      ap (λ k. set_next k src.front h) x.back_is
      ∙ ap (λ k. set_next (last_of a xs) k h) y.front_is
      ∙ set_next_found h (last_of a xs) b last.node last.is

  prev_set : set_prev src.front dst.back h1 ≡ some h2
  prev_set =
      ap (λ k. set_prev k dst.back h1) y.front_is
      ∙ ap (λ k. set_prev b k h1) x.back_is
      ∙ set_prev_found h1 b (last_of a xs) (record { next = first_of ms 0; prev = 0; content = e })
          first_kept

  first_part : Links h2 0 ((a, d) ∷ xs) b
  first_part =
      Links-put h1 0 b b ((a, d) ∷ xs) hung (Disjoint-first b e ((a, d) ∷ xs) ms disjoint)
        (last.relinks b)

  second_part : Links h2 (last_of a xs) ((b, e) ∷ ms) 0
  second_part = (
    y.links.0,
    put_same h1 b hung,
    Links-put h1 b 0 b ms hung y.distinct.0
        (Links-put h b 0 (last_of a xs) ms (record (last.node) { next = b }) elsewhere.1 y.links.2),
  )

  join_behind : Joins (((a, d) ∷ xs) ++ (b, e) ∷ ms) (concat_and_empty_src dst src h)
  join_behind = record {
    ends = record { front = dst.front; back = src.back; count = dst.count + src.count };
    source = list_new;
    store = h2;
    is =
        concat_behind dst src h h1 h2 (λ z. omega (arith, z, y.count_is))
          (λ z. x.links.0 (sym x.front_is ∙ z)) (λ z. last.nonzero (sym x.back_is ∙ z)) next_set
          prev_set;
    list = record {
      links = Links-append h2 0 0 ((a, d) ∷ xs) ((b, e) ∷ ms) first_part second_part;
      distinct = Distinct-append ((a, d) ∷ xs) ((b, e) ∷ ms) x.distinct y.distinct disjoint;
      front_is = x.front_is;
      back_is = y.back_is ∙ sym (last_of-append 0 ((a, d) ∷ xs) b e ms);
      count_is = omega (arith, x.count_is, y.count_is, length-append ((a, d) ∷ xs) ((b, e) ∷ ms));
    };
    emptied = nil-IsList h2;
  }

-- Two lists with no common node become one, the nodes of the source behind those of the other, and
-- the source is empty.
pub concat_and_empty_src-IsList :
    (h : Store) (dst src : Ends) (xs ys : Nodes)
    → IsList h dst xs
    → IsList h src ys
    → Disjoint xs ys
    → Joins (xs ++ ys) (concat_and_empty_src dst src h)
concat_and_empty_src-IsList h dst src xs [] x y disjoint = record {
  ends = dst;
  source = src;
  store = h;
  is = concat_nothing dst src h y.count_is;
  list = subst (IsList h dst) (sym (append-nil xs)) x;
  emptied = y;
}
concat_and_empty_src-IsList h dst src [] ((b, e) ∷ ms) x y disjoint = record {
  ends = record { front = src.front; back = src.back; count = dst.count + src.count };
  source = list_new;
  store = h;
  is = concat_first dst src h (λ z. omega (arith, z, y.count_is)) x.front_is x.back_is;
  list = record {
    links = y.links;
    distinct = y.distinct;
    front_is = y.front_is;
    back_is = y.back_is;
    count_is = omega (arith, x.count_is, y.count_is);
  };
  emptied = nil-IsList h;
}
concat_and_empty_src-IsList h dst src ((a, d) ∷ xs) ((b, e) ∷ ms) x y disjoint =
    join_behind h dst src a d b e xs ms x y disjoint
