-- ===== src/LinkedList/Remove.antt =====
-- Taking a node out of the middle of a list.
use ezgrpc.Prelude.{
  ℕ, ◌+◌, ◌-◌, ◌≡◌, ◌≢◌, refl, sym, ap, ◌∙◌, Bool, true, false, Option, some, [], ◌∷◌, ◌++◌, arith,
  ◌==◌, length-append,
}
use ezgrpc.LinkedList.{
  Node, Store, put, free, Ends, set_next, set_prev, seek, link_prev, link_next, remove,
}
use ezgrpc.LinkedList.Links.{
  Nodes, first_of, last_of, Links, Apart, Distinct, IsList, Links-put, put_same, put_other,
  Links-append, Last, Links-Last,
}
use ezgrpc.LinkedList.Queue.{Leaves, set_next_found, set_prev_found}
use ezgrpc.LinkedList.Pop.{address, seek-Links}
use ezgrpc.LinkedList.Parts.{
  Distinct-parts, Disjoint-tail, Disjoint-sym, Links-kept, Disjoint-append, Links-parts,
  last_of-parts, last_of-append,
}
use ezgrpc.LinkedList.Concat.{Disjoint, Distinct-append}

module _ (node : Node) (l : Ends) (h h1 : Store) where
  prev_first : node.prev ≡ 0 → link_prev node l h ≡ some (record l { front = node.next }, h)
  unfolding set_next
  prev_first e = let edge : (node.prev == 0) ≡ true = ground (arith, e) in simp edge

  prev_behind :
      node.prev ≢ 0 → set_next node.prev node.next h ≡ some h1 → link_prev node l h ≡ some (l, h1)
  prev_behind ne e = let edge : (node.prev == 0) ≡ false = ground (arith, ne) in simp (edge, e)

  next_last : node.next ≡ 0 → link_next node l h ≡ some (record l { back = node.prev }, h)
  next_last e = let edge : (node.next == 0) ≡ true = ground (arith, e) in simp edge

  next_before :
      node.next ≢ 0 → set_prev node.next node.prev h ≡ some h1 → link_next node l h ≡ some (l, h1)
  next_before ne e = let edge : (node.next == 0) ≡ false = ground (arith, ne) in simp (edge, e)

remove_node :
    (matches : ℕ → Bool) (l l1 l2 : Ends) (h h1 h2 : Store) (a : ℕ) (node : Node)
    → seek (l.count + 1) matches l.front h ≡ some a
    → a ≢ 0
    → h a ≡ some node
    → link_prev node l h ≡ some (l1, h1)
    → link_next node l1 h1 ≡ some (l2, h2)
    → remove matches l h ≡ some (record l2 { count = l2.count - 1 }, free a h2, node.content)
unfolding remove
remove_node matches l l1 l2 h h1 h2 a node e ne f p n =
    let there : (a == 0) ≡ false = ground (arith, ne) in
    rw (e, remove) (rw there (rw (f, remove) (rw (p, remove) (rw (n, remove) refl))))

record Before (h : Store) (l : Ends) (xs ys : Nodes) (o : Option (Ends × Store)) : Type 0 where
  l1 : Ends
  h1 : Store
  is : o ≡ some (l1, h1)
  front : l1.front ≡ first_of (xs ++ ys) 0
  back : l1.back ≡ l.back
  count : l1.count ≡ l.count
  links : Links h1 0 xs (first_of ys 0)
  kept : (k : ℕ) → Apart k xs → h1 k ≡ h k

before_part :
    (h : Store) (l : Ends) (xs ys : Nodes) (a d : ℕ)
    → Distinct xs
    → Links h 0 xs a
    → l.front ≡ first_of (xs ++ (a, d) ∷ ys) 0
    → Before h l xs ys
        (link_prev (record { next = first_of ys 0; prev = last_of 0 xs; content = d }) l h)
before_part h l [] ys a d p links front = record {
  l1 = record l { front = first_of ys 0 };
  h1 = h;
  is = prev_first (record { next = first_of ys 0; prev = 0; content = d }) l h h refl;
  front = refl;
  back = refl;
  count = refl;
  links = tt;
  kept = λ k apart. refl;
}
before_part h l ((b, e) ∷ xs) ys a d p links front = record {
  l1 = l;
  h1 = put (last_of b xs) (record (last.node) { next = first_of ys 0 }) h;
  is =
      prev_behind (record { next = first_of ys 0; prev = last_of b xs; content = d }) l h _
        last.nonzero (set_next_found h (last_of b xs) (first_of ys 0) last.node last.is);
  front = front;
  back = refl;
  count = refl;
  links = last.relinks (first_of ys 0);
  kept = λ k apart.
      put_other h (last_of b xs) k (record (last.node) { next = first_of ys 0 })
        (λ same. last.member k apart (sym same));
}
  where
    last : Last h 0 ((b, e) ∷ xs)
    last = Links-Last h 0 a b e xs p links

record After (h1 : Store) (l1 : Ends) (before : ℕ) (ys : Nodes) (o : Option (Ends × Store))
    : Type 0 where
  l2 : Ends
  h2 : Store
  is : o ≡ some (l2, h2)
  front : l2.front ≡ l1.front
  back : l2.back ≡ last_of before ys
  count : l2.count ≡ l1.count
  links : Links h2 before ys 0
  kept : (k : ℕ) → Apart k ys → h2 k ≡ h1 k

after_part :
    (h1 : Store) (l1 : Ends) (before a d : ℕ) (ys : Nodes)
    → Distinct ys
    → Links h1 a ys 0
    → l1.back ≡ last_of a ys
    → After h1 l1 before ys
        (link_next (record { next = first_of ys 0; prev = before; content = d }) l1 h1)
after_part h1 l1 before a d [] p links back = record {
  l2 = record l1 { back = before };
  h2 = h1;
  is = next_last (record { next = 0; prev = before; content = d }) l1 h1 h1 refl;
  front = refl;
  back = refl;
  count = refl;
  links = tt;
  kept = λ k apart. refl;
}
after_part h1 l1 before a d ((b, e) ∷ ms) p links back = record {
  l2 = l1;
  h2 = put b head h1;
  is =
      next_before (record { next = b; prev = before; content = d }) l1 h1 (put b head h1) links.0
        (set_prev_found h1 b before (record { next = first_of ms 0; prev = a; content = e })
          links.1);
  front = refl;
  back = back;
  count = refl;
  links = (links.0, put_same h1 b head, Links-put h1 b 0 b ms head p.0 links.2);
  kept = λ k apart. put_other h1 b k head (λ same. apart.0 (sym same));
}
  where
    head : Node
    head = record { next = first_of ms 0; prev = before; content = e }

-- No node of `xs` matches.
abbrev pub NoMatch : (ℕ → Bool) → Nodes → Type 0
NoMatch matches [] = Unit {0}
NoMatch matches ((a, d) ∷ xs) = (matches d ≡ false) × NoMatch matches xs

address_behind :
    (matches : ℕ → Bool) (xs : Nodes) (a d : ℕ) (ys : Nodes)
    → NoMatch matches xs
    → matches d ≡ true
    → address matches (xs ++ (a, d) ∷ ys) ≡ a
address_behind matches [] a d ys none_before hit = rw hit refl
address_behind matches ((b, e) ∷ xs) a d ys none_before hit =
    rw none_before.0 (address_behind matches xs a d ys none_before.1 hit)

module _ (matches : ℕ → Bool) (h : Store) (l : Ends) (xs : Nodes) (a d : ℕ) (ys : Nodes)
    (is : IsList h l (xs ++ (a, d) ∷ ys)) where
  abbrev node : Node
  node = record { next = first_of ys 0; prev = last_of 0 xs; content = d }

  parts : Distinct xs × Distinct ((a, d) ∷ ys) × Disjoint xs ((a, d) ∷ ys)
  parts = Distinct-parts xs ((a, d) ∷ ys) is.distinct

  links : Links h 0 xs a × Links h (last_of 0 xs) ((a, d) ∷ ys) 0
  links = Links-parts h 0 xs a d ys is.links

  apart : Disjoint xs ys × Apart a xs
  apart = Disjoint-tail xs a d ys parts.2

  before : Before h l xs ys (link_prev node l h)
  before = before_part h l xs ys a d parts.0 links.0 is.front_is

  after : After before.h1 before.l1 (last_of 0 xs) ys (link_next node before.l1 before.h1)
  after =
      after_part before.h1 before.l1 (last_of 0 xs) a d ys parts.1.1
        (Links-kept h before.h1 a 0 ys xs before.kept (Disjoint-sym xs ys apart.0) links.1.2)
        (before.back ∙ is.back_is ∙ last_of-parts 0 xs a d ys)

  freed : (k : ℕ) → Apart k ((a, d) ∷ []) → free a after.h2 k ≡ after.h2 k
  freed k p = ground (arith, p.0)

  -- The first node that matches is taken out of the list and freed, and its data is returned; the
  -- others are still a list, in their order.
  pub remove-IsList :
      NoMatch matches xs → matches d ≡ true → Leaves (xs ++ ys) d (remove matches l h)
  remove-IsList none_before hit = record {
    ends = record (after.l2) { count = after.l2.count - 1 };
    store = free a after.h2;
    is =
        remove_node matches l before.l1 after.l2 h before.h1 after.h2 a node
          (ap (λ b. seek (l.count + 1) matches b h) is.front_is
            ∙ seek-Links matches h 0 (xs ++ (a, d) ∷ ys) (l.count + 1) is.links
                (omega (arith, is.count_is))
            ∙ ap some (address_behind matches xs a d ys none_before hit))
          links.1.0 links.1.1 before.is after.is;
    list = record {
      links =
          Links-append (free a after.h2) 0 0 xs ys
            (Links-kept after.h2 (free a after.h2) 0 (first_of ys 0) xs ((a, d) ∷ []) freed
              (Disjoint-append xs ((a, d) ∷ []) ys parts.2)
              (Links-kept before.h1 after.h2 0 (first_of ys 0) xs ys after.kept apart.0
                before.links))
            (Links-kept after.h2 (free a after.h2) (last_of 0 xs) 0 ys ((a, d) ∷ []) freed
              (Disjoint-sym ((a, d) ∷ []) ys (parts.1.0, tt)) after.links);
      distinct = Distinct-append xs ys parts.0 parts.1.1 apart.0;
      front_is = after.front ∙ before.front;
      back_is = after.back ∙ last_of-append 0 xs ys;
      count_is = omega (
        arith,
        after.count,
        before.count,
        is.count_is,
        length-append xs ((a, d) ∷ ys),
        length-append xs ys,
      );
    };
  }
