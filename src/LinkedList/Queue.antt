-- ===== src/LinkedList/Queue.antt =====
-- The list as a queue: at the back in, at the front out.
use ezgrpc.Prelude.{
  ℕ, ◌+◌, ◌≡◌, ◌≢◌, refl, sym, ap, ◌∙◌, subst, true, false, none, some, [], ◌∷◌, ◌++◌, arith, ◌==◌,
  length-append,
}
use ezgrpc.LinkedList.{Node, Store, put, Ends, set_next, set_prev, Outcome, push_back}
use ezgrpc.LinkedList.Links.{
  Nodes, last_of, Links, Apart, Distinct, IsList, Links-put, put_same, put_other, Apart-of_fresh,
  Links-append, Last, Links-Last,
}

pub set_next_found :
    (h : Store) (a n : ℕ) (node : Node)
    → h a ≡ some node
    → set_next a n h ≡ some (put a (record node { next = n }) h)
unfolding set_next
set_next_found h a n node e = rw (e, set_next) refl

pub set_prev_found :
    (h : Store) (a n : ℕ) (node : Node)
    → h a ≡ some node
    → set_prev a n h ≡ some (put a (record node { prev = n }) h)
unfolding set_prev
set_prev_found h a n node e = rw (e, set_prev) refl

abbrev fresh_node : ℕ → Node
fresh_node d = record { next = 0; prev = 0; content = d }

push_back_behind :
    (new d : ℕ) (l : Ends) (h h1 h2 : Store)
    → l.back ≢ 0
    → set_next l.back new (put new (fresh_node d) h) ≡ some h1
    → set_prev new l.back h1 ≡ some h2
    → push_back new d l h ≡ some (record l { back = new; count = l.count + 1 }, h2, 0)
unfolding push_back
push_back_behind new d l h h1 h2 ne e f =
    let behind : (l.back == 0) ≡ false = ground (arith, ne) in simp (behind, e, f)

push_back_first :
    (new d : ℕ) (l : Ends) (h : Store)
    → l.back ≡ 0
    → push_back new d l h
      ≡ some (record { front = new; back = new; count = l.count + 1 }, put new (fresh_node d) h, 0)
unfolding push_back
push_back_first new d l h e = let behind : (l.back == 0) ≡ true = ground (arith, e) in simp behind

pub record Leaves (ns : Nodes) (returns : ℕ) (o : Outcome) : Type 0 where
  pub ends : Ends
  pub store : Store
  pub is : o ≡ some (ends, store, returns)
  pub list : IsList store ends ns

Distinct-snoc : (ns : Nodes) (a d : ℕ) → Distinct ns → Apart a ns → Distinct (ns ++ (a, d) ∷ [])
Distinct-snoc [] a d distinct apart = (tt, tt)
Distinct-snoc ((b, e) ∷ ns) a d distinct apart =
    (Apart-snoc ns distinct.0, Distinct-snoc ns a d distinct.1 apart.1)
  where
    Apart-snoc : (ns : Nodes) → Apart b ns → Apart b (ns ++ (a, d) ∷ [])
    Apart-snoc [] p = ((λ same. apart.0 (sym same)), tt)
    Apart-snoc ((c, f) ∷ ns) p = (p.0, Apart-snoc ns p.1)

pub last_of-snoc : (before : ℕ) (ns : Nodes) (a d : ℕ) → last_of before (ns ++ (a, d) ∷ []) ≡ a
last_of-snoc before [] a d = refl
last_of-snoc before ((b, e) ∷ ns) a d = last_of-snoc b ns a d

module _ (h : Store) (l : Ends) (new d : ℕ) (nonzero : new ≢ 0) (fresh : h new ≡ none) where
  abbrev made : Store
  made = put new (fresh_node d) h

  push_behind :
      (a c : ℕ) (ms : Nodes)
      → IsList h l ((a, c) ∷ ms)
      → Leaves (((a, c) ∷ ms) ++ (new, d) ∷ []) 0 (push_back new d l h)
  push_behind a c ms is = record {
    ends = record l { back = new; count = l.count + 1 };
    store = h2;
    is = push_back_behind new d l h h1 h2 not_null next_set prev_set;
    list = record {
      links =
          Links-append h2 0 0 ((a, c) ∷ ms) ((new, d) ∷ [])
            (Links-put h1 0 new new ((a, c) ∷ ms) behind apart (
              subst
                (λ b. Links (put b (record (last.node) { next = new }) made) 0 ((a, c) ∷ ms) new)
                (sym is.back_is) (last.relinks new)))
            (nonzero, new_is, tt);
      distinct = Distinct-snoc ((a, c) ∷ ms) new d is.distinct apart;
      front_is = is.front_is;
      back_is = sym (last_of-snoc 0 ((a, c) ∷ ms) new d);
      count_is = omega (arith, is.count_is, length-append ((a, c) ∷ ms) ((new, d) ∷ []));
    };
  }
    where
      apart : Apart new ((a, c) ∷ ms)
      apart = Apart-of_fresh h 0 0 new ((a, c) ∷ ms) fresh is.links

      last : Last made 0 ((a, c) ∷ ms)
      last =
          Links-Last made 0 0 a c ms is.distinct
            (Links-put h 0 0 new ((a, c) ∷ ms) (fresh_node d) apart is.links)

      not_null : l.back ≢ 0
      not_null = λ z. last.nonzero (sym is.back_is ∙ z)

      elsewhere : new ≢ l.back
      elsewhere = λ z. last.member new apart (sym (z ∙ is.back_is))

      h1 : Store
      h1 = put l.back (record (last.node) { next = new }) made

      behind : Node
      behind = record (fresh_node d) { prev = l.back }

      h2 : Store
      h2 = put new behind h1

      next_set : set_next l.back new made ≡ some h1
      next_set = set_next_found made l.back new last.node (ap made is.back_is ∙ last.is)

      prev_set : set_prev new l.back h1 ≡ some h2
      prev_set = set_prev_found h1 new l.back (fresh_node d) (
          put_other made l.back new (record (last.node) { next = new }) elsewhere
          ∙ put_same h new (fresh_node d))

      new_is : h2 new ≡ some (record { next = 0; prev = last_of 0 ((a, c) ∷ ms); content = d })
      new_is =
          put_same h1 new behind
          ∙ ap (λ b. some (record { next = 0; prev = b; content = d })) is.back_is

  -- A push puts the data behind those of the list, at a node whose address is fresh and not NULL.
  pub push_back-IsList :
      (ns : Nodes) → IsList h l ns → Leaves (ns ++ (new, d) ∷ []) 0 (push_back new d l h)
  push_back-IsList [] is = record {
    ends = record { front = new; back = new; count = l.count + 1 };
    store = made;
    is = push_back_first new d l h is.back_is;
    list = record {
      links = (nonzero, put_same h new (fresh_node d), tt);
      distinct = (tt, tt);
      front_is = refl;
      back_is = refl;
      count_is = omega (arith, is.count_is);
    };
  }
  push_back-IsList ((a, c) ∷ ms) is = push_behind a c ms is
