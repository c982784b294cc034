-- ===== src/LinkedList/Pop.antt =====
-- Taking the front of a list, and finding in it.
use ezgrpc.Prelude.{
  ℕ, zero, suc, ◌+◌, ◌-◌, ◌<◌, ◌≡◌, ◌≢◌, refl, sym, ap, ◌∙◌, Bool, true, false, some, [], ◌∷◌,
  arith, length, if◌then◌else◌, ◌==◌,
}
use ezgrpc.LinkedList.{Node, Store, put, Ends, set_prev, pop_front, seek, find}
use ezgrpc.LinkedList.Links.{Nodes, first_of, Links, IsList, Links-put, put_same}
use ezgrpc.LinkedList.Queue.{Leaves, set_prev_found}

pop_front_rest :
    (l : Ends) (h h1 : Store) (node : Node)
    → l.count ≢ 0
    → h l.front ≡ some node
    → node.next ≢ 0
    → set_prev node.next 0 h ≡ some h1
    → pop_front l h ≡ some (record l { front = node.next; count = l.count - 1 }, h1, node.content)
unfolding pop_front
pop_front_rest l h h1 node ne e more f =
    let some_left : (l.count == 0) ≡ false = ground (arith, ne) in
    let behind : (node.next == 0) ≡ false = ground (arith, more) in simp (some_left, e, behind, f)

pop_front_last :
    (l : Ends) (h : Store) (node : Node)
    → l.count ≡ 1
    → h l.front ≡ some node
    → node.next ≡ 0
    → pop_front l h ≡ some (record { front = 0; back = 0; count = 0 }, h, node.content)
unfolding pop_front
pop_front_last l h node one e end =
    let some_left : (l.count == 0) ≡ false = ground (arith, one) in
    let just_one : (l.count == 1) ≡ true = ground (arith, one) in
    let behind : (node.next == 0) ≡ true = ground (arith, end) in
    simp (some_left, e, behind, just_one)

pop_front_nothing : (l : Ends) (h : Store) → l.count ≡ 0 → pop_front l h ≡ some (l, h, 0)
unfolding pop_front
pop_front_nothing l h e = let nothing : (l.count == 0) ≡ true = ground (arith, e) in simp nothing

-- What is left after the front is taken, and what is returned: NULL for an empty list.
abbrev pub rest_of : Nodes → Nodes
rest_of [] = []
rest_of (n ∷ ns) = ns

abbrev pub front_data : Nodes → ℕ
front_data [] = 0
front_data ((a, d) ∷ ns) = d

-- A pop takes the front of the list, the rest is a list again, and its data is returned; for an
-- empty list nothing changes and NULL is returned.
pub pop_front-IsList :
    (h : Store) (l : Ends) (ns : Nodes)
    → IsList h l ns
    → Leaves (rest_of ns) (front_data ns) (pop_front l h)
pop_front-IsList h l [] is = record {
  ends = l;
  store = h;
  is = pop_front_nothing l h is.count_is;
  list = is;
}
pop_front-IsList h l ((a, d) ∷ []) is = record {
  ends = record { front = 0; back = 0; count = 0 };
  store = h;
  is =
      pop_front_last l h (record { next = 0; prev = 0; content = d }) is.count_is
        (ap h is.front_is ∙ is.links.1) refl;
  list = record { links = tt; distinct = tt; front_is = refl; back_is = refl; count_is = refl };
}
pop_front-IsList h l ((a, d) ∷ (b, e) ∷ ms) is = record {
  ends = record l { front = b; count = l.count - 1 };
  store = put b head h;
  is =
      pop_front_rest l h (put b head h) (record { next = b; prev = 0; content = d })
        (λ z. omega (arith, z, is.count_is)) (ap h is.front_is ∙ is.links.1) is.links.2.0
        (set_prev_found h b 0 (record { next = first_of ms 0; prev = a; content = e })
          is.links.2.1);
  list = record {
    links =
        (is.links.2.0, put_same h b head, Links-put h b 0 b ms head is.distinct.1.0 is.links.2.2);
    distinct = is.distinct.1;
    front_is = refl;
    back_is = is.back_is;
    count_is = omega (arith, is.count_is);
  };
}
  where
    head : Node
    head = record { next = first_of ms 0; prev = 0; content = e }

-- The data of the first node that matches, or NULL.
abbrev pub found : (ℕ → Bool) → Nodes → ℕ
found matches [] = 0
found matches ((a, d) ∷ ns) = if matches d then d else found matches ns

-- The address of that node.
abbrev pub address : (ℕ → Bool) → Nodes → ℕ
address matches [] = 0
address matches ((a, d) ∷ ns) = if matches d then a else address matches ns

pub seek-Links :
    (matches : ℕ → Bool) (h : Store) (before : ℕ) (ns : Nodes) (fuel : ℕ)
    → Links h before ns 0
    → length ns < fuel
    → seek fuel matches (first_of ns 0) h ≡ some (address matches ns)
unfolding seek
seek-Links matches h before ns zero l enough = absurd (omega arith)
seek-Links matches h before [] (suc fuel) l enough = refl
seek-Links matches h before ((a, d) ∷ ns) (suc fuel) l enough =
    let live : (a == 0) ≡ false = ground (arith, l.0) in
    let rest = seek-Links matches h a ns fuel l.2 (omega (arith, enough)) in
    rw (live, seek) (rw (l.1, seek) (rw rest (after (matches d))))
  where
    after :
        (b : Bool)
        → (if b then some a else some (address matches ns))
          ≡ some (if b then a else address matches ns)
    after true = refl
    after false = refl

-- The address is NULL with no match, or that of the node found.
data Address (h : Store) (a d : ℕ) : Type 0 where
  nowhere : a ≡ 0 → d ≡ 0 → Address h a d
  somewhere : (node : Node) → a ≢ 0 → h a ≡ some node → node.content ≡ d → Address h a d

address_cases :
    (matches : ℕ → Bool) (h : Store) (before : ℕ) (ns : Nodes)
    → Links h before ns 0
    → Address h (address matches ns) (found matches ns)
address_cases matches h before [] l = nowhere refl refl
address_cases matches h before ((a, d) ∷ ns) l =
    choose (matches d) (address_cases matches h a ns l.2)
  where
    choose :
        (b : Bool)
        → Address h (address matches ns) (found matches ns)
        → Address h (if b then a else address matches ns) (if b then d else found matches ns)
    choose true r = somewhere _ l.0 l.1 refl
    choose false r = r

find_nothing :
    (matches : ℕ → Bool) (l : Ends) (h : Store) (a : ℕ)
    → seek (l.count + 1) matches l.front h ≡ some a
    → a ≡ 0
    → find matches l h ≡ some 0
unfolding find
find_nothing matches l h a e z =
    let nowhere : (a == 0) ≡ true = ground (arith, z) in rw (e, find) (rw nowhere refl)

find_node :
    (matches : ℕ → Bool) (l : Ends) (h : Store) (a : ℕ) (node : Node)
    → seek (l.count + 1) matches l.front h ≡ some a
    → a ≢ 0
    → h a ≡ some node
    → find matches l h ≡ some node.content
unfolding find
find_node matches l h a node e ne f =
    let there : (a == 0) ≡ false = ground (arith, ne) in rw (e, find) (rw (there, f) refl)

-- Finding returns, with the data of the first node that matches, in the order of the list, or with
-- NULL if none does.
pub find-IsList :
    (matches : ℕ → Bool) (h : Store) (l : Ends) (ns : Nodes)
    → IsList h l ns
    → find matches l h ≡ some (found matches ns)
find-IsList matches h l ns is = by_address (address_cases matches h 0 ns is.links)
  where
    sought : seek (l.count + 1) matches l.front h ≡ some (address matches ns)
    sought =
        ap (λ a. seek (l.count + 1) matches a h) is.front_is
        ∙ seek-Links matches h 0 ns (l.count + 1) is.links (omega (arith, is.count_is))

    by_address :
        Address h (address matches ns) (found matches ns)
        → find matches l h ≡ some (found matches ns)
    by_address (nowhere z e) =
        find_nothing matches l h (address matches ns) sought z ∙ ap some (sym e)
    by_address (somewhere node ne f e) =
        find_node matches l h (address matches ns) node sought ne f ∙ ap some e
