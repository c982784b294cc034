-- ===== src/LinkedList/Front.antt =====
-- To push at the front.
use ezgrpc.Prelude.{
  ℕ, ◌+◌, ◌≡◌, ◌≢◌, refl, sym, ap, ◌∙◌, true, false, none, some, [], ◌∷◌, arith, ◌==◌,
}
use ezgrpc.LinkedList.{Node, Store, put, Ends, set_prev, push_front}
use ezgrpc.LinkedList.Links.{
  Nodes, first_of, Apart, IsList, Links-put, put_same, put_other, Apart-of_fresh,
}
use ezgrpc.LinkedList.Queue.{Leaves, set_prev_found}

push_front_first :
    (new d : ℕ) (l : Ends) (h : Store)
    → l.front ≡ 0
    → push_front new d l h
      ≡ some (
        record { front = new; back = new; count = l.count + 1 },
        put new (record { next = l.front; prev = 0; content = d }) h,
        0,
      )
unfolding push_front
push_front_first new d l h e =
    let nothing : (l.front == 0) ≡ true = ground (arith, e) in simp nothing

push_front_before :
    (new d : ℕ) (l : Ends) (h h1 : Store)
    → l.front ≢ 0
    → set_prev l.front new (put new (record { next = l.front; prev = 0; content = d }) h) ≡ some h1
    → push_front new d l h ≡ some (record l { front = new; count = l.count + 1 }, h1, 0)
unfolding push_front
push_front_before new d l h h1 ne e =
    let some_left : (l.front == 0) ≡ false = ground (arith, ne) in simp (some_left, e)

-- A push at the front puts a node before the others, and what is behind it stays as it is.
pub push_front-IsList :
    (h : Store) (l : Ends) (new d : ℕ)
    → new ≢ 0
    → h new ≡ none
    → (ns : Nodes) → IsList h l ns
    → Leaves ((new, d) ∷ ns) 0 (push_front new d l h)
push_front-IsList h l new d ne fresh [] is = record {
  ends = record { front = new; back = new; count = l.count + 1 };
  store = put new (record { next = l.front; prev = 0; content = d }) h;
  is = push_front_first new d l h is.front_is;
  list = record {
    links = (
      ne,
      put_same h new (record { next = l.front; prev = 0; content = d })
          ∙ ap (λ (n : ℕ). some (record { next = n; prev = 0; content = d })) is.front_is,
      tt,
    );
    distinct = (tt, tt);
    front_is = refl;
    back_is = refl;
    count_is = omega (arith, is.count_is);
  };
}
push_front-IsList h l new d ne fresh ((b, e) ∷ ms) is =
    let x = is.links in
    let apart = Apart-of_fresh h 0 0 new ((b, e) ∷ ms) fresh x in
    let made = put new (record { next = l.front; prev = 0; content = d }) h in
    let old : Node = record { next = first_of ms 0; prev = 0; content = e } in
    let there : made l.front ≡ some old = ap made is.front_is ∙ put_other h new b _ apart.0 ∙ x.1 in
    let done = put l.front (record old { prev = new }) made in
    let away : new ≢ l.front = λ same. apart.0 (sym (same ∙ is.front_is)) in
    record {
      ends = record l { front = new; count = l.count + 1 };
      store = done;
      is =
          push_front_before new d l h done (λ z. x.0 (sym is.front_is ∙ z))
            (set_prev_found made l.front new old there);
      list = record {
        links = (
          ne,
          put_other made l.front new (record old { prev = new }) away
              ∙ put_same h new (record { next = l.front; prev = 0; content = d })
              ∙ ap (λ (n : ℕ). some (record { next = n; prev = 0; content = d })) is.front_is,
          (
            x.0,
            ap done (sym is.front_is) ∙ put_same made l.front (record old { prev = new }),
            Links-put made b 0 l.front ms (record old { prev = new }) (moved ms is.distinct.0)
                (Links-put h b 0 new ms _ apart.1 x.2),
          ),
        );
        distinct = (apart, is.distinct);
        front_is = refl;
        back_is = is.back_is;
        count_is = omega (arith, is.count_is);
      };
    }
  where
    moved : (ns : Nodes) → Apart b ns → Apart l.front ns
    moved [] p = tt
    moved ((c, f) ∷ ns) p = ((λ same. p.0 (same ∙ is.front_is)), moved ns p.1)
