-- ===== src/LinkedList/Links.antt =====
-- The nodes of a list, in order.
use ezgrpc.Prelude.{ℕ, ◌≡◌, ◌≢◌, refl, sym, ap, ◌∙◌, none, some, List, [], ◌∷◌, ◌++◌, arith, length}
use ezgrpc.LinkedList.{Node, Store, put, Ends}

-- The address and the data of each node.
abbrev pub Nodes : Type 0
Nodes = List (ℕ × ℕ)

abbrev pub first_of : Nodes → ℕ → ℕ
first_of [] after = after
first_of ((a, d) ∷ ns) after = a

abbrev pub last_of : ℕ → Nodes → ℕ
last_of before [] = before
last_of before ((a, d) ∷ ns) = last_of a ns

-- `ns` stand in the store, linked in both directions, between a node at `before` and one at `after`.
abbrev pub Links : Store → ℕ → Nodes → ℕ → Type 0
Links h before [] after = Unit {0}
Links h before ((a, d) ∷ ns) after =
    (a ≢ 0)
    × (h a ≡ some (record { next = first_of ns after; prev = before; content = d }))
    × Links h a ns after

-- No node of `ns` has the address `a`.
abbrev pub Apart : ℕ → Nodes → Type 0
Apart a [] = Unit {0}
Apart a ((b, d) ∷ ns) = (b ≢ a) × Apart a ns

abbrev pub Distinct : Nodes → Type 0
Distinct [] = Unit {0}
Distinct ((a, d) ∷ ns) = Apart a ns × Distinct ns

pub record IsList (h : Store) (l : Ends) (ns : Nodes) : Type 0 where
  pub links : Links h 0 ns 0
  pub distinct : Distinct ns
  pub front_is : l.front ≡ first_of ns 0
  pub back_is : l.back ≡ last_of 0 ns
  pub count_is : l.count ≡ length ns

-- A node elsewhere may be written.
pub Links-put :
    (h : Store) (before after a : ℕ) (ns : Nodes) (n : Node)
    → Apart a ns
    → Links h before ns after
    → Links (put a n h) before ns after
Links-put h before after a [] n apart l = tt
Links-put h before after a ((b, d) ∷ ns) n apart l =
    (l.0, other ∙ l.1, Links-put h b after a ns n apart.1 l.2)
  where
    other : put a n h b ≡ h b
    other = ground (arith, apart.0)

pub put_same : (h : Store) (a : ℕ) (n : Node) → put a n h a ≡ some n
put_same h a n = ground arith

pub put_other : (h : Store) (a b : ℕ) (n : Node) → b ≢ a → put a n h b ≡ h b
put_other h a b n ne = ground (arith, ne)

-- A fresh address is that of no node.
pub Apart-of_fresh :
    (h : Store) (before after a : ℕ) (ns : Nodes)
    → h a ≡ none
    → Links h before ns after
    → Apart a ns
Apart-of_fresh h before after a [] e l = tt
Apart-of_fresh h before after a ((b, d) ∷ ns) e l =
    ((λ same. differ (sym (ap h same) ∙ l.1)), Apart-of_fresh h b after a ns e l.2)
  where
    differ : ¬ (h a ≡ some (record { next = first_of ns after; prev = before; content = d }))
    differ f = cc

pub Links-append :
    (h : Store) (before after : ℕ) (xs ys : Nodes)
    → Links h before xs (first_of ys after)
    → Links h (last_of before xs) ys after
    → Links h before (xs ++ ys) after
Links-append h before after [] ys l m = m
Links-append h before after ((a, d) ∷ xs) ys l m = (
  l.0,
  l.1 ∙ ap (λ n. some (record { next = n; prev = before; content = d })) (joint xs ys),
  Links-append h a after xs ys l.2 m,
)
  where
    joint : (xs ys : Nodes) → first_of xs (first_of ys after) ≡ first_of (xs ++ ys) after
    joint [] ys = refl
    joint ((a, d) ∷ xs) ys = refl

-- The last node of a list, of which the next node may be changed.
pub record Last (h : Store) (before : ℕ) (ns : Nodes) : Type 0 where
  pub node : Node
  pub is : h (last_of before ns) ≡ some node
  pub relinks : (n : ℕ) → Links (put (last_of before ns) (record node { next = n }) h) before ns n
  pub nonzero : last_of before ns ≢ 0
  pub member : (k : ℕ) → Apart k ns → last_of before ns ≢ k

pub Links-Last :
    (h : Store) (before after a d : ℕ) (ns : Nodes)
    → Distinct ((a, d) ∷ ns)
    → Links h before ((a, d) ∷ ns) after
    → Last h before ((a, d) ∷ ns)
Links-Last h before after a d [] distinct l = record {
  node = record { next = after; prev = before; content = d };
  is = l.1;
  relinks = λ n. (l.0, put_same h a (record { next = n; prev = before; content = d }), tt);
  nonzero = l.0;
  member = λ k apart. apart.0;
}
Links-Last h before after a d ((b, e) ∷ ns) distinct l =
    let rest = Links-Last h a after b e ns distinct.1 l.2 in
    record {
      node = rest.node;
      is = rest.is;
      relinks = λ n. (
        l.0,
        put_other h (last_of b ns) a (record (rest.node) { next = n })
              (λ same. rest.member a distinct.0 (sym same))
            ∙ l.1,
        rest.relinks n,
      );
      nonzero = rest.nonzero;
      member = λ k apart. rest.member k apart.1;
    }
