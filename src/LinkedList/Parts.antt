-- ===== src/LinkedList/Parts.antt =====
-- The parts of a list before and behind a node.
use ezgrpc.Prelude.{ℕ, ◌≡◌, refl, sym, ap, ◌∙◌, some, [], ◌∷◌, ◌++◌}
use ezgrpc.LinkedList.{Store}
use ezgrpc.LinkedList.Links.{Nodes, first_of, last_of, Links, Apart, Distinct}
use ezgrpc.LinkedList.Concat.{Disjoint}

pub Distinct-parts :
    (xs ys : Nodes) → Distinct (xs ++ ys) → Distinct xs × Distinct ys × Disjoint xs ys
Distinct-parts [] ys p = (tt, p, tt)
Distinct-parts ((a, d) ∷ xs) ys p =
    let r = Distinct-parts xs ys p.1 in
    let q = Apart-parts a xs ys p.0 in ((q.0, r.0), r.1, (q.1, r.2))
  where
    Apart-parts : (a : ℕ) (xs ys : Nodes) → Apart a (xs ++ ys) → Apart a xs × Apart a ys
    Apart-parts a [] ys p = (tt, p)
    Apart-parts a ((b, e) ∷ xs) ys p = let r = Apart-parts a xs ys p.1 in ((p.0, r.0), r.1)

pub Disjoint-tail :
    (xs : Nodes) (a d : ℕ) (ys : Nodes) → Disjoint xs ((a, d) ∷ ys) → Disjoint xs ys × Apart a xs
Disjoint-tail [] a d ys p = (tt, tt)
Disjoint-tail ((b, e) ∷ xs) a d ys p =
    let r = Disjoint-tail xs a d ys p.1 in ((p.0.1, r.0), ((λ same. p.0.0 (sym same)), r.1))

pub Disjoint-sym : (xs ys : Nodes) → Disjoint xs ys → Disjoint ys xs
Disjoint-sym xs [] p = tt
Disjoint-sym xs ((b, e) ∷ ys) p = let r = Disjoint-tail xs b e ys p in (r.1, Disjoint-sym xs ys r.0)

-- A store that differs only at other nodes.
pub Links-kept :
    (h h1 : Store) (before after : ℕ) (xs ys : Nodes)
    → ((k : ℕ) → Apart k ys → h1 k ≡ h k)
    → Disjoint xs ys
    → Links h before xs after
    → Links h1 before xs after
Links-kept h h1 before after [] ys kept p l = tt
Links-kept h h1 before after ((a, d) ∷ xs) ys kept p l =
    (l.0, kept a p.0 ∙ l.1, Links-kept h h1 a after xs ys kept p.1 l.2)

pub Disjoint-append : (xs ys zs : Nodes) → Disjoint xs (ys ++ zs) → Disjoint xs ys
Disjoint-append [] ys zs p = tt
Disjoint-append ((a, d) ∷ xs) ys zs p = (front a ys p.0, Disjoint-append xs ys zs p.1)
  where
    front : (a : ℕ) (ys : Nodes) → Apart a (ys ++ zs) → Apart a ys
    front a [] q = tt
    front a ((b, e) ∷ ys) q = (q.0, front a ys q.1)

pub Links-parts :
    (h : Store) (before : ℕ) (xs : Nodes) (a d : ℕ) (ys : Nodes)
    → Links h before (xs ++ (a, d) ∷ ys) 0
    → Links h before xs a × Links h (last_of before xs) ((a, d) ∷ ys) 0
Links-parts h before [] a d ys l = (tt, l)
Links-parts h before ((b, e) ∷ xs) a d ys l =
    let r = Links-parts h b xs a d ys l.2 in
    (
      (l.0, l.1 ∙ ap (λ n. some (record { next = n; prev = before; content = e })) (joint xs), r.0),
      r.1,
    )
  where
    joint : (xs : Nodes) → first_of (xs ++ (a, d) ∷ ys) 0 ≡ first_of xs a
    joint [] = refl
    joint ((c, f) ∷ xs) = refl

pub last_of-parts :
    (before : ℕ) (xs : Nodes) (a d : ℕ) (ys : Nodes)
    → last_of before (xs ++ (a, d) ∷ ys) ≡ last_of a ys
last_of-parts before [] a d ys = refl
last_of-parts before ((b, e) ∷ xs) a d ys = last_of-parts b xs a d ys

pub last_of-append :
    (before : ℕ) (xs ys : Nodes) → last_of (last_of before xs) ys ≡ last_of before (xs ++ ys)
last_of-append before [] ys = refl
last_of-append before ((b, e) ∷ xs) ys = last_of-append b xs ys
