-- ===== src/LinkedList/Walk.antt =====
-- To go through a list.
use ezgrpc.Prelude.{
  ℕ, zero, suc, ◌+◌, ◌<◌, ◌≡◌, ◌≢◌, refl, ap, ◌∙◌, false, some, List, [], ◌∷◌, length, arith, ◌==◌,
}
use ezgrpc.LinkedList.{Node, Store, Ends, walk, foreach, list_count, list_is_empty}
use ezgrpc.LinkedList.Links.{Nodes, Links, IsList, first_of}

abbrev pub contents : Nodes → List ℕ
contents [] = []
contents ((a, d) ∷ ns) = d ∷ contents ns

walk_on :
    (fuel a : ℕ) (h : Store) (node : Node) (ds : List ℕ)
    → a ≢ 0
    → h a ≡ some node
    → walk fuel node.next h ≡ some ds
    → walk (suc fuel) a h ≡ some (node.content ∷ ds)
unfolding walk
walk_on fuel a h node ds ne e f =
    let more : (a == 0) ≡ false = ground (arith, ne) in rw (more, e) (rw (f, walk) refl)

walk-Links :
    (h : Store) (before : ℕ) (ns : Nodes) (fuel : ℕ)
    → Links h before ns 0
    → length ns < fuel
    → walk fuel (first_of ns 0) h ≡ some (contents ns)
unfolding walk
walk-Links h before ns zero l enough = absurd (omega arith)
walk-Links h before [] (suc fuel) l enough = refl
walk-Links h before ((a, d) ∷ ns) (suc fuel) l enough =
    walk_on fuel a h (record { next = first_of ns 0; prev = before; content = d }) (contents ns) l.0
      l.1 (walk-Links h a ns fuel l.2 (omega arith))

-- To go through a list calls the function with the data of each node once, in order, and returns; the
-- count is that of the nodes, and says whether there are any.
pub foreach-IsList :
    (h : Store) (l : Ends) (ns : Nodes)
    → IsList h l ns
    → (foreach l h ≡ some (contents ns))
      × (list_count l ≡ length ns)
      × (list_is_empty l ≡ (length ns == 0))
unfolding foreach list_count list_is_empty
foreach-IsList h l ns is = (
  ap (λ a. walk (l.count + 1) a h) is.front_is
      ∙ walk-Links h 0 ns (l.count + 1) is.links (omega (arith, is.count_is)),
  is.count_is,
  ap (λ (n : ℕ). n == 0) is.count_is,
)
