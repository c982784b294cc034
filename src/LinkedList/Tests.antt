-- ===== src/LinkedList/Tests.antt =====
-- A list of two.
use ezgrpc.Prelude.{refl, none, [], ◌∷◌, ◌++◌, arith}
use ezgrpc.LinkedList.{Store, put, Ends, push_back, pop_front}
use ezgrpc.LinkedList.Links.{Nodes, IsList}
use ezgrpc.LinkedList.Queue.{Leaves, push_back-IsList}
use ezgrpc.LinkedList.Pop.{pop_front-IsList}

abbrev two : Ends
two = record { front = 10; back = 20; count = 2 }

abbrev store : Store
store =
    put 10 (record { next = 20; prev = 0; content = 5 })
      (put 20 (record { next = 0; prev = 10; content = 6 }) (λ a. none))

abbrev nodes : Nodes
nodes = (10, 5) ∷ (20, 6) ∷ []

two-IsList : IsList store two nodes
two-IsList = record {
  links = ((omega arith), refl, (omega arith, refl, tt));
  distinct = ((omega arith, tt), (tt, tt));
  front_is = refl;
  back_is = refl;
  count_is = refl;
}

push_back-IsList_example : Leaves (nodes ++ (30, 7) ∷ []) 0 (push_back 30 7 two store)
push_back-IsList_example = push_back-IsList store two 30 7 (omega arith) refl nodes two-IsList

pop_front-IsList_example : Leaves ((20, 6) ∷ []) 5 (pop_front two store)
pop_front-IsList_example = pop_front-IsList store two nodes two-IsList

-- The list of two, with another of one node in the same store.
abbrev both : Store
both = put 40 (record { next = 0; prev = 0; content = 8 }) store

two_of_both-IsList : IsList both two nodes
two_of_both-IsList = record {
  links = ((omega arith), refl, (omega arith, refl, tt));
  distinct = ((omega arith, tt), (tt, tt));
  front_is = refl;
  back_is = refl;
  count_is = refl;
}

abbrev one : Ends
one = record { front = 40; back = 40; count = 1 }

one-IsList : IsList both one ((40, 8) ∷ [])
one-IsList = record {
  links = ((omega arith), refl, tt);
  distinct = (tt, tt);
  front_is = refl;
  back_is = refl;
  count_is = refl;
}
