-- ===== src/LinkedList.antt =====
-- ezgrpc2_list.c: the doubly linked list, with its nodes in a store. Pointers are numbers, and NULL
-- is 0.
pub mod Links
pub mod Queue
pub mod Pop
pub mod Concat
pub mod Back
pub mod Parts
pub mod Remove
pub mod Front
pub mod Walk
mod Tests
use ezgrpc.Prelude.{
  ℕ, zero, suc, ◌+◌, ◌-◌, Bool, true, false, not, Option, none, some, List, [], ◌∷◌, if◌then◌else◌,
  ◌==◌,
}

pub record Node : Type 0 where
  pub next : ℕ
  pub prev : ℕ
  pub content : ℕ

-- The nodes that are allocated.
abbrev pub Store : Type 0
Store = ℕ → Option Node

abbrev pub put : ℕ → Node → Store → Store
put a n h = λ b. if b == a then some n else h b

abbrev pub free : ℕ → Store → Store
free a h = λ b. if b == a then none else h b

-- `struct ezgrpc2_list`
pub record Ends : Type 0 where
  pub front : ℕ
  pub back : ℕ
  pub count : ℕ

abbrev pub list_new : Ends
list_new = record { front = 0; back = 0; count = 0 }

-- `a->next = n` and `a->prev = n`; `none` where there is no node.
unfoldable pub set_next : ℕ → ℕ → Store → Option Store
set_next a n h = elim (h a) [ none ↦ none | some node ↦ some (put a (record node { next = n }) h) ]

unfoldable pub set_prev : ℕ → ℕ → Store → Option Store
set_prev a n h = elim (h a) [ none ↦ none | some node ↦ some (put a (record node { prev = n }) h) ]

-- What an operation leaves, with the data or the value that it returns; `none` is a dereference of
-- NULL or of a freed node, or a failed assertion.
abbrev pub Outcome : Type 0
Outcome = Option (Ends × Store × ℕ)

-- `new` is the address that `malloc` gives.
unfoldable pub push_back : ℕ → ℕ → Ends → Store → Outcome
unfolding set_next set_prev
push_back new content l h =
    let made : Store = put new (record { next = 0; prev = 0; content = content }) h in
    let behind : Outcome = elim (set_next l.back new made) [
      | none ↦ none
      | some h1 ↦ elim (set_prev new l.back h1) [
        | none ↦ none
        | some h2 ↦ some (record l { back = new; count = l.count + 1 }, h2, 0)
      ]
    ] in
    if not (l.back == 0)
    then behind
    else some (record { front = new; back = new; count = l.count + 1 }, made, 0)

unfoldable pub push_front : ℕ → ℕ → Ends → Store → Outcome
unfolding set_prev
push_front new content l h =
    let made : Store = put new (record { next = l.front; prev = 0; content = content }) h in
    let before : Outcome = elim (set_prev l.front new made) [
      | none ↦ none
      | some h1 ↦ some (record l { front = new; count = l.count + 1 }, h1, 0)
    ] in
    if not (l.front == 0)
    then before
    else some (record { front = new; back = new; count = l.count + 1 }, made, 0)

-- The node that was the first is not freed.
unfoldable pub pop_front : Ends → Store → Outcome
unfolding set_prev
pop_front l h = if l.count == 0 then some (l, h, 0) else elim (h l.front) [
  | none ↦ none
  | some node ↦
      let rest : Outcome = elim (set_prev node.next 0 h) [
        | none ↦ none
        | some h1 ↦ some (record l { front = node.next; count = l.count - 1 }, h1, node.content)
      ] in
      if not (node.next == 0)
      then rest
      else if l.count == 1
      then some (record { front = 0; back = 0; count = 0 }, h, node.content)
      else none
]

-- The node that was the last is not freed.
unfoldable pub pop_back : Ends → Store → Outcome
unfolding set_next
pop_back l h = if l.count == 0 then some (l, h, 0) else elim (h l.back) [
  | none ↦ none
  | some node ↦
      let rest : Outcome = elim (set_next node.prev 0 h) [
        | none ↦ none
        | some h1 ↦ some (record l { back = node.prev; count = l.count - 1 }, h1, node.content)
      ] in
      if not (node.prev == 0)
      then rest
      else if l.count == 1
      then some (record { front = 0; back = 0; count = 0 }, h, node.content)
      else none
]

-- NULL for an empty list; `none` where there is no node.
unfoldable pub peek_front : Ends → Store → Option ℕ
peek_front l h =
    let content : Option ℕ = elim (h l.front) [ none ↦ none | some node ↦ some node.content ] in
    if not (l.front == 0) then content else some 0

unfoldable pub peek_back : Ends → Store → Option ℕ
peek_back l h =
    let content : Option ℕ = elim (h l.back) [ none ↦ none | some node ↦ some node.content ] in
    if not (l.back == 0) then content else some 0

-- The first node that `cmp` returns 0 for, from the node at `a` on: its address, or 0; on fuel.
-- `matches` says whether `cmp` returns 0.
unfoldable pub seek : ℕ → (ℕ → Bool) → ℕ → Store → Option ℕ
seek zero matches a h = none
seek (suc fuel) matches a h =
    let next : Option ℕ = elim (h a) [
      | none ↦ none
      | some node ↦
          let rest = seek fuel matches node.next h in if matches node.content then some a else rest
    ] in
    if a == 0 then some 0 else next

-- One more round than there are nodes is enough.
unfoldable pub find : (ℕ → Bool) → Ends → Store → Option ℕ
unfolding seek
find matches l h = elim (seek (l.count + 1) matches l.front h) [
  | none ↦ none
  | some a ↦
      let found : Option ℕ = elim (h a) [ none ↦ none | some node ↦ some node.content ] in
      if a == 0 then some 0 else found
]

unfoldable pub list_count : Ends → ℕ
list_count l = l.count

unfoldable pub list_is_empty : Ends → Bool
list_is_empty l = l.count == 0

-- What the function is called with, from the node at `a` on, where it leaves the list as it is; on
-- fuel.
unfoldable pub walk : ℕ → ℕ → Store → Option (List ℕ)
walk zero a h = none
walk (suc fuel) a h =
    let next : Option (List ℕ) = elim (h a) [
      | none ↦ none
      | some node ↦ elim (walk fuel node.next h) [
        | none ↦ none
        | some ds ↦ some (node.content ∷ ds)
      ]
    ] in
    if a == 0 then some [] else next

-- One more round than there are nodes is enough.
unfoldable pub foreach : Ends → Store → Option (List ℕ)
unfolding walk
foreach l h = walk (l.count + 1) l.front h

-- What is before and what is behind the node that is removed.
abbrev pub link_prev : Node → Ends → Store → Option (Ends × Store)
link_prev node l h =
    let linked : Option (Ends × Store) = elim (set_next node.prev node.next h) [
      | none ↦ none
      | some h1 ↦ some (l, h1)
    ] in
    if not (node.prev == 0) then linked else some (record l { front = node.next }, h)

abbrev pub link_next : Node → Ends → Store → Option (Ends × Store)
link_next node l h =
    let linked : Option (Ends × Store) = elim (set_prev node.next node.prev h) [
      | none ↦ none
      | some h1 ↦ some (l, h1)
    ] in
    if not (node.next == 0) then linked else some (record l { back = node.prev }, h)

-- The first node that matches, taken out and freed.
unfoldable pub remove : (ℕ → Bool) → Ends → Store → Outcome
unfolding seek set_next set_prev
remove matches l h = elim (seek (l.count + 1) matches l.front h) [
  | none ↦ none
  | some a ↦
      let taken : Outcome = elim (h a) [
        | none ↦ none
        | some node ↦ elim (link_prev node l h) [
          | none ↦ none
          | some (l1, h1) ↦ elim (link_next node l1 h1) [
            | none ↦ none
            | some (l2, h2) ↦ some (record l2 { count = l2.count - 1 }, free a h2, node.content)
          ]
        ]
      ] in
      if a == 0 then some (l, h, 0) else taken
]

-- The two lists after the one is hung behind the other: `dst`, `src` and the store.
unfoldable pub concat_and_empty_src : Ends → Ends → Store → Option (Ends × Ends × Store)
unfolding set_next set_prev
concat_and_empty_src dst src h =
    let joined : Ends = record {
      front = if not (dst.front == 0) then dst.front else src.front;
      back = src.back;
      count = dst.count + src.count;
    } in
    let hung : Option (Ends × Ends × Store) = elim (set_next dst.back src.front h) [
      | none ↦ none
      | some h1 ↦ elim (set_prev src.front dst.back h1) [
        | none ↦ none
        | some h2 ↦ some (joined, list_new, h2)
      ]
    ] in
    if src.count == 0
    then some (dst, src, h)
    else if not (dst.back == 0)
    then hung
    else some (joined, list_new, h)
