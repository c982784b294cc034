-- ===== src/Pool/Counts.antt =====
-- Sums over the workers and the tasks of a pool.
use ezgrpc.Prelude.{
  ℕ, zero, suc, ◌+◌, ◌≤◌, ◌≡◌, refl, Bool, some, List, [], ◌∷◌, ◌++◌, map, set, get_elem?,
  replicate, if◌then◌else◌, ◌==◌, arith,
}
use ezgrpc.Pool.{Task, Worker, woken}

abbrev pub total : (Worker → ℕ) → List Worker → ℕ
total f [] = 0
total f (w ∷ ws) = f w + total f ws

pub total-set :
    (f : Worker → ℕ) (ws : List Worker) (i : ℕ) (w w' : Worker)
    → get_elem? ws i ≡ some w
    → total f (set ws i w') + f w ≡ total f ws + f w'
total-set f [] i w w' e = cc
total-set f (v ∷ ws) zero w w' e = ground arith
total-set f (v ∷ ws) (suc i) w w' e = omega (arith, total-set f ws i w w' e)

-- Waking the workers changes nothing that is the same for an idle and for a waiting one.
pub total-woken :
    (f : Worker → ℕ) (ws : List Worker)
    → f Worker.idle ≡ f Worker.waiting
    → total f (map woken ws) ≡ total f ws
total-woken f [] e = refl
total-woken f (Worker.starting ∷ ws) e = omega (arith, total-woken f ws e)
total-woken f (Worker.idle ∷ ws) e = omega (arith, total-woken f ws e)
total-woken f (Worker.waiting ∷ ws) e = omega (arith, total-woken f ws e)
total-woken f (Worker.gone ∷ ws) e = omega (arith, total-woken f ws e)
total-woken f (Worker.working t ∷ ws) e = omega (arith, total-woken f ws e)
total-woken f (Worker.ran t ∷ ws) e = omega (arith, total-woken f ws e)

pub total-replicate :
    (f : Worker → ℕ) (n : ℕ) → f Worker.starting ≡ 0 → total f (replicate n Worker.starting) ≡ 0
total-replicate f zero e = refl
total-replicate f (suc n) e = omega (arith, total-replicate f n e)

pub total-elem :
    (f : Worker → ℕ) (ws : List Worker) (i : ℕ) (w : Worker)
    → get_elem? ws i ≡ some w
    → f w ≤ total f ws
total-elem f [] i w e = cc
total-elem f (v ∷ ws) zero w e = ground arith
total-elem f (v ∷ ws) (suc i) w e = omega (arith, total-elem f ws i w e)

-- Those with a task.
abbrev pub busy : Worker → ℕ
busy (Worker.working t) = 1
busy (Worker.ran t) = 1
busy _ = 0

-- Those within their loop.
abbrev pub alive : Worker → ℕ
alive Worker.starting = 0
alive Worker.gone = 0
alive _ = 1

abbrev pub asleep : Worker → ℕ
asleep Worker.waiting = 1
asleep _ = 0

pub asleep-woken : (ws : List Worker) → total asleep (map woken ws) ≡ 0
asleep-woken [] = refl
asleep-woken (Worker.starting ∷ ws) = omega (arith, asleep-woken ws)
asleep-woken (Worker.idle ∷ ws) = omega (arith, asleep-woken ws)
asleep-woken (Worker.waiting ∷ ws) = omega (arith, asleep-woken ws)
asleep-woken (Worker.gone ∷ ws) = omega (arith, asleep-woken ws)
asleep-woken (Worker.working t ∷ ws) = omega (arith, asleep-woken ws)
asleep-woken (Worker.ran t ∷ ws) = omega (arith, asleep-woken ws)

-- How often the task of an address is in a list, and whether a worker has it.
abbrev pub one_if : Bool → ℕ
one_if b = if b then 1 else 0

abbrev pub count : ℕ → List Task → ℕ
count k [] = 0
count k (t ∷ ts) = one_if (t.address == k) + count k ts

pub count-append : (k : ℕ) (xs ys : List Task) → count k (xs ++ ys) ≡ count k xs + count k ys
count-append k [] ys = omega arith
count-append k (x ∷ xs) ys = omega (arith, count-append k xs ys)

abbrev pub has : ℕ → Worker → ℕ
has k (Worker.working t) = one_if (t.address == k)
has k (Worker.ran t) = one_if (t.address == k)
has k _ = 0
