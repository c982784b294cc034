-- ===== src/LogPool/Held.antt =====
-- The tasks that the workers of a pool have.
use ezgrpc.Prelude.{
  ℕ, zero, suc, ◌≡◌, refl, ap, ◌∙◌, some, List, [], ◌∷◌, ◌++◌, map, set, get_elem?, replicate,
  length, ◌<◌, arith,
}
use mathlib.Core.List.{Perm, perm_middle}
use mathlib.Core.List.Perm
use ezgrpc.LogPool.{Task, Worker, woken}

abbrev pub task_of : Worker → List Task
task_of (Worker.working t) = t ∷ []
task_of _ = []

abbrev pub held : List Worker → List Task
held [] = []
held (w ∷ ws) = task_of w ++ held ws

pub held-woken : (ws : List Worker) → held (map woken ws) ≡ held ws
held-woken [] = refl
held-woken (Worker.starting ∷ ws) = held-woken ws
held-woken (Worker.idle ∷ ws) = held-woken ws
held-woken (Worker.waiting ∷ ws) = held-woken ws
held-woken (Worker.gone ∷ ws) = held-woken ws
held-woken (Worker.working t ∷ ws) = rw (held-woken ws)

pub held-replicate : (n : ℕ) → held (replicate n Worker.starting) ≡ []
held-replicate zero = refl
held-replicate (suc n) = held-replicate n

head : {v w : Worker} → some v ≡ some w → v ≡ w
head e = cc

-- A worker that takes a task.
pub held-takes :
    (ws : List Worker) (i : ℕ) (w : Worker) (t : Task)
    → get_elem? ws i ≡ some w
    → task_of w ≡ []
    → Perm (held (set ws i (Worker.working t))) (t ∷ held ws)
held-takes [] i w t e f = cc
held-takes (v ∷ ws) zero w t e f =
    let h : task_of v ≡ [] = ap task_of (head e) ∙ f in rw h (Perm.refl (t ∷ held ws))
held-takes (v ∷ ws) (suc i) w t e f =
    Perm.trans (Perm.append_left (task_of v) (held-takes ws i w t e f))
      (perm_middle (task_of v) (held ws))

-- One that has run it.
pub held-runs :
    (ws : List Worker) (i : ℕ) (t : Task)
    → get_elem? ws i ≡ some (Worker.working t)
    → Perm (t ∷ held (set ws i Worker.idle)) (held ws)
held-runs [] i t e = cc
held-runs (v ∷ ws) zero t e =
    let h : task_of v ≡ t ∷ [] = ap task_of (head e) in rw h (Perm.refl (t ∷ held ws))
held-runs (v ∷ ws) (suc i) t e =
    Perm.trans (Perm.symm (perm_middle (task_of v) (held (set ws i Worker.idle))))
      (Perm.append_left (task_of v) (held-runs ws i t e))

-- A step that neither takes nor runs.
pub held-same :
    (ws : List Worker) (i : ℕ) (w w' : Worker)
    → get_elem? ws i ≡ some w
    → task_of w ≡ task_of w'
    → held (set ws i w') ≡ held ws
held-same [] i w w' e f = cc
held-same (v ∷ ws) zero w w' e f =
    let h : task_of v ≡ task_of w' = ap task_of (head e) ∙ f in rw h refl
held-same (v ∷ ws) (suc i) w w' e f = rw (held-same ws i w w' e f)

pub get_elem-length :
    (ws : List Worker) (i : ℕ) (w : Worker) → get_elem? ws i ≡ some w → i < length ws
get_elem-length [] i w e = cc
get_elem-length (v ∷ ws) zero w e = omega arith
get_elem-length (v ∷ ws) (suc i) w e = omega (arith, get_elem-length ws i w e)
