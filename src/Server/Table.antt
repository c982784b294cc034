-- ===== src/Server/Table.antt =====
-- The table of sessions as a whole.
use ezgrpc.Prelude.{
  ℕ, zero, suc, ◌+◌, ◌≡◌, ◌⊎◌, refl, inl, inr, subst, none, some, List, [], ◌∷◌, set, get_elem?,
  arith, Option-cases,
}
use ezgrpc.Server.{Slot, get_unused_pollfd_ndx}

-- The entry of index `i`: it is free, with no session, or its descriptor and index are those of its
-- session.
pub record IsOpen (i : ℕ) (s : Slot) : Type 0 where
  pub fd : ℕ
  pub fd_is : s.fd ≡ some fd
  pub sockfd_is : s.sockfd ≡ fd
  pub index_is : s.session_uuid.index ≡ i

pub record IsFree (s : Slot) : Type 0 where
  pub fd_is : s.fd ≡ none
  pub index_is : s.session_uuid.index ≡ 0

abbrev pub IsSlot : ℕ → Slot → Type 0
IsSlot i s = IsFree s ⊎ IsOpen i s

abbrev pub IsTable : ℕ → List Slot → Type 0
IsTable i [] = Unit {0}
IsTable i (s ∷ ss) = IsSlot i s × IsTable (i + 1) ss

pub IsTable-set :
    (i j : ℕ) (ss : List Slot) (s : Slot) → IsTable i ss → IsSlot (i + j) s → IsTable i (set ss j s)
IsTable-set i j [] s t p = tt
IsTable-set i zero (r ∷ ss) s t p = (subst (λ k. IsSlot k s) (omega arith) p, t.1)
IsTable-set i (suc j) (r ∷ ss) s t p =
    (t.0, IsTable-set (i + 1) j ss s t.1 (subst (λ k. IsSlot k s) (omega arith) p))

pub record Unused (i : ℕ) (ss : List Slot) (k : ℕ) : Type 0 where
  pub j : ℕ
  pub slot : Slot
  pub place : k ≡ i + j
  pub is : get_elem? ss j ≡ some slot
  pub free : slot.fd ≡ none

later : {i k : ℕ} {s : Slot} {ss : List Slot} → Unused (i + 1) ss k → Unused i (s ∷ ss) k
later u = record {
  j = suc (u.j);
  slot = u.slot;
  place = omega (arith, u.place);
  is = u.is;
  free = u.free;
}

-- The entry that is found is unused.
pub get_unused_pollfd_ndx-Unused :
    (i : ℕ) (ss : List Slot) (k : ℕ) → get_unused_pollfd_ndx i ss ≡ some k → Unused i ss k
unfolding get_unused_pollfd_ndx
get_unused_pollfd_ndx-Unused i [] k e = cc
get_unused_pollfd_ndx-Unused i (s ∷ ss) k e = elim (Option-cases s.fd) [
  | inl f ↦ record { j = 0; slot = s; place = here f; is = refl; free = f }
  | inr (c, f) ↦ later (get_unused_pollfd_ndx-Unused (i + 1) ss k (there c f))
]
  where
    here : s.fd ≡ none → k ≡ i + 0
    here f = ground arith

    there : (c : ℕ) → s.fd ≡ some c → get_unused_pollfd_ndx (i + 1) ss ≡ some k
    there c f = ground arith
