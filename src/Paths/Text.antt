-- ===== src/Paths/Text.antt =====
-- `strncpy` and `strcmp`.
use ezgrpc.Prelude.{
  ℕ, zero, suc, ◌<◌, ◌≡◌, ◌≢◌, refl, true, List, [], ◌∷◌, ◌++◌, arith, length, take, replicate,
}
use ezgrpc.Wire.{Byte}
use ezgrpc.Paths.{strncpy, streq}

-- A C string: no byte of it is zero.
abbrev pub IsText : List Byte → Type 0
IsText [] = Unit {0}
IsText (c ∷ cs) = (c ≢ 0) × IsText cs

streq-pad :
    (s : List Byte) (n k : ℕ)
    → IsText s
    → length s < n
    → streq s (take n (s ++ replicate (suc k) 0)) ≡ true
unfolding streq
streq-pad [] zero k t h = elim h [ ]
streq-pad [] (suc n) k t h = refl
streq-pad (c ∷ cs) zero k t h = elim h [ ]
streq-pad (c ∷ cs) (suc n) k t h = ground (arith, streq-pad cs n k t.1)

-- A text that leaves room for its zero byte is equal to what `strncpy` stores of it.
pub streq-strncpy :
    (s : List Byte) (n : ℕ) → IsText s → length s < suc n → streq s (strncpy (suc n) s) ≡ true
unfolding strncpy
streq-strncpy s n t h = streq-pad s (suc n) n t h

-- An array is equal to one text at most.
pub eq_of_streq :
    (s s' : List Byte) (b : List Byte)
    → IsText s
    → IsText s'
    → streq s b ≡ true
    → streq s' b ≡ true
    → s ≡ s'
unfolding streq
eq_of_streq [] [] b t t' e e' = refl
eq_of_streq [] (c ∷ cs) [] t t' e e' = cc
eq_of_streq [] (c ∷ cs) (x ∷ b) t t' e e' = ground arith
eq_of_streq (c ∷ cs) [] [] t t' e e' = cc
eq_of_streq (c ∷ cs) [] (x ∷ b) t t' e e' = ground arith
eq_of_streq (c ∷ cs) (c' ∷ cs') [] t t' e e' = cc
eq_of_streq (c ∷ cs) (c' ∷ cs') (x ∷ b) t t' e e' = ground (arith, eq_of_streq cs cs' b t.1 t'.1)
