-- ===== src/Status.antt =====
-- ezgrpc2_grpc_status.c, and the decimal form that `snprintf("%d")` gives a status.
use ezgrpc.Prelude.{
  ℕ, zero, suc, ◌+◌, ◌/◌, ◌%◌, List, [], ◌∷◌, ◌++◌, if◌then◌else◌, ◌==◌, ltb, codes,
}
use ezgrpc.Wire.{Byte}

-- `enum ezgrpc2_grpc_status`
abbrev pub status_ok : ℕ
status_ok = 0

abbrev pub status_unimplemented : ℕ
status_unimplemented = 12

-- The texts of the `switch`, over the numbers that the enumerators have; EZGRPC2_GRPC_STATUS_NULL
-- and every other number get the default.
pub strstatus : ℕ → List Byte
strstatus status =
    if status == 0
    then codes "ok"
    else if status == 1
    then codes "cancelled"
    else if status == 2
    then codes "unknown"
    else if status == 3
    then codes "invalid argument"
    else if status == 4
    then codes "deadline exceeded"
    else if status == 5
    then codes "not found"
    else if status == 6
    then codes "already exists"
    else if status == 7
    then codes "permission denied"
    else if status == 16
    then codes "unauthenticated"
    else if status == 8
    then codes "resource exhausted"
    else if status == 9
    then codes "failed precondition"
    else if status == 11
    then codes "out of range"
    else if status == 12
    then codes "unimplemented"
    else if status == 13
    then codes "internal"
    else if status == 14
    then codes "unavailable"
    else if status == 15
    then codes "data loss"
    else codes "(null)"

-- The digits of a number below 10 ^ fuel.
pub digits : ℕ → ℕ → List Byte
digits zero n = []
digits (suc fuel) n =
    let front = digits fuel (n / 10) in
    if ltb n 10 then (b'0' + n) ∷ [] else front ++ (b'0' + n % 10) ∷ []

-- A status fits an `int`, so ten digits are enough.
pub print_status : ℕ → List Byte
unfolding digits
print_status n = digits 10 n
