-- ===== src/Wire/Tests.antt =====
-- The sizes of messages.
use ezgrpc.Prelude.{◌-◌, ◌^◌, ◌≡◌, refl}
use ezgrpc.Wire.Size.{realign, message_size}

-- A length near the end of the range makes a message of one cache line.
wraps : message_size (2 ^ 64 - 1) ≡ 64
unfolding message_size realign
wraps = refl
