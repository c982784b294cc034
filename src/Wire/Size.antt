-- ===== src/Wire/Size.antt =====
-- How much memory `ezgrpc2_message_new` and `ezgrpc2_message_new2` ask for.
use ezgrpc.Prelude.{ℕ, ◌+◌, ◌-◌, ◌%◌, ◌^◌, ◌<◌, ◌≤◌, ◌≡◌, arith}

-- `CONFIG_CACHE_LINE_SIZE`
abbrev pub cache_line_size : ℕ
cache_line_size = 64

-- `REALIGN`. The alignment is a power of two, for which the mask is the remainder; a size_t is reduced.
unfoldable pub realign : ℕ → ℕ → ℕ
realign alignment size = (size + (alignment - size % alignment)) % 2 ^ 64

-- `sizeof(ezgrpc2_message)`: a uint32_t and a byte, and what aligns the next one.
abbrev pub sizeof_message : ℕ
sizeof_message = 8

-- The size that `aligned_alloc` is given for `data_len` bytes.
unfoldable pub message_size : ℕ → ℕ
unfolding realign
message_size data_len = realign cache_line_size ((sizeof_message + data_len) % 2 ^ 64)

-- Unless the sum passes the range of a size_t, as it may within 72 bytes of its end, a message
-- is given whole cache lines, which hold its struct and its data, and at most one more than they
-- need.
pub message_size-lines :
    (data_len : ℕ)
    → data_len + 72 < 2 ^ 64
    → (message_size data_len % cache_line_size ≡ 0)
      × (sizeof_message + data_len < message_size data_len)
      × (message_size data_len ≤ sizeof_message + data_len + cache_line_size)
unfolding message_size realign
message_size-lines data_len small = (omega arith, omega arith, omega arith)
