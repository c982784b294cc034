-- ===== src/Data/Chunk.antt =====
-- The receive buffer of a stream.
use ezgrpc.Prelude.{
  take-append_exact, drop-take, ℕ, ◌+◌, ◌-◌, ◌≤◌, ◌≡◌, sym, ap, ◌∙◌, List, ◌++◌, arith, length,
  take, drop, append_assoc, length-append, length-take, length-drop,
}
use ezgrpc.Wire.{Byte}
use ezgrpc.Stream.{Stream}
use ezgrpc.Data.{append_chunk, consume}

-- The buffer has the size that was allocated, and what was received fits in it.
pub record IsBuffered (window : ℕ) (s : Stream) : Type 0 where
  pub size : length s.recv_data ≡ window
  pub within : s.recv_len ≤ window

-- The bytes that count.
abbrev pub received : Stream → List Byte
received s = take s.recv_len s.recv_data

length-received : (window : ℕ) (s : Stream) → IsBuffered window s → length (received s) ≡ s.recv_len
length-received window s b = omega (arith, b, length-take s.recv_len s.recv_data)

-- A chunk that fits is written within the buffer, behind what was received.
pub append_chunk-IsBuffered :
    (window : ℕ) (chunk : List Byte) (s : Stream)
    → IsBuffered window s
    → s.recv_len + length chunk ≤ window
    → IsBuffered window (append_chunk chunk s)
      × (received (append_chunk chunk s) ≡ received s ++ chunk)
unfolding append_chunk
append_chunk-IsBuffered window chunk s b fits = (
  record {
    size = omega (
      arith,
      b,
      length-append (received s) (chunk ++ tail),
      length-append chunk tail,
      length-received window s b,
      length-drop (s.recv_len + length chunk) s.recv_data,
    );
    within = fits;
  },
  ap (take (s.recv_len + length chunk)) (sym (append_assoc (received s) chunk tail))
      ∙ take-append_exact (s.recv_len + length chunk) (received s ++ chunk) tail
          (omega (arith, length-append (received s) chunk, length-received window s b)),
)
  where
    tail : List Byte
    tail = drop (s.recv_len + length chunk) s.recv_data

-- What is left of the received bytes is copied to the front, in a buffer of the same size.
pub consume-IsBuffered :
    (window lseek : ℕ) (s : Stream)
    → IsBuffered window s
    → lseek ≤ s.recv_len
    → IsBuffered window (consume lseek s) × (received (consume lseek s) ≡ drop lseek (received s))
unfolding consume
consume-IsBuffered window lseek s b inside = (
  record {
    size = omega (
      arith,
      b,
      length-append kept (drop (s.recv_len - lseek) s.recv_data),
      kept_length,
      length-drop (s.recv_len - lseek) s.recv_data,
    );
    within = let w = b.within in omega arith;
  },
  take-append_exact (s.recv_len - lseek) kept (drop (s.recv_len - lseek) s.recv_data) kept_length
      ∙ drop-take lseek (s.recv_len - lseek) s.recv_data
      ∙ ap (λ k. drop lseek (take k s.recv_data)) (omega arith),
)
  where
    kept : List Byte
    kept = take (s.recv_len - lseek) (drop lseek s.recv_data)

    kept_length : length kept ≡ s.recv_len - lseek
    kept_length = omega (
      arith,
      b,
      length-take (s.recv_len - lseek) (drop lseek s.recv_data),
      length-drop lseek s.recv_data,
    )
