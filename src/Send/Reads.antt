-- ===== src/Send/Reads.antt =====
-- The loop as a whole, by the rounds that it can still take.
use ezgrpc.Prelude.{
  ◌∙◌, ltb, ℕ, zero, suc, ◌+◌, ◌*◌, ◌≤◌, ◌<◌, ◌≡◌, Bool, true, false, List, [], arith, length,
}
use ezgrpc.Wire.{Byte, Message}
use ezgrpc.Stream.{Stream}
use ezgrpc.Send.{Outcome, Round, again, leave, round, read_loop, rounds, data_source_read}
use ezgrpc.Send.Pending.{IsReady, Reads, measure, Again, GoodRound, round-GoodRound}

Reads-trans :
    {buf_len : ℕ} {buf buf' : List Byte} {s s' : Stream} {o : Outcome}
    → Again buf_len buf s buf' s'
    → Reads buf_len buf' s' o
    → Reads buf_len buf s o
Reads-trans a r = record {
  out = r.out;
  eof = r.eof;
  after = r.after;
  is = r.is;
  split = r.split ∙ a.split;
  fits = r.fits;
  ended = r.ended;
  full = r.full;
  ready = r.ready;
}

read_loop-Reads :
    (fuel buf_len : ℕ) (buf : List Byte) (s : Stream)
    → length buf ≤ buf_len
    → IsReady s
    → measure s.is_trunc s.lqueue_omessages < fuel
    → Reads buf_len buf s (read_loop fuel buf_len buf s)
unfolding read_loop
read_loop-Reads zero buf_len buf s fits r enough = absurd (omega arith)
read_loop-Reads (suc fuel) buf_len buf s fits r enough =
    after_round (read_loop-Reads fuel buf_len) (round buf_len buf s)
      (round-GoodRound buf_len buf s fits r)
  where
    after_round :
        ((buf' : List Byte) (s' : Stream)
          → length buf' ≤ buf_len
          → IsReady s'
          → measure s'.is_trunc s'.lqueue_omessages < fuel
          → Reads buf_len buf' s' (read_loop fuel buf_len buf' s'))
        → (o : Round) → GoodRound buf_len buf s o
        → Reads buf_len buf s
            (elim o [ again buf' s' ↦ read_loop fuel buf_len buf' s' | leave o ↦ o ])
    after_round ih (again buf' s') a =
        Reads-trans a (ih buf' s' a.fits a.ready (omega (arith, a.less)))
    after_round ih (leave o) r = r

measure-lt-rounds : (b : Bool) (q : List Message) → measure b q < 2 * length q + 2
measure-lt-rounds true q = omega arith
measure-lt-rounds false q = omega arith

-- A read into a buffer of at least five bytes, of a stream whose queued messages all have a payload,
-- ends with no assertion failed. It writes at most the buffer, the bytes that it writes followed by
-- those that then remain are those that were pending before, it reports the end exactly when the
-- queue is then empty, it otherwise leaves fewer than five bytes of the buffer unused, and it leaves
-- the stream ready for the next read.
pub data_source_read-Reads :
    (buf_len : ℕ) (s : Stream)
    → 5 ≤ buf_len
    → IsReady s
    → Reads buf_len [] s (data_source_read buf_len s)
unfolding data_source_read
data_source_read-Reads buf_len s large r =
    let big : ltb buf_len 5 ≡ false = ground arith in
    rw big (
      read_loop-Reads (rounds s) buf_len [] s (omega arith) r
        (measure-lt-rounds s.is_trunc s.lqueue_omessages))
