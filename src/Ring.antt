-- ===== src/Ring.antt =====
-- The receive buffer of a TCP socket, Lab15/16-tcp_stack/include/ring_buffer.h: one slot of the
-- storage always stays free, so that `head == tail` means empty. Bytes are numbers that are only
-- moved. The lock is not modelled: each function below is one critical section.
pub mod Contents
pub mod Transfer
mod Tests
use ucas_computer_network_la.Prelude.{
  ℕ, ◌+◌, ◌-◌, ◌%◌, Bool, ◌&&◌, List, [], ◌++◌, Option, none, some, min, ltb, leb, ◌==◌,
  if◌then◌else◌, length, replicate, take, drop, blit,
}

-- `struct ring_buffer`: read from `head`, write from `tail`.
pub record RingBuffer : Type 0 where
  pub buf : List ℕ
  pub size : ℕ
  pub head : ℕ
  pub tail : ℕ

pub alloc_ring_buffer : ℕ → RingBuffer
alloc_ring_buffer size = record {
  buf = replicate (size + 1) 0;
  size = size + 1;
  head = 0;
  tail = 0;
}

-- `tail - head + size` is never negative, since `head` stays below `size`.
pub ring_buffer_used : RingBuffer → ℕ
ring_buffer_used r = (r.tail + r.size - r.head) % r.size

pub ring_buffer_free : RingBuffer → ℕ
ring_buffer_free r = r.size - ring_buffer_used r - 1

pub ring_buffer_empty : RingBuffer → Bool
ring_buffer_empty r = ring_buffer_used r == 0

pub ring_buffer_full : RingBuffer → Bool
ring_buffer_full r = ring_buffer_free r == 0

-- The two `memcpy` calls, or the one, that fetch `len` bytes.
copy_out : RingBuffer → ℕ → List ℕ
copy_out r len =
    if ltb r.size (r.head + len)
    then take (r.size - r.head) (drop r.head r.buf) ++ take (len - (r.size - r.head)) r.buf
    else take len (drop r.head r.buf)

-- The result is the length that the function returns, what it copies to the caller, and the buffer.
pub read_ring_buffer : RingBuffer → ℕ → ℕ × List ℕ × RingBuffer
read_ring_buffer r size =
    let len = min (ring_buffer_used r) size in
    if ltb 0 len
    then (len, copy_out r len, record r { head = (r.head + len) % r.size })
    else (len, [], r)

-- The two `memcpy` calls, or the one, that store `src`.
copy_in : RingBuffer → List ℕ → List ℕ
copy_in r src =
    if ltb r.size (r.tail + length src)
    then blit (blit r.buf r.tail (take (r.size - r.tail) src)) 0 (drop (r.size - r.tail) src)
    else blit r.buf r.tail src

-- `none` is the failed assertion, which aborts the program.
pub write_ring_buffer : RingBuffer → List ℕ → Option RingBuffer
write_ring_buffer r src =
    if ltb 0 (length src) && leb (length src) (ring_buffer_free r)
    then some (record r { buf = copy_in r src; tail = (r.tail + length src) % r.size })
    else none
