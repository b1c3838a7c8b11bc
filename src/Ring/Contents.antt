-- ===== src/Ring/Contents.antt =====
-- The bytes that a ring buffer of Lab15/16-tcp_stack/include/ring_buffer.h holds, oldest first, and
-- the invariant under which its index arithmetic stays in range.
use ucas_computer_network_la.Prelude.{
  ℕ, ◌+◌, ◌-◌, ◌%◌, ◌<◌, ◌≡◌, refl, ap, ◌↔◌, true, List, [], arith, ltb, if◌then◌else◌, length,
  get_or, tabulate, length-tabulate, length-replicate, mod-below_twice,
}
use ucas_computer_network_la.Ring.{
  RingBuffer, alloc_ring_buffer, ring_buffer_used, ring_buffer_free, ring_buffer_empty,
  ring_buffer_full,
}

pub record IsValid (r : RingBuffer) : Type 0 where
  pub storage : length r.buf ≡ r.size
  pub head_in : r.head < r.size
  pub tail_in : r.tail < r.size

-- Where the byte number `i` after the oldest stands.
abbrev pub slot : RingBuffer → ℕ → ℕ
slot r i = if ltb (r.head + i) r.size then r.head + i else r.head + i - r.size

abbrev pub contents : RingBuffer → List ℕ
contents r = tabulate (ring_buffer_used r) (λ i. get_or r.buf (slot r i) 0)

-- The remainder of `ring_buffer_used`, by cases.
pub used_cases :
    (r : RingBuffer)
    → IsValid r
    → ring_buffer_used r ≡ (if ltb r.tail r.head then r.tail + r.size - r.head else r.tail - r.head)
unfolding ring_buffer_used
used_cases r v = ground (arith, mod-below_twice (r.tail + r.size - r.head) r.size)

pub used-lt-size : (r : RingBuffer) → IsValid r → ring_buffer_used r < r.size
used-lt-size r v = ground (arith, used_cases r v)

pub free_lem : (r : RingBuffer) → ring_buffer_free r ≡ r.size - ring_buffer_used r - 1
unfolding ring_buffer_free
free_lem r = refl

-- A new buffer is valid, holds nothing, and has room for the `size` bytes that were asked for.
pub alloc_ring_buffer_lem :
    (size : ℕ)
    → let r = alloc_ring_buffer size in IsValid r × (contents r ≡ []) × (ring_buffer_free r ≡ size)
unfolding alloc_ring_buffer
alloc_ring_buffer_lem size =
    (valid, ap (λ n. tabulate n byte) used, omega (arith, free_lem (alloc_ring_buffer size), used))
  where
    byte : ℕ → ℕ
    byte i = get_or (alloc_ring_buffer size).buf (slot (alloc_ring_buffer size) i) 0

    valid : IsValid (alloc_ring_buffer size)
    valid = record {
      storage = length-replicate (size + 1) 0;
      head_in = omega arith;
      tail_in = omega arith;
    }

    used : ring_buffer_used (alloc_ring_buffer size) ≡ 0
    used = ground (arith, used_cases (alloc_ring_buffer size) valid)

-- Used and free bytes make up all slots but one; the two tests hold exactly where `head` and `tail`
-- meet, and where `tail` stands just before `head`.
pub used-add-free :
    (r : RingBuffer)
    → IsValid r
    → (ring_buffer_used r + ring_buffer_free r + 1 ≡ r.size)
      × ((ring_buffer_empty r ≡ true) ↔ (r.head ≡ r.tail))
      × ((ring_buffer_full r ≡ true) ↔ ((r.tail + 1) % r.size ≡ r.head))
unfolding ring_buffer_empty ring_buffer_full
used-add-free r v = (
  ground (arith, used_cases r v, free_lem r),
  (ground (arith, used_cases r v), ground (arith, used_cases r v)),
  (
    ground (arith, used_cases r v, free_lem r, mod-below_twice (r.tail + 1) r.size),
    ground (arith, used_cases r v, free_lem r, mod-below_twice (r.tail + 1) r.size),
  ),
)

pub length-contents : (r : RingBuffer) → length (contents r) ≡ ring_buffer_used r
length-contents r = length-tabulate (ring_buffer_used r) _
