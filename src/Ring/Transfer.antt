-- ===== src/Ring/Transfer.antt =====
-- `read_ring_buffer` and `write_ring_buffer` of Lab15/16-tcp_stack/include/ring_buffer.h, against
-- the queue of the bytes that the buffer holds.
use ucas_computer_network_la.Prelude.{
  ℕ, ◌+◌, ◌-◌, ◌%◌, ◌≤◌, ◌<◌, ◌≡◌, refl, sym, ap, ap₂, ◌∙◌, ◌↔◌, ◌⊎◌, inl, inr, ◌&&◌, List, ◌++◌,
  none, some, min, arith, ltb, leb, if◌then◌else◌, Bool-cases, length, get_or, take, drop, blit,
  tabulate, tabulate_ext, tabulate-append, tabulate-get_or, take-drop-tabulate, length-tabulate,
  length-take, length-drop, length-blit, get_or-blit, get_or-take, get_or-drop, mod-below_twice,
}
use ucas_computer_network_la.Ring.{
  RingBuffer, ring_buffer_used, ring_buffer_free, copy_out, read_ring_buffer, copy_in,
  write_ring_buffer,
}
use ucas_computer_network_la.Ring.Contents.{
  IsValid, slot, contents, used_cases, used-lt-size, free_lem,
}

abbrev byte : RingBuffer → ℕ → ℕ
byte r i = get_or r.buf (slot r i) 0

byte_at : (r : RingBuffer) (i j : ℕ) → j ≡ slot r i → get_or r.buf j 0 ≡ byte r i
byte_at r i j e = ap (λ k. get_or r.buf k 0) e

-- The bytes copied out are the oldest ones, also where they go round the end.
copy_out-oldest :
    (r : RingBuffer) (len : ℕ)
    → IsValid r
    → len ≤ ring_buffer_used r
    → copy_out r len ≡ tabulate len (byte r)
unfolding copy_out
copy_out-oldest r len v h = elim (Bool-cases (ltb r.size (r.head + len))) [
  | inl wraps ↦ rw wraps (
      ap₂ ◌++◌ (take-drop-tabulate (r.size - r.head) r.head r.buf 0 (omega (arith, v.storage)))
        (take-drop-tabulate (len - (r.size - r.head)) 0 r.buf 0 (ground (arith, used-lt-size r v)))
      ∙ tabulate-append (r.size - r.head) (len - (r.size - r.head)) _ _ (byte r)
          (λ i l. byte_at r i (r.head + i) (ground arith))
          (λ i l. byte_at r (r.size - r.head + i) (0 + i) (ground arith))
      ∙ ap (λ n. tabulate n (byte r)) {x = r.size - r.head + (len - (r.size - r.head))}
          (ground arith))
  | inr fits ↦ rw fits (
      take-drop-tabulate len r.head r.buf 0 (ground arith)
      ∙ tabulate_ext len _ (byte r) (λ i l. byte_at r i (r.head + i) (ground arith)))
]

-- The buffer after the oldest `len` bytes are gone.
module _ (r : RingBuffer) (len : ℕ) (v : IsValid r) (h : len ≤ ring_buffer_used r) where
  abbrev advanced : RingBuffer
  advanced = record r { head = (r.head + len) % r.size }

  advanced-IsValid : IsValid advanced
  advanced-IsValid = ground (arith, used-lt-size r v)

  used-advanced : ring_buffer_used advanced ≡ ring_buffer_used r - len
  used-advanced = ground (
    arith,
    used_cases r v,
    used_cases advanced advanced-IsValid,
    mod-below_twice (r.head + len) r.size,
  )

  advanced-contents : tabulate len (byte r) ++ contents advanced ≡ contents r
  advanced-contents =
      tabulate-append len (ring_buffer_used advanced) (byte r) (byte advanced) (byte r)
        (λ i l. refl)
        (λ i l.
          byte_at r (len + i) (slot advanced i) (
            ground (arith, used-lt-size r v, used-advanced, mod-below_twice (r.head + len) r.size)))
      ∙ ap (λ n. tabulate n (byte r)) {x = len + ring_buffer_used advanced}
          (omega (arith, used-advanced))

-- A read returns the smaller of the number of bytes held and the number asked for, copies out
-- exactly that many of the oldest bytes in order, leaves the others, and keeps the buffer valid.
pub read_ring_buffer_lem :
    (r : RingBuffer) (size : ℕ)
    → IsValid r
    → let (len, out, r') = read_ring_buffer r size in
      (len ≡ min (ring_buffer_used r) size)
      × (length out ≡ len)
      × (out ++ contents r' ≡ contents r)
      × IsValid r'
unfolding read_ring_buffer
read_ring_buffer_lem r size v = elim (Bool-cases (ltb 0 (min (ring_buffer_used r) size))) [
  | inl some_bytes ↦ rw some_bytes (
      let le : min (ring_buffer_used r) size ≤ ring_buffer_used r = omega arith in
      let out = copy_out-oldest r (min (ring_buffer_used r) size) v le in
      (
        refl,
        ap length out ∙ length-tabulate (min (ring_buffer_used r) size) (byte r),
        ap (λ o. o ++ contents (advanced r (min (ring_buffer_used r) size) v le)) out
            ∙ advanced-contents r (min (ring_buffer_used r) size) v le,
        advanced-IsValid r (min (ring_buffer_used r) size) v le,
      ))
  | inr no_bytes ↦ rw no_bytes (refl, ground arith, refl, v)
]

-- What stands at index `j` after the copy.
copied : RingBuffer → List ℕ → ℕ → ℕ
copied r src j =
    if leb r.tail j && ltb j (r.tail + length src)
    then get_or src (j - r.tail) 0
    else if ltb (j + r.size) (r.tail + length src)
    then get_or src (j + r.size - r.tail) 0
    else get_or r.buf j 0

get_or-copy_in :
    (r : RingBuffer) (src : List ℕ) (j : ℕ)
    → IsValid r
    → length src < r.size
    → j < r.size
    → get_or (copy_in r src) j 0 ≡ copied r src j
unfolding copy_in copied
get_or-copy_in r src j v n h = elim (Bool-cases (ltb r.size (r.tail + length src))) [
  | inl wraps ↦ rw wraps (
      ground (
        arith,
        get_or-blit (blit r.buf r.tail (take (r.size - r.tail) src)) 0 (drop (r.size - r.tail) src)
            j 0,
        get_or-blit r.buf r.tail (take (r.size - r.tail) src) j 0,
        length-blit r.buf r.tail (take (r.size - r.tail) src),
        length-take (r.size - r.tail) src,
        length-drop (r.size - r.tail) src,
        get_or-take (r.size - r.tail) src (j - r.tail) 0,
        get_or-drop src (r.size - r.tail) j 0,
        ap (λ k. get_or src k 0) {x = r.size - r.tail + j} {y = j + r.size - r.tail} (omega arith),
      ))
  | inr fits ↦ rw fits (ground (arith, get_or-blit r.buf r.tail src j 0))
]

-- The buffer after `src` is stored.
module _ (r : RingBuffer) (src : List ℕ) (v : IsValid r) (h : length src ≤ ring_buffer_free r) where
  abbrev extended : RingBuffer
  extended = record r { buf = copy_in r src; tail = (r.tail + length src) % r.size }

  fits_lem : ring_buffer_used r + length src < r.size
  fits_lem = omega (arith, free_lem r, used-lt-size r v)

  length-copy_in : length (copy_in r src) ≡ length r.buf
  unfolding copy_in
  length-copy_in = ground (
    arith,
    length-blit (blit r.buf r.tail (take (r.size - r.tail) src)) 0 (drop (r.size - r.tail) src),
    length-blit r.buf r.tail (take (r.size - r.tail) src),
    length-blit r.buf r.tail src,
  )

  extended-IsValid : IsValid extended
  extended-IsValid = ground (arith, length-copy_in)

  used-extended : ring_buffer_used extended ≡ ring_buffer_used r + length src
  used-extended = ground (
    arith,
    fits_lem,
    used_cases r v,
    used_cases extended extended-IsValid,
    mod-below_twice (r.tail + length src) r.size,
  )

  old_byte : (i : ℕ) → i < ring_buffer_used r → byte r i ≡ byte extended i
  unfolding copied
  old_byte i l = ground (arith, fits_lem, used_cases r v, get_or-copy_in r src (slot r i) v)

  new_byte : (i : ℕ) → i < length src → get_or src i 0 ≡ byte extended (ring_buffer_used r + i)
  unfolding copied
  new_byte i l =
      let s : ℕ = slot extended (ring_buffer_used r + i) in
      ground (
        arith,
        fits_lem,
        used_cases r v,
        get_or-copy_in r src s v,
        ap (λ k. get_or src k 0) {x = i} {y = s - r.tail},
        ap (λ k. get_or src k 0) {x = i} {y = s + r.size - r.tail},
      )

  extended-contents : contents extended ≡ contents r ++ src
  extended-contents =
      ap (λ n. tabulate n (byte extended)) used-extended
      ∙ sym (
          tabulate-append (ring_buffer_used r) (length src) (byte r) (λ i. get_or src i 0)
            (byte extended) old_byte new_byte)
      ∙ ap (◌++◌ (contents r)) (tabulate-get_or src 0)

-- A write of at least one byte and at most the free room succeeds, appends exactly those bytes, and
-- keeps the buffer valid.
pub write_ring_buffer_lem :
    (r : RingBuffer) (src : List ℕ)
    → IsValid r
    → 0 < length src
    → length src ≤ ring_buffer_free r
    → (r' : RingBuffer) × (write_ring_buffer r src ≡ some r')
      × IsValid r'
      × (contents r' ≡ contents r ++ src)
unfolding write_ring_buffer
write_ring_buffer_lem r src v pos h =
    (extended r src v h, ground arith, extended-IsValid r src v h, extended-contents r src v h)

-- Any other write is refused by the assertion.
pub write_ring_buffer_refused :
    (r : RingBuffer) (src : List ℕ)
    → (write_ring_buffer r src ≡ none) ↔ ((length src ≡ 0) ⊎ (ring_buffer_free r < length src))
unfolding write_ring_buffer
write_ring_buffer_refused r src = (ground arith, ground arith)

pub write_ring_buffer-size :
    (r r' : RingBuffer) (src : List ℕ) → write_ring_buffer r src ≡ some r' → r'.size ≡ r.size
unfolding write_ring_buffer
write_ring_buffer-size r r' src e = ground arith
