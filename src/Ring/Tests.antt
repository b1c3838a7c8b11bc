-- ===== src/Ring/Tests.antt =====
-- Runs of the functions of Lab15/16-tcp_stack/include/ring_buffer.h, and its theorems at inputs.
use ucas_computer_network_la.Prelude.{◌≡◌, refl, [], ◌∷◌, ◌++◌, some, min, arith, length}
use ucas_computer_network_la.Ring.{
  RingBuffer, ring_buffer_used, ring_buffer_free, copy_out, read_ring_buffer, write_ring_buffer,
}
use ucas_computer_network_la.Ring.Contents.{IsValid, contents}
use ucas_computer_network_la.Ring.Transfer.{read_ring_buffer_lem, write_ring_buffer_lem}

-- Two bytes that go round the end of four slots.
abbrev wrapped : RingBuffer
wrapped = record { buf = 8 ∷ 0 ∷ 0 ∷ 7 ∷ []; size = 4; head = 3; tail = 1 }

wrapped-IsValid : IsValid wrapped
wrapped-IsValid = omega arith

contents-wrapped : contents wrapped ≡ 7 ∷ 8 ∷ []
unfolding ring_buffer_used
contents-wrapped = refl

read-wrapped : read_ring_buffer wrapped 5 ≡ (2, 7 ∷ 8 ∷ [], record wrapped { head = 1 })
unfolding read_ring_buffer ring_buffer_used copy_out
read-wrapped = refl

read_ring_buffer_example :
    let (len, out, r') = read_ring_buffer wrapped 5 in
    (len ≡ min (ring_buffer_used wrapped) 5)
    × (length out ≡ len)
    × (out ++ contents r' ≡ contents wrapped)
    × IsValid r'
read_ring_buffer_example = read_ring_buffer_lem wrapped 5 wrapped-IsValid

write_ring_buffer_example :
    (r' : RingBuffer) × (write_ring_buffer wrapped (9 ∷ []) ≡ some r')
    × IsValid r'
    × (contents r' ≡ contents wrapped ++ 9 ∷ [])
unfolding ring_buffer_used ring_buffer_free
write_ring_buffer_example =
    write_ring_buffer_lem wrapped (9 ∷ []) wrapped-IsValid (omega arith) (omega arith)
