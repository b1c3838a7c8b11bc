-- ===== src/Tcp/Input/Stream.antt =====
-- Data in tcp_process of Lab15/16-tcp_stack/tcp_in.c: what reaches the application is in order.
use ucas_computer_network_la.Prelude.{
  ℕ, ◌+◌, ◌<◌, ◌≡◌, refl, sym, ap, subst, ◌∙◌, inl, inr, true, false, List, [], ◌∷◌, ◌++◌, arith,
  ltb, ◌==◌, if◌then◌else◌, Bool-cases, length, length-append,
}
use mathlib.Core.List.{append-nil, append_assoc}
use ucas_computer_network_la.Ring.{RingBuffer, ring_buffer_free}
use ucas_computer_network_la.Ring.Contents.{IsValid, contents, used-add-free, length-contents}
use ucas_computer_network_la.Ring.Transfer.{write_ring_buffer_lem, write_ring_buffer-size}
use ucas_computer_network_la.Tcp.{TcpSock, Cb, OfoBuffer}
use ucas_computer_network_la.Tcp.Input.{
  Outcome, processed, waits_for_room, aborted, damaged, Written, no_room, refused, wrote, store,
  take_early, receive, ofo_of,
}

-- The early segments that the data up to `seq_end` reaches one after the other: their bytes, the end
-- of the last, and those that are left.
abbrev pub reached_bytes : ℕ → List OfoBuffer → List ℕ
reached_bytes seq_end [] = []
reached_bytes seq_end (e ∷ es) =
    let rest = reached_bytes e.seq_end es in if ltb seq_end e.seq then [] else e.payload ++ rest

abbrev pub reached_end : ℕ → List OfoBuffer → ℕ
reached_end seq_end [] = seq_end
reached_end seq_end (e ∷ es) =
    let rest = reached_end e.seq_end es in if ltb seq_end e.seq then seq_end else rest

abbrev pub unreached : ℕ → List OfoBuffer → List OfoBuffer
unreached seq_end [] = []
unreached seq_end (e ∷ es) =
    let rest = unreached e.seq_end es in if ltb seq_end e.seq then e ∷ es else rest

-- The lengths are those of the data, and no segment is empty.
abbrev pub Measured : List OfoBuffer → Type 0
Measured [] = Unit {0}
Measured (e ∷ es) = (e.pl_len ≡ length e.payload) × (0 < length e.payload) × Measured es

-- What a write to the buffer should give.
abbrev Stored : TcpSock → List ℕ → Written → Type 0
Stored tsk payload no_room = ring_buffer_free tsk.rcv_buf < length payload
Stored tsk payload refused = ⊥
Stored tsk payload (wrote tsk') =
    IsValid tsk'.rcv_buf
    × (contents tsk'.rcv_buf ≡ contents tsk.rcv_buf ++ payload)
    × (tsk'.rcv_ofo_buf ≡ tsk.rcv_ofo_buf)
    × (tsk'.rcv_buf.size ≡ tsk.rcv_buf.size)

-- The room that is left after more bytes are in.
free-after :
    (r r' : RingBuffer) (src : List ℕ)
    → IsValid r
    → IsValid r'
    → contents r' ≡ contents r ++ src
    → r'.size ≡ r.size
    → ring_buffer_free r' + length src ≡ ring_buffer_free r
free-after r r' src v v' e same = omega (
  arith,
  (used-add-free r v).0,
  (used-add-free r' v').0,
  length-contents r,
  length-contents r',
  ap length e,
  length-append (contents r) src,
  same,
)

store-Stored :
    (tsk : TcpSock) (payload : List ℕ)
    → IsValid tsk.rcv_buf
    → 0 < length payload
    → Stored tsk payload (store tsk payload (length payload))
unfolding store
store-Stored tsk payload v some_data =
    elim (Bool-cases (ltb (ring_buffer_free tsk.rcv_buf) (length payload))) [
      | inl full ↦ rw full (ground arith)
      | inr room ↦
          let (r, e, valid, grown) =
            write_ring_buffer_lem tsk.rcv_buf payload v some_data (ground arith) in
          rw (room, e) (valid, grown, refl, write_ring_buffer-size tsk.rcv_buf r payload e)
    ]

-- The state in which the early segments are taken up.
abbrev pub Delivered : ℕ → List OfoBuffer → TcpSock → Outcome → Type 0
Delivered seq_end early tsk (processed tsk' events) =
    IsValid tsk'.rcv_buf
    × (contents tsk'.rcv_buf ≡ contents tsk.rcv_buf ++ reached_bytes seq_end early)
    × (tsk'.rcv_nxt ≡ reached_end seq_end early)
    × (tsk'.rcv_ofo_buf ≡ unreached seq_end early)
Delivered seq_end early tsk waits_for_room =
    ring_buffer_free tsk.rcv_buf < length (reached_bytes seq_end early)
Delivered seq_end early tsk aborted = ⊥
Delivered seq_end early tsk damaged = ⊥

store-measured :
    (tsk : TcpSock) (payload : List ℕ) (n : ℕ)
    → IsValid tsk.rcv_buf
    → n ≡ length payload
    → 0 < length payload
    → Stored tsk payload (store tsk payload n)
store-measured tsk payload n v e some_data =
    subst (λ k. Stored tsk payload (store tsk payload k)) (sym e)
      (store-Stored tsk payload v some_data)

-- From the rest of the early segments to all of them.
Delivered-cons :
    (seq_end : ℕ) (e : OfoBuffer) (es : List OfoBuffer) (tsk tsk' : TcpSock) (o : Outcome)
    → ltb seq_end e.seq ≡ false
    → IsValid tsk.rcv_buf
    → Stored tsk e.payload (wrote tsk')
    → Delivered e.seq_end es tsk' o
    → Delivered seq_end (e ∷ es) tsk o
Delivered-cons seq_end e es tsk tsk' (processed done events) near v s d = rw near (
  d.0,
  d.1
      ∙ ap (λ xs. xs ++ reached_bytes e.seq_end es) s.1
      ∙ append_assoc (contents tsk.rcv_buf) e.payload (reached_bytes e.seq_end es),
  d.2,
  d.3,
)
Delivered-cons seq_end e es tsk tsk' waits_for_room near v s d = rw near (
    omega (
      arith,
      d,
      free-after tsk.rcv_buf tsk'.rcv_buf e.payload v s.0 s.1 s.3,
      length-append e.payload (reached_bytes e.seq_end es),
    ))
Delivered-cons seq_end e es tsk tsk' aborted near v s d = elim d [ ]
Delivered-cons seq_end e es tsk tsk' damaged near v s d = elim d [ ]

after_store-Delivered :
    (seq_end : ℕ) (e : OfoBuffer) (es : List OfoBuffer) (tsk : TcpSock) (w : Written)
    → ltb seq_end e.seq ≡ false
    → IsValid tsk.rcv_buf
    → Measured es
    → ((tsk' : TcpSock)
        → IsValid tsk'.rcv_buf
        → Delivered e.seq_end es tsk' (take_early e.seq_end es tsk'))
    → Stored tsk e.payload w
    → Delivered seq_end (e ∷ es) tsk (elim w [
      | no_room ↦ waits_for_room
      | refused ↦ aborted
      | wrote tsk' ↦ take_early e.seq_end es tsk'
    ])
after_store-Delivered seq_end e es tsk no_room near v m rest s =
    rw near (omega (arith, s, length-append e.payload (reached_bytes e.seq_end es)))
after_store-Delivered seq_end e es tsk refused near v m rest s = elim s [ ]
after_store-Delivered seq_end e es tsk (wrote tsk') near v m rest s =
    Delivered-cons seq_end e es tsk tsk' (take_early e.seq_end es tsk') near v s (rest tsk' s.0)

-- The early segments that the data reaches go into the buffer in order and leave the list.
take_early-Delivered :
    (seq_end : ℕ) (early : List OfoBuffer) (tsk : TcpSock)
    → IsValid tsk.rcv_buf
    → Measured early
    → Delivered seq_end early tsk (take_early seq_end early tsk)
unfolding take_early
take_early-Delivered seq_end [] tsk v m = (v, sym (append-nil (contents tsk.rcv_buf)), refl, refl)
take_early-Delivered seq_end (e ∷ es) tsk v m = elim (Bool-cases (ltb seq_end e.seq)) [
  | inl gap ↦
      rw (gap, Delivered, take_early)
        (v, rw gap (sym (append-nil (contents tsk.rcv_buf))), rw gap refl, rw gap refl)
  | inr near ↦
      rw (near, take_early)
        (after_store-Delivered seq_end e es tsk (store tsk e.payload e.pl_len) near v m.2
          (λ tsk' v'. take_early-Delivered e.seq_end es tsk' v' m.2)
          (store-measured tsk e.payload e.pl_len v m.0 m.1))
]

received :
    (cb : Cb) (tsk : TcpSock) (w : Written)
    → IsValid tsk.rcv_buf
    → Measured tsk.rcv_ofo_buf
    → Stored tsk cb.payload w
    → Delivered cb.seq (ofo_of cb ∷ tsk.rcv_ofo_buf) tsk (elim w [
      | no_room ↦ waits_for_room
      | refused ↦ aborted
      | wrote tsk' ↦ take_early cb.seq_end tsk'.rcv_ofo_buf tsk'
    ])
unfolding ofo_of
received cb tsk no_room v m s =
    let near : ltb cb.seq cb.seq ≡ false = ground arith in
    rw near (omega (arith, s, length-append cb.payload (reached_bytes cb.seq_end tsk.rcv_ofo_buf)))
received cb tsk refused v m s = elim s [ ]
received cb tsk (wrote tsk') v m s =
    Delivered-cons cb.seq (ofo_of cb) tsk.rcv_ofo_buf tsk tsk'
      (take_early cb.seq_end tsk'.rcv_ofo_buf tsk') (ground arith) v s
      (subst (λ early. Delivered cb.seq_end tsk.rcv_ofo_buf tsk' (take_early cb.seq_end early tsk'))
        (sym s.2) (take_early-Delivered cb.seq_end tsk.rcv_ofo_buf tsk' s.0 m))

-- A segment that starts at rcv_nxt is put into the receive buffer behind what is there, and behind
-- it, in order, the early segments that it reaches; rcv_nxt moves to the end of the last of them and
-- the rest stay in the list. Otherwise there is less room than these bytes need, and the thread
-- waits. The buffer is valid and no segment is empty.
pub receive-Delivered :
    (cb : Cb) (tsk : TcpSock)
    → IsValid tsk.rcv_buf
    → tsk.rcv_nxt ≡ cb.seq
    → Measured (ofo_of cb ∷ tsk.rcv_ofo_buf)
    → Delivered cb.seq (ofo_of cb ∷ tsk.rcv_ofo_buf) tsk (receive tsk cb)
unfolding receive ofo_of
receive-Delivered cb tsk v at m =
    let here : (tsk.rcv_nxt == cb.seq) ≡ true = ground arith in
    rw (here, receive)
      (received cb tsk (store tsk cb.payload cb.pl_len) v m.2
        (store-measured tsk cb.payload cb.pl_len v m.0 m.1))
