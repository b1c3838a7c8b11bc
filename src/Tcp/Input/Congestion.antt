-- ===== src/Tcp/Input/Congestion.antt =====
-- Acknowledgements in tcp_process of Lab15/16-tcp_stack/tcp_in.c: the send buffer and the congestion
-- window.
use ucas_computer_network_la.Prelude.{
  ℕ, ◌+◌, ◌/◌, ◌^◌, ◌≤◌, ◌<◌, ◌≡◌, ap, ◌∙◌, inl, inr, List, [], ◌∷◌, arith, ltb, if◌then◌else◌,
  Bool-cases, length,
}
use ucas_computer_network_la.Tcp.{TcpSock, SendBuffer, open_state, recover, tcp_sndbuf_pop}
use ucas_computer_network_la.Tcp.Input.{
  duplicate_ack, grow, pop_acked, after_pop, new_ack, resend_first,
}

-- What is left of the send buffer once `ack` has come: the entries from the first unacknowledged on.
abbrev pub unacked : ℕ → List SendBuffer → List SendBuffer
unacked ack [] = []
unacked ack (e ∷ es) = let rest = unacked ack es in if ltb ack e.seq_end then e ∷ es else rest

-- The end of the last entry that is taken off, or `una`.
abbrev pub last_acked : ℕ → ℕ → List SendBuffer → ℕ
last_acked una ack [] = una
last_acked una ack (e ∷ es) =
    let rest = last_acked e.seq_end ack es in if ltb ack e.seq_end then una else rest

-- A socket whose buffer is `es` and whose window is at least 1 and, with one more for each entry,
-- within 32 bits.
abbrev pub Sound : List SendBuffer → TcpSock → Type 0
Sound es tsk =
    (tsk.send_buf ≡ es)
    × (tsk.inflight ≡ length es)
    × (1 ≤ tsk.cwnd)
    × (tsk.cwnd + length es < 2 ^ 32)

-- What the loop leaves.
abbrev Popped : ℕ → List SendBuffer → TcpSock → TcpSock → Type 0
Popped ack es tsk tsk' =
    (tsk'.send_buf ≡ unacked ack es)
    × (tsk'.inflight ≡ length (unacked ack es))
    × (tsk'.snd_una ≡ last_acked tsk.snd_una ack es)
    × (tsk.cwnd ≤ tsk'.cwnd)
    × (tsk'.cwnd + length (unacked ack es) ≤ tsk.cwnd + length es)
    × (tsk'.nrstate ≡ tsk.nrstate)
    × (tsk'.recovery_point ≡ tsk.recovery_point)

-- A growth is by one or none, and touches the counters only.
abbrev Grown : TcpSock → TcpSock → Type 0
Grown tsk tsk' =
    (tsk'.send_buf ≡ tsk.send_buf)
    × (tsk'.inflight ≡ tsk.inflight)
    × (tsk'.snd_una ≡ tsk.snd_una)
    × (tsk.cwnd ≤ tsk'.cwnd)
    × (tsk'.cwnd ≤ tsk.cwnd + 1)
    × (tsk'.nrstate ≡ tsk.nrstate)
    × (tsk'.recovery_point ≡ tsk.recovery_point)

grow-Grown : (tsk : TcpSock) → tsk.cwnd + 1 < 2 ^ 32 → Grown tsk (grow tsk)
unfolding grow
grow-Grown tsk h = ground arith

pop_acked-Popped :
    (ack : ℕ) (es : List SendBuffer) (tsk : TcpSock)
    → Sound es tsk
    → Popped ack es tsk (pop_acked ack es tsk)
unfolding pop_acked tcp_sndbuf_pop
pop_acked-Popped ack [] tsk h = ground arith
pop_acked-Popped ack (e ∷ es) tsk h = elim (Bool-cases (ltb ack e.seq_end)) [
  | inl stop ↦ rw stop (ground arith)
  | inr go ↦
      let popped : TcpSock = tcp_sndbuf_pop (record tsk { snd_una = e.seq_end }) es in
      let g = grow-Grown popped (ground arith) in
      let rest = pop_acked-Popped ack es (grow popped) (ground (arith, g)) in
      rw go (
        rest.0,
        rest.1,
        rest.2 ∙ ap (λ una. last_acked una ack es) g.2,
        omega (arith, g.3, rest.3),
        omega (arith, g.4, rest.4),
        rest.5 ∙ g.5,
        rest.6 ∙ g.6,
      )
]

-- What an acknowledgement of new data should leave: the entries from the first that is not
-- acknowledged on, as many in flight, the end of the last one taken off, and a window that has
-- grown by at most one for each entry taken off.
abbrev pub Acked : ℕ → TcpSock → TcpSock → Type 0
Acked ack tsk tsk' =
    (tsk'.send_buf ≡ unacked ack tsk.send_buf)
    × (tsk'.inflight ≡ length tsk'.send_buf)
    × (tsk'.snd_una ≡ last_acked tsk.snd_una ack tsk.send_buf)
    × (tsk.cwnd ≤ tsk'.cwnd)
    × (tsk'.cwnd + length tsk'.send_buf ≤ tsk.cwnd + length tsk.send_buf)

-- An acknowledgement of new data takes off the send buffer the leading entries that end at or before
-- it and no other, moves snd_una to the end of the last of them, and opens the congestion window by
-- at most one segment for each; the count of segments in flight stays that of the entries. The
-- window is at least 1 and within 32 bits for the entries at hand.
pub new_ack-Acked :
    (ack : ℕ) (tsk : TcpSock) → Sound tsk.send_buf tsk → Acked ack tsk (new_ack ack tsk).0
unfolding new_ack after_pop
new_ack-Acked ack tsk h =
    let popped = pop_acked-Popped ack tsk.send_buf (record tsk { ack_time = 0 }) h in
    ground (arith, popped)

-- Three duplicates in a row, from the open state: the first two do nothing but count, the third
-- sends the first unacknowledged segment again and begins the recovery, with half the window as the
-- threshold and snd_nxt as its end, and leaves the window as it is.
pub duplicate_ack_lem :
    (tsk : TcpSock)
    → tsk.nrstate ≡ open_state
    → tsk.ack_time ≡ 0
    → tsk.cwnd + 1 < 2 ^ 32
    → let (one, sent) = duplicate_ack tsk in
      let (two, sent') = duplicate_ack one in
      let (three, sent'') = duplicate_ack two in
      (sent ≡ [])
      × (sent' ≡ [])
      × (sent'' ≡ resend_first tsk.send_buf)
      × (three.nrstate ≡ recover)
      × (three.ssthresh ≡ (tsk.cwnd + 1) / 2)
      × (three.recovery_point ≡ tsk.snd_nxt)
      × (three.cwnd ≡ tsk.cwnd)
unfolding duplicate_ack
duplicate_ack_lem tsk is_open none_yet high = ground arith
