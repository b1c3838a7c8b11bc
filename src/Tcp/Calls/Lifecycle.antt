-- ===== src/Tcp/Calls/Lifecycle.antt =====
-- The states that a socket of Lab15/16-tcp_stack comes to, over its segments, calls and timers.
use ucas_computer_network_la.Prelude.{
  ℕ, ◌≡◌, refl, sym, subst, inl, inr, List, [], ◌∷◌, Option, none, some, arith, Bool-cases,
  Option-cases,
}
use ucas_computer_network_la.Route.{RtEntry, longest_prefix_match}
use ucas_computer_network_la.Tcp.{
  TcpSock, TcpState, Cb, Segment, SendBuffer, Event, closed, syn_recv, syn_sent, established,
  close_wait, last_ack, fin_wait_1, fin_wait_2, closing, flag_fin, flag_ack, flag_syn,
  tcp_set_state, tcp_sock_close, tcp_send_packet, tcp_sndbuf_push, tcp_sock_read,
}
use ucas_computer_network_la.Ring.{ring_buffer_empty}
use ucas_computer_network_la.Tcp.Input.{Outcome, processed, tcp_process}
use ucas_computer_network_la.Tcp.Input.Keeps.{InState, send_control-state}
use ucas_computer_network_la.Tcp.Input.States.{
  after_ack, after_data, after_ack_fin, after_fin, next_state, tcp_process-InState,
}
use ucas_computer_network_la.Tcp.Timer.{
  scan_retrans, scan_entries, scan_timewait, TimeWait, released, still_waiting, enter_loss,
}
use ucas_computer_network_la.Tcp.Table.{TcpHashTable, tcp_sock_set_sport, tcp_get_port}
use ucas_computer_network_la.Tcp.Calls.{
  Connect, entry_of, no_port, no_route, asleep, tcp_sock_connect, tcp_sock_connected,
  tcp_sock_listen,
}

-- A step of a socket: a segment that is processed to its end without a wait for room, a call of the
-- application (of tcp_sock_write one turn, since other steps come in between), or a timer.
pub data Step (tsk : TcpSock) : TcpSock → Type 0 where
  segment :
      {tsk' : TcpSock} {es : List Event} (iss : ℕ) (cb : Cb)
      → tcp_process iss tsk cb ≡ processed tsk' es
      → Step tsk tsk'
  closed_by_user : Step tsk (tcp_sock_close tsk).0
  listens :
      (id backlog : ℕ) (t : TcpHashTable)
      → tsk.state ≡ closed
      → Step tsk (tcp_sock_listen id backlog t tsk).0
  connects :
      {tsk' : TcpSock} {t' : TcpHashTable} {k : ℕ} {p : Segment} (id iss ip port : ℕ)
      (rtable : List RtEntry) (ips : List ℕ) (t : TcpHashTable)
      → tcp_sock_connect id iss ip port rtable ips t tsk ≡ asleep tsk' t' k p
      → Step tsk tsk'
  connected : Step tsk (tcp_sock_connected tsk).0
  accepted : Step tsk (tcp_set_state tsk established)
  writes : (data_bytes : List ℕ) → Step tsk (tcp_send_packet tsk data_bytes).0
  reads :
      {tsk' : TcpSock} {n : ℕ} {out : List ℕ} (len : ℕ)
      → tcp_sock_read tsk len ≡ some (n, out, tsk')
      → Step tsk tsk'
  resends : Step tsk (scan_retrans tsk).0
  expires :
      {tsk' : TcpSock} {es : List Event} (left : ℕ)
      → scan_timewait left tsk ≡ released tsk' es
      → Step tsk tsk'

pub data Steps (a : TcpSock) : TcpSock → Type 0 where
  start : Steps a a
  next : {b c : TcpSock} → Steps a b → Step b c → Steps a c

-- The states of the standard that the code has a use for.
abbrev pub IsUsed : TcpState → Type 0
IsUsed close_wait = ⊥
IsUsed closing = ⊥
IsUsed _ = Unit {0}

after_ack-IsUsed : (s : TcpState) → IsUsed s → IsUsed (after_ack s)
after_ack-IsUsed syn_recv h = tt
after_ack-IsUsed fin_wait_1 h = tt
after_ack-IsUsed last_ack h = tt
after_ack-IsUsed _ h = h

after_data-IsUsed : (s : TcpState) → IsUsed s → IsUsed (after_data s)
after_data-IsUsed syn_recv h = tt
after_data-IsUsed _ h = h

after_ack_fin-IsUsed : (s : TcpState) → IsUsed s → IsUsed (after_ack_fin s)
after_ack_fin-IsUsed fin_wait_1 h = tt
after_ack_fin-IsUsed _ h = h

after_fin-IsUsed : (s : TcpState) → IsUsed s → IsUsed (after_fin s)
after_fin-IsUsed established h = tt
after_fin-IsUsed fin_wait_2 h = tt
after_fin-IsUsed _ h = h

next_state-IsUsed : (flags : ℕ) (s : TcpState) → IsUsed s → IsUsed (next_state flags s)
next_state-IsUsed flags s h = ground (
  arith,
  after_ack-IsUsed s h,
  after_data-IsUsed s h,
  after_ack_fin-IsUsed s h,
  after_fin-IsUsed s h,
)

abbrev after_close : TcpState → TcpState
after_close established = fin_wait_1
after_close close_wait = last_ack
after_close s = s

close-state : (tsk : TcpSock) → (tcp_sock_close tsk).0.state ≡ after_close tsk.state
unfolding tcp_sock_close tcp_set_state
close-state tsk = ground (
  arith,
  send_control-state (record tsk { state = fin_wait_1 }) flag_fin,
  send_control-state (record tsk { state = last_ack }) flag_fin,
)

after_close-IsUsed : (s : TcpState) → IsUsed s → IsUsed (after_close s)
after_close-IsUsed established h = tt
after_close-IsUsed close_wait h = tt
after_close-IsUsed _ h = h

-- The state of a socket that fell asleep in connect.
abbrev Asks : Connect → Type 0
Asks no_port = Unit {0}
Asks no_route = Unit {0}
Asks (asleep tsk t k p) = tsk.state ≡ syn_sent

connect-Asks :
    (id iss ip port : ℕ) (rtable : List RtEntry) (ips : List ℕ) (t : TcpHashTable) (tsk : TcpSock)
    → Asks (tcp_sock_connect id iss ip port rtable ips t tsk)
unfolding tcp_sock_connect
connect-Asks id iss ip port rtable ips t tsk =
    elim (Option-cases (tcp_sock_set_sport (entry_of id tsk) (tcp_get_port t) t)) [
      | inl e ↦ rw (e, Asks) tt
      | inr (bound, e) ↦
          rw (e, Asks)
            (elim (Option-cases (longest_prefix_match ip rtable)) [
              | inl f ↦ rw (f, Asks) tt
              | inr (entry, f) ↦ rw (f, Asks) (send_control-state _ flag_syn)
            ])
    ]

scan_entries-state :
    (es : List SendBuffer) (tsk : TcpSock) → (scan_entries es tsk).1.state ≡ tsk.state
unfolding scan_entries enter_loss
scan_entries-state [] tsk = refl
scan_entries-state (e ∷ es) tsk =
    ground (arith, scan_entries-state es tsk, scan_entries-state es (enter_loss tsk))

abbrev Expires : TimeWait → Type 0
Expires (still_waiting left) = Unit {0}
Expires (released tsk es) = tsk.state ≡ closed

scan_timewait-Expires : (left : ℕ) (tsk : TcpSock) → Expires (scan_timewait left tsk)
unfolding scan_timewait tcp_set_state
scan_timewait-Expires left tsk = ground arith

send_packet-state :
    (tsk : TcpSock) (data_bytes : List ℕ) → (tcp_send_packet tsk data_bytes).0.state ≡ tsk.state
unfolding tcp_send_packet tcp_sndbuf_push
send_packet-state tsk data_bytes = ground arith

-- The state of a socket that was read from.
abbrev ReadsIn : TcpState → Option (ℕ × List ℕ × TcpSock) → Type 0
ReadsIn s none = Unit {0}
ReadsIn s (some (n, out, tsk)) = tsk.state ≡ s

read-state : (tsk : TcpSock) (len : ℕ) → ReadsIn tsk.state (tcp_sock_read tsk len)
unfolding tcp_sock_read
read-state tsk len = elim (Bool-cases (ring_buffer_empty tsk.rcv_buf)) [
  | inl empty ↦ rw (empty, ReadsIn) tt
  | inr more ↦ rw (more, ReadsIn) refl
]

-- A state that is carried over.
carried : {s s' : TcpState} → s' ≡ s → IsUsed s → IsUsed s'
carried e h = subst IsUsed (sym e) h

-- The socket of an outcome that is known.
outcome_state :
    {s : TcpState} {tsk : TcpSock} {es : List Event} (o : Outcome)
    → o ≡ processed tsk es
    → InState s o
    → tsk.state ≡ s
outcome_state {s} o e h = subst (InState s) e h

Step-IsUsed : {a b : TcpSock} → Step a b → IsUsed a.state → IsUsed b.state
unfolding tcp_sock_listen tcp_sock_connected tcp_set_state scan_retrans
Step-IsUsed {a} {b} (segment iss cb e) h =
    carried (outcome_state (tcp_process iss a cb) e (tcp_process-InState iss a cb))
      (next_state-IsUsed cb.flags a.state h)
Step-IsUsed {a} {b} closed_by_user h = carried (close-state a) (after_close-IsUsed a.state h)
Step-IsUsed {a} {b} (listens id backlog t e) h = tt
Step-IsUsed {a} {b} (connects id iss ip port rtable ips t e) h =
    carried (subst Asks e (connect-Asks id iss ip port rtable ips t a)) tt
Step-IsUsed {a} {b} connected h =
    carried (send_control-state (record a { state = established }) flag_ack) tt
Step-IsUsed {a} {b} accepted h = tt
Step-IsUsed {a} {b} (writes data_bytes) h = carried (send_packet-state a data_bytes) h
Step-IsUsed {a} {b} (reads len e) h = carried (subst (ReadsIn a.state) e (read-state a len)) h
Step-IsUsed {a} {b} resends h = carried (scan_entries-state a.send_buf a) h
Step-IsUsed {a} {b} (expires left e) h = carried (subst Expires e (scan_timewait-Expires left a)) tt

-- A socket that starts in another state is in no run of these steps in CLOSE_WAIT or in CLOSING: segments
-- that are processed without a wait for room, connect, listen, accept, read, write and close, and the
-- timers. So the branch of tcp_sock_close for CLOSE_WAIT is not reached by such a run.
pub Steps-IsUsed : {a b : TcpSock} → Steps a b → IsUsed a.state → IsUsed b.state
Steps-IsUsed start h = h
Steps-IsUsed (next before one) h = Step-IsUsed one (Steps-IsUsed before h)
