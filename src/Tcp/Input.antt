-- ===== src/Tcp/Input.antt =====
-- tcp_process of Lab15/16-tcp_stack/tcp_in.c.
pub mod Congestion
pub mod Keeps
pub mod Moves
pub mod Handshake
pub mod States
pub mod Stream
use ucas_computer_network_la.Prelude.{
  ℕ, zero, suc, ◌+◌, ◌-◌, ◌*◌, ◌/◌, ◌%◌, ◌^◌, Bool, true, false, not, ◌&&◌, List, [], ◌∷◌, ◌++◌,
  Option, none, some, ltb, leb, ◌==◌, if◌then◌else◌, min,
}
use ucas_computer_network_la.Ring.{ring_buffer_free, write_ring_buffer}
use ucas_computer_network_la.Tcp.{
  TcpSock, Cb, SendBuffer, OfoBuffer, Event, Segment, TcpState, NrState, closed, listen, syn_recv,
  syn_sent, established, last_ack, fin_wait_1, fin_wait_2, time_wait, loss, open_state, recover,
  mss, flag_fin, flag_syn, flag_psh, flag_ack, has_flag, less_than_32b, less_or_equal_32b,
  tcp_set_state, tcp_sndbuf_pop, tcp_send_control_packet, alloc_tcp_sock, wake_connect, wake_accept,
  wake_send, wake_recv, accept_enqueue, bind_unhash, unhash, timewait_timer, wild_read, transmit,
  new_child,
}

-- A segment's outcome: the socket and the events; or the thread sleeps until the application has
-- read from the buffer; or the assertion of write_ring_buffer fails; or the insertion of a segment
-- before the first one of the list damages the links of the list.
pub data Outcome : Type 0 where
  processed : TcpSock → List Event → Outcome
  waits_for_room aborted damaged : Outcome

-- `old_snd_wnd` is a u16 copy of the u32 window.
pub tcp_update_window : TcpSock → Cb → TcpSock × List Event
tcp_update_window tsk cb =
    let adv = cb.rwnd % 2 ^ 16 in
    (
      record tsk { adv_wnd = adv; snd_wnd = min adv ((tsk.cwnd * mss) % 2 ^ 32) },
      if tsk.snd_wnd % 2 ^ 16 == 0 then wake_send ∷ [] else [],
    )

pub tcp_update_window_safe : TcpSock → Cb → TcpSock × List Event
tcp_update_window_safe tsk cb =
    if less_or_equal_32b tsk.snd_una cb.ack && less_or_equal_32b cb.ack tsk.snd_nxt
    then tcp_update_window tsk cb
    else (tsk, [])

pub is_tcp_seq_valid : TcpSock → Cb → Bool
is_tcp_seq_valid tsk cb =
    let wnd = if ltb 1 tsk.rcv_wnd then tsk.rcv_wnd else 1 in
    less_than_32b cb.seq ((tsk.rcv_nxt + wnd) % 2 ^ 32) && less_or_equal_32b tsk.rcv_nxt cb.seq_end

-- The first unacknowledged segment is sent again, if there is one.
pub resend_first : List SendBuffer → List Event
resend_first [] = []
resend_first (e ∷ es) = transmit e.packet ∷ []

-- The branch `cb->ack == tsk->snd_una`.
pub duplicate_ack : TcpSock → TcpSock × List Event
duplicate_ack tsk =
    let t = tsk.ack_time + 1 in
    elim tsk.nrstate [
      | open_state ↦
          if ltb 2 t
          then (
            record tsk {
              ack_time = t;
              nrstate = recover;
              ssthresh = ((tsk.cwnd + 1) % 2 ^ 32) / 2;
              recovery_point = tsk.snd_nxt;
            },
            resend_first tsk.send_buf,
          )
          else (record tsk { ack_time = t }, [])
      | recover ↦
          if ltb 1 t
          then (let less = (tsk.cwnd + 2 ^ 32 - 1) % 2 ^ 32 in
              (record tsk { ack_time = t - 2; cwnd = if ltb less 1 then 1 else less }, []))
          else (record tsk { ack_time = t }, [])
      | loss ↦ (record tsk { ack_time = t }, [])
    ]

-- One more segment acknowledged: slow start, or congestion avoidance.
pub grow : TcpSock → TcpSock
grow tsk = elim tsk.nrstate [
  | open_state ↦
      if ltb tsk.cwnd tsk.ssthresh
      then record tsk { cwnd = (tsk.cwnd + 1) % 2 ^ 32 }
      else if leb tsk.cwnd ((tsk.cnt + 1) % 2 ^ 32)
      then record tsk { cnt = 0; cwnd = (tsk.cwnd + 1) % 2 ^ 32 }
      else record tsk { cnt = (tsk.cnt + 1) % 2 ^ 32 }
  | _ ↦ tsk
]

-- The loop that takes the acknowledged segments off the buffer, over the entries left.
pub pop_acked : ℕ → List SendBuffer → TcpSock → TcpSock
pop_acked ack [] tsk = tsk
pop_acked ack (entry ∷ rest) tsk =
    let next =
      pop_acked ack rest (grow (tcp_sndbuf_pop (record tsk { snd_una = entry.seq_end }) rest)) in
    if ltb ack entry.seq_end then tsk else next

-- In recovery the entry at which the loop has stopped is sent again; where the loop has gone through
-- the whole list, `entry` is no entry, and what is read is wild.
resend_next : List SendBuffer → List Event
resend_next [] = wild_read ∷ []
resend_next (e ∷ es) = transmit e.packet ∷ []

-- What follows the loop.
pub after_pop : ℕ → TcpSock → TcpSock × List Event
after_pop ack tsk = elim tsk.nrstate [
  | recover ↦
      if leb tsk.recovery_point ack
      then (record tsk { nrstate = open_state }, [])
      else (tsk, resend_next tsk.send_buf)
  | loss ↦
      if leb tsk.recovery_point ack then (record tsk { nrstate = open_state }, []) else (tsk, [])
  | open_state ↦ (tsk, [])
]

pub new_ack : ℕ → TcpSock → TcpSock × List Event
new_ack ack tsk = after_pop ack (pop_acked ack tsk.send_buf (record tsk { ack_time = 0 }))

-- The block under `cb->flags == TCP_ACK`.
pub handle_ack : TcpSock → Cb → TcpSock × List Event
handle_ack tsk cb =
    let (tsk', sent) = if cb.ack == tsk.snd_una then duplicate_ack tsk else new_ack cb.ack tsk in
    let (tsk'', woken) = tcp_update_window_safe tsk' cb in (tsk'', sent ++ woken)

-- `TCP_SYN` at a listening socket; `iss` is the random number of tcp_new_iss.
pub open_child : ℕ → TcpSock → Cb → List Event
open_child iss tsk cb =
    let child = record alloc_tcp_sock {
      sk_sip = cb.daddr;
      sk_dip = cb.saddr;
      sk_dport = cb.sport;
      sk_sport = cb.dport;
      has_parent = true;
      iss = iss;
      snd_una = tsk.snd_una;
      rcv_nxt = tsk.rcv_nxt;
      snd_nxt = tsk.iss;
      rcv_wnd = tsk.rcv_wnd;
      state = syn_recv;
    } in
    let (child', packet) = tcp_send_control_packet child (flag_syn + flag_ack) in
    new_child child' ∷ transmit packet ∷ []

-- The state machine at `TCP_ACK`.
pub process_ack : TcpSock → TcpSock × List Event
process_ack tsk = elim tsk.state [
  | syn_recv ↦ (tcp_set_state tsk established, accept_enqueue ∷ wake_accept ∷ [])
  | established ↦ elim tsk.nrstate [ open_state ↦ (tsk, wake_send ∷ []) | _ ↦ (tsk, []) ]
  | fin_wait_1 ↦ (tcp_set_state tsk fin_wait_2, [])
  | last_ack ↦
      (tcp_set_state tsk closed, if tsk.has_parent then unhash ∷ [] else bind_unhash ∷ unhash ∷ [])
  | _ ↦ (tsk, [])
]

-- A control segment that ends a step.
pub with_reply : TcpSock → ℕ → List Event → TcpSock × List Event
with_reply tsk flags more =
    let (tsk', packet) = tcp_send_control_packet tsk flags in (tsk', transmit packet ∷ more)

pub process_fin : TcpSock → TcpSock × List Event
process_fin tsk = elim tsk.state [
  | established ↦
      with_reply (tcp_set_state tsk last_ack) (flag_ack + flag_fin) (timewait_timer ∷ [])
  | fin_wait_2 ↦ with_reply (tcp_set_state tsk time_wait) flag_ack (timewait_timer ∷ [])
  | _ ↦ (tsk, [])
]

pub process_ack_fin : TcpSock → TcpSock × List Event
process_ack_fin tsk = elim tsk.state [
  | fin_wait_1 ↦ with_reply (tcp_set_state tsk time_wait) flag_ack (timewait_timer ∷ [])
  | _ ↦ (tsk, [])
]

-- write_ofo_buffer: `before` is whether the walk has passed an entry. The head of the list is copied
-- for the walk, so that an insertion before the first entry links the new one to the copy: `none`.
pub write_ofo_buffer : OfoBuffer → Bool → List OfoBuffer → Option (List OfoBuffer)
write_ofo_buffer buf before [] = some (buf ∷ [])
write_ofo_buffer buf before (pos ∷ rest) =
    let deeper = write_ofo_buffer buf true rest in
    if ltb pos.seq buf.seq
    then (elim deeper [ none ↦ none | some rest' ↦ some (pos ∷ rest') ])
    else if buf.seq == pos.seq
    then some (pos ∷ rest)
    else if before
    then some (buf ∷ pos ∷ rest)
    else none

-- Data at the right place goes into the receive buffer.
pub data Written : Type 0 where
  no_room refused : Written
  wrote : TcpSock → Written

pub store : TcpSock → List ℕ → ℕ → Written
store tsk payload pl_len =
    if ltb (ring_buffer_free tsk.rcv_buf) pl_len
    then no_room
    else (elim (write_ring_buffer tsk.rcv_buf payload) [
      | none ↦ refused
      | some rcv_buf ↦
          wrote
            (record tsk { rcv_buf = rcv_buf; rcv_wnd = (tsk.rcv_wnd + 2 ^ 16 - pl_len) % 2 ^ 16 })
    ])

-- The loop over the segments that came early: `seq_end` is the end of what is stored.
pub take_early : ℕ → List OfoBuffer → TcpSock → Outcome
take_early seq_end [] tsk = processed (record tsk { rcv_nxt = seq_end; rcv_ofo_buf = [] }) []
take_early seq_end (entry ∷ rest) tsk = elim (ltb seq_end entry.seq) [
  | true ↦ processed (record tsk { rcv_nxt = seq_end; rcv_ofo_buf = entry ∷ rest }) []
  | false ↦ elim (store tsk entry.payload entry.pl_len) [
    | no_room ↦ waits_for_room
    | refused ↦ aborted
    | wrote tsk' ↦ take_early entry.seq_end rest tsk'
  ]
]

unfoldable pub ofo_of : Cb → OfoBuffer
ofo_of cb = record { seq = cb.seq; seq_end = cb.seq_end; payload = cb.payload; pl_len = cb.pl_len }

-- The three cases of a data segment, up to the acknowledgement.
pub receive : TcpSock → Cb → Outcome
receive tsk cb = elim (tsk.rcv_nxt == cb.seq) [
  | true ↦ elim (store tsk cb.payload cb.pl_len) [
    | no_room ↦ waits_for_room
    | refused ↦ aborted
    | wrote tsk' ↦ take_early cb.seq_end tsk'.rcv_ofo_buf tsk'
  ]
  | false ↦ elim (ltb tsk.rcv_nxt cb.seq) [
    | true ↦ elim (write_ofo_buffer (ofo_of cb) false tsk.rcv_ofo_buf) [
      | none ↦ damaged
      | some early ↦ processed (record tsk { rcv_ofo_buf = early }) []
    ]
    | false ↦ processed tsk []
  ]
]

-- The end of process_data. Its two calls of wake_up are made only where the flag `sleep` of the structure
-- is set, which is no part of a socket here: the events stand for the tests with the calls.
pub acknowledge : Bool → Outcome → Outcome
acknowledge old (processed tsk events) =
    let (tsk', packet) = tcp_send_control_packet tsk flag_ack in
    processed tsk' (
      if old
      then transmit packet ∷ []
      else wake_recv
        ∷ transmit packet
        ∷ (elim tsk.nrstate [ open_state ↦ wake_send ∷ [] | _ ↦ [] ]))
acknowledge old waits_for_room = waits_for_room
acknowledge old aborted = aborted
acknowledge old damaged = damaged

-- The state machine at `TCP_PSH | TCP_ACK`.
pub process_data : TcpSock → Cb → Outcome
process_data tsk cb =
    let tsk' : TcpSock = elim tsk.state [ syn_recv ↦ tcp_set_state tsk established | _ ↦ tsk ] in
    acknowledge (ltb cb.seq tsk'.rcv_nxt) (receive tsk' cb)

pub just : TcpSock × List Event → Outcome
just (tsk, events) = processed tsk events

-- The switch over `cb->flags`.
pub dispatch : ℕ → TcpSock → Cb → Outcome
dispatch iss tsk cb =
    if cb.flags == flag_syn
    then (elim tsk.state [ listen ↦ processed tsk (open_child iss tsk cb) | _ ↦ processed tsk [] ])
    else if cb.flags == flag_syn + flag_ack
    then (elim tsk.state [ syn_sent ↦ processed tsk (wake_connect ∷ []) | _ ↦ processed tsk [] ])
    else if cb.flags == flag_ack
    then just (process_ack tsk)
    else if cb.flags == flag_psh + flag_ack
    then process_data tsk cb
    else if cb.flags == flag_ack + flag_fin
    then just (process_ack_fin tsk)
    else if cb.flags == flag_fin
    then just (process_fin tsk)
    else processed tsk []

pub followed_by : List Event → Outcome → Outcome
followed_by events (processed tsk more) = processed tsk (events ++ more)
followed_by events waits_for_room = waits_for_room
followed_by events aborted = aborted
followed_by events damaged = damaged

pub tcp_process : ℕ → TcpSock → Cb → Outcome
tcp_process iss tsk cb =
    let seen = if has_flag cb.flags flag_psh then tsk else record tsk { rcv_nxt = cb.seq_end } in
    if cb.flags == flag_ack
    then (let (tsk', events) = handle_ack seen cb in followed_by events (dispatch iss tsk' cb))
    else dispatch iss seen cb
