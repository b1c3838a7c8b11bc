-- ===== src/Tcp/Timer.antt =====
-- tcp_timer.c of Lab15/16-tcp_stack. The list of timers holds sockets with the kind of timer; here
-- are the steps of a scan for a timer of each kind. The unit is a scan interval of 100000 μs.
pub mod Retrans
use ucas_computer_network_la.Prelude.{
  ℕ, zero, suc, ◌+◌, ◌-◌, ◌*◌, ◌/◌, ◌%◌, ◌^◌, Bool, true, false, not, List, [], ◌∷◌, ◌++◌, ltb, leb,
  ◌==◌, if◌then◌else◌,
}
use ucas_computer_network_la.Tcp.{
  TcpSock, SendBuffer, Event, NrState, loss, open_state, recover, closed, mss,
  tcp_retrans_interval_initial, tcp_set_state, bind_unhash, transmit,
}

abbrev pub tcp_timer_scan_interval : ℕ
tcp_timer_scan_interval = 100000

abbrev pub tcp_timewait_timeout : ℕ
tcp_timewait_timeout = 2000000

-- What a timeout does to the congestion state.
unfoldable pub enter_loss : TcpSock → TcpSock
enter_loss tsk = record tsk {
  recovery_point = elim tsk.nrstate [ loss ↦ tsk.recovery_point | _ ↦ tsk.snd_nxt ];
  nrstate = loss;
  ssthresh = ((tsk.cwnd + 1) % 2 ^ 32) / 2;
  cwnd = 1;
  snd_wnd = mss;
}

-- An entry whose time has run out: from the third time on it waits again without being sent.
pub retry : SendBuffer → SendBuffer × List Event
retry entry =
    let times = entry.times + 1 in
    if entry.times == 3
    then (record entry { times = 1; timeout = tcp_retrans_interval_initial }, [])
    else if times == 2
    then (
      record entry { times = times; timeout = times * tcp_retrans_interval_initial },
      transmit entry.packet ∷ [],
    )
    else (
      record entry { times = times; timeout = 4 * tcp_retrans_interval_initial },
      transmit entry.packet ∷ [],
    )

-- The time of an entry has run out where it comes to exactly 0: a time below the interval, which
-- would go negative, does not count.
pub runs_out : SendBuffer → Bool
runs_out entry = entry.timeout == tcp_timer_scan_interval

-- The loop over the send buffer; the socket carries the congestion state from entry to entry.
unfoldable pub scan_entries : List SendBuffer → TcpSock → List SendBuffer × TcpSock × List Event
scan_entries [] tsk = ([], tsk, [])
scan_entries (entry ∷ rest) tsk =
    let left : SendBuffer = record entry { timeout = entry.timeout - tcp_timer_scan_interval } in
    let (entry', sent) = if runs_out entry then retry left else (left, []) in
    let (rest', tsk', more) = scan_entries rest (if runs_out entry then enter_loss tsk else tsk) in
    (entry' ∷ rest', tsk', sent ++ more)

-- A scan of the retransmission timer of a socket.
unfoldable pub scan_retrans : TcpSock → TcpSock × List Event
scan_retrans tsk =
    let (send_buf, tsk', events) = scan_entries tsk.send_buf tsk in
    (record tsk' { send_buf = send_buf }, events)

-- A scan of a time-wait timer with `timeout` left; where it is over the socket is closed, taken off
-- the table of bound ports unless it has a parent, and the timer goes.
pub data TimeWait : Type 0 where
  still_waiting : (timeout : ℕ) → TimeWait
  released : TcpSock → List Event → TimeWait

unfoldable pub scan_timewait : ℕ → TcpSock → TimeWait
scan_timewait timeout tsk =
    if leb timeout tcp_timer_scan_interval
    then released (tcp_set_state tsk closed) (if tsk.has_parent then [] else bind_unhash ∷ [])
    else still_waiting (timeout - tcp_timer_scan_interval)
