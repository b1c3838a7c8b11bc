-- ===== src/Tcp/Input/States.antt =====
-- tcp_process of Lab15/16-tcp_stack/tcp_in.c as a machine on the states of a connection.
use ucas_computer_network_la.Prelude.{
  ℕ, ◌+◌, ◌≡◌, refl, subst, ◌∙◌, ◌⊎◌, inl, inr, Bool, true, false, List, arith, ltb, ◌==◌,
  if◌then◌else◌, Bool-cases,
}
use ucas_computer_network_la.Tcp.{
  TcpSock, TcpState, Cb, Event, closed, syn_recv, established, last_ack, fin_wait_1, fin_wait_2,
  time_wait, flag_fin, flag_syn, flag_psh, flag_ack, has_flag, tcp_set_state,
}
use ucas_computer_network_la.Tcp.Input.{
  Outcome, processed, waits_for_room, aborted, damaged, process_ack, process_fin, process_ack_fin,
  process_data, with_reply, dispatch, just, followed_by, receive, handle_ack, tcp_process,
}
use ucas_computer_network_la.Tcp.Input.Keeps.{
  send_control-state, handle_ack-state, InState, receive-InState, acknowledge-InState,
}

-- The state after a segment, by the four kinds of segment that may change it.
abbrev pub after_ack : TcpState → TcpState
after_ack syn_recv = established
after_ack fin_wait_1 = fin_wait_2
after_ack last_ack = closed
after_ack s = s

abbrev pub after_data : TcpState → TcpState
after_data syn_recv = established
after_data s = s

abbrev pub after_ack_fin : TcpState → TcpState
after_ack_fin fin_wait_1 = time_wait
after_ack_fin s = s

abbrev pub after_fin : TcpState → TcpState
after_fin established = last_ack
after_fin fin_wait_2 = time_wait
after_fin s = s

abbrev pub next_state : ℕ → TcpState → TcpState
next_state flags s =
    if flags == flag_ack
    then after_ack s
    else if flags == flag_psh + flag_ack
    then after_data s
    else if flags == flag_ack + flag_fin
    then after_ack_fin s
    else if flags == flag_fin
    then after_fin s
    else s

process_ack-state : (tsk : TcpSock) → (process_ack tsk).0.state ≡ after_ack tsk.state
unfolding process_ack tcp_set_state
process_ack-state tsk = ground arith

process_ack_fin-state : (tsk : TcpSock) → (process_ack_fin tsk).0.state ≡ after_ack_fin tsk.state
unfolding process_ack_fin with_reply tcp_set_state
process_ack_fin-state tsk =
    ground (arith, send_control-state (record tsk { state = time_wait }) flag_ack)

process_fin-state : (tsk : TcpSock) → (process_fin tsk).0.state ≡ after_fin tsk.state
unfolding process_fin with_reply tcp_set_state
process_fin-state tsk = ground (
  arith,
  send_control-state (record tsk { state = time_wait }) flag_ack,
  send_control-state (record tsk { state = last_ack }) (flag_ack + flag_fin),
)

process_data-InState :
    (tsk : TcpSock) (cb : Cb) → InState (after_data tsk.state) (process_data tsk cb)
unfolding process_data tcp_set_state
process_data-InState tsk cb =
    let tsk' : TcpSock = elim tsk.state [ syn_recv ↦ tcp_set_state tsk established | _ ↦ tsk ] in
    let same : tsk'.state ≡ after_data tsk.state = ground arith in
    subst (λ s. InState s (process_data tsk cb)) same
      (acknowledge-InState tsk'.state (ltb cb.seq tsk'.rcv_nxt) (receive tsk' cb)
        (receive-InState tsk' cb))

just-InState : (s : TcpState) (r : TcpSock × List Event) → r.0.state ≡ s → InState s (just r)
unfolding just
just-InState s (tsk, es) h = h

followed_by-InState :
    (s : TcpState) (es : List Event) (o : Outcome) → InState s o → InState s (followed_by es o)
unfolding followed_by
followed_by-InState s es (processed tsk more) h = h
followed_by-InState s es waits_for_room h = tt
followed_by-InState s es aborted h = tt
followed_by-InState s es damaged h = tt

next_state-syn :
    (flags : ℕ) (s : TcpState)
    → (flags ≡ flag_syn) ⊎ (flags ≡ flag_syn + flag_ack)
    → next_state flags s ≡ s
next_state-syn flags s h = ground arith

dispatch-InState :
    (iss : ℕ) (tsk : TcpSock) (cb : Cb)
    → InState (next_state cb.flags tsk.state) (dispatch iss tsk cb)
unfolding dispatch
dispatch-InState iss tsk cb = elim (Bool-cases (cb.flags == flag_syn)) [
  | inl b ↦ rw (b, next_state-syn cb.flags tsk.state (inl (ground arith))) (ground arith)
  | inr b ↦ rw b (elim (Bool-cases (cb.flags == flag_syn + flag_ack)) [
    | inl c ↦ rw (c, next_state-syn cb.flags tsk.state (inr (ground arith))) (ground arith)
    | inr c ↦ rw c (elim (Bool-cases (cb.flags == flag_ack)) [
      | inl d ↦ rw d (just-InState (after_ack tsk.state) (process_ack tsk) (process_ack-state tsk))
      | inr d ↦ rw d (elim (Bool-cases (cb.flags == flag_psh + flag_ack)) [
        | inl e ↦ rw e (process_data-InState tsk cb)
        | inr e ↦ rw e (elim (Bool-cases (cb.flags == flag_ack + flag_fin)) [
          | inl f ↦ rw f (
              just-InState (after_ack_fin tsk.state) (process_ack_fin tsk)
                (process_ack_fin-state tsk))
          | inr f ↦ rw f (elim (Bool-cases (cb.flags == flag_fin)) [
            | inl g ↦
                rw g (just-InState (after_fin tsk.state) (process_fin tsk) (process_fin-state tsk))
            | inr g ↦ rw g refl
          ])
        ])
      ])
    ])
  ])
]

-- Whatever a segment makes of the data and the windows, the state after it, if it is processed, is
-- that of the table: it depends on the flags and the state before alone.
pub tcp_process-InState :
    (iss : ℕ) (tsk : TcpSock) (cb : Cb)
    → InState (next_state cb.flags tsk.state) (tcp_process iss tsk cb)
unfolding tcp_process
tcp_process-InState iss tsk cb =
    let seen : TcpSock =
      if has_flag cb.flags flag_psh then tsk else record tsk { rcv_nxt = cb.seq_end } in
    let same : seen.state ≡ tsk.state = ground arith in
    either (next_state cb.flags tsk.state) _ _ (cb.flags == flag_ack)
      (followed_by-InState (next_state cb.flags tsk.state) (handle_ack seen cb).1
        (dispatch iss (handle_ack seen cb).0 cb)
        (dispatched (handle_ack seen cb).0 (handle_ack-state seen cb ∙ same)))
      (dispatched seen same)
  where
    dispatched :
        (t : TcpSock)
        → t.state ≡ tsk.state
        → InState (next_state cb.flags tsk.state) (dispatch iss t cb)
    dispatched t e =
        subst (λ s. InState (next_state cb.flags s) (dispatch iss t cb)) e
          (dispatch-InState iss t cb)

    either :
        (s : TcpState) (x y : Outcome) (b : Bool)
        → InState s x
        → InState s y
        → InState s (if b then x else y)
    either s x y true h k = h
    either s x y false h k = k
