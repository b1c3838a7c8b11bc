-- ===== src/Tcp/Input/Moves.antt =====
-- The state machine of RFC 793, and tcp_process of Lab15/16-tcp_stack/tcp_in.c against it.
use ucas_computer_network_la.Prelude.{
  ℕ, ◌+◌, ◌≡◌, refl, sym, subst, inl, inr, Bool, true, false, List, [], ◌∷◌, arith, ◌==◌,
  Bool-cases, ◌||◌,
}
use ucas_computer_network_la.Tcp.{
  TcpSock, TcpState, Cb, Event, closed, listen, syn_recv, syn_sent, established, close_wait,
  last_ack, fin_wait_1, fin_wait_2, closing, time_wait, flag_fin, flag_psh, flag_ack, has_flag,
  transmit, tcp_set_state, tcp_send_control_packet, tcp_init_hdr,
}
use ucas_computer_network_la.Tcp.Input.{
  Outcome, processed, waits_for_room, aborted, damaged, tcp_process, dispatch, just, process_fin,
  with_reply,
}
use ucas_computer_network_la.Tcp.Input.Keeps.{InState}
use ucas_computer_network_la.Tcp.Input.States.{
  after_ack, after_data, after_ack_fin, after_fin, next_state, tcp_process-InState,
}

-- What moves a connection on: a call of the user, a segment, or the end of a wait.
pub data Cause : Type 0 where
  passive_open active_open close_call rcv_syn rcv_syn_ack rcv_ack rcv_fin timeout : Cause

-- The diagram of RFC 793, section 3.2, without the simultaneous opening.
pub data Move : Cause → TcpState → TcpState → Type 0 where
  opens_passive : Move passive_open closed listen
  opens_active : Move active_open closed syn_sent
  asked : Move rcv_syn listen syn_recv
  answered : Move rcv_syn_ack syn_sent established
  confirmed : Move rcv_ack syn_recv established
  peer_closes : Move rcv_fin established close_wait
  closes : Move close_call established fin_wait_1
  closes_early : Move close_call syn_recv fin_wait_1
  closes_second : Move close_call close_wait last_ack
  fin_acked : Move rcv_ack fin_wait_1 fin_wait_2
  both_close : Move rcv_fin fin_wait_1 closing
  both_acked : Move rcv_ack closing time_wait
  peer_done : Move rcv_fin fin_wait_2 time_wait
  last_acked : Move rcv_ack last_ack closed
  waited : Move timeout time_wait closed

-- Moves one after another, each for a cause that is allowed.
pub data Moves (Allowed : Cause → Type 0) : TcpState → TcpState → Type 0 where
  stays : {a : TcpState} → Moves Allowed a a
  moves :
      {c : Cause} {a b d : TcpState}
      → Allowed c
      → Move c a b
      → Moves Allowed b d
      → Moves Allowed a d

-- Whether a segment with FIN is sent: this is what a close call does.
abbrev sends_fin : List Event → Bool
sends_fin [] = false
sends_fin (transmit s ∷ es) = has_flag s.flags flag_fin || sends_fin es
sends_fin (e ∷ es) = sends_fin es

-- The causes that a segment with the flags given may have, where the socket answers with the events.
abbrev pub Caused : ℕ → List Event → Cause → Type 0
Caused flags es rcv_ack = has_flag flags flag_ack ≡ true
Caused flags es rcv_fin = has_flag flags flag_fin ≡ true
Caused flags es close_call = sends_fin es ≡ true
Caused flags es passive_open = ⊥
Caused flags es active_open = ⊥
Caused flags es rcv_syn = ⊥
Caused flags es rcv_syn_ack = ⊥
Caused flags es timeout = ⊥

abbrev pub Conforms : TcpState → ℕ → Outcome → Type 0
Conforms s flags (processed tsk es) = Moves (Caused flags es) s tsk.state
Conforms s flags waits_for_room = Unit {0}
Conforms s flags aborted = Unit {0}
Conforms s flags damaged = Unit {0}

-- One move, or two.
once :
    {Allowed : Cause → Type 0} {c : Cause} {a b : TcpState}
    → Allowed c
    → Move c a b
    → Moves Allowed a b
once h m = moves h m stays

after_ack-Moves : (es : List Event) (s : TcpState) → Moves (Caused flag_ack es) s (after_ack s)
unfolding has_flag
after_ack-Moves es syn_recv = once refl confirmed
after_ack-Moves es fin_wait_1 = once refl fin_acked
after_ack-Moves es last_ack = once refl last_acked
after_ack-Moves es _ = stays

after_data-Moves :
    (es : List Event) (s : TcpState) → Moves (Caused (flag_psh + flag_ack) es) s (after_data s)
unfolding has_flag
after_data-Moves es syn_recv = once refl confirmed
after_data-Moves es _ = stays

after_ack_fin-Moves :
    (es : List Event) (s : TcpState) → Moves (Caused (flag_ack + flag_fin) es) s (after_ack_fin s)
unfolding has_flag
after_ack_fin-Moves es fin_wait_1 = moves refl fin_acked (once refl peer_done)
after_ack_fin-Moves es _ = stays

-- A FIN alone.
after_fin-Moves :
    (es : List Event) (s : TcpState)
    → ((s ≡ established) → sends_fin es ≡ true)
    → Moves (Caused flag_fin es) s (after_fin s)
unfolding has_flag
after_fin-Moves es established h = moves refl peer_closes (once (h refl) closes_second)
after_fin-Moves es fin_wait_2 h = once refl peer_done
after_fin-Moves es _ h = stays

-- Every move of the table is a chain of moves of the standard; a FIN in the state ESTABLISHED makes
-- two of them, which needs a FIN in answer.
next_state-Moves :
    (flags : ℕ) (es : List Event) (s : TcpState)
    → (flags ≡ flag_fin → s ≡ established → sends_fin es ≡ true)
    → Moves (Caused flags es) s (next_state flags s)
next_state-Moves flags es s h = elim (Bool-cases (flags == flag_ack)) [
  | inl a ↦ rw a (at flag_ack (ground arith) (after_ack-Moves es s))
  | inr a ↦ rw a (elim (Bool-cases (flags == flag_psh + flag_ack)) [
    | inl b ↦ rw b (at (flag_psh + flag_ack) (ground arith) (after_data-Moves es s))
    | inr b ↦ rw b (elim (Bool-cases (flags == flag_ack + flag_fin)) [
      | inl c ↦ rw c (at (flag_ack + flag_fin) (ground arith) (after_ack_fin-Moves es s))
      | inr c ↦ rw c (elim (Bool-cases (flags == flag_fin)) [
        | inl d ↦ rw d (at flag_fin (ground arith) (after_fin-Moves es s (h (ground arith))))
        | inr d ↦ rw d stays
      ])
    ])
  ])
]
  where
    at : {t : TcpState} (f : ℕ) → f ≡ flags → Moves (Caused f es) s t → Moves (Caused flags es) s t
    at {t} f e m = subst (λ x. Moves (Caused x es) s t) e m

-- What an outcome answers to a FIN.
abbrev AnswersFin : Outcome → Type 0
AnswersFin (processed tsk es) = sends_fin es ≡ true
AnswersFin waits_for_room = Unit {0}
AnswersFin aborted = Unit {0}
AnswersFin damaged = Unit {0}

Conforms-InState :
    (flags : ℕ) (s : TcpState) (o : Outcome)
    → InState (next_state flags s) o
    → (flags ≡ flag_fin → s ≡ established → AnswersFin o)
    → Conforms s flags o
Conforms-InState flags s (processed tsk es) h f =
    subst (Moves (Caused flags es) s) (sym h) (next_state-Moves flags es s f)
Conforms-InState flags s waits_for_room h f = tt
Conforms-InState flags s aborted h f = tt
Conforms-InState flags s damaged h f = tt

tcp_process-AnswersFin :
    (iss : ℕ) (tsk : TcpSock) (cb : Cb)
    → cb.flags ≡ flag_fin
    → tsk.state ≡ established
    → AnswersFin (tcp_process iss tsk cb)
unfolding tcp_process dispatch just process_fin with_reply tcp_set_state has_flag
    tcp_send_control_packet tcp_init_hdr
tcp_process-AnswersFin iss tsk cb h k = rw (h, k) refl

-- The state after a segment that is processed is reached from the state before by moves of the
-- diagram of RFC 793, for causes that the flags of the segment give: the ACK flag, the FIN flag, and a
-- close call where a FIN is sent in answer.
pub tcp_process-Conforms :
    (iss : ℕ) (tsk : TcpSock) (cb : Cb) → Conforms tsk.state cb.flags (tcp_process iss tsk cb)
tcp_process-Conforms iss tsk cb =
    Conforms-InState cb.flags tsk.state (tcp_process iss tsk cb) (tcp_process-InState iss tsk cb)
      (tcp_process-AnswersFin iss tsk cb)
