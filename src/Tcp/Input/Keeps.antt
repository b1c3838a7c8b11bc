-- ===== src/Tcp/Input/Keeps.antt =====
-- What leaves the state of a socket as it is in tcp_process of Lab15/16-tcp_stack/tcp_in.c.
use ucas_computer_network_la.Prelude.{
  ℕ, ◌≡◌, refl, subst, ◌∙◌, inl, inr, Bool, false, List, [], ◌∷◌, arith, ltb, ◌==◌, Bool-cases,
  Option-cases,
}
use ucas_computer_network_la.Ring.{ring_buffer_free, write_ring_buffer}
use ucas_computer_network_la.Tcp.{
  TcpSock, TcpState, Cb, SendBuffer, OfoBuffer, tcp_sndbuf_pop, tcp_sndbuf_push,
  tcp_send_control_packet,
}
use ucas_computer_network_la.Tcp.Input.{
  Outcome, processed, waits_for_room, aborted, damaged, Written, no_room, refused, wrote,
  tcp_update_window, tcp_update_window_safe, duplicate_ack, grow, pop_acked, after_pop, new_ack,
  handle_ack, store, take_early, write_ofo_buffer, ofo_of, receive, acknowledge,
}

pub send_control-state :
    (tsk : TcpSock) (flags : ℕ) → (tcp_send_control_packet tsk flags).0.state ≡ tsk.state
unfolding tcp_send_control_packet tcp_sndbuf_push
send_control-state tsk flags = ground arith

grow-state : (tsk : TcpSock) → (grow tsk).state ≡ tsk.state
unfolding grow
grow-state tsk = ground arith

pop_acked-state :
    (ack : ℕ) (es : List SendBuffer) (tsk : TcpSock) → (pop_acked ack es tsk).state ≡ tsk.state
unfolding pop_acked tcp_sndbuf_pop
pop_acked-state ack [] tsk = refl
pop_acked-state ack (e ∷ es) tsk =
    let popped = tcp_sndbuf_pop (record tsk { snd_una = e.seq_end }) es in
    ground (arith, pop_acked-state ack es (grow popped), grow-state popped)

duplicate_ack-state : (tsk : TcpSock) → (duplicate_ack tsk).0.state ≡ tsk.state
unfolding duplicate_ack
duplicate_ack-state tsk = ground arith

after_pop-state : (ack : ℕ) (tsk : TcpSock) → (after_pop ack tsk).0.state ≡ tsk.state
unfolding after_pop
after_pop-state ack tsk = ground arith

new_ack-state : (ack : ℕ) (tsk : TcpSock) → (new_ack ack tsk).0.state ≡ tsk.state
unfolding new_ack
new_ack-state ack tsk =
    after_pop-state ack (pop_acked ack tsk.send_buf (record tsk { ack_time = 0 }))
    ∙ pop_acked-state ack tsk.send_buf (record tsk { ack_time = 0 })

update_window-state :
    (tsk : TcpSock) (cb : Cb) → (tcp_update_window_safe tsk cb).0.state ≡ tsk.state
unfolding tcp_update_window_safe tcp_update_window
update_window-state tsk cb = ground arith

pub handle_ack-state : (tsk : TcpSock) (cb : Cb) → (handle_ack tsk cb).0.state ≡ tsk.state
unfolding handle_ack
handle_ack-state tsk cb = elim (Bool-cases (cb.ack == tsk.snd_una)) [
  | inl same ↦ rw same (update_window-state (duplicate_ack tsk).0 cb ∙ duplicate_ack-state tsk)
  | inr new ↦ rw new (update_window-state (new_ack cb.ack tsk).0 cb ∙ new_ack-state cb.ack tsk)
]

-- An outcome with a socket in the state given.
abbrev pub InState : TcpState → Outcome → Type 0
InState s (processed tsk events) = tsk.state ≡ s
InState s waits_for_room = Unit {0}
InState s aborted = Unit {0}
InState s damaged = Unit {0}

abbrev Keeping : TcpState → Written → Type 0
Keeping s no_room = Unit {0}
Keeping s refused = Unit {0}
Keeping s (wrote tsk) = tsk.state ≡ s

store-Keeping : (tsk : TcpSock) (payload : List ℕ) (n : ℕ) → Keeping tsk.state (store tsk payload n)
unfolding store
store-Keeping tsk payload n = elim (Bool-cases (ltb (ring_buffer_free tsk.rcv_buf) n)) [
  | inl b ↦ rw (b, Keeping) tt
  | inr b ↦
      rw (b, Keeping)
        (elim (Option-cases (write_ring_buffer tsk.rcv_buf payload)) [
          | inl e ↦ rw (e, Keeping) tt
          | inr (r, e) ↦ rw (e, Keeping) refl
        ])
]

-- A step after the storing of data.
after_store :
    (s : TcpState) (w : Written) (next : TcpSock → Outcome)
    → Keeping s w
    → ((tsk : TcpSock) → tsk.state ≡ s → InState s (next tsk))
    → InState s (elim w [ no_room ↦ waits_for_room | refused ↦ aborted | wrote tsk ↦ next tsk ])
after_store s no_room next k h = tt
after_store s refused next k h = tt
after_store s (wrote tsk) next k h = h tsk k

take_early-InState :
    (seq_end : ℕ) (es : List OfoBuffer) (s : TcpState) (tsk : TcpSock)
    → tsk.state ≡ s
    → InState s (take_early seq_end es tsk)
unfolding take_early
take_early-InState seq_end [] s tsk h = h
take_early-InState seq_end (e ∷ rest) s tsk h = elim (Bool-cases (ltb seq_end e.seq)) [
  | inl b ↦ rw (b, InState) h
  | inr b ↦
      rw (b, InState)
        (after_store s (store tsk e.payload e.pl_len) (take_early e.seq_end rest)
          (subst (λ x. Keeping x (store tsk e.payload e.pl_len)) h
            (store-Keeping tsk e.payload e.pl_len))
          (take_early-InState e.seq_end rest s))
]

pub receive-InState : (tsk : TcpSock) (cb : Cb) → InState tsk.state (receive tsk cb)
unfolding receive
receive-InState tsk cb = elim (Bool-cases (tsk.rcv_nxt == cb.seq)) [
  | inl b ↦
      rw (b, InState)
        (after_store tsk.state (store tsk cb.payload cb.pl_len)
          (λ t. take_early cb.seq_end t.rcv_ofo_buf t) (store-Keeping tsk cb.payload cb.pl_len)
          (λ t e. take_early-InState cb.seq_end t.rcv_ofo_buf tsk.state t e))
  | inr b ↦
      rw (b, InState)
        (elim (Bool-cases (ltb tsk.rcv_nxt cb.seq)) [
          | inl c ↦
              rw (c, InState)
                (elim (Option-cases (write_ofo_buffer (ofo_of cb) false tsk.rcv_ofo_buf)) [
                  | inl e ↦ rw (e, InState) tt
                  | inr (early, e) ↦ rw (e, InState) refl
                ])
          | inr c ↦ rw (c, InState) refl
        ])
]

pub acknowledge-InState :
    (s : TcpState) (old : Bool) (o : Outcome) → InState s o → InState s (acknowledge old o)
unfolding acknowledge
acknowledge-InState s old (processed tsk es) h = send_control-state tsk 16 ∙ h
acknowledge-InState s old waits_for_room h = tt
acknowledge-InState s old aborted h = tt
acknowledge-InState s old damaged h = tt
