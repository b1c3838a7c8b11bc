-- ===== src/Tcp/Timer/Retrans.antt =====
-- The scan of the retransmission timer, Lab15/16-tcp_stack/tcp_timer.c.
use ucas_computer_network_la.Prelude.{
  suc, ◌-◌, ◌%◌, ◌≤◌, ◌<◌, ◌≡◌, ◌≢◌, refl, ap, ◌∙◌, Bool, true, false, List, [], ◌∷◌, ◌||◌, arith,
  if◌then◌else◌, Bool-cases, inl, inr, length,
}
use ucas_computer_network_la.Tcp.{TcpSock, SendBuffer, loss}
use ucas_computer_network_la.Tcp.Timer.{retry, runs_out, enter_loss, scan_entries}

-- The time of each entry is a positive multiple of the scan interval, and its count is 1, 2 or 3.
abbrev pub TicksEntry : SendBuffer → Type 0
TicksEntry e = (e.timeout % 100000 ≡ 0) × (0 < e.timeout) × (1 ≤ e.times) × (e.times ≤ 3)

abbrev pub Ticks : List SendBuffer → Type 0
Ticks [] = Unit {0}
Ticks (e ∷ es) = TicksEntry e × Ticks es

abbrev pub any_runs_out : List SendBuffer → Bool
any_runs_out [] = false
any_runs_out (e ∷ es) = runs_out e || any_runs_out es

retry-TicksEntry : (e : SendBuffer) → 1 ≤ e.times → e.times ≤ 3 → TicksEntry (retry e).0
unfolding retry
retry-TicksEntry e low high = ground arith

kept-TicksEntry :
    (e : SendBuffer)
    → TicksEntry e
    → runs_out e ≡ false
    → TicksEntry (record e { timeout = e.timeout - 100000 })
unfolding runs_out
kept-TicksEntry e h left =
    let later : e.timeout ≢ 100000 = ground arith in
    (omega (arith, h.0, h.1), omega (arith, h.0, h.1, later), h.2, h.3)

either_way {ℓ} : {A : Type ℓ} (b : Bool) (x : A) → (if b then x else x) ≡ x
either_way true x = refl
either_way false x = refl

-- A scan keeps the times of the entries positive multiples of the scan interval and their counts
-- from 1 to 3, it keeps the number of entries, and exactly where one has run out it sets the window
-- to 1 and enters the loss state.
pub scan_entries_lem :
    (es : List SendBuffer) (tsk : TcpSock)
    → Ticks es
    → let (es', tsk', events) = scan_entries es tsk in
      Ticks es'
      × (length es' ≡ length es)
      × (tsk'.cwnd ≡ (if any_runs_out es then 1 else tsk.cwnd))
      × (tsk'.nrstate ≡ (if any_runs_out es then loss else tsk.nrstate))
unfolding scan_entries enter_loss
scan_entries_lem [] tsk h = (tt, refl, refl, refl)
scan_entries_lem (e ∷ es) tsk h = elim (Bool-cases (runs_out e)) [
  | inl out ↦
      let rest = scan_entries_lem es (enter_loss tsk) h.1 in
      rw out (
        (retry-TicksEntry (record e { timeout = e.timeout - 100000 }) h.0.2 h.0.3, rest.0),
        ap suc rest.1,
        rest.2 ∙ either_way (any_runs_out es) 1,
        rest.3 ∙ either_way (any_runs_out es) loss,
      )
  | inr left ↦
      let rest = scan_entries_lem es tsk h.1 in
      rw left ((kept-TicksEntry e h.0 left, rest.0), ap suc rest.1, rest.2, rest.3)
]
