-- ===== src/Wait/Runs.antt =====
-- Wake-ups where one thread sleeps at a time, for Lab15/16-tcp_stack/include/synch_wait.h.
use ucas_computer_network_la.Prelude.{
  ℕ, zero, suc, ◌+◌, ◌≤◌, ◌≡◌, ◌≢◌, refl, ◌⊎◌, inl, inr, true, false, List, [], ◌∷◌, arith,
  replicate, ap, ◌∙◌,
}
use ucas_computer_network_la.Wait.{
  SynchWait, wait_init, cond_signal, cond_broadcast, wait_exit, sleep_on, sleep_over, wake_up, Move,
  sleeps, goes_on, wakes, exits, returns, spurious_wakeup, step, run,
}

-- Nobody starts to sleep before the last sleeper has gone on.
abbrev pub OneSleeper : List Move → SynchWait → Type 0
OneSleeper [] w = Unit {0}
OneSleeper (sleeps ∷ ms) w = (w.sleeping + w.woken ≡ 0) × OneSleeper ms (step sleeps w)
OneSleeper (goes_on ∷ ms) w = OneSleeper ms (step goes_on w)
OneSleeper (wakes ∷ ms) w = OneSleeper ms (step wakes w)
OneSleeper (exits ∷ ms) w = OneSleeper ms (step exits w)
OneSleeper (returns ∷ ms) w = OneSleeper ms (step returns w)

-- Nobody starts to sleep.
abbrev pub NobodySleeps : List Move → Type 0
NobodySleeps [] = Unit {0}
NobodySleeps (sleeps ∷ ms) = ⊥
NobodySleeps (m ∷ ms) = NobodySleeps ms

-- A thread that sleeps has not been notified, and the structure says that it sleeps.
pub record IsSound (w : SynchWait) : Type 0 where
  pub single : w.sleeping + w.woken ≤ 1
  pub unnotified : w.sleeping ≢ 0 → w.notified ≡ false
  pub alive : w.sleeping ≢ 0 → w.dead ≡ false
  pub seen : w.sleeping ≢ 0 → w.sleep ≡ true

wait_init-IsSound : IsSound wait_init
unfolding wait_init
wait_init-IsSound = ground arith

sleep_on-IsSound : (w : SynchWait) → w.sleeping + w.woken ≡ 0 → IsSound w → IsSound (sleep_on w)
unfolding sleep_on
sleep_on-IsSound w e i = ground (arith, e)

sleep_over-IsSound : (w : SynchWait) → IsSound w → IsSound (sleep_over w)
unfolding sleep_over
sleep_over-IsSound w i = ground (arith, i.single)

wake_up-IsSound : (w : SynchWait) → IsSound w → IsSound (wake_up w)
unfolding wake_up cond_signal
wake_up-IsSound w i = ground (arith, i.single, i.unnotified, i.alive, i.seen)

wait_exit-IsSound : (w : SynchWait) → IsSound w → IsSound (wait_exit w)
unfolding wait_exit cond_broadcast
wait_exit-IsSound w i = ground (arith, i.single, i.unnotified, i.alive, i.seen)

spurious_wakeup-IsSound : (w : SynchWait) → IsSound w → IsSound (spurious_wakeup w)
unfolding spurious_wakeup cond_signal
spurious_wakeup-IsSound w i = ground (arith, i.single, i.unnotified, i.alive, i.seen)

run-IsSound : (ms : List Move) (w : SynchWait) → IsSound w → OneSleeper ms w → IsSound (run ms w)
unfolding run step
run-IsSound [] w i o = i
run-IsSound (sleeps ∷ ms) w i o = run-IsSound ms (sleep_on w) (sleep_on-IsSound w o.0 i) o.1
run-IsSound (goes_on ∷ ms) w i o = run-IsSound ms (sleep_over w) (sleep_over-IsSound w i) o
run-IsSound (wakes ∷ ms) w i o = run-IsSound ms (wake_up w) (wake_up-IsSound w i) o
run-IsSound (exits ∷ ms) w i o = run-IsSound ms (wait_exit w) (wait_exit-IsSound w i) o
run-IsSound (returns ∷ ms) w i o =
    run-IsSound ms (spurious_wakeup w) (spurious_wakeup-IsSound w i) o

-- Nobody sleeps or has still to go on, and the next call of sleep_on will not sleep.
abbrev Remembers : SynchWait → Type 0
Remembers w = (w.sleeping ≡ 0) × (w.woken ≡ 0) × ((w.notified ≡ true) ⊎ (w.dead ≡ true))

-- Nobody sleeps, and nobody ever will.
abbrev IsOver : SynchWait → Type 0
IsOver w = (w.sleeping ≡ 0) × (w.dead ≡ true)

step-Remembers : (m : Move) (w : SynchWait) → m ≢ sleeps → Remembers w → Remembers (step m w)
unfolding step sleep_over wake_up wait_exit spurious_wakeup cond_signal cond_broadcast
step-Remembers sleeps w d h = absurd (d refl)
step-Remembers goes_on w d h = ground (arith, h)
step-Remembers wakes w d h = ground (arith, h)
step-Remembers exits w d h = ground (arith, h)
step-Remembers returns w d h = ground (arith, h)

step-IsOver : (m : Move) (w : SynchWait) → IsOver w → IsOver (step m w)
unfolding step sleep_on sleep_over wake_up wait_exit spurious_wakeup cond_signal cond_broadcast
step-IsOver sleeps w h = ground (arith, h)
step-IsOver goes_on w h = ground (arith, h)
step-IsOver wakes w h = ground (arith, h)
step-IsOver exits w h = ground (arith, h)
step-IsOver returns w h = ground (arith, h)

run-Remembers :
    (ms : List Move) (w : SynchWait) → NobodySleeps ms → Remembers w → Remembers (run ms w)
unfolding run
run-Remembers [] w q h = h
run-Remembers (sleeps ∷ ms) w q h = absurd q
run-Remembers (goes_on ∷ ms) w q h =
    run-Remembers ms (step goes_on w) q (step-Remembers goes_on w (λ e. cc) h)
run-Remembers (wakes ∷ ms) w q h =
    run-Remembers ms (step wakes w) q (step-Remembers wakes w (λ e. cc) h)
run-Remembers (exits ∷ ms) w q h =
    run-Remembers ms (step exits w) q (step-Remembers exits w (λ e. cc) h)
run-Remembers (returns ∷ ms) w q h =
    run-Remembers ms (step returns w) q (step-Remembers returns w (λ e. cc) h)

run-IsOver : (ms : List Move) (w : SynchWait) → IsOver w → IsOver (run ms w)
unfolding run
run-IsOver [] w h = h
run-IsOver (m ∷ ms) w h = run-IsOver ms (step m w) (step-IsOver m w h)

-- Behind a wake-up nobody sleeps: a thread has been woken, or the wake-up is remembered.
wake_up-wakes :
    (w : SynchWait)
    → IsSound w
    → ((wake_up w).sleeping ≡ 0) × (((wake_up w).woken ≡ 1) ⊎ Remembers (wake_up w))
unfolding wake_up cond_signal
wake_up-wakes w i = ground (arith, i.single, i.unnotified, i.alive, i.seen)

wait_exit-IsOver : (w : SynchWait) → IsSound w → IsOver (wait_exit w)
unfolding wait_exit cond_broadcast
wait_exit-IsOver w i = ground (arith, i.single, i.unnotified, i.alive, i.seen)

Remembers-sleep_on : (w : SynchWait) → Remembers w → (sleep_on w).sleeping ≡ 0
unfolding sleep_on
Remembers-sleep_on w h = ground (arith, h)

-- In every run in which no thread starts to sleep before the last one has gone on, whatever the order
-- of the steps and with spurious returns of pthread_cond_wait: behind wake_up no thread sleeps, and
-- either one thread is awake that has still to go on (the wake-up is taken to be for that one), or the
-- wake-up is remembered, so that after any further steps but a sleep_on the next sleep_on does not
-- sleep. Behind wait_exit no thread sleeps at any later time, whatever steps follow.
pub run-wakes :
    (ms quiet later : List Move)
    → OneSleeper ms wait_init
    → NobodySleeps quiet
    → let w = run ms wait_init in
      ((wake_up w).sleeping ≡ 0)
      × (((wake_up w).woken ≡ 1) ⊎ ((sleep_on (run quiet (wake_up w))).sleeping ≡ 0))
      × ((run later (wait_exit w)).sleeping ≡ 0)
run-wakes ms quiet later o q =
    let w = run ms wait_init in
    let i = run-IsSound ms wait_init wait_init-IsSound o in
    let over = run-IsOver later (wait_exit w) (wait_exit-IsOver w i) in
    elim (wake_up-wakes w i).1 [
      | inl one ↦ ((wake_up-wakes w i).0, inl one, over.0)
      | inr kept ↦ (
        (wake_up-wakes w i).0,
        inr (Remembers-sleep_on (run quiet (wake_up w)) (run-Remembers quiet (wake_up w) q kept)),
        over.0,
      )
    ]

wakes-notified : (n : ℕ) (w : SynchWait) → w.notified ≡ true → run (replicate n wakes) w ≡ w
unfolding run step wake_up
wakes-notified zero w e = refl
wakes-notified (suc n) w e =
    let same : wake_up w ≡ w = ground (arith, e) in
    ap (run (replicate n wakes)) same ∙ wakes-notified n w e

-- Of two threads that sleep, the second is never woken once the first has gone on, however often
-- wake_up is called.
pub run-forgets :
    (n : ℕ)
    → (run
        (replicate n wakes)
        (run (sleeps ∷ sleeps ∷ wakes ∷ goes_on ∷ wakes ∷ []) wait_init)).sleeping
      ≡ 1
unfolding run step wait_init sleep_on sleep_over wake_up cond_signal
run-forgets n =
    ap (λ w. w.sleeping)
      (wakes-notified n (run (sleeps ∷ sleeps ∷ wakes ∷ goes_on ∷ wakes ∷ []) wait_init) refl)
