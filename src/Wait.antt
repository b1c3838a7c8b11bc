-- ===== src/Wait.antt =====
-- Sleeping and waking: Lab15/16-tcp_stack/include/synch_wait.h. The functions hold the lock, but a
-- sleep gives it up; so sleep_on is two steps, up to the sleep and from it on. Besides the fields of
-- the structure a state has the threads that sleep and those that have been woken, by a signal or
-- by nothing (pthread_cond_wait may return without one), and that have not gone on yet.
pub mod Runs
mod Tests
use ucas_computer_network_la.Prelude.{
  ℕ, zero, suc, ◌+◌, ◌-◌, Bool, true, false, not, List, [], ◌∷◌, ltb, if◌then◌else◌,
}

-- `struct synch_wait`.
pub record SynchWait : Type 0 where
  pub notified : Bool
  pub dead : Bool
  pub sleep : Bool
  pub sleeping : ℕ
  pub woken : ℕ

pub wait_init : SynchWait
wait_init = record { notified = false; dead = false; sleep = false; sleeping = 0; woken = 0 }

-- pthread_cond_signal wakes one of the threads that sleep, if there is one.
pub cond_signal : SynchWait → SynchWait
cond_signal w = record w {
  sleeping = w.sleeping - 1;
  woken = if ltb 0 w.sleeping then w.woken + 1 else w.woken;
}

-- pthread_cond_broadcast wakes them all.
pub cond_broadcast : SynchWait → SynchWait
cond_broadcast w = record w { sleeping = 0; woken = w.woken + w.sleeping }

pub wait_exit : SynchWait → SynchWait
wait_exit w =
    if w.dead
    then w
    else if w.sleep
    then cond_broadcast (record w { dead = true })
    else record w { dead = true }

-- sleep_on up to pthread_cond_wait, or to its end where it does not sleep.
pub sleep_on : SynchWait → SynchWait
sleep_on w =
    if w.dead
    then w
    else if w.notified
    then record w { notified = false; sleep = false }
    else record w { sleep = true; sleeping = w.sleeping + 1 }

-- The rest of sleep_on, for a thread that was woken.
pub sleep_over : SynchWait → SynchWait
sleep_over w =
    if ltb 0 w.woken then record w { notified = false; sleep = false; woken = w.woken - 1 } else w

pub wake_up : SynchWait → SynchWait
wake_up w =
    if w.dead
    then w
    else if w.notified
    then w
    else if w.sleep
    then cond_signal (record w { notified = true })
    else record w { notified = true }

-- pthread_cond_wait returns to one of the threads that sleep, without a signal.
pub spurious_wakeup : SynchWait → SynchWait
spurious_wakeup w = cond_signal w

-- A step of some thread, and a run of steps.
pub data Move : Type 0 where
  sleeps goes_on wakes exits returns : Move

pub step : Move → SynchWait → SynchWait
step sleeps w = sleep_on w
step goes_on w = sleep_over w
step wakes w = wake_up w
step exits w = wait_exit w
step returns w = spurious_wakeup w

pub run : List Move → SynchWait → SynchWait
run [] w = w
run (m ∷ ms) w = run ms (step m w)
