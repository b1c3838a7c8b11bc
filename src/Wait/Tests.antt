-- ===== src/Wait/Tests.antt =====
-- Runs of a sleeper and a waker of Lab15/16-tcp_stack/include/synch_wait.h.
use ucas_computer_network_la.Prelude.{◌≡◌, ◌⊎◌, refl, List, [], ◌∷◌}
use ucas_computer_network_la.Wait.{
  wait_init, wait_exit, sleep_on, sleep_over, wake_up, cond_signal, Move, sleeps, goes_on, wakes,
  step, run,
}
use ucas_computer_network_la.Wait.Runs.{OneSleeper, run-wakes}

-- A thread sleeps, is woken twice and goes on.
abbrev moves : List Move
moves = sleeps ∷ wakes ∷ wakes ∷ goes_on ∷ []

abbrev afterwards : List Move
afterwards = wakes ∷ sleeps ∷ []

moves-OneSleeper : OneSleeper moves wait_init
unfolding step wait_init sleep_on sleep_over wake_up cond_signal
moves-OneSleeper = (refl, tt)

run-wakes_example :
    let w = run moves wait_init in
    ((wake_up w).sleeping ≡ 0)
    × (((wake_up w).woken ≡ 1) ⊎ ((sleep_on (run (wakes ∷ goes_on ∷ []) (wake_up w))).sleeping ≡ 0))
    × ((run afterwards (wait_exit w)).sleeping ≡ 0)
run-wakes_example = run-wakes moves (wakes ∷ goes_on ∷ []) afterwards moves-OneSleeper tt
