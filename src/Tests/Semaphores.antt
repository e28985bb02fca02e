-- ===== src/Tests/Semaphores.antt =====
-- Tests of the semaphores.
use os_ex.Shared.{
  ◌≡◌, refl, [], ◌∷◌, All, arith, true, false, pos, some, none, get_elem?, add_int, ◌≤ℤ◌, IsInt,
}
use os_ex.Proc.{Procs, runnable, running}
use os_ex.Proc.Wait.{returned, asleep}
use os_ex.Sem.{
  Sema, Sys, sem_init, sem_destroy, sem_wait, sem_wait_round, sem_signal, release_all, release_held,
}
use os_ex.Sem.Waiters.{wait_each, wait_each_lem, slept, signalled, resumed, sem_signal-sem_wait}
use os_ex.Tests.{process}

abbrev procs : Procs
procs = process running 1 none ∷ process running 2 none ∷ []

abbrev one : Sema
one = record { value = pos 1; active = true }

abbrev sys : Sys
sys = record { semas = one ∷ []; procs = procs }

in_range : All (λ s. IsInt s.value) (one ∷ [])
in_range = omega arith

sem_init_runs :
    sem_init (pos 0) (pos 3) (record { value = pos 0; active = false } ∷ [])
    ≡ (pos 0, record { value = pos 3; active = true } ∷ [])
unfolding sem_init
sem_init_runs = refl

sem_destroy_runs :
    sem_destroy (pos 0) (one ∷ []) ≡ (pos 0, record { value = pos 0; active = false } ∷ [])
unfolding sem_destroy
sem_destroy_runs = refl

sem_wait_sleeps : (sem_wait 900 0 (pos 0) (pos 2) sys).0 ≡ asleep
unfolding sem_wait sem_wait_round
sem_wait_sleeps = refl

-- Two processes take the one unit, and both get it.
wait_each_lem_example :
    All (λ r. r ≡ returned (pos 0)) (wait_each 900 (pos 0) (pos 1) (0 ∷ 1 ∷ []) sys)
wait_each_lem_example =
    wait_each_lem 900 (pos 0) (pos 1) (0 ∷ 1 ∷ []) 0 one sys (omega arith) in_range refl
      (omega arith, refl, refl) (omega arith)

sem_signal-sem_wait_example :
    ((sem_signal 900 (pos 0) (pos 1) (slept 900 0 (pos 0) (pos 2) (pos 1) sys)).0 ≡ pos 0)
    × (get_elem? (signalled 900 0 (pos 0) (pos 2) (pos 1) sys).procs 0
        ≡ some (record (process runnable 1 none) { chan = 900 }))
    × (get_elem? (signalled 900 0 (pos 0) (pos 2) (pos 1) sys).semas 0
        ≡ some (record one { value = add_int (pos 1) (pos 1) }))
    × ((pos 2 ≤ℤ add_int (pos 1) (pos 1)
          → ((resumed 900 0 (pos 0) (pos 2) (pos 1) sys).0 ≡ returned (pos 0))
            × ((resumed 900 0 (pos 0) (pos 2) (pos 1) sys).1.semas
                ≡ (signalled 900 0 (pos 0) (pos 2) (pos 1) sys).semas))
        × (¬ (pos 2 ≤ℤ add_int (pos 1) (pos 1))
            → (resumed 900 0 (pos 0) (pos 2) (pos 1) sys).0 ≡ asleep))
sem_signal-sem_wait_example =
    sem_signal-sem_wait 900 0 (pos 0) (pos 2) (pos 1) sys (process running 1 none) 0 one
      (omega arith) in_range refl (omega arith, refl, refl) refl sem_wait_sleeps

nothing_held : release_all 900 1 0 0 sys ≡ sys
unfolding release_all release_held
nothing_held = refl
