-- ===== src/Sem.antt =====
-- The semaphores of code/proc.c. Each function holds the lock of its semaphore from its first
-- access to its last, but for the time that a process sleeps in `sem_wait`: one call, or one round
-- of the loop of `sem_wait`, is a step.
pub mod Calls
pub mod Waiters
use os_ex.Shared.{
  ℕ, zero, suc, ◌+◌, ◌*◌, Bool, true, false, not, ◌||◌, lt_int, if◌then◌else◌, ℤ, pos, pos_part,
  minus_one, add_int, sub_int, List, modify, set, get_elem?, get_or, Option, none, some,
}
use os_ex.Proc.{Proc, Procs, nsema, sleep_begin, sleep_end, wakeup}
use os_ex.Proc.Wait.{Outcome, returned, asleep}

-- `struct semaphore`; `active` is 0 or 1.
pub record Sema : Type 0 where
  pub value : ℤ
  pub active : Bool

-- `sema` and `ptable.proc`
pub record Sys : Type 0 where
  pub semas : List Sema
  pub procs : Procs

-- `&sema[i]`, given the address of the array
abbrev pub sema_size : ℕ
sema_size = 60

abbrev pub sema_chan : ℕ → ℕ → ℕ
sema_chan sema_base i = sema_base + i * sema_size

-- `sem < 0 || sem >= 32`
abbrev pub out_of_range : ℤ → Bool
out_of_range sem = lt_int sem (pos 0) || not (lt_int sem (pos nsema))

-- A call on a semaphore in range, in its array.
abbrev on_sema : {A : Type 0} → ℤ → A → (ℕ → Sema → A) → List Sema → A
on_sema sem failed body semas =
    if out_of_range sem
    then failed
    else elim (get_elem? semas (pos_part sem)) [ none ↦ failed | some s ↦ body (pos_part sem) s ]

unfoldable pub sem_init : ℤ → ℤ → List Sema → ℤ × List Sema
sem_init sem value semas =
    on_sema sem (minus_one, semas)
      (λ i s.
        if s.active
        then (minus_one, semas)
        else (pos 0, set semas i (record { value = value; active = true })))
      semas

unfoldable pub sem_destroy : ℤ → List Sema → ℤ × List Sema
sem_destroy sem semas =
    on_sema sem (minus_one, semas)
      (λ i s.
        if s.active
        then (pos 0, set semas i (record { value = pos 0; active = false }))
        else (minus_one, semas))
      semas

-- the account of what a process holds, after `sem_wait`
abbrev pub settle : ℕ → ℤ → Proc → Proc
settle i count p =
    let held = get_or p.sem_held i (pos 0) in
    record p {
      sem_held = set p.sem_held i (if lt_int held count then pos 0 else sub_int held count);
    }

module _ (sema_base : ℕ) where
  -- `sem_wait` from its test `sema[sem].value < count` on, to its return or to `sleep`
  unfoldable pub sem_wait_round : ℕ → ℕ → Sema → ℤ → Sys → Outcome ℤ × Sys
  sem_wait_round self i s count sys =
      if lt_int s.value count
      then (asleep, record sys { procs = sleep_begin self (sema_chan sema_base i) sys.procs })
      else (
        returned (pos 0),
        record sys {
          semas = set sys.semas i (record s { value = add_int (sub_int s.value count) count });
          procs = wakeup (sema_chan sema_base i) (modify sys.procs self (settle i count));
        },
      )

  unfoldable pub sem_wait : ℕ → ℤ → ℤ → Sys → Outcome ℤ × Sys
  sem_wait self sem count sys =
      on_sema sem (returned minus_one, sys)
        (λ i s. if s.active then sem_wait_round self i s count sys else (returned minus_one, sys))
        sys.semas

  -- The process that slept in `sem_wait` runs again, for the same semaphore and count.
  unfoldable pub sem_wait_resume : ℕ → ℤ → ℤ → Sys → Outcome ℤ × Sys
  sem_wait_resume self sem count sys =
      sem_wait self sem count (record sys { procs = sleep_end self sys.procs })

  pub sem_signal : ℤ → ℤ → Sys → ℤ × Sys
  sem_signal sem count sys =
      on_sema sem (minus_one, sys)
        (λ i s.
          if s.active
          then (
            pos 0,
            record sys {
              semas = set sys.semas i (record s { value = add_int s.value count });
              procs = wakeup (sema_chan sema_base i) sys.procs;
            },
          )
          else (minus_one, sys))
        sys.semas

  -- what `exit` gives back of semaphore `i`
  unfoldable pub release_held : ℕ → ℕ → Sys → Sys
  release_held self i sys = elim (get_elem? sys.procs self) [
    | none ↦ sys
    | some p ↦
        let count = get_or p.sem_held i (pos 0) in
        if lt_int (pos 0) count
        then (let (_, sys') = sem_signal (pos i) count sys in
            record sys' {
              procs =
                  modify sys'.procs self (λ q. record q { sem_held = set q.sem_held i (pos 0) });
            })
        else sys
  ]

  -- the loop of `exit` over the semaphores, `n` rounds from `i` on; `exit` runs 32 from 0
  unfoldable pub release_all : ℕ → ℕ → ℕ → Sys → Sys
  release_all zero self i sys = sys
  release_all (suc n) self i sys = release_all n self (suc i) (release_held self i sys)
