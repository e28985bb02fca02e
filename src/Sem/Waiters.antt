-- ===== src/Sem/Waiters.antt =====
-- Several processes on one semaphore of code/proc.c: who gets through, and who is woken.
use os_ex.Shared.{
  ℕ, zero, suc, subst, sym, ◌∙◌, add_int-IsInt, ◌≡◌, refl, inl, inr, List, [], ◌∷◌, All, get_elem?,
  some, arith, ap, ℤ, pos, ◌≤ℤ◌, IsInt, set, add_int, get_elem?-set_self, get_elem?_lt,
}
use os_ex.Proc.{Proc, sleep_begin, sleep_end, runnable}
use os_ex.Proc.Wait.{Outcome, returned, asleep}
use os_ex.Proc.Wakeup.{wakeup-sleep_begin}
use os_ex.Sem.{Sema, Sys, sema_chan, sem_wait, sem_wait_resume, sem_signal}
use os_ex.Sem.Calls.{InUse, sem_wait-InUse, sem_signal-InUse}

module _ (sema_base : ℕ) (sem count : ℤ) where
  -- Each process of the list calls `sem_wait`, one after the other; the results.
  pub wait_each : List ℕ → Sys → List (Outcome ℤ)
  wait_each [] sys = []
  wait_each (self ∷ rest) sys =
      let (r, sys') = sem_wait sema_base self sem count sys in r ∷ wait_each rest sys'

  -- With enough for one on a semaphore in use, `sem_wait` returns 0 and leaves the semaphores.
  pub sem_wait_enough :
      (self i : ℕ) (s : Sema) (sys : Sys)
      → IsInt count
      → All (λ r. IsInt r.value) sys.semas
      → sem ≡ pos i
      → InUse i s sys.semas
      → count ≤ℤ s.value
      → ((sem_wait sema_base self sem count sys).0 ≡ returned (pos 0))
        × ((sem_wait sema_base self sem count sys).1.semas ≡ sys.semas)
  sem_wait_enough self i s sys ci si e u enough =
      elim (sem_wait-InUse sema_base self sem count sys i s ci si e u) [
        | inl (less, ne, _) ↦ absurd (ground arith)
        | inr (_, eq) ↦ rw eq (refl, refl)
      ]

  -- If the value is enough for one process, it is enough for any number of them: each gets 0, and no
  -- process ever waits for another.
  pub wait_each_lem :
      (selves : List ℕ) (i : ℕ) (s : Sema) (sys : Sys)
      → IsInt count
      → All (λ r. IsInt r.value) sys.semas
      → sem ≡ pos i
      → InUse i s sys.semas
      → count ≤ℤ s.value
      → All (λ r. r ≡ returned (pos 0)) (wait_each selves sys)
  unfolding wait_each
  wait_each_lem [] i s sys ci si e u enough = tt
  wait_each_lem (self ∷ rest) i s sys ci si e u enough =
      let (r, same) = sem_wait_enough self i s sys ci si e u enough in
      (r, wait_each_lem rest i s _ ci (rw same si) e (rw same u) enough)

-- A process that runs again gets through if the value is enough for it, and sleeps again if not.
resume_lem :
    (sema_base self : ℕ) (sem count : ℤ) (sys : Sys) (i : ℕ) (s : Sema)
    → IsInt count
    → All (λ r. IsInt r.value) sys.semas
    → sem ≡ pos i
    → InUse i s sys.semas
    → let r = sem_wait_resume sema_base self sem count sys in
      (count ≤ℤ s.value → (r.0 ≡ returned (pos 0)) × (r.1.semas ≡ sys.semas))
      × (¬ (count ≤ℤ s.value) → r.0 ≡ asleep)
unfolding sem_wait_resume
resume_lem sema_base self sem count sys i s ci si e u =
    elim (sem_wait-InUse sema_base self sem count (record sys { procs = sleep_end self sys.procs })
      i s ci si e u) [
        | inl (less, ne, eq) ↦
            (λ enough. absurd (ground arith), λ no. ap (λ (r : Outcome ℤ × Sys). r.0) eq)
        | inr (enough, eq) ↦ (
          λ _. (ap (λ (r : Outcome ℤ × Sys). r.0) eq, ap (λ (r : Outcome ℤ × Sys). r.1.semas) eq),
          λ no. absurd (no enough),
        )
      ]

All_set :
    (P : Sema → Type 0) (xs : List Sema) (i : ℕ) (x : Sema) → P x → All P xs → All P (set xs i x)
All_set P [] i x p a = tt
All_set P (y ∷ xs) zero x p a = (p, a.1)
All_set P (y ∷ xs) (suc i) x p a = (a.0, All_set P xs i x p a.1)

module _ (sema_base self : ℕ) (sem count more : ℤ) (sys : Sys) where
  -- The state in which the process sleeps, and the state after the signal that follows.
  abbrev pub slept : Sys
  slept = (sem_wait sema_base self sem count sys).1

  abbrev pub signalled : Sys
  signalled = (sem_signal sema_base sem more slept).1

  -- What the process does when it runs again.
  abbrev pub resumed : Outcome ℤ × Sys
  resumed = sem_wait_resume sema_base self sem count signalled

  -- No wake-up is lost: after a process fell asleep in `sem_wait`, the next signal of the semaphore adds
  -- to the value and leaves the process runnable. When it runs again it returns 0, with the value as
  -- it is, if the new value is enough for it, and sleeps again if not.
  pub sem_signal-sem_wait :
      (p : Proc) (i : ℕ) (s : Sema)
      → IsInt count
      → All (λ r. IsInt r.value) sys.semas
      → sem ≡ pos i
      → InUse i s sys.semas
      → get_elem? sys.procs self ≡ some p
      → (sem_wait sema_base self sem count sys).0 ≡ asleep
      → ((sem_signal sema_base sem more slept).0 ≡ pos 0)
        × (get_elem? signalled.procs self
            ≡ some (record p { chan = sema_chan sema_base i; state = runnable }))
        × (get_elem? signalled.semas i ≡ some (record s { value = add_int s.value more }))
        × ((count ≤ℤ add_int s.value more
              → (resumed.0 ≡ returned (pos 0)) × (resumed.1.semas ≡ signalled.semas))
            × (¬ (count ≤ℤ add_int s.value more) → resumed.0 ≡ asleep))
  sem_signal-sem_wait p i s ci si e u at fell =
      elim (sem_wait-InUse sema_base self sem count sys i s ci si e u) [
        | inr (_, eq) ↦ cc (ap (λ (r : Outcome ℤ × Sys). r.0) eq)
        | inl (_, _, eq) ↦
            let (returns, wakes, new) = after slept (ap (λ (r : Outcome ℤ × Sys). r.1) eq) in
            let value : get_elem? signalled.semas i
                ≡ some (record s { value = add_int s.value more }) =
              ap (λ l. get_elem? l i) new ∙ set_in in
            let ints : All (λ r. IsInt r.value) signalled.semas =
              subst (λ l. All (λ r. IsInt r.value) l) (sym new)
                (All_set (λ r. IsInt r.value) sys.semas i
                  (record s { value = add_int s.value more }) (add_int-IsInt s.value more) si) in
            (
              returns,
              wakes,
              value,
              resume_lem sema_base self sem count signalled i
                  (record s { value = add_int s.value more }) ci ints e (u.0, value, u.2),
            )
      ]
    where
      set_in :
          get_elem? (set sys.semas i (record s { value = add_int s.value more })) i
          ≡ some (record s { value = add_int s.value more })
      set_in = get_elem?-set_self sys.semas i _ (get_elem?_lt sys.semas i s u.1)

      after :
          (sys1 : Sys)
          → sys1 ≡ record sys { procs = sleep_begin self (sema_chan sema_base i) sys.procs }
          → ((sem_signal sema_base sem more sys1).0 ≡ pos 0)
            × (get_elem? (sem_signal sema_base sem more sys1).1.procs self
                ≡ some (record p { chan = sema_chan sema_base i; state = runnable }))
            × ((sem_signal sema_base sem more sys1).1.semas
                ≡ set sys.semas i (record s { value = add_int s.value more }))
      after sys1 q =
          rw
            (
              q,
              sem_signal-InUse sema_base self sem more
                  (record sys { procs = sleep_begin self (sema_chan sema_base i) sys.procs }) i s e
                  u,
            )
            (refl, wakeup-sleep_begin self (sema_chan sema_base i) sys.procs p at, refl)
