-- ===== src/Proc/Wait.antt =====
-- `wait`, `wait2` and `join` of code/proc.c. Each is a loop that scans the table under
-- `ptable.lock` and sleeps, which releases it, when it finds a child and none that has exited. One
-- round of the loop is a step: it ends in a return or in `sleep`; the process that is woken goes on
-- with `resume`, and then with the next round.
pub mod Scan
pub mod Rounds
use os_ex.Shared.{
  ℕ, zero, suc, ◌+◌, ◌-◌, Bool, true, false, not, ◌&&◌, ◌||◌, ◌==◌, if◌then◌else◌, Result, ok,
  panic, ◌>>=◌, ℤ, pos, minus_one, List, [], ◌∷◌, modify, set, get_elem?, Option, none, some,
}
use os_ex.Kalloc.{Kmem, kfree}
use os_ex.Proc.{Proc, Procs, unused, is_zombie, proc_chan, sleep_begin, sleep_end}

-- How a round ends.
pub data Outcome (A : Type 0) : Type 0 where
  returned : A → Outcome A
  asleep : Outcome A

-- `p->parent == curproc`
abbrev pub is_child : ℕ → Proc → Bool
is_child self p = elim p.parent [ none ↦ false | some j ↦ j == self ]

-- the test of `join`
abbrev pub is_thread_of : ℕ → Proc → Bool
is_thread_of self p = is_child self p && p.isthread

abbrev pub killed_at : ℕ → Procs → Bool
killed_at self procs = elim (get_elem? procs self) [ none ↦ false | some p ↦ p.killed ]

abbrev pub shift : Option (ℕ × Proc) → Option (ℕ × Proc)
shift none = none
shift (some (i, p)) = some (suc i, p)

-- The scan of the table, with `havekids`.
pub scan : (Proc → Bool) → Bool → Procs → Option (ℕ × Proc) × Bool
scan child havekids [] = (none, havekids)
scan child havekids (p ∷ procs) =
    let (found, kids) = scan child (havekids || child p) procs in
    if child p && is_zombie p.state then (some (0, p), true) else (shift found, kids)

-- What the entry of a child becomes.
abbrev pub cleared : Proc → Proc
cleared p = record p {
  kstack = 0;
  pid = pos 0;
  parent = none;
  name = set p.name 0 0;
  killed = false;
  state = unused;
}

-- `wait2` resets the counters too.
abbrev pub cleared2 : Proc → Proc
cleared2 p = record (cleared p) {
  ctime = 0;
  retime = pos 0;
  rutime = pos 0;
  stime = pos 0;
  priority = pos 0;
}

unfoldable pub resume : ℕ → Procs → Procs
resume self procs = sleep_end self procs

-- The address of the table and the linker's `end`; `freevm` is that of the memory management.
module _ (proc_base kernel_end : ℕ) (freevm : ℕ → Kmem → Result Kmem) where
  -- `if(!havekids || curproc->killed) return -1;` and else `sleep(curproc, &ptable.lock)`
  pub give_up_or_sleep :
      {A : Type 0} → A → ℕ → Bool → Procs → Kmem → Result (Outcome A × Procs × Kmem)
  give_up_or_sleep failed self havekids procs k =
      if not havekids || killed_at self procs
      then ok (returned failed, procs, k)
      else ok (asleep, sleep_begin self (proc_chan proc_base self) procs, k)

  unfoldable pub wait : ℕ → Procs → Kmem → Result (Outcome ℤ × Procs × Kmem)
  unfolding scan give_up_or_sleep
  wait self procs k =
      let (found, havekids) = scan (is_child self) false procs in
      elim found [
        | some (i, p) ↦ kfree kernel_end p.kstack k >>= λ k1.
            freevm p.pgdir k1 >>= λ k2. ok (returned p.pid, modify procs i cleared, k2)
        | none ↦ give_up_or_sleep minus_one self havekids procs k
      ]

  -- what `wait2` returns: the pid, `*retime`, `*rutime` and `*stime`
  pub wait2 : ℕ → Procs → Kmem → Result (Outcome (ℤ × Option (ℤ × ℤ × ℤ)) × Procs × Kmem)
  unfolding scan give_up_or_sleep
  wait2 self procs k =
      let (found, havekids) = scan (is_child self) false procs in
      elim found [
        | some (i, p) ↦ kfree kernel_end p.kstack k >>= λ k1. freevm p.pgdir k1 >>= λ k2.
            ok (returned (p.pid, some (p.retime, p.rutime, p.stime)), modify procs i cleared2, k2)
        | none ↦ give_up_or_sleep (minus_one, none) self havekids procs k
      ]

  -- what `join` returns: the pid and `*stack`. The page table, which the threads share, stays.
  pub join : ℕ → Procs → Kmem → Result (Outcome (ℤ × Option ℕ) × Procs × Kmem)
  unfolding scan give_up_or_sleep
  join self procs k =
      let (found, havekids) = scan (is_thread_of self) false procs in
      elim found [
        | some (i, p) ↦ kfree kernel_end p.kstack k >>= λ k1.
            ok (returned (p.pid, some p.stack), modify procs i cleared, k1)
        | none ↦ give_up_or_sleep (minus_one, none) self havekids procs k
      ]
