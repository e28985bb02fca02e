-- ===== src/Sleeplock.antt =====
-- code/sleeplock.c: locks whose waiters sleep, on the process table of Proc. Each run of a function
-- holds the lock's spin lock, but for the time that the process sleeps.
pub mod Handover
use os_ex.Shared.{ℕ, Bool, true, false, if◌then◌else◌, ℤ, pos, Option, none, some, get_elem?}
use os_ex.Proc.{Procs, sleep_begin, sleep_end, wakeup}

-- `struct sleeplock` at an address
pub record Sleeplock : Type 0 where
  pub addr : ℕ
  pub locked : Bool
  pub pid : ℤ

unfoldable pub initsleeplock : ℕ → Sleeplock
initsleeplock addr = record { addr = addr; locked = false; pid = pos 0 }

-- the pid of the process that runs
abbrev pub pid_of : ℕ → Procs → ℤ
pid_of self procs = elim (get_elem? procs self) [ none ↦ pos 0 | some p ↦ p.pid ]

-- A run of `acquiresleep`: whether the lock was got; if not, the process sleeps.
pub acquiresleep : ℕ → Sleeplock → Procs → Bool × Sleeplock × Procs
acquiresleep self lk procs =
    if lk.locked
    then (false, lk, sleep_begin self lk.addr procs)
    else (true, record lk { locked = true; pid = pid_of self procs }, procs)

pub acquiresleep_resume : ℕ → Sleeplock → Procs → Bool × Sleeplock × Procs
acquiresleep_resume self lk procs = acquiresleep self lk (sleep_end self procs)

pub releasesleep : Sleeplock → Procs → Sleeplock × Procs
releasesleep lk procs = (record lk { locked = false; pid = pos 0 }, wakeup lk.addr procs)

pub holdingsleep : Sleeplock → Bool
holdingsleep lk = lk.locked
