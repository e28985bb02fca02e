-- ===== src/Sleeplock/Handover.antt =====
-- A sleep lock of code/sleeplock.c goes on to a process that waits for it.
use os_ex.Shared.{ℕ, ◌≡◌, refl, true, false, some, get_elem?, ◌∙◌, ap}
use os_ex.Proc.{Proc, Procs, runnable, sleep_begin, wakeup}
use os_ex.Proc.Wakeup.{wakeup-sleep_begin}
use os_ex.Sleeplock.{Sleeplock, acquiresleep, acquiresleep_resume, releasesleep, holdingsleep}

module _ (self : ℕ) (lk : Sleeplock) (procs : Procs) (p : Proc) where
  -- the lock and the processes after a vain `acquiresleep`, and after the release that follows
  abbrev pub waited : Procs
  waited = (acquiresleep self lk procs).2

  abbrev pub handed_over : Sleeplock × Procs
  handed_over = releasesleep lk waited

  waited-sleep_begin : lk.locked ≡ true → waited ≡ sleep_begin self lk.addr procs
  unfolding acquiresleep
  waited-sleep_begin h = rw h refl

  -- A process that finds the lock held does not get it; after the next release it is runnable, and if
  -- it then runs before another takes the lock, it gets it, and the lock is held.
  pub releasesleep-acquiresleep :
      get_elem? procs self ≡ some p
      → lk.locked ≡ true
      → ((acquiresleep self lk procs).0 ≡ false)
        × (get_elem? (handed_over.1) self ≡ some (record p { chan = lk.addr; state = runnable }))
        × ((acquiresleep_resume self handed_over.0 handed_over.1).0 ≡ true)
        × (holdingsleep (acquiresleep_resume self handed_over.0 handed_over.1).1 ≡ true)
  unfolding acquiresleep acquiresleep_resume releasesleep holdingsleep
  releasesleep-acquiresleep at h = (
    rw h refl,
    ap (λ x. get_elem? (wakeup lk.addr x) self) (waited-sleep_begin h)
        ∙ wakeup-sleep_begin self lk.addr procs p at,
    refl,
    refl,
  )
