-- ===== src/Tests/Guards.antt =====
-- Tests of locks and path names.
use os_ex.Shared.{
  get_elem?, ℕ, suc, zero, ◌+◌, ◌<◌, ◌≡◌, inl, refl, true, false, get_or, ◌∷◌, [], none, some, pos,
  ok, panic, arith, add_int, sub_int,
}
use os_ex.Spinlock.{Cpu, Spinlock, acquire, release, pushcli, popcli, holding}
use os_ex.Spinlock.Nesting.{Code, done, guarded, run, IsCpu, Restored, run-Restored}
use os_ex.Proc.{Procs, running, runnable}
use os_ex.Sleeplock.{Sleeplock, acquiresleep, acquiresleep_resume, holdingsleep}
use os_ex.Sleeplock.Handover.{handed_over, releasesleep-acquiresleep}
use os_ex.Tests.{process}
use os_ex.Strings.{Bytes}
use os_ex.Paths.{is_slash, is_name, skipelem}
use os_ex.Paths.Elements.{Spans, Named, skipelem_lem}

abbrev cpu : Cpu
cpu = record { ncli = pos 0; intena = false; interrupts = true }

cpu-IsCpu : IsCpu 0 cpu
cpu-IsCpu = record { count = refl; off = λ p. absurd (omega (arith, p)) }

-- a lock inside another, and a third after them
abbrev code : Code
code = guarded (guarded done done) (guarded done done)

run-Restored_example : (c' : Cpu) × (run code cpu ≡ ok c') × Restored 0 cpu c'
run-Restored_example = run-Restored code 0 cpu (omega arith) cpu-IsCpu

abbrev free : Spinlock
free = record { locked = false; cpu = none }

abbrev held : Spinlock
held = record { locked = true; cpu = some 2 }

lock_got : acquire 2 free cpu ≡ ok (true, held, pushcli cpu)
unfolding acquire
lock_got = refl

lock_twice : acquire 2 held cpu ≡ panic
unfolding acquire holding
lock_twice = refl

lock_spins : acquire 1 held cpu ≡ ok (false, held, pushcli cpu)
unfolding acquire holding
lock_spins = refl

release_returns : release 2 held (pushcli cpu) ≡ ok (free, record cpu { intena = true })
unfolding release holding popcli pushcli add_int sub_int
release_returns = refl

-- "//ab/c"
abbrev path : Bytes
path a = get_or (47 ∷ 47 ∷ 97 ∷ 98 ∷ 47 ∷ 99 ∷ 0 ∷ []) a 0

slashes-Spans : Spans is_slash 0 2 path
slashes-Spans = record { inside = inside; ends = refl }
  where
    inside : (i : ℕ) → i < 2 → is_slash (path (0 + i)) ≡ true
    inside zero lt = refl
    inside (suc zero) lt = refl
    inside (suc (suc i)) lt = absurd (omega (arith, lt))

element-Spans : Spans is_name 2 2 path
element-Spans = record { inside = inside; ends = refl }
  where
    inside : (i : ℕ) → i < 2 → is_name (path (2 + i)) ≡ true
    inside zero lt = refl
    inside (suc zero) lt = refl
    inside (suc (suc i)) lt = absurd (omega (arith, lt))

slash-Spans : Spans is_slash 4 1 path
slash-Spans = record { inside = inside; ends = refl }
  where
    inside : (i : ℕ) → i < 1 → is_slash (path (4 + i)) ≡ true
    inside zero lt = refl
    inside (suc i) lt = absurd (omega (arith, lt))

skipelem_lem_example :
    (m' : Bytes) × (skipelem 10 0 100 path ≡ (some 5, m')) × Named 100 2 2 path m'
skipelem_lem_example =
    skipelem_lem 10 0 100 2 2 1 path (omega arith) (omega arith) (omega arith) (omega arith)
      slashes-Spans element-Spans slash-Spans (λ a lo hi. inl (omega (arith, hi)))

abbrev one_running : Procs
one_running = process running 1 none ∷ []

abbrev sleep_lock : Sleeplock
sleep_lock = record { addr = 0x80110000; locked = true; pid = pos 4 }

releasesleep-acquiresleep_example :
    ((acquiresleep 0 sleep_lock one_running).0 ≡ false)
    × (get_elem? (handed_over 0 sleep_lock one_running (process running 1 none)).1 0
        ≡ some (record (process running 1 none) { chan = 0x80110000; state = runnable }))
    × ((acquiresleep_resume 0
          (handed_over 0 sleep_lock one_running (process running 1 none)).0
          (handed_over 0 sleep_lock one_running (process running 1 none)).1).0
        ≡ true)
    × (holdingsleep
          (acquiresleep_resume 0
            (handed_over 0 sleep_lock one_running (process running 1 none)).0
            (handed_over 0 sleep_lock one_running (process running 1 none)).1).1
        ≡ true)
releasesleep-acquiresleep_example =
    releasesleep-acquiresleep 0 sleep_lock one_running (process running 1 none) refl refl
