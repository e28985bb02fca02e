-- ===== src/Tests/Resumption.antt =====
-- Runs of the functions that go on after a sleep, and of some that start or end a component.
use os_ex.Shared.{◌≡◌, refl, false, [], ◌∷◌, none, pos}
use os_ex.Disk.{Store, boot, change}
use os_ex.Proc.{Procs, running, runnable, sleep_end, yield}
use os_ex.Proc.Wait.{resume}
use os_ex.Log.{readsb}
use os_ex.Sleeplock.{initsleeplock}
use os_ex.Paths.{namecmp}
use os_ex.Strings.{strncmp}
use os_ex.Tests.{process}

abbrev woken : Procs
woken = record (process running 1 none) { chan = 9 } ∷ []

channel_cleared : resume 0 woken ≡ process running 1 none ∷ []
unfolding resume sleep_end
channel_cleared = refl

gives_way : yield 0 (process running 1 none ∷ []) ≡ process runnable 1 none ∷ []
unfolding yield
gives_way = refl

-- a super block that gives the log 30 blocks from block 2 on
abbrev fresh_disk : Store
fresh_disk = boot (λ b. 1000 ∷ 941 ∷ 200 ∷ 30 ∷ 2 ∷ 32 ∷ 58 ∷ [])

place_of_log : (readsb fresh_disk).logstart ≡ 2
unfolding readsb boot
place_of_log = refl

changed_in_cache : (change 5 (7 ∷ []) fresh_disk).disk 5 ≡ fresh_disk.disk 5
unfolding change
changed_in_cache = refl

never_used : (initsleeplock 64).locked ≡ false
unfolding initsleeplock
never_used = refl

same_name : namecmp 0 20 (λ a. 0) ≡ pos 0
unfolding namecmp strncmp
same_name = refl
