-- ===== src/Tests/Transactions.antt =====
-- Tests of the log.
use os_ex.Shared.{
  ℕ, ◌<◌, ◌≡◌, inr, refl, List, [], ◌∷◌, ◌==◌, arith, true, false, pos, replicate, subst, sym, ap,
  set, ok, panic, if◌then◌else◌, map, add_int, ◌+ℤ◌, ◌++◌,
}
use os_ex.Disk.{Block, Store, apply, bwrite, update, boot, Blocks}
use os_ex.Proc.{Procs, running, sleeping}
use os_ex.Log.{
  home, Log, begin_op, log_enter, log_write, commit, write_log, copy_from, write_head,
  install_trans, install_from, put_blocks, recover_from_log, read_head, get_blocks,
}
use os_ex.Log.Trace.{IsHome, IsLog}
use os_ex.Log.Crash.{IsCommitted, AllOf}
use os_ex.Log.Again.{recover_crash}
use os_ex.Log.Atomic.{Recovered, commit_crash}
use os_ex.Log.Entries.{IsDistinct, EnteredAll, enter_each, enter_each_lem}
use os_ex.Log.Steps.{Step, begins, Reachable, start, step, IsStart}
use os_ex.Log.Admission.{log_write-Reachable}
use os_ex.Tests.{process}
use mathlib.Core.Option.{none}

-- a log of 40 blocks from block 2 on, of an image as mkfs.c makes it but for the size
abbrev empty_log : Log
empty_log = record {
  addr = 0x80112000;
  start = 2;
  size = 40;
  outstanding = pos 0;
  committing = false;
  n = 0;
  block = replicate 30 0;
}

abbrev procs : Procs
procs = process running 1 none ∷ []

-- Every block is 0 on the disk; block 50 has been changed in the cache.
abbrev store : Store
store = record {
  cache = λ b. if b == 50 then 7 ∷ [] else replicate 128 0;
  disk = λ b. replicate 128 0;
  writes = [];
}

-- one operation, with one entry, for block 50
abbrev one_entry : Log
one_entry = record empty_log { outstanding = pos 1; n = 1; block = set (replicate 30 0) 0 50 }

zero_only : (i : ℕ) → i < 1 → i ≡ 0
zero_only i h = omega arith

one_entry-IsLog : IsLog one_entry
one_entry-IsLog = record {
  few = omega arith;
  inside = omega arith;
  entries = refl;
  homes = λ i h.
      subst (IsHome one_entry) (sym (ap (home one_entry) (zero_only i h))) (inr (omega arith));
}

-- The commit writes the copy, the header, the block and the header again.
writes_of_commit : map (λ w. w.0) (commit one_entry store).1.writes ≡ 3 ∷ 2 ∷ 50 ∷ 2 ∷ []
unfolding commit write_log copy_from write_head install_trans install_from bwrite update put_blocks
writes_of_commit = refl

disk_after_commit : (commit one_entry store).1.disk 50 ≡ 7 ∷ []
unfolding commit write_log copy_from write_head install_trans install_from bwrite update put_blocks
disk_after_commit = refl

-- the header that says that block 50 is logged
abbrev header : Block
header = set (set (replicate 128 0) 0 1) 1 50

-- the writes that are left when the copy has been written
abbrev rest_of_commit : List (ℕ × Block)
rest_of_commit = (2, header) ∷ (50, 7 ∷ []) ∷ (2, set header 0 0) ∷ []

split_commit : (commit one_entry store).1.writes ≡ ((3, 7 ∷ []) ∷ []) ++ rest_of_commit
unfolding commit write_log copy_from write_head install_trans install_from bwrite update put_blocks
split_commit = refl

commit_crash_example :
    Recovered one_entry store empty_log (apply ((3, 7 ∷ []) ∷ []) store.disk) rest_of_commit
commit_crash_example =
    commit_crash one_entry one_entry-IsLog store refl empty_log
      (record { start = refl; size = refl; entries = refl }) ((3, 7 ∷ []) ∷ []) rest_of_commit refl
      (omega arith) split_commit

one_entry-IsDistinct : IsDistinct one_entry
one_entry-IsDistinct i j lt h e = omega (arith, lt, h)

-- A second block gets the second entry, the first block keeps its own.
abbrev two_entries : Log
two_entries = record one_entry { n = 2; block = set (set (replicate 30 0) 0 50) 1 60 }

write_another : log_write 60 one_entry ≡ ok two_entries
unfolding log_write
write_another = refl

write_again : log_write 50 one_entry ≡ ok one_entry
unfolding log_write
write_again = refl

enter_each_lem_example : EnteredAll (60 ∷ 70 ∷ []) one_entry (enter_each (60 ∷ 70 ∷ []) one_entry)
enter_each_lem_example =
    enter_each_lem (60 ∷ 70 ∷ []) one_entry one_entry-IsLog one_entry-IsDistinct
      (inr (omega arith), (inr (omega arith), tt)) (omega arith) (omega arith)

-- Two callers pass the tests of `log_write` at 28 entries of a log of 30 blocks; after them there are 30
-- entries, one more than the log has blocks for.
abbrev full_log : Log
full_log = record empty_log { size = 30; outstanding = pos 2; n = 28 }

both_callers_pass : log_write 60 full_log ≡ ok (log_enter 60 full_log)
unfolding log_write
both_callers_pass = refl

too_many_entries : (log_enter 70 (log_enter 60 full_log)).n ≡ 30
too_many_entries = refl

-- With the 30 blocks that mkfs.c gives the log, an entry that `begin_op` has reserved does not fit.
abbrev small_log : Log
small_log = record empty_log { size = 30; outstanding = pos 1; n = 29 }

last_entry_panics : log_write 60 small_log ≡ panic
unfolding log_write
last_entry_panics = refl

empty_log-IsStart : IsStart empty_log
empty_log-IsStart = record { none = refl; empty = refl; idle = refl }

abbrev begun_log : Log
begun_log = record empty_log { outstanding = pos 1 }

begun : begin_op 0 empty_log procs ≡ (true, begun_log, procs)
unfolding begin_op add_int ◌+ℤ◌
begun = refl

begun-Reachable : Reachable empty_log begun_log (10 ∷ [])
begun-Reachable = step start (begins 0 procs procs begun)

log_write-Reachable_example :
    (lg' : Log) × (log_write 60 begun_log ≡ ok lg') × Step begun_log (10 ∷ []) lg' (9 ∷ [])
log_write-Reachable_example =
    log_write-Reachable empty_log begun_log [] [] 9 60 empty_log-IsStart begun-Reachable
      (omega arith)

-- A process that waits for the log.
abbrev waiting : Procs
waiting = record (process sleeping 1 none) { chan = 0x80112000 } ∷ []

-- a disk on which the transaction of block 50 has been committed, and not installed
abbrev committed_disk : Blocks
committed_disk b = if b == 2 then header else (if b == 3 then 7 ∷ [] else replicate 128 0)

committed_other : (b : ℕ) → IsHome one_entry b → committed_disk b ≡ replicate 128 0
committed_other b h = rw (first b h, second b h) refl
  where
    first : (b : ℕ) → IsHome one_entry b → (b == 2) ≡ false
    first b h = ground arith

    second : (b : ℕ) → IsHome one_entry b → (b == 3) ≡ false
    second b h = ground arith

committed_disk-IsCommitted : IsCommitted one_entry store.cache store.disk committed_disk
committed_disk-IsCommitted = record {
  count = refl;
  names = λ i h. rw (zero_only i h) refl;
  saved = λ i h. rw (zero_only i h) refl;
  others = λ b h free. committed_other b h;
}

split_recovery :
    (recover_from_log empty_log (boot committed_disk)).1.writes
    ≡ ((50, 7 ∷ []) ∷ []) ++ ((2, set header 0 0) ∷ [])
unfolding recover_from_log read_head get_blocks install_trans install_from write_head put_blocks
    bwrite boot update
split_recovery = refl

recover_crash_example :
    AllOf one_entry store.cache store.disk
      (recover_from_log empty_log (boot (apply ((50, 7 ∷ []) ∷ []) committed_disk))).1.disk
recover_crash_example =
    recover_crash one_entry one_entry-IsLog store.cache store.disk empty_log
      (record { start = refl; size = refl; entries = refl }) committed_disk
      committed_disk-IsCommitted ((50, 7 ∷ []) ∷ []) ((2, set header 0 0) ∷ []) split_recovery
