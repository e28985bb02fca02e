-- ===== src/Tests/Processes.antt =====
-- Tests of the process table.
use os_ex.Shared.{
  ℕ, ◌≡◌, ◌≢◌, ◌⊎◌, refl, [], ◌∷◌, Result, ok, Returns, arith, true, pos, minus_one, get_elem?,
  some, none, ◌++◌, add_int,
}
use os_ex.Kalloc.{Kmem, kfree, kalloc}
use os_ex.Proc.{
  Proc, Procs, unused, embryo, sleeping, runnable, running, zombie, wakeup, kill, setpriority,
  update_statistics, count_tick,
}
use os_ex.Proc.Alloc.{Table, allocproc}
use os_ex.Proc.Alloc.Stale.{kill_zero-allocproc}
use os_ex.Proc.Wait.{wait, returned, is_child, cleared}
use os_ex.Proc.Wait.Rounds.{NoneExited, Reaps, frees_all, wait_lem}
use os_ex.Tests.{process, two_free, family}

-- two processes that sleep, on different channels
abbrev sleepers : Procs
sleepers =
    record (process sleeping 3 none) { chan = 77 }
    ∷ record (process sleeping 4 none) { chan = 88 }
    ∷ []

abbrev table : Table
table = record { procs = family; next_pid = pos 3 }

-- the memory of a process is not freed in these tests
abbrev keep : ℕ → Kmem → Result Kmem
keep pgdir k = ok k

wakeup_runs :
    wakeup 77 sleepers
    ≡ record (process runnable 3 none) { chan = 77 }
      ∷ record (process sleeping 4 none) { chan = 88 }
      ∷ []
unfolding wakeup
wakeup_runs = refl

kill_runs :
    (kill (pos 3) sleepers).1
    ≡ record (process runnable 3 none) { chan = 77; killed = true }
      ∷ record (process sleeping 4 none) { chan = 88 }
      ∷ []
unfolding kill
kill_runs = refl

setpriority_runs : (setpriority (pos 3) (pos 21) sleepers).0 ≡ minus_one
unfolding setpriority
setpriority_runs = refl

allocproc_runs : (allocproc 11 22 table two_free).0 ≡ some 2
unfolding allocproc kalloc
allocproc_runs = refl

abbrev busy : Procs
busy = process running 1 none ∷ process zombie 2 (some 0) ∷ []

page : (kalloc two_free).0 ≢ 0
unfolding kalloc
page = omega arith

kill_zero-allocproc_example :
    let (r, procs) = kill (pos 0) (busy ++ (process unused 0 none ∷ [])) in
    let after = allocproc 11 22 (record { procs = procs; next_pid = pos 3 }) two_free in
    (r ≡ pos 0)
    × ((q : Proc) × (get_elem? after.1.procs 2 ≡ some q) × (q.state ≡ embryo) × (q.killed ≡ true))
kill_zero-allocproc_example =
    kill_zero-allocproc 11 22 busy [] (pos 3) two_free (process unused 0 none) (refl, (refl, tt))
      (refl, (refl, tt)) refl refl page

wait_lem_example :
    NoneExited
      (is_child 0)
      minus_one
      500
      0
      family
      two_free
      (wait 500 0x80400000 keep 0 family two_free)
    ⊎ Reaps 500 0x80400000 keep 0 family two_free
        (is_child 0)
        (λ p. p.pid)
        cleared
        (frees_all 500 0x80400000 keep 0 family two_free)
        (wait 500 0x80400000 keep 0 family two_free)
wait_lem_example = wait_lem 500 0x80400000 keep 0 family two_free

wait_runs : Returns (wait 500 0x80400000 keep 0 family two_free) (λ r. r.0 ≡ returned (pos 2))
unfolding wait kfree
wait_runs = refl

update_statistics_runs :
    update_statistics (process running 1 none ∷ process unused 0 none ∷ [])
    ≡ record (process running 1 none) { rutime = add_int (pos 0) (pos 1) }
      ∷ process unused 0 none
      ∷ []
unfolding update_statistics count_tick
update_statistics_runs = refl
