-- ===== src/Tests/Children.antt =====
-- Tests of the beginning and the end of processes: an init process that waits, a process of it that
-- runs, with a file and a directory, a child of that which has exited, and a free entry.
use os_ex.Shared.{
  ℕ, ◌≡◌, ◌≢◌, ◌==◌, refl, [], ◌∷◌, Result, ok, panic, Returns, arith, true, false, pos, minus_one,
  get_elem?, some, none, Found, modify, add_int,
}
use os_ex.Kalloc.{Kmem, Memory, kalloc, store}
use os_ex.Proc.{Proc, Procs, unused, sleeping, running, zombie, is_unused, wakeup}
use os_ex.Proc.Alloc.{allocproc, tf_at}
use os_ex.Proc.Wait.{wait, is_child, cleared, resume}
use os_ex.Proc.Wait.Rounds.{Reaps, frees_all}
use os_ex.Files.{Ftable, fd_inode, filedup}
use os_ex.Vm.Copies.{copyuvm}
use os_ex.Lifecycle.{Kernel, dup_files, fork, clone, growproc, child_frame, eip_of, esp_of, ebp_of}
use os_ex.Lifecycle.Exit.{close_all, pass_children, exit_end, exit_begin}
use os_ex.Lifecycle.Orphans.{passed_on, pass_children_lem}
use os_ex.Lifecycle.Exiting.{Ended, exit_end_lem}
use os_ex.Lifecycle.Reaping.{after, exit_end-wait}
use os_ex.Lifecycle.Children.{Child, Forks, fork_lem, clone_lem}
use os_ex.Tests.{process, two_free}

abbrev parent : Proc
parent = record (process sleeping 1 none) { chan = 500 }

abbrev self : Proc
self = record (process running 2 (some 0)) { ofile = some 0 ∷ none ∷ []; cwd = some 0 }

abbrev crew : Procs
crew = parent ∷ self ∷ process zombie 3 (some 1) ∷ process unused 0 none ∷ []

-- the memory of a process is not freed in these tests
abbrev keep : ℕ → Kmem → Result Kmem
keep pgdir k = ok k

pass_children_lem_example : pass_children 500 1 0 4 0 crew ≡ passed_on 500 1 0 crew
pass_children_lem_example = pass_children_lem 500 1 0 crew

exit_end_lem_example : Ended 500 1 0 crew self (exit_end 500 1 0 crew)
exit_end_lem_example = exit_end_lem 500 1 0 crew self refl

init_is_another : ◌≢◌ {A = ℕ} 0 1
init_is_another e = absurd (omega (arith, e))

exit_end-wait_example :
    ((q : Proc) × (get_elem? (after 500 0x80400000 keep 1 0 crew 0 self parent two_free) 0 ≡ some q)
      × (q.state ≡ os_ex.Proc.runnable))
    × Reaps 500 0x80400000 keep 0
        (resume 0 (exit_end 500 1 0 crew))
        two_free
        (is_child 0)
        (λ q. q.pid)
        cleared
        (frees_all 500 0x80400000 keep 0 (resume 0 (exit_end 500 1 0 crew)) two_free)
        (wait 500 0x80400000 keep 0 (resume 0 (exit_end 500 1 0 crew)) two_free)
exit_end-wait_example =
    exit_end-wait 500 0x80400000 keep 1 0 crew 0 self parent two_free refl refl init_is_another refl
      (refl, refl)

abbrev one_file : Ftable
one_file =
    record {
      type = fd_inode;
      ref = pos 1;
      readable = true;
      writable = true;
      pipe = 0;
      ip = 0;
      off = 0;
    }
    ∷ []

abbrev kernel : Kernel
kernel = record {
  table = record { procs = crew; next_pid = pos 4 };
  kmem = two_free;
  files = one_file;
  inodes = [];
}

abbrev dupped : Ftable
dupped = modify one_file 0 (λ x. record x { ref = add_int x.ref (pos 1) })

dup_files_runs : dup_files self.ofile one_file ≡ ok dupped
unfolding dup_files filedup
dup_files_runs = refl

last_free : Found (λ p. is_unused p.state) crew 3
last_free = record {
  entry = process unused 0 none;
  there = refl;
  passes = refl;
  before = (refl, (refl, (refl, tt)));
}

has_page : ((kalloc two_free).0 == 0) ≡ false
unfolding kalloc
has_page = refl

abbrev store_user : ℕ → ℕ → ℕ → Memory → Result Memory
store_user pgdir a w m = ok (store m a w)

-- the memory once the thread has its trap frame, and its stack at 8192
abbrev thread_memory : Memory
thread_memory =
    let m = (allocproc 11 22 kernel.table two_free).2.memory in
    let tf = tf_at (kalloc two_free).0 in
    store
      (store (store (store (store (child_frame m tf 0) (eip_of tf) 4096) 12280 0xFFFFFFFF) 12284 5)
        (esp_of tf) 12280)
      (ebp_of tf) 12280

fork_lem_example :
    Forks 11 22 0x80400000 0 store_user kernel 1 self 0 dupped 3 last_free refl refl refl
      dup_files_runs refl has_page
      (copyuvm 0x80400000 0 0x80400000 4096 (allocproc 11 22 kernel.table two_free).2)
      (fork 11 22 0x80400000 0 store_user 1 kernel)
fork_lem_example =
    fork_lem 11 22 0x80400000 0 store_user kernel 1 self 0 dupped 3 last_free refl refl refl
      dup_files_runs refl has_page

clone_lem_example : Returns (clone 11 22 0x80400000 0 store_user 4096 5 8192 1 kernel) (λ r.
    Child 11 22 0x80400000 0 store_user kernel 1 self 0 dupped 3 last_free refl refl refl
      dup_files_runs refl has_page 0x80400000 true r
    × (r.1.kmem.memory ≡ thread_memory))
clone_lem_example =
    clone_lem 11 22 0x80400000 0 store_user kernel 1 self 0 dupped 3 last_free refl refl refl
      dup_files_runs refl has_page 4096 5 8192 thread_memory refl

-- No entry is free.
abbrev crowded : Kernel
crowded = record kernel { table = record { procs = parent ∷ self ∷ []; next_pid = pos 4 } }

fork_fails : Returns (fork 11 22 0x80400000 0 store_user 1 crowded) (λ r. r.0 ≡ minus_one)
unfolding fork allocproc
fork_fails = refl

clone_fails :
    Returns (clone 11 22 0x80400000 0 store_user 4096 5 8192 1 crowded) (λ r. r.0 ≡ minus_one)
unfolding clone allocproc
clone_fails = refl

growproc_same :
    Returns
      (growproc 11 22 0x80400000 0 store_user (pos 0) 1 crew two_free)
      (λ r. (r.0 ≡ pos 0) × (r.1 ≡ crew))
unfolding growproc
growproc_same = (refl, refl)

close_all_runs : Returns (close_all (none ∷ none ∷ []) []) (λ r. r.1 ≡ [])
unfolding close_all
close_all_runs = refl

init_exits : exit_begin 900 0 0 (record { procs = crew; semas = [] }) ≡ panic
unfolding exit_begin
init_exits = refl

exit_end_runs : get_elem? (exit_end 500 1 0 crew) 2 ≡ some (process zombie 3 (some 0))
unfolding exit_end pass_children wakeup
exit_end_runs = refl
