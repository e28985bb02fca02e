-- ===== src/Proc/Alloc/Stale.antt =====
-- What `allocproc` of code/proc.c takes over from the entry that it finds: the mark left by `kill`.
use os_ex.Shared.{
  ℕ, ◌≡◌, refl, ◌≢◌, arith, ℤ, pos, eq_int, eq_int_iff, true, false, ◌++◌, ◌∷◌, All, some,
  find_index-append, modify-append, get_elem?-append, get_elem?, length, ◌==◌,
}
use os_ex.Kalloc.{Kmem, kalloc}
use os_ex.Proc.{Proc, Procs, is_unused, unused, embryo, kill, mark_killed}
use os_ex.Proc.Alloc.{Table, allocproc, fresh_proc, alloc_stack, tf_at, context_at}
use os_ex.Proc.Alloc.Slot.{allocproc-found, taken}

kill-append :
    (pid : ℤ) (busy rest : Procs) (p : Proc)
    → All (λ q. eq_int q.pid pid ≡ false) busy
    → p.pid ≡ pid
    → kill pid (busy ++ (p ∷ rest)) ≡ (pos 0, busy ++ (mark_killed p ∷ rest))
unfolding kill
kill-append pid busy rest p a e = rw (
  find_index-append (λ q. eq_int q.pid pid) busy p rest a ((eq_int_iff p.pid pid).1 e),
  kill,
  modify-append busy p rest mark_killed,
)

module _ (trapret forkret : ℕ) (busy rest : Procs) (next_pid : ℤ) (k : Kmem) where
  abbrev table : Proc → Table
  table p = record { procs = busy ++ (p ∷ rest); next_pid = next_pid }

  allocproc-append :
      (p : Proc)
      → All (λ q. is_unused q.state ≡ false) busy
      → p.state ≡ unused
      → (kalloc k).0 ≢ 0
      → get_elem? (allocproc trapret forkret (table p) k).1.procs (length busy)
        ≡ some (record (fresh_proc next_pid p) {
          kstack = (kalloc k).0;
          tf = tf_at (kalloc k).0;
          context = context_at (kalloc k).0;
        })
  unfolding alloc_stack
  allocproc-append p a e page = rw (
    found,
    nonnull,
    modify-append busy p rest (fresh_proc next_pid),
    modify-append busy (fresh_proc next_pid p) rest (λ q. record q {
      kstack = (kalloc k).0;
      tf = tf_at (kalloc k).0;
      context = context_at (kalloc k).0;
    }),
    get_elem?-append busy
        (record (fresh_proc next_pid p) {
          kstack = (kalloc k).0;
          tf = tf_at (kalloc k).0;
          context = context_at (kalloc k).0;
        })
        rest,
  )
    where
      free : is_unused p.state ≡ true
      free = rw e

      found :
          allocproc trapret forkret (table p) k
          ≡ alloc_stack trapret forkret
              (length busy)
              (taken trapret forkret (table p) k (length busy))
              k
      found =
          allocproc-found trapret forkret (table p) k (length busy)
            (find_index-append _ busy p rest a free)

      nonnull : ((kalloc k).0 == 0) ≡ false
      nonnull = ground arith

  -- `kill(0)` succeeds when the first entry with pid 0 is one that is free, reaped or never used.
  -- If that is the entry which `allocproc` takes next, the new process is born killed.
  pub kill_zero-allocproc :
      (p : Proc)
      → All (λ q. is_unused q.state ≡ false) busy
      → All (λ q. eq_int q.pid (pos 0) ≡ false) busy
      → p.state ≡ unused
      → p.pid ≡ pos 0
      → (kalloc k).0 ≢ 0
      → let (r, procs) = kill (pos 0) (table p).procs in
        let after = allocproc trapret forkret (record { procs = procs; next_pid = next_pid }) k in
        (r ≡ pos 0)
        × ((q : Proc) × (get_elem? after.1.procs (length busy) ≡ some q)
            × (q.state ≡ embryo)
            × (q.killed ≡ true))
  unfolding mark_killed
  kill_zero-allocproc p a b u z page =
      rw (kill-append (pos 0) busy rest p b z)
        (refl, (_, allocproc-append (mark_killed p) a (rw u) page, refl, refl))
