-- ===== src/Lifecycle/Reaping.antt =====
-- `exit` and `wait` of code/proc.c together: the parent that sleeps in `wait` is woken, and its next
-- round finds a child that has exited.
use os_ex.Shared.{
  ℕ, ◌≡◌, ◌≢◌, sym, subst, ◌∙◌, Bool, inl, inr, true, false, ◌&&◌, get_elem?, some, arith, All,
  All_get_elem?, get_elem?-modify_ne, Result,
}
use os_ex.Kalloc.{Kmem}
use os_ex.Proc.{Proc, Procs, is_zombie, zombie, runnable, proc_chan, sleep_end, wake}
use os_ex.Proc.Wait.{is_child, cleared, wait, resume}
use os_ex.Proc.Wait.Rounds.{Reaps, frees_all, wait_lem}
use os_ex.Proc.Wakeup.{SleepsOn}
use os_ex.Lifecycle.Exit.{exit_end, parent_chan}
use os_ex.Lifecycle.Orphans.{has_orphan}
use os_ex.Lifecycle.Exiting.{fate, exit_end-self, exit_end_lem}

module _ (proc_base kernel_end : ℕ) (freevm : ℕ → Kmem → Result Kmem) (self initproc : ℕ) where
  -- The exiting process keeps a parent that is another process.
  fate-parent :
      (parent : ℕ) (orphan : Bool) (p : Proc)
      → p.parent ≡ some parent
      → parent ≢ self
      → is_child parent (record (fate proc_base self initproc p.parent orphan p) { state = zombie })
        ≡ true
  unfolding wake
  fate-parent parent orphan p e ne = ground arith

  module _ (procs : Procs) (parent : ℕ) (p r : Proc) (k : Kmem) where
    abbrev pub after : Procs
    after = exit_end proc_base self initproc procs

    -- No round of `wait` in which the zombie stands can find that no child has exited.
    not_missed :
        get_elem? procs self ≡ some p
        → p.parent ≡ some parent
        → parent ≢ self
        → ¬ All (λ q. (is_child parent q && is_zombie q.state) ≡ false) (resume parent after)
    unfolding resume sleep_end
    not_missed e mine ne all =
        let z = record (fate proc_base self initproc p.parent (has_orphan self procs) p) {
          state = zombie;
        } in
        let child = fate-parent parent (has_orphan self procs) p mine ne in
        let there : get_elem? (resume parent after) self ≡ some z =
          get_elem?-modify_ne after parent self _ ne
          ∙ exit_end-self proc_base self initproc procs p e in
        let missed =
          All_get_elem? (λ q. (is_child parent q && is_zombie q.state) ≡ false)
            (resume parent after) self z all there in
        absurd (ground (arith, missed, child))

    -- A process ends whose parent, another process, sleeps in `wait`: the parent runs again, and the
    -- round of `wait` that it then begins neither sleeps nor fails, but reaps the first child that has
    -- exited (once `kfree` and `freevm` return).
    pub exit_end-wait :
        get_elem? procs self ≡ some p
        → p.parent ≡ some parent
        → parent ≢ self
        → get_elem? procs parent ≡ some r
        → SleepsOn (proc_chan proc_base parent) r
        → ((q : Proc) × (get_elem? after parent ≡ some q) × (q.state ≡ runnable))
          × Reaps proc_base kernel_end freevm parent
              (resume parent after)
              k
              (is_child parent)
              (λ q. q.pid)
              cleared
              (frees_all proc_base kernel_end freevm parent (resume parent after) k)
              (wait proc_base kernel_end freevm parent (resume parent after) k)
    exit_end-wait e mine ne there s = (
      (exit_end_lem proc_base self initproc procs p e).parent_woken parent r ne there
          (subst (λ o. SleepsOn (parent_chan proc_base o) r) (sym mine) s),
      elim (wait_lem proc_base kernel_end freevm parent (resume parent after) k) [
        | inl n ↦ absurd (not_missed e mine ne n.no_zombie)
        | inr reaped ↦ reaped
      ],
    )
