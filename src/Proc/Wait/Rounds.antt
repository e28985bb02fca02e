-- ===== src/Proc/Wait/Rounds.antt =====
-- One round of `wait`, `wait2` and `join` of code/proc.c: what it returns, and when it sleeps.
use os_ex.Shared.{
  ℕ, ◌≡◌, refl, ◌⊎◌, inl, inr, Bool, true, false, ◌&&◌, All, get_elem?, none, some, arith,
  Bool-cases, ◌∙◌, Result, ok, panic, ◌>>=◌, minus_one, modify, UpdatedAt, modify-UpdatedAt,
}
use os_ex.Kalloc.{Kmem, kfree}
use os_ex.Proc.{Proc, Procs, is_zombie, proc_chan, sleep_begin}
use os_ex.Proc.Wait.{
  Outcome, returned, asleep, is_child, is_thread_of, killed_at, scan, cleared, cleared2,
  give_up_or_sleep, wait, wait2, join,
}
use os_ex.Proc.Wait.Scan.{Nobody, Exited, scan_lem, SomeChild}

-- There is no child that the caller could wait for.
abbrev pub Childless : (Proc → Bool) → Procs → Type 0
Childless child procs = All (λ p. child p ≡ false) procs

-- The result of a round in which no child has exited.
pub record NoneExited {A : Type 0} (child : Proc → Bool) (failed : A) (proc_base self : ℕ)
    (procs : Procs) (k : Kmem) (r : Result (Outcome A × Procs × Kmem)) : Type 0 where
  pub no_zombie : All (λ p. (child p && is_zombie p.state) ≡ false) procs
  pub result :
      ((r ≡ ok (returned failed, procs, k))
        × (Childless child procs ⊎ (killed_at self procs ≡ true)))
      ⊎ ((r ≡ ok (asleep, sleep_begin self (proc_chan proc_base self) procs, k))
          × (killed_at self procs ≡ false)
          × ((i : ℕ) × (p : Proc) × (get_elem? procs i ≡ some p) × (child p ≡ true)))

module _ (proc_base kernel_end : ℕ) (freevm : ℕ → Kmem → Result Kmem) (self : ℕ) (procs : Procs)
    (k : Kmem) where
  give_up_or_sleep_lem :
      {A : Type 0} (child : Proc → Bool) (failed : A) (n : Nobody child false procs)
      → NoneExited child failed proc_base self procs k (
          give_up_or_sleep proc_base kernel_end freevm failed self
            (scan child false procs).1
            procs
            k)
  unfolding give_up_or_sleep
  give_up_or_sleep_lem child failed n = record {
    no_zombie = n.no_zombie;
    result = elim (Bool-cases (scan child false procs).1) [
      | inr none_found ↦ inl (rw none_found, inl (n.no_kids none_found).1)
      | inl kids ↦ elim (Bool-cases (killed_at self procs)) [
        | inl dead ↦ inl (rw (kids, dead), inr dead)
        | inr alive ↦ inr (rw (kids, alive), alive, some_child child (n.kids kids))
      ]
    ];
  }
    where
      some_child :
          (c : Proc → Bool)
          → SomeChild c false procs
          → (i : ℕ) × (p : Proc) × (get_elem? procs i ≡ some p) × (c p ≡ true)
      some_child c (inl e) = cc
      some_child c (inr s) = s

  -- The round reaps the first child that has exited: once what it frees is freed, it returns
  -- `reply` of it and clears its entry by `clear`, and leaves every other entry.
  abbrev pub Reaps :
      {A : Type 0}
      → (child : Proc → Bool) → (Proc → A)
      → (Proc → Proc)
      → (Proc → Result Kmem)
      → Result (Outcome A × Procs × Kmem)
      → Type 0
  Reaps {A} child reply clear frees r =
      (e : Exited child false procs) × ((frees e.entry ≡ panic) → r ≡ panic)
      × ((k' : Kmem)
          → frees e.entry ≡ ok k'
          → (procs' : Procs) × (r ≡ ok (returned (reply e.entry), procs', k'))
            × UpdatedAt (λ q. q ≡ clear e.entry) e.index procs procs')

  -- What the three functions do with a child that has exited.
  reaps :
      {A : Type 0} (child : Proc → Bool) (reply : Proc → A) (clear : Proc → Proc)
      (frees : Proc → Result Kmem) (r : Result (Outcome A × Procs × Kmem))
      (e : Exited child false procs)
      → r ≡ (frees e.entry >>= λ k'. ok (returned (reply e.entry), modify procs e.index clear, k'))
      → Reaps child reply clear frees r
  reaps child reply clear frees r e q = (
    e,
    (λ z. q ∙ (rw z)),
    λ k' z. (
      modify procs e.index clear,
      q ∙ (rw z),
      modify-UpdatedAt _ procs e.index clear e.entry e.there refl,
    ),
  )

  -- `kfree(p->kstack); freevm(p->pgdir);`
  abbrev pub frees_all : Proc → Result Kmem
  frees_all p = kfree kernel_end p.kstack k >>= λ k'. freevm p.pgdir k'

  -- A round of `wait` returns the pid of the first child that has exited, whose kernel stack and
  -- memory it frees and whose entry it clears; if no child has exited it returns -1, changing
  -- nothing, when there is no child or the caller is killed, and else it sleeps.
  pub wait_lem :
      NoneExited
        (is_child self)
        minus_one
        proc_base
        self
        procs
        k
        (wait proc_base kernel_end freevm self procs k)
      ⊎ Reaps
          (is_child self)
          (λ p. p.pid)
          cleared
          frees_all
          (wait proc_base kernel_end freevm self procs k)
  unfolding wait
  wait_lem = elim (scan_lem (is_child self) false procs) [
    | inl n ↦ inl (rw (n.none_found, wait) (give_up_or_sleep_lem (is_child self) minus_one n))
    | inr e ↦ inr (
        reaps (is_child self) (λ p. p.pid) cleared frees_all _ e
          (rw (e.found, wait) (ground arith)))
  ]

  -- A round of `wait2` does what `wait` does, resets the counters too, and reports them.
  wait2_lem :
      NoneExited
        (is_child self)
        (minus_one, none)
        proc_base
        self
        procs
        k
        (wait2 proc_base kernel_end freevm self procs k)
      ⊎ Reaps
          (is_child self)
          (λ p. (p.pid, some (p.retime, p.rutime, p.stime)))
          cleared2
          frees_all
          (wait2 proc_base kernel_end freevm self procs k)
  unfolding wait2
  wait2_lem = elim (scan_lem (is_child self) false procs) [
    | inl n ↦
        inl (rw (n.none_found, wait2) (give_up_or_sleep_lem (is_child self) (minus_one, none) n))
    | inr e ↦ inr (
        reaps (is_child self) (λ p. (p.pid, some (p.retime, p.rutime, p.stime))) cleared2 frees_all
          _ e (rw (e.found, wait2) (ground arith)))
  ]

  -- A round of `join` reaps the first thread that has exited; it frees its kernel stack and not the
  -- page table, and reports the user stack.
  join_lem :
      NoneExited
        (is_thread_of self)
        (minus_one, none)
        proc_base
        self
        procs
        k
        (join proc_base kernel_end freevm self procs k)
      ⊎ Reaps
          (is_thread_of self)
          (λ p. (p.pid, some p.stack))
          cleared
          (λ p. kfree kernel_end p.kstack k)
          (join proc_base kernel_end freevm self procs k)
  unfolding join
  join_lem = elim (scan_lem (is_thread_of self) false procs) [
    | inl n ↦
        inl (rw (n.none_found, join) (give_up_or_sleep_lem (is_thread_of self) (minus_one, none) n))
    | inr e ↦ inr (
        reaps (is_thread_of self) (λ p. (p.pid, some p.stack)) cleared
          (λ p. kfree kernel_end p.kstack k) _ e (rw (e.found, join)))
  ]
