-- ===== src/Lifecycle/Exit.antt =====
-- The end of a process of code/proc.c. `exit` gives back the semaphores first (Sem), closes its files,
-- puts its directory, and ends under `ptable.lock`, each a step of its own.
use os_ex.Shared.{
  ℕ, zero, suc, length, ◌==◌, ◌&&◌, if◌then◌else◌, Result, ok, panic, ◌>>=◌, List, [], ◌∷◌, modify,
  get_elem?, Option, none, some,
}
use os_ex.Sem.{Sys, release_all}
use os_ex.Proc.{nsema, Proc, Procs, is_zombie, zombie, proc_chan, wakeup}
use os_ex.Proc.Wait.{is_child}
use os_ex.Files.{File, Ftable, fileclose}

-- A file in front of others, if there is one.
abbrev pub add_file : Option File → List File → List File
add_file none closed = closed
add_file (some f) closed = f ∷ closed

-- `for(fd = 0; fd < NOFILE; fd++)`: the files whose last reference goes, which `fileclose` then closes.
unfoldable pub close_all : List (Option ℕ) → Ftable → Result (List File × Ftable)
close_all [] files = ok ([], files)
close_all (none ∷ slots) files = close_all slots files
close_all (some f ∷ slots) files =
    fileclose f files >>= λ r. close_all slots r.1 >>= λ q. ok (add_file r.0 q.0, q.1)

-- `if(p->parent == curproc) p->parent = initproc`
abbrev pub adopt : ℕ → ℕ → Proc → Proc
adopt self initproc p = if is_child self p then record p { parent = some initproc } else p

-- `wakeup1(curproc->parent)`; a process without a parent wakes who sleeps on 0, and nobody does.
abbrev pub parent_chan : ℕ → Option ℕ → ℕ
parent_chan proc_base none = 0
parent_chan proc_base (some j) = proc_chan proc_base j

abbrev pub parent_at : ℕ → Procs → Option ℕ
parent_at self procs = elim (get_elem? procs self) [ none ↦ none | some p ↦ p.parent ]

-- One round of the loop over the table, for the entry `p` at `i`.
abbrev pub pass_child : ℕ → ℕ → ℕ → ℕ → Proc → Procs → Procs
pass_child proc_base self initproc i p procs =
    let passed = modify procs i (adopt self initproc) in
    if is_child self p && is_zombie p.state
    then wakeup (proc_chan proc_base initproc) passed
    else passed

-- `for(p = ptable.proc; p < &ptable.proc[NPROC]; p++)`, `n` rounds from `i` on
unfoldable pub pass_children : ℕ → ℕ → ℕ → ℕ → ℕ → Procs → Procs
pass_children proc_base self initproc zero i procs = procs
pass_children proc_base self initproc (suc n) i procs = elim (get_elem? procs i) [
  | none ↦ procs
  | some p ↦
      pass_children proc_base self initproc n (suc i) (pass_child proc_base self initproc i p procs)
]

-- `exit` under `ptable.lock`, up to its call of `sched`
unfoldable pub exit_end : ℕ → ℕ → ℕ → Procs → Procs
unfolding pass_children
exit_end proc_base self initproc procs =
    let woken = wakeup (parent_chan proc_base (parent_at self procs)) procs in
    let passed = pass_children proc_base self initproc (length woken) 0 woken in
    modify passed self (λ p. record p { state = zombie })

-- `if(curproc == initproc) panic("init exiting");` and the loop over the semaphores
unfoldable pub exit_begin : ℕ → ℕ → ℕ → Sys → Result Sys
exit_begin sema_base self initproc sys =
    if self == initproc then panic else ok (release_all sema_base nsema self 0 sys)
