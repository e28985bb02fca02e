-- ===== src/Proc.antt =====
-- code/proc.h and the operations of code/proc.c on the process table that touch nothing else.
-- A process is its index in `ptable.proc`; each function below holds `ptable.lock` from its first
-- access to the table to its last, so it is one step. An `int` is an integer in 32-bit range.
pub mod Wait
pub mod Wakeup
pub mod Alloc
pub mod Kill
use os_ex.Shared.{
  ℕ, zero, suc, ◌+◌, ◌-◌, ◌*◌, ◌/◌, ◌%◌, ◌^◌, Bool, true, false, not, ◌&&◌, ◌||◌, ltb, leb, ◌==◌,
  if◌then◌else◌, Result, ok, panic, ℤ, pos, negsuc, add_int, eq_int, lt_int, minus_one, List, [],
  ◌∷◌, map, modify, find_index, Option, none, some,
}

abbrev pub nproc : ℕ
nproc = 64

abbrev pub nofile : ℕ
nofile = 16

abbrev pub nsema : ℕ
nsema = 32

pub data ProcState : Type 0 where
  unused embryo sleeping runnable running zombie : ProcState

-- `struct proc`. A pointer to a process is the index of its entry, if it is not null; other
-- pointers are addresses, null being 0. The trap frame and the context lie in kernel memory.
pub record Proc : Type 0 where
  pub sz : ℕ
  pub pgdir : ℕ
  pub kstack : ℕ
  pub state : ProcState
  pub pid : ℤ
  pub priority : ℤ
  pub parent : Option ℕ
  pub tf : ℕ
  pub context : ℕ
  pub chan : ℕ
  pub killed : Bool
  pub ofile : List (Option ℕ)
  pub cwd : Option ℕ
  pub name : List ℕ
  pub isthread : Bool
  pub stack : ℕ
  pub ctime : ℕ
  pub stime : ℤ
  pub retime : ℤ
  pub rutime : ℤ
  pub sem_held : List ℤ

abbrev pub Procs : Type 0
Procs = List Proc

-- `p->state == UNUSED` and the like
abbrev pub is_unused : ProcState → Bool
is_unused unused = true
is_unused _ = false

abbrev pub is_sleeping : ProcState → Bool
is_sleeping sleeping = true
is_sleeping _ = false

abbrev pub is_runnable : ProcState → Bool
is_runnable runnable = true
is_runnable _ = false

abbrev pub is_zombie : ProcState → Bool
is_zombie zombie = true
is_zombie _ = false

-- `&ptable.proc[i]` as a channel to sleep on, given the address of the table
abbrev pub proc_size : ℕ
proc_size = 280

abbrev pub proc_chan : ℕ → ℕ → ℕ
proc_chan proc_base i = proc_base + i * proc_size

-- the body of the loop of `wakeup1`
unfoldable pub wake : ℕ → Proc → Proc
wake chan p = if is_sleeping p.state && (p.chan == chan) then record p { state = runnable } else p

-- `wakeup1` and `wakeup`, which differ in who takes the lock
unfoldable pub wakeup : ℕ → Procs → Procs
unfolding wake
wakeup chan procs = map (wake chan) procs

-- `sleep` up to its call of `sched`, and from there on when the process runs again
unfoldable pub sleep_begin : ℕ → ℕ → Procs → Procs
sleep_begin self chan procs = modify procs self (λ p. record p { chan = chan; state = sleeping })

unfoldable pub sleep_end : ℕ → Procs → Procs
sleep_end self procs = modify procs self (λ p. record p { chan = 0 })

-- `yield` up to its call of `sched`
unfoldable pub yield : ℕ → Procs → Procs
yield self procs = modify procs self (λ p. record p { state = runnable })

-- what `kill` does to the process it finds
pub mark_killed : Proc → Proc
mark_killed p = record p {
  killed = true;
  state = if is_sleeping p.state then runnable else p.state;
}

unfoldable pub kill : ℤ → Procs → ℤ × Procs
unfolding mark_killed
kill pid procs = elim (find_index (λ p. eq_int p.pid pid) procs) [
  | some i ↦ (pos 0, modify procs i mark_killed)
  | none ↦ (minus_one, procs)
]

unfoldable pub setpriority : ℤ → ℤ → Procs → ℤ × Procs
setpriority pid priority procs =
    if lt_int priority (pos 1) || lt_int (pos 20) priority
    then (minus_one, procs)
    else elim (find_index (λ p. eq_int p.pid pid) procs) [
      | some i ↦ (pos 0, modify procs i (λ p. record p { priority = priority }))
      | none ↦ (minus_one, procs)
    ]

-- the body of the loop of `update_statistics`: a `switch` on the state
unfoldable pub count_tick : Proc → Proc
count_tick p = elim p.state [
  | sleeping ↦ record p { stime = add_int p.stime (pos 1) }
  | runnable ↦ record p { retime = add_int p.retime (pos 1) }
  | running ↦ record p { rutime = add_int p.rutime (pos 1) }
  | _ ↦ p
]

unfoldable pub update_statistics : Procs → Procs
unfolding count_tick
update_statistics procs = map count_tick procs
