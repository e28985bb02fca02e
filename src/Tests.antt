-- ===== src/Tests.antt =====
-- Data on which the tests run: processes in each state, a page allocator, and semaphores.
mod Volumes
mod Spaces
mod Memory
mod Processes
mod Semaphores
mod Scheduling
mod Pipes
mod Text
mod Resumption
mod Guards
mod Entries
mod Handles
mod Arguments
mod Children
mod Buffers
mod Transactions
mod Transfers
use os_ex.Shared.{
  ℕ, zero, suc, ◌+◌, Bool, true, false, ℤ, pos, List, [], ◌∷◌, replicate, Option, none, some,
  if◌then◌else◌, ◌==◌,
}
use os_ex.Proc.{Proc, ProcState, unused, sleeping, runnable, running, zombie}
use os_ex.Kalloc.{Kmem}

-- A process in a state, with a pid and a parent.
abbrev pub process : ProcState → ℕ → Option ℕ → Proc
process state pid parent = record {
  sz = 4096;
  pgdir = 0x80400000;
  kstack = 0x80402000;
  state = state;
  pid = pos pid;
  priority = pos 10;
  parent = parent;
  tf = 0;
  context = 0;
  chan = 0;
  killed = false;
  ofile = replicate 16 none;
  cwd = none;
  name = replicate 16 0;
  isthread = false;
  stack = 0;
  ctime = 0;
  stime = pos 0;
  retime = pos 7;
  rutime = pos 0;
  sem_held = replicate 32 (pos 0);
}

-- Two free pages, the one at 0x80401000 on top.
abbrev pub two_free : Kmem
two_free = record {
  use_lock = true;
  freelist = 0x80401000;
  memory = λ a. if a == 0x80401000 then 0x80403000 else 0;
}

abbrev pub none_free : Kmem
none_free = record { use_lock = true; freelist = 0; memory = λ a. 0 }

-- An init process that runs, a child that has exited, and a free entry.
abbrev pub family : List Proc
family = process running 1 none ∷ process zombie 2 (some 0) ∷ process unused 0 none ∷ []
