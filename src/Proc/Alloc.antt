-- ===== src/Proc/Alloc.antt =====
-- `allocproc` of code/proc.c: a free entry of the process table, a pid, and a kernel stack on which
-- the process starts. The entry is taken under `ptable.lock`; the rest touches only that entry and
-- the page allocator.
pub mod Slot
pub mod Stale
use os_ex.Shared.{
  ℕ, zero, suc, ◌+◌, ◌-◌, Bool, true, false, ◌&&◌, ltb, leb, ◌==◌, if◌then◌else◌, ℤ, pos, add_int,
  List, modify, replicate, find_index, Option, none, some,
}
use os_ex.Kalloc.{page_size, Memory, Kmem, store, kalloc}
use os_ex.Proc.{Proc, Procs, nsema, ProcState, unused, embryo, is_unused}

-- `ptable.proc` and `nextpid`
pub record Table : Type 0 where
  pub procs : Procs
  pub next_pid : ℤ

-- `sizeof(struct trapframe)`, `sizeof(struct context)`, and the offset of `eip` in the latter
abbrev pub tf_size : ℕ
tf_size = 76

abbrev pub context_size : ℕ
context_size = 20

abbrev pub eip_offset : ℕ
eip_offset = 16

-- `memset(p, 0, n)`, as it looks to a reader of words
abbrev pub clear : Memory → ℕ → ℕ → Memory
clear m p n a = if leb p a && ltb a (p + n) then 0 else m a

-- what the entry that is found becomes
abbrev pub fresh_proc : ℤ → Proc → Proc
fresh_proc pid p = record p {
  state = embryo;
  priority = pos 10;
  pid = pid;
  sem_held = replicate nsema (pos 0);
}

-- the part under the lock
pub alloc_slot : Table → Option ℕ × Table
alloc_slot t = elim (find_index (λ p. is_unused p.state) t.procs) [
  | none ↦ (none, t)
  | some i ↦ (
    some i,
    record t {
      procs = modify t.procs i (fresh_proc t.next_pid);
      next_pid = add_int t.next_pid (pos 1);
    },
  )
]

-- Where the trap frame and the context lie on the stack at a given page.
abbrev pub tf_at : ℕ → ℕ
tf_at kstack = kstack + page_size - tf_size

abbrev pub context_at : ℕ → ℕ
context_at kstack = tf_at kstack - 4 - context_size

module _ (trapret forkret : ℕ) where
  -- the stack that returns to `trapret` after `forkret`
  abbrev pub start_stack : Memory → ℕ → Memory
  start_stack m kstack =
      store (clear (store m (tf_at kstack - 4) trapret) (context_at kstack) context_size)
        (context_at kstack + eip_offset) forkret

  -- the part after the lock is released, for the entry found
  pub alloc_stack : ℕ → Table → Kmem → Option ℕ × Table × Kmem
  alloc_stack i t k =
      let (page, k') = kalloc k in
      if page == 0
      then (
        none,
        record t { procs = modify t.procs i (λ p. record p { kstack = 0; state = unused }) },
        k',
      )
      else (
        some i,
        record t {
          procs =
              modify t.procs i
                (λ p. record p { kstack = page; tf = tf_at page; context = context_at page });
        },
        record k' { memory = start_stack k'.memory page },
      )

  unfoldable pub allocproc : Table → Kmem → Option ℕ × Table × Kmem
  unfolding alloc_slot alloc_stack
  allocproc t k =
      let (slot, t') = alloc_slot t in
      elim slot [ none ↦ (none, t', k) | some i ↦ alloc_stack i t' k ]
