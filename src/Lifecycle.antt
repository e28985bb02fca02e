-- ===== src/Lifecycle.antt =====
-- How processes and threads of code/proc.c begin: `fork`, `clone` and `growproc`. A new entry is an
-- EMBRYO until the last step, and nothing else touches it; so each is one step on the kernel's tables.
pub mod Children
pub mod Started
pub mod Exit
pub mod Exiting
pub mod Orphans
pub mod Reaping
use os_ex.Shared.{
  ℕ, ◌+◌, ◌-◌, ◌%◌, ◌^◌, true, not, ◌&&◌, ltb, leb, ◌==◌, if◌then◌else◌, Result, ok, panic, ◌>>=◌,
  ℤ, pos, minus_one, lt_int, eq_int, to_bits, List, [], ◌∷◌, modify, get_elem?, get_or, Option,
  none, some,
}
use os_ex.Kalloc.{page_size, Memory, Kmem, store, kfree}
use os_ex.Proc.{Proc, Procs, unused, runnable}
use os_ex.Proc.Alloc.{Table, tf_size, allocproc}
use os_ex.Vm.Space.{allocuvm, deallocuvm}
use os_ex.Vm.Copies.{copyuvm}
use os_ex.Files.{Ftable, filedup}
use os_ex.Inodes.{Icache, idup}
use os_ex.Content.Io.{get_data}
use os_ex.Strings.{safestrcpy}

pub record Kernel : Type 0 where
  pub table : Table
  pub kmem : Kmem
  pub files : Ftable
  pub inodes : Icache

-- `for(i = 0; i < NOFILE; i++) if(curproc->ofile[i]) np->ofile[i] = filedup(curproc->ofile[i]);`:
-- the counts, and the descriptors
unfoldable pub dup_files : List (Option ℕ) → Ftable → Result Ftable
dup_files [] files = ok files
dup_files (none ∷ slots) files = dup_files slots files
dup_files (some f ∷ slots) files = filedup f files >>= λ files'. dup_files slots files'

abbrev pub inherit : List (Option ℕ) → List (Option ℕ) → List (Option ℕ)
inherit [] slots = slots
inherit (s ∷ theirs) [] = []
inherit (none ∷ theirs) (t ∷ slots) = t ∷ inherit theirs slots
inherit (some f ∷ theirs) (t ∷ slots) = some f ∷ inherit theirs slots

-- `safestrcpy(np->name, curproc->name, sizeof(curproc->name))`, with the two names one behind the
-- other in memory
abbrev pub copy_name : List ℕ → List ℕ → List ℕ
copy_name name theirs =
    get_data
      (safestrcpy 0 16 16 (λ a. if ltb a 16 then get_or name a 0 else get_or theirs (a - 16) 0)) 0
      16

-- `*np->tf = *curproc->tf`, as it looks to a reader of words, and the fields of a trap frame
abbrev pub copy_frame : Memory → ℕ → ℕ → Memory
copy_frame m tf theirs a = if leb tf a && ltb a (tf + tf_size) then m (theirs + (a - tf)) else m a

abbrev pub ebp_of : ℕ → ℕ
ebp_of tf = tf + 8

abbrev pub eax_of : ℕ → ℕ
eax_of tf = tf + 28

abbrev pub eip_of : ℕ → ℕ
eip_of tf = tf + 56

abbrev pub esp_of : ℕ → ℕ
esp_of tf = tf + 68

-- The copied trap frame, from which the child returns 0.
abbrev pub child_frame : Memory → ℕ → ℕ → Memory
child_frame m tf theirs = store (copy_frame m tf theirs) (eax_of tf) 0

-- The entry of a child of `self` once it may run.
abbrev pub child_of : ℕ → Proc → ℕ → Proc → Proc
child_of self cur pgdir np = record np {
  pgdir = pgdir;
  sz = cur.sz;
  parent = some self;
  ofile = inherit cur.ofile np.ofile;
  cwd = cur.cwd;
  name = copy_name np.name cur.name;
  state = runnable;
}

-- The entry of a thread.
abbrev pub thread_of : ℕ → Proc → ℕ → Proc → Proc
thread_of self cur stack np = record (child_of self cur cur.pgdir np) {
  stack = stack;
  isthread = true;
}

-- The files and the directory, and the entry `i` of the table changed at last. A process that makes a
-- child has a directory.
pub start_child : Proc → ℕ → (Proc → Proc) → Memory → Kernel → Result (ℤ × Kernel)
unfolding dup_files
start_child cur i make m s = elim cur.cwd [
  | none ↦ panic
  | some dir ↦ elim (get_elem? s.table.procs i) [
    | none ↦ panic
    | some np ↦ dup_files cur.ofile s.files >>= λ files'. ok (
      np.pid,
      record {
        table = record (s.table) { procs = modify s.table.procs i make };
        kmem = record (s.kmem) { memory = m };
        files = files';
        inodes = idup dir s.inodes;
      },
    )
  ]
]

-- `kfree(np->kstack); np->kstack = 0; np->state = UNUSED; return -1;`
abbrev pub give_back : ℕ → ℕ → Proc → Kernel → Result (ℤ × Kernel)
give_back kernel_end i np s = kfree kernel_end np.kstack s.kmem >>= λ k. ok (
  minus_one,
  record s {
    table = record (s.table) {
      procs = modify s.table.procs i (λ p. record p { kstack = 0; state = unused });
    };
    kmem = k;
  },
)

-- `fork` from the call of `copyuvm` on, with the directory that it has returned.
pub with_copy : ℕ → ℕ → Proc → ℕ → Proc → ℕ × Kmem → Kernel → Result (ℤ × Kernel)
with_copy kernel_end self cur i np (d, k) s =
    if d == 0
    then give_back kernel_end i np (record s { kmem = k })
    else start_child cur i (child_of self cur d) (child_frame k.memory np.tf cur.tf)
        (record s { kmem = k })

-- The two entries, if both are in the table.
abbrev pub both_entries :
    (Proc → ℕ → Proc → Kernel → Result (ℤ × Kernel))
    → ℕ
    → Option Proc
    → Option Proc
    → Kernel
    → Result (ℤ × Kernel)
both_entries make i (some cur) (some np) s = make cur i np s
both_entries make i _ _ s = panic

-- `if((np = allocproc()) == 0) return -1;`
abbrev pub at_slot :
    ℕ → (Proc → ℕ → Proc → Kernel → Result (ℤ × Kernel)) → Option ℕ → Kernel → Result (ℤ × Kernel)
at_slot self make none s = ok (minus_one, s)
at_slot self make (some i) s =
    both_entries make i (get_elem? s.table.procs self) (get_elem? s.table.procs i) s

-- The linker's addresses; the store of a word through a page directory is the processor's.
module _ (trapret forkret kernel_end data_start : ℕ)
    (store_user : ℕ → ℕ → ℕ → Memory → Result Memory) where
  -- What `allocproc` finds, for the process that asks.
  abbrev pub with_entry :
      ℕ → (Proc → ℕ → Proc → Kernel → Result (ℤ × Kernel)) → Kernel → Result (ℤ × Kernel)
  with_entry self make s =
      let (slot, t, k) = allocproc trapret forkret s.table s.kmem in
      at_slot self make slot (record s { table = t; kmem = k })

  unfoldable pub fork : ℕ → Kernel → Result (ℤ × Kernel)
  fork self s =
      with_entry self
        (λ cur i np s'. copyuvm kernel_end data_start cur.pgdir cur.sz s'.kmem >>= λ r.
          with_copy kernel_end self cur i np r s')
        s

  -- `(int)stack + PGSIZE - 2 * sizeof(int *)`
  abbrev pub thread_esp : ℕ → ℕ
  thread_esp stack = (stack + page_size - 8) % 2 ^ 32

  -- The trap frame of a thread, from which it runs `func`, on a stack with a return address that is
  -- none and the argument.
  abbrev pub thread_frame : ℕ → ℕ → ℕ → Memory → ℕ → Proc → Result Memory
  thread_frame func arg stack m tf cur =
      store_user cur.pgdir (thread_esp stack) 0xFFFFFFFF
        (store (child_frame m tf cur.tf) (eip_of tf) func)
      >>= λ m1. store_user cur.pgdir ((stack + page_size - 4) % 2 ^ 32) arg m1 >>= λ m2.
          ok (store (store m2 (esp_of tf) (thread_esp stack)) (ebp_of tf) (thread_esp stack))

  unfoldable pub clone : ℕ → ℕ → ℕ → ℕ → Kernel → Result (ℤ × Kernel)
  clone func arg stack self s =
      with_entry self
        (λ cur i np s'. thread_frame func arg stack s'.kmem.memory np.tf cur >>= λ m.
          start_child cur i (thread_of self cur stack) m s')
        s

  -- The size that `growproc` computes: 0 if the memory cannot be had.
  abbrev pub resize : ℤ → ℕ → ℕ → Kmem → Result (ℕ × Kmem)
  resize n pgdir sz k =
      if lt_int (pos 0) n
      then allocuvm kernel_end pgdir sz ((sz + to_bits n) % 2 ^ 32) k
      else if lt_int n (pos 0)
      then deallocuvm kernel_end pgdir sz ((sz + to_bits n) % 2 ^ 32) k
      else ok (sz, k)

  -- `growproc`, without the registers that `switchuvm` loads.
  unfoldable pub growproc : ℤ → ℕ → Procs → Kmem → Result (ℤ × Procs × Kmem)
  growproc n self procs k = elim (get_elem? procs self) [
    | none ↦ panic
    | some cur ↦ resize n cur.pgdir cur.sz k >>= λ r.
        if not (eq_int n (pos 0)) && r.0 == 0
        then ok (minus_one, procs, r.1)
        else ok (pos 0, modify procs self (λ p. record p { sz = r.0 }), r.1)
  ]
