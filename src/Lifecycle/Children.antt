-- ===== src/Lifecycle/Children.antt =====
-- What `fork` and `clone` of code/proc.c make of a free entry.
use os_ex.Shared.{
  ℕ, ◌≡◌, ◌≢◌, refl, sym, subst, ap, ◌∙◌, Bool, true, false, ◌==◌, if◌then◌else◌, get_elem?, Option,
  some, arith, panic, Found, UpdatedAt, get_elem?-modify_ne, get_elem?-modify_self, Result, ok,
  ◌>>=◌, Returns, ℤ, find_index, length-modify, minus_one, Bool-cases, inl, inr,
}
use os_ex.Kalloc.{Memory, Kmem, kfree, kalloc}
use os_ex.Proc.{Proc, is_unused, unused, runnable}
use os_ex.Proc.Alloc.{Table, allocproc, fresh_proc, tf_at, context_at}
use os_ex.Proc.Alloc.Slot.{Allocated, with_stack, allocproc-found}
use os_ex.Vm.Copies.{copyuvm}
use os_ex.Files.{Ftable}
use os_ex.Lifecycle.{
  Kernel, dup_files, start_child, with_copy, fork, clone, child_of, thread_of, thread_frame,
  child_frame, eax_of, with_entry, at_slot, both_entries, give_back, inherit, copy_name,
}
use os_ex.Lifecycle.Started.{free_ne, started, start_child_lem}

-- A process in use that has a directory and open files, and a slot and a stack for its child.
module _ (trapret forkret kernel_end data_start : ℕ)
    (store_user : ℕ → ℕ → ℕ → Memory → Result Memory) (s : Kernel) (self : ℕ) (cur : Proc) (dir : ℕ)
    (files : Ftable) (i : ℕ) (f : Found (λ p. is_unused p.state) s.table.procs i)
    (mine : get_elem? s.table.procs self ≡ some cur) (used : is_unused cur.state ≡ false)
    (has_dir : cur.cwd ≡ some dir) (dups : dup_files cur.ofile s.files ≡ ok files)
    (slot : find_index (λ p. is_unused p.state) s.table.procs ≡ some i)
    (page : ((kalloc s.kmem).0 == 0) ≡ false) where
  -- `allocproc` takes the slot.
  slot-Allocated : Allocated trapret forkret s.table s.kmem i f
  slot-Allocated =
      with_stack trapret forkret s.table s.kmem i f
        (allocproc-found trapret forkret s.table s.kmem i slot) page

  abbrev pub found : Option ℕ × Table × Kmem
  found = allocproc trapret forkret s.table s.kmem

  abbrev allocated : Kernel
  allocated = record s { table = found.1; kmem = found.2 }

  -- The entry as `allocproc` leaves it.
  abbrev pub entry_on : ℕ → Proc
  entry_on stack = record (fresh_proc s.table.next_pid f.entry) {
    kstack = stack;
    tf = tf_at stack;
    context = context_at stack;
  }

  abbrev pub entry : Proc
  entry = entry_on (kalloc s.kmem).0

  made_there : get_elem? found.1.procs i ≡ some entry
  made_there =
      slot-Allocated.made.there
      ∙ ap (λ q. some q) slot-Allocated.made.holds
      ∙ ap (λ x. some (entry_on x)) (sym slot-Allocated.from_kalloc.0)

  -- What both functions say of the entry of the child.
  pub record Child (pgdir : ℕ) (thread : Bool) (r : ℤ × Kernel) : Type 0 where
    pub pid : r.0 ≡ s.table.next_pid
    pub child : Proc
    pub there : get_elem? r.1.table.procs i ≡ some child
    pub runs : child.state ≡ runnable
    pub has_pid : child.pid ≡ s.table.next_pid
    pub parent : child.parent ≡ some self
    pub space : (child.pgdir ≡ pgdir) × (child.sz ≡ cur.sz)
    pub marked : child.isthread ≡ thread
    pub ofile : child.ofile ≡ inherit cur.ofile f.entry.ofile
    pub name : child.name ≡ copy_name f.entry.name cur.name
    pub others : (j : ℕ) → i ≢ j → get_elem? r.1.table.procs j ≡ get_elem? s.table.procs j
    pub counts : r.1.files ≡ files

  still_there : get_elem? found.1.procs self ≡ some cur
  still_there =
      slot-Allocated.made.others self
        (free_ne s.table.procs i self f.entry cur f.there f.passes mine used)
      ∙ mine

  started-Child :
      (k : Kmem) (pgdir : ℕ) (thread : Bool) (make : Proc → Proc) (m : Memory)
      → (make entry).state ≡ runnable
      → (make entry).pid ≡ entry.pid
      → (make entry).parent ≡ some self
      → ((make entry).pgdir ≡ pgdir) × ((make entry).sz ≡ cur.sz)
      → (make entry).isthread ≡ thread
      → (make entry).ofile ≡ inherit cur.ofile entry.ofile
      → (make entry).name ≡ copy_name entry.name cur.name
      → Child pgdir thread
          (entry.pid, started cur i dir make m (record allocated { kmem = k }) files)
  started-Child k pgdir thread make m runs has_pid parent space marked ofile name = record {
    pid = refl;
    child = make entry;
    there = get_elem?-modify_self found.1.procs i make entry made_there;
    runs = runs;
    has_pid = has_pid;
    parent = parent;
    space = space;
    marked = marked;
    ofile = ofile;
    name = name;
    others =
        λ j ne. get_elem?-modify_ne found.1.procs i j make ne ∙ slot-Allocated.made.others j ne;
    counts = refl;
  }

  with_entry-found :
      (make : Proc → ℕ → Proc → Kernel → Result (ℤ × Kernel))
      → with_entry trapret forkret kernel_end data_start store_user self make s
        ≡ make cur i entry allocated
  with_entry-found make =
      ap (λ o. at_slot self make o allocated) slot-Allocated.index
      ∙ ap (λ o. both_entries make i o (get_elem? found.1.procs i) allocated) still_there
      ∙ ap (λ o. both_entries make i (some cur) o allocated) made_there

  -- The slot and its stack are given back.
  pub record GivenBack (k : Kmem) (r : ℤ × Kernel) : Type 0 where
    pub failed : r.0 ≡ minus_one
    pub slot_free :
        UpdatedAt (λ q. (q.state ≡ unused) × (q.kstack ≡ 0)) i s.table.procs r.1.table.procs
    pub freed : r.1.kmem ≡ k
    pub files_kept : (r.1.files ≡ s.files) × (r.1.inodes ≡ s.inodes)

  -- What `fork` does by what `kfree` of the stack returns.
  abbrev pub FreesStack : Result Kmem → Result (ℤ × Kernel) → Type 0
  FreesStack panic r = r ≡ panic
  FreesStack (ok k) r = Returns r (GivenBack k)

  -- What `fork` does by what `copyuvm` returns: a panic, a directory that is 0, or the child's.
  abbrev pub Forks : Result (ℕ × Kmem) → Result (ℤ × Kernel) → Type 0
  Forks panic r = r ≡ panic
  Forks (ok (d, k)) r =
      if d == 0
      then FreesStack (kfree kernel_end entry.kstack k) r
      else Returns r (λ q. Child d f.entry.isthread q × (q.1.kmem.memory (eax_of entry.tf) ≡ 0))

  given_back_lem :
      (k : Kmem) (o : Result Kmem)
      → kfree kernel_end entry.kstack k ≡ o
      → FreesStack o (give_back kernel_end i entry (record allocated { kmem = k }))
  given_back_lem k panic e = rw e refl
  given_back_lem k (ok k') e = rw e (record {
    failed = refl;
    slot_free = record {
      entry = record entry { kstack = 0; state = unused };
      there = get_elem?-modify_self found.1.procs i _ entry made_there;
      holds = (refl, refl);
      others = λ j ne. get_elem?-modify_ne found.1.procs i j _ ne ∙ slot-Allocated.made.others j ne;
      same_length = length-modify found.1.procs i _ ∙ slot-Allocated.made.same_length;
    };
    freed = refl;
    files_kept = (refl, refl);
  })

  with_copy_lem :
      (d : ℕ) (k : Kmem)
      → Forks (ok (d, k)) (with_copy kernel_end self cur i entry (d, k) allocated)
  unfolding with_copy
  with_copy_lem d k = elim (Bool-cases (d == 0)) [
    | inl null ↦ rw null (given_back_lem k (kfree kernel_end entry.kstack k) refl)
    | inr nonzero ↦
        let m = child_frame k.memory entry.tf cur.tf in
        let make = child_of self cur d in
        let s' = record allocated { kmem = k } in
        rw nonzero (
          subst
            (λ q.
              Returns q (λ r. Child d f.entry.isthread r × (r.1.kmem.memory (eax_of entry.tf) ≡ 0)))
            (sym (start_child_lem cur entry i dir make m s' files has_dir made_there dups))
            (
              started-Child k d f.entry.isthread make m refl refl refl (refl, refl) refl refl refl,
              ground arith,
            ))
  ]

  copied_lem :
      (o : Result (ℕ × Kmem))
      → Forks o (o >>= λ q. with_copy kernel_end self cur i entry q allocated)
  copied_lem panic = refl
  copied_lem (ok (d, k)) = with_copy_lem d k

  -- `fork` of a process in use, with a directory and with open files that `filedup` counts without a
  -- panic, when there is a free slot and a page for the stack: if `copyuvm` returns a directory that is
  -- not 0, it returns the next pid. The child stands in the slot, may run,
  -- and has the copied memory, the size, the descriptors and the name of the process, which is its
  -- parent; it returns 0, and has the mark of a thread if the slot had it. If `copyuvm` returns 0
  -- and `kfree` returns, `fork` returns -1 and the slot is free again. Every other entry is as
  -- before. It panics only if `copyuvm` or this `kfree` does.
  pub fork_lem :
      Forks
        (copyuvm kernel_end data_start cur.pgdir cur.sz found.2)
        (fork trapret forkret kernel_end data_start store_user self s)
  unfolding fork
  fork_lem =
      subst (Forks (copyuvm kernel_end data_start cur.pgdir cur.sz found.2))
        (sym (
          with_entry-found (λ cur' i' np s1.
            copyuvm kernel_end data_start cur'.pgdir cur'.sz s1.kmem >>= λ r.
            with_copy kernel_end self cur' i' np r s1)))
        (copied_lem (copyuvm kernel_end data_start cur.pgdir cur.sz found.2))

  -- `clone` of a process in use, with a directory and with open files that `filedup` counts without a
  -- panic, when there is a free slot and a page for the stack in the kernel, and the stores to the
  -- stack of the thread can be made, returns the next pid. The thread
  -- stands in the slot, may run, and shares the page directory and the size of the process, which is
  -- its parent; it has its descriptors and its name, and the mark of a thread. Every other entry is as
  -- before.
  pub clone_lem :
      (func arg stack : ℕ) (m : Memory)
      → thread_frame trapret forkret kernel_end data_start store_user func arg stack found.2.memory
          entry.tf cur
        ≡ ok m
      → Returns
          (clone trapret forkret kernel_end data_start store_user func arg stack self s)
          (λ r. Child cur.pgdir true r × (r.1.kmem.memory ≡ m))
  unfolding clone
  clone_lem func arg stack m stored =
      let make = thread_of self cur stack in
      let cloned : clone trapret forkret kernel_end data_start store_user func arg stack self s
          ≡ ok (entry.pid, started cur i dir make m allocated files) =
        with_entry-found (λ cur' i' np s1.
          thread_frame trapret forkret kernel_end data_start store_user func arg stack
            s1.kmem.memory np.tf cur'
          >>= λ m'. start_child cur' i' (thread_of self cur' stack) m' s1)
        ∙ ap (λ r. r >>= λ m'. start_child cur i make m' allocated) stored
        ∙ start_child_lem cur entry i dir make m allocated files has_dir made_there dups in
      subst (λ q. Returns q (λ r. Child cur.pgdir true r × (r.1.kmem.memory ≡ m))) (sym cloned)
        (
          started-Child found.2 cur.pgdir true make m refl refl refl (refl, refl) refl refl refl,
          refl,
        )
