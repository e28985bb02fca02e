-- ===== src/Lifecycle/Started.antt =====
-- The last part of `fork` and `clone` of code/proc.c, and the slot they take.
use os_ex.Shared.{
  ℕ, ◌≡◌, ◌≢◌, sym, subst, ap, ◌∙◌, true, false, modify, get_elem?, some, arith, ok, some-injective,
}
use os_ex.Kalloc.{Memory}
use os_ex.Proc.{Proc, Procs, is_unused}
use os_ex.Files.{Ftable}
use os_ex.Inodes.{idup}
use os_ex.Lifecycle.{Kernel, dup_files, start_child}

-- The entry of a free slot is not that of a process in use.
pub free_ne :
    (procs : Procs) (i self : ℕ) (p cur : Proc)
    → get_elem? procs i ≡ some p
    → is_unused p.state ≡ true
    → get_elem? procs self ≡ some cur
    → is_unused cur.state ≡ false
    → i ≢ self
free_ne procs i self p cur there free e used same =
    let at : get_elem? procs self ≡ some p = subst (λ j. get_elem? procs j ≡ some p) same there in
    let one : p ≡ cur = some-injective p cur (sym at ∙ e) in
    absurd (ground (arith, ap (λ q. is_unused q.state) one))

-- The kernel after the last part of `fork` and `clone`.
abbrev pub started : Proc → ℕ → ℕ → (Proc → Proc) → Memory → Kernel → Ftable → Kernel
started cur i dir make m s files = record {
  table = record (s.table) { procs = modify s.table.procs i make };
  kmem = record (s.kmem) { memory = m };
  files = files;
  inodes = idup dir s.inodes;
}

pub start_child_lem :
    (cur np : Proc) (i dir : ℕ) (make : Proc → Proc) (m : Memory) (s : Kernel) (files : Ftable)
    → cur.cwd ≡ some dir
    → get_elem? s.table.procs i ≡ some np
    → dup_files cur.ofile s.files ≡ ok files
    → start_child cur i make m s ≡ ok (np.pid, started cur i dir make m s files)
unfolding start_child
start_child_lem cur np i dir make m s files c e d = simp (start_child, c, e, d)
