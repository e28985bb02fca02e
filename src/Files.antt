-- ===== src/Files.antt =====
-- The table of open files, code/file.c, and the descriptors of a process, code/sysfile.c.
pub mod Counts
pub mod Data
pub mod Descriptors
pub mod Fileread
pub mod Appended
pub mod Filewrite
pub mod Pipes
use os_ex.Shared.{
  ℕ, ◌+◌, Bool, true, false, if◌then◌else◌, ◌==◌, ◌||◌, leb, lt_int, eq_int, add_int, sub_int, ℤ,
  pos, negsuc, minus_one, Result, ok, panic, ◌>>=◌, List, [], ◌∷◌, Option, none, some, get_elem?,
  set, modify, find_index,
}
use os_ex.Proc.{nofile}

pub data FileType : Type 0 where
  fd_none : FileType
  fd_pipe : FileType
  fd_inode : FileType

-- `struct file`
pub record File : Type 0 where
  pub type : FileType
  pub ref : ℤ
  pub readable : Bool
  pub writable : Bool
  pub pipe : ℕ
  pub ip : ℕ
  pub off : ℕ

abbrev pub Ftable : Type 0
Ftable = List File

unfoldable pub filealloc : Ftable → Option ℕ × Ftable
filealloc files = elim (find_index (λ f. eq_int f.ref (pos 0)) files) [
  | none ↦ (none, files)
  | some i ↦ (some i, modify files i (λ f. record f { ref = pos 1 }))
]

unfoldable pub filedup : ℕ → Ftable → Result Ftable
filedup i files = elim (get_elem? files i) [
  | none ↦ panic
  | some f ↦
      if lt_int f.ref (pos 1)
      then panic
      else ok (modify files i (λ x. record x { ref = add_int x.ref (pos 1) }))
]

-- `fileclose` up to the release of the lock; when the last reference went, the copy of the file, which
-- it then closes
pub fileclose : ℕ → Ftable → Result (Option File × Ftable)
fileclose i files = elim (get_elem? files i) [
  | none ↦ panic
  | some f ↦
      let less = sub_int f.ref (pos 1) in
      if lt_int f.ref (pos 1)
      then panic
      else if lt_int (pos 0) less
      then ok (none, modify files i (λ x. record x { ref = less }))
      else ok (
        some (record f { ref = less }),
        modify files i (λ x. record x { ref = pos 0; type = fd_none }),
      )
]

-- A process's descriptors, and the files.
pub record Open : Type 0 where
  pub ofile : List (Option ℕ)
  pub files : Ftable

abbrev pub is_free : Option ℕ → Bool
is_free none = true
is_free (some f) = false

pub fdalloc : ℕ → Open → ℤ × Open
fdalloc f s = elim (find_index is_free s.ofile) [
  | none ↦ (minus_one, s)
  | some fd ↦ (pos fd, record s { ofile = set s.ofile fd (some f) })
]

-- the file of a descriptor, if it has one
abbrev pub file_of : ℕ → Option (Option ℕ) → Option (ℕ × ℕ)
file_of fd none = none
file_of fd (some none) = none
file_of fd (some (some f)) = some (fd, f)

-- `argfd` for an argument that was fetched
pub argfd : ℤ → Open → Option (ℕ × ℕ)
argfd (negsuc n) s = none
argfd (pos fd) s = if leb nofile fd then none else file_of fd (get_elem? s.ofile fd)

pub sys_dup : ℤ → Open → Result (ℤ × Open)
sys_dup n s = elim (argfd n s) [
  | none ↦ ok (minus_one, s)
  | some a ↦
      let (fd, s') = fdalloc a.1 s in
      if lt_int fd (pos 0)
      then ok (minus_one, s')
      else filedup a.1 s'.files >>= λ files. ok (fd, record s' { files = files })
]

-- `sys_close`: what it returns, and the file that it then closes
pub sys_close : ℤ → Open → Result (ℤ × Option File × Open)
sys_close n s = elim (argfd n s) [
  | none ↦ ok (minus_one, none, s)
  | some a ↦ fileclose a.1 s.files >>= λ r.
      ok (pos 0, r.0, record { ofile = set s.ofile a.0 none; files = r.1 })
]
