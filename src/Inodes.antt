-- ===== src/Inodes.antt =====
-- The cache of inodes of code/fs.c, without their contents on the disk. An inode is the index of its
-- entry. The steps hold `icache.lock`.
pub mod Unique
use os_ex.Shared.{
  ℕ, Bool, true, false, ◌&&◌, ◌==◌, eq_int, lt_int, add_int, sub_int, ℤ, pos, Result, ok, panic,
  List, Option, none, some, modify, find_index, get_elem?,
}

-- `struct inode` without its lock
pub record Inode : Type 0 where
  pub dev : ℕ
  pub inum : ℕ
  pub ref : ℤ
  pub valid : Bool
  pub type : ℤ
  pub major : ℤ
  pub minor : ℤ
  pub nlink : ℤ
  pub size : ℕ
  pub addrs : List ℕ

abbrev pub Icache : Type 0
Icache = List Inode

abbrev pub is_inode : ℕ → ℕ → Inode → Bool
is_inode dev inum ip = lt_int (pos 0) ip.ref && (ip.dev == dev) && (ip.inum == inum)

abbrev pub is_unreferenced : Inode → Bool
is_unreferenced ip = eq_int ip.ref (pos 0)

abbrev pub once_more : Inode → Inode
once_more ip = record ip { ref = add_int ip.ref (pos 1) }

abbrev pub taken : ℕ → ℕ → Inode → Inode
taken dev inum ip = record ip { dev = dev; inum = inum; ref = pos 1; valid = false }

-- `iget`: the first entry of the inode, or else the first empty one
unfoldable pub iget : ℕ → ℕ → Icache → Result (ℕ × Icache)
iget dev inum inodes = elim (find_index (is_inode dev inum) inodes) [
  | some i ↦ ok (i, modify inodes i once_more)
  | none ↦ elim (find_index is_unreferenced inodes) [
    | some i ↦ ok (i, modify inodes i (taken dev inum))
    | none ↦ panic
  ]
]

unfoldable pub idup : ℕ → Icache → Icache
idup i inodes = modify inodes i once_more

-- the last step of `iput`, which drops the reference
unfoldable pub drop_ref : ℕ → Icache → Icache
drop_ref i inodes = modify inodes i (λ ip. record ip { ref = sub_int ip.ref (pos 1) })
