-- ===== src/Content/Trunc.antt =====
-- `itrunc`, `ialloc`, `stati` and the freeing step of `iput` of code/fs.c.
use os_ex.Shared.{
  ℕ, zero, suc, ◌+◌, ◌-◌, ◌*◌, ◌%◌, Bool, true, false, ◌==◌, ◌&&◌, eq_int, if◌then◌else◌, ℤ, pos,
  Result, ok, panic, set, replicate,
}
use os_ex.Log.{Superblock}
use os_ex.Inodes.{Inode, Icache, iget}
use os_ex.Content.{Data, Volume, ndirect, nindirect, word_at, addr_at, write, bfree}
use os_ex.Content.Dinode.{inodes_per_block, iblock, half_at, of_half, put_dinode, iupdate}

-- `struct stat`
pub record Stat : Type 0 where
  pub dev : ℕ
  pub ino : ℕ
  pub type : ℤ
  pub nlink : ℤ
  pub size : ℕ

unfoldable pub stati : Inode → Stat
stati ip = record { dev = ip.dev; ino = ip.inum; type = ip.type; nlink = ip.nlink; size = ip.size }

-- `memset(dip, 0, sizeof(*dip))`, and the type
abbrev pub clear_dinode : Data → ℕ → ℤ → Data
clear_dinode d p type = put_dinode d p (record {
  dev = 0;
  inum = 0;
  ref = pos 0;
  valid = false;
  type = type;
  major = pos 0;
  minor = pos 0;
  nlink = pos 0;
  size = 0;
  addrs = replicate 13 0;
})

-- `dip->type == 0`
abbrev pub is_free_at : Data → ℕ → Bool
is_free_at d p = eq_int (of_half (half_at d (p * 32))) (pos 0)

module _ (sb : Superblock) where
  -- `for(i = 0; i < NDIRECT; i++)`, by the number of addresses left
  unfoldable pub free_direct : ℕ → Inode → Volume → Result (Inode × Volume)
  free_direct zero ip v = ok (ip, v)
  free_direct (suc n) ip v =
      let i = ndirect - suc n in
      elim (addr_at ip i == 0) [
        | true ↦ free_direct n ip v
        | false ↦ elim (bfree sb (addr_at ip i) v) [
          | panic ↦ panic
          | ok v' ↦ free_direct n (record ip { addrs = set ip.addrs i 0 }) v'
        ]
      ]

  -- `for(j = 0; j < NINDIRECT; j++)`, over the indirect block as it was read
  unfoldable pub free_words : ℕ → Data → Volume → Result Volume
  free_words zero d v = ok v
  free_words (suc n) d v =
      let a = word_at d (nindirect - suc n) in
      elim (a == 0) [
        | true ↦ free_words n d v
        | false ↦ elim (bfree sb a v) [ panic ↦ panic | ok v' ↦ free_words n d v' ]
      ]

  -- `if(ip->addrs[NDIRECT]){ ... }`
  unfoldable pub free_indirect : Inode → Volume → Result (Inode × Volume)
  free_indirect ip v =
      let addr = addr_at ip ndirect in
      elim (addr == 0) [
        | true ↦ ok (ip, v)
        | false ↦ elim (free_words nindirect (v.blocks addr) v) [
          | panic ↦ panic
          | ok v' ↦ elim (bfree sb addr v') [
            | panic ↦ panic
            | ok v'' ↦ ok (record ip { addrs = set ip.addrs ndirect 0 }, v'')
          ]
        ]
      ]

  -- `ip->size = 0; iupdate(ip);`
  abbrev pub emptied : Inode → Volume → Inode × Volume
  emptied ip v = (record ip { size = 0 }, iupdate sb (record ip { size = 0 }) v)

  unfoldable pub itrunc : Inode → Volume → Result (Inode × Volume)
  itrunc ip v = elim (free_direct ndirect ip v) [
    | panic ↦ panic
    | ok (ip', v') ↦ elim (free_indirect ip' v') [
      | panic ↦ panic
      | ok (ip'', v'') ↦ ok (emptied ip'' v'')
    ]
  ]

  -- `iput` between its calls of `acquiresleep` and `releasesleep`
  unfoldable pub put_inode : Inode → Volume → Result (Inode × Volume)
  put_inode ip v =
      if ip.valid && eq_int ip.nlink (pos 0) && eq_int ip.ref (pos 1)
      then elim (itrunc ip v) [
        | panic ↦ panic
        | ok (ip', v') ↦ ok (
          record ip' { type = pos 0; valid = false },
          iupdate sb (record ip' { type = pos 0 }) v',
        )
      ]
      else ok (ip, v)

  -- `for(inum = 1; inum < sb.ninodes; inum++)`, by the number of inodes left: the first that is free.
  unfoldable pub find_inode : ℕ → ℕ → Volume → Result ℕ
  find_inode zero inum v = panic
  find_inode (suc n) inum v =
      let rest = find_inode n (inum + 1) v in
      if is_free_at (v.blocks (iblock sb inum)) (inum % inodes_per_block) then ok inum else rest

  unfoldable pub ialloc : ℕ → ℤ → Icache → Volume → Result (ℕ × Icache × Volume)
  ialloc dev type inodes v = elim (find_inode (sb.ninodes - 1) 1 v) [
    | panic ↦ panic
    | ok inum ↦
        let b = iblock sb inum in
        let v' = write b (clear_dinode (v.blocks b) (inum % inodes_per_block) type) v in
        elim (iget dev inum inodes) [ panic ↦ panic | ok (i, inodes') ↦ ok (i, inodes', v') ]
  ]
