-- ===== src/Content.antt =====
-- code/fs.c, the blocks of a device as a file system uses them: its free map, and the blocks of a
-- file. A volume is what `bread` shows of each block, byte by byte, and the log in memory, as
-- `log_write` leaves it. A panic of `log_write` stops the kernel; here it stays in the volume, whatever
-- is written after it, and `settled` gives it back. `bfree` reads the super block again; here it is
-- one argument of all.
pub mod Bits
pub mod Bitmap
pub mod Scanning
pub mod Fresh
pub mod Slots
pub mod Ready
pub mod Extend
pub mod Placed
pub mod Bmap
pub mod Dinode
pub mod Saved
pub mod Halves
pub mod Io
pub mod Reading
pub mod Store
pub mod Writing
pub mod Patches
pub mod RoundTrip
pub mod Trunc
pub mod Freeing
pub mod Truncated
use os_ex.Shared.{
  ℕ, zero, suc, ◌+◌, ◌-◌, ◌*◌, ◌/◌, ◌%◌, ◌^◌, Bool, true, false, ltb, ◌==◌, if◌then◌else◌, Result,
  ok, panic, ◌>>=◌, List, [], ◌∷◌, ◌++◌, set, get_or, Option, none, some,
}
use os_ex.Log.{Log, Superblock, log_write}
use os_ex.Inodes.{Inode}

abbrev pub block_size : ℕ
block_size = 512

-- BPB, NDIRECT, NINDIRECT and MAXFILE
abbrev pub bits_per_block : ℕ
bits_per_block = 4096

abbrev pub ndirect : ℕ
ndirect = 12

abbrev pub nindirect : ℕ
nindirect = 128

abbrev pub maxfile : ℕ
maxfile = 140

abbrev pub Data : Type 0
Data = ℕ → ℕ

pub record Volume : Type 0 where
  pub blocks : ℕ → Data
  pub log : Result Log

-- The buffer of a block is changed to `d` and given to `log_write`.
unfoldable pub write : ℕ → Data → Volume → Volume
write b d v = record {
  blocks = λ x. if x == b then d else v.blocks x;
  log = v.log >>= λ lg. log_write b lg;
}

-- Nothing is returned after a panic of `log_write`.
abbrev pub settled {ℓ} : {A : Type ℓ} → Volume → Result A → Result A
settled v r = elim v.log [ panic ↦ panic | ok _ ↦ r ]

-- `w >> r & 1`, `w | 1 << r` and `w & ~(1 << r)`, digit by digit.
abbrev pub bit : ℕ → ℕ → ℕ
bit w zero = w % 2
bit w (suc r) = bit (w / 2) r

abbrev pub set_bit : ℕ → ℕ → ℕ
set_bit w zero = w / 2 * 2 + 1
set_bit w (suc r) = set_bit (w / 2) r * 2 + w % 2

abbrev pub clear_bit : ℕ → ℕ → ℕ
clear_bit w zero = w / 2 * 2
clear_bit w (suc r) = clear_bit (w / 2) r * 2 + w % 2

-- Bit `i` of a block, and the block with it changed.
abbrev pub bit_at : Data → ℕ → ℕ
bit_at d i = bit (d (i / 8)) (i % 8)

abbrev pub mark_at : Data → ℕ → Data
mark_at d i x = if x == i / 8 then set_bit (d x) (i % 8) else d x

abbrev pub unmark_at : Data → ℕ → Data
unmark_at d i x = if x == i / 8 then clear_bit (d x) (i % 8) else d x

-- `((uint*)d)[i]`, and a store to it; the least significant byte comes first.
abbrev pub word_at : Data → ℕ → ℕ
word_at d i = d (4 * i) + d (4 * i + 1) * 2 ^ 8 + d (4 * i + 2) * 2 ^ 16 + d (4 * i + 3) * 2 ^ 24

abbrev pub put_word : Data → ℕ → ℕ → Data
put_word d i w x =
    if x == 4 * i
    then w % 2 ^ 8
    else if x == 4 * i + 1
    then w / 2 ^ 8 % 2 ^ 8
    else if x == 4 * i + 2
    then w / 2 ^ 16 % 2 ^ 8
    else if x == 4 * i + 3
    then w / 2 ^ 24 % 2 ^ 8
    else d x

unfoldable pub bzero : ℕ → Volume → Volume
bzero b v = write b (λ i. 0) v

-- `for(bi = 0; bi < BPB && b + bi < sb.size; bi++)`, by the number of bits left: the first clear bit.
unfoldable pub scan : ℕ → ℕ → Data → ℕ → ℕ → Option ℕ
scan zero size d b bi = none
scan (suc n) size d b bi =
    let rest = scan n size d b (bi + 1) in
    if ltb (b + bi) size then if bit_at d bi == 0 then some bi else rest else none

-- `ip->addrs[i]`
abbrev pub addr_at : Inode → ℕ → ℕ
addr_at ip i = get_or ip.addrs i 0

module _ (sb : Superblock) where
  abbrev pub bblock : ℕ → ℕ
  bblock b = b / bits_per_block + sb.bmapstart

  -- Mark a block in use.
  unfoldable pub mark : ℕ → Volume → Volume
  mark b v = write (bblock b) (mark_at (v.blocks (bblock b)) (b % bits_per_block)) v

  -- `for(b = 0; b < sb.size; b += BPB)` on fuel
  unfoldable pub balloc_from : ℕ → ℕ → Volume → Result (ℕ × Volume)
  balloc_from zero b v = panic
  balloc_from (suc fuel) b v = elim (ltb b sb.size) [
    | false ↦ panic
    | true ↦ elim (scan bits_per_block sb.size (v.blocks (bblock b)) b 0) [
      | some bi ↦ ok (b + bi, bzero (b + bi) (mark (b + bi) v))
      | none ↦ balloc_from fuel (b + bits_per_block) v
    ]
  ]

  unfoldable pub balloc : Volume → Result (ℕ × Volume)
  balloc v = balloc_from (sb.size / bits_per_block + 1) 0 v

  unfoldable pub bfree : ℕ → Volume → Result Volume
  bfree b v =
      let d = v.blocks (bblock b) in
      if bit_at d (b % bits_per_block) == 0
      then panic
      else ok (write (bblock b) (unmark_at d (b % bits_per_block)) v)

  -- `if((addr = ip->addrs[i]) == 0) ip->addrs[i] = addr = balloc(ip->dev);`
  unfoldable pub direct_block : ℕ → Inode → Volume → Result (ℕ × Inode × Volume)
  direct_block i ip v = elim (addr_at ip i == 0) [
    | false ↦ ok (addr_at ip i, ip, v)
    | true ↦ elim (balloc v) [
      | panic ↦ panic
      | ok (a, v') ↦ ok (a, record ip { addrs = set ip.addrs i a }, v')
    ]
  ]

  -- The word of the indirect block, allocated if it is 0. The buffer is locked during `balloc`.
  unfoldable pub indirect_word : ℕ → ℕ → Volume → Result (ℕ × Volume)
  indirect_word addr bn v = elim (word_at (v.blocks addr) bn == 0) [
    | false ↦ ok (word_at (v.blocks addr) bn, v)
    | true ↦ elim (balloc v) [
      | panic ↦ panic
      | ok (a, v') ↦ ok (a, write addr (put_word (v.blocks addr) bn a) v')
    ]
  ]

  unfoldable pub bmap : Inode → ℕ → Volume → Result (ℕ × Inode × Volume)
  bmap ip bn v = elim (ltb bn ndirect) [
    | true ↦ direct_block bn ip v
    | false ↦ elim (ltb (bn - ndirect) nindirect) [
      | false ↦ panic
      | true ↦ elim (direct_block ndirect ip v) [
        | panic ↦ panic
        | ok (addr, ip', v') ↦ elim (indirect_word addr (bn - ndirect) v') [
          | panic ↦ panic
          | ok (a, v'') ↦ ok (a, ip', v'')
        ]
      ]
    ]
  ]
