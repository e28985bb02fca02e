-- ===== src/Content/Dinode.antt =====
-- Inodes on the disk: `iupdate`, `ialloc` and the part of `ilock` of code/fs.c that reads one. An
-- inode takes 64 bytes of a block: four shorts, the size, and the 13 addresses.
use os_ex.Shared.{
  ℕ, zero, suc, ◌+◌, ◌-◌, ◌*◌, ◌/◌, ◌%◌, ◌^◌, true, ltb, ◌==◌, eq_int, if◌then◌else◌, ℤ, pos,
  negsuc, to_bits, Result, ok, panic, List, [], ◌∷◌,
}
use os_ex.Log.{Superblock}
use os_ex.Inodes.{Inode}
use os_ex.Content.{Data, Volume, write, word_at, put_word}

-- IPB and IBLOCK
abbrev pub inodes_per_block : ℕ
inodes_per_block = 8

abbrev pub iblock : Superblock → ℕ → ℕ
iblock sb inum = inum / inodes_per_block + sb.inodestart

-- `((ushort*)d)[i]`, and a store to it.
abbrev pub half_at : Data → ℕ → ℕ
half_at d i = d (2 * i) + d (2 * i + 1) * 2 ^ 8

abbrev pub put_half : Data → ℕ → ℕ → Data
put_half d i w x =
    if x == 2 * i then w % 2 ^ 8 else if x == 2 * i + 1 then w / 2 ^ 8 % 2 ^ 8 else d x

-- The `short` with given bits.
abbrev pub of_half : ℕ → ℤ
of_half u = if ltb u (2 ^ 15) then pos u else negsuc (2 ^ 16 - 1 - u)

abbrev pub put_words : Data → ℕ → List ℕ → Data
put_words d i [] = d
put_words d i (w ∷ ws) = put_words (put_word d i w) (i + 1) ws

abbrev pub words_at : Data → ℕ → ℕ → List ℕ
words_at d i zero = []
words_at d i (suc n) = word_at d i ∷ words_at d (i + 1) n

-- The fields of an inode, in its place of a block.
abbrev pub put_dinode : Data → ℕ → Inode → Data
put_dinode d p ip =
    let d1 = put_half d (p * 32) (to_bits ip.type) in
    let d2 = put_half d1 (p * 32 + 1) (to_bits ip.major) in
    let d3 = put_half d2 (p * 32 + 2) (to_bits ip.minor) in
    let d4 = put_half d3 (p * 32 + 3) (to_bits ip.nlink) in
    let d5 = put_word d4 (p * 16 + 2) ip.size in put_words d5 (p * 16 + 3) ip.addrs

unfoldable pub iupdate : Superblock → Inode → Volume → Volume
iupdate sb ip v =
    let b = iblock sb ip.inum in write b (put_dinode (v.blocks b) (ip.inum % inodes_per_block) ip) v

-- `if(ip->valid == 0){ ... }` of `ilock`, before its last test
abbrev pub read_dinode : Data → ℕ → Inode → Inode
read_dinode d p ip = record ip {
  type = of_half (half_at d (p * 32));
  major = of_half (half_at d (p * 32 + 1));
  minor = of_half (half_at d (p * 32 + 2));
  nlink = of_half (half_at d (p * 32 + 3));
  size = word_at d (p * 16 + 2);
  addrs = words_at d (p * 16 + 3) 13;
  valid = true;
}

unfoldable pub load_inode : Superblock → Inode → Volume → Result Inode
load_inode sb ip v =
    if ip.valid
    then ok ip
    else (let ip' = read_dinode (v.blocks (iblock sb ip.inum)) (ip.inum % inodes_per_block) ip in
        if eq_int ip'.type (pos 0) then panic else ok ip')
