-- ===== src/Content/Io.antt =====
-- `readi`, `writei` and `stati` of code/fs.c. What a device driver does is an argument: by the major
-- number, none if there is no driver.
use os_ex.Shared.{
  ℕ, zero, suc, ◌+◌, ◌-◌, ◌*◌, ◌/◌, ◌%◌, ◌^◌, true, false, ◌&&◌, ◌||◌, ltb, leb, ◌==◌, eq_int,
  lt_int, if◌then◌else◌, ℤ, pos, pos_part, minus_one, of_bits, Result, ok, panic, List, [], ◌∷◌,
  ◌++◌, Option, none, some, length, get_or, split_at,
}
use os_ex.Log.{Superblock}
use os_ex.Inodes.{Inode}
use os_ex.Content.{Data, Volume, block_size, maxfile, write, bmap, settled}
use os_ex.Content.Dinode.{iupdate}

-- T_DEV and NDEV
abbrev pub t_dev : ℤ
t_dev = pos 3

abbrev pub ndev : ℕ
ndev = 10

-- `min(n - tot, BSIZE - off%BSIZE)`, for the `n` bytes that are left
abbrev pub chunk : ℕ → ℕ → ℕ
chunk off n = if ltb n (block_size - off % block_size) then n else block_size - off % block_size

-- The `m` bytes of a block from `o` on, and a block with bytes written from `o` on.
abbrev pub get_data : Data → ℕ → ℕ → List ℕ
get_data d o zero = []
get_data d o (suc m) = d o ∷ get_data d (o + 1) m

abbrev pub put_data : Data → ℕ → List ℕ → Data
put_data d o bs x = if leb o x && ltb x (o + length bs) then get_or bs (x - o) 0 else d x

-- The entry of `devsw`, as `readi` and `writei` look for it.
abbrev pub driver {ℓ} : {A : Type ℓ} → (ℕ → Option A) → ℤ → Option A
driver devsw major =
    if lt_int major (pos 0) || leb ndev (pos_part major) then none else devsw (pos_part major)

module _ (sb : Superblock) where
  -- The loop of `readi` on fuel: a round takes a byte at least.
  unfoldable pub read_chunks : ℕ → Inode → ℕ → ℕ → Volume → Result (List ℕ × Inode × Volume)
  read_chunks zero ip off n v = panic
  read_chunks (suc fuel) ip off n v = elim (n == 0) [
    | true ↦ ok ([], ip, v)
    | false ↦ elim (bmap sb ip (off / block_size) v) [
      | panic ↦ panic
      | ok (b, ip', v') ↦
          let m = chunk off n in
          elim (read_chunks fuel ip' ((off + m) % 2 ^ 32) (n - m) v') [
            | panic ↦ panic
            | ok (bs, ip'', v'') ↦ ok (get_data (v'.blocks b) (off % block_size) m ++ bs, ip'', v'')
          ]
    ]
  ]

  -- `return n;` of `readi`
  abbrev pub finish_read :
      ℕ → Result (List ℕ × Inode × Volume) → Result (ℤ × List ℕ × Inode × Volume)
  finish_read n panic = panic
  finish_read n (ok (bs, ip, v)) = settled v (ok (of_bits n, bs, ip, v))

  -- The result, the bytes read, and what `bmap` may have changed.
  unfoldable pub readi :
      (ℕ → Option (ℕ → ℤ × List ℕ)) → Inode → ℕ → ℕ → Volume → Result (ℤ × List ℕ × Inode × Volume)
  readi devsw ip off n v =
      if eq_int ip.type t_dev
      then elim (driver devsw ip.major) [
        | none ↦ ok (minus_one, [], ip, v)
        | some read ↦ let (r, bs) = read n in ok (r, bs, ip, v)
      ]
      else if ltb ip.size off || ltb ((off + n) % 2 ^ 32) off
      then ok (minus_one, [], ip, v)
      else (let m = if ltb ip.size ((off + n) % 2 ^ 32) then ip.size - off else n in
          finish_read m (read_chunks (m + 1) ip off m v))

  -- The loop of `writei`, with the offset after it.
  unfoldable pub write_chunks : ℕ → Inode → ℕ → List ℕ → Volume → Result (ℕ × Inode × Volume)
  write_chunks fuel ip off [] v = ok (off, ip, v)
  write_chunks zero ip off (b ∷ bs) v = panic
  write_chunks (suc fuel) ip off (b ∷ bs) v = elim (bmap sb ip (off / block_size) v) [
    | panic ↦ panic
    | ok (a, ip', v') ↦
        let (here, rest) = split_at (block_size - off % block_size) (b ∷ bs) in
        write_chunks fuel ip' ((off + length here) % 2 ^ 32) rest
          (write a (put_data (v'.blocks a) (off % block_size) here) v')
  ]

  -- `if(n > 0 && off > ip->size){ ... }`
  abbrev pub grow : ℕ → ℕ → Inode → Volume → Inode × Volume
  grow n off ip v =
      if ltb 0 n && ltb ip.size off
      then (record ip { size = off }, iupdate sb (record ip { size = off }) v)
      else (ip, v)

  abbrev pub finish_write : ℕ → Result (ℕ × Inode × Volume) → Result (ℤ × Inode × Volume)
  finish_write n panic = panic
  finish_write n (ok (off, ip, v)) =
      let (ip', v') = grow n off ip v in settled v' (ok (of_bits n, ip', v'))

  unfoldable pub writei :
      (ℕ → Option (List ℕ → ℤ)) → Inode → ℕ → List ℕ → Volume → Result (ℤ × Inode × Volume)
  writei devsw ip off bs v =
      let n = length bs in
      if eq_int ip.type t_dev
      then elim (driver devsw ip.major) [
        | none ↦ ok (minus_one, ip, v)
        | some run ↦ ok (run bs, ip, v)
      ]
      else if ltb ip.size off || ltb ((off + n) % 2 ^ 32) off
      then ok (minus_one, ip, v)
      else if ltb (maxfile * block_size) ((off + n) % 2 ^ 32)
      then ok (minus_one, ip, v)
      else finish_write n (write_chunks n ip off bs v)
