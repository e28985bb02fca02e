-- ===== src/Tests/Buffers.antt =====
-- Tests of the buffer cache.
use os_ex.Shared.{ℕ, ◌≡◌, refl, true, some, ok, replicate, ◌∷◌, [], sym, ap, arith}
use os_ex.Disk.{Blocks}
use os_ex.Bio.{
  Bcache, zeroed_buf, binit, link_from, bread, bget, find_or_recycle, acquire_buf, load, iderw,
  sync_buf, brelse,
}
use os_ex.Bio.Read.{HasLocked, bread_lem}
use os_ex.Bio.Cached.{IsBuf}
use os_ex.Bio.Total.{AreUnlocked, bread_returns}
use os_ex.Bio.Start.{every_zeroed, binit-IsCache, binit-HasFewReferences, binit-Shows}

-- a disk on which every block has its number
abbrev numbered : Blocks
numbered b = b ∷ []

abbrev start : Bcache
start = binit numbered 1000

-- the cache with block 5 in the buffer that was last in the list
abbrev with_five : Bcache
with_five = record {
  bufs =
      record zeroed_buf {
        dev = 1;
        blockno = 5;
        valid = true;
        refcnt = 1;
        locked = true;
        bytes = 5 ∷ [];
      }
      ∷ replicate 29 zeroed_buf;
  order = link_from 30 0 [];
  memdisk = numbered;
  disksize = 1000;
}

read_five : bread 1 5 start ≡ ok (some 0, with_five)
unfolding bread bget find_or_recycle acquire_buf load iderw sync_buf binit link_from
read_five = refl

bread_lem_example :
    (h : HasLocked start 5 0 with_five) × (h.0.buf.valid ≡ true) × (h.0.buf.bytes ≡ 5 ∷ [])
bread_lem_example =
    bread_lem start 5 (5 ∷ []) 0 with_five (binit-IsCache numbered 1000)
      (binit-HasFewReferences numbered 1000) (binit-Shows numbered 1000 5) read_five

-- Released, the buffer comes to the front.
release_five :
    brelse 0 with_five
    ≡ ok (record with_five {
      bufs =
          record zeroed_buf { dev = 1; blockno = 5; valid = true; bytes = 5 ∷ [] }
          ∷ replicate 29 zeroed_buf;
      order =
          0 ∷ 29 ∷ 28 ∷ 27 ∷ 26 ∷ 25 ∷ 24 ∷ 23 ∷ 22 ∷ 21 ∷ 20 ∷ 19 ∷ 18 ∷ 17 ∷ 16 ∷ 15 ∷ 14 ∷ 13
          ∷ 12 ∷ 11 ∷ 10 ∷ 9 ∷ 8 ∷ 7 ∷ 6 ∷ 5 ∷ 4 ∷ 3 ∷ 2 ∷ 1 ∷ [];
    })
unfolding brelse link_from
release_five = refl

start-AreUnlocked : AreUnlocked start
start-AreUnlocked i b e = ap (λ x. x.locked) (sym (every_zeroed numbered 1000 i b e))

first_buf : IsBuf start 0 zeroed_buf
unfolding binit
first_buf = refl

bread_returns_example :
    (i : ℕ) × (c' : Bcache) × (bread 1 5 start ≡ ok (some i, c'))
    × ((h : HasLocked start 5 i c') × (h.0.buf.valid ≡ true) × (h.0.buf.bytes ≡ 5 ∷ []))
unfolding binit
bread_returns_example =
    bread_returns start 5 (5 ∷ []) 0 zeroed_buf (binit-IsCache numbered 1000)
      (binit-HasFewReferences numbered 1000) (binit-Shows numbered 1000 5) first_buf refl
      start-AreUnlocked (omega arith)
