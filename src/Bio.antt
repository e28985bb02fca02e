-- ===== src/Bio.antt =====
-- code/bio.c, the buffer cache, over the disk of code/memide.c. A buffer is the index of its entry;
-- the list through `prev` and `next` is `order`, the most recently used first. The sleep lock of a
-- buffer is whether it is held; who holds it calls `bwrite` and `brelse`.
pub mod Cached
pub mod Found
pub mod Read
pub mod Replace
pub mod Start
pub mod Total
use os_ex.Shared.{
  ℕ, zero, suc, ◌+◌, ◌-◌, ◌%◌, ◌^◌, Bool, true, false, ◌&&◌, ◌||◌, not, ◌==◌, leb, if◌then◌else◌,
  Result, ok, panic, ◌>>=◌, List, [], ◌∷◌, ◌++◌, Option, none, some, get_elem?, modify, replicate,
}
use os_ex.Disk.{Block, Blocks, update}

abbrev pub nbuf : ℕ
nbuf = 30

-- `struct buf`, with B_VALID and B_DIRTY of its flags, and whether its lock is held
pub record Buf : Type 0 where
  pub valid : Bool
  pub dirty : Bool
  pub dev : ℕ
  pub blockno : ℕ
  pub locked : Bool
  pub refcnt : ℕ
  pub bytes : Block

-- `bcache`, and the disk in memory
pub record Bcache : Type 0 where
  pub bufs : List Buf
  pub order : List ℕ
  pub memdisk : Blocks
  pub disksize : ℕ

-- A zeroed buffer.
abbrev pub zeroed_buf : Buf
zeroed_buf = record {
  valid = false;
  dirty = false;
  dev = 0;
  blockno = 0;
  locked = false;
  refcnt = 0;
  bytes = replicate 128 0;
}

-- the loop of `binit`: each buffer is put in front
unfoldable pub link_from : ℕ → ℕ → List ℕ → List ℕ
link_from zero b order = order
link_from (suc n) b order = link_from n (suc b) (b ∷ order)

unfoldable pub binit : Blocks → ℕ → Bcache
binit memdisk disksize = record {
  bufs = replicate nbuf zeroed_buf;
  order = link_from nbuf 0 [];
  memdisk = memdisk;
  disksize = disksize;
}

abbrev pub change_buf : ℕ → (Buf → Buf) → Bcache → Bcache
change_buf i f c = record c { bufs = modify c.bufs i f }

-- a test of buffer `i`
abbrev pub test_buf : (Buf → Bool) → Bcache → ℕ → Bool
test_buf t c i = elim (get_elem? c.bufs i) [ some b ↦ t b | none ↦ false ]

-- a loop along the list: the first buffer that passes
abbrev pub find_buf : (ℕ → Bool) → List ℕ → Option ℕ
find_buf t [] = none
find_buf t (i ∷ order) = if t i then some i else find_buf t order

abbrev pub reversed : List ℕ → List ℕ
reversed [] = []
reversed (i ∷ order) = reversed order ++ (i ∷ [])

abbrev pub is_block : ℕ → ℕ → Buf → Bool
is_block dev blockno b = (b.dev == dev) && (b.blockno == blockno)

abbrev pub is_unused : Buf → Bool
is_unused b = (b.refcnt == 0) && not b.dirty

-- `acquiresleep`: the buffer, or none if the process sleeps until the lock is free
unfoldable pub acquire_buf : ℕ → Bcache → Option ℕ × Bcache
acquire_buf i c =
    if test_buf (λ b. b.locked) c i
    then (none, c)
    else (some i, change_buf i (λ b. record b { locked = true }) c)

abbrev pub recycled : ℕ → ℕ → Buf → Buf
recycled dev blockno b = record b {
  dev = dev;
  blockno = blockno;
  valid = false;
  dirty = false;
  refcnt = 1;
}

abbrev pub referenced : Buf → Buf
referenced b = record b { refcnt = (b.refcnt + 1) % 2 ^ 32 }

-- `bget` up to its `acquiresleep`: the buffer, with a reference more
unfoldable pub find_or_recycle : ℕ → ℕ → Bcache → Result (ℕ × Bcache)
find_or_recycle dev blockno c = elim (find_buf (test_buf (is_block dev blockno) c) c.order) [
  | some i ↦ ok (i, change_buf i referenced c)
  | none ↦ elim (find_buf (test_buf is_unused c) (reversed c.order)) [
    | some i ↦ ok (i, change_buf i (recycled dev blockno) c)
    | none ↦ panic
  ]
]

unfoldable pub bget : ℕ → ℕ → Bcache → Result (Option ℕ × Bcache)
bget dev blockno c = find_or_recycle dev blockno c >>= λ r. ok (acquire_buf r.0 r.1)

-- `iderw` of buffer `i`, which is `b`
unfoldable pub sync_buf : Buf → ℕ → Bcache → Result Bcache
sync_buf b i c =
    if not b.locked || (b.valid && not b.dirty) || not (b.dev == 1) || leb c.disksize b.blockno
    then panic
    else if b.dirty
    then ok (record c {
      bufs = modify c.bufs i (λ x. record x { dirty = false; valid = true });
      memdisk = update c.memdisk b.blockno b.bytes;
    })
    else ok (change_buf i (λ x. record x { bytes = c.memdisk b.blockno; valid = true }) c)

unfoldable pub iderw : ℕ → Bcache → Result Bcache
iderw i c = elim (get_elem? c.bufs i) [ none ↦ panic | some b ↦ sync_buf b i c ]

-- the rest of `bread`, with the buffer locked
unfoldable pub load : ℕ → Bcache → Result (ℕ × Bcache)
load i c = if test_buf (λ b. b.valid) c i then ok (i, c) else iderw i c >>= λ c'. ok (i, c')

abbrev pub load_locked : Option ℕ → Bcache → Result (Option ℕ × Bcache)
load_locked none c = ok (none, c)
load_locked (some i) c = load i c >>= λ l. ok (some l.0, l.1)

-- `bread`: the buffer, or none if the process sleeps on its lock
unfoldable pub bread : ℕ → ℕ → Bcache → Result (Option ℕ × Bcache)
bread dev blockno c = bget dev blockno c >>= λ r. load_locked r.0 r.1

-- `bread` from the return of `acquiresleep` on
unfoldable pub bread_resume : ℕ → Bcache → Result (Option ℕ × Bcache)
bread_resume i c = let (o, c') = acquire_buf i c in load_locked o c'

-- `bwrite` of a buffer
unfoldable pub bwrite_buf : ℕ → Bcache → Result Bcache
bwrite_buf i c =
    if test_buf (λ b. b.locked) c i
    then iderw i (change_buf i (λ b. record b { dirty = true }) c)
    else panic

abbrev pub without : ℕ → List ℕ → List ℕ
without i [] = []
without i (j ∷ order) = if j == i then without i order else j ∷ without i order

abbrev pub released : Buf → Buf
released b = record b { locked = false; refcnt = (b.refcnt + 2 ^ 32 - 1) % 2 ^ 32 }

unfoldable pub brelse : ℕ → Bcache → Result Bcache
brelse i c =
    if test_buf (λ b. b.locked) c i
    then (let c' = change_buf i released c in
        ok (
          if test_buf (λ b. b.refcnt == 0) c' i
          then record c' { order = i ∷ without i c.order }
          else c'))
    else panic
