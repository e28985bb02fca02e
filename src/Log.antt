-- ===== src/Log.antt =====
-- code/log.c: transactions over the disk. `begin_op`, `log_enter` and the two halves of `end_op`
-- hold `log.lock`, the tests of `log_write` do not; `commit` and the recovery run while no other function of the log can, since
-- `committing` is set or the system is starting.
pub mod Admission
pub mod Again
pub mod Atomic
pub mod Commit
pub mod Crash
pub mod Entries
pub mod Header
pub mod Prefix
pub mod Room
pub mod Steps
pub mod Trace
pub mod Waiting
use os_ex.Shared.{
  ℕ, zero, suc, ◌+◌, ◌-◌, ◌*◌, Bool, true, false, ◌||◌, ltb, leb, ◌==◌, lt_int, eq_int, add_int,
  ◌+ℤ◌, sub_int, if◌then◌else◌, Result, ok, panic, ◌>>=◌, ℤ, pos, negsuc, List, set, get_or, none,
  some, take, find_index,
}
use os_ex.Disk.{Block, Store, bwrite}
use os_ex.Proc.{Procs, sleep_begin, sleep_end, wakeup}

abbrev pub max_op_blocks : ℕ
max_op_blocks = 10

abbrev pub log_size : ℕ
log_size = max_op_blocks * 3

-- `struct log` at an address, with `lh.n` and `lh.block`
pub record Log : Type 0 where
  pub addr : ℕ
  pub start : ℕ
  pub size : ℕ
  pub outstanding : ℤ
  pub committing : Bool
  pub n : ℕ
  pub block : List ℕ

-- `log.lh.block[i]`
abbrev pub home : Log → ℕ → ℕ
home lg i = get_or lg.block i 0

-- the block of the log that holds the copy for entry `i`: `log.start+tail+1`
abbrev pub slot : Log → ℕ → ℕ
slot lg i = lg.start + i + 1

-- `hb->block[i] = log.lh.block[i]` for `n` indices from `i` on; the block numbers stand behind `n`
unfoldable pub put_blocks : List ℕ → ℕ → ℕ → Block → Block
put_blocks block zero i hb = hb
put_blocks block (suc n) i hb = put_blocks block n (suc i) (set hb (i + 1) (get_or block i 0))

unfoldable pub write_head : Log → Store → Store
write_head lg s = bwrite lg.start (put_blocks lg.block lg.n 0 (set (s.cache lg.start) 0 lg.n)) s

-- `log.lh.block[i] = lh->block[i]`
unfoldable pub get_blocks : Block → ℕ → ℕ → List ℕ → List ℕ
get_blocks hb zero i block = block
get_blocks hb (suc n) i block = get_blocks hb n (suc i) (set block i (get_or hb (i + 1) 0))

unfoldable pub read_head : Log → Store → Log
read_head lg s =
    let hb = s.cache lg.start in
    let n = get_or hb 0 0 in record lg { n = n; block = get_blocks hb n 0 lg.block }

-- the loop of `install_trans`, `n` rounds from `tail` on
unfoldable pub install_from : Log → ℕ → ℕ → Store → Store
install_from lg zero tail s = s
install_from lg (suc n) tail s =
    install_from lg n (suc tail) (bwrite (home lg tail) (s.cache (slot lg tail)) s)

unfoldable pub install_trans : Log → Store → Store
install_trans lg s = install_from lg lg.n 0 s

-- the loop of `write_log`
unfoldable pub copy_from : Log → ℕ → ℕ → Store → Store
copy_from lg zero tail s = s
copy_from lg (suc n) tail s =
    copy_from lg n (suc tail) (bwrite (slot lg tail) (s.cache (home lg tail)) s)

unfoldable pub write_log : Log → Store → Store
write_log lg s = copy_from lg lg.n 0 s

unfoldable pub commit : Log → Store → Log × Store
commit lg s =
    if ltb 0 lg.n
    then (let s1 = write_log lg s in
        let s2 = write_head lg s1 in
        let s3 = install_trans lg s2 in let lg' = record lg { n = 0 } in (lg', write_head lg' s3))
    else (lg, s)

unfoldable pub recover_from_log : Log → Store → Log × Store
recover_from_log lg s =
    let lg1 = read_head lg s in
    let s1 = install_trans lg1 s in let lg2 = record lg1 { n = 0 } in (lg2, write_head lg2 s1)

-- `k * a` on `int`, for the small numbers that occur
abbrev pub scale : ℕ → ℤ → ℤ
scale k (pos n) = pos (k * n)
scale k (negsuc n) = negsuc (k * suc n - 1)

-- `log.lh.n + (log.outstanding+1)*MAXOPBLOCKS > LOGSIZE`
abbrev pub no_room : Log → Bool
no_room lg =
    lt_int (pos log_size) (pos lg.n +ℤ scale max_op_blocks (add_int lg.outstanding (pos 1)))

-- A round of `begin_op`: whether the operation has begun; if not the process sleeps on the log.
unfoldable pub begin_op : ℕ → Log → Procs → Bool × Log × Procs
begin_op self lg procs =
    if lg.committing || no_room lg
    then (false, lg, sleep_begin self lg.addr procs)
    else (true, record lg { outstanding = add_int lg.outstanding (pos 1) }, procs)

unfoldable pub begin_op_resume : ℕ → Log → Procs → Bool × Log × Procs
begin_op_resume self lg procs = begin_op self lg (sleep_end self procs)

-- The first half of `end_op`: `do_commit`, the log and the processes.
pub end_op_begin : Log → Procs → Result (Bool × Log × Procs)
end_op_begin lg procs =
    let outstanding = sub_int lg.outstanding (pos 1) in
    if lg.committing
    then panic
    else if eq_int outstanding (pos 0)
    then ok (true, record lg { outstanding = outstanding; committing = true }, procs)
    else ok (false, record lg { outstanding = outstanding }, wakeup lg.addr procs)

-- The second half, after `commit`.
pub end_op_finish : Log → Procs → Log × Procs
end_op_finish lg procs = (record lg { committing = false }, wakeup lg.addr procs)

-- the rest of `end_op`, by `do_commit`
pub end_op_rest : Store → Bool × Log × Procs → Log × Store × Procs
end_op_rest s (false, lg, procs) = (lg, s, procs)
end_op_rest s (true, lg, procs) =
    let (lg', s') = commit lg s in
    let (lg'', procs') = end_op_finish lg' procs in (lg'', s', procs')

pub end_op : Log → Store → Procs → Result (Log × Store × Procs)
unfolding end_op_rest
end_op lg s procs = end_op_begin lg procs >>= λ r. ok (end_op_rest s r)

-- where `log_write` enters a block: its entry, or the first that is free
abbrev pub entry_of : Log → ℕ → ℕ
entry_of lg b = elim (find_index (λ x. x == b) (take lg.n lg.block)) [ some i ↦ i | none ↦ lg.n ]

-- What `log_write` of a block does under `log.lock`; that the buffer is marked dirty keeps it in the
-- cache.
abbrev pub log_enter : ℕ → Log → Log
log_enter b lg = record lg {
  block = set lg.block (entry_of lg b) b;
  n = if entry_of lg b == lg.n then lg.n + 1 else lg.n;
}

-- `log_write` when no other process comes between its tests, which it makes before it takes the lock,
-- and the lock.
unfoldable pub log_write : ℕ → Log → Result Log
log_write b lg =
    if leb log_size lg.n || leb lg.size (lg.n + 1)
    then panic
    else if lt_int lg.outstanding (pos 1)
    then panic
    else ok (log_enter b lg)

-- `struct superblock`, and `readsb`, from its words in block 1
pub record Superblock : Type 0 where
  pub size : ℕ
  pub nblocks : ℕ
  pub ninodes : ℕ
  pub nlog : ℕ
  pub logstart : ℕ
  pub inodestart : ℕ
  pub bmapstart : ℕ

unfoldable pub readsb : Store → Superblock
readsb s = record {
  size = get_or (s.cache 1) 0 0;
  nblocks = get_or (s.cache 1) 1 0;
  ninodes = get_or (s.cache 1) 2 0;
  nlog = get_or (s.cache 1) 3 0;
  logstart = get_or (s.cache 1) 4 0;
  inodestart = get_or (s.cache 1) 5 0;
  bmapstart = get_or (s.cache 1) 6 0;
}

-- `initlog`; the size of the header is a constant below that of a block
unfoldable pub initlog : Log → Store → Log × Store
initlog lg s =
    let sb = readsb s in recover_from_log (record lg { start = sb.logstart; size = sb.nlog }) s
