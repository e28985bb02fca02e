-- ===== src/Files/Data.antt =====
-- `fileread`, `filewrite` and `filestat` of code/file.c. The open file comes with the inode and the
-- pipe that it may refer to, and with the processes that sleep on a pipe or the log; the sleep lock that `ilock` takes is free, and the offset is 32 bits wide
-- and wraps. The number of bytes is not negative: `argptr` has checked it.
use os_ex.Shared.{
  ℕ, zero, suc, ◌+◌, ◌-◌, ◌*◌, ◌/◌, ◌%◌, ◌^◌, Bool, true, false, not, lt_int, eq_int, if◌then◌else◌,
  ℤ, pos, pos_part, minus_one, of_bits, Result, ok, panic, ◌>>=◌, List, [], ◌∷◌, Option, none, some,
  length, split_at,
}
use os_ex.Log.{Log, Superblock, log_size, begin_op, end_op_begin, end_op_finish}
use os_ex.Proc.{Procs, sleep_end}
use os_ex.Inodes.{Inode}
use os_ex.Proc.Wait.{Outcome, returned, asleep}
use os_ex.Pipe.{Sys, pipewrite, piperead}
use os_ex.Files.{File, fd_none, fd_pipe, fd_inode}
use os_ex.Content.{Volume}
use os_ex.Content.Dinode.{load_inode}
use os_ex.Content.Io.{readi, writei}
use os_ex.Content.Trunc.{Stat, stati}

pub record Opened : Type 0 where
  pub file : File
  pub inode : Inode
  pub volume : Volume
  pub pipes : Sys

-- `if(r > 0) f->off += r;`
abbrev pub advance : ℤ → File → File
advance r f = if lt_int (pos 0) r then record f { off = (f.off + pos_part r) % 2 ^ 32 } else f

-- `int max = ((LOGSIZE-1-1-2) / 2) * 512;`
abbrev pub max_write : ℕ
max_write = (log_size - 1 - 1 - 2) / 2 * 512

-- The bytes of the next round, `n1` of them, and those that are left.
unfoldable pub next_bytes : List ℕ → List ℕ × List ℕ
next_bytes bs = split_at max_write bs

-- The log in memory and the processes, which `begin_op` and `end_op` change.
abbrev pub with_log : Opened → Log → Procs → Opened
with_log o lg procs = record o {
  volume = record (o.volume) { log = ok lg };
  pipes = record (o.pipes) { procs = procs };
}

-- A round of `begin_op`: whether the operation has begun; if not the process sleeps on the log.
abbrev pub begin_write : ℕ → Opened → Result (Bool × Opened)
begin_write self o = o.volume.log >>= λ lg.
    let (begun, lg', procs) = begin_op self lg o.pipes.procs in ok (begun, with_log o lg' procs)

-- The rest of `end_op`, by `do_commit`: `commit` empties the log and changes no block as it is shown.
abbrev pub end_rest : Bool × Log × Procs → Log × Procs
end_rest (false, lg, procs) = (lg, procs)
end_rest (true, lg, procs) = end_op_finish (record lg { n = 0 }) procs

abbrev pub end_write : Opened → Result Opened
end_write o = o.volume.log >>= λ lg. end_op_begin lg o.pipes.procs >>= λ r.
    let (lg', procs) = end_rest r in ok (with_log o lg' procs)

-- Whether `i == n` after the loop of `filewrite`, or asleep in `begin_op`, with the bytes left.
abbrev pub Rounds : Type 0
Rounds = Outcome Bool × List ℕ × Opened

-- A round of `filewrite` from the return of `begin_op` on
abbrev pub after_begin : (Opened → Result Rounds) → List ℕ → Result (Bool × Opened) → Result Rounds
after_begin go bs panic = panic
after_begin go bs (ok (false, o)) = ok (asleep, bs, o)
after_begin go bs (ok (true, o)) = go o

-- from the return of `end_op` on, when `writei` of `n` bytes returned `r`, and the rounds after it
abbrev pub after_end : (Opened → Result Rounds) → ℕ → ℤ → Result Opened → Result Rounds
after_end next n r panic = panic
after_end next n r (ok o) =
    let more = next o in
    if lt_int r (pos 0)
    then ok (returned false, [], o)
    else if eq_int r (of_bits n)
    then more
    else panic

-- from the return of `writei` of `n` bytes on
abbrev pub after_writei :
    (Opened → Result Rounds) → ℕ → Opened → Result (ℤ × Inode × Volume) → Result Rounds
after_writei next n o panic = panic
after_writei next n o (ok (r, ip, v)) =
    after_end next n r (end_write (record o { file = advance r o.file; inode = ip; volume = v }))

-- `return i == n ? n : -1;`
abbrev pub finish_filewrite : ℕ → Result Rounds → Result (Outcome ℤ × List ℕ × Opened)
finish_filewrite n panic = panic
finish_filewrite n (ok (asleep, left, o)) = ok (asleep, left, o)
finish_filewrite n (ok (returned all, left, o)) =
    ok (returned (if all then pos n else minus_one), left, o)

abbrev pub finish_fileread :
    Opened → Result (ℤ × List ℕ × Inode × Volume) → Result (Outcome (ℤ × List ℕ) × Opened)
finish_fileread o panic = panic
finish_fileread o (ok (r, bs, ip, v)) =
    ok (returned (r, bs), record o { file = advance r o.file; inode = ip; volume = v })

module _ (sb : Superblock) where
  -- The loop of `filewrite` on fuel.
  unfoldable pub write_rounds : (ℕ → Option (List ℕ → ℤ)) → ℕ → ℕ → List ℕ → Opened → Result Rounds
  write_rounds devsw self fuel [] o = ok (returned true, [], o)
  write_rounds devsw self zero (b ∷ bs) o = panic
  write_rounds devsw self (suc fuel) (b ∷ bs) o =
      let (here, left) = next_bytes (b ∷ bs) in
      after_begin
        (λ o1. load_inode sb o1.inode o1.volume >>= λ ip.
          after_writei (λ o2. write_rounds devsw self fuel left o2) (length here) o1
            (writei sb devsw ip o1.file.off here o1.volume))
        (b ∷ bs) (begin_write self o)

  -- A writer of `n` bytes that slept in `begin_op`, with some of them left, runs again.
  unfoldable pub filewrite_resume :
      (ℕ → Option (List ℕ → ℤ)) → ℕ → ℕ → List ℕ → Opened → Result (Outcome ℤ × List ℕ × Opened)
  filewrite_resume devsw self n left o = finish_filewrite n (
      write_rounds devsw self (length left) left
        (record o { pipes = record (o.pipes) { procs = sleep_end self o.pipes.procs } }))

  -- The bytes that are left are those of a writer asleep in a pipe or in `begin_op`.
  unfoldable pub filewrite :
      (ℕ → Option (List ℕ → ℤ)) → ℕ → List ℕ → Opened → Result (Outcome ℤ × List ℕ × Opened)
  filewrite devsw self bs o =
      if not o.file.writable then ok (returned minus_one, bs, o) else elim o.file.type [
        | fd_none ↦ panic
        | fd_pipe ↦
            let (r, left, s) = pipewrite self bs o.pipes in ok (r, left, record o { pipes = s })
        | fd_inode ↦ finish_filewrite (length bs) (write_rounds devsw self (length bs) bs o)
      ]

  -- The result, and the bytes read.
  unfoldable pub fileread :
      (ℕ → Option (ℕ → ℤ × List ℕ)) → ℕ → ℕ → Opened → Result (Outcome (ℤ × List ℕ) × Opened)
  fileread devsw self n o =
      if not o.file.readable then ok (returned (minus_one, []), o) else elim o.file.type [
        | fd_none ↦ panic
        | fd_pipe ↦ let (r, s) = piperead self n o.pipes in ok (r, record o { pipes = s })
        | fd_inode ↦ elim (load_inode sb o.inode o.volume) [
          | panic ↦ panic
          | ok ip ↦ finish_fileread o (readi sb devsw ip o.file.off n o.volume)
        ]
      ]

  -- The result, what is stored at the pointer, and the inode as `ilock` has loaded it.
  unfoldable pub filestat : Opened → Result (ℤ × Option Stat × Opened)
  filestat o = elim o.file.type [
    | fd_none ↦ ok (minus_one, none, o)
    | fd_pipe ↦ ok (minus_one, none, o)
    | fd_inode ↦ elim (load_inode sb o.inode o.volume) [
      | panic ↦ panic
      | ok ip ↦ ok (pos 0, some (stati ip), record o { inode = ip })
    ]
  ]
