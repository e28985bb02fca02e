-- ===== src/Pipe.antt =====
-- code/pipe.c: a ring of 512 bytes between processes. Each function holds the lock of the pipe
-- from its first access to its last, but for the time that a process sleeps in it: one run, from
-- the start or from the return of `sleep` to the end or to the next `sleep`, is a step. The number
-- of bytes is not negative: `argptr` has checked it.
pub mod Queue
pub mod Ring
pub mod Transfer
use os_ex.Shared.{
  ℕ, zero, suc, ◌+◌, ◌-◌, ◌%◌, ◌^◌, Bool, true, false, not, ◌&&◌, ◌||◌, ◌==◌, if◌then◌else◌, Result,
  ok, panic, ◌>>=◌, ℤ, pos, minus_one, List, [], ◌∷◌, set, get_or, length, Option, none, some,
}
use os_ex.Kalloc.{Kmem, kfree}
use os_ex.Proc.{Procs, sleep_begin, sleep_end, wakeup}
use os_ex.Proc.Wait.{killed_at, Outcome, returned, asleep}

abbrev pub pipe_size : ℕ
pipe_size = 512

-- `struct pipe` at an address; its counters are 32-bit and wrap.
pub record Pipe : Type 0 where
  pub addr : ℕ
  pub bytes : List ℕ
  pub nread : ℕ
  pub nwrite : ℕ
  pub readopen : Bool
  pub writeopen : Bool

-- `&p->nread` and `&p->nwrite`, behind the lock of 52 bytes and the data
abbrev pub nread_chan : Pipe → ℕ
nread_chan p = p.addr + 564

abbrev pub nwrite_chan : Pipe → ℕ
nwrite_chan p = p.addr + 568

-- `x++` on a counter
abbrev pub inc : ℕ → ℕ
inc x = (x + 1) % 2 ^ 32

-- `p->nwrite == p->nread + PIPESIZE` and `p->nread == p->nwrite`
abbrev pub is_full : Pipe → Bool
is_full p = p.nwrite == (p.nread + pipe_size) % 2 ^ 32

abbrev pub is_empty : Pipe → Bool
is_empty p = p.nread == p.nwrite

-- `p->data[p->nwrite++ % PIPESIZE] = b` and `p->data[p->nread++ % PIPESIZE]`
pub put : ℕ → Pipe → Pipe
put b p = record p { bytes = set p.bytes (p.nwrite % pipe_size) b; nwrite = inc p.nwrite }

pub get : Pipe → ℕ × Pipe
get p = (get_or p.bytes (p.nread % pipe_size) 0, record p { nread = inc p.nread })

-- The pipe, and the process table for `sleep` and `wakeup`.
pub record Sys : Type 0 where
  pub pipe : Pipe
  pub procs : Procs

abbrev pub awaken : (Pipe → ℕ) → Sys → Sys
awaken chan s = record s { procs = wakeup (chan s.pipe) s.procs }

-- `pipewrite` from the test of its loop on, with the bytes still to be written; when it falls
-- asleep it leaves those that are left. `n` is what it returns at the end.
unfoldable pub write_from : ℕ → ℕ → List ℕ → Sys → Outcome ℤ × List ℕ × Sys
unfolding put
write_from self n [] s = (returned (pos n), [], awaken nread_chan s)
write_from self n (b ∷ bs) s =
    let rest = write_from self n bs (record s { pipe = put b s.pipe }) in
    if is_full s.pipe
    then (if not s.pipe.readopen || killed_at self s.procs
        then (returned minus_one, b ∷ bs, s)
        else (
          asleep,
          b ∷ bs,
          (let s' = awaken nread_chan s in
              record s' { procs = sleep_begin self (nwrite_chan s'.pipe) s'.procs }),
        ))
    else rest

unfoldable pub pipewrite : ℕ → List ℕ → Sys → Outcome ℤ × List ℕ × Sys
pipewrite self bs s = write_from self (length bs) bs s

-- The writer runs again, with the bytes that it had left.
unfoldable pub pipewrite_resume : ℕ → ℕ → List ℕ → Sys → Outcome ℤ × List ℕ × Sys
pipewrite_resume self n bs s = write_from self n bs (record s { procs = sleep_end self s.procs })

-- the loop of `piperead` that copies at most `n` bytes
pub read_bytes : ℕ → Pipe → List ℕ × Pipe
read_bytes zero p = ([], p)
read_bytes (suc n) p =
    let (b, p') = get p in
    let (bs, p'') = read_bytes n p' in if is_empty p then ([], p) else (b ∷ bs, p'')

-- A round of `piperead`: what it returns, and the bytes that it copied.
unfoldable pub piperead : ℕ → ℕ → Sys → Outcome (ℤ × List ℕ) × Sys
unfolding read_bytes get
piperead self n s =
    if is_empty s.pipe && s.pipe.writeopen
    then (if killed_at self s.procs
        then (returned (minus_one, []), s)
        else (asleep, record s { procs = sleep_begin self (nread_chan s.pipe) s.procs }))
    else (let (bs, p) = read_bytes n s.pipe in
        (returned (pos (length bs), bs), awaken nwrite_chan (record s { pipe = p })))

unfoldable pub piperead_resume : ℕ → ℕ → Sys → Outcome (ℤ × List ℕ) × Sys
piperead_resume self n s = piperead self n (record s { procs = sleep_end self s.procs })

-- `pipeclose`: the pipe, unless its page was freed.
unfoldable pub pipeclose : ℕ → Bool → Sys → Kmem → Result (Option Pipe × Procs × Kmem)
pipeclose kernel_end writable s k =
    let s' : Sys =
      if writable
      then awaken nread_chan (record s { pipe = record (s.pipe) { writeopen = false } })
      else awaken nwrite_chan (record s { pipe = record (s.pipe) { readopen = false } }) in
    if not s'.pipe.readopen && not s'.pipe.writeopen
    then (kfree kernel_end s'.pipe.addr k >>= λ k'. ok (none, s'.procs, k'))
    else ok (some s'.pipe, s'.procs, k)
