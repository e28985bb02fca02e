-- ===== src/Log/Waiting.antt =====
-- Who waits in `begin_op` of code/log.c gets in when the last operation has ended.
use os_ex.Shared.{
  ℕ, ◌>>=◌, ◌≡◌, refl, All, true, false, arith, ◌∙◌, ap, pos, add_int, ◌+ℤ◌, sub_int, ok,
}
use os_ex.Disk.{Store}
use os_ex.Proc.{Procs, wakeup}
use os_ex.Proc.Wakeup.{SleepsOn, wakeup-All}
use os_ex.Log.{Log, begin_op, end_op_begin, end_op_finish, end_op_rest, end_op, commit}

commit-n :
    (lg : Log) (s : Store)
    → ((commit lg s).0.n ≡ 0)
      × ((commit lg s).0.outstanding ≡ lg.outstanding)
      × ((commit lg s).0.addr ≡ lg.addr)
unfolding commit
commit-n lg s = ground arith

-- The log after the last operation's `end_op`.
pub record IsIdle (lg : Log) : Type 0 where
  pub empty : lg.n ≡ 0
  pub none : lg.outstanding ≡ pos 0
  pub idle : lg.committing ≡ false

begin_op-IsIdle :
    (self : ℕ) (lg : Log) (procs : Procs) → IsIdle lg → (begin_op self lg procs).0 ≡ true
unfolding begin_op add_int ◌+ℤ◌
begin_op-IsIdle self lg procs i = rw (i.idle, i.empty, i.none) refl

-- the log while its last operation commits
abbrev committing_log : Log → Log
committing_log lg = record lg { outstanding = pos 0; committing = true }

begun :
    (lg : Log) (procs : Procs)
    → lg.committing ≡ false
    → lg.outstanding ≡ pos 1
    → end_op_begin lg procs ≡ ok (true, committing_log lg, procs)
unfolding end_op_begin sub_int
begun lg procs idle one = rw (idle, one) refl

rest :
    (lg : Log) (s : Store) (procs : Procs)
    → end_op_rest s (true, lg, procs) ≡ (
      record (commit lg s).0 { committing = false },
      (commit lg s).1,
      wakeup (commit lg s).0.addr procs,
    )
unfolding end_op_rest end_op_finish
rest lg s procs = refl

-- When the only operation in progress ends and nobody commits, `end_op` does not panic. Afterwards
-- the log is empty and idle, nobody sleeps on it, and a process that tries `begin_op` gets in.
end_op-begin_op :
    (lg : Log) (s : Store) (procs : Procs)
    → lg.committing ≡ false
    → lg.outstanding ≡ pos 1
    → (lg' : Log) × (s' : Store) × (procs' : Procs) × (end_op lg s procs ≡ ok (lg', s', procs'))
      × IsIdle lg'
      × All (λ p. ¬ SleepsOn lg.addr p) procs'
      × ((self : ℕ) → (begin_op self lg' procs').0 ≡ true)
unfolding end_op
end_op-begin_op lg s procs idle one =
    let (none, busy, place) = commit-n (committing_log lg) s in
    let i : IsIdle (record (commit (committing_log lg) s).0 { committing = false }) = record {
      empty = none;
      none = busy;
      idle = refl;
    } in
    (
      _,
      _,
      wakeup lg.addr procs,
      ap (λ r. r >>= λ x. ok (end_op_rest s x)) (begun lg procs idle one)
          ∙ ap ok (rest (committing_log lg) s procs)
          ∙ ap
              (λ x. ok (
                record (commit (committing_log lg) s).0 { committing = false },
                (commit (committing_log lg) s).1,
                wakeup x procs,
              ))
              place,
      i,
      wakeup-All lg.addr procs,
      λ self. begin_op-IsIdle self _ _ i,
    )
