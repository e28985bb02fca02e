-- ===== src/Log/Admission.antt =====
-- What the reservations of `begin_op` in code/log.c promise: an operation's writes fit, and it can end.
use os_ex.Shared.{
  ℕ, suc, ◌+◌, ◌<◌, ◌≡◌, refl, List, ◌∷◌, ◌++◌, Bool, false, panic, if◌then◌else◌, ◌||◌, leb,
  length, length-append, arith, ◌∙◌, ap, pos, lt_int, ok,
}
use os_ex.Log.{Log, log_size, log_enter, log_write}
use os_ex.Log.Steps.{Step, writes, Reachable, IsStart, Reachable-IsReserved, sum-append}

pub both_pass :
    (p q : Bool) (x : Log)
    → p ≡ false
    → q ≡ false
    → (if p then panic else if q then panic else ok x) ≡ ok x
both_pass p q x e f = rw (e, f) refl

log_write-returns :
    (b : ℕ) (lg : Log) (k : ℕ)
    → lg.n < log_size
    → lg.n + 1 < lg.size
    → lg.outstanding ≡ pos (suc k)
    → log_write b lg ≡ ok (log_enter b lg)
unfolding log_write
log_write-returns b lg k room inside busy =
    let fits : (leb log_size lg.n || leb lg.size (lg.n + 1)) ≡ false = ground arith in
    let some : lt_int lg.outstanding (pos 1) ≡ false = ground arith in both_pass _ _ _ fits some

-- From a log that has just started, by any steps of `begin_op`, `log_enter`, the two halves of
-- `end_op` and `commit`: if every operation calls `log_write` at most `MAXOPBLOCKS` times before its
-- `end_op`, and the log has more than `LOGSIZE` blocks, then a call that an operation has left does
-- not panic.
pub log_write-Reachable :
    (lg0 lg : Log) (xs ys : List ℕ) (k b : ℕ)
    → IsStart lg0
    → Reachable lg0 lg (xs ++ (suc k ∷ ys))
    → log_size < lg.size
    → (lg' : Log) × (log_write b lg ≡ ok lg') × Step lg (xs ++ (suc k ∷ ys)) lg' (xs ++ (k ∷ ys))
log_write-Reachable lg0 lg xs ys k b i r size =
    let v = Reachable-IsReserved i r in
    let e =
      log_write-returns b lg (length ys + length xs)
        (omega (arith, v.room, sum-append xs (suc k ∷ ys)))
        (omega (arith, v.room, sum-append xs (suc k ∷ ys)))
        (v.count ∙ ap pos (omega (arith, length-append xs (suc k ∷ ys)))) in
    (log_enter b lg, e, writes b xs k ys refl)
