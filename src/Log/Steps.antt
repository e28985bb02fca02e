-- ===== src/Log/Steps.antt =====
-- The operations in progress on the log of code/log.c, and the space that `begin_op` reserves for them.
use os_ex.Shared.{
  ℕ, suc, ◌+◌, ◌*◌, ◌≤◌, ◌<◌, ◌≡◌, refl, All, All_of_append, pos_part, ◌≢◌, List, [], ◌∷◌, ◌++◌,
  Bool, true, false, length, length-append, arith, ◌∙◌, ap, sym, pos, add_int, ◌+ℤ◌, sub_int,
  lt_int, ok,
}
use os_ex.Disk.{Store}
use os_ex.Proc.{Procs}
use os_ex.Log.{
  Log, log_size, max_op_blocks, no_room, scale, begin_op, log_enter, end_op_begin, end_op_finish,
  commit,
}

abbrev pub sum : List ℕ → ℕ
sum [] = 0
sum (n ∷ ns) = n + sum ns

-- Steps of the operations in progress; the list says how many calls of `log_write` each may still
-- make. A call makes its tests in any state and enters its block in a later one.
pub data Step : Log → List ℕ → Log → List ℕ → Type 0 where
  begins :
      {lg lg' : Log} {left : List ℕ} (self : ℕ) (procs procs' : Procs)
      → begin_op self lg procs ≡ (true, lg', procs')
      → Step lg left lg' (max_op_blocks ∷ left)
  writes :
      {lg lg' : Log} (b : ℕ) (xs : List ℕ) (k : ℕ) (ys : List ℕ)
      → log_enter b lg ≡ lg'
      → Step lg (xs ++ (suc k ∷ ys)) lg' (xs ++ (k ∷ ys))
  ends :
      {lg lg' : Log} (procs procs' : Procs) (do_commit : Bool) (xs : List ℕ) (k : ℕ) (ys : List ℕ)
      → end_op_begin lg procs ≡ ok (do_commit, lg', procs')
      → Step lg (xs ++ (k ∷ ys)) lg' (xs ++ ys)
  commits :
      {lg lg' : Log} {left : List ℕ} (s : Store) (procs procs' : Procs)
      → lg.committing ≡ true
      → end_op_finish (commit lg s).0 procs ≡ (lg', procs')
      → Step lg left lg' left

pub data Reachable (lg0 : Log) : Log → List ℕ → Type 0 where
  start : Reachable lg0 lg0 []
  step :
      {lg lg' : Log} {left left' : List ℕ}
      → Reachable lg0 lg left
      → Step lg left lg' left'
      → Reachable lg0 lg' left'

pub record IsReserved (lg : Log) (left : List ℕ) : Type 0 where
  pub count : lg.outstanding ≡ pos (length left)
  pub few : length left ≤ 3
  pub each : All (λ k. k ≤ max_op_blocks) left
  pub room : lg.n + sum left ≤ log_size
  pub idle : lg.committing ≡ true → left ≡ []

pub sum-append : (xs ys : List ℕ) → sum (xs ++ ys) ≡ sum xs + sum ys
sum-append [] ys = omega arith
sum-append (x ∷ xs) ys = omega (arith, sum-append xs ys)

sum_bound : (xs : List ℕ) → All (λ k. k ≤ max_op_blocks) xs → sum xs ≤ max_op_blocks * length xs
sum_bound [] a = omega arith
sum_bound (x ∷ xs) a = omega (arith, a.0, sum_bound xs a.1)

All_append : (P : ℕ → Type 0) (xs ys : List ℕ) → All P xs → All P ys → All P (xs ++ ys)
All_append P [] ys a b = b
All_append P (x ∷ xs) ys a b = (a.0, All_append P xs ys a.1 b)

begin_op-true :
    (self : ℕ) (lg lg' : Log) (procs procs' : Procs)
    → begin_op self lg procs ≡ (true, lg', procs')
    → (lg.committing ≡ false)
      × (no_room lg ≡ false)
      × (lg' ≡ record lg { outstanding = add_int lg.outstanding (pos 1) })
unfolding begin_op
begin_op-true self lg lg' procs procs' e = ground arith

room_for_one :
    (n k : ℕ)
    → k ≤ 3
    → lt_int (pos log_size) (pos n +ℤ scale max_op_blocks (add_int (pos k) (pos 1))) ≡ false
    → (n + max_op_blocks * (k + 1) ≤ log_size) × (add_int (pos k) (pos 1) ≡ pos (suc k))
unfolding add_int ◌+ℤ◌
room_for_one n k h e = ground arith

log_enter-n :
    (b : ℕ) (lg lg' : Log)
    → log_enter b lg ≡ lg'
    → (lg'.n ≤ lg.n + 1) × (lg'.outstanding ≡ lg.outstanding) × (lg'.committing ≡ lg.committing)
log_enter-n b lg lg' e =
    ground (arith, ap (λ l. l.n) e, ap (λ l. l.outstanding) e, ap (λ l. l.committing) e)

end_op_begin-ok :
    (lg lg' : Log) (procs procs' : Procs) (do_commit : Bool)
    → end_op_begin lg procs ≡ ok (do_commit, lg', procs')
    → (lg'.n ≡ lg.n)
      × (lg'.outstanding ≡ sub_int lg.outstanding (pos 1))
      × (lg.committing ≡ false)
      × (lg'.committing ≡ true → sub_int lg.outstanding (pos 1) ≡ pos 0)
unfolding end_op_begin
end_op_begin-ok lg lg' procs procs' do_commit e = ground arith

begins-IsReserved :
    (self : ℕ) (lg lg' : Log) (left : List ℕ) (procs procs' : Procs)
    → IsReserved lg left
    → begin_op self lg procs ≡ (true, lg', procs')
    → IsReserved lg' (max_op_blocks ∷ left)
begins-IsReserved self lg lg' left procs procs' r e =
    let (free, fits, q) = begin_op-true self lg lg' procs procs' e in
    let (room, more) = room_for_one lg.n (length left) r.few (
      ap (λ x. lt_int (pos log_size) (pos lg.n +ℤ scale max_op_blocks (add_int x (pos 1))))
        (sym r.count)
      ∙ fits) in
    rw q (record {
      count = ap (λ x. add_int x (pos 1)) r.count ∙ more;
      few = omega (arith, room);
      room = omega (arith, room, sum_bound left r.each);
      each = (omega arith, r.each);
      idle = λ c. cc (c, free);
    })

writes-IsReserved :
    (b : ℕ) (lg lg' : Log) (xs ys : List ℕ) (k : ℕ)
    → IsReserved lg (xs ++ (suc k ∷ ys))
    → log_enter b lg ≡ lg'
    → IsReserved lg' (xs ++ (k ∷ ys))
writes-IsReserved b lg lg' xs ys k r e =
    let (more, same, still) = log_enter-n b lg lg' e in
    record {
      count =
          same
          ∙ r.count
          ∙ ap pos (omega (arith, length-append xs (suc k ∷ ys), length-append xs (k ∷ ys)));
      few = omega (arith, r.few, length-append xs (suc k ∷ ys), length-append xs (k ∷ ys));
      each =
          let (before, (now, after)) =
            All_of_append (λ n. n ≤ max_op_blocks) xs (suc k ∷ ys) r.each in
          All_append (λ n. n ≤ max_op_blocks) xs (k ∷ ys) before (omega (arith, now), after);
      room = omega (arith, r.room, more, sum-append xs (suc k ∷ ys), sum-append xs (k ∷ ys));
      idle = λ c. absurd (some_left (ap length (r.idle (sym still ∙ c))));
    }
  where
    some_left : length (xs ++ (suc k ∷ ys)) ≢ 0
    some_left h = omega (arith, h, length-append xs (suc k ∷ ys))

pub one_less : (k : ℕ) → k < 3 → sub_int (pos (suc k)) (pos 1) ≡ pos k
unfolding sub_int
one_less k h = ground arith

pub length-zero : (xs : List ℕ) → length xs ≡ 0 → xs ≡ []
length-zero [] h = refl
length-zero (x ∷ xs) h = absurd (omega arith)

ends-IsReserved :
    (lg lg' : Log) (procs procs' : Procs) (do_commit : Bool) (xs ys : List ℕ) (k : ℕ)
    → IsReserved lg (xs ++ (k ∷ ys))
    → end_op_begin lg procs ≡ ok (do_commit, lg', procs')
    → IsReserved lg' (xs ++ ys)
ends-IsReserved lg lg' procs procs' do_commit xs ys k r e =
    let (same, less, free, last) = end_op_begin-ok lg lg' procs procs' do_commit e in
    let longer : length (xs ++ (k ∷ ys)) ≡ suc (length (xs ++ ys)) =
      omega (arith, length-append xs (k ∷ ys), length-append xs ys) in
    let few : length (xs ++ ys) < 3 = omega (arith, r.few, longer) in
    let now : sub_int lg.outstanding (pos 1) ≡ pos (length (xs ++ ys)) =
      ap (λ x. sub_int x (pos 1)) (r.count ∙ ap pos longer) ∙ one_less (length (xs ++ ys)) few in
    record {
      count = less ∙ now;
      few = omega (arith, few);
      each =
          let (before, (now, after)) = All_of_append (λ n. n ≤ max_op_blocks) xs (k ∷ ys) r.each in
          All_append (λ n. n ≤ max_op_blocks) xs ys before after;
      room = omega (arith, same, r.room, sum-append xs (k ∷ ys), sum-append xs ys);
      idle = λ c. length-zero (xs ++ ys) (ap pos_part (sym now ∙ last c));
    }

finish-n :
    (lg lg' : Log) (s : Store) (procs procs' : Procs)
    → end_op_finish (commit lg s).0 procs ≡ (lg', procs')
    → (lg'.n ≤ lg.n) × (lg'.outstanding ≡ lg.outstanding) × (lg'.committing ≡ false)
unfolding end_op_finish commit
finish-n lg lg' s procs procs' e = ground arith

finish-IsReserved :
    (lg lg' : Log) (left : List ℕ) (s : Store) (procs procs' : Procs)
    → IsReserved lg left
    → end_op_finish (commit lg s).0 procs ≡ (lg', procs')
    → IsReserved lg' left
finish-IsReserved lg lg' left s procs procs' r e =
    let (less, same, idle) = finish-n lg lg' s procs procs' e in
    record {
      count = same ∙ r.count;
      few = r.few;
      each = r.each;
      room = omega (arith, r.room, less);
      idle = λ c. cc (c, idle);
    }

Step-IsReserved :
    {lg lg' : Log} {left left' : List ℕ}
    → IsReserved lg left
    → Step lg left lg' left'
    → IsReserved lg' left'
Step-IsReserved r (begins self procs procs' e) = begins-IsReserved self _ _ _ procs procs' r e
Step-IsReserved r (writes b xs k ys e) = writes-IsReserved b _ _ xs ys k r e
Step-IsReserved r (ends procs procs' do_commit xs k ys e) =
    ends-IsReserved _ _ procs procs' do_commit xs ys k r e
Step-IsReserved r (commits s procs procs' c e) = finish-IsReserved _ _ _ s procs procs' r e

-- the log when the system has started
pub record IsStart (lg : Log) : Type 0 where
  pub none : lg.outstanding ≡ pos 0
  pub empty : lg.n ≡ 0
  pub idle : lg.committing ≡ false

pub Reachable-IsReserved :
    {lg0 lg : Log} {left : List ℕ} → IsStart lg0 → Reachable lg0 lg left → IsReserved lg left
Reachable-IsReserved i start = record {
  count = i.none;
  few = omega arith;
  each = tt;
  room = omega (arith, i.empty);
  idle = λ c. refl;
}
Reachable-IsReserved i (step r s) = Step-IsReserved (Reachable-IsReserved i r) s
