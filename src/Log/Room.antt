-- ===== src/Log/Room.antt =====
-- How much room the log of code/log.c has left for blocks, some of which may be in it already.
use os_ex.Shared.{
  ℕ, ℤ, ◌+ℤ◌, add_int, sub_int, eq_int, suc, ◌+◌, ◌<◌, ◌≤◌, ◌≡◌, ◌⊎◌, ◌==◌, inl, inr, refl, List,
  [], ◌∷◌, length, length-set, get_or-set_self, get_or-set_ne, arith, ◌∙◌, sym, ap, Bool, false, ok,
  pos, ◌||◌, leb, lt_int, set, true, get_or, subst,
}
use native.Mathlib.Decide.{ℕ_discrete}
use os_ex.Proc.{Procs}
use os_ex.Log.{
  Log, log_size, home, entry_of, log_enter, log_write, no_room, begin_op, end_op_begin,
  end_op_finish,
}
use os_ex.Log.Trace.{IsLogged}
use os_ex.Log.Entries.{Has, entry_of-cases}
use os_ex.Log.Admission.{both_pass}

-- A log in use by `out + 1` operations; `block` has its length, and the log is not too short for it.
pub record IsBusy (out : ℕ) (lg : Log) : Type 0 where
  pub count : lg.outstanding ≡ pos (suc out)
  pub idle : lg.committing ≡ false
  pub entries : length lg.block ≡ log_size
  pub long : log_size ≤ lg.size

-- The blocks of the list, and `k` others, can be given to `log_write`, each as often as one likes.
abbrev pub HasRoom : List ℕ → ℕ → Log → Type 0
HasRoom [] k lg = lg.n + k + 1 < log_size
HasRoom (b ∷ bs) k lg = HasRoom bs (suc k) lg ⊎ (IsLogged lg b × HasRoom bs k lg)

HasRoom-less : (bs : List ℕ) (k : ℕ) (lg : Log) → HasRoom bs k lg → lg.n + k + 1 < log_size
HasRoom-less [] k lg h = h
HasRoom-less (b ∷ bs) k lg (inl h) = omega (arith, HasRoom-less bs (suc k) lg h)
HasRoom-less (b ∷ bs) k lg (inr (_, h)) = HasRoom-less bs k lg h

-- What was in the log still is.
abbrev pub Keeps : Log → Log → Type 0
Keeps lg lg' = (x : ℕ) → IsLogged lg x → IsLogged lg' x

HasRoom-kept :
    (bs : List ℕ) (k k' : ℕ) (lg lg' : Log)
    → Keeps lg lg'
    → lg'.n + k' ≤ lg.n + k
    → HasRoom bs k lg
    → HasRoom bs k' lg'
HasRoom-kept [] k k' lg lg' kept le h = omega (arith, le, h)
HasRoom-kept (b ∷ bs) k k' lg lg' kept le (inl h) =
    inl (HasRoom-kept bs (suc k) (suc k') lg lg' kept (omega (arith, le)) h)
HasRoom-kept (b ∷ bs) k k' lg lg' kept le (inr (l, h)) =
    inr (kept b l, HasRoom-kept bs k k' lg lg' kept le h)

-- Room for a block that is not used is room for another.
pub HasRoom-forget :
    (b : ℕ) (bs : List ℕ) (k : ℕ) (lg : Log) → HasRoom (b ∷ bs) k lg → HasRoom bs k lg
HasRoom-forget b bs k lg (inl h) = HasRoom-kept bs (suc k) k lg lg (λ x l. l) (omega arith) h
HasRoom-forget b bs k lg (inr (_, h)) = h

-- What `log_write` of a block that fits leaves.
pub record Takes (b : ℕ) (lg lg' : Log) : Type 0 where
  pub more : lg'.n ≤ lg.n + 1
  pub again : IsLogged lg b → lg'.n ≡ lg.n
  pub here : IsLogged lg' b
  pub kept : Keeps lg lg'
  pub busy : (out : ℕ) → IsBusy out lg → IsBusy out lg'

log_enter-Takes :
    (lg : Log) (b : ℕ) → lg.n < log_size → length lg.block ≡ log_size → Takes b lg (log_enter b lg)
log_enter-Takes lg b less entries = elim (entry_of-cases lg b (omega arith) entries) [
  | inl (lt, at) ↦
      let old : (entry_of lg b == lg.n) ≡ false = ground arith in
      rw old (record {
        more = omega arith;
        again = λ l. refl;
        here = (entry_of lg b, lt, get_or-set_self lg.block (entry_of lg b) b 0 (omega arith));
        kept = λ x (j, h, e). elim (ℕ_discrete j (entry_of lg b)) [
          | yes q ↦ (
            j,
            h,
            ap (λ y. get_or (set lg.block (entry_of lg b) b) y 0) q
                ∙ get_or-set_self lg.block (entry_of lg b) b 0 (omega arith)
                ∙ sym at
                ∙ ap (λ y. home lg y) (sym q)
                ∙ e,
          )
          | no ne ↦ (j, h, get_or-set_ne lg.block (entry_of lg b) j b 0 (λ q. ne (sym q)) ∙ e)
        ];
        busy = λ out p. record {
          count = p.count;
          idle = p.idle;
          entries = length-set lg.block (entry_of lg b) b ∙ p.entries;
          long = p.long;
        };
      })
  | inr (last, new) ↦
      let end : (entry_of lg b == lg.n) ≡ true = ground arith in
      rw (end, last)
        (record {
          more = omega arith;
          again = λ (i, h, e). absurd (new i h e);
          here = (lg.n, omega arith, get_or-set_self lg.block lg.n b 0 (omega arith));
          kept = λ x (j, h, e). (
            j,
            omega (arith, h),
            get_or-set_ne lg.block lg.n j b 0 (λ q. absurd (omega (arith, q, h))) ∙ e,
          );
          busy = λ out p. record {
            count = p.count;
            idle = p.idle;
            entries = length-set lg.block lg.n b ∙ p.entries;
            long = p.long;
          };
        })
]

HasRoom-write :
    (bs : List ℕ) (b k : ℕ) (lg lg' : Log)
    → Takes b lg lg'
    → Has b bs
    → HasRoom bs k lg
    → HasRoom bs k lg'
HasRoom-write [] b k lg lg' t has h = absurd has
HasRoom-write (x ∷ bs) b k lg lg' t (inl e) (inl h) = inr (
  subst (λ y. IsLogged lg' y) (sym e) t.here,
  HasRoom-kept bs (suc k) k lg lg' t.kept (omega (arith, t.more)) h,
)
HasRoom-write (x ∷ bs) b k lg lg' t (inl e) (inr (l, h)) =
    let same : lg'.n ≡ lg.n = t.again (subst (λ y. IsLogged lg y) e l) in
    inr (t.kept x l, HasRoom-kept bs k k lg lg' t.kept (omega (arith, same)) h)
HasRoom-write (x ∷ bs) b k lg lg' t (inr has) (inl h) =
    inl (HasRoom-write bs b (suc k) lg lg' t has h)
HasRoom-write (x ∷ bs) b k lg lg' t (inr has) (inr (l, h)) =
    inr (t.kept x l, HasRoom-write bs b k lg lg' t has h)

-- A block for which there is room can be given to `log_write`, and there is still room for it.
pub log_write-HasRoom :
    (bs : List ℕ) (b k out : ℕ) (lg : Log)
    → Has b bs
    → IsBusy out lg
    → HasRoom bs k lg
    → (lg' : Log) × (log_write b lg ≡ ok lg') × IsBusy out lg' × HasRoom bs k lg'
unfolding log_write
log_write-HasRoom bs b k out lg has p h =
    let less = HasRoom-less bs k lg h in
    let fits : (leb log_size lg.n || leb lg.size (lg.n + 1)) ≡ false =
      let long = p.long in ground arith in
    let some_op : lt_int lg.outstanding (pos 1) ≡ false = let count = p.count in ground arith in
    let t = log_enter-Takes lg b (omega (arith, less)) p.entries in
    (log_enter b lg, both_pass _ _ _ fits some_op, t.busy out p, HasRoom-write bs b k lg _ t has h)

-- A log without an operation or an entry.
pub record IsIdle (lg : Log) : Type 0 where
  pub none : lg.outstanding ≡ pos 0
  pub empty : lg.n ≡ 0
  pub idle : lg.committing ≡ false
  pub entries : length lg.block ≡ log_size
  pub long : log_size ≤ lg.size

-- The log with an operation in progress or ended.
abbrev with_count : Log → ℤ → Bool → Log
with_count lg n committing = record lg { outstanding = n; committing = committing }

-- The first operation begins at once.
pub begin_op-IsIdle :
    (self : ℕ) (lg : Log) (procs : Procs)
    → IsIdle lg
    → (lg' : Log) × (begin_op self lg procs ≡ (true, lg', procs)) × IsBusy 0 lg' × (lg'.n ≡ 0)
unfolding begin_op ◌+ℤ◌ add_int
begin_op-IsIdle self lg procs p =
    let free : no_room lg ≡ false = rw (p.none, p.empty) refl in
    let one : add_int lg.outstanding (pos 1) ≡ pos 1 = rw (p.none) refl in
    (
      with_count lg (add_int lg.outstanding (pos 1)) lg.committing,
      simp (begin_op, p.idle, free),
      record { count = one; idle = p.idle; entries = p.entries; long = p.long },
      p.empty,
    )

-- The last operation commits, which leaves the log idle.
pub end_op-IsBusy :
    (lg : Log) (procs : Procs)
    → IsBusy 0 lg
    → (lg' : Log) × (end_op_begin lg procs ≡ ok (true, lg', procs))
      × IsIdle (end_op_finish (record lg' { n = 0 }) procs).0
unfolding end_op_begin end_op_finish sub_int
end_op-IsBusy lg procs p =
    let less : sub_int lg.outstanding (pos 1) ≡ pos 0 = rw (p.count) refl in
    let last : eq_int (sub_int lg.outstanding (pos 1)) (pos 0) ≡ true = rw less refl in
    (
      with_count lg (sub_int lg.outstanding (pos 1)) true,
      simp (end_op_begin, p.idle, last),
      record { none = less; empty = refl; idle = refl; entries = p.entries; long = p.long },
    )
