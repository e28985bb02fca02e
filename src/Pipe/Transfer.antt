-- ===== src/Pipe/Transfer.antt =====
-- `pipewrite` and `piperead` of code/pipe.c: which bytes go in and come out, and in which order.
use os_ex.Shared.{
  ℕ, ◌≡◌, ◌≢◌, ◌⊎◌, inl, inr, refl, true, false, List, [], ◌∷◌, ◌++◌, All, length, arith, ap, ◌∙◌,
  Bool-cases, ℤ, pos, minus_one, not, ◌||◌, sym, append_assoc, append-nil,
}
use Prim.Native.Nat.{min}
use os_ex.Proc.Wakeup.{SleepsOn, wakeup-All}
use os_ex.Proc.Wait.{Outcome, returned, killed_at}
use os_ex.Pipe.{Pipe, Sys, is_full, put, write_from, pipewrite, nread_chan}
use os_ex.Pipe.Ring.{IsPipe, count, contents, put-IsPipe}
use os_ex.Pipe.Queue.{contents-put}

-- What a run of the writer comes to: some of the bytes have gone in, the rest are left.
pub record Written (self n : ℕ) (bs : List ℕ) (s : Sys) (r : Outcome ℤ × List ℕ × Sys)
    : Type 0 where
  pub sent : List ℕ
  pub split : bs ≡ sent ++ r.1
  pub queue : contents r.2.pipe ≡ contents s.pipe ++ sent
  pub valid : IsPipe r.2.pipe
  pub finished :
      r.0 ≡ returned (pos n) → (r.1 ≡ []) × All (λ p. ¬ SleepsOn (nread_chan r.2.pipe) p) r.2.procs
  pub stopped : r.0 ≢ returned (pos n) → is_full r.2.pipe ≡ true
  pub refused :
      r.0 ≡ returned minus_one → (r.2.pipe.readopen ≡ false) ⊎ (killed_at self r.2.procs ≡ true)

Written-cons :
    (self n b : ℕ) (bs : List ℕ) (s : Sys) (r : Outcome ℤ × List ℕ × Sys)
    → IsPipe s.pipe
    → is_full s.pipe ≡ false
    → Written self n bs (record s { pipe = put b s.pipe }) r
    → Written self n (b ∷ bs) s r
Written-cons self n b bs s r v room w = record {
  sent = b ∷ w.sent;
  split = ap (λ x. b ∷ x) w.split;
  queue =
      w.queue
      ∙ ap (λ x. x ++ w.sent) (contents-put b s.pipe v room)
      ∙ append_assoc (contents s.pipe) (b ∷ []) w.sent;
  valid = w.valid;
  finished = w.finished;
  stopped = w.stopped;
  refused = w.refused;
}

write_from-Written :
    (self n : ℕ) (bs : List ℕ) (s : Sys)
    → IsPipe s.pipe
    → Written self n bs s (write_from self n bs s)
unfolding write_from
write_from-Written self n [] s v = record {
  sent = [];
  split = refl;
  queue = sym (append-nil (contents s.pipe));
  valid = v;
  finished = λ e. (refl, wakeup-All _ s.procs);
  stopped = λ ne. absurd (ne refl);
  refused = λ e. cc;
}
write_from-Written self n (b ∷ bs) s v = elim (Bool-cases (is_full s.pipe)) [
  | inr room ↦ rw room (
      Written-cons self n b bs s _ v room (
        write_from-Written self n bs (record s { pipe = put b s.pipe })
          (put-IsPipe b s.pipe v room)))
  | inl full ↦ elim (Bool-cases (not s.pipe.readopen || killed_at self s.procs)) [
    | inl quit ↦
        rw (full, quit)
          (record {
            sent = [];
            split = refl;
            queue = sym (append-nil (contents s.pipe));
            valid = v;
            finished = λ e. cc;
            stopped = λ ne. full;
            refused = λ e. ground arith;
          })
    | inr stay ↦
        rw (full, stay)
          (record {
            sent = [];
            split = refl;
            queue = sym (append-nil (contents s.pipe));
            valid = v;
            finished = λ e. cc;
            stopped = λ ne. full;
            refused = λ e. cc;
          })
  ]
]

-- A run of `pipewrite` moves a first part of its bytes, in order, behind what the pipe holds, and
-- keeps the rest. It returns the number of bytes only when none is left, and then no reader sleeps;
-- it stops before only at a full pipe, and fails only if no reader is left or it is killed.
pub pipewrite_lem :
    (self : ℕ) (bs : List ℕ) (s : Sys)
    → IsPipe s.pipe
    → Written self (length bs) bs s (pipewrite self bs s)
unfolding pipewrite
pipewrite_lem self bs s v = write_from-Written self (length bs) bs s v

-- What the loop of `piperead` comes to.
pub record Read (n : ℕ) (p : Pipe) (r : List ℕ × Pipe) : Type 0 where
  pub queue : contents p ≡ r.0 ++ contents r.1
  pub valid : IsPipe r.1
  pub most : length r.0 ≡ min n (count p)
