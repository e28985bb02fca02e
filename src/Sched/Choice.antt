-- ===== src/Sched/Choice.antt =====
-- The default policy of code/proc.c runs some process whenever one is runnable.
use os_ex.Shared.{
  ℕ, zero, suc, ◌+◌, ◌-◌, ◌%◌, ◌<◌, ◌≡◌, ◌⊎◌, inl, inr, refl, Bool, true, false, Bool-cases, some,
  none, get_elem?, arith, pos, pos_part, ◌∙◌, ap, sym, subst, modify, Option, Option-cases,
  UpdatedAt, modify-UpdatedAt,
}
use os_ex.Proc.{Proc, Procs, nproc, is_runnable, running, runnable, ProcState}
use os_ex.Sched.{
  Seeds, default, search_from, random, default_scheduler, runnable_at, schedule, ready_process,
}

-- The indices still to be tried, with the one that was just tried.
all_from :
    (rnd n i : ℕ) (procs : Procs)
    → runnable_at procs ((rnd + i) % nproc) ≡ false
    → ((d : ℕ) → d < n → runnable_at procs ((rnd + (suc i + d)) % nproc) ≡ false)
    → (d : ℕ) → d < suc n
    → runnable_at procs ((rnd + (i + d)) % nproc) ≡ false
all_from rnd n i procs miss all zero h =
    let same : rnd + (i + 0) ≡ rnd + i = omega arith in
    ap (λ x. runnable_at procs (x % nproc)) same ∙ miss
all_from rnd n i procs miss all (suc d) h =
    let same : rnd + (i + suc d) ≡ rnd + (suc i + d) = omega arith in
    ap (λ x. runnable_at procs (x % nproc)) same ∙ all d (omega arith)

search_from_lem :
    (rnd n i : ℕ) (procs : Procs)
    → ((j : ℕ) × (search_from rnd n i procs ≡ some j) × (runnable_at procs j ≡ true))
      ⊎ ((search_from rnd n i procs ≡ none)
          × ((d : ℕ) → d < n → runnable_at procs ((rnd + (i + d)) % nproc) ≡ false))
unfolding search_from
search_from_lem rnd zero i procs = inr (refl, λ d h. elim h [ ])
search_from_lem rnd (suc n) i procs = elim (Bool-cases (runnable_at procs ((rnd + i) % nproc))) [
  | inl hit ↦ inl ((rnd + i) % nproc, rw hit, hit)
  | inr miss ↦ elim (search_from_lem rnd n (suc i) procs) [
    | inl (j, e, run) ↦ inl (j, rw miss e, run)
    | inr (e, all) ↦ inr (rw miss e, all_from rnd n i procs miss all)
  ]
]

-- Every index comes up in one turn round the table.
index_tried : (rnd j : ℕ) → j < nproc → (d : ℕ) × (d < nproc) × ((rnd + (0 + d)) % nproc ≡ j)
index_tried rnd j h = ((j + nproc - rnd % nproc) % nproc, omega arith, omega arith)

-- The default policy chooses a runnable process, and none only if no process is runnable, whatever
-- number `random` returns.
pub default_scheduler_lem :
    (procs : Procs) (s : Seeds)
    → ((j : ℕ) × ((default_scheduler procs s).0 ≡ some j) × (runnable_at procs j ≡ true))
      ⊎ (((default_scheduler procs s).0 ≡ none)
          × ((j : ℕ) → j < nproc → runnable_at procs j ≡ false))
unfolding default_scheduler
default_scheduler_lem procs s =
    elim (search_from_lem (pos_part (random (pos nproc) s).0) nproc 0 procs) [
      | inl found ↦ inl found
      | inr (e, all) ↦ inr (
        e,
        λ j h.
            let (d, small, at) = index_tried (pos_part (random (pos nproc) s).0) j h in
            subst (λ x. runnable_at procs x ≡ false) at (all d small),
      )
    ]

-- A process that the scheduler switched to: it was runnable, it is running, and it alone changed.
abbrev pub RunsOne : Procs → Option ℕ × Procs → Type 0
RunsOne procs r =
    (i : ℕ) × (p : Proc) × (get_elem? procs i ≡ some p)
    × (p.state ≡ runnable)
    × (r.0 ≡ some i)
    × UpdatedAt (λ q. q ≡ record p { state = running }) i procs r.1

runnable_at_lem :
    (procs : Procs) (j : ℕ)
    → runnable_at procs j ≡ true
    → (p : Proc) × (get_elem? procs j ≡ some p) × (p.state ≡ runnable)
runnable_at_lem procs j h = elim (Option-cases (get_elem? procs j)) [
  | inl e ↦ absurd (ground arith)
  | inr (p, e) ↦ (p, e, is_runnable_lem p.state (sym (ap state_runnable e) ∙ h))
]
  where
    state_runnable : Option Proc → Bool
    state_runnable o = elim o [ none ↦ false | some p ↦ is_runnable p.state ]

    is_runnable_lem : (st : ProcState) → is_runnable st ≡ true → st ≡ runnable
    is_runnable_lem st e = ground arith

-- A round of the scheduler under the default policy always has a defined result: it switches to
-- exactly one process, which was runnable, or no process is runnable and the table is unchanged.
pub schedule-default :
    (procs : Procs) (s : Seeds)
    → (r : Option ℕ) × (procs' : Procs) × (s' : Seeds) × (schedule default procs s
        ≡ some (r, procs', s'))
      × (RunsOne procs (r, procs')
          ⊎ ((r ≡ none) × (procs' ≡ procs) × ((j : ℕ) → j < nproc → runnable_at procs j ≡ false)))
unfolding schedule ready_process
schedule-default procs s = elim (default_scheduler_lem procs s) [
  | inl (j, e, run) ↦
      let (p, at, st) = runnable_at_lem procs j run in
      (
        some j,
        modify procs j (λ q. record q { state = running }),
        (default_scheduler procs s).1,
        rw (e, schedule),
        inl (
          j,
          p,
          at,
          st,
          refl,
          modify-UpdatedAt _ procs j (λ q. record q { state = running }) p at refl,
        ),
      )
  | inr (e, all) ↦
      (none, procs, (default_scheduler procs s).1, rw (e, schedule), inr (refl, refl, all))
]
