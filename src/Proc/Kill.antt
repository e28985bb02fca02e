-- ===== src/Proc/Kill.antt =====
-- `kill` and `setpriority` of code/proc.c: which entry they change, and when they fail.
use os_ex.Shared.{
  ℕ, ◌≡◌, refl, ◌≢◌, ◌⊎◌, inl, inr, true, false, All, arith, find_index-cases, Found, ℤ, pos,
  eq_int, eq_int_iff, minus_one, modify-UpdatedAt, UpdatedAt,
}
use os_ex.Proc.{Proc, Procs, sleeping, kill, mark_killed}

-- `kill` fails, and changes nothing, if no entry has the pid. Otherwise it returns 0, marks the
-- first entry with the pid, which is then not asleep, and leaves every other entry.
kill_lem :
    (pid : ℤ) (procs : Procs)
    → ((kill pid procs ≡ (minus_one, procs)) × All (λ p. eq_int p.pid pid ≡ false) procs)
      ⊎ ((i : ℕ) × (f : Found (λ p. eq_int p.pid pid) procs i) × ((kill pid procs).0 ≡ pos 0)
          × UpdatedAt
              (λ q. (q.killed ≡ true) × (q.state ≢ sleeping) × (q.pid ≡ pid))
              i
              procs
              (kill pid procs).1)
unfolding kill
kill_lem pid procs = elim (find_index-cases (λ p. eq_int p.pid pid) procs) [
  | inl (e, all) ↦ inl (rw (e, kill), all)
  | inr (i, e, f) ↦ inr (
    i,
    f,
    rw (e, kill),
    rw (e, kill)
        (modify-UpdatedAt _ procs i mark_killed f.entry f.there
          (refl, awake f.entry, (eq_int_iff _ _).0 f.passes)),
  )
]
  where
    awake : (p : Proc) → (mark_killed p).state ≢ sleeping
    awake p = ground arith
