-- ===== src/Sched/Policies.antt =====
-- `setscheduler` of code/proc.c: which numbers it takes, and what the scheduler does afterwards.
use os_ex.Shared.{
  ℕ, zero, suc, ◌<◌, ◌≡◌, ◌⊎◌, inl, inr, refl, some, none, get_elem?, arith, ℤ, pos, negsuc,
  minus_one, ◌≤ℤ◌,
}
use os_ex.Sched.{Policy, default, Selected, setscheduler, getscheduler, scheduler_function}

-- What a call of `setscheduler` comes to, by its number.
abbrev pub Sets : ℤ → Selected → Type 0
Sets sid sel =
    (((sid ≤ℤ minus_one) ⊎ (pos 6 ≤ℤ sid)) × (setscheduler sid sel ≡ some (minus_one, sel)))
    ⊎ (((sid ≡ pos 5) × (setscheduler sid sel ≡ none))
        ⊎ ((i : ℕ) × (f : Policy) × (i < 5)
            × (sid ≡ pos i)
            × (get_elem? scheduler_function i ≡ some f)
            × (setscheduler sid sel ≡ some (sid, record { policy = f; sid = sid }))
            × (getscheduler (record { policy = f; sid = sid }) ≡ sid)))

-- `setscheduler` refuses a negative number and one above 5, and sets the policy of a number below
-- 5, which `getscheduler` then returns; at 5, which its guard lets pass, it reads past its table.
pub setscheduler_lem : (sid : ℤ) (sel : Selected) → Sets sid sel
unfolding setscheduler getscheduler
setscheduler_lem (negsuc n) sel = inl (inl (omega arith), ground arith)
setscheduler_lem (pos zero) sel = inr (inr (0, default, omega arith, refl, refl, refl, refl))
setscheduler_lem (pos (suc zero)) sel = inr (inr (1, _, omega arith, refl, refl, refl, refl))
setscheduler_lem (pos (suc (suc zero))) sel = inr (inr (2, _, omega arith, refl, refl, refl, refl))
setscheduler_lem (pos (suc (suc (suc zero)))) sel =
    inr (inr (3, _, omega arith, refl, refl, refl, refl))
setscheduler_lem (pos (suc (suc (suc (suc zero))))) sel =
    inr (inr (4, _, omega arith, refl, refl, refl, refl))
setscheduler_lem (pos (suc (suc (suc (suc (suc zero)))))) sel = inr (inl (refl, refl))
setscheduler_lem (pos (suc (suc (suc (suc (suc (suc n))))))) sel =
    inl (inr (omega arith), ground arith)
