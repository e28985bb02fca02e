-- ===== src/Sem/Calls.antt =====
-- What a call of the semaphores of code/proc.c returns, and what it changes.
use os_ex.Shared.{
  ℕ, zero, suc, ◌≡◌, refl, ◌⊎◌, ◌≢◌, ◌<◌, inl, inr, true, false, List, [], ◌∷◌, All, get_elem?,
  none, some, arith, Bool-cases, ◌∙◌, ap, ℤ, pos, minus_one, modify, lt_int, ◌≤ℤ◌, IsInt,
  add_int-sub_int, set, Option-cases, sym, some-injective, pos_part, All_get_elem?, add_int,
  sub_int,
}
use mathlib.Core.Path.{subst₂, ap₂}
use os_ex.Proc.{wakeup, sleep_begin}
use os_ex.Proc.Wait.{Outcome, returned, asleep}
use os_ex.Sem.{Sema, Sys, sema_chan, out_of_range, settle, sem_wait, sem_signal, sem_wait_round}

-- The semaphore that a number names is in use, and is this one.
abbrev pub InUse : ℕ → Sema → List Sema → Type 0
InUse i s semas = (i < 32) × (get_elem? semas i ≡ some s) × (s.active ≡ true)

-- The number names no semaphore in use.
abbrev pub NotInUse : ℤ → List Sema → Type 0
NotInUse sem semas = (i : ℕ) (s : Sema) → sem ≡ pos i → ¬ InUse i s semas

set_same : {A : Type 0} (xs : List A) (i : ℕ) (x : A) → get_elem? xs i ≡ some x → set xs i x ≡ xs
set_same [] i x e = refl
set_same (y ∷ xs) zero x e = ap (λ r. r ∷ xs) (sym (some-injective y x e))
set_same (y ∷ xs) (suc i) x e = ap (λ r. y ∷ r) (set_same xs i x e)

-- What the number of a call names.
abbrev pub Named : ℤ → List Sema → Type 0
Named sem semas =
    (out_of_range sem ≡ true)
    ⊎ (((out_of_range sem ≡ false) × (get_elem? semas (pos_part sem) ≡ none))
        ⊎ ((s : Sema) × (out_of_range sem ≡ false) × (get_elem? semas (pos_part sem) ≡ some s)))

pub sema-cases : (sem : ℤ) (semas : List Sema) → Named sem semas
sema-cases sem semas = elim (Bool-cases (out_of_range sem)) [
  | inl out ↦ inl out
  | inr within ↦ elim (Option-cases (get_elem? semas (pos_part sem))) [
    | inl e ↦ inr (inl (within, e))
    | inr (s, e) ↦ inr (inr (s, within, e))
  ]
]

NotInUse-out : (sem : ℤ) (semas : List Sema) → out_of_range sem ≡ true → NotInUse sem semas
NotInUse-out sem semas out i s e u = ground arith

NotInUse-none :
    (sem : ℤ) (semas : List Sema) → get_elem? semas (pos_part sem) ≡ none → NotInUse sem semas
NotInUse-none sem semas none_there i s e u = cc (ap (λ z. get_elem? semas (pos_part z)) e)

NotInUse-inactive :
    (sem : ℤ) (semas : List Sema) (r : Sema)
    → get_elem? semas (pos_part sem) ≡ some r
    → r.active ≡ false
    → NotInUse sem semas
NotInUse-inactive sem semas r there off i s e u =
    let same : r ≡ s =
      some-injective r s (sym there ∙ ap (λ z. get_elem? semas (pos_part z)) e ∙ u.1) in
    cc (ap (λ (z : Sema). z.active) same)

within-pos : (sem : ℤ) → out_of_range sem ≡ false → (sem ≡ pos (pos_part sem)) × (pos_part sem < 32)
within-pos sem e = ground arith

-- A number names at most one semaphore in use.
pub InUse-unique :
    {sem : ℤ} (semas : List Sema) {i j : ℕ} {r s : Sema}
    → sem ≡ pos i
    → InUse i r semas
    → sem ≡ pos j
    → InUse j s semas
    → (i ≡ j) × (r ≡ s)
InUse-unique semas {i} {j} {r} {s} e u e' u' =
    let same : i ≡ j = ground arith in
    (same, some-injective r s (sym u.1 ∙ ap (get_elem? semas) same ∙ u'.1))

module _ (sema_base self : ℕ) (sem count : ℤ) (sys : Sys) where
  abbrev index : ℕ
  index = pos_part sem

  -- How a round of `sem_wait` ends on a semaphore in use.
  abbrev pub RoundEnds : ℕ → Sema → Outcome ℤ × Sys → Type 0
  RoundEnds i s r =
      ((s.value ≤ℤ count)
        × (s.value ≢ count)
        × (r ≡ (asleep, record sys { procs = sleep_begin self (sema_chan sema_base i) sys.procs })))
      ⊎ ((count ≤ℤ s.value)
          × (r ≡ (
            returned (pos 0),
            record sys {
              procs = wakeup (sema_chan sema_base i) (modify sys.procs self (settle i count));
            },
          )))

  sem_wait_round_lem :
      (i : ℕ) (s : Sema)
      → IsInt count
      → IsInt s.value
      → get_elem? sys.semas i ≡ some s
      → RoundEnds i s (sem_wait_round sema_base self i s count sys)
  unfolding sem_wait_round
  sem_wait_round_lem i s ci si e = elim (Bool-cases (lt_int s.value count)) [
    | inl less ↦ inl (ground arith, ground arith, rw less)
    | inr enough ↦ inr (ground arith, rw (enough, kept))
  ]
    where
      kept :
          set sys.semas i (record s { value = add_int (sub_int s.value count) count }) ≡ sys.semas
      kept = rw (add_int-sub_int s.value count si ci) (set_same sys.semas i s e)

  -- `sem_wait` on a number that names no semaphore in use returns -1 and changes nothing. Otherwise
  -- it sleeps on the semaphore if the value is below the count, and else returns 0; it then wakes
  -- the sleepers and settles the account of the process, but takes nothing: in every case all
  -- semaphores are as they were before the call.
  pub sem_wait_lem :
      IsInt count
      → All (λ s. IsInt s.value) sys.semas
      → ((sem_wait sema_base self sem count sys ≡ (returned minus_one, sys))
          × NotInUse sem sys.semas)
        ⊎ ((i : ℕ) × (s : Sema) × (sem ≡ pos i)
            × InUse i s sys.semas
            × RoundEnds i s (sem_wait sema_base self sem count sys))
  unfolding sem_wait
  sem_wait_lem ci si = elim (sema-cases sem sys.semas) [
    | inl out ↦ inl (rw out, NotInUse-out sem sys.semas out)
    | inr (inl (within, e)) ↦ inl (rw (within, e), NotInUse-none sem sys.semas e)
    | inr (inr (s, within, e)) ↦ elim (Bool-cases s.active) [
      | inr off ↦ inl (rw (within, e, off), NotInUse-inactive sem sys.semas s e off)
      | inl on ↦ inr (
        index,
        s,
        (within-pos sem within).0,
        ((within-pos sem within).1, e, on),
        rw (within, e)
            (simp on (sem_wait_round_lem index s ci (All_get_elem? _ sys.semas index s si e) e)),
      )
    ]
  ]

  -- `sem_signal` on a number that names no semaphore in use returns -1 and changes nothing.
  -- Otherwise it returns 0, adds the count to the value and wakes all sleepers on the semaphore.
  sem_signal_lem :
      ((sem_signal sema_base sem count sys ≡ (minus_one, sys)) × NotInUse sem sys.semas)
      ⊎ ((i : ℕ) × (s : Sema) × (sem ≡ pos i)
          × InUse i s sys.semas
          × (sem_signal sema_base sem count sys ≡ (
            pos 0,
            record {
              semas = set sys.semas i (record s { value = add_int s.value count });
              procs = wakeup (sema_chan sema_base i) sys.procs;
            },
          )))
  unfolding sem_signal
  sem_signal_lem = elim (sema-cases sem sys.semas) [
    | inl out ↦ inl (rw out, NotInUse-out sem sys.semas out)
    | inr (inl (within, e)) ↦ inl (rw (within, e), NotInUse-none sem sys.semas e)
    | inr (inr (s, within, e)) ↦ elim (Bool-cases s.active) [
      | inr off ↦ inl (rw (within, e, off), NotInUse-inactive sem sys.semas s e off)
      | inl on ↦ inr (
        index,
        s,
        (within-pos sem within).0,
        ((within-pos sem within).1, e, on),
        rw (within, e, on),
      )
    ]
  ]

  -- The two calls on a semaphore in use.
  pub sem_wait-InUse :
      (i : ℕ) (s : Sema)
      → IsInt count
      → All (λ r. IsInt r.value) sys.semas
      → sem ≡ pos i
      → InUse i s sys.semas
      → RoundEnds i s (sem_wait sema_base self sem count sys)
  sem_wait-InUse i s ci si e u = elim (sem_wait_lem ci si) [
    | inl (_, free) ↦ absurd (free i s e u)
    | inr (j, r, e', u', ends) ↦
        let (at, same) = InUse-unique sys.semas e' u' e u in
        subst₂ (λ x y. RoundEnds x y (sem_wait sema_base self sem count sys)) at same ends
  ]

  pub sem_signal-InUse :
      (i : ℕ) (s : Sema)
      → sem ≡ pos i
      → InUse i s sys.semas
      → sem_signal sema_base sem count sys ≡ (
        pos 0,
        record {
          semas = set sys.semas i (record s { value = add_int s.value count });
          procs = wakeup (sema_chan sema_base i) sys.procs;
        },
      )
  sem_signal-InUse i s e u = elim sem_signal_lem [
    | inl (_, free) ↦ absurd (free i s e u)
    | inr (j, r, e', u', result) ↦
        let (at, same) = InUse-unique sys.semas e' u' e u in
        result
        ∙ ap₂
            (λ x (y : Sema). (
              pos 0,
              record {
                semas = set sys.semas x (record y { value = add_int y.value count });
                procs = wakeup (sema_chan sema_base x) sys.procs;
              },
            ))
            at same
  ]
