-- ===== src/Sched.antt =====
-- The scheduler of code/proc.c and its policies of code/sdh.h. The choice is made under
-- `ptable.lock` and `schedulerlock`, so it is a step; the context switch itself is not modelled.
pub mod Policies
pub mod Choice
use Prim.Native.Nat.{bit_and, bit_xor}
use os_ex.Shared.{
  ℕ, zero, suc, ◌+◌, ◌-◌, ◌*◌, ◌/◌, ◌%◌, ◌^◌, Bool, true, false, ◌||◌, ltb, lt_int, if◌then◌else◌,
  ℤ, pos, negsuc, pos_part, neg_part, minus_one, of_bits, List, [], ◌∷◌, modify, get_elem?, Option,
  none, some,
}
use os_ex.Proc.{Proc, Procs, nproc, is_runnable, running}

-- The static variables of `random`, as 32-bit patterns.
pub record Seeds : Type 0 where
  pub z1 : ℕ
  pub z2 : ℕ
  pub z3 : ℕ
  pub z4 : ℕ

-- `x << k` and `x >> k` on the patterns of an `int`; the latter keeps the sign.
abbrev pub shl : ℕ → ℕ → ℕ
shl x k = x * 2 ^ k % 2 ^ 32

abbrev pub sar : ℕ → ℕ → ℕ
sar x k = if ltb x (2 ^ 31) then x / 2 ^ k else (x + 2 ^ 32 * (2 ^ k - 1)) / 2 ^ k

-- `b = ((z << a) ^ z) >> r; z = ((z & mask) << s) ^ b;`
pub lfsr : ℕ → ℕ → ℕ → ℕ → ℕ → ℕ
lfsr a r mask s z =
    let b = sar (bit_xor (shl z a) z) r in bit_xor (shl (bit_and z mask) s) b % 2 ^ 32

-- `a % m` of C, for `m > 0`: the sign is that of `a`. And `a * -1`.
abbrev pub neg_int : ℕ → ℤ
neg_int zero = pos 0
neg_int (suc n) = negsuc n

abbrev pub rem_int : ℤ → ℕ → ℤ
rem_int (pos n) m = pos (n % m)
rem_int (negsuc n) m = neg_int (suc n % m)

abbrev pub times_minus_one : ℤ → ℤ
times_minus_one (pos n) = neg_int n
times_minus_one (negsuc n) = pos (suc n)

abbrev pub next_seeds : Seeds → Seeds
next_seeds s = record {
  z1 = lfsr 6 13 4294967294 18 s.z1;
  z2 = lfsr 2 27 4294967288 2 s.z2;
  z3 = lfsr 13 21 4294967280 7 s.z3;
  z4 = lfsr 3 12 4294967168 13 s.z4;
}

unfoldable pub random : ℤ → Seeds → ℤ × Seeds
unfolding lfsr
random max s =
    if lt_int (pos 0) max
    then (let s' = next_seeds s in
        let rand =
          rem_int (of_bits (bit_xor (bit_xor (bit_xor s'.z1 s'.z2) s'.z3) s'.z4 % 2 ^ 32))
            (pos_part max) in
        (if lt_int rand (pos 0) then times_minus_one rand else rand, s'))
    else (pos 1, s)

abbrev pub runnable_at : Procs → ℕ → Bool
runnable_at procs j = elim (get_elem? procs j) [ none ↦ false | some p ↦ is_runnable p.state ]

-- the loop of `defaultScheduler`, `n` rounds from `i` on
pub search_from : ℕ → ℕ → ℕ → Procs → Option ℕ
search_from rnd zero i procs = none
search_from rnd (suc n) i procs =
    let rest = search_from rnd n (suc i) procs in
    if runnable_at procs ((rnd + i) % nproc) then some ((rnd + i) % nproc) else rest

pub default_scheduler : Procs → Seeds → Option ℕ × Seeds
default_scheduler procs s =
    let (rnd, s') = random (pos nproc) s in (search_from (pos_part rnd) nproc 0 procs, s')

-- the functions of `schedulerFunction`, in order
pub data Policy : Type 0 where
  default priority fcfs rr sml : Policy

abbrev pub scheduler_function : List Policy
scheduler_function = default ∷ priority ∷ fcfs ∷ rr ∷ sml ∷ []

-- A call through `ready_process`. Every policy but the first is a function without a `return`: what
-- it returns is undefined, `none`.
pub ready_process : Policy → Procs → Seeds → Option (Option ℕ × Seeds)
ready_process default procs s = some (default_scheduler procs s)
ready_process _ procs s = none

-- One round of `scheduler`: the process that it switches to, which is then RUNNING.
pub schedule : Policy → Procs → Seeds → Option (Option ℕ × Procs × Seeds)
schedule policy procs s = elim (ready_process policy procs s) [
  | none ↦ none
  | some (none, s') ↦ some (none, procs, s')
  | some (some i, s') ↦ some (some i, modify procs i (λ p. record p { state = running }), s')
]

-- `ready_process` and `schedSelected`
pub record Selected : Type 0 where
  pub policy : Policy
  pub sid : ℤ

pub getscheduler : Selected → ℤ
getscheduler sel = sel.sid

-- `max` is the number of names; a read past the end of `schedulerFunction` is undefined, `none`.
pub setscheduler : ℤ → Selected → Option (ℤ × Selected)
setscheduler sid sel =
    if lt_int sid (pos 0) || lt_int (pos 5) sid
    then some (minus_one, sel)
    else elim (get_elem? scheduler_function (pos_part sid)) [
      | none ↦ none
      | some f ↦ some (sid, record { policy = f; sid = sid })
    ]
