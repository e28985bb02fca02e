-- ===== src/Spinlock.antt =====
-- code/spinlock.c: the nesting of `pushcli` and `popcli` on a processor, and the spin lock, without
-- the record of the call stack.
pub mod Nesting
use os_ex.Shared.{
  ℕ, Bool, true, false, not, ◌&&◌, ◌==◌, if◌then◌else◌, ℤ, pos, add_int, sub_int, lt_int, eq_int,
  Result, ok, panic, ◌>>=◌, Option, none, some,
}

-- a processor: `ncli` and `intena` of `struct cpu`, and the flag of the machine that lets interrupts in
pub record Cpu : Type 0 where
  pub ncli : ℤ
  pub intena : Bool
  pub interrupts : Bool

unfoldable pub pushcli : Cpu → Cpu
pushcli c = record {
  ncli = add_int c.ncli (pos 1);
  intena = if eq_int c.ncli (pos 0) then c.interrupts else c.intena;
  interrupts = false;
}

unfoldable pub popcli : Cpu → Result Cpu
popcli c =
    let less = sub_int c.ncli (pos 1) in
    if c.interrupts
    then panic
    else if lt_int less (pos 0)
    then panic
    else ok (record c { ncli = less; interrupts = eq_int less (pos 0) && c.intena })

-- `struct spinlock`; a processor is its number
pub record Spinlock : Type 0 where
  pub locked : Bool
  pub cpu : Option ℕ

abbrev pub is_cpu : ℕ → Option ℕ → Bool
is_cpu self none = false
is_cpu self (some c) = c == self

unfoldable pub holding : ℕ → Spinlock → Bool
holding self lk = lk.locked && is_cpu self lk.cpu

-- One try of `acquire`: whether the lock was got; if not, the processor spins on.
unfoldable pub acquire : ℕ → Spinlock → Cpu → Result (Bool × Spinlock × Cpu)
unfolding holding
acquire self lk c =
    let c' = pushcli c in
    if holding self lk
    then panic
    else if lk.locked
    then ok (false, lk, c')
    else ok (true, record { locked = true; cpu = some self }, c')

unfoldable pub release : ℕ → Spinlock → Cpu → Result (Spinlock × Cpu)
unfolding holding
release self lk c =
    if not (holding self lk)
    then panic
    else popcli c >>= λ c'. ok (record { locked = false; cpu = none }, c')
