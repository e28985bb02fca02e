-- ===== src/Syscall.antt =====
-- code/syscall.c: how a system call fetches its arguments from the stack and the memory of the process
-- that has made it. Addresses are 32 bits wide and sums of them wrap.
pub mod Arguments
use os_ex.Shared.{
  ℕ, zero, suc, ◌+◌, ◌-◌, ◌*◌, ◌%◌, ◌^◌, Bool, true, false, ◌||◌, ◌==◌, leb, ltb, lt_int,
  if◌then◌else◌, ℤ, pos, of_bits, to_bits, Option, none, some,
}
use os_ex.Strings.{Bytes}

-- What is read of the process and its trap frame: `sz`, the user's `esp`, and its memory.
pub record UserSpace : Type 0 where
  pub sz : ℕ
  pub esp : ℕ
  pub mem : Bytes

-- `*(int*)(addr)`
abbrev pub int_at : ℕ → Bytes → ℤ
int_at addr m =
    of_bits (m addr + 256 * m (addr + 1) + 65536 * m (addr + 2) + 16777216 * m (addr + 3))

-- The number, or none for -1.
unfoldable pub fetchint : ℕ → UserSpace → Option ℤ
fetchint addr u =
    if leb u.sz addr || ltb u.sz ((addr + 4) % 2 ^ 32) then none else some (int_at addr u.mem)

-- `for(s = *pp; s < ep; s++)`, by the number of bytes left: the length of the string, none if it
-- does not end.
unfoldable pub find_nul : ℕ → ℕ → ℕ → Bytes → Option ℕ
find_nul zero p len m = none
find_nul (suc n) p len m =
    let rest = find_nul n p (len + 1) m in if m (p + len) == 0 then some len else rest

unfoldable pub fetchstr : ℕ → UserSpace → Option (ℕ × ℕ)
fetchstr addr u =
    if leb u.sz addr
    then none
    else elim (find_nul (u.sz - addr) addr 0 u.mem) [ none ↦ none | some len ↦ some (addr, len) ]

unfoldable pub argint : ℕ → UserSpace → Option ℤ
argint n u = fetchint ((u.esp + 4 + 4 * n) % 2 ^ 32) u

unfoldable pub argptr : ℕ → ℤ → UserSpace → Option ℕ
argptr n size u = elim (argint n u) [
  | none ↦ none
  | some i ↦
      if lt_int size (pos 0)
        || leb u.sz (to_bits i)
        || ltb u.sz ((to_bits i + to_bits size) % 2 ^ 32)
      then none
      else some (to_bits i)
]

-- The pointer and the length of the string.
unfoldable pub argstr : ℕ → UserSpace → Option (ℕ × ℕ)
argstr n u = elim (argint n u) [ none ↦ none | some addr ↦ fetchstr (to_bits addr) u ]
