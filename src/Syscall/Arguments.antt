-- ===== src/Syscall/Arguments.antt =====
-- What the pointers and strings are that code/syscall.c accepts as arguments.
use os_ex.Shared.{
  ℕ, zero, suc, ◌+◌, ◌-◌, ◌%◌, ◌^◌, ◌<◌, ◌≤◌, ◌≡◌, ◌≢◌, refl, sym, subst, ap, Bool-cases, inl, inr,
  true, ◌||◌, ◌==◌, leb, ltb, lt_int, if◌then◌else◌, ℤ, pos, negsuc, to_bits, IsInt, lt_int-pos,
  pos_part, neg_part, Option, none, some, arith,
}
use os_ex.Strings.{Bytes}
use os_ex.Syscall.{UserSpace, find_nul, fetchstr, argint, argptr, argstr}

-- What `fetchstr` returns for an address.
abbrev pub IsString : UserSpace → ℕ → Option (ℕ × ℕ) → Type 0
IsString u addr none = (i : ℕ) → addr + i < u.sz → u.mem (addr + i) ≢ 0
IsString u addr (some r) =
    (r.0 ≡ addr)
    × (addr + r.1 < u.sz)
    × (u.mem (addr + r.1) ≡ 0)
    × ((i : ℕ) → i < r.1 → u.mem (addr + i) ≢ 0)

-- The loop of `fetchstr` after `len` bytes that do not end the string.
abbrev IsLength : Bytes → ℕ → ℕ → Option ℕ → Type 0
IsLength m p n none = (i : ℕ) → i < n → m (p + i) ≢ 0
IsLength m p n (some len) = (len < n) × (m (p + len) ≡ 0) × ((i : ℕ) → i < len → m (p + i) ≢ 0)

find_nul_lem :
    (n p len : ℕ) (m : Bytes)
    → ((i : ℕ) → i < len → m (p + i) ≢ 0)
    → IsLength m p (len + n) (find_nul n p len m)
unfolding find_nul
find_nul_lem zero p len m h = λ i lt. h i (omega arith)
find_nul_lem (suc n) p len m h = elim (Bool-cases (m (p + len) == 0)) [
  | inl ends ↦ rw ends (omega arith, ground arith, h)
  | inr on ↦ rw on (
      subst (λ k. IsLength m p k (find_nul n p (len + 1) m)) (omega arith)
        (find_nul_lem n p (len + 1) m (λ i lt. elim (Bool-cases (ltb i len)) [
          | inl before ↦ h i (ground arith)
          | inr here ↦
              let e : i ≡ len = ground arith in subst (λ k. m (p + k) ≢ 0) (sym e) (ground arith)
        ])))
]

found_lem :
    (u : UserSpace) (addr : ℕ) (r : Option ℕ)
    → addr < u.sz
    → IsLength u.mem addr (u.sz - addr) r
    → IsString u addr
        (elim r as (λ x. Option (ℕ × ℕ)) [ none ↦ none | some len ↦ some (addr, len) ])
found_lem u addr none lt h = λ i inside. h i (omega arith)
found_lem u addr (some len) lt h = (refl, omega (arith, h.0), h.1, h.2)

fetchstr_lem : (addr : ℕ) (u : UserSpace) → IsString u addr (fetchstr addr u)
unfolding fetchstr
fetchstr_lem addr u = elim (Bool-cases (leb u.sz addr)) [
  | inl out ↦ rw out (λ i inside. absurd (ground arith))
  | inr inside ↦ rw inside (
      let n = u.sz - addr in
      found_lem u addr (find_nul n addr 0 u.mem) (ground arith) (
        subst (λ k. IsLength u.mem addr k (find_nul n addr 0 u.mem)) (omega arith)
          (find_nul_lem n addr 0 u.mem (λ i lt. absurd (omega arith)))))
]

-- What `argptr` returns for an address `p`: a block of `size` bytes there that begins in the process and does
-- not run over its end, or nothing, if there is no such block.
abbrev IsBlock : UserSpace → ℤ → ℕ → Option ℕ → Type 0
IsBlock u size p none = (k : ℕ) → size ≡ pos k → p < u.sz → u.sz < p + k
IsBlock u size p (some q) = (q ≡ p) × (k : ℕ) × (size ≡ pos k) × (p < u.sz) × (p + k ≤ u.sz)

-- The same for the argument, which may not have been fetched.
abbrev pub IsPointer : UserSpace → ℤ → Option ℤ → Option ℕ → Type 0
IsPointer u size none r = r ≡ none
IsPointer u size (some i) r = IsBlock u size (to_bits i) r

block_lem :
    (u : UserSpace) (size : ℤ) (p : ℕ)
    → u.sz ≤ 2 ^ 31
    → IsInt size
    → IsBlock u size p (
        if lt_int size (pos 0) || leb u.sz p || ltb u.sz ((p + to_bits size) % 2 ^ 32)
        then none
        else some p)
block_lem u (negsuc n) p small is_int =
    let negative : lt_int (negsuc n) (pos 0) ≡ true = ground arith in
    rw negative (λ k e in_space. absurd (omega (arith, ap (λ x. neg_part x) e)))
block_lem u (pos k) p small is_int =
    let not_negative = lt_int-pos k in
    let short : k % 2 ^ 32 ≡ k = omega (arith, is_int.0) in
    rw (not_negative, short)
      (elim (Bool-cases (leb u.sz p || ltb u.sz ((p + k) % 2 ^ 32))) [
        | inl refused ↦ rw refused (λ k' e in_space.
            let same : k ≡ k' = ap (λ x. pos_part x) e in ground (arith, is_int.0, refused))
        | inr accepted ↦
            rw accepted
              (refl, k, refl, ground (arith, is_int.0), ground (arith, is_int.0, accepted))
      ])

fetched_lem :
    (n : ℕ) (size : ℤ) (u : UserSpace) (arg : Option ℤ)
    → argint n u ≡ arg
    → u.sz ≤ 2 ^ 31
    → IsInt size
    → IsPointer u size arg (argptr n size u)
unfolding argptr
fetched_lem n size u none e small is_int = rw (e, argptr) refl
fetched_lem n size u (some i) e small is_int =
    rw (e, argptr) (block_lem u size (to_bits i) small is_int)

-- In a process of at most 2 GB, `argptr` returns the argument as an address if a block of `size` bytes there
-- begins in the process and does not run over its end, and `size` is not negative. Otherwise, and if
-- `argint` cannot fetch the argument, it fails: the sum does not wrap around.
pub argptr_lem :
    (n : ℕ) (size : ℤ) (u : UserSpace)
    → u.sz ≤ 2 ^ 31
    → IsInt size
    → IsPointer u size (argint n u) (argptr n size u)
argptr_lem n size u small is_int = fetched_lem n size u (argint n u) refl small is_int

-- The same for a string.
abbrev pub IsArgument : UserSpace → Option ℤ → Option (ℕ × ℕ) → Type 0
IsArgument u none r = r ≡ none
IsArgument u (some i) r = IsString u (to_bits i) r

string_lem :
    (n : ℕ) (u : UserSpace) (arg : Option ℤ) → argint n u ≡ arg → IsArgument u arg (argstr n u)
unfolding argstr
string_lem n u none e = rw (e, argstr) refl
string_lem n u (some i) e = rw (e, argstr) (fetchstr_lem (to_bits i) u)

-- `argstr` returns the argument as an address and the length of the string there, which ends before
-- `sz`: the byte behind it is 0, and no byte of it is. It fails if `argint` cannot fetch the argument,
-- or no byte from the address up to `sz` is 0.
pub argstr_lem : (n : ℕ) (u : UserSpace) → IsArgument u (argint n u) (argstr n u)
argstr_lem n u = string_lem n u (argint n u) refl
