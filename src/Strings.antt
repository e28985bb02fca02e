-- ===== src/Strings.antt =====
-- code/string.c over a memory of bytes. Addresses are numbers, and no string runs over the end of
-- the memory. A `char` that is compared as one is its byte: only equality with another is tested.
pub mod Moves
pub mod Copies
use os_ex.Shared.{
  ℕ, zero, suc, ◌+◌, ◌-◌, ◌%◌, Bool, true, false, ◌&&◌, not, ltb, ◌==◌, if◌then◌else◌, ℤ, pos,
  sub_ℕ, List, [], ◌∷◌,
}

abbrev pub Bytes : Type 0
Bytes = ℕ → ℕ

-- `*a = v`
unfoldable pub poke : Bytes → ℕ → ℕ → Bytes
poke m a v x = if x == a then v else m x

-- `stosb`, or `stosl` of four equal bytes; both store `n` bytes
unfoldable pub memset : ℕ → ℕ → ℕ → Bytes → Bytes
memset dst c zero m = m
memset dst c (suc n) m = memset (dst + 1) c n (poke m dst (c % 256))

unfoldable pub memcmp : ℕ → ℕ → ℕ → Bytes → ℤ
memcmp v1 v2 zero m = pos 0
memcmp v1 v2 (suc n) m =
    let rest = memcmp (v1 + 1) (v2 + 1) n m in if m v1 == m v2 then rest else sub_ℕ (m v1) (m v2)

-- the loop of `memmove` downwards, `n` bytes ending before `d` and `s`
unfoldable pub move_down : ℕ → ℕ → ℕ → Bytes → Bytes
move_down d s zero m = m
move_down d s (suc n) m = move_down d s n (poke m (d + n) (m (s + n)))

pub move_up : ℕ → ℕ → ℕ → Bytes → Bytes
move_up d s zero m = m
move_up d s (suc n) m = move_up (d + 1) (s + 1) n (poke m d (m s))

unfoldable pub memmove : ℕ → ℕ → ℕ → Bytes → Bytes
memmove dst src n m =
    if ltb src dst && ltb dst (src + n) then move_down dst src n m else move_up dst src n m

unfoldable pub strncmp : ℕ → ℕ → ℕ → Bytes → ℤ
strncmp p q zero m = pos 0
strncmp p q (suc n) m =
    let rest = strncmp (p + 1) (q + 1) n m in
    if not (m p == 0) && (m p == m q) then rest else sub_ℕ (m p) (m q)

-- `while(n-- > 0) *s++ = 0`
unfoldable pub pad : ℕ → ℕ → Bytes → Bytes
pad s zero m = m
pad s (suc n) m = pad (s + 1) n (poke m s 0)

unfoldable pub strncpy : ℕ → ℕ → ℕ → Bytes → Bytes
strncpy s t zero m = m
strncpy s t (suc n) m =
    let m' = poke m s (m t) in
    let rest = strncpy (s + 1) (t + 1) n m' in if m t == 0 then pad (s + 1) n m' else rest

-- `safestrcpy` of a positive `n`, one more than the argument here
unfoldable pub safe_copy : ℕ → ℕ → ℕ → Bytes → Bytes
safe_copy s t zero m = poke m s 0
safe_copy s t (suc n) m =
    let m' = poke m s (m t) in
    let rest = safe_copy (s + 1) (t + 1) n m' in if m t == 0 then poke m' (s + 1) 0 else rest

unfoldable pub safestrcpy : ℕ → ℕ → ℕ → Bytes → Bytes
safestrcpy s t zero m = m
safestrcpy s t (suc n) m = safe_copy s t n m

-- the loop of `strlen`, on fuel: none if it is not enough
unfoldable pub strlen_from : ℕ → ℕ → ℕ → Bytes → ℕ
strlen_from zero s n m = n
strlen_from (suc fuel) s n m =
    let rest = strlen_from fuel s (n + 1) m in if m (s + n) == 0 then n else rest

unfoldable pub strlen : ℕ → ℕ → Bytes → ℕ
strlen fuel s m = strlen_from fuel s 0 m
