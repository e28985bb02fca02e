-- ===== src/Paths.antt =====
-- The path names of code/fs.c, over the memory of bytes of Strings. No string runs over the end of
-- the memory. Loops along a path take fuel.
pub mod Elements
use os_ex.Shared.{
  ℕ, zero, suc, ◌+◌, ◌-◌, Bool, true, false, ◌&&◌, not, ◌==◌, leb, if◌then◌else◌, ℤ, Option, none,
  some,
}
use os_ex.Strings.{Bytes, poke, memmove, strncmp}

abbrev pub dirsiz : ℕ
dirsiz = 14

unfoldable pub namecmp : ℕ → ℕ → Bytes → ℤ
namecmp s t m = strncmp s t dirsiz m

-- `while(test(*path)) path++`
pub skip_while : (ℕ → Bool) → ℕ → ℕ → Bytes → ℕ
skip_while t zero path m = path
skip_while t (suc fuel) path m =
    let rest = skip_while t fuel (path + 1) m in if t (m path) then rest else path

-- '/' is 47
abbrev pub is_slash : ℕ → Bool
is_slash c = c == 47

abbrev pub is_name : ℕ → Bool
is_name c = not (c == 47) && not (c == 0)

-- the element at `s` of length `len` to `name`
pub put_name : ℕ → ℕ → ℕ → Bytes → Bytes
put_name name s len m =
    if leb dirsiz len then memmove name s dirsiz m else poke (memmove name s len m) (name + len) 0

-- `skipelem` with the element found between `s` and `end`
pub take_element : ℕ → ℕ → ℕ → ℕ → Bytes → Option ℕ × Bytes
take_element fuel s end name m =
    let m' = put_name name s (end - s) m in
    if m s == 0 then (none, m) else (some (skip_while is_slash fuel end m'), m')

-- `skipelem`: the path behind the first element, or none, and the memory; `name` is outside the path
pub skipelem : ℕ → ℕ → ℕ → Bytes → Option ℕ × Bytes
skipelem fuel path name m =
    let s = skip_while is_slash fuel path m in
    take_element fuel s (skip_while is_name fuel s m) name m
