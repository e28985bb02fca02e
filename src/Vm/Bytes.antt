-- ===== src/Vm/Bytes.antt =====
-- The bytes of a user's memory, and `copyout`, `inituvm` and `copyuvm` of code/vm.c: a byte is a
-- part of the word at its address rounded down to 4, with the least significant byte first.
use native.Mathlib.Decide.{ℕ_discrete}
use os_ex.Shared.{
  split_at, refl, sym, ap, ◌∙◌, ◌⊎◌, inl, some, some-injective, get_elem?, ℕ, zero, suc, ◌+◌, ◌-◌,
  ◌*◌, ◌/◌, ◌%◌, ◌^◌, ◌<◌, ◌≤◌, ◌≡◌, ◌≢◌, arith, All, length, true, false, ◌==◌, if◌then◌else◌,
  Result, ok, panic, ℤ, pos, minus_one, List, [], ◌∷◌,
}
use os_ex.Kalloc.{page_size, Memory, Kmem, store}
use os_ex.Vm.{page_round_down, uva2ka}

abbrev pub byte_of : ℕ → ℕ → ℕ
byte_of w r =
    if r == 0
    then w % 256
    else if r == 1
    then w / 2 ^ 8 % 256
    else if r == 2
    then w / 2 ^ 16 % 256
    else w / 2 ^ 24 % 256

abbrev pub get_byte : Memory → ℕ → ℕ
get_byte m a = byte_of (m (a / 4 * 4)) (a % 4)

abbrev pub with_byte : ℕ → ℕ → ℕ → ℕ
with_byte w r b =
    if r == 0
    then w / 2 ^ 8 * 2 ^ 8 + b
    else if r == 1
    then w / 2 ^ 16 * 2 ^ 16 + b * 2 ^ 8 + w % 2 ^ 8
    else if r == 2
    then w / 2 ^ 24 * 2 ^ 24 + b * 2 ^ 16 + w % 2 ^ 16
    else b * 2 ^ 24 + w % 2 ^ 24

abbrev pub put_byte : Memory → ℕ → ℕ → Memory
put_byte m a b = store m (a / 4 * 4) (with_byte (m (a / 4 * 4)) (a % 4) b)

-- What `memmove(a, p, n)` writes of the `n` bytes at `p`.
unfoldable pub put_bytes : Memory → ℕ → List ℕ → Memory
put_bytes m a [] = m
put_bytes m a (b ∷ bs) = put_bytes (put_byte m a b) (a + 1) bs

-- The `len` bytes at `p` are a list: each round takes the length of a page at most.
unfoldable pub copy_pages : ℕ → ℕ → ℕ → List ℕ → Kmem → Result (ℤ × Kmem)
copy_pages fuel pgdir va [] k = ok (pos 0, k)
copy_pages zero pgdir va (b ∷ bs) k = panic
copy_pages (suc fuel) pgdir va (b ∷ bs) k =
    let va0 = page_round_down va in
    let pa0 = uva2ka pgdir va0 k in
    let (here, rest) = split_at (page_size - (va - va0)) (b ∷ bs) in
    elim (pa0 == 0) [
      | true ↦ ok (minus_one, k)
      | false ↦
          copy_pages fuel pgdir ((va0 + page_size) % 2 ^ 32) rest
            (record k { memory = put_bytes k.memory (pa0 + (va - va0)) here })
    ]

unfoldable pub copyout : ℕ → ℕ → List ℕ → Kmem → Result (ℤ × Kmem)
copyout pgdir va bs k = copy_pages (length bs) pgdir va bs k

with_byte_self : (w r b : ℕ) → r < 4 → b < 256 → byte_of (with_byte w r b) r ≡ b
with_byte_self w r b l h = ground arith

with_byte_other :
    (w r b x : ℕ) → r < 4 → x < 4 → b < 256 → x ≢ r → byte_of (with_byte w r b) x ≡ byte_of w x
with_byte_other w r b x l l' h ne = ground arith

store_self : (m : Memory) (p w a : ℕ) → a ≡ p → store m p w a ≡ w
store_self m p w a e = ground arith

store_other : (m : Memory) (p w a : ℕ) → a ≢ p → store m p w a ≡ m a
store_other m p w a ne = ground arith

put_byte_self : (m : Memory) (a b : ℕ) → b < 256 → get_byte (put_byte m a b) a ≡ b
put_byte_self m a b h =
    let w = with_byte (m (a / 4 * 4)) (a % 4) b in
    ap (λ v. byte_of v (a % 4)) (store_self m (a / 4 * 4) w (a / 4 * 4) refl)
    ∙ with_byte_self (m (a / 4 * 4)) (a % 4) b (omega arith) h

put_byte_other :
    (m : Memory) (a b x : ℕ) → b < 256 → x ≢ a → get_byte (put_byte m a b) x ≡ get_byte m x
put_byte_other m a b x h ne =
    let w = with_byte (m (a / 4 * 4)) (a % 4) b in
    elim (ℕ_discrete (x / 4 * 4) (a / 4 * 4)) [
      | yes same ↦
          ap (λ v. byte_of v (x % 4)) (store_self m (a / 4 * 4) w (x / 4 * 4) same)
          ∙ with_byte_other (m (a / 4 * 4)) (a % 4) b (x % 4) (omega arith) (omega arith) h
              (omega arith)
          ∙ ap (λ p. byte_of (m p) (x % 4)) (sym same)
      | no other ↦ ap (λ v. byte_of v (x % 4)) (store_other m (a / 4 * 4) w (x / 4 * 4) other)
    ]

-- A byte outside of what is written is kept.
pub put_bytes_other :
    (m : Memory) (a : ℕ) (bs : List ℕ) (x : ℕ)
    → All (λ b. b < 256) bs
    → (x < a) ⊎ (a + length bs ≤ x)
    → get_byte (put_bytes m a bs) x ≡ get_byte m x
unfolding put_bytes
put_bytes_other m a [] x h out = refl
put_bytes_other m a (b ∷ bs) x h out =
    put_bytes_other (put_byte m a b) (a + 1) bs x h.1 (ground arith)
    ∙ put_byte_other m a b x h.0 (ground arith)

-- What is written can be read back.
pub put_bytes_here :
    (m : Memory) (a : ℕ) (bs : List ℕ) (i b : ℕ)
    → All (λ b. b < 256) bs
    → get_elem? bs i ≡ some b
    → get_byte (put_bytes m a bs) (a + i) ≡ b
unfolding put_bytes
put_bytes_here m a [] i b h e = cc
put_bytes_here m a (c ∷ bs) zero b h e =
    let at : a + zero ≡ a = omega arith in
    ap (λ x. get_byte (put_bytes (put_byte m a c) (a + 1) bs) x) at
    ∙ put_bytes_other (put_byte m a c) (a + 1) bs a h.1 (inl (omega arith))
    ∙ put_byte_self m a c h.0
    ∙ some-injective c b e
put_bytes_here m a (c ∷ bs) (suc i) b h e =
    let at : a + suc i ≡ a + 1 + i = omega arith in
    ap (λ x. get_byte (put_bytes (put_byte m a c) (a + 1) bs) x) at
    ∙ put_bytes_here (put_byte m a c) (a + 1) bs i b h.1 e

-- Only words of the page are written.
pub put_bytes_page :
    (m : Memory) (u a : ℕ) (bs : List ℕ) (x : ℕ)
    → u % page_size ≡ 0
    → u ≤ a
    → a + length bs ≤ u + page_size
    → x / page_size * page_size ≢ u
    → put_bytes m a bs x ≡ m x
unfolding put_bytes
put_bytes_page m u a [] x al lo hi ne = refl
put_bytes_page m u a (b ∷ bs) x al lo hi ne =
    put_bytes_page (put_byte m a b) u (a + 1) bs x al (omega arith) (omega arith) ne
    ∙ store_other m (a / 4 * 4) (with_byte (m (a / 4 * 4)) (a % 4) b) x (omega arith)
