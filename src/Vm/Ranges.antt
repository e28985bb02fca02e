-- ===== src/Vm/Ranges.antt =====
-- Ranges of pages that `mappages` of code/vm.c maps, and those it leaves as they were.
use os_ex.Shared.{
  ℕ, zero, suc, ◌+◌, ◌*◌, ◌%◌, ◌^◌, ◌<◌, ◌≤◌, ◌≡◌, ap, ◌∙◌, bit_or, false, List, [], ◌++◌, arith,
  ◌⊎◌, ℤ, pos, minus_one,
}
use os_ex.Kalloc.{page_size, Memory, Kmem}
use os_ex.Vm.{pte_p, is_present}
use os_ex.Vm.Tables.{pte_of, IsSpace}
use os_ex.Vm.Entry.{indices_differ, KeepsOthers}

-- Every page but those of a range is translated as before.
abbrev pub AgreesOutside : ℕ → ℕ → ℕ → Memory → Memory → Type 0
AgreesOutside pgdir n a m m' =
    (va : ℕ)
    → va < 2 ^ 32
    → (va < a) ⊎ (a + n * page_size ≤ va)
    → pte_of m' pgdir va ≡ pte_of m pgdir va

-- The `n` pages from `a` on are mapped to those from `pa` on.
abbrev pub IsMapped : ℕ → ℕ → ℕ → ℕ → ℕ → Memory → Type 0
IsMapped pgdir perm n a pa m =
    (i : ℕ)
    → i < n
    → pte_of m pgdir (a + i * page_size) ≡ bit_or (bit_or (pa + i * page_size) perm) pte_p

-- What mapping `n` pages from `a` on leaves: a page table that is sound, the pages taken from the
-- allocator and those left, and either -1 and no page left, or 0 and each page mapped.
abbrev pub Mapped : ℕ → ℕ → ℕ → ℕ → ℕ → ℕ → List ℕ → Kmem → ℤ × Kmem → Type 0
Mapped kernel_end pgdir perm n a pa pages k (r, k') =
    (used : List ℕ) × (left : List ℕ) × (pages ≡ used ++ left)
    × IsSpace kernel_end pgdir k' left
    × AgreesOutside pgdir n a k.memory k'.memory
    × (((r ≡ minus_one) × (left ≡ [])) ⊎ ((r ≡ pos 0) × IsMapped pgdir perm n a pa k'.memory))

-- None of the `n` pages from `a` on is mapped.
abbrev pub IsUnmapped : ℕ → ℕ → ℕ → Memory → Type 0
IsUnmapped pgdir n a m = (i : ℕ) → i < n → is_present (pte_of m pgdir (a + i * page_size)) ≡ false

-- The entries of the first page and of the others.
pub IsMapped-cons :
    (pgdir perm n a pa : ℕ) (m : Memory)
    → pte_of m pgdir a ≡ bit_or (bit_or pa perm) pte_p
    → IsMapped pgdir perm n (a + page_size) (pa + page_size) m
    → IsMapped pgdir perm (suc n) a pa m
IsMapped-cons pgdir perm n a pa m here each zero lt =
    let at : a + zero * page_size ≡ a = omega arith in
    let to : pa ≡ pa + zero * page_size = omega arith in
    ap (λ x. pte_of m pgdir x) at ∙ here ∙ ap (λ x. bit_or (bit_or x perm) pte_p) to
IsMapped-cons pgdir perm n a pa m here each (suc i) lt =
    let at : a + suc i * page_size ≡ a + page_size + i * page_size = omega arith in
    let to : pa + page_size + i * page_size ≡ pa + suc i * page_size = omega arith in
    ap (λ x. pte_of m pgdir x) at ∙ each i (omega arith) ∙ ap (λ x. bit_or (bit_or x perm) pte_p) to

-- The pages after the first are still unmapped.
pub rest-IsUnmapped :
    (pgdir n a : ℕ) (k k' : Kmem)
    → a % page_size ≡ 0
    → a + suc n * page_size ≤ 2 ^ 32
    → KeepsOthers pgdir a k.memory k'.memory
    → IsUnmapped pgdir (suc n) a k.memory
    → IsUnmapped pgdir n (a + page_size) k'.memory
rest-IsUnmapped pgdir n a k k' al top kept un i lt =
    let at : a + page_size + i * page_size ≡ a + suc i * page_size = omega arith in
    ap (λ x. is_present (pte_of k'.memory pgdir x)) at
    ∙ ap (λ e. is_present e)
        (kept (a + suc i * page_size) (
          indices_differ a (a + suc i * page_size) (omega arith) (omega arith)
            (λ e. absurd (omega arith))))
    ∙ un (suc i) (omega arith)
