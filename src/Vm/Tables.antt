-- ===== src/Vm/Tables.antt =====
-- The translation of addresses that a page table of code/vm.c stands for, and the spaces that are
-- well formed.

use os_ex.Shared.{
  ℕ, ◌*◌, ◌/◌, ◌%◌, ◌^◌, ◌<◌, ◌≡◌, ◌≢◌, refl, sym, ap, ◌∙◌, Bool, true, false, if◌then◌else◌, List,
  [], ◌∷◌, All, arith, inl, inr, Bool-cases,
}
use os_ex.Kalloc.{page_size, Memory, Kmem}
use os_ex.Kalloc.FreeList.{IsFree, Chain}
use os_ex.Vm.{p2v, pdx, pte_addr, is_present, pde_at, pte_in}

-- there is no table.
abbrev pub table_of : Memory → ℕ → ℕ → ℕ
table_of m pgdir va = p2v (pte_addr (m (pde_at pgdir va)))

abbrev pub has_table : Memory → ℕ → ℕ → Bool
has_table m pgdir va = is_present (m (pde_at pgdir va))

abbrev pub pte_under : Memory → ℕ → ℕ → ℕ
pte_under m e va = if is_present e then m (pte_in e va) else 0

abbrev pub pte_of : Memory → ℕ → ℕ → ℕ
pte_of m pgdir va = pte_under m (m (pde_at pgdir va)) va

pub pte_under_present :
    (m : Memory) (e va : ℕ) → is_present e ≡ true → pte_under m e va ≡ m (pte_in e va)
pte_under_present m e va h = rw h refl

pub pte_under_absent : (m : Memory) (e va : ℕ) → is_present e ≡ false → pte_under m e va ≡ 0
pte_under_absent m e va h = rw h refl

-- Two memories that agree on a table's entry agree on what is read under it.
pub pte_under_same :
    (m m' : Memory) (e va : ℕ)
    → (is_present e ≡ true → m' (pte_in e va) ≡ m (pte_in e va))
    → pte_under m' e va ≡ pte_under m e va
pte_under_same m m' e va h = elim (Bool-cases (is_present e)) [
  | inl p ↦ pte_under_present m' e va p ∙ h p ∙ sym (pte_under_present m e va p)
  | inr q ↦ pte_under_absent m' e va q ∙ sym (pte_under_absent m e va q)
]

-- A page that is neither the directory nor free.
abbrev pub IsOwned : ℕ → List ℕ → ℕ → Type 0
IsOwned pgdir pages t = (t ≢ 0) × (t ≢ pgdir) × All (λ q. q ≢ t) pages

-- The directory and its tables are pages of their own, and none of them is free.
pub record IsSpace (kernel_end pgdir : ℕ) (k : Kmem) (pages : List ℕ) : Type 0 where
  pub free : IsFree kernel_end k pages
  pub small : All (λ q. q < 2 ^ 32) pages
  pub aligned : pgdir % page_size ≡ 0
  pub own : All (λ q. q ≢ pgdir) pages
  pub tables :
      (va : ℕ)
      → has_table k.memory pgdir va ≡ true
      → IsOwned pgdir pages (table_of k.memory pgdir va)
  pub apart :
      (va va' : ℕ)
      → has_table k.memory pgdir va ≡ true
      → has_table k.memory pgdir va' ≡ true
      → pdx va ≢ pdx va'
      → table_of k.memory pgdir va ≢ table_of k.memory pgdir va'

-- The page of an address.
abbrev pub page_of : ℕ → ℕ
page_of a = a / page_size * page_size

pub page_of-pde : (pgdir va : ℕ) → pgdir % page_size ≡ 0 → page_of (pde_at pgdir va) ≡ pgdir
page_of-pde pgdir va h = omega arith

pub page_of-pte : (e va : ℕ) → page_of (pte_in e va) ≡ p2v (pte_addr e)
page_of-pte e va = omega arith

pub pde_at-injective : (pgdir va va' : ℕ) → pdx va ≢ pdx va' → pde_at pgdir va ≢ pde_at pgdir va'
pde_at-injective pgdir va va' h = omega arith

pub page_of_ne : (a b : ℕ) → page_of a ≢ page_of b → a ≢ b
page_of_ne a b h e = h (ap (λ x. page_of x) e)

-- A list runs through words that are kept as it did before.
pub Chain-kept :
    (m m' : Memory) (p : ℕ) (pages : List ℕ)
    → All (λ q. m' q ≡ m q) pages
    → Chain m p pages
    → Chain m' p pages
Chain-kept m m' p [] a c = c
Chain-kept m m' p (q ∷ qs) a c = (c.0, c.1, rw (a.0) (Chain-kept m m' (m q) qs a.1 c.2))
