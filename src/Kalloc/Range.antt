-- ===== src/Kalloc/Range.antt =====
-- `freerange` and `kinit1` of code/kalloc.c: which pages the free list holds at the start.
use os_ex.Shared.{
  ℕ, zero, suc, ◌+◌, ◌-◌, ◌/◌, ◌%◌, ◌≤◌, ◌<◌, ◌≡◌, ◌≢◌, refl, List, [], ◌∷◌, All, Result, ok, panic,
  Returns, arith, Bool-cases, inl, inr, leb,
}
use os_ex.Kalloc.{
  page_size, kernel_base, phys_stop, page_round_up, Kmem, kfree, free_pages, freerange, kinit1,
}
use os_ex.Kalloc.FreeList.{IsPage, IsFree, kfree_lem}

-- The `n` pages from `p` on, pushed one by one on `pages`.
abbrev pub push_pages : ℕ → ℕ → List ℕ → List ℕ
push_pages zero p pages = pages
push_pages (suc n) p pages = push_pages n (p + page_size) (p ∷ pages)

below-ne : (p : ℕ) (pages : List ℕ) → All (λ q. q < p) pages → All (λ q. q ≢ p) pages
below-ne p [] a = tt
below-ne p (q ∷ qs) a = (omega arith, below-ne p qs a.1)

below_mono : (p r : ℕ) (pages : List ℕ) → p ≤ r → All (λ q. q < p) pages → All (λ q. q < r) pages
below_mono p r [] h a = tt
below_mono p r (q ∷ qs) h a = (omega arith, below_mono p r qs h a.1)

kfree-returns :
    (kernel_end v : ℕ) (k : Kmem) {pages : List ℕ}
    → IsPage kernel_end v
    → IsFree kernel_end k pages
    → All (λ q. q ≢ v) pages
    → (k' : Kmem) × (kfree kernel_end v k ≡ ok k') × IsFree kernel_end k' (v ∷ pages)
kfree-returns kernel_end v k {pages} g f d =
    go (kfree kernel_end v k) (kfree_lem kernel_end v k g f d)
  where
    go :
        (r : Result Kmem)
        → Returns r (λ k'. IsFree kernel_end k' (v ∷ pages))
        → (k' : Kmem) × (r ≡ ok k') × IsFree kernel_end k' (v ∷ pages)
    go (ok k') h = (k', refl, h)
    go panic h = absurd h

module _ (kernel_end vend : ℕ) (top : vend ≤ kernel_base + phys_stop) where
  IsPage-at :
      (p : ℕ)
      → p % page_size ≡ 0
      → kernel_end ≤ p
      → kernel_base ≤ p
      → p + page_size ≤ vend
      → IsPage kernel_end p
  IsPage-at p a e b h = record {
    aligned = a;
    above = e;
    below = omega arith;
    nonnull = omega arith;
  }

  free_pages_lem :
      (fuel p : ℕ) (k : Kmem) (pages : List ℕ)
      → p % page_size ≡ 0
      → kernel_end ≤ p
      → kernel_base ≤ p
      → (vend - p) / page_size < fuel
      → All (λ q. q < p) pages
      → IsFree kernel_end k pages
      → Returns
          (free_pages kernel_end fuel p vend k)
          (λ k'. IsFree kernel_end k' (push_pages ((vend - p) / page_size) p pages))
  unfolding free_pages
  free_pages_lem zero p k pages a e b f d free = absurd (omega arith)
  free_pages_lem (suc fuel) p k pages a e b f d free =
      elim (Bool-cases (leb (p + page_size) vend)) [
        | inl more ↦
            let fits : p + page_size ≤ vend = ground arith in
            let count : (vend - p) / page_size ≡ suc ((vend - (p + page_size)) / page_size) =
              omega arith in
            let (k', returned, free') =
              kfree-returns kernel_end p k (IsPage-at p a e b fits) free (below-ne p pages d) in
            rw (more, free_pages, returned, count)
              (free_pages_lem fuel (p + page_size) k' (p ∷ pages) (omega arith) (omega arith)
                (omega arith) (omega arith)
                (omega arith, below_mono p (p + page_size) pages (omega arith) d) free')
        | inr done ↦
            let none_left : (vend - p) / page_size ≡ 0 = ground arith in
            rw (done, free_pages, none_left) free
      ]

-- Let a range start at the end of the kernel or above, and at KERNBASE or above, not after its own end,
-- which is at KERNBASE + PHYSTOP at most. Then `kinit1` of it on an empty allocator returns, and exactly
-- the whole pages of the range are free.
pub kinit1_lem :
    (kernel_end vstart vend : ℕ) (k : Kmem)
    → kernel_end ≤ vstart
    → kernel_base ≤ vstart
    → vstart ≤ vend
    → vend ≤ kernel_base + phys_stop
    → k.freelist ≡ 0
    → let start = page_round_up vstart in
      Returns
        (kinit1 kernel_end vstart vend k)
        (λ k'. IsFree kernel_end k' (push_pages ((vend - start) / page_size) start []))
unfolding kinit1 freerange
kinit1_lem kernel_end vstart vend k e b o t empty =
    free_pages_lem kernel_end vend t (vend / page_size + 1) (page_round_up vstart) _ []
      (omega arith) (omega arith) (omega arith) (omega arith) tt
      (record { chain = empty; distinct = tt; sound = tt })
