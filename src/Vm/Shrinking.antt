-- ===== src/Vm/Shrinking.antt =====
-- The rounds of `deallocuvm` of code/vm.c.
use os_ex.Shared.{
  ℕ, zero, suc, ◌+◌, ◌-◌, ◌/◌, ◌%◌, ◌^◌, ◌<◌, ◌≤◌, ◌≡◌, refl, ap, ◌∙◌, ◌⊎◌, Bool, true, false,
  if◌then◌else◌, ◌==◌, ltb, leb, arith, inl, inr, Bool-cases, Result, ok, panic,
}
use os_ex.Kalloc.{page_size, kernel_base, page_round_up, Kmem}
use os_ex.Vm.{walkpgdir}
use os_ex.Vm.Space.{last_page, free_entry, free_page, dealloc_pages, deallocuvm}

-- A round ends at the next table or at the next page.
next_address :
    (last a a' : ℕ) (k k' : Kmem) (c : Bool) (r : Result Kmem)
    → (if c then ok ((last + page_size) % 2 ^ 32, k) else (elim r as (λ x. Result (ℕ × Kmem)) [
      | ok k'' ↦ ok ((a + page_size) % 2 ^ 32, k'')
      | panic ↦ panic
    ]))
      ≡ ok (a', k')
    → (a' ≡ (last + page_size) % 2 ^ 32) ⊎ (a' ≡ (a + page_size) % 2 ^ 32)
next_address last a a' k k' true r e = inl cc
next_address last a a' k k' false (ok k'') e = inr cc
next_address last a a' k k' false panic e = cc

module _ (kernel_end pgdir : ℕ) where
  -- A round goes on by a page at least.
  free_page_advances :
      (a a' : ℕ) (k k' : Kmem)
      → a % page_size ≡ 0
      → a < 2 ^ 31
      → free_page kernel_end pgdir a k ≡ ok (a', k')
      → (a + page_size ≤ a') × (a' % page_size ≡ 0)
  unfolding free_page
  free_page_advances a a' k k' al lt e =
      let pte = (walkpgdir pgdir a false k).0 in
      elim (next_address (last_page a) a a' k k' (pte == 0) (free_entry kernel_end pte k) e) [
        | inl skipped ↦ (omega (arith, skipped), omega (arith, skipped))
        | inr freed ↦ (omega (arith, freed), omega (arith, freed))
      ]

  -- One unit of fuel more makes no difference.
  abbrev IsEnough : ℕ → ℕ → Type 0
  IsEnough oldsz fuel =
      (a : ℕ) (k : Kmem)
      → a % page_size ≡ 0
      → (oldsz + page_size - 1 - a) / page_size < fuel
      → dealloc_pages kernel_end (suc fuel) pgdir a oldsz k
        ≡ dealloc_pages kernel_end fuel pgdir a oldsz k

  enough_round :
      (fuel oldsz a : ℕ) (k : Kmem) (r : Result (ℕ × Kmem))
      → IsEnough oldsz fuel
      → a % page_size ≡ 0
      → a < 2 ^ 31
      → ltb a oldsz ≡ true
      → (oldsz + page_size - 1 - a) / page_size < suc fuel
      → free_page kernel_end pgdir a k ≡ r
      → dealloc_pages kernel_end (suc (suc fuel)) pgdir a oldsz k
        ≡ dealloc_pages kernel_end (suc fuel) pgdir a oldsz k
  unfolding dealloc_pages
  enough_round fuel oldsz a k panic ih al low lt f e = rw (lt, e, dealloc_pages) refl
  enough_round fuel oldsz a k (ok (a', k')) ih al low lt f e =
      let (on, al') = free_page_advances a a' k k' al low e in
      let below : a < oldsz = ground arith in rw (lt, e, dealloc_pages) (ih a' k' al' (omega arith))

  one_more : (oldsz fuel : ℕ) → oldsz ≤ 2 ^ 31 → IsEnough oldsz fuel
  unfolding dealloc_pages
  one_more oldsz zero top a k al f = absurd (omega arith)
  one_more oldsz (suc fuel) top a k al f = elim (Bool-cases (ltb a oldsz)) [
    | inl lt ↦
        enough_round fuel oldsz a k (free_page kernel_end pgdir a k) (one_more oldsz fuel top) al
          (ground arith) lt f refl
    | inr done ↦ rw (done, dealloc_pages) refl
  ]

  more :
      (extra oldsz a : ℕ) (k : Kmem)
      → oldsz ≤ 2 ^ 31
      → a % page_size ≡ 0
      → dealloc_pages kernel_end (extra + (oldsz / page_size + 2)) pgdir a oldsz k
        ≡ dealloc_pages kernel_end (oldsz / page_size + 2) pgdir a oldsz k
  more zero oldsz a k top al =
      let none : zero + (oldsz / page_size + 2) ≡ oldsz / page_size + 2 = omega arith in
      ap (λ n. dealloc_pages kernel_end n pgdir a oldsz k) none
  more (suc extra) oldsz a k top al =
      let rounds = oldsz / page_size + 2 in
      let one : suc extra + rounds ≡ suc (extra + rounds) = omega arith in
      ap (λ n. dealloc_pages kernel_end n pgdir a oldsz k) one
      ∙ one_more oldsz (extra + rounds) top a k al (omega arith)
      ∙ more extra oldsz a k top al

-- `deallocuvm` down from a size that is at most KERNBASE does not run out of fuel: with any fuel
-- above the one it has its loop ends as with that one.
deallocuvm_enough :
    (kernel_end pgdir oldsz newsz fuel : ℕ) (k : Kmem)
    → oldsz ≤ kernel_base
    → oldsz / page_size + 2 ≤ fuel
    → newsz < oldsz
    → (elim (dealloc_pages kernel_end fuel pgdir (page_round_up newsz) oldsz k)
        as (λ r. Result (ℕ × Kmem)) [ ok k' ↦ ok (newsz, k') | panic ↦ panic ])
      ≡ deallocuvm kernel_end pgdir oldsz newsz k
unfolding deallocuvm
deallocuvm_enough kernel_end pgdir oldsz newsz fuel k top f smaller =
    let goes_on : leb oldsz newsz ≡ false = ground arith in
    let rounds = oldsz / page_size + 2 in
    let all : fuel ≡ fuel - rounds + rounds = omega arith in
    rw
      (
        goes_on,
        all,
        more kernel_end pgdir (fuel - rounds) oldsz (page_round_up newsz) k (omega arith)
            (omega arith),
      )
      refl
