-- ===== src/Vm/Walk.antt =====
-- `walkpgdir` of code/vm.c against the translation of addresses that a page table stands for.
use native.Mathlib.Decide.{ℕ_discrete}
use os_ex.Shared.{
  ℕ, ◌+◌, ◌*◌, ◌%◌, ◌≤◌, ◌≡◌, ◌≢◌, refl, sym, subst, ap, ◌∙◌, bit_or, true, false, ◌==◌, List, [],
  ◌∷◌, ◌++◌, length, All, arith, ◌⊎◌, inl, inr, Bool-cases, page_address-bit_or, page_flags-bit_or,
}
use os_ex.Kalloc.{page_size, v2p, Memory, Kmem, store, kalloc}
use os_ex.Kalloc.FreeList.{IsPage, kalloc_last, kalloc_first}
use os_ex.Vm.{
  p2v, pdx, pte_addr, pte_p, pte_w, pte_u, is_present, zero_page, pde_at, pte_in, add_table,
  walkpgdir,
}
use os_ex.Vm.Tables.{
  table_of, has_table, pte_under, pte_of, pte_under_present, pte_under_absent, pte_under_same,
  IsOwned, IsSpace, page_of, page_of-pde, page_of-pte, pde_at-injective, page_of_ne, Chain-kept,
}

-- The table to which the directory's entry for an address leads, and the address's entry: 0 if
module _ (m : Memory) (v pde w a : ℕ) (va : v % page_size ≡ 0) (ne : a ≢ pde) where
  pub new_table_other : page_of a ≢ v → store (zero_page m v) pde w a ≡ m a
  new_table_other h = ground arith

  pub new_table_zero : page_of a ≡ v → store (zero_page m v) pde w a ≡ 0
  new_table_zero h = ground arith

-- the entry that `walkpgdir` makes for a new table
abbrev pub table_entry : ℕ → ℕ
table_entry v = bit_or (bit_or (bit_or (v2p v) pte_p) pte_w) pte_u

table_entry_lem : (v : ℕ) → v % page_size ≡ 0 → table_entry v ≡ v2p v + 7
table_entry_lem v h = omega (arith, first, second, third)
  where
    aligned : v2p v % 4096 ≡ 0
    aligned = omega arith

    first : bit_or (v2p v) 1 ≡ v2p v + 1
    first = page_address-bit_or (v2p v) 1 aligned (omega arith)

    second : bit_or (bit_or (v2p v) 1) 2 ≡ v2p v + 3
    second =
        ap (λ x. bit_or x 2) first
        ∙ (page_flags-bit_or (v2p v) 1 2 aligned (omega arith) (omega arith)).0

    third : table_entry v ≡ v2p v + 7
    third =
        ap (λ x. bit_or x 4) second
        ∙ (page_flags-bit_or (v2p v) 3 4 aligned (omega arith) (omega arith)).0

module _ (kernel_end pgdir va v : ℕ) (vs : List ℕ) (k : Kmem)
    (s : IsSpace kernel_end pgdir k (v ∷ vs)) (missing : has_table k.memory pgdir va ≡ false) where
  abbrev added : Memory
  added = store (zero_page k.memory v) (pde_at pgdir va) (table_entry v)

  page_aligned : v % page_size ≡ 0
  page_aligned = s.free.sound.0.aligned

  added_here : (va' : ℕ) → pdx va' ≡ pdx va → added (pde_at pgdir va') ≡ table_entry v
  added_here va' e = ground arith

  added_elsewhere :
      (va' : ℕ) → pdx va' ≢ pdx va → added (pde_at pgdir va') ≡ k.memory (pde_at pgdir va')
  added_elsewhere va' ne =
      new_table_other k.memory v (pde_at pgdir va) (table_entry v) (pde_at pgdir va') page_aligned
        (pde_at-injective pgdir va' va ne) (λ e. s.own.0 (sym e ∙ page_of-pde pgdir va' s.aligned))

  new_table : p2v (pte_addr (table_entry v)) ≡ v
  new_table = omega (arith, table_entry_lem v page_aligned, s.small.0, page_aligned)

  new_present : is_present (table_entry v) ≡ true
  new_present = ground (arith, table_entry_lem v page_aligned, page_aligned)

  same_pde : (va' : ℕ) → pdx va' ≡ pdx va → has_table k.memory pgdir va' ≡ false
  same_pde va' e = ap (λ i. is_present (k.memory (pgdir + 4 * i))) e ∙ missing

  added_zero : (va' : ℕ) → added (pte_in (table_entry v) va') ≡ 0
  added_zero va' =
      new_table_zero k.memory v (pde_at pgdir va) (table_entry v) (pte_in (table_entry v) va')
        page_aligned
        (page_of_ne (pte_in (table_entry v) va') (pde_at pgdir va) (λ e. s.own.0 (
          sym new_table
          ∙ sym (page_of-pte (table_entry v) va')
          ∙ e
          ∙ page_of-pde pgdir va s.aligned)))
        (page_of-pte (table_entry v) va' ∙ new_table)

  added_in_table :
      (va' : ℕ)
      → has_table k.memory pgdir va' ≡ true
      → let pte = pte_in (k.memory (pde_at pgdir va')) va' in added pte ≡ k.memory pte
  added_in_table va' h =
      let e = k.memory (pde_at pgdir va') in
      let table = s.tables va' h in
      new_table_other k.memory v (pde_at pgdir va) (table_entry v) (pte_in e va') page_aligned
        (page_of_ne (pte_in e va') (pde_at pgdir va)
          (λ q. table.1 (sym (page_of-pte e va') ∙ q ∙ page_of-pde pgdir va s.aligned)))
        (λ q. table.2.0 (sym q ∙ page_of-pte e va'))

  added-pte_of : (va' : ℕ) → pte_of added pgdir va' ≡ pte_of k.memory pgdir va'
  added-pte_of va' = elim (ℕ_discrete (pdx va') (pdx va)) [
    | yes same ↦
        ap (λ e. pte_under added e va') (added_here va' same)
        ∙ pte_under_present added (table_entry v) va' new_present
        ∙ added_zero va'
        ∙ sym (pte_under_absent k.memory (k.memory (pde_at pgdir va')) va' (same_pde va' same))
    | no other ↦
        ap (λ e. pte_under added e va') (added_elsewhere va' other)
        ∙ pte_under_same k.memory added (k.memory (pde_at pgdir va')) va' (added_in_table va')
  ]

  added_word : (q : ℕ) → IsPage kernel_end q → q ≢ v → q ≢ pgdir → added q ≡ k.memory q
  added_word q g ne other =
      let self : page_of q ≡ q = omega (arith, g.aligned) in
      new_table_other k.memory v (pde_at pgdir va) (table_entry v) q page_aligned
        (page_of_ne q (pde_at pgdir va)
          (λ e. other (sym self ∙ e ∙ page_of-pde pgdir va s.aligned)))
        (λ e. ne (sym self ∙ e))

  added_chain :
      (qs : List ℕ)
      → All (IsPage kernel_end) qs
      → All (λ q. q ≢ v) qs
      → All (λ q. q ≢ pgdir) qs
      → All (λ q. added q ≡ k.memory q) qs
  added_chain [] a b c = tt
  added_chain (q ∷ qs) a b c = (added_word q a.0 b.0 c.0, added_chain qs a.1 b.1 c.1)

  -- The table of an address after a new one has been made: the new one, or the one it had.
  added_table :
      (va' : ℕ)
      → has_table added pgdir va' ≡ true
      → ((pdx va' ≡ pdx va) × (table_of added pgdir va' ≡ v))
        ⊎ ((pdx va' ≢ pdx va)
            × (has_table k.memory pgdir va' ≡ true)
            × (table_of added pgdir va' ≡ table_of k.memory pgdir va'))
  added_table va' h = elim (ℕ_discrete (pdx va') (pdx va)) [
    | yes same ↦ inl (same, ap (λ e. p2v (pte_addr e)) (added_here va' same) ∙ new_table)
    | no other ↦
        let kept = added_elsewhere va' other in
        inr (other, ap (λ e. is_present e) (sym kept) ∙ h, ap (λ e. p2v (pte_addr e)) kept)
  ]

  added-IsOwned :
      (va' : ℕ) → has_table added pgdir va' ≡ true → IsOwned pgdir vs (table_of added pgdir va')
  added-IsOwned va' h = elim (added_table va' h) [
    | inl (_, is_new) ↦
        subst (IsOwned pgdir vs) (sym is_new) (s.free.chain.1, s.own.0, s.free.distinct.0)
    | inr (_, had, kept) ↦
        let old = s.tables va' had in subst (IsOwned pgdir vs) (sym kept) (old.0, old.1, old.2.1)
  ]

  added_apart :
      (a b : ℕ)
      → has_table added pgdir a ≡ true
      → has_table added pgdir b ≡ true
      → pdx a ≢ pdx b
      → table_of added pgdir a ≢ table_of added pgdir b
  added_apart a b ha hb ne e = elim (added_table a ha) [
    | inl (sa, ta) ↦ elim (added_table b hb) [
      | inl (sb, tb) ↦ ne (sa ∙ sym sb)
      | inr (_, had, tb) ↦ (s.tables b had).2.0 (sym ta ∙ e ∙ tb)
    ]
    | inr (_, had, ta) ↦ elim (added_table b hb) [
      | inl (_, tb) ↦ (s.tables a had).2.0 (sym tb ∙ sym e ∙ ta)
      | inr (_, had', tb) ↦ s.apart a b had had' ne (sym ta ∙ e ∙ tb)
    ]
  ]

  added-IsSpace : IsSpace kernel_end pgdir (record k { freelist = k.memory v; memory = added }) vs
  added-IsSpace = record {
    free = record {
      chain =
          Chain-kept k.memory added (k.memory v) vs
            (added_chain vs s.free.sound.1 s.free.distinct.0 s.own.1) s.free.chain.2;
      distinct = s.free.distinct.1;
      sound = s.free.sound.1;
    };
    small = s.small.1;
    aligned = s.aligned;
    own = s.own.1;
    tables = added-IsOwned;
    apart = added_apart;
  }

-- What a walk that may add a table leaves: null and nothing changed if no page is free; or at
-- most one page less to allocate, and the address of the entry, in a page table that translates every address as before.
abbrev pub Walked : ℕ → ℕ → ℕ → List ℕ → Kmem → ℕ × Kmem → Type 0
Walked kernel_end pgdir va pages k (pte, k') =
    ((pages ≡ []) × (pte ≡ 0) × (k' ≡ k))
    ⊎ ((used : List ℕ) × (left : List ℕ) × (pages ≡ used ++ left)
        × (length used ≤ 1)
        × IsSpace kernel_end pgdir k' left
        × (has_table k'.memory pgdir va ≡ true)
        × (pte ≡ pte_in (k'.memory (pde_at pgdir va)) va)
        × ((va' : ℕ) → pte_of k'.memory pgdir va' ≡ pte_of k.memory pgdir va'))

walk_missing :
    (kernel_end pgdir va : ℕ) (pages : List ℕ) (k : Kmem)
    → IsSpace kernel_end pgdir k pages
    → has_table k.memory pgdir va ≡ false
    → Walked kernel_end pgdir va pages k (add_table (pde_at pgdir va) va (kalloc k))
walk_missing kernel_end pgdir va [] k s missing =
    rw (kalloc_last kernel_end k s.free) (inl (refl, refl, refl))
walk_missing kernel_end pgdir va (v ∷ vs) k s missing =
    let here = added_here kernel_end pgdir va v vs k s missing va refl in
    let nonnull : (v == 0) ≡ false = ground (arith, s.free.chain.1) in
    rw (kalloc_first kernel_end k v vs s.free, nonnull)
      (inr (
        v ∷ [],
        vs,
        refl,
        omega arith,
        added-IsSpace kernel_end pgdir va v vs k s missing,
        ap (λ e. is_present e) here ∙ new_present kernel_end pgdir va v vs k s missing,
        omega (arith, here, new_table kernel_end pgdir va v vs k s missing),
        added-pte_of kernel_end pgdir va v vs k s missing,
      ))

-- A walk that may add a table finds the entry of the address, keeps the translation of every
-- address, and fails, with nothing changed, only if no page is free.
pub walkpgdir_lem :
    (kernel_end pgdir va : ℕ) (pages : List ℕ) (k : Kmem)
    → IsSpace kernel_end pgdir k pages
    → Walked kernel_end pgdir va pages k (walkpgdir pgdir va true k)
unfolding walkpgdir
walkpgdir_lem kernel_end pgdir va pages k s = elim (Bool-cases (has_table k.memory pgdir va)) [
  | inl present ↦ rw present (inr ([], pages, refl, omega arith, s, present, refl, λ va'. refl))
  | inr missing ↦ rw missing (walk_missing kernel_end pgdir va pages k s missing)
]
