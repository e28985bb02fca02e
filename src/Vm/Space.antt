-- ===== src/Vm/Space.antt =====
-- The address spaces of code/vm.c: `setupkvm`, `allocuvm`, `deallocuvm`, `freevm`, `copyuvm`.
-- Each loop runs on fuel, one unit for each round, and panics at 0.
use os_ex.Shared.{
  ℕ, zero, suc, ◌+◌, ◌-◌, ◌*◌, ◌/◌, ◌%◌, ◌^◌, bit_or, true, false, ltb, leb, ◌==◌, if◌then◌else◌,
  Result, ok, panic, ℤ, pos, lt_int, List, [], ◌∷◌,
}
use os_ex.Kalloc.{page_size, kernel_base, phys_stop, v2p, page_round_up, Kmem, store, kalloc, kfree}
use os_ex.Vm.{p2v, pdx, pte_addr, pte_w, pte_u, is_present, zero_page, walkpgdir, mappages}

-- `struct kmap`
pub record Kmap : Type 0 where
  pub virt : ℕ
  pub phys_start : ℕ
  pub phys_end : ℕ
  pub perm : ℕ

-- EXTMEM and DEVSPACE
abbrev pub extmem : ℕ
extmem = 0x100000

abbrev pub devspace : ℕ
devspace = 0xFE000000

-- the table `kmap`, by the linker's `data`
abbrev pub kmap : ℕ → List Kmap
kmap data_start =
    record { virt = kernel_base; phys_start = 0; phys_end = extmem; perm = pte_w }
    ∷ record {
      virt = kernel_base + extmem;
      phys_start = v2p (kernel_base + extmem);
      phys_end = v2p data_start;
      perm = 0;
    }
    ∷ record { virt = data_start; phys_start = v2p data_start; phys_end = phys_stop; perm = pte_w }
    ∷ record { virt = devspace; phys_start = devspace; phys_end = 0; perm = pte_w }
    ∷ []

-- the last address before the next table's first
abbrev pub last_page : ℕ → ℕ
last_page a = ((pdx a + 1) * 2 ^ 22 + 2 ^ 32 - page_size) % 2 ^ 32

-- One round of `allocuvm`: the memory grown by a page, or where the source gives up, with the
-- page that is still to be freed (0 for none).
pub data Growth : Type 0 where
  grown : Kmem → Growth
  out_of_memory : ℕ → Kmem → Growth

-- `mappages(pgdir, (char*)a, PGSIZE, V2P(mem), PTE_W|PTE_U)` on a page just filled with zeros
abbrev pub map_user : ℕ → ℕ → ℕ → Kmem → Result (ℤ × Kmem)
map_user pgdir a mem k =
    mappages pgdir a page_size (v2p mem) (bit_or pte_w pte_u)
      (record k { memory = zero_page k.memory mem })

unfoldable pub grow_page : ℕ → ℕ → ℕ × Kmem → Result Growth
grow_page pgdir a (mem, k) =
    if mem == 0 then ok (out_of_memory 0 k) else elim (map_user pgdir a mem k) [
      | panic ↦ panic
      | ok (r, k') ↦ if lt_int r (pos 0) then ok (out_of_memory mem k') else ok (grown k')
    ]

module _ (kernel_end : ℕ) where
  -- `if((*pte & PTE_P) != 0){ ... }` of `deallocuvm`
  abbrev pub free_entry : ℕ → Kmem → Result Kmem
  free_entry pte k =
      if is_present (k.memory pte)
      then if pte_addr (k.memory pte) == 0
        then panic
        else elim (kfree kernel_end (p2v (pte_addr (k.memory pte))) k) [
          | ok k' ↦ ok (record k' { memory = store k'.memory pte 0 })
          | panic ↦ panic
        ]
      else ok k

  -- One round of `deallocuvm`: `a` after it, and the memory.
  unfoldable pub free_page : ℕ → ℕ → Kmem → Result (ℕ × Kmem)
  free_page pgdir a k =
      let pte = (walkpgdir pgdir a false k).0 in
      if pte == 0
      then ok ((last_page a + page_size) % 2 ^ 32, k)
      else elim (free_entry pte k) [ ok k' ↦ ok ((a + page_size) % 2 ^ 32, k') | panic ↦ panic ]

  unfoldable pub dealloc_pages : ℕ → ℕ → ℕ → ℕ → Kmem → Result Kmem
  dealloc_pages zero pgdir a oldsz k = panic
  dealloc_pages (suc fuel) pgdir a oldsz k = elim (ltb a oldsz) [
    | false ↦ ok k
    | true ↦ elim (free_page pgdir a k) [
      | ok (a', k') ↦ dealloc_pages fuel pgdir a' oldsz k'
      | panic ↦ panic
    ]
  ]

  unfoldable pub deallocuvm : ℕ → ℕ → ℕ → Kmem → Result (ℕ × Kmem)
  deallocuvm pgdir oldsz newsz k =
      if leb oldsz newsz
      then ok (oldsz, k)
      else elim (dealloc_pages (oldsz / page_size + 2) pgdir (page_round_up newsz) oldsz k) [
        | ok k' ↦ ok (newsz, k')
        | panic ↦ panic
      ]

  -- `for(i = 0; i < NPDENTRIES; i++)` of `freevm`, by the number of entries left.
  unfoldable pub free_tables : ℕ → ℕ → Kmem → Result Kmem
  free_tables zero pgdir k = ok k
  free_tables (suc n) pgdir k =
      let e = k.memory (pgdir + 4 * (1024 - suc n)) in
      elim (is_present e) [
        | true ↦ elim (kfree kernel_end (p2v (pte_addr e)) k) [
          | ok k' ↦ free_tables n pgdir k'
          | panic ↦ panic
        ]
        | false ↦ free_tables n pgdir k
      ]

  unfoldable pub freevm : ℕ → Kmem → Result Kmem
  freevm pgdir k = if pgdir == 0 then panic else elim (deallocuvm pgdir kernel_base 0 k) [
    | panic ↦ panic
    | ok (_, k') ↦ elim (free_tables 1024 pgdir k') [
      | panic ↦ panic
      | ok k'' ↦ kfree kernel_end pgdir k''
    ]
  ]

  -- `freevm(d); return 0;`
  abbrev pub give_up : ℕ → Kmem → Result (ℕ × Kmem)
  give_up d k = elim (freevm d k) [ ok k' ↦ ok (0, k') | panic ↦ panic ]

  unfoldable pub map_kernel : List Kmap → ℕ → Kmem → Result (ℕ × Kmem)
  map_kernel [] pgdir k = ok (pgdir, k)
  map_kernel (e ∷ es) pgdir k =
      elim (mappages pgdir e.virt ((e.phys_end + 2 ^ 32 - e.phys_start) % 2 ^ 32) e.phys_start
        e.perm k) [
          | panic ↦ panic
          | ok (r, k') ↦ elim (lt_int r (pos 0)) [
            | true ↦ give_up pgdir k'
            | false ↦ map_kernel es pgdir k'
          ]
        ]

  -- `setupkvm` after its call of `kalloc`
  abbrev pub map_all : ℕ → ℕ × Kmem → Result (ℕ × Kmem)
  map_all data_start (pgdir, k) =
      if pgdir == 0
      then ok (0, k)
      else if ltb devspace (p2v phys_stop)
      then panic
      else map_kernel (kmap data_start) pgdir (record k { memory = zero_page k.memory pgdir })

  unfoldable pub setupkvm : ℕ → Kmem → Result (ℕ × Kmem)
  setupkvm data_start k = map_all data_start (kalloc k)

  -- `deallocuvm(pgdir, newsz, oldsz)`, `kfree(mem)` if there is a page, and 0
  abbrev pub shrink_back : ℕ → ℕ → ℕ → ℕ → Kmem → Result (ℕ × Kmem)
  shrink_back pgdir oldsz newsz mem k = elim (deallocuvm pgdir newsz oldsz k) [
    | panic ↦ panic
    | ok (_, k') ↦
        if mem == 0
        then ok (0, k')
        else elim (kfree kernel_end mem k') [ ok k'' ↦ ok (0, k'') | panic ↦ panic ]
  ]

  unfoldable pub alloc_pages : ℕ → ℕ → ℕ → ℕ → ℕ → Kmem → Result (ℕ × Kmem)
  alloc_pages zero pgdir a oldsz newsz k = panic
  alloc_pages (suc fuel) pgdir a oldsz newsz k = elim (ltb a newsz) [
    | false ↦ ok (newsz, k)
    | true ↦ elim (grow_page pgdir a (kalloc k)) [
      | panic ↦ panic
      | ok (out_of_memory mem k') ↦ shrink_back pgdir oldsz newsz mem k'
      | ok (grown k') ↦ alloc_pages fuel pgdir ((a + page_size) % 2 ^ 32) oldsz newsz k'
    ]
  ]

  unfoldable pub allocuvm : ℕ → ℕ → ℕ → Kmem → Result (ℕ × Kmem)
  allocuvm pgdir oldsz newsz k =
      if leb kernel_base newsz
      then ok (0, k)
      else if ltb newsz oldsz
      then ok (oldsz, k)
      else alloc_pages (newsz / page_size + 2) pgdir (page_round_up oldsz) oldsz newsz k
