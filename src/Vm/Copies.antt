-- ===== src/Vm/Copies.antt =====
-- `inituvm` and `copyuvm` of code/vm.c: the memory of the first process, and of a child.
use os_ex.Shared.{
  ℕ, zero, suc, ◌+◌, ◌-◌, ◌/◌, ◌%◌, ◌^◌, true, false, not, ◌&&◌, ltb, leb, ◌==◌, if◌then◌else◌,
  Result, ok, panic, ℤ, pos, negsuc, lt_int, List, length,
}
use os_ex.Kalloc.{page_size, v2p, Memory, Kmem, kalloc}
use os_ex.Vm.{p2v, pte_addr, pte_flags, is_present, walkpgdir, mappages}
use os_ex.Vm.Space.{give_up, setupkvm, map_user}
use os_ex.Vm.Bytes.{put_bytes}

-- `inituvm` after its call of `kalloc`, whose result it does not test
abbrev pub fill_first : ℕ → List ℕ → ℕ × Kmem → Result Kmem
fill_first pgdir init (mem, k) = elim (map_user pgdir 0 mem k) [
  | panic ↦ panic
  | ok (_, k') ↦ ok (record k' { memory = put_bytes k'.memory mem init })
]

unfoldable pub inituvm : ℕ → List ℕ → Kmem → Result Kmem
inituvm pgdir init k =
    if leb page_size (length init) then panic else fill_first pgdir init (kalloc k)

-- `memmove(mem, src, PGSIZE)` on two pages, as it looks to a reader of words.
abbrev pub copy_page : Memory → ℕ → ℕ → Memory
copy_page m mem src a = if leb mem a && ltb a (mem + page_size) then m (src + (a - mem)) else m a

-- The page of the parent at `e`, copied to `mem` and mapped; 0 or -1.
abbrev pub map_copy : ℕ → ℕ → ℕ → ℕ × Kmem → Result (ℤ × Kmem)
map_copy d i e (mem, k) =
    if mem == 0
    then ok (negsuc 0, k)
    else mappages d i page_size (v2p mem) (pte_flags e)
        (record k { memory = copy_page k.memory mem (p2v (pte_addr e)) })

-- One round of `copyuvm`.
unfoldable pub copy_entry : ℕ → ℕ → ℕ → Kmem → Result (ℤ × Kmem)
copy_entry pgdir d i k =
    let pte = (walkpgdir pgdir i false k).0 in
    if pte == 0
    then panic
    else if not (is_present (k.memory pte))
    then panic
    else map_copy d i (k.memory pte) (kalloc k)

-- The directory, or 0 when the memory is used up. It runs on fuel, one unit for each page.
unfoldable pub copy_entries : ℕ → ℕ → ℕ → ℕ → ℕ → ℕ → Kmem → Result (ℕ × Kmem)
copy_entries kernel_end zero pgdir d i sz k = panic
copy_entries kernel_end (suc fuel) pgdir d i sz k = elim (ltb i sz) [
  | false ↦ ok (d, k)
  | true ↦ elim (copy_entry pgdir d i k) [
    | panic ↦ panic
    | ok (r, k') ↦ elim (lt_int r (pos 0)) [
      | true ↦ give_up kernel_end d k'
      | false ↦ copy_entries kernel_end fuel pgdir d ((i + page_size) % 2 ^ 32) sz k'
    ]
  ]
]

abbrev pub copy_user_pages : ℕ → ℕ → ℕ → ℕ × Kmem → Result (ℕ × Kmem)
copy_user_pages kernel_end pgdir sz (d, k) =
    if d == 0 then ok (0, k) else copy_entries kernel_end (sz / page_size + 2) pgdir d 0 sz k

unfoldable pub copyuvm : ℕ → ℕ → ℕ → ℕ → Kmem → Result (ℕ × Kmem)
copyuvm kernel_end data_start pgdir sz k = elim (setupkvm kernel_end data_start k) [
  | panic ↦ panic
  | ok r ↦ copy_user_pages kernel_end pgdir sz r
]
