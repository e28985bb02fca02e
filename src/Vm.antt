-- ===== src/Vm.antt =====
-- code/vm.c, page tables: a directory of 1024 words, each of which may lead to a table of 1024
-- words, in the memory from which code/kalloc.c gives pages. A pointer is an address, null is 0.
-- The two addresses that the linker sets, `end` and `data`, are arguments.
pub mod Space
pub mod Walk
pub mod Tables
pub mod Entry
pub mod Mapping
pub mod Ranges
pub mod Fresh
pub mod Growing
pub mod Users
pub mod UserWrite
pub mod Copyout
pub mod Shrinking
pub mod Copies
pub mod Bytes
use os_ex.Shared.{
  ℕ, zero, suc, ◌+◌, ◌-◌, ◌*◌, ◌/◌, ◌%◌, ◌^◌, bit_or, Bool, true, false, not, ◌&&◌, ltb, leb, ◌==◌,
  if◌then◌else◌, Result, ok, panic, ℤ, pos, minus_one, lt_int, List, [], ◌∷◌,
}
use os_ex.Kalloc.{
  page_size, kernel_base, phys_stop, v2p, page_round_up, Memory, Kmem, store, kalloc, kfree,
}

-- `P2V(a)`, and the macros of mmu.h.
abbrev pub p2v : ℕ → ℕ
p2v a = (a + kernel_base) % 2 ^ 32

abbrev pub pdx : ℕ → ℕ
pdx va = va / 2 ^ 22 % 1024

abbrev pub ptx : ℕ → ℕ
ptx va = va / 2 ^ 12 % 1024

abbrev pub pte_addr : ℕ → ℕ
pte_addr e = e / 4096 * 4096

abbrev pub pte_flags : ℕ → ℕ
pte_flags e = e % 4096

abbrev pub page_round_down : ℕ → ℕ
page_round_down a = a / page_size * page_size

-- PTE_P, PTE_W and PTE_U, and the tests of the first and the last.
abbrev pub pte_p : ℕ
pte_p = 1

abbrev pub pte_w : ℕ
pte_w = 2

abbrev pub pte_u : ℕ
pte_u = 4

abbrev pub is_present : ℕ → Bool
is_present e = e % 2 == 1

abbrev pub is_user : ℕ → Bool
is_user e = e / 4 % 2 == 1

-- `memset(v, 0, PGSIZE)`, as it looks to a reader of words.
abbrev pub zero_page : Memory → ℕ → Memory
zero_page m v a = if leb v a && ltb a (v + page_size) then 0 else m a

-- Where the directory's entry for an address is, and where the table of an entry has its own.
abbrev pub pde_at : ℕ → ℕ → ℕ
pde_at pgdir va = pgdir + 4 * pdx va

abbrev pub pte_in : ℕ → ℕ → ℕ
pte_in e va = p2v (pte_addr e) + 4 * ptx va

-- the branch of `walkpgdir` that has called `kalloc`
abbrev pub add_table : ℕ → ℕ → ℕ × Kmem → ℕ × Kmem
add_table pde va (pgtab, k) = if pgtab == 0 then (0, k) else (
  pgtab + 4 * ptx va,
  record k {
    memory =
        store (zero_page k.memory pgtab) pde
          (bit_or (bit_or (bit_or (v2p pgtab) pte_p) pte_w) pte_u);
  },
)

-- The address of the entry for `va`, or 0.
unfoldable pub walkpgdir : ℕ → ℕ → Bool → Kmem → ℕ × Kmem
walkpgdir pgdir va alloc k =
    if is_present (k.memory (pde_at pgdir va))
    then (pte_in (k.memory (pde_at pgdir va)) va, k)
    else if not alloc
    then (0, k)
    else add_table (pde_at pgdir va) va (kalloc k)

-- What one round of `mappages` leaves: the walk's failure, or the entry written.
abbrev pub write_entry : ℕ → ℕ → ℕ × Kmem → Result (ℤ × Kmem)
write_entry pa perm (pte, k) =
    if pte == 0
    then ok (minus_one, k)
    else if is_present (k.memory pte)
    then panic
    else ok (pos 0, record k { memory = store k.memory pte (bit_or (bit_or pa perm) pte_p) })

unfoldable pub map_entry : ℕ → ℕ → ℕ → ℕ → Kmem → Result (ℤ × Kmem)
map_entry pgdir a pa perm k = write_entry pa perm (walkpgdir pgdir a true k)

-- `for(;;)` on fuel: it ends at `last`.
unfoldable pub map_entries : ℕ → ℕ → ℕ → ℕ → ℕ → ℕ → Kmem → Result (ℤ × Kmem)
map_entries zero pgdir a last pa perm k = panic
map_entries (suc fuel) pgdir a last pa perm k = elim (map_entry pgdir a pa perm k) [
  | panic ↦ panic
  | ok (r, k') ↦ elim (lt_int r (pos 0)) [
    | true ↦ ok (minus_one, k')
    | false ↦ elim (a == last) [
      | true ↦ ok (pos 0, k')
      | false ↦
          map_entries fuel pgdir ((a + page_size) % 2 ^ 32) last ((pa + page_size) % 2 ^ 32) perm k'
    ]
  ]
]

-- One round for each page from the first to the last, around the end of the address space.
unfoldable pub mappages : ℕ → ℕ → ℕ → ℕ → ℕ → Kmem → Result (ℤ × Kmem)
mappages pgdir va size pa perm k =
    let a = page_round_down va in
    let last = page_round_down ((va + size + 2 ^ 32 - 1) % 2 ^ 32) in
    map_entries ((last + 2 ^ 32 - a) % 2 ^ 32 / page_size + 1) pgdir a last pa perm k

-- The kernel's address of a user's page, or 0. The source reads `*pte` even if the walk found no
-- table: then the word at address 0.
unfoldable pub uva2ka : ℕ → ℕ → Kmem → ℕ
unfolding walkpgdir
uva2ka pgdir uva k =
    let e = k.memory (walkpgdir pgdir uva false k).0 in
    if not (is_present e) then 0 else if not (is_user e) then 0 else p2v (pte_addr e)

-- `*pte &= ~PTE_U`
abbrev pub without_user : ℕ → ℕ
without_user e = if is_user e then e - pte_u else e

unfoldable pub clearpteu : ℕ → ℕ → Kmem → Result Kmem
clearpteu pgdir uva k =
    let pte = (walkpgdir pgdir uva false k).0 in
    if pte == 0
    then panic
    else ok (record k { memory = store k.memory pte (without_user (k.memory pte)) })
