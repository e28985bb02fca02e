-- ===== src/Kalloc.antt =====
-- code/kalloc.c, the physical page allocator: a stack of free pages, linked through the first
-- word of each page. Memory is a function from addresses to words. Each function holds
-- `kmem.lock` from its first access to its last (once `use_lock` is set), so it is one step.
pub mod FreeList
pub mod Range
use os_ex.Shared.{
  ℕ, zero, suc, ◌+◌, ◌-◌, ◌*◌, ◌/◌, ◌%◌, ◌^◌, Bool, true, false, not, ◌&&◌, ◌||◌, ltb, leb, ◌==◌,
  if◌then◌else◌, Result, ok, panic,
}

abbrev pub page_size : ℕ
page_size = 4096

-- KERNBASE and PHYSTOP of memlayout.h
abbrev pub kernel_base : ℕ
kernel_base = 0x80000000

abbrev pub phys_stop : ℕ
phys_stop = 0xE000000

-- `V2P(a)`: a subtraction of 32-bit unsigned numbers
abbrev pub v2p : ℕ → ℕ
v2p a = (a + 2 ^ 32 - kernel_base) % 2 ^ 32

-- `PGROUNDUP(sz)`
abbrev pub page_round_up : ℕ → ℕ
page_round_up sz = (sz + page_size - 1) % 2 ^ 32 / page_size * page_size

abbrev pub Memory : Type 0
Memory = ℕ → ℕ

-- `kmem`, with the memory through which its list runs. A null pointer is 0.
pub record Kmem : Type 0 where
  pub use_lock : Bool
  pub freelist : ℕ
  pub memory : Memory

-- `memset(v, 1, PGSIZE)`, as it looks to a reader of words
abbrev pub fill_page : Memory → ℕ → Memory
fill_page m v a = if leb v a && ltb a (v + page_size) then 0x01010101 else m a

-- `*(uint*)p = w`
abbrev pub store : Memory → ℕ → ℕ → Memory
store m p w a = if a == p then w else m a

-- The linker's symbol `end` is an argument.
module _ (kernel_end : ℕ) where
  -- the test that makes `kfree` panic
  abbrev pub is_bad : ℕ → Bool
  is_bad v = not (v % page_size == 0) || ltb v kernel_end || leb phys_stop (v2p v)

  unfoldable pub kfree : ℕ → Kmem → Result Kmem
  kfree v k =
      if is_bad v
      then panic
      else ok (record k { memory = store (fill_page k.memory v) v k.freelist; freelist = v })

  -- `for(; p + PGSIZE <= vend; p += PGSIZE) kfree(p);` on fuel
  pub free_pages : ℕ → ℕ → ℕ → Kmem → Result Kmem
  free_pages zero p vend k = ok k
  free_pages (suc fuel) p vend k = elim (leb (p + page_size) vend) [
    | true ↦ elim (kfree p k) [ ok k' ↦ free_pages fuel (p + page_size) vend k' | panic ↦ panic ]
    | false ↦ ok k
  ]

  -- One round for each page below `vend`, and one for the test that ends the loop.
  pub freerange : ℕ → ℕ → Kmem → Result Kmem
  freerange vstart vend k = free_pages (vend / page_size + 1) (page_round_up vstart) vend k

  pub kinit1 : ℕ → ℕ → Kmem → Result Kmem
  kinit1 vstart vend k = freerange vstart vend (record k { use_lock = false })

  unfoldable pub kinit2 : ℕ → ℕ → Kmem → Result Kmem
  kinit2 vstart vend k = elim (freerange vstart vend k) [
    | ok k' ↦ ok (record k' { use_lock = true })
    | panic ↦ panic
  ]

-- The page, or 0, and the allocator without it.
unfoldable pub kalloc : Kmem → ℕ × Kmem
kalloc k =
    if k.freelist == 0 then (0, k) else (k.freelist, record k { freelist = k.memory k.freelist })
