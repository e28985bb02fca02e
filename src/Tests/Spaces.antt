-- ===== src/Tests/Spaces.antt =====
-- Tests of page tables: a directory at 0x80500000, first empty with two free pages, then with one
-- table and one of the user's pages.
use os_ex.Shared.{
  ℕ, ◌≡◌, ◌⊎◌, refl, true, false, ◌==◌, if◌then◌else◌, List, [], ◌∷◌, ok, Returns, arith, minus_one,
}
use os_ex.Kalloc.{Memory, Kmem, kalloc, kfree}
use os_ex.Kalloc.FreeList.{IsFree}
use os_ex.Vm.{pdx, ptx, walkpgdir, uva2ka, mappages, map_entries, map_entry}
use os_ex.Vm.Tables.{IsSpace, has_table, table_of}
use os_ex.Vm.Mapping.{mappages_lem}
use os_ex.Vm.Ranges.{Mapped, IsUnmapped}
use os_ex.Vm.Growing.{Grew, allocuvm_lem}
use os_ex.Vm.Space.{
  allocuvm, dealloc_pages, deallocuvm, setupkvm, freevm, free_page, free_tables, map_kernel, kmap,
}
use os_ex.Vm.Copies.{copyuvm, copy_entry, copy_entries, inituvm}
use os_ex.Vm.UserWrite.{IsUserSpace}
use os_ex.Vm.Bytes.{copyout, get_byte, put_bytes}
use os_ex.Vm.Copyout.{Copied, copyout_lem}

abbrev empty_memory : Memory
empty_memory a = if a == 0x80401000 then 0x80403000 else 0

abbrev empty_space : Kmem
empty_space = record { use_lock = true; freelist = 0x80401000; memory = empty_memory }

abbrev two_pages : List ℕ
two_pages = 0x80401000 ∷ 0x80403000 ∷ []

empty_space-IsFree : IsFree 0x80400000 empty_space two_pages
empty_space-IsFree = ground arith

no_table : (va : ℕ) → has_table empty_memory 0x80500000 va ≡ false
no_table va = ground arith

empty_space-IsSpace : IsSpace 0x80400000 0x80500000 empty_space two_pages
empty_space-IsSpace = record {
  free = empty_space-IsFree;
  small = omega arith;
  aligned = refl;
  own = omega arith;
  tables = λ va h. absurd (cc (no_table va, h));
  apart = λ va va' h h' ne. absurd (cc (no_table va, h));
}

empty_space-IsUnmapped : (n a : ℕ) → IsUnmapped 0x80500000 n a empty_memory
empty_space-IsUnmapped n a i lt = ground arith

mappages_lem_example :
    Returns
      (mappages 0x80500000 0x1000 4096 0x402000 2 empty_space)
      (Mapped 0x80400000 0x80500000 2 1 0x1000 0x402000 two_pages empty_space)
mappages_lem_example =
    mappages_lem 0x80400000 0x80500000 2 0 0x1000 0x402000 two_pages empty_space (omega arith)
      (omega arith) (omega arith) empty_space-IsSpace (empty_space-IsUnmapped 1 0x1000)

allocuvm_lem_example :
    Returns
      (allocuvm 0x80400000 0x80500000 0 4096 empty_space)
      (Grew 0x80400000 0x80500000 4096 1 0 empty_space)
allocuvm_lem_example =
    allocuvm_lem 0x80400000 0x80500000 0 4096 two_pages empty_space (omega arith) (omega arith)
      (omega arith) empty_space-IsSpace (empty_space-IsUnmapped 1 0)

abbrev user_memory : Memory
user_memory a = if a == 0x80500000 then 0x402007 else if a == 0x80402000 then 0x404007 else 0

abbrev user_space : Kmem
user_space = record { use_lock = true; freelist = 0; memory = user_memory }

one_table :
    (va : ℕ)
    → has_table user_memory 0x80500000 va ≡ true
    → (pdx va ≡ 0) × (table_of user_memory 0x80500000 va ≡ 0x80402000)
one_table va h = ground arith

user_space-IsSpace : IsSpace 0x80400000 0x80500000 user_space []
user_space-IsSpace = record {
  free = record { chain = refl; distinct = tt; sound = tt };
  small = tt;
  aligned = refl;
  own = tt;
  tables = λ va h. let (_, e) = one_table va h in (omega (arith, e), omega (arith, e), tt);
  apart = λ va va' h h' ne e. ne (omega (arith, (one_table va h).0, (one_table va' h').0));
}

-- Only the first page is the user's.
one_page :
    (va : ℕ)
    → (uva2ka 0x80500000 va user_space ≡ 0)
      ⊎ ((pdx va ≡ 0) × (ptx va ≡ 0) × (uva2ka 0x80500000 va user_space ≡ 0x80404000))
unfolding uva2ka walkpgdir
one_page va = ground arith

user_space-IsUserSpace : IsUserSpace 0x80500000 user_space
user_space-IsUserSpace = record {
  aligned = refl;
  no_directory = λ va ne e. ground (arith, one_page va);
  no_table = λ va va' ne has e. ground (arith, one_page va, (one_table va' has).1);
  distinct = λ va va' lt lt' differ ne e. ground (arith, one_page va, one_page va');
}

copyout_lem_example :
    Returns
      (copyout 0x80500000 4090 (1 ∷ 2 ∷ 3 ∷ []) user_space)
      (Copied 0x80500000 4090 (1 ∷ 2 ∷ 3 ∷ []) user_space)
copyout_lem_example =
    copyout_lem 0x80500000 4090 (1 ∷ 2 ∷ 3 ∷ []) user_space (omega arith) (omega arith)
      user_space-IsUserSpace

-- Out of memory there is no directory, and no copy of a page.
setupkvm_null : setupkvm 0x80400000 0x80108000 user_space ≡ ok (0, user_space)
unfolding setupkvm kalloc
setupkvm_null = refl

copyuvm_null : copyuvm 0x80400000 0x80108000 0x80500000 4096 user_space ≡ ok (0, user_space)
unfolding copyuvm setupkvm kalloc
copyuvm_null = refl

copy_entry_fails : copy_entry 0x80500000 0x80600000 0 user_space ≡ ok (minus_one, user_space)
unfolding copy_entry walkpgdir kalloc
copy_entry_fails = refl

copy_entries_end :
    copy_entries 0x80400000 3 0x80500000 0x80600000 0 0 user_space ≡ ok (0x80600000, user_space)
unfolding copy_entries
copy_entries_end = refl

-- The page, its table and the directory are given back, the directory last.
freevm_runs : Returns (freevm 0x80400000 0x80500000 user_space) (λ k. k.freelist ≡ 0x80500000)
unfolding freevm deallocuvm dealloc_pages free_page free_tables kfree walkpgdir
freevm_runs = refl

map_kernel_fails :
    Returns (map_kernel 0x80400000 (kmap 0x80108000) 0x80500000 user_space) (λ r. r.0 ≡ 0)
unfolding map_kernel mappages map_entries map_entry freevm deallocuvm dealloc_pages free_page
    free_tables kfree kalloc walkpgdir
map_kernel_fails = refl

-- The bytes are in the first page.
inituvm_runs :
    Returns (inituvm 0x80500000 (7 ∷ 8 ∷ []) empty_space) (λ k. get_byte k.memory 0x80401001 ≡ 8)
unfolding inituvm mappages map_entries map_entry kalloc walkpgdir put_bytes
inituvm_runs = refl
