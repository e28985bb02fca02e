-- ===== src/Vm/Users.antt =====
-- `uva2ka` of code/vm.c: which pages a pointer of the user reaches.
use os_ex.Shared.{ℕ, ◌≡◌, refl, true, not, if◌then◌else◌}
use os_ex.Kalloc.{Kmem}
use os_ex.Vm.{p2v, pte_addr, is_present, is_user, walkpgdir, uva2ka}
use os_ex.Vm.Tables.{has_table, pte_of}

-- The kernel's address of the page of an entry that the user may use, or 0.
abbrev pub user_page : ℕ → ℕ
user_page e = if not (is_present e) then 0 else if not (is_user e) then 0 else p2v (pte_addr e)

-- Under a table `uva2ka` reads the entry of the address.
pub uva2ka_lem :
    (pgdir uva : ℕ) (k : Kmem)
    → has_table k.memory pgdir uva ≡ true
    → uva2ka pgdir uva k ≡ user_page (pte_of k.memory pgdir uva)
unfolding uva2ka walkpgdir
uva2ka_lem pgdir uva k has = rw has refl
