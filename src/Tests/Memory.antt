-- ===== src/Tests/Memory.antt =====
-- Tests of the page allocator.
use os_ex.Shared.{ℕ, ◌≡◌, refl, List, [], ◌∷◌, panic, Returns, arith}
use os_ex.Kalloc.{kfree, kalloc, kinit1}
use os_ex.Kalloc.FreeList.{IsFree, kfree_lem}
use os_ex.Kalloc.Range.{kinit1_lem}
use os_ex.Tests.{two_free, none_free}

abbrev free_pages_of : List ℕ
free_pages_of = 0x80401000 ∷ 0x80403000 ∷ []

two_free-IsFree : IsFree 0x80400000 two_free free_pages_of
two_free-IsFree = ground arith

kalloc_runs : (kalloc two_free).0 ≡ 0x80401000
unfolding kalloc
kalloc_runs = refl

kfree_refuses : kfree 0x80400000 0x80401001 two_free ≡ panic
unfolding kfree
kfree_refuses = refl

kfree_lem_example :
    Returns
      (kfree 0x80400000 0x80402000 two_free)
      (λ k'. IsFree 0x80400000 k' (0x80402000 ∷ free_pages_of))
kfree_lem_example =
    kfree_lem 0x80400000 0x80402000 two_free (omega arith) two_free-IsFree (omega arith)

kinit1_lem_example :
    Returns
      (kinit1 0x80400010 0x80400010 0x80403020 none_free)
      (λ k'. IsFree 0x80400010 k' (0x80402000 ∷ 0x80401000 ∷ []))
kinit1_lem_example =
    kinit1_lem 0x80400010 0x80400010 0x80403020 none_free (omega arith) (omega arith) (omega arith)
      (omega arith) refl
