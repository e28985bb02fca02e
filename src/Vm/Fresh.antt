-- ===== src/Vm/Fresh.antt =====
-- What filling a page that was just allocated does to a page table: nothing.
use os_ex.Shared.{ℕ, ◌%◌, ◌≡◌, ◌≢◌, sym, subst, ap, ◌∙◌, true, List, [], ◌∷◌, All, arith}
use os_ex.Kalloc.{page_size, Memory, Kmem}
use os_ex.Kalloc.FreeList.{IsPage}
use os_ex.Vm.{p2v, pte_addr, is_present, zero_page, pde_at, pte_in}
use os_ex.Vm.Tables.{
  table_of, has_table, pte_under, pte_of, pte_under_same, IsOwned, IsSpace, page_of, page_of-pde,
  page_of-pte, Chain-kept,
}

module _ (kernel_end pgdir v : ℕ) (vs : List ℕ) (k : Kmem) (s : IsSpace kernel_end pgdir k (v ∷ vs))
    (m : Memory) (same : (a : ℕ) → page_of a ≢ v → m a ≡ k.memory a) where
  same_pde : (va : ℕ) → m (pde_at pgdir va) ≡ k.memory (pde_at pgdir va)
  same_pde va = same (pde_at pgdir va) (λ e. s.own.0 (sym e ∙ page_of-pde pgdir va s.aligned))

  same_words :
      (qs : List ℕ)
      → All (IsPage kernel_end) qs
      → All (λ q. q ≢ v) qs
      → All (λ q. m q ≡ k.memory q) qs
  same_words [] a b = tt
  same_words (q ∷ qs) a b =
      let self : page_of q ≡ q = omega (arith, a.0.aligned) in
      (same q (λ e. b.0 (sym self ∙ e)), same_words qs a.1 b.1)

  had_table : (va : ℕ) → has_table m pgdir va ≡ true → has_table k.memory pgdir va ≡ true
  had_table va h = ap (λ e. is_present e) (sym (same_pde va)) ∙ h

  same_table : (va : ℕ) → table_of m pgdir va ≡ table_of k.memory pgdir va
  same_table va = ap (λ e. p2v (pte_addr e)) (same_pde va)

  owned : (va : ℕ) → has_table m pgdir va ≡ true → IsOwned pgdir vs (table_of m pgdir va)
  owned va h =
      let old = s.tables va (had_table va h) in
      subst (IsOwned pgdir vs) (sym (same_table va)) (old.0, old.1, old.2.1)

  pub fresh-IsSpace : IsSpace kernel_end pgdir (record k { freelist = k.memory v; memory = m }) vs
  fresh-IsSpace = record {
    free = record {
      chain =
          Chain-kept k.memory m (k.memory v) vs (same_words vs s.free.sound.1 s.free.distinct.0)
            s.free.chain.2;
      distinct = s.free.distinct.1;
      sound = s.free.sound.1;
    };
    small = s.small.1;
    aligned = s.aligned;
    own = s.own.1;
    tables = owned;
    apart = λ a b ha hb ne e.
        s.apart a b (had_table a ha) (had_table b hb) ne (sym (same_table a) ∙ e ∙ same_table b);
  }

  pub fresh-pte_of : (va : ℕ) → pte_of m pgdir va ≡ pte_of k.memory pgdir va
  fresh-pte_of va =
      ap (λ e. pte_under m e va) (same_pde va)
      ∙ pte_under_same k.memory m (k.memory (pde_at pgdir va)) va (λ h.
        same (pte_in (k.memory (pde_at pgdir va)) va)
          (λ e. (s.tables va h).2.0 (sym e ∙ page_of-pte (k.memory (pde_at pgdir va)) va)))

pub zero_page_other :
    (m : Memory) (v a : ℕ) → v % page_size ≡ 0 → page_of a ≢ v → zero_page m v a ≡ m a
zero_page_other m v a al ne = ground arith
