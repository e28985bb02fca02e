-- ===== src/Vm/Entry.antt =====
-- What a write to one entry of a page table does to the translation of addresses.
use native.Mathlib.Decide.{ℕ_discrete}
use os_ex.Shared.{
  ℕ, ◌+◌, ◌*◌, ◌/◌, ◌^◌, ◌<◌, ◌≤◌, ◌≡◌, ◌≢◌, refl, sym, subst, ap, ◌∙◌, bit_or, true, false, ◌==◌,
  List, [], ◌∷◌, ◌++◌, length, All, arith, ◌⊎◌, inl, inr, Returns, ℤ, pos, minus_one,
}
use os_ex.Kalloc.{page_size, Memory, Kmem, store}
use os_ex.Kalloc.FreeList.{IsPage}
use os_ex.Vm.{
  p2v, pdx, ptx, pte_addr, pte_p, is_present, pde_at, pte_in, walkpgdir, write_entry, map_entry,
}
use os_ex.Vm.Walk.{Walked, walkpgdir_lem}
use os_ex.Vm.Tables.{
  table_of, has_table, pte_under, pte_of, pte_under_present, pte_under_same, IsOwned, IsSpace,
  page_of, page_of-pde, page_of-pte, page_of_ne, Chain-kept,
}

store_other : (m : Memory) (p w a : ℕ) → a ≢ p → store m p w a ≡ m a
store_other m p w a ne = ground arith

store_self : (m : Memory) (p w : ℕ) → store m p w p ≡ w
store_self m p w = ground arith

module _ (kernel_end pgdir va w : ℕ) (pages : List ℕ) (k : Kmem)
    (s : IsSpace kernel_end pgdir k pages) (has : has_table k.memory pgdir va ≡ true) where
  abbrev pte : ℕ
  pte = pte_in (k.memory (pde_at pgdir va)) va

  abbrev set : Memory
  set = store k.memory pte w

  in_table : page_of pte ≡ table_of k.memory pgdir va
  in_table = page_of-pte (k.memory (pde_at pgdir va)) va

  pub set_pde : (va' : ℕ) → set (pde_at pgdir va') ≡ k.memory (pde_at pgdir va')
  set_pde va' = store_other k.memory pte w (pde_at pgdir va') (
      page_of_ne (pde_at pgdir va') pte
        (λ e. (s.tables va has).1 (sym in_table ∙ sym e ∙ page_of-pde pgdir va' s.aligned)))

  set_words :
      (qs : List ℕ)
      → All (IsPage kernel_end) qs
      → All (λ q. q ≢ table_of k.memory pgdir va) qs
      → All (λ q. set q ≡ k.memory q) qs
  set_words [] a b = tt
  set_words (q ∷ qs) a b =
      let self : page_of q ≡ q = omega (arith, a.0.aligned) in
      (
        store_other k.memory pte w q (page_of_ne q pte (λ e. b.0 (sym self ∙ e ∙ in_table))),
        set_words qs a.1 b.1,
      )

  had_table : (va' : ℕ) → has_table set pgdir va' ≡ true → has_table k.memory pgdir va' ≡ true
  had_table va' h = ap (λ e. is_present e) (sym (set_pde va')) ∙ h

  kept_table : (va' : ℕ) → table_of set pgdir va' ≡ table_of k.memory pgdir va'
  kept_table va' = ap (λ e. p2v (pte_addr e)) (set_pde va')

  pub set-IsSpace : IsSpace kernel_end pgdir (record k { memory = set }) pages
  set-IsSpace = record {
    free = record {
      chain =
          Chain-kept k.memory set k.freelist pages
            (set_words pages s.free.sound (s.tables va has).2) s.free.chain;
      distinct = s.free.distinct;
      sound = s.free.sound;
    };
    small = s.small;
    aligned = s.aligned;
    own = s.own;
    tables = λ va' h.
        subst (IsOwned pgdir pages) (sym (kept_table va')) (s.tables va' (had_table va' h));
    apart = λ a b ha hb ne e.
        s.apart a b (had_table a ha) (had_table b hb) ne (sym (kept_table a) ∙ e ∙ kept_table b);
  }

  pub set_here : pte_of set pgdir va ≡ w
  set_here =
      ap (λ e. pte_under set e va) (set_pde va)
      ∙ pte_under_present set (k.memory (pde_at pgdir va)) va has
      ∙ store_self k.memory pte w

  other_pte :
      (va' : ℕ)
      → (pdx va' ≡ pdx va → ptx va' ≢ ptx va)
      → has_table k.memory pgdir va' ≡ true
      → pte_in (k.memory (pde_at pgdir va')) va' ≢ pte
  other_pte va' ne has' e = elim (ℕ_discrete (pdx va') (pdx va)) [
    | yes same ↦
        let table : k.memory (pde_at pgdir va') ≡ k.memory (pde_at pgdir va) =
          ap (λ i. k.memory (pgdir + 4 * i)) same in
        ne same (omega (arith, e, table))
    | no other ↦
        s.apart va' va has' has other
          (sym (page_of-pte (k.memory (pde_at pgdir va')) va') ∙ ap (λ x. page_of x) e ∙ in_table)
  ]

  pub set_other :
      (va' : ℕ)
      → (pdx va' ≡ pdx va → ptx va' ≢ ptx va)
      → pte_of set pgdir va' ≡ pte_of k.memory pgdir va'
  set_other va' ne =
      ap (λ e. pte_under set e va') (set_pde va')
      ∙ pte_under_same k.memory set (k.memory (pde_at pgdir va')) va' (λ h.
        store_other k.memory pte w (pte_in (k.memory (pde_at pgdir va')) va') (other_pte va' ne h))

-- Of two addresses on different pages the indices differ.
pub indices_differ :
    (va va' : ℕ)
    → va < 2 ^ 32
    → va' < 2 ^ 32
    → va' / page_size ≢ va / page_size
    → pdx va' ≡ pdx va
    → ptx va' ≢ ptx va
indices_differ va va' h h' ne e e' = ne (omega arith)

-- The entries of all pages but that of an address are as before.
abbrev pub KeepsOthers : ℕ → ℕ → Memory → Memory → Type 0
KeepsOthers pgdir va m m' =
    (va' : ℕ) → (pdx va' ≡ pdx va → ptx va' ≢ ptx va) → pte_of m' pgdir va' ≡ pte_of m pgdir va'

-- What writing one entry leaves: the failure of the walk, or the entry for the page, and the
-- entries of all other pages as before.
abbrev pub Written : ℕ → ℕ → ℕ → ℕ → List ℕ → Kmem → ℤ × Kmem → Type 0
Written kernel_end pgdir va w pages k (r, k') =
    ((pages ≡ []) × (r ≡ minus_one) × (k' ≡ k))
    ⊎ ((used : List ℕ) × (left : List ℕ) × (pages ≡ used ++ left)
        × (length used ≤ 1)
        × (r ≡ pos 0)
        × IsSpace kernel_end pgdir k' left
        × (pte_of k'.memory pgdir va ≡ w)
        × KeepsOthers pgdir va k.memory k'.memory)

pub written_lem :
    (kernel_end pgdir va pa perm : ℕ) (pages : List ℕ) (k : Kmem) (walk : ℕ × Kmem)
    → is_present (pte_of k.memory pgdir va) ≡ false
    → Walked kernel_end pgdir va pages k walk
    → Returns
        (write_entry pa perm walk)
        (Written kernel_end pgdir va (bit_or (bit_or pa perm) pte_p) pages k)
written_lem kernel_end pgdir va pa perm pages k (pte, k') absent (inl (none_left, null, same)) =
    rw null (inl (none_left, refl, same))
written_lem kernel_end pgdir va pa perm pages k (pte, k') absent
      (inr (used, left, split, short, s, has, at_pte, kept)) =
    let read : k'.memory (pte_in (k'.memory (pde_at pgdir va)) va) ≡ pte_of k.memory pgdir va =
      sym (pte_under_present k'.memory (k'.memory (pde_at pgdir va)) va has) ∙ kept va in
    let unset : is_present (k'.memory pte) ≡ false =
      ap (λ p. is_present (k'.memory p)) at_pte ∙ ap (λ e. is_present e) read ∙ absent in
    let nonnull : (pte == 0) ≡ false = ground (arith, at_pte, (s.tables va has).0) in
    let w = bit_or (bit_or pa perm) pte_p in
    rw (nonnull, unset, at_pte)
      (inr (
        used,
        left,
        split,
        short,
        refl,
        set-IsSpace kernel_end pgdir va w left k' s has,
        set_here kernel_end pgdir va w left k' s has,
        λ va' ne. set_other kernel_end pgdir va w left k' s has va' ne ∙ kept va',
      ))

pub map_entry_lem :
    (kernel_end pgdir va pa perm : ℕ) (pages : List ℕ) (k : Kmem)
    → IsSpace kernel_end pgdir k pages
    → is_present (pte_of k.memory pgdir va) ≡ false
    → Returns
        (map_entry pgdir va pa perm k)
        (Written kernel_end pgdir va (bit_or (bit_or pa perm) pte_p) pages k)
unfolding map_entry
map_entry_lem kernel_end pgdir va pa perm pages k s absent =
    written_lem kernel_end pgdir va pa perm pages k (walkpgdir pgdir va true k) absent
      (walkpgdir_lem kernel_end pgdir va pages k s)
