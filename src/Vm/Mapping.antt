-- ===== src/Vm/Mapping.antt =====
-- `mappages` of code/vm.c over a range of pages.
use os_ex.Shared.{
  ℕ, zero, suc, ◌+◌, ◌-◌, ◌*◌, ◌/◌, ◌%◌, ◌^◌, ◌<◌, ◌≤◌, ◌≡◌, refl, sym, ap, ◌∙◌, bit_or, true,
  false, ◌==◌, List, [], ◌++◌, arith, inl, inr, Result, ok, panic, Returns, Returns_mono, ℤ, pos,
  minus_one, ==_self, append_assoc,
}
use os_ex.Kalloc.{page_size, Kmem}
use os_ex.Vm.{pte_p, is_present, map_entry, map_entries, mappages}
use os_ex.Vm.Tables.{pte_of, IsSpace}
use os_ex.Vm.Entry.{indices_differ, KeepsOthers, Written, map_entry_lem}
use os_ex.Vm.Ranges.{Mapped, IsUnmapped, IsMapped-cons, rest-IsUnmapped}

module _ (kernel_end pgdir perm : ℕ) where
  -- After the first page, which was written, the rest.
  Mapped-cons :
      (n a pa : ℕ) (pages used left : List ℕ) (k k' : Kmem) (r : ℤ × Kmem)
      → a % page_size ≡ 0
      → a + (suc n) * page_size ≤ 2 ^ 32
      → pages ≡ used ++ left
      → pte_of k'.memory pgdir a ≡ bit_or (bit_or pa perm) pte_p
      → KeepsOthers pgdir a k.memory k'.memory
      → Mapped kernel_end pgdir perm n (a + page_size) (pa + page_size) left k' r
      → Mapped kernel_end pgdir perm (suc n) a pa pages k r
  Mapped-cons n a pa pages used left k k' (r, k'') al top split here kept
        (used', left', split', s, outside, result) =
      let first : pte_of k''.memory pgdir a ≡ bit_or (bit_or pa perm) pte_p =
        outside a (omega arith) (inl (omega arith)) ∙ here in
      (
        used ++ used',
        left',
        split ∙ ap (λ l. used ++ l) split' ∙ sym (append_assoc used used' left'),
        s,
        λ va h out.
            outside va h (ground arith)
            ∙ kept va (indices_differ a va (omega arith) h (λ e. absurd (ground arith))),
        elim result [
          | inl failed ↦ inl failed
          | inr (done, each) ↦ inr (done, IsMapped-cons pgdir perm n a pa k''.memory first each)
        ],
      )

  Mapped-none :
      (n a pa : ℕ) (pages : List ℕ) (k k' : Kmem)
      → IsSpace kernel_end pgdir k pages
      → pages ≡ []
      → k' ≡ k
      → Mapped kernel_end pgdir perm n a pa pages k (minus_one, k')
  Mapped-none n a pa pages k k' s none_left same =
      rw same ([], pages, refl, s, λ va h out. refl, inl (refl, none_left))

  Mapped-zero :
      (a pa : ℕ) (pages : List ℕ) (k : Kmem)
      → IsSpace kernel_end pgdir k pages
      → Mapped kernel_end pgdir perm 0 a pa pages k (pos 0, k)
  Mapped-zero a pa pages k s =
      ([], pages, refl, s, λ va h out. refl, inr (refl, λ i lt. absurd (omega arith)))

  -- What `fuel` rounds do for every range that is not longer.
  abbrev Maps : ℕ → Type 0
  Maps fuel =
      (n a pa : ℕ) (pages : List ℕ) (k : Kmem)
      → n < fuel
      → a % page_size ≡ 0
      → a + suc n * page_size ≤ 2 ^ 32
      → pa + suc n * page_size ≤ 2 ^ 32
      → IsSpace kernel_end pgdir k pages
      → IsUnmapped pgdir (suc n) a k.memory
      → Returns (map_entries fuel pgdir a (a + n * page_size) pa perm k)
          (Mapped kernel_end pgdir perm (suc n) a pa pages k)

  map_entries_step :
      (fuel : ℕ)
      → Maps fuel
      → (n a pa : ℕ) (pages : List ℕ) (k : Kmem) (e : Result (ℤ × Kmem)) → n < suc fuel
      → a % page_size ≡ 0
      → a + suc n * page_size ≤ 2 ^ 32
      → pa + suc n * page_size ≤ 2 ^ 32
      → IsSpace kernel_end pgdir k pages
      → IsUnmapped pgdir (suc n) a k.memory
      → map_entry pgdir a pa perm k ≡ e
      → Returns e (Written kernel_end pgdir a (bit_or (bit_or pa perm) pte_p) pages k)
      → Returns
          (map_entries (suc fuel) pgdir a (a + n * page_size) pa perm k)
          (Mapped kernel_end pgdir perm (suc n) a pa pages k)
  unfolding map_entries
  map_entries_step fuel ih n a pa pages k panic f al ta tp s un e w = absurd w
  map_entries_step fuel ih n a pa pages k (ok (r, k')) f al ta tp s un e
        (inl (none_left, failed, same)) =
      rw (e, map_entries, failed) (Mapped-none (suc n) a pa pages k k' s none_left same)
  map_entries_step fuel ih zero a pa pages k (ok (r, k')) f al ta tp s un e
        (inr (used, left, split, _, done, s', here, kept)) =
      let last : (a == a + zero * page_size) ≡ true = ground arith in
      rw (e, map_entries, done, last)
        (Mapped-cons 0 a pa pages used left k k' (pos 0, k') al ta split here kept
          (Mapped-zero (a + page_size) (pa + page_size) left k' s'))
  map_entries_step fuel ih (suc n) a pa pages k (ok (r, k')) f al ta tp s un e
        (inr (used, left, split, _, done, s', here, kept)) =
      let more : (a == a + suc n * page_size) ≡ false = ground arith in
      let a_next : (a + page_size) % 2 ^ 32 ≡ a + page_size = omega arith in
      let pa_next : (pa + page_size) % 2 ^ 32 ≡ pa + page_size = omega arith in
      let end : a + suc n * page_size ≡ a + page_size + n * page_size = omega arith in
      rw (e, map_entries, done, more, a_next, pa_next, end)
        (Returns_mono
          (map_entries fuel pgdir (a + page_size) (a + page_size + n * page_size) (pa + page_size)
            perm k')
          (Mapped kernel_end pgdir perm (suc n) (a + page_size) (pa + page_size) left k')
          (Mapped kernel_end pgdir perm (suc (suc n)) a pa pages k)
          (λ r. Mapped-cons (suc n) a pa pages used left k k' r al ta split here kept)
          (ih n (a + page_size) (pa + page_size) left k' (omega arith) (omega arith) (omega arith)
            (omega arith) s' (rest-IsUnmapped pgdir (suc n) a k k' al ta kept un)))

  map_entries_lem : (fuel : ℕ) → Maps fuel
  map_entries_lem zero n a pa pages k f al ta tp s un = absurd (omega arith)
  map_entries_lem (suc fuel) n a pa pages k f al ta tp s un =
      let at : a + zero * page_size ≡ a = omega arith in
      map_entries_step fuel (map_entries_lem fuel) n a pa pages k (map_entry pgdir a pa perm k) f al
        ta tp s un refl
        (map_entry_lem kernel_end pgdir a pa perm pages k s
          (ap (λ x. is_present (pte_of k.memory pgdir x)) (sym at) ∙ un zero (omega arith)))

-- Mapping one page or more at a page's address to page addresses, none of the pages being mapped
-- and neither range passing the end of the 32-bit numbers, does not panic. It keeps the page table
-- sound and the translation of all other pages. Either it returns -1 and no page is left to
-- allocate; or it returns 0, and the entry of each page holds its physical address, the
-- permissions and the present bit.
pub mappages_lem :
    (kernel_end pgdir perm n va pa : ℕ) (pages : List ℕ) (k : Kmem)
    → va % page_size ≡ 0
    → va + suc n * page_size ≤ 2 ^ 32
    → pa + suc n * page_size ≤ 2 ^ 32
    → IsSpace kernel_end pgdir k pages
    → IsUnmapped pgdir (suc n) va k.memory
    → Returns
        (mappages pgdir va (suc n * page_size) pa perm k)
        (Mapped kernel_end pgdir perm (suc n) va pa pages k)
unfolding mappages
mappages_lem kernel_end pgdir perm n va pa pages k al ta tp s un =
    let first : va / page_size * page_size ≡ va = omega arith in
    let last : (va + suc n * page_size + 2 ^ 32 - 1) % 2 ^ 32 / page_size * page_size
        ≡ va + n * page_size =
      omega arith in
    let rounds : (va + n * page_size + 2 ^ 32 - va) % 2 ^ 32 / page_size + 1 ≡ suc n =
      omega arith in
    rw (first, last, rounds)
      (map_entries_lem kernel_end pgdir perm (suc n) n va pa pages k (omega arith) al ta tp s un)

-- A range of one page takes one round.
one_round :
    (kernel_end pgdir va pa perm w : ℕ) (pages : List ℕ) (k : Kmem) (e : Result (ℤ × Kmem))
    → map_entry pgdir va pa perm k ≡ e
    → Returns e (Written kernel_end pgdir va w pages k)
    → map_entries 1 pgdir va va pa perm k ≡ e
unfolding map_entries
one_round kernel_end pgdir va pa perm w pages k panic e h = absurd h
one_round kernel_end pgdir va pa perm w pages k (ok (r, k')) e (inl (_, failed, _)) =
    rw (map_entries, e, failed) refl
one_round kernel_end pgdir va pa perm w pages k (ok (r, k')) e (inr (_, _, _, _, done, _, _, _)) =
    let last : (va == va) ≡ true = ==_self va in rw (map_entries, e, done, last) refl

-- One page: what is left is that of one entry.
pub mappages_page :
    (kernel_end pgdir perm va pa : ℕ) (pages : List ℕ) (k : Kmem)
    → va % page_size ≡ 0
    → va + page_size ≤ 2 ^ 32
    → IsSpace kernel_end pgdir k pages
    → is_present (pte_of k.memory pgdir va) ≡ false
    → Returns
        (mappages pgdir va page_size pa perm k)
        (Written kernel_end pgdir va (bit_or (bit_or pa perm) pte_p) pages k)
unfolding mappages
mappages_page kernel_end pgdir perm va pa pages k al top s un =
    let first : va / page_size * page_size ≡ va = omega arith in
    let last : (va + page_size + 2 ^ 32 - 1) % 2 ^ 32 / page_size * page_size ≡ va = omega arith in
    let rounds : (va + 2 ^ 32 - va) % 2 ^ 32 / page_size + 1 ≡ 1 = omega arith in
    let w = bit_or (bit_or pa perm) pte_p in
    let entry = map_entry_lem kernel_end pgdir va pa perm pages k s un in
    rw
      (
        first,
        last,
        rounds,
        one_round kernel_end pgdir va pa perm w pages k (map_entry pgdir va pa perm k) refl entry,
      )
      entry
