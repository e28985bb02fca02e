-- ===== src/Vm/Copyout.antt =====
-- `copyout` of code/vm.c: what a user reads after it.
use os_ex.Shared.{
  split_at, split_at_lem, length-split_at, split_at-some, ℕ, zero, suc, ◌+◌, ◌-◌, ◌%◌, ◌^◌, ◌<◌,
  ◌≤◌, ◌≡◌, ◌≢◌, refl, sym, subst, ap, ◌∙◌, ◌==◌, List, [], ◌∷◌, ◌++◌, length, length-append,
  get_elem?, get_elem?_lt, get_elem?-append-cases, All, All_of_append, arith, ◌⊎◌, inl, inr, some,
  Bool-cases, ==_iff, Returns, Returns_mono, ℤ, pos, minus_one,
}
use os_ex.Kalloc.{page_size, Kmem}
use os_ex.Vm.{page_round_down, uva2ka}
use os_ex.Vm.Bytes.{put_bytes, copy_pages, copyout}
use os_ex.Vm.UserWrite.{
  IsUserSpace, user_byte, written, kept_uva2ka, written-IsUserSpace, written_here, written_other,
}

-- What is left: the translation as it was, the bytes outside of the range as they were, and either
-- 0 and the bytes of the range, or -1 and an address of the range that is not the user's.
abbrev pub Copied : ℕ → ℕ → List ℕ → Kmem → ℤ × Kmem → Type 0
Copied pgdir va bs k (r, k') =
    ((x : ℕ) → uva2ka pgdir x k' ≡ uva2ka pgdir x k)
    × ((x : ℕ)
        → x < 2 ^ 32
        → (x < va) ⊎ (va + length bs ≤ x)
        → user_byte pgdir k' x ≡ user_byte pgdir k x)
    × (((r ≡ pos 0) × ((i b : ℕ) → get_elem? bs i ≡ some b → user_byte pgdir k' (va + i) ≡ b))
        ⊎ ((r ≡ minus_one)
            × ((i : ℕ) × (i < length bs) × (uva2ka pgdir (page_round_down (va + i)) k ≡ 0))))

-- The first part of the bytes is written to its page, and the rest is copied.
module _ (pgdir va : ℕ) (bs here rest : List ℕ) (k k'' : Kmem) (r : ℤ) (split : bs ≡ here ++ rest)
    (fits : va % page_size + length here ≤ page_size) (top : va + length bs ≤ 2 ^ 32)
    (low : va < 2 ^ 32) (small : All (λ b. b < 256) here) (s : IsUserSpace pgdir k)
    (mapped : uva2ka pgdir (page_round_down va) k ≢ 0) where
  abbrev after : Kmem
  after = written pgdir (page_round_down va) (va % page_size) here k s mapped fits

  both : length bs ≡ length here + length rest
  both = ap (λ l. length l) split ∙ length-append here rest

  outside_both :
      ((x : ℕ)
        → x < 2 ^ 32
        → (x < va + length here) ⊎ (va + length here + length rest ≤ x)
        → user_byte pgdir k'' x ≡ user_byte pgdir after x)
      → (x : ℕ) → x < 2 ^ 32
      → (x < va) ⊎ (va + length bs ≤ x)
      → user_byte pgdir k'' x ≡ user_byte pgdir k x
  outside_both outside x lt out =
      outside x lt (ground (arith, both))
      ∙ written_other pgdir (page_round_down va) (va % page_size) here k s mapped fits x
          (omega arith) (omega arith) lt small (ground (arith, both))

  read_both :
      ((x : ℕ)
        → x < 2 ^ 32
        → (x < va + length here) ⊎ (va + length here + length rest ≤ x)
        → user_byte pgdir k'' x ≡ user_byte pgdir after x)
      → ((j b : ℕ) → get_elem? rest j ≡ some b → user_byte pgdir k'' (va + length here + j) ≡ b)
      → (i b : ℕ) → get_elem? bs i ≡ some b
      → user_byte pgdir k'' (va + i) ≡ b
  read_both outside each i b e =
      elim (get_elem?-append-cases here rest i b (ap (λ l. get_elem? l i) (sym split) ∙ e)) [
        | inl first ↦
            let lt = get_elem?_lt here i b first in
            let at : va + i ≡ page_round_down va + va % page_size + i = omega arith in
            outside (va + i) (omega (arith, lt, both)) (inl (omega (arith, lt)))
            ∙ ap (λ x. user_byte pgdir after x) at
            ∙ written_here pgdir (page_round_down va) (va % page_size) here k s mapped fits i b
                (omega arith) small first lt
        | inr (j, at, second) ↦
            let there : va + i ≡ va + length here + j = omega (arith, at) in
            ap (λ x. user_byte pgdir k'' x) there ∙ each j b second
      ]

  Copied-append :
      Copied pgdir (va + length here) rest after (r, k'') → Copied pgdir va bs k (r, k'')
  Copied-append (same, outside, result) =
      let kept = kept_uva2ka pgdir (page_round_down va) (va % page_size) here k s mapped fits in
      (
        λ x. same x ∙ kept x,
        outside_both outside,
        elim result [
          | inl (done, each) ↦ inl (done, read_both outside each)
          | inr (failed, (j, lt, null)) ↦
              let at : va + (length here + j) ≡ va + length here + j = omega arith in
              inr (
                failed,
                (
                  length here + j,
                  omega (arith, lt, both),
                  ap (λ x. uva2ka pgdir (page_round_down x) k) at
                      ∙ sym (kept (page_round_down (va + length here + j)))
                      ∙ null,
                ),
              )
        ],
      )

module _ (pgdir : ℕ) where
  abbrev Copies : ℕ → Type 0
  Copies fuel =
      (va : ℕ) (bs : List ℕ) (k : Kmem)
      → length bs ≤ fuel
      → va + length bs ≤ 2 ^ 32
      → All (λ b. b < 256) bs
      → IsUserSpace pgdir k
      → Returns (copy_pages fuel pgdir va bs k) (Copied pgdir va bs k)

  Copied-nil : (va : ℕ) (k : Kmem) → Copied pgdir va [] k (pos 0, k)
  Copied-nil va k = (λ x. refl, λ x lt out. refl, inl (refl, λ i b e. cc))

  copy_rest :
      (fuel next va : ℕ) (rest : List ℕ) (k : Kmem)
      → Copies fuel
      → ((rest ≡ []) ⊎ (next ≡ va))
      → length rest ≤ fuel
      → va + length rest ≤ 2 ^ 32
      → All (λ b. b < 256) rest
      → IsUserSpace pgdir k
      → Returns (copy_pages fuel pgdir next rest k) (Copied pgdir va rest k)
  unfolding copy_pages
  copy_rest zero next va [] k ih at short top small s = Copied-nil va k
  copy_rest (suc fuel) next va [] k ih at short top small s = Copied-nil va k
  copy_rest fuel next va (b ∷ bs) k ih (inl empty) short top small s = cc
  copy_rest fuel next va (b ∷ bs) k ih (inr same) short top small s =
      rw same (ih va (b ∷ bs) k short top small s)

  -- Where the next round starts, if there is one.
  next_page :
      (va here : ℕ) (rest : List ℕ)
      → va + here + length rest ≤ 2 ^ 32
      → (here ≡ page_size - va % page_size) ⊎ (rest ≡ [])
      → (rest ≡ []) ⊎ ((page_round_down va + page_size) % 2 ^ 32 ≡ va + here)
  next_page va here [] top full = inl refl
  next_page va here (c ∷ cs) top (inl e) = inr (omega arith)
  next_page va here (c ∷ cs) top (inr e) = cc

  -- A round that writes to a page.
  copy_more :
      (fuel va b : ℕ) (bs : List ℕ) (k : Kmem)
      → Copies fuel
      → length (b ∷ bs) ≤ suc fuel
      → va + length (b ∷ bs) ≤ 2 ^ 32
      → All (λ b. b < 256) (b ∷ bs)
      → IsUserSpace pgdir k
      → uva2ka pgdir (page_round_down va) k ≢ 0
      → let (here, rest) = split_at (page_size - va % page_size) (b ∷ bs) in
        Returns
          (copy_pages fuel pgdir ((page_round_down va + page_size) % 2 ^ 32) rest (record k {
            memory = put_bytes k.memory (uva2ka pgdir (page_round_down va) k + va % page_size) here;
          }))
          (Copied pgdir va (b ∷ bs) k)
  copy_more fuel va b bs k ih short top small s mapped =
      let n = page_size - va % page_size in
      let here = (split_at n (b ∷ bs)).0 in
      let rest = (split_at n (b ∷ bs)).1 in
      let split : b ∷ bs ≡ here ++ rest = split_at_lem n (b ∷ bs) in
      let both : length (b ∷ bs) ≡ length here + length rest =
        ap (λ l. length l) split ∙ length-append here rest in
      let both' : va + length here + length rest ≤ 2 ^ 32 = omega (arith, both) in
      let some_here : 0 < length here = split_at-some n b bs (omega arith) in
      let parts = All_of_append (λ b. b < 256) here rest (subst (All (λ b. b < 256)) split small) in
      let fits : va % page_size + length here ≤ page_size =
        omega (arith, (length-split_at n (b ∷ bs)).0) in
      let next = (page_round_down va + page_size) % 2 ^ 32 in
      let k' = written pgdir (page_round_down va) (va % page_size) here k s mapped fits in
      Returns_mono (copy_pages fuel pgdir next rest k') (Copied pgdir (va + length here) rest k')
        (Copied pgdir va (b ∷ bs) k)
        (λ r.
          Copied-append pgdir va (b ∷ bs) here rest k r.1 r.0 split fits top (omega arith) parts.0 s
            mapped)
        (copy_rest fuel next (va + length here) rest k' ih
          (next_page va (length here) rest both' (length-split_at n (b ∷ bs)).1) (omega arith)
          (omega arith) parts.1
          (written-IsUserSpace pgdir (page_round_down va) (va % page_size) here k s mapped fits))

  copy_pages_lem : (fuel : ℕ) → Copies fuel
  unfolding copy_pages
  copy_pages_lem zero va [] k short top small s = Copied-nil va k
  copy_pages_lem (suc fuel) va [] k short top small s = Copied-nil va k
  copy_pages_lem zero va (b ∷ bs) k short top small s = absurd (omega arith)
  copy_pages_lem (suc fuel) va (b ∷ bs) k short top small s =
      let at : va + 0 ≡ va = omega arith in
      let off : va - page_round_down va ≡ va % page_size = omega arith in
      elim (Bool-cases (uva2ka pgdir (page_round_down va) k == 0)) [
        | inl null ↦
            rw (null, copy_pages)
              (
                λ x. refl,
                λ x lt out. refl,
                inr (
                  refl,
                  (
                    0,
                    omega arith,
                    ap (λ x. uva2ka pgdir (page_round_down x) k) at
                        ∙ (==_iff (uva2ka pgdir (page_round_down va) k) 0).0 null,
                  ),
                ),
              )
        | inr mapped ↦
            rw (mapped, copy_pages, off)
              (copy_more fuel va b bs k (copy_pages_lem fuel) short top small s
                (λ e. absurd (ground (arith, e))))
      ]

-- `copyout` of bytes to a range that does not pass the end of the 32-bit addresses, where the
-- user's pages are no page tables and no two addresses share one, returns. It keeps the
-- translation and every byte that the user reads outside of the range. If it returns 0 the user
-- reads the bytes in the range; else it returns -1, and a page of the range is not the user's.
pub copyout_lem :
    (pgdir va : ℕ) (bs : List ℕ) (k : Kmem)
    → va + length bs ≤ 2 ^ 32
    → All (λ b. b < 256) bs
    → IsUserSpace pgdir k
    → Returns (copyout pgdir va bs k) (Copied pgdir va bs k)
unfolding copyout
copyout_lem pgdir va bs k top small s =
    copy_pages_lem pgdir (length bs) va bs k (omega arith) top small s
