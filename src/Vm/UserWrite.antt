-- ===== src/Vm/UserWrite.antt =====
-- A write to one of a user's pages, as a round of `copyout` of code/vm.c makes it, against the bytes
-- that the user reads through the page table.
use native.Mathlib.Decide.{ℕ_discrete}
use os_ex.Shared.{
  ℕ, ◌+◌, ◌*◌, ◌/◌, ◌%◌, ◌^◌, ◌<◌, ◌≤◌, ◌≡◌, ◌≢◌, refl, sym, ap, ◌∙◌, true, false, List, length,
  get_elem?, All, arith, ◌⊎◌, inl, inr, some, Bool-cases,
}
use os_ex.Kalloc.{page_size, Kmem}
use os_ex.Vm.{p2v, pte_addr, is_present, pde_at, pte_in, page_round_down, walkpgdir, uva2ka}
use os_ex.Vm.Tables.{
  table_of, has_table, pte_of, pte_under, pte_under_same, page_of, page_of-pde, page_of-pte,
}
use os_ex.Vm.Users.{user_page, uva2ka_lem}
use os_ex.Vm.Bytes.{get_byte, byte_of, put_bytes, put_bytes_other, put_bytes_here, put_bytes_page}

uva2ka_absent :
    (pgdir uva : ℕ) (k : Kmem)
    → has_table k.memory pgdir uva ≡ false
    → uva2ka pgdir uva k ≡ user_page (k.memory 0)
unfolding uva2ka walkpgdir
uva2ka_absent pgdir uva k has = rw has refl

user_page_aligned : (e : ℕ) → user_page e % page_size ≡ 0
user_page_aligned e = ground arith

uva2ka_aligned : (pgdir uva : ℕ) (k : Kmem) → uva2ka pgdir uva k % page_size ≡ 0
uva2ka_aligned pgdir uva k = elim (Bool-cases (has_table k.memory pgdir uva)) [
  | inl has ↦
      ap (λ x. x % page_size) (uva2ka_lem pgdir uva k has)
      ∙ user_page_aligned (pte_of k.memory pgdir uva)
  | inr has ↦
      ap (λ x. x % page_size) (uva2ka_absent pgdir uva k has) ∙ user_page_aligned (k.memory 0)
]

-- The user's pages are neither the directory nor tables, and no two addresses share one.
pub record IsUserSpace (pgdir : ℕ) (k : Kmem) : Type 0 where
  pub aligned : pgdir % page_size ≡ 0
  pub no_directory : (va : ℕ) → uva2ka pgdir va k ≢ 0 → uva2ka pgdir va k ≢ pgdir
  pub no_table :
      (va va' : ℕ)
      → uva2ka pgdir va k ≢ 0
      → has_table k.memory pgdir va' ≡ true
      → table_of k.memory pgdir va' ≢ uva2ka pgdir va k
  pub distinct :
      (va va' : ℕ)
      → va < 2 ^ 32
      → va' < 2 ^ 32
      → va / page_size ≢ va' / page_size
      → uva2ka pgdir va k ≢ 0
      → uva2ka pgdir va k ≢ uva2ka pgdir va' k

-- The byte that a user reads at an address.
abbrev pub user_byte : ℕ → Kmem → ℕ → ℕ
user_byte pgdir k va = get_byte k.memory (uva2ka pgdir (page_round_down va) k + va % page_size)

-- A write to one of the user's pages.
module _ (pgdir va0 off : ℕ) (bs : List ℕ) (k : Kmem) (s : IsUserSpace pgdir k)
    (mapped : uva2ka pgdir va0 k ≢ 0) (fits : off + length bs ≤ page_size) where
  abbrev pub written : Kmem
  written = record k { memory = put_bytes k.memory (uva2ka pgdir va0 k + off) bs }

  other_page : (a : ℕ) → page_of a ≢ uva2ka pgdir va0 k → written.memory a ≡ k.memory a
  other_page a ne =
      put_bytes_page k.memory (uva2ka pgdir va0 k) (uva2ka pgdir va0 k + off) bs a
        (uva2ka_aligned pgdir va0 k) (omega arith) (omega arith) ne

  kept_pde : (va : ℕ) → written.memory (pde_at pgdir va) ≡ k.memory (pde_at pgdir va)
  kept_pde va =
      other_page (pde_at pgdir va)
        (λ e. s.no_directory va0 mapped (sym e ∙ page_of-pde pgdir va s.aligned))

  kept_has : (va : ℕ) → has_table written.memory pgdir va ≡ has_table k.memory pgdir va
  kept_has va = ap (λ e. is_present e) (kept_pde va)

  kept_pte :
      (va : ℕ)
      → has_table k.memory pgdir va ≡ true
      → let pte = pte_in (k.memory (pde_at pgdir va)) va in written.memory pte ≡ k.memory pte
  kept_pte va has =
      other_page (pte_in (k.memory (pde_at pgdir va)) va)
        (λ e. s.no_table va0 va mapped has (sym (page_of-pte (k.memory (pde_at pgdir va)) va) ∙ e))

  pub kept_uva2ka : (va : ℕ) → uva2ka pgdir va written ≡ uva2ka pgdir va k
  kept_uva2ka va = elim (Bool-cases (has_table k.memory pgdir va)) [
    | inl has ↦
        uva2ka_lem pgdir va written (kept_has va ∙ has)
        ∙ ap (λ e. user_page e)
            (ap (λ e. pte_under written.memory e va) (kept_pde va)
              ∙ pte_under_same k.memory written.memory (k.memory (pde_at pgdir va)) va
                  (kept_pte va))
        ∙ sym (uva2ka_lem pgdir va k has)
    | inr has ↦
        uva2ka_absent pgdir va written (kept_has va ∙ has)
        ∙ ap (λ e. user_page e) (other_page 0 (λ e. mapped (sym e)))
        ∙ sym (uva2ka_absent pgdir va k has)
  ]

  mapped_in : (va : ℕ) → uva2ka pgdir va written ≢ 0 → uva2ka pgdir va k ≢ 0
  mapped_in va ne e = ne (kept_uva2ka va ∙ e)

  pub written-IsUserSpace : IsUserSpace pgdir written
  written-IsUserSpace = record {
    aligned = s.aligned;
    no_directory = λ va ne e. s.no_directory va (mapped_in va ne) (sym (kept_uva2ka va) ∙ e);
    no_table = λ va va' ne has e.
        s.no_table va va' (mapped_in va ne) (sym (kept_has va') ∙ has)
          (ap (λ x. p2v (pte_addr x)) (sym (kept_pde va')) ∙ e ∙ kept_uva2ka va);
    distinct = λ va va' lt lt' differ ne e.
        s.distinct va va' lt lt' differ (mapped_in va ne)
          (sym (kept_uva2ka va) ∙ e ∙ kept_uva2ka va');
  }

  -- What the user reads at an address, by the page as it was before.
  user_byte_by :
      (x : ℕ)
      → user_byte pgdir written x
        ≡ get_byte written.memory (uva2ka pgdir (page_round_down x) k + x % page_size)
  user_byte_by x =
      ap (λ u. get_byte written.memory (u + x % page_size)) (kept_uva2ka (page_round_down x))

  pub written_here :
      (i b : ℕ)
      → va0 % page_size ≡ 0
      → All (λ b. b < 256) bs
      → get_elem? bs i ≡ some b
      → i < length bs
      → user_byte pgdir written (va0 + off + i) ≡ b
  written_here i b al small e lt =
      let page : page_round_down (va0 + off + i) ≡ va0 = omega arith in
      let u = uva2ka pgdir va0 k in
      let at : u + (va0 + off + i) % page_size ≡ u + off + i = omega arith in
      user_byte_by (va0 + off + i)
      ∙ ap (λ p. get_byte written.memory (uva2ka pgdir p k + (va0 + off + i) % page_size)) page
      ∙ ap (λ r. get_byte written.memory r) at
      ∙ put_bytes_here k.memory (uva2ka pgdir va0 k + off) bs i b small e

  written_same_page :
      (x : ℕ)
      → page_round_down x ≡ va0
      → All (λ b. b < 256) bs
      → (x < va0 + off) ⊎ (va0 + off + length bs ≤ x)
      → user_byte pgdir written x ≡ user_byte pgdir k x
  written_same_page x same small out =
      user_byte_by x
      ∙ ap (λ p. get_byte written.memory (uva2ka pgdir p k + x % page_size)) same
      ∙ put_bytes_other k.memory (uva2ka pgdir va0 k + off) bs (uva2ka pgdir va0 k + x % page_size)
          small (ground arith)
      ∙ ap (λ p. get_byte k.memory (uva2ka pgdir p k + x % page_size)) (sym same)

  written_other_page :
      (x : ℕ)
      → va0 % page_size ≡ 0
      → va0 < 2 ^ 32
      → x < 2 ^ 32
      → page_round_down x ≢ va0
      → user_byte pgdir written x ≡ user_byte pgdir k x
  written_other_page x al top lt differs =
      let x0 = page_round_down x in
      let a = uva2ka pgdir x0 k + x % page_size in
      let page : page_of (a / 4 * 4) ≡ uva2ka pgdir x0 k =
        omega (arith, uva2ka_aligned pgdir x0 k) in
      user_byte_by x
      ∙ ap (λ w. byte_of w (a % 4))
          (other_page (a / 4 * 4)
            (λ e. s.distinct va0 x0 top (omega arith) (omega arith) mapped (sym e ∙ page)))

  pub written_other :
      (x : ℕ)
      → va0 % page_size ≡ 0
      → va0 < 2 ^ 32
      → x < 2 ^ 32
      → All (λ b. b < 256) bs
      → (x < va0 + off) ⊎ (va0 + off + length bs ≤ x)
      → user_byte pgdir written x ≡ user_byte pgdir k x
  written_other x al top lt small out = elim (ℕ_discrete (page_round_down x) va0) [
    | yes same ↦ written_same_page x same small out
    | no differs ↦ written_other_page x al top lt differs
  ]
