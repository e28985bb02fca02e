-- ===== src/Vm/Growing.antt =====
-- `allocuvm` of code/vm.c: the pages by which a process grows.
use os_ex.Shared.{
  ℕ, zero, suc, ◌+◌, ◌-◌, ◌*◌, ◌/◌, ◌%◌, ◌^◌, ◌<◌, ◌≤◌, ◌≡◌, ◌≢◌, refl, sym, subst, ap, ◌∙◌, bit_or,
  true, false, ◌==◌, ltb, leb, if◌then◌else◌, List, [], ◌∷◌, length, length-append, arith, inl, inr,
  Result, ok, panic, Returns, Returns_mono, ℤ, pos, lt_int, page_address-bit_or, page_flags-bit_or,
}
use os_ex.Kalloc.{page_size, kernel_base, v2p, page_round_up, Memory, Kmem, kalloc}
use os_ex.Kalloc.FreeList.{IsPage, kalloc_first}
use os_ex.Vm.{pte_p, pte_w, pte_u, is_present, zero_page}
use os_ex.Vm.Tables.{page_of, pte_of, IsSpace}
use os_ex.Vm.Entry.{indices_differ, KeepsOthers, Written}
use os_ex.Vm.Mapping.{mappages_page}
use os_ex.Vm.Ranges.{AgreesOutside, IsUnmapped, rest-IsUnmapped}
use os_ex.Vm.Fresh.{fresh-IsSpace, fresh-pte_of, zero_page_other}
use os_ex.Vm.Space.{Growth, grown, out_of_memory, map_user, grow_page, alloc_pages, allocuvm}

-- An entry that leads to one of the allocator's pages, which the user may read and write.
abbrev pub IsUserEntry : ℕ → ℕ → Type 0
IsUserEntry kernel_end e = (q : ℕ) × IsPage kernel_end q × (e ≡ v2p q + 7)

-- A round that succeeds: two pages at most are used.
abbrev pub Grown : ℕ → ℕ → ℕ → List ℕ → Kmem → Growth → Type 0
Grown kernel_end pgdir a pages k (out_of_memory mem k') = ⊥
Grown kernel_end pgdir a pages k (grown k') =
    (left : List ℕ) × (length pages ≤ length left + 2)
    × IsSpace kernel_end pgdir k' left
    × IsUserEntry kernel_end (pte_of k'.memory pgdir a)
    × KeepsOthers pgdir a k.memory k'.memory

user_entry :
    (v : ℕ) → v % page_size ≡ 0 → bit_or (bit_or (v2p v) (bit_or pte_w pte_u)) pte_p ≡ v2p v + 7
user_entry v al = omega (arith, first, second)
  where
    aligned : v2p v % 4096 ≡ 0
    aligned = omega arith

    first : bit_or (v2p v) 6 ≡ v2p v + 6
    first = page_address-bit_or (v2p v) 6 aligned (omega arith)

    second : bit_or (bit_or (v2p v) 6) 1 ≡ v2p v + 7
    second =
        ap (λ x. bit_or x 1) first
        ∙ (page_flags-bit_or (v2p v) 6 1 aligned (omega arith) (omega arith)).0

module _ (kernel_end pgdir : ℕ) where
  grown_step :
      (a v w : ℕ) (vs : List ℕ) (k k0 : Kmem) (e : Result (ℤ × Kmem))
      → IsPage kernel_end v
      → ((va : ℕ) → pte_of k0.memory pgdir va ≡ pte_of k.memory pgdir va)
      → Returns e (
          Written kernel_end pgdir a
            (bit_or (bit_or (v2p v) (bit_or pte_w pte_u)) pte_p)
            (w ∷ vs)
            k0)
      → Returns
          (elim e [
            | panic ↦ panic
            | ok (r, k') ↦ if lt_int r (pos 0) then ok (out_of_memory v k') else ok (grown k')
          ])
          (Grown kernel_end pgdir a (v ∷ w ∷ vs) k)
  grown_step a v w vs k k0 panic g kept h = absurd h
  grown_step a v w vs k k0 (ok (r, k')) g kept (inl (none_left, _, _)) = absurd (cc)
  grown_step a v w vs k k0 (ok (r, k')) g kept
        (inr (used, left, split, short, done, s', here, others)) =
      rw done (
        left,
        omega (arith, length-append used left, ap (λ l. length l) split),
        s',
        (v, g, here ∙ user_entry v g.aligned),
        λ va ne. others va ne ∙ kept va,
      )

  grow_page_lem :
      (a v w : ℕ) (vs : List ℕ) (k : Kmem)
      → a % page_size ≡ 0
      → a + page_size ≤ 2 ^ 32
      → IsSpace kernel_end pgdir k (v ∷ w ∷ vs)
      → is_present (pte_of k.memory pgdir a) ≡ false
      → Returns (grow_page pgdir a (kalloc k)) (Grown kernel_end pgdir a (v ∷ w ∷ vs) k)
  unfolding grow_page
  grow_page_lem a v w vs k al top s un =
      let nonnull : (v == 0) ≡ false = ground (arith, s.free.chain.1) in
      let zeroed = zero_page k.memory v in
      let same =
        λ (x : ℕ) (ne : page_of x ≢ v). zero_page_other k.memory v x s.free.sound.0.aligned ne in
      subst (λ r. Returns (grow_page pgdir a r) (Grown kernel_end pgdir a (v ∷ w ∷ vs) k))
        (sym (kalloc_first kernel_end k v (w ∷ vs) s.free))
        (rw nonnull (
          grown_step a v w vs k (record k { freelist = k.memory v; memory = zeroed })
            (map_user pgdir a v (record k { freelist = k.memory v })) s.free.sound.0
            (fresh-pte_of kernel_end pgdir v (w ∷ vs) k s zeroed same)
            (mappages_page kernel_end pgdir (bit_or pte_w pte_u) a (v2p v) (w ∷ vs)
              (record k { freelist = k.memory v; memory = zeroed }) al top
              (fresh-IsSpace kernel_end pgdir v (w ∷ vs) k s zeroed same)
              (ap (λ e. is_present e) (fresh-pte_of kernel_end pgdir v (w ∷ vs) k s zeroed same a)
                ∙ un))))

-- The `n` pages from `a` on are the user's.
abbrev pub AreUsers : ℕ → ℕ → ℕ → ℕ → Memory → Type 0
AreUsers kernel_end pgdir n a m =
    (i : ℕ) → i < n → IsUserEntry kernel_end (pte_of m pgdir (a + i * page_size))

-- What growing by `n` pages from `a` on leaves.
abbrev pub Grew : ℕ → ℕ → ℕ → ℕ → ℕ → Kmem → ℕ × Kmem → Type 0
Grew kernel_end pgdir newsz n a k (r, k') =
    (r ≡ newsz)
    × ((left : List ℕ) × IsSpace kernel_end pgdir k' left)
    × AreUsers kernel_end pgdir n a k'.memory
    × AgreesOutside pgdir n a k.memory k'.memory

module _ (kernel_end pgdir oldsz newsz : ℕ) where
  AreUsers-cons :
      (n a : ℕ) (m : Memory)
      → IsUserEntry kernel_end (pte_of m pgdir a)
      → AreUsers kernel_end pgdir n (a + page_size) m
      → AreUsers kernel_end pgdir (suc n) a m
  AreUsers-cons n a m here each zero lt =
      let at : a ≡ a + zero * page_size = omega arith in
      subst (λ x. IsUserEntry kernel_end (pte_of m pgdir x)) at here
  AreUsers-cons n a m here each (suc i) lt =
      let at : a + page_size + i * page_size ≡ a + suc i * page_size = omega arith in
      subst (λ x. IsUserEntry kernel_end (pte_of m pgdir x)) at (each i (omega arith))

  Grew-cons :
      (n a : ℕ) (k k' : Kmem) (r : ℕ × Kmem)
      → a % page_size ≡ 0
      → a + suc n * page_size ≤ 2 ^ 32
      → IsUserEntry kernel_end (pte_of k'.memory pgdir a)
      → KeepsOthers pgdir a k.memory k'.memory
      → Grew kernel_end pgdir newsz n (a + page_size) k' r
      → Grew kernel_end pgdir newsz (suc n) a k r
  Grew-cons n a k k' (r, k'') al top here kept (size, s, each, outside) = (
    size,
    s,
    AreUsers-cons n a k''.memory
        (subst (IsUserEntry kernel_end) (sym (outside a (omega arith) (inl (omega arith)))) here)
        each,
    λ va h out.
        outside va h (ground arith)
        ∙ kept va (indices_differ a va (omega arith) h (λ e. absurd (ground arith))),
  )

  abbrev Grows : ℕ → Type 0
  Grows fuel =
      (n a : ℕ) (pages : List ℕ) (k : Kmem)
      → n < fuel
      → a % page_size ≡ 0
      → a + n * page_size ≤ 2 ^ 32 - page_size
      → newsz ≤ a + n * page_size
      → a + n * page_size < newsz + page_size
      → n + n ≤ length pages
      → IsSpace kernel_end pgdir k pages
      → IsUnmapped pgdir n a k.memory
      → Returns (alloc_pages kernel_end fuel pgdir a oldsz newsz k)
          (Grew kernel_end pgdir newsz n a k)

  alloc_step :
      (fuel : ℕ)
      → Grows fuel
      → (n a : ℕ) (pages : List ℕ) (k : Kmem) (e : Result Growth) → suc n < suc fuel
      → a % page_size ≡ 0
      → a + suc n * page_size ≤ 2 ^ 32 - page_size
      → newsz ≤ a + suc n * page_size
      → a + suc n * page_size < newsz + page_size
      → suc n + suc n ≤ length pages
      → IsUnmapped pgdir (suc n) a k.memory
      → grow_page pgdir a (kalloc k) ≡ e
      → Returns e (Grown kernel_end pgdir a pages k)
      → Returns
          (alloc_pages kernel_end (suc fuel) pgdir a oldsz newsz k)
          (Grew kernel_end pgdir newsz (suc n) a k)
  unfolding alloc_pages
  alloc_step fuel ih n a pages k panic f al top lo hi enough un e g = absurd g
  alloc_step fuel ih n a pages k (ok (out_of_memory mem k')) f al top lo hi enough un e g = absurd g
  alloc_step fuel ih n a pages k (ok (grown k')) f al top lo hi enough un e
        (left, used, s, here, kept) =
      let more : ltb a newsz ≡ true = ground arith in
      let next : (a + page_size) % 2 ^ 32 ≡ a + page_size = omega arith in
      rw (more, alloc_pages, e, next)
        (Returns_mono (alloc_pages kernel_end fuel pgdir (a + page_size) oldsz newsz k')
          (Grew kernel_end pgdir newsz n (a + page_size) k')
          (Grew kernel_end pgdir newsz (suc n) a k)
          (λ r. Grew-cons n a k k' r al (omega arith) here kept)
          (ih n (a + page_size) left k' (omega arith) (omega arith) (omega arith) (omega arith)
            (omega arith) (omega arith) s
            (rest-IsUnmapped pgdir n a k k' al (omega arith) kept un)))

  alloc_pages_lem : (fuel : ℕ) → Grows fuel
  unfolding alloc_pages
  alloc_pages_lem zero n a pages k f al top lo hi enough s un = absurd (omega arith)
  alloc_pages_lem (suc fuel) zero a pages k f al top lo hi enough s un =
      let done : ltb a newsz ≡ false = ground arith in
      rw (done, alloc_pages) (refl, (pages, s), λ i lt. absurd (omega arith), λ va h out. refl)
  alloc_pages_lem (suc fuel) (suc n) a [] k f al top lo hi enough s un = absurd (omega arith)
  alloc_pages_lem (suc fuel) (suc n) a (v ∷ []) k f al top lo hi enough s un = absurd (omega arith)
  alloc_pages_lem (suc fuel) (suc n) a (v ∷ w ∷ vs) k f al top lo hi enough s un =
      let at : a + zero * page_size ≡ a = omega arith in
      alloc_step fuel (alloc_pages_lem fuel) n a (v ∷ w ∷ vs) k (grow_page pgdir a (kalloc k)) f al
        top lo hi enough un refl
        (grow_page_lem kernel_end pgdir a v w vs k al (omega arith) s
          (ap (λ x. is_present (pte_of k.memory pgdir x)) (sym at) ∙ un zero (omega arith)))

-- Growing a process below the kernel's addresses, with two free pages for each page that it grows
-- by and these pages not mapped, does not panic and returns the new size. Each of them is then
-- mapped to one of the allocator's pages, present, writable and the user's. All other pages are
-- translated as before.
pub allocuvm_lem :
    (kernel_end pgdir oldsz newsz : ℕ) (pages : List ℕ) (k : Kmem)
    → oldsz ≤ newsz
    → newsz < kernel_base
    → let a = page_round_up oldsz in
      let n = (newsz + page_size - 1 - a) / page_size in
      n + n ≤ length pages
      → IsSpace kernel_end pgdir k pages
      → IsUnmapped pgdir n a k.memory
      → Returns (allocuvm kernel_end pgdir oldsz newsz k) (Grew kernel_end pgdir newsz n a k)
unfolding allocuvm
allocuvm_lem kernel_end pgdir oldsz newsz pages k grows low enough s un =
    let below : leb kernel_base newsz ≡ false = ground arith in
    let larger : ltb newsz oldsz ≡ false = ground arith in
    let a = page_round_up oldsz in
    rw (below, larger)
      (alloc_pages_lem kernel_end pgdir oldsz newsz (newsz / page_size + 2)
        ((newsz + page_size - 1 - a) / page_size) a pages k (omega arith) (omega arith)
        (omega arith) (omega arith) (omega arith) enough s un)
