-- ===== src/Kalloc/FreeList.antt =====
-- The free list of code/kalloc.c as a stack of pages: what `kfree` and `kalloc` do to it.
use os_ex.Shared.{
  ℕ, ◌%◌, ◌≤◌, ◌<◌, ◌≡◌, refl, ◌≢◌, ◌↔◌, ◌⊎◌, false, ◌==◌, List, [], ◌∷◌, All, panic, Returns,
  arith,
}
use os_ex.Kalloc.{page_size, phys_stop, v2p, Memory, Kmem, fill_page, store, is_bad, kfree, kalloc}

-- From `p` the words of memory lead through exactly these pages to null.
abbrev pub Chain : Memory → ℕ → List ℕ → Type 0
Chain m p [] = p ≡ 0
Chain m p (q ∷ qs) = (p ≡ q) × (q ≢ 0) × Chain m (m q) qs

-- A page that the allocator may hand out.
pub record IsPage (kernel_end v : ℕ) : Type 0 where
  pub aligned : v % page_size ≡ 0
  pub above : kernel_end ≤ v
  pub below : v2p v < phys_stop
  pub nonnull : v ≢ 0

abbrev pub Distinct : List ℕ → Type 0
Distinct [] = Unit {0}
Distinct (v ∷ vs) = All (λ w. w ≢ v) vs × Distinct vs

-- The list holds these pages, each once.
pub record IsFree (kernel_end : ℕ) (k : Kmem) (pages : List ℕ) : Type 0 where
  pub chain : Chain k.memory k.freelist pages
  pub distinct : Distinct pages
  pub sound : All (IsPage kernel_end) pages

-- Writing all over a page that the chain does not visit leaves the chain.
Chain-store :
    (kernel_end : ℕ) (m : Memory) (p v w : ℕ) (pages : List ℕ)
    → v % page_size ≡ 0
    → All (IsPage kernel_end) pages
    → All (λ q. q ≢ v) pages
    → Chain m p pages
    → Chain (store (fill_page m v) v w) p pages
Chain-store kernel_end m p v w [] a s d c = c
Chain-store kernel_end m p v w (q ∷ qs) a s d c =
    let kept : store (fill_page m v) v w q ≡ m q = ground arith in
    (c.0, c.1, rw kept (Chain-store kernel_end m (m q) v w qs a s.1 d.1 c.2))

-- What `kalloc` returns, by the pages that are free before the call.
abbrev pub Popped : ℕ → Kmem → List ℕ → ℕ × Kmem → Type 0
Popped kernel_end k [] r = r ≡ (0, k)
Popped kernel_end k (v ∷ vs) r = (r.0 ≡ v) × IsFree kernel_end r.1 vs × (r.1.use_lock ≡ k.use_lock)

module _ (kernel_end : ℕ) where
  -- `kfree` panics exactly on an address that is not a page of its range.
  kfree-panic :
      (v : ℕ) (k : Kmem)
      → (kfree kernel_end v k ≡ panic)
        ↔ ((v % page_size ≢ 0) ⊎ ((v < kernel_end) ⊎ (phys_stop ≤ v2p v)))
  unfolding kfree
  kfree-panic v k = (λ h. ground arith, λ h. ground arith)

  -- Freeing a page that is not free pushes it on the free list.
  pub kfree_lem :
      (v : ℕ) (k : Kmem) {pages : List ℕ}
      → IsPage kernel_end v
      → IsFree kernel_end k pages
      → All (λ q. q ≢ v) pages
      → Returns (kfree kernel_end v k) (λ k'. IsFree kernel_end k' (v ∷ pages))
  unfolding kfree
  kfree_lem v k {pages} g f d = rw good (record {
    chain = (
      refl,
      g.nonnull,
      rw hit (
          Chain-store kernel_end k.memory k.freelist v k.freelist pages g.aligned f.sound d
            f.chain),
    );
    distinct = (d, f.distinct);
    sound = (g, f.sound);
  })
    where
      good : is_bad kernel_end v ≡ false
      good = ground arith

      hit : store (fill_page k.memory v) v k.freelist v ≡ k.freelist
      hit = ground arith

  -- `kalloc` pops the page freed last; it returns null, and changes nothing, only if none is free.
  kalloc_lem :
      (k : Kmem) (pages : List ℕ) → IsFree kernel_end k pages → Popped kernel_end k pages (kalloc k)
  unfolding kalloc
  kalloc_lem k [] f = ground arith
  kalloc_lem k (v ∷ vs) f =
      let top : k.freelist ≡ v = f.chain.0 in
      let nonnull : (k.freelist == 0) ≡ false = ground arith in
      rw nonnull
        (top, record { chain = rw top f.chain.2; distinct = f.distinct.1; sound = f.sound.1 }, refl)

  pub kalloc_last : (k : Kmem) → IsFree kernel_end k [] → kalloc k ≡ (0, k)
  kalloc_last k f = kalloc_lem k [] f

  pub kalloc_first :
      (k : Kmem) (v : ℕ) (vs : List ℕ)
      → IsFree kernel_end k (v ∷ vs)
      → kalloc k ≡ (v, record k { freelist = k.memory v })
  unfolding kalloc
  kalloc_first k v vs f =
      let top : k.freelist ≡ v = f.chain.0 in
      let nonnull : (k.freelist == 0) ≡ false = ground arith in rw (nonnull, top) refl
