-- ===== src/Bio/Total.antt =====
-- `bread` of code/bio.c returns a buffer when no lock is held and some buffer is free.
use os_ex.Shared.{
  ℕ, ◌<◌, ◌≡◌, ◌⊎◌, inl, inr, refl, Bool, true, false, some, List, [], ◌∷◌, ◌++◌,
  get_elem?-modify_self, ok, Bool-cases, arith, ◌∙◌,
}
use os_ex.Disk.{Block}
use os_ex.Bio.{
  Buf, Bcache, find_or_recycle, test_buf, reversed, is_block, is_unused, referenced, recycled,
  change_buf, acquire_buf, bget, iderw, sync_buf, load, bread,
}
use os_ex.Bio.Cached.{Contains, IsBuf, IsCache, Shows, find_buf-cases, test_buf-true, All-Contains}
use os_ex.Bio.Found.{HasFewReferences, find_or_recycle-Refers}
use os_ex.Bio.Read.{HasLocked, acquire_buf-HasLocked, load_at, bread_lem}

Contains-append :
    (i : ℕ) (xs ys : List ℕ) → (Contains i xs) ⊎ (Contains i ys) → Contains i (xs ++ ys)
Contains-append i [] ys (inl c) = elim c [ ]
Contains-append i [] ys (inr c) = c
Contains-append i (x ∷ xs) ys (inl (inl e)) = inl e
Contains-append i (x ∷ xs) ys (inl (inr c)) = inr (Contains-append i xs ys (inl c))
Contains-append i (x ∷ xs) ys (inr c) = inr (Contains-append i xs ys (inr c))

Contains-reversed : (i : ℕ) (xs : List ℕ) → Contains i xs → Contains i (reversed xs)
Contains-reversed i [] c = elim c [ ]
Contains-reversed i (x ∷ xs) (inl e) = Contains-append i (reversed xs) (x ∷ []) (inr (inl e))
Contains-reversed i (x ∷ xs) (inr c) =
    Contains-append i (reversed xs) (x ∷ []) (inl (Contains-reversed i xs c))

-- Every lock is free.
abbrev pub AreUnlocked : Bcache → Type 0
AreUnlocked c = (i : ℕ) (b : Buf) → IsBuf c i b → b.locked ≡ false

module _ (c : Bcache) (n : ℕ) (k : IsCache c) (few : HasFewReferences c) where
  still_free :
      (t : Buf → Bool)
      → AreUnlocked c
      → (j : ℕ) (f : Buf → Buf) → ((x : Buf) → (f x).locked ≡ x.locked)
      → test_buf t c j ≡ true
      → test_buf (λ x. x.locked) (change_buf j f c) j ≡ false
  still_free t free j f keeps passes =
      let (x, there, _) = test_buf-true t c j passes in
      rw (test_buf, get_elem?-modify_self c.bufs j f x there) (keeps x ∙ free j x there)

  -- Some buffer is found, and its lock is free.
  find_or_recycle-ok :
      (u : ℕ) (b : Buf)
      → IsBuf c u b
      → is_unused b ≡ true
      → AreUnlocked c
      → (i : ℕ) × (c' : Bcache) × (find_or_recycle 1 n c ≡ ok (i, c'))
        × (c'.disksize ≡ c.disksize)
        × (test_buf (λ x. x.locked) c' i ≡ false)
  unfolding find_or_recycle
  find_or_recycle-ok u b at unused free =
      elim (find_buf-cases (test_buf (is_block 1 n) c) c.order) [
        | inr (j, found, passes) ↦ (
          j,
          change_buf j referenced c,
          rw (find_or_recycle, found) refl,
          refl,
          still_free (is_block 1 n) free j referenced (λ x. refl) passes,
        )
        | inl (not_found, none_for) ↦
            elim (find_buf-cases (test_buf is_unused c) (reversed c.order)) [
              | inr (j, found, passes) ↦ (
                j,
                change_buf j (recycled 1 n) c,
                rw (find_or_recycle, not_found, found) refl,
                refl,
                still_free is_unused free j (recycled 1 n) (λ x. refl) passes,
              )
              | inl (no_unused, all) ↦
                  let used : test_buf is_unused c u ≡ false =
                    All-Contains (λ j. test_buf is_unused c j ≡ false) u (reversed c.order) all
                      (Contains-reversed u c.order (k.linked u b at)) in
                  cc (unused, rw (test_buf, at) at used)
            ]
      ]

sync_buf-ok :
    (i : ℕ) (c : Bcache) (b : Buf)
    → b.locked ≡ true
    → b.valid ≡ false
    → b.dirty ≡ false
    → b.dev ≡ 1
    → b.blockno < c.disksize
    → sync_buf b i c
      ≡ ok (change_buf i (λ x. record x { bytes = c.memdisk b.blockno; valid = true }) c)
unfolding sync_buf
sync_buf-ok i c b l v d dev inside = ground arith

load-ok :
    (c0 : Bcache) (n i : ℕ) (c : Bcache)
    → HasLocked c0 n i c
    → n < c.disksize
    → (c' : Bcache) × (load i c ≡ ok (i, c'))
unfolding iderw
load-ok c0 n i c (r, l) inside = elim (Bool-cases r.buf.valid) [
  | inl v ↦ (c, load_at c0 n i c r.buf r.there ∙ rw v refl)
  | inr v ↦
      let undirty : r.buf.dirty ≡ false = elim (Bool-cases r.buf.dirty) [
        | inl d ↦ cc (v, r.valid_cache.whole i r.buf r.there d)
        | inr d ↦ d
      ] in
      let reads =
        sync_buf-ok i c r.buf l v undirty r.is_for.0 (omega (arith, inside, r.is_for.1)) in
      (
        change_buf i (λ x. record x { bytes = c.memdisk r.buf.blockno; valid = true }) c,
        load_at c0 n i c r.buf r.there ∙ rw (v, iderw, r.there, reads) refl,
      )
]

acquire_buf-free :
    (i : ℕ) (c : Bcache)
    → test_buf (λ x. x.locked) c i ≡ false
    → acquire_buf i c ≡ (some i, change_buf i (λ x. record x { locked = true }) c)
unfolding acquire_buf
acquire_buf-free i c h = rw (acquire_buf, h) refl

-- Let the cache be well-formed, with no counter of references about to wrap, no lock held, and some
-- buffer that is not referenced and clean. Then `bread` of a block that the disk has does not panic
-- or sleep: it returns a buffer of the block, locked and valid, with what the block showed.
pub bread_returns :
    (c : Bcache) (n : ℕ) (v : Block) (u : ℕ) (b : Buf)
    → IsCache c
    → HasFewReferences c
    → Shows c n v
    → IsBuf c u b
    → is_unused b ≡ true
    → AreUnlocked c
    → n < c.disksize
    → (i : ℕ) × (c' : Bcache) × (bread 1 n c ≡ ok (some i, c'))
      × ((h : HasLocked c n i c') × (h.0.buf.valid ≡ true) × (h.0.buf.bytes ≡ v))
unfolding bread bget
bread_returns c n v u b k few s at unused free inside =
    let (i, c1, e1, size, unlocked) = find_or_recycle-ok c n k few u b at unused free in
    let e2 = acquire_buf-free i c1 unlocked in
    let locked =
      acquire_buf-HasLocked c n i i c1 (change_buf i (λ x. record x { locked = true }) c1)
        (find_or_recycle-Refers c n k few i c1 e1) e2 in
    let (c', e3) =
      load-ok c n i (change_buf i (λ x. record x { locked = true }) c1) locked
        (omega (arith, inside, size)) in
    let whole : bread 1 n c ≡ ok (some i, c') = rw (e1, e2, e3) refl in
    (i, c', whole, bread_lem c n v i c' k few s whole)
