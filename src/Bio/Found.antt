-- ===== src/Bio/Found.antt =====
-- `bget` of code/bio.c finds the buffer of a block, or takes an unused one for it.
use os_ex.Shared.{
  ℕ, ◌+◌, ◌^◌, ◌<◌, ◌≡◌, inl, inr, refl, All, true, false, Result, ok, arith, subst,
  get_elem?-modify_self,
}
use os_ex.Disk.{Block}
use os_ex.Bio.{
  Buf, Bcache, find_or_recycle, test_buf, reversed, is_block, is_unused, referenced, recycled,
  change_buf,
}
use os_ex.Bio.Cached.{
  IsBuf, IsFor, IsCache, Shows, Keeps, Keeps-IsCache, Keeps-Shows, find_buf-cases, test_buf-true,
  All-Contains,
}
use os_ex.Bio.Replace.{recycled-IsCache, recycled-Shows}

-- The cache goes from `c` to `c'`, buffer `i` being the one of block `n`, and nothing that a block
-- shows is changed.
pub record Refers (c : Bcache) (n i : ℕ) (c' : Bcache) : Type 0 where
  pub valid_cache : IsCache c'
  pub buf : Buf
  pub there : IsBuf c' i buf
  pub is_for : IsFor n buf
  pub shows : (m : ℕ) (v : Block) → Shows c m v → Shows c' m v

-- No buffer's counter of references is about to wrap.
abbrev pub HasFewReferences : Bcache → Type 0
HasFewReferences c = (i : ℕ) (b : Buf) → IsBuf c i b → b.refcnt + 1 < 2 ^ 32

referenced-Keeps : (b : Buf) → b.refcnt + 1 < 2 ^ 32 → Keeps b (referenced b)
referenced-Keeps b h = record {
  dev = refl;
  blockno = refl;
  valid = refl;
  dirty = refl;
  bytes = refl;
  refcnt = λ q. omega (arith, h, q);
}

is_block-IsFor : (n : ℕ) (b : Buf) → is_block 1 n b ≡ true → IsFor n b
is_block-IsFor n b h = ground arith

is_block-false : (n : ℕ) (b : Buf) → is_block 1 n b ≡ false → ¬ IsFor n b
is_block-false n b h i = ground arith

Refers-ok :
    (c : Bcache) (n i j : ℕ) (x y : Bcache)
    → ◌≡◌ {A = Result (ℕ × Bcache)} (ok (i, x)) (ok (j, y))
    → Refers c n i x
    → Refers c n j y
Refers-ok c n i j x y e r =
    let p : ◌≡◌ {A = ℕ × Bcache} (i, x) (j, y) = cc e in subst (λ z. Refers c n z.0 z.1) p r

module _ (c : Bcache) (n : ℕ) (k : IsCache c) (few : HasFewReferences c) where
  hit : (i : ℕ) → test_buf (is_block 1 n) c i ≡ true → Refers c n i (change_buf i referenced c)
  hit i h =
      let (b, at, passes) = test_buf-true (is_block 1 n) c i h in
      let keeps = referenced-Keeps b (few i b at) in
      record {
        valid_cache = Keeps-IsCache c i referenced b at keeps k;
        buf = referenced b;
        there = get_elem?-modify_self c.bufs i referenced b at;
        is_for = is_block-IsFor n b passes;
        shows = Keeps-Shows c i referenced b at keeps;
      }

  miss :
      (i : ℕ)
      → All (λ j. test_buf (is_block 1 n) c j ≡ false) c.order
      → test_buf is_unused c i ≡ true
      → Refers c n i (change_buf i (recycled 1 n) c)
  miss i none_for h =
      let (b, at, passes) = test_buf-true is_unused c i h in
      let (unused, undirty) = unused_parts b passes in
      record {
        valid_cache = recycled-IsCache c i n b k at missing unused undirty;
        buf = recycled 1 n b;
        there = get_elem?-modify_self c.bufs i (recycled 1 n) b at;
        is_for = (refl, refl);
        shows = recycled-Shows c i n b k at missing unused undirty;
      }
    where
      unused_parts : (b : Buf) → is_unused b ≡ true → (b.refcnt ≡ 0) × (b.dirty ≡ false)
      unused_parts b p = ground arith

      missing : (j : ℕ) (x : Buf) → IsBuf c j x → ¬ IsFor n x
      missing j x was =
          let all : test_buf (is_block 1 n) c j ≡ false =
            All-Contains (λ j. test_buf (is_block 1 n) c j ≡ false) j c.order none_for
              (k.linked j x was) in
          is_block-false n x (rw (test_buf, was) at all)

  pub find_or_recycle-Refers :
      (i : ℕ) (c' : Bcache) → find_or_recycle 1 n c ≡ ok (i, c') → Refers c n i c'
  unfolding find_or_recycle
  find_or_recycle-Refers i c' e = elim (find_buf-cases (test_buf (is_block 1 n) c) c.order) [
    | inr (j, found, passes) ↦
        Refers-ok c n j i (change_buf j referenced c) c' (rw (find_or_recycle, found) at e)
          (hit j passes)
    | inl (not_found, none_for) ↦ elim (find_buf-cases (test_buf is_unused c) (reversed c.order)) [
      | inr (j, found, passes) ↦
          Refers-ok c n j i (change_buf j (recycled 1 n) c) c'
            (rw (find_or_recycle, not_found, found) at e) (miss j none_for passes)
      | inl (no_unused, _) ↦ cc (rw (find_or_recycle, not_found, no_unused) at e)
    ]
  ]
