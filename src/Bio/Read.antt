-- ===== src/Bio/Read.antt =====
-- `bread` of code/bio.c returns the buffer of the block, with what the block shows.
use os_ex.Shared.{
  ℕ, ◌≡◌, inl, inr, refl, true, false, Option, none, some, Result, ok, panic, ◌>>=◌, Bool-cases,
  if◌then◌else◌, arith, ◌∙◌, sym, subst, get_elem?-modify_self,
}
use os_ex.Disk.{Block}
use os_ex.Bio.{
  Buf, Bcache, find_or_recycle, test_buf, change_buf, acquire_buf, bget, sync_buf, iderw, load,
  load_locked, bread,
}
use os_ex.Bio.Cached.{
  IsBuf, IsCache, Shows, cached, Shows-unique, Keeps, Keeps-IsCache, Keeps-Shows,
}
use os_ex.Bio.Replace.{filled-IsCache, filled-Shows}
use os_ex.Bio.Found.{Refers, HasFewReferences, find_or_recycle-Refers}

bind-ok :
    {A : Type 0} {B : Type 0} (r : Result A) (f : A → Result B) (y : B)
    → (r >>= f) ≡ ok y
    → (a : A) × (r ≡ ok a) × (f a ≡ ok y)
bind-ok (ok a) f y h = (a, refl, h)
bind-ok panic f y h = cc h

-- The buffer is locked, too.
abbrev pub HasLocked : Bcache → ℕ → ℕ → Bcache → Type 0
HasLocked c n i c' = (r : Refers c n i c') × (r.buf.locked ≡ true)

module _ (c : Bcache) (n : ℕ) where
  pub acquire_buf-HasLocked :
      (i j : ℕ) (c' c'' : Bcache)
      → Refers c n i c'
      → acquire_buf i c' ≡ (some j, c'')
      → HasLocked c n j c''
  unfolding acquire_buf
  acquire_buf-HasLocked i j c' c'' r e = elim (Bool-cases (test_buf (λ b. b.locked) c' i)) [
    | inl busy ↦ cc (rw (acquire_buf, busy) at e)
    | inr free ↦
        let p : ◌≡◌ {A = Option ℕ × Bcache} (some i, change_buf i lock_it c') (some j, c'') =
          rw (acquire_buf, free) at e in
        let same : ◌≡◌ {A = ℕ × Bcache} (i, change_buf i lock_it c') (j, c'') = cc p in
        subst (λ z. HasLocked c n z.0 z.1) same
          (
            record {
              valid_cache = Keeps-IsCache c' i lock_it r.buf r.there keeps r.valid_cache;
              buf = lock_it r.buf;
              there = get_elem?-modify_self c'.bufs i lock_it r.buf r.there;
              is_for = r.is_for;
              shows = λ m v s. Keeps-Shows c' i lock_it r.buf r.there keeps m v (r.shows m v s);
            },
            refl,
          )
  ]
    where
      lock_it : Buf → Buf
      lock_it b = record b { locked = true }

      keeps : Keeps r.buf (lock_it r.buf)
      keeps = record {
        dev = refl;
        blockno = refl;
        valid = refl;
        dirty = refl;
        bytes = refl;
        refcnt = λ q. q;
      }

  -- what `iderw` makes of a buffer that it reads into
  abbrev filled_from : Buf → Bcache → Buf → Buf
  filled_from b c' x = record x { bytes = c'.memdisk b.blockno; valid = true }

  sync_buf-read :
      (i : ℕ) (c' c'' : Bcache) (b : Buf)
      → b.dirty ≡ false
      → sync_buf b i c' ≡ ok c''
      → c'' ≡ change_buf i (filled_from b c') c'
  unfolding sync_buf
  sync_buf-read i c' c'' b undirty e = ground arith

  -- Reading into a locked buffer that is not valid, if it does not panic.
  iderw-read :
      (i : ℕ) (c' c'' : Bcache) (b : Buf)
      → IsBuf c' i b
      → b.valid ≡ false
      → b.dirty ≡ false
      → iderw i c' ≡ ok c''
      → c'' ≡ change_buf i (filled_from b c') c'
  unfolding iderw
  iderw-read i c' c'' b at invalid undirty e =
      sync_buf-read i c' c'' b undirty (rw (iderw, at) at e)

  pub load_at :
      (i : ℕ) (c' : Bcache) (b : Buf)
      → IsBuf c' i b
      → load i c' ≡ (if b.valid then ok (i, c') else iderw i c' >>= λ x. ok (i, x))
  unfolding load
  load_at i c' b at = rw (test_buf, at) refl

  load_invalid :
      (i : ℕ) (c' : Bcache) (h : HasLocked c n i c')
      → h.0.buf.valid ≡ false
      → (g : HasLocked c n i (change_buf i (filled_from h.0.buf c') c')) × (g.0.buf.valid ≡ true)
  load_invalid i c' (r, l) v = (
    (
      record {
        valid_cache = filled-IsCache c' i n r.buf r.valid_cache r.there r.is_for v;
        buf = filled_from r.buf c' r.buf;
        there = get_elem?-modify_self c'.bufs i (filled_from r.buf c') r.buf r.there;
        is_for = r.is_for;
        shows =
            λ m w s. filled-Shows c' i n r.buf r.valid_cache r.there r.is_for v m w (r.shows m w s);
      },
      l,
    ),
    refl,
  )

  load-HasLocked :
      (i j : ℕ) (c' c'' : Bcache)
      → HasLocked c n i c'
      → load i c' ≡ ok (j, c'')
      → (h : HasLocked c n j c'') × (h.0.buf.valid ≡ true)
  load-HasLocked i j c' c'' (r, l) e =
      let e' = sym (load_at i c' r.buf r.there) ∙ e in
      elim (Bool-cases r.buf.valid) [
        | inl v ↦
            let p : ◌≡◌ {A = ℕ × Bcache} (i, c') (j, c'') = cc (rw v at e') in
            subst (λ z. (h : HasLocked c n z.0 z.1) × (h.0.buf.valid ≡ true)) p ((r, l), v)
        | inr v ↦
            let (c3, d, f) = bind-ok (iderw i c') (λ x. ok (i, x)) (j, c'') (rw v at e') in
            let filled_in = iderw-read i c' c3 r.buf r.there v (undirty v) d in
            let p : ◌≡◌ {A = ℕ × Bcache} (i, change_buf i (filled_from r.buf c') c') (j, c'') =
              cc (f, filled_in) in
            subst (λ z. (h : HasLocked c n z.0 z.1) × (h.0.buf.valid ≡ true)) p
              (load_invalid i c' (r, l) v)
      ]
    where
      undirty : r.buf.valid ≡ false → r.buf.dirty ≡ false
      undirty v = elim (Bool-cases r.buf.dirty) [
        | inl d ↦ cc (v, r.valid_cache.whole i r.buf r.there d)
        | inr d ↦ d
      ]

  load_rest :
      (o : Option ℕ) (i : ℕ) (c' c'' : Bcache)
      → ((j : ℕ) → o ≡ some j → HasLocked c n j c')
      → load_locked o c' ≡ ok (some i, c'')
      → (h : HasLocked c n i c'') × (h.0.buf.valid ≡ true)
  load_rest none i c' c'' h e = cc e
  load_rest (some j) i c' c'' h e =
      let ((j', c3), d, f) = bind-ok (load j c') (λ l. ok (some l.0, l.1)) (some i, c'') e in
      let p : ◌≡◌ {A = ℕ × Bcache} (j', c3) (i, c'') = cc f in
      subst (λ z. (h : HasLocked c n z.0 z.1) × (h.0.buf.valid ≡ true)) p
        (load-HasLocked j j' c' c3 (h j refl) d)

  -- Let the cache be well-formed, with no counter of references about to wrap. If `bread` of a block
  -- of the disk returns a buffer, the buffer is locked and valid, it is the block's, and it has what
  -- the block showed before. The cache stays well-formed, and every block shows what it showed.
  pub bread_lem :
      (v : Block) (i : ℕ) (c' : Bcache)
      → IsCache c
      → HasFewReferences c
      → Shows c n v
      → bread 1 n c ≡ ok (some i, c')
      → (h : HasLocked c n i c') × (h.0.buf.valid ≡ true) × (h.0.buf.bytes ≡ v)
  unfolding bread bget
  bread_lem v i c' k few s e =
      let ((o, c2), d, f) = bind-ok (bget 1 n c) _ (some i, c') e in
      let ((j, c1), d', f') = bind-ok (find_or_recycle 1 n c) _ (o, c2) d in
      let referred = find_or_recycle-Refers c n k few j c1 d' in
      let ((r, l), ok_valid) =
        load_rest o i c2 c' (λ j' q. acquire_buf-HasLocked j j' c1 c2 referred (cc (f', q))) f in
      (
        (r, l),
        ok_valid,
        Shows-unique c' n r.buf.bytes v r.valid_cache
            (cached i r.buf r.there r.is_for ok_valid refl) (r.shows n v s),
      )
