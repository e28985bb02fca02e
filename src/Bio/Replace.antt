-- ===== src/Bio/Replace.antt =====
-- `bget` of code/bio.c takes an unused buffer for another block, and `iderw` of code/memide.c reads
-- into a buffer: what every block shows stays.
use os_ex.Shared.{
  ℕ, ◌≡◌, ◌≢◌, inl, inr, refl, true, false, get_elem?, get_elem?-modify_self, get_elem?-modify_ne,
  some-injective, ◌∙◌, ap, sym,
}
use native.Mathlib.Decide.{ℕ_discrete}
use os_ex.Disk.{Block}
use os_ex.Bio.{Buf, Bcache, recycled, change_buf}
use os_ex.Bio.Cached.{IsBuf, IsFor, IsCache, Shows, cached, on_disk, change_buf-cases}

module _ (c : Bcache) (i n : ℕ) (b : Buf) (k : IsCache c) (at : IsBuf c i b) where
  same_buf : (j : ℕ) (y : Buf) → j ≡ i → IsBuf c j y → y ≡ b
  same_buf j y e was = some-injective y b (sym was ∙ ap (get_elem? c.bufs) e ∙ at)

  -- The entry is the changed one, or it was there before.
  other_buf : (f : Buf → Buf) (j : ℕ) (y : Buf) → j ≢ i → IsBuf c j y → IsBuf (change_buf i f c) j y
  other_buf f j y ne was = get_elem?-modify_ne c.bufs i j f (λ q. ne (sym q)) ∙ was

  own_buf : (f : Buf → Buf) → IsBuf (change_buf i f c) i (f b)
  own_buf f = get_elem?-modify_self c.bufs i f b at

  module _ (missing : (j : ℕ) (x : Buf) → IsBuf c j x → ¬ IsFor n x) (unused : b.refcnt ≡ 0)
      (undirty : b.dirty ≡ false) where
    abbrev replaced : Bcache
    replaced = change_buf i (recycled 1 n) c

    replaced_unique :
        (j j' m : ℕ) (x x' : Buf)
        → IsBuf replaced j x
        → IsBuf replaced j' x'
        → IsFor m x
        → IsFor m x'
        → j ≡ j'
    replaced_unique j j' m x x' e e' is is' =
        elim (change_buf-cases c i (recycled 1 n) b j x at e) [
          | inl (q, r) ↦ elim (change_buf-cases c i (recycled 1 n) b j' x' at e') [
            | inl (q', r') ↦ q ∙ sym q'
            | inr (ne', was') ↦
                absurd (missing j' x' was' (is'.0, is'.1 ∙ sym is.1 ∙ ap (λ z. z.blockno) r))
          ]
          | inr (ne, was) ↦ elim (change_buf-cases c i (recycled 1 n) b j' x' at e') [
            | inl (q', r') ↦
                absurd (missing j x was (is.0, is.1 ∙ sym is'.1 ∙ ap (λ z. z.blockno) r'))
            | inr (ne', was') ↦ k.unique j j' m x x' was was' is is'
          ]
        ]

    pub recycled-IsCache : IsCache replaced
    recycled-IsCache = record {
      linked = λ j x e. elim (change_buf-cases c i (recycled 1 n) b j x at e) [
        | inl (q, r) ↦ k.linked j b (ap (get_elem? c.bufs) q ∙ at)
        | inr (ne, was) ↦ k.linked j x was
      ];
      unique = replaced_unique;
      clean = λ j m x e is ok un refs. elim (change_buf-cases c i (recycled 1 n) b j x at e) [
        | inl (q, r) ↦ cc (ok, ap (λ z. z.valid) r)
        | inr (ne, was) ↦ k.clean j m x was is ok un refs
      ];
      whole = λ j x e d. elim (change_buf-cases c i (recycled 1 n) b j x at e) [
        | inl (q, r) ↦ cc (d, ap (λ z. z.dirty) r)
        | inr (ne, was) ↦ k.whole j x was d
      ];
    }

    pub recycled-Shows : (m : ℕ) (v : Block) → Shows c m v → Shows replaced m v
    recycled-Shows m v (cached j y was is ok p) = elim (ℕ_discrete j i) [
      | yes q ↦
          let r = same_buf j y q was in
          on_disk
            (λ j' x e is'. elim (change_buf-cases c i (recycled 1 n) b j' x at e) [
              | inl (_, t) ↦ ap (λ z. z.valid) t
              | inr (ne, was') ↦ absurd (ne (k.unique j' j m x y was' was is' is ∙ q))
            ])
            (sym (
                k.clean j m y was is ok (ap (λ z. z.dirty) r ∙ undirty)
                  (ap (λ z. z.refcnt) r ∙ unused))
              ∙ p)
      | no ne ↦ cached j y (other_buf (recycled 1 n) j y ne was) is ok p
    ]
    recycled-Shows m v (on_disk none_valid p) =
        on_disk
          (λ j x e is. elim (change_buf-cases c i (recycled 1 n) b j x at e) [
            | inl (_, t) ↦ ap (λ z. z.valid) t
            | inr (ne, was) ↦ none_valid j x was is
          ])
          p

  -- what `iderw` makes of a buffer that it reads into
  abbrev pub filled : Buf → Buf
  filled x = record x { bytes = c.memdisk b.blockno; valid = true }

  module _ (is_for : IsFor n b) (invalid : b.valid ≡ false) where
    abbrev read_in : Bcache
    read_in = change_buf i filled c

    -- the entry as it was, with the same number
    was_there :
        (j : ℕ) (x : Buf)
        → IsBuf read_in j x
        → (y : Buf) × IsBuf c j y × (x.dev ≡ y.dev) × (x.blockno ≡ y.blockno)
    was_there j x e = elim (change_buf-cases c i filled b j x at e) [
      | inl (q, r) ↦ (b, ap (get_elem? c.bufs) q ∙ at, ap (λ z. z.dev) r, ap (λ z. z.blockno) r)
      | inr (ne, was) ↦ (x, was, refl, refl)
    ]

    pub filled-IsCache : IsCache read_in
    filled-IsCache = record {
      linked = λ j x e. let (y, was, d, q) = was_there j x e in k.linked j y was;
      unique = λ j j' m x x' e e' is is'.
          let (y, was, d, q) = was_there j x e in
          let (y', was', d', q') = was_there j' x' e' in
          k.unique j j' m y y' was was' (sym d ∙ is.0, sym q ∙ is.1)
            (sym d' ∙ is'.0, sym q' ∙ is'.1);
      clean = λ j m x e is ok un refs. elim (change_buf-cases c i filled b j x at e) [
        | inl (q, r) ↦ ap (λ z. z.bytes) r ∙ ap c.memdisk (sym (ap (λ z. z.blockno) r) ∙ is.1)
        | inr (ne, was) ↦ k.clean j m x was is ok un refs
      ];
      whole = λ j x e d. elim (change_buf-cases c i filled b j x at e) [
        | inl (q, r) ↦ ap (λ z. z.valid) r
        | inr (ne, was) ↦ k.whole j x was d
      ];
    }

    pub filled-Shows : (m : ℕ) (v : Block) → Shows c m v → Shows read_in m v
    filled-Shows m v (cached j y was is ok p) = elim (ℕ_discrete j i) [
      | yes q ↦ cc (ok, ap (λ z. z.valid) (same_buf j y q was), invalid)
      | no ne ↦ cached j y (other_buf filled j y ne was) is ok p
    ]
    filled-Shows m v (on_disk none_valid p) = elim (ℕ_discrete m b.blockno) [
      | yes q ↦
          cached i (filled b) (own_buf filled) (is_for.0, sym q) refl (sym (ap c.memdisk q) ∙ p)
      | no ne ↦
          on_disk
            (λ j x e is. elim (change_buf-cases c i filled b j x at e) [
              | inl (_, t) ↦ absurd (ne (sym is.1 ∙ ap (λ z. z.blockno) t))
              | inr (_, was) ↦ none_valid j x was is
            ])
            p
    ]
