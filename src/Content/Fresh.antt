-- ===== src/Content/Fresh.antt =====
-- A block that `balloc` of code/fs.c returns: what else has changed, and which blocks are left.
use os_ex.Shared.{
  ℕ, ◌+◌, ◌%◌, ◌<◌, ◌≤◌, ◌≡◌, ◌≢◌, sym, subst, ap, ◌∙◌, Bool-cases, inl, inr, ltb, ltb→lt, ◌==◌,
  ==_iff, if◌then◌else◌, Returns, Returns_mono, List, [], ◌∷◌, length, All, arith,
}
use os_ex.Log.{Superblock}
use os_ex.Kalloc.FreeList.{Distinct}
use os_ex.Content.{Volume, bits_per_block, bit_at, bzero, bblock, mark, balloc}
use os_ex.Content.Bitmap.{used, used-mark_self, used-mark_ne, Allocated, balloc_lem}
use os_ex.Content.Scanning.{write_self, write_ne}

-- The blocks below `start` are in use, and the free map is among them.
pub record IsLaidOut (sb : Superblock) (start : ℕ) (v : Volume) : Type 0 where
  pub positive : 0 < start
  pub start_in : start ≤ sb.size
  pub reserved : (x : ℕ) → x < start → used sb v x ≢ 0
  pub map_low : (x : ℕ) → x < sb.size → bblock sb x < start

-- The first occurrence of a number is taken out.
abbrev pub remove : ℕ → List ℕ → List ℕ
remove a [] = []
remove a (x ∷ xs) = if x == a then xs else (x ∷ remove a xs)

length-remove : (a : ℕ) (xs : List ℕ) → length xs ≤ length (remove a xs) + 1
length-remove a [] = omega arith
length-remove a (x ∷ xs) = elim (Bool-cases (x == a)) [
  | inl same ↦ rw same (omega arith)
  | inr other ↦ rw other (omega (arith, length-remove a xs))
]

All-remove : (P : ℕ → Type 0) (a : ℕ) (xs : List ℕ) → All P xs → All P (remove a xs)
All-remove P a [] h = tt
All-remove P a (x ∷ xs) h = elim (Bool-cases (x == a)) [
  | inl same ↦ rw same h.1
  | inr other ↦ rw other (h.0, All-remove P a xs h.1)
]

removed_ne : (a : ℕ) (xs : List ℕ) → Distinct xs → All (λ x. x ≢ a) (remove a xs)
removed_ne a [] d = tt
removed_ne a (x ∷ xs) d = elim (Bool-cases (x == a)) [
  | inl same ↦ rw same (subst (λ y. All (λ z. z ≢ y) xs) ((==_iff x a).0 same) d.0)
  | inr other ↦ rw other (λ e. absurd (ground (arith, e)), removed_ne a xs d.1)
]

Distinct-remove : (a : ℕ) (xs : List ℕ) → Distinct xs → Distinct (remove a xs)
Distinct-remove a [] d = tt
Distinct-remove a (x ∷ xs) d = elim (Bool-cases (x == a)) [
  | inl same ↦ rw same d.1
  | inr other ↦ rw other (All-remove (λ w. w ≢ x) a xs d.0, Distinct-remove a xs d.1)
]

module _ (sb : Superblock) where
  -- Distinct free blocks of the volume.
  abbrev pub AreFree : Volume → List ℕ → Type 0
  AreFree v fs = All (λ f. (f < sb.size) × (used sb v f ≡ 0)) fs × Distinct fs

  -- A block taken from the free ones: it is zero, and everything else of the files is as before.
  pub record IsFresh (start : ℕ) (v : Volume) (fs : List ℕ) (a : ℕ) (v' : Volume) : Type 0 where
    pub made : v' ≡ bzero a (mark sb a v)
    pub above : start ≤ a
    pub inside : a < sb.size
    pub was_free : used sb v a ≡ 0
    pub now_used : used sb v' a ≢ 0
    pub zeroed : (i : ℕ) → v'.blocks a i ≡ 0
    pub others : (x : ℕ) → start ≤ x → x ≢ a → v'.blocks x ≡ v.blocks x
    pub others_used : (x : ℕ) → x < sb.size → x ≢ a → used sb v' x ≡ used sb v x
    pub laid_out : IsLaidOut sb start v'
    pub left : (fs' : List ℕ) × AreFree v' fs' × (length fs ≤ length fs' + 1)

  module _ (start : ℕ) (v : Volume) (l : IsLaidOut sb start v) (a : ℕ) (inside : a < sb.size)
      (was_free : used sb v a ≡ 0) where
    abbrev after : Volume
    after = bzero a (mark sb a v)

    not_reserved : start ≤ a
    not_reserved = elim (Bool-cases (ltb a start)) [
      | inl low ↦ absurd (l.reserved a (ltb→lt a start low) was_free)
      | inr high ↦ ground arith
    ]

    after_zeroed : (i : ℕ) → after.blocks a i ≡ 0
    unfolding bzero
    after_zeroed i = ap (λ d. d i) (write_self a (λ j. 0) (mark sb a v))

    after_others : (x : ℕ) → start ≤ x → x ≢ a → after.blocks x ≡ v.blocks x
    unfolding bzero mark
    after_others x high ne =
        write_ne a x (λ j. 0) (mark sb a v) ne
        ∙ write_ne (bblock sb a) x _ v (omega (arith, l.map_low a inside))

    after_used : (x : ℕ) → x < sb.size → used sb after x ≡ used sb (mark sb a v) x
    unfolding bzero
    after_used x top =
        ap (λ d. bit_at d (x % bits_per_block))
          (write_ne a (bblock sb x) (λ j. 0) (mark sb a v)
            (omega (arith, l.map_low x top, not_reserved)))

    after_others_used : (x : ℕ) → x < sb.size → x ≢ a → used sb after x ≡ used sb v x
    after_others_used x top ne = after_used x top ∙ used-mark_ne sb a x v ne

    still_free :
        (fs : List ℕ)
        → All (λ f. (f < sb.size) × (used sb v f ≡ 0)) fs
        → All (λ f. f ≢ a) fs
        → All (λ f. (f < sb.size) × (used sb after f ≡ 0)) fs
    still_free [] h ne = tt
    still_free (f ∷ fs) h ne =
        ((h.0.0, after_others_used f h.0.0 ne.0 ∙ h.0.1), still_free fs h.1 ne.1)

    pub fresh_lem : (fs : List ℕ) → AreFree v fs → IsFresh start v fs a after
    fresh_lem fs free = record {
      made = λ i. after;
      above = not_reserved;
      inside = inside;
      was_free = was_free;
      now_used = λ e. absurd (omega (arith, after_used a inside, used-mark_self sb a v, e));
      zeroed = after_zeroed;
      others = after_others;
      others_used = after_others_used;
      laid_out = record {
        positive = l.positive;
        start_in = l.start_in;
        reserved = λ x low e. l.reserved x low (
            sym (after_others_used x (omega (arith, l.start_in)) (omega (arith, not_reserved)))
            ∙ e);
        map_low = l.map_low;
      };
      left = (
        remove a fs,
        (
          still_free (remove a fs) (All-remove (λ f. (f < sb.size) × (used sb v f ≡ 0)) a fs free.0)
              (removed_ne a fs free.1),
          Distinct-remove a fs free.1,
        ),
        length-remove a fs,
      );
    }

  -- `balloc` returns if there is a free block left.
  pub balloc-IsFresh :
      (start : ℕ) (v : Volume) (f : ℕ) (fs : List ℕ)
      → IsLaidOut sb start v
      → AreFree v (f ∷ fs)
      → Returns (balloc sb v) (λ r. IsFresh start v (f ∷ fs) r.0 r.1)
  balloc-IsFresh start v f fs l free =
      Returns_mono (balloc sb v) (Allocated sb v) (λ r. IsFresh start v (f ∷ fs) r.0 r.1)
        (λ r h.
          subst (λ w. IsFresh start v (f ∷ fs) r.0 w) (sym h.3)
            (fresh_lem start v l r.0 h.0 h.1 (f ∷ fs) free))
        (balloc_lem sb v f free.0.0.0 free.0.0.1)
