-- ===== src/Content/Bitmap.antt =====
-- `balloc` and `bfree` of code/fs.c against the set of blocks in use that the free map stands for.
use native.Mathlib.Decide.{ℕ_discrete}
use os_ex.Shared.{
  ℕ, zero, suc, ◌+◌, ◌-◌, ◌/◌, ◌%◌, ◌<◌, ◌≤◌, ◌≡◌, ◌≢◌, inl, inr, refl, sym, ap, ◌∙◌, true, false,
  Bool-cases, ltb, ltb→lt, ◌==◌, Returns, Option, none, some, arith,
}
use os_ex.Log.{Superblock}
use os_ex.Content.{
  Volume, bits_per_block, bit_at, mark_at, unmark_at, write, bzero, scan, bblock, mark, balloc_from,
  balloc, bfree,
}
use os_ex.Content.Bits.{
  bit_at-mark_at_self, bit_at-mark_at_ne, bit_at-unmark_at_self, bit_at-unmark_at_ne,
}
use os_ex.Content.Scanning.{write_self, write_ne, Scanned, scan_lem}

module _ (sb : Superblock) where
  -- The bit of a block.
  abbrev pub used : Volume → ℕ → ℕ
  used v b = bit_at (v.blocks (bblock sb b)) (b % bits_per_block)

  pub used-mark_self : (b : ℕ) (v : Volume) → used (mark sb b v) b ≡ 1
  unfolding mark
  used-mark_self b v =
      ap (λ d. bit_at d (b % bits_per_block))
        (write_self (bblock sb b) (mark_at (v.blocks (bblock sb b)) (b % bits_per_block)) v)
      ∙ bit_at-mark_at_self (v.blocks (bblock sb b)) (b % bits_per_block)

  pub used-mark_ne : (b x : ℕ) (v : Volume) → x ≢ b → used (mark sb b v) x ≡ used v x
  unfolding mark
  used-mark_ne b x v ne =
      let d = mark_at (v.blocks (bblock sb b)) (b % bits_per_block) in
      elim (ℕ_discrete (bblock sb x) (bblock sb b)) [
        | yes same ↦
            ap (λ c. bit_at ((write (bblock sb b) d v).blocks c) (x % bits_per_block)) same
            ∙ ap (λ e. bit_at e (x % bits_per_block)) (write_self (bblock sb b) d v)
            ∙ bit_at-mark_at_ne (v.blocks (bblock sb b)) (b % bits_per_block) (x % bits_per_block)
                (omega arith)
            ∙ ap (λ c. bit_at (v.blocks c) (x % bits_per_block)) (sym same)
        | no other ↦
            ap (λ e. bit_at e (x % bits_per_block)) (write_ne (bblock sb b) (bblock sb x) d v other)
      ]

  -- The first block that is free, zeroed after it was marked.
  abbrev pub Allocated : Volume → ℕ × Volume → Type 0
  Allocated v (b, v') =
      (b < sb.size)
      × (used v b ≡ 0)
      × ((x : ℕ) → x < b → used v x ≢ 0)
      × (v' ≡ bzero b (mark sb b v))

  used_in_block :
      (b x : ℕ) (v : Volume)
      → b % bits_per_block ≡ 0
      → x < bits_per_block
      → used v (b + x) ≡ bit_at (v.blocks (bblock sb b)) x
  used_in_block b x v al lt =
      let block : bblock sb (b + x) ≡ bblock sb b = omega arith in
      let place : (b + x) % bits_per_block ≡ x = omega arith in
      ap (λ c. bit_at (v.blocks c) ((b + x) % bits_per_block)) block
      ∙ ap (λ i. bit_at (v.blocks (bblock sb b)) i) place

  -- No free block below the next block of the map.
  used_below :
      (b r : ℕ) (v : Volume)
      → b % bits_per_block ≡ 0
      → r ≤ bits_per_block
      → ((x : ℕ) → x < b → x < sb.size → used v x ≢ 0)
      → ((x : ℕ) → x < r → b + x < sb.size → bit_at (v.blocks (bblock sb b)) x ≢ 0)
      → (x : ℕ) → x < b + r
      → x < sb.size
      → used v x ≢ 0
  used_below b r v al le low here x lt top = elim (Bool-cases (ltb x b)) [
    | inl below ↦ low x (ground arith) top
    | inr above ↦
        let at : b + (x - b) ≡ x = ground arith in
        λ e.
          here (x - b) (ground arith) (omega (arith, at))
            (sym (used_in_block b (x - b) v al (ground arith)) ∙ ap (λ y. used v y) at ∙ e)
  ]

  abbrev Finds : Volume → ℕ → ℕ → Type 0
  Finds v f fuel =
      (b : ℕ)
      → b % bits_per_block ≡ 0
      → ((x : ℕ) → x < b → x < sb.size → used v x ≢ 0)
      → (sb.size - b) / bits_per_block < fuel
      → Returns (balloc_from sb fuel b v) (Allocated v)

  balloc_step :
      (v : Volume) (f fuel : ℕ)
      → f < sb.size
      → used v f ≡ 0
      → Finds v f fuel
      → (b : ℕ) (o : Option ℕ) → b % bits_per_block ≡ 0
      → ((x : ℕ) → x < b → x < sb.size → used v x ≢ 0)
      → (sb.size - b) / bits_per_block < suc fuel
      → scan bits_per_block sb.size (v.blocks (bblock sb b)) b 0 ≡ o
      → Scanned bits_per_block sb.size (v.blocks (bblock sb b)) b 0 o
      → Returns (balloc_from sb (suc fuel) b v) (Allocated v)
  unfolding balloc_from
  balloc_step v f fuel ft free ih b none al low enough e s =
      let all_used =
        used_below b bits_per_block v al (omega arith) low (λ y ly ty. s y (omega arith) ly ty) in
      let later : b + bits_per_block ≤ f = elim (Bool-cases (ltb f (b + bits_per_block))) [
        | inl before ↦ absurd (all_used f (ltb→lt f (b + bits_per_block) before) ft free)
        | inr after ↦ ground arith
      ] in
      let below : ltb b sb.size ≡ true = ground arith in
      rw (below, balloc_from, e) (ih (b + bits_per_block) (omega arith) all_used (omega arith))
  balloc_step v f fuel ft free ih b (some r) al low enough e (lo, hi, top, clear, before) =
      let below : ltb b sb.size ≡ true = ground arith in
      rw (below, balloc_from, e)
        (
          top,
          used_in_block b r v al hi ∙ clear,
          λ x lt.
              used_below b r v al (omega arith) low (λ y ly ty. before y (omega arith) ly) x lt
                (omega arith),
          refl,
        )

  balloc_from_lem : (v : Volume) (f fuel : ℕ) → f < sb.size → used v f ≡ 0 → Finds v f fuel
  unfolding balloc_from
  balloc_from_lem v f zero ft free b al low enough = absurd (omega arith)
  balloc_from_lem v f (suc fuel) ft free b al low enough =
      let d = v.blocks (bblock sb b) in
      balloc_step v f fuel ft free (balloc_from_lem v f fuel ft free) b
        (scan bits_per_block sb.size d b 0) al low enough refl
        (scan_lem bits_per_block sb.size d b 0)

  -- If a block of the volume is free `balloc` returns. It returns the first free block, and has
  -- marked it in use and then zeroed it.
  pub balloc_lem :
      (v : Volume) (f : ℕ) → f < sb.size → used v f ≡ 0 → Returns (balloc sb v) (Allocated v)
  unfolding balloc
  balloc_lem v f ft free =
      balloc_from_lem v f (sb.size / bits_per_block + 1) ft free 0 refl
        (λ x lt. absurd (omega arith)) (omega arith)

  -- What `bfree` leaves of a block in use: its bit is clear, all other bits are as before.
  abbrev pub Freed : ℕ → Volume → Volume → Type 0
  Freed b v v' =
      (used v' b ≡ 0)
      × ((x : ℕ) → x ≢ b → used v' x ≡ used v x)
      × ((c : ℕ) → c ≢ bblock sb b → v'.blocks c ≡ v.blocks c)

  pub bfree-Freed : (b : ℕ) (v : Volume) → used v b ≢ 0 → Returns (bfree sb b v) (Freed b v)
  unfolding bfree
  bfree-Freed b v in_use =
      let d = v.blocks (bblock sb b) in
      let d' = unmark_at d (b % bits_per_block) in
      let set : (bit_at d (b % bits_per_block) == 0) ≡ false = ground (arith, in_use) in
      rw set (
        ap (λ e. bit_at e (b % bits_per_block)) (write_self (bblock sb b) d' v)
            ∙ bit_at-unmark_at_self d (b % bits_per_block),
        unmark_other b v,
        λ c ne. write_ne (bblock sb b) c d' v ne,
      )
    where
      unmark_other :
          (b : ℕ) (v : Volume) (x : ℕ)
          → x ≢ b
          → let v' =
              write (bblock sb b) (unmark_at (v.blocks (bblock sb b)) (b % bits_per_block)) v in
            used v' x ≡ used v x
      unmark_other b v x ne =
          let d = unmark_at (v.blocks (bblock sb b)) (b % bits_per_block) in
          elim (ℕ_discrete (bblock sb x) (bblock sb b)) [
            | yes same ↦
                ap (λ c. bit_at ((write (bblock sb b) d v).blocks c) (x % bits_per_block)) same
                ∙ ap (λ e. bit_at e (x % bits_per_block)) (write_self (bblock sb b) d v)
                ∙ bit_at-unmark_at_ne (v.blocks (bblock sb b)) (b % bits_per_block)
                    (x % bits_per_block) (omega arith)
                ∙ ap (λ c. bit_at (v.blocks c) (x % bits_per_block)) (sym same)
            | no other ↦
                ap (λ e. bit_at e (x % bits_per_block))
                  (write_ne (bblock sb b) (bblock sb x) d v other)
          ]
