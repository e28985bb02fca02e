-- ===== src/Content/Bmap.antt =====
-- `bmap` of code/fs.c: the block that holds a part of a file, allocated if it is missing.
use os_ex.Shared.{
  ℕ, leb, suc, ◌+◌, ◌-◌, ◌*◌, ◌<◌, ◌≤◌, ◌≡◌, ◌≢◌, refl, sym, ap, ◌∙◌, Bool-cases, inl, inr, true,
  false, ltb, ◌==◌, ==_iff, Result, ok, panic, Returns, Returns_mono, List, [], ◌∷◌, length, arith,
}
use native.Mathlib.Decide.{ℕ_discrete}
use os_ex.Log.{Superblock}
use os_ex.Inodes.{Inode}
use os_ex.Content.{
  Volume, block_size, ndirect, nindirect, maxfile, word_at, addr_at, balloc, direct_block,
  indirect_word, bmap,
}
use os_ex.Content.Fresh.{IsFresh, AreFree, balloc-IsFresh}
use os_ex.Content.Ready.{Ready}
use os_ex.Content.Slots.{beyond, slot, slot_of, file_byte, IsFile}
use os_ex.Content.Extend.{IsPlaced-before, set-IsPlaced, word-IsPlaced}
use os_ex.Content.Placed.{slot_low, slot_high, beyond_at, IsPlaced}

abbrev pub with_addrs : List ℕ → Inode → Inode
with_addrs addrs ip = record ip { addrs = addrs }

with_inode :
    (ip : Inode) (r : Result (ℕ × Volume)) (P : ℕ × Volume → Type 0)
    (Q : ℕ × Inode × Volume → Type 0)
    → ((a : ℕ) (v : Volume) → P (a, v) → Q (a, ip, v))
    → Returns r P
    → Returns
        (elim r as (λ x. Result (ℕ × Inode × Volume)) [ panic ↦ panic | ok (a, v) ↦ ok (a, ip, v) ])
        Q
with_inode ip (ok (a, v)) P Q f h = f a v h
with_inode ip panic P Q f h = h

module _ (sb : Superblock) (start : ℕ) where
  direct_fresh :
      (ip : Inode) (v : Volume) (i : ℕ) (fs : List ℕ) (r : Result (ℕ × Volume))
      → IsFile sb start ip v
      → i ≤ 12
      → addr_at ip i ≡ 0
      → balloc sb v ≡ r
      → Returns r (λ p. IsFresh sb start v fs p.0 p.1)
      → Returns (direct_block sb i ip v) (λ p. IsPlaced sb start ip v fs i p.0 p.1 p.2)
  unfolding direct_block
  direct_fresh ip v i fs panic f le hole e fr = absurd fr
  direct_fresh ip v i fs (ok (a, v')) f le hole e fr =
      let null : (addr_at ip i == 0) ≡ true = ground arith in
      rw (null, direct_block, e) (set-IsPlaced sb start ip v f i a fs v' le hole fr)

  direct_lem :
      (ip : Inode) (v : Volume) (i g : ℕ) (fs : List ℕ)
      → IsFile sb start ip v
      → i ≤ 12
      → AreFree sb v (g ∷ fs)
      → Returns (direct_block sb i ip v) (λ p. IsPlaced sb start ip v (g ∷ fs) i p.0 p.1 p.2)
  unfolding direct_block
  direct_lem ip v i g fs f le free = elim (Bool-cases (addr_at ip i == 0)) [
    | inl null ↦
        direct_fresh ip v i (g ∷ fs) (balloc sb v) f le ((==_iff (addr_at ip i) 0).0 null) refl
          (balloc-IsFresh sb start v g fs f.laid_out free)
    | inr mapped ↦
        rw (mapped, direct_block)
          (IsPlaced-before sb start ip v f i (addr_at ip i) (g ∷ fs) (slot_low ip v i le)
            (λ e. absurd (ground (arith, e))) free)
  ]

  word_fresh :
      (ip : Inode) (v : Volume) (n : ℕ) (fs : List ℕ) (r : Result (ℕ × Volume))
      → IsFile sb start ip v
      → n < 128
      → addr_at ip ndirect ≢ 0
      → word_at (v.blocks (addr_at ip ndirect)) n ≡ 0
      → balloc sb v ≡ r
      → Returns r (λ p. IsFresh sb start v fs p.0 p.1)
      → Returns
          (indirect_word sb (addr_at ip ndirect) n v)
          (λ p. IsPlaced sb start ip v fs (n + 13) p.0 ip p.1)
  unfolding indirect_word
  word_fresh ip v n fs panic f lt has hole e fr = absurd fr
  word_fresh ip v n fs (ok (a, v')) f lt has hole e fr =
      let null : (word_at (v.blocks (addr_at ip ndirect)) n == 0) ≡ true = ground arith in
      rw (null, indirect_word, e) (word-IsPlaced sb start ip v f n a fs v' lt has hole fr)

  word_lem :
      (ip : Inode) (v : Volume) (n g : ℕ) (fs : List ℕ)
      → IsFile sb start ip v
      → n < 128
      → addr_at ip ndirect ≢ 0
      → AreFree sb v (g ∷ fs)
      → Returns
          (indirect_word sb (addr_at ip ndirect) n v)
          (λ p. IsPlaced sb start ip v (g ∷ fs) (n + 13) p.0 ip p.1)
  unfolding indirect_word
  word_lem ip v n g fs f lt has free =
      let word = word_at (v.blocks (addr_at ip ndirect)) n in
      elim (Bool-cases (word == 0)) [
        | inl null ↦
            word_fresh ip v n (g ∷ fs) (balloc sb v) f lt has ((==_iff word 0).0 null) refl
              (balloc-IsFresh sb start v g fs f.laid_out free)
        | inr mapped ↦
            let at : n + 13 - 13 ≡ n = omega arith in
            rw (mapped, indirect_word)
              (IsPlaced-before sb start ip v f (n + 13) word (g ∷ fs)
                (slot_high ip v (n + 13) (omega arith)
                  ∙ ap (λ m. beyond v (addr_at ip ndirect) m) at
                  ∙ beyond_at v (addr_at ip ndirect) n has)
                (λ e. absurd (ground (arith, e))) free)
      ]

  -- The block of a part of a file, in a file that reads as before and keeps its blocks; two blocks at
  -- most are used, and one besides those counted for the file in the log.
  pub record IsBmap (ip : Inode) (v : Volume) (bn : ℕ) (fs : List ℕ) (a : ℕ) (ip' : Inode)
      (v' : Volume) : Type 0 where
    pub file : IsFile sb start ip' v'
    pub here : slot ip' v' (slot_of bn) ≡ a
    pub nonzero : a ≢ 0
    pub bytes : (i : ℕ) → i < maxfile * block_size → file_byte ip' v' i ≡ file_byte ip v i
    pub inode : ip' ≡ record ip { addrs = ip'.addrs }
    pub kept : (s : ℕ) → s < 141 → slot ip v s ≢ 0 → slot ip' v' s ≢ 0
    pub ready : (out k : ℕ) → Ready sb out (suc k) [] ip v → Ready sb out k (a ∷ []) ip' v'
    pub left : (fs' : List ℕ) × AreFree sb v' fs' × (length fs ≤ length fs' + 2)

  placed_kept :
      (ip ip' : Inode) (v v' : Volume) (s a : ℕ) (fs : List ℕ)
      → IsPlaced sb start ip v fs s a ip' v'
      → (s' : ℕ) → s' < 141
      → slot ip v s' ≢ 0
      → slot ip' v' s' ≢ 0
  placed_kept ip ip' v v' s a fs p s' lt ne e = elim (ℕ_discrete s' s) [
    | yes q ↦ p.nonzero (sym p.here ∙ ap (λ x. slot ip' v' x) (sym q) ∙ e)
    | no other ↦ ne (sym (p.others s' lt other) ∙ e)
  ]

  placed-IsBmap :
      (ip : Inode) (v : Volume) (bn s a : ℕ) (fs : List ℕ) (ip' : Inode) (v' : Volume)
      → slot_of bn ≡ s
      → s < 12
      → IsPlaced sb start ip v fs s a ip' v'
      → IsBmap ip v bn fs a ip' v'
  placed-IsBmap ip v bn s a fs ip' v' e low p = record {
    file = p.file;
    here = ap (λ x. slot ip' v' x) e ∙ p.here;
    nonzero = p.nonzero;
    bytes = p.bytes;
    inode = p.inode;
    kept = placed_kept ip ip' v v' s a fs p;
    ready = λ out k. (p.ready out k).1 (omega arith);
    left = let (fs', free, count) = p.left in (fs', free, omega (arith, count));
  }

  placed_twice :
      (ip ip1 ip2 : Inode) (v v1 v2 : Volume) (bn a1 a : ℕ) (fs fs1 : List ℕ)
      → slot_of bn ≡ bn - 12 + 13
      → IsPlaced sb start ip v fs 12 a1 ip1 v1
      → length fs ≤ length fs1 + 1
      → IsPlaced sb start ip1 v1 fs1 (bn - 12 + 13) a ip2 v2
      → IsBmap ip v bn fs a ip2 v2
  placed_twice ip ip1 ip2 v v1 v2 bn a1 a fs fs1 e p count q = record {
    file = q.file;
    here = ap (λ x. slot ip2 v2 x) e ∙ q.here;
    nonzero = q.nonzero;
    bytes = λ i lt. q.bytes i lt ∙ p.bytes i lt;
    inode = q.inode ∙ ap (λ x. with_addrs ip2.addrs x) p.inode;
    kept = λ s lt ne.
        placed_kept ip1 ip2 v1 v2 (bn - 12 + 13) a fs1 q s lt
          (placed_kept ip ip1 v v1 12 a1 fs p s lt ne);
    ready = λ out k r. (q.ready out k).1 (omega arith) ((p.ready out (suc k)).0 refl r);
    left = let (fs', free, count') = q.left in (fs', free, omega (arith, count, count'));
  }

  word_returns :
      (ip : Inode) (v : Volume) (n : ℕ) (fs : List ℕ)
      → IsFile sb start ip v
      → n < 128
      → addr_at ip ndirect ≢ 0
      → 1 ≤ length fs
      → AreFree sb v fs
      → Returns
          (indirect_word sb (addr_at ip ndirect) n v)
          (λ p. IsPlaced sb start ip v fs (n + 13) p.0 ip p.1)
  word_returns ip v n [] f lt has some_left free = absurd (omega arith)
  word_returns ip v n (g ∷ fs) f lt has some_left free = word_lem ip v n g fs f lt has free

  bmap_indirect :
      (ip : Inode) (v : Volume) (bn : ℕ) (fs : List ℕ) (r : Result (ℕ × Inode × Volume))
      → 12 ≤ bn
      → bn < maxfile
      → direct_block sb ndirect ip v ≡ r
      → 2 ≤ length fs
      → Returns r (λ p. IsPlaced sb start ip v fs 12 p.0 p.1 p.2)
      → Returns (bmap sb ip bn v) (λ p. IsBmap ip v bn fs p.0 p.1 p.2)
  unfolding bmap
  bmap_indirect ip v bn fs panic low top e enough p = absurd p
  bmap_indirect ip v bn fs (ok (a1, ip1, v1)) low top e enough p =
      let (fs1, free, count) = p.left in
      let direct : ltb bn ndirect ≡ false = ground arith in
      let indirect : ltb (bn - ndirect) nindirect ≡ true = ground arith in
      let at : a1 ≡ addr_at ip1 ndirect = sym p.here ∙ slot_low ip1 v1 12 (omega arith) in
      let after_direct : slot_of bn ≡ bn - 12 + 13 = ground arith in
      rw (direct, bmap, indirect, e, at)
        (with_inode ip1 (indirect_word sb (addr_at ip1 ndirect) (bn - ndirect) v1)
          (λ q. IsPlaced sb start ip1 v1 fs1 (bn - 12 + 13) q.0 ip1 q.1)
          (λ q. IsBmap ip v bn fs q.0 q.1 q.2)
          (λ a v2. placed_twice ip ip1 ip1 v v1 v2 bn a1 a fs fs1 after_direct p count)
          (word_returns ip1 v1 (bn - 12) fs1 p.file (omega arith) (λ z. p.nonzero (at ∙ z))
            (omega arith) free))

  -- With two free blocks left `bmap` of a block below MAXFILE returns the block at its place in the
  -- file, which is not 0; it allocates two blocks at most, and every byte of the file reads as before.
  pub bmap_lem :
      (ip : Inode) (v : Volume) (bn : ℕ) (fs : List ℕ)
      → IsFile sb start ip v
      → bn < maxfile
      → AreFree sb v fs
      → 2 ≤ length fs
      → Returns (bmap sb ip bn v) (λ p. IsBmap ip v bn fs p.0 p.1 p.2)
  unfolding bmap
  bmap_lem ip v bn [] f top free enough = absurd (omega arith)
  bmap_lem ip v bn (g ∷ fs) f top free enough = elim (Bool-cases (ltb bn ndirect)) [
    | inl low ↦
        rw (low, bmap)
          (Returns_mono (direct_block sb bn ip v)
            (λ p. IsPlaced sb start ip v (g ∷ fs) bn p.0 p.1 p.2)
            (λ p. IsBmap ip v bn (g ∷ fs) p.0 p.1 p.2)
            (λ p. placed-IsBmap ip v bn bn p.0 (g ∷ fs) p.1 p.2 (ground arith) (ground arith))
            (direct_lem ip v bn g fs f (ground arith) free))
    | inr high ↦
        bmap_indirect ip v bn (g ∷ fs) (direct_block sb ndirect ip v) (ground arith) top refl enough
          (direct_lem ip v 12 g fs f (omega arith) free)
  ]

-- A block that is there is found, and nothing is allocated.
pub bmap_mapped :
    (sb : Superblock) (ip : Inode) (v : Volume) (bn : ℕ)
    → bn < maxfile
    → slot ip v (slot_of bn) ≢ 0
    → bmap sb ip bn v ≡ ok (slot ip v (slot_of bn), ip, v)
unfolding bmap direct_block indirect_word
bmap_mapped sb ip v bn top there = elim (Bool-cases (ltb bn ndirect)) [
  | inl low ↦
      let first : leb bn ndirect ≡ true = ground arith in
      let has : (addr_at ip bn == 0) ≡ false = ground arith in
      simp (bmap, direct_block, low, first, has)
  | inr high ↦
      let later : leb (bn + 1) ndirect ≡ false = ground arith in
      let indirect : ltb (bn - ndirect) nindirect ≡ true = ground arith in
      let at : bn + 1 - 13 ≡ bn - 12 = ground arith in
      let has : (addr_at ip ndirect == 0) ≡ false = ground arith in
      let word : (word_at (v.blocks (addr_at ip ndirect)) (bn - ndirect) == 0) ≡ false =
        ground arith in
      simp (bmap, direct_block, indirect_word, high, later, indirect, at, has, word)
]
