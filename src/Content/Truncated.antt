-- ===== src/Content/Truncated.antt =====
-- `itrunc` of code/fs.c: which blocks it gives back, and what it leaves.
use native.Mathlib.Decide.{ℕ_discrete}
use os_ex.Shared.{
  ℕ, zero, suc, ◌-◌, ◌%◌, ◌<◌, ◌≤◌, ◌≡◌, ◌≢◌, refl, sym, subst, ap, ◌∙◌, Bool-cases, inl, inr,
  false, leb, ltb, ◌==◌, ==_iff, Result, ok, panic, Returns, Returns_bind, set, arith,
}
use os_ex.Log.{Superblock}
use os_ex.Inodes.{Inode}
use os_ex.Content.{
  Volume, ndirect, nindirect, bits_per_block, bit_at, word_at, addr_at, write, bblock, bfree,
}
use os_ex.Content.Bitmap.{used}
use os_ex.Content.Scanning.{write_ne}
use os_ex.Content.Slots.{slot, IsFile}
use os_ex.Content.Placed.{slot_low, slot_high, beyond_empty, beyond_at}
use os_ex.Content.Dinode.{iblock, inodes_per_block, put_dinode, iupdate}
use os_ex.Content.RoundTrip.{HasPlace}
use os_ex.Content.Trunc.{free_direct, free_words, free_indirect, emptied, itrunc}
use os_ex.Content.Freeing.{
  rank, IsPartly, IsPartly-skip, free_slot, IsClearing, IsClearing-skip, IsClearing-set,
}

module _ (sb : Superblock) (start : ℕ) (ip0 : Inode) (v0 : Volume)
    (f : IsFile sb start ip0 v0) where
  free_direct_lem :
      (n : ℕ) (ip : Inode) (v : Volume)
      → n ≤ 12
      → IsClearing sb start ip0 v0 f (12 - n) ip
      → IsPartly sb start ip0 v0 f (12 - n) v
      → Returns
          (free_direct sb n ip v)
          (λ r. IsClearing sb start ip0 v0 f 12 r.0 × IsPartly sb start ip0 v0 f 12 r.1)
  unfolding free_direct
  free_direct_lem zero ip v le c p = (c, p)
  free_direct_lem (suc n) ip v le c p =
      let i = ndirect - suc n in
      let next : suc i ≡ 12 - n = omega arith in
      let at : rank i ≡ i = ground arith in
      let here : slot ip0 v0 i ≡ addr_at ip i =
        slot_low ip0 v0 i (omega arith) ∙ sym (c.rest i (omega arith)) in
      elim (Bool-cases (addr_at ip i == 0)) [
        | inl null ↦
            let empty : addr_at ip i ≡ 0 = (==_iff (addr_at ip i) 0).0 null in
            rw (null, free_direct)
              (free_direct_lem n ip v (omega arith)
                (subst (λ k. IsClearing sb start ip0 v0 f k ip) next
                  (IsClearing-skip sb start ip0 v0 f i ip empty c))
                (subst (λ k. IsPartly sb start ip0 v0 f k v) next
                  (IsPartly-skip sb start ip0 v0 f i i v at (omega arith) (here ∙ empty) p)))
        | inr some_block ↦
            let nz : slot ip0 v0 i ≢ 0 = λ e. absurd (ground (arith, sym here ∙ e)) in
            rw (some_block, free_direct)
              (Returns_bind (bfree sb (addr_at ip i) v)
                (λ v'. free_direct sb n (record ip { addrs = set ip.addrs i 0 }) v')
                (λ v'. IsPartly sb start ip0 v0 f (suc i) v')
                (λ r. IsClearing sb start ip0 v0 f 12 r.0 × IsPartly sb start ip0 v0 f 12 r.1)
                (subst (λ a. Returns (bfree sb a v) (λ v'. IsPartly sb start ip0 v0 f (suc i) v'))
                  here (free_slot sb start ip0 v0 f i i v at (omega arith) nz p))
                (λ v' p'.
                  free_direct_lem n (record ip { addrs = set ip.addrs i 0 }) v' (omega arith)
                    (subst
                      (λ k. IsClearing sb start ip0 v0 f k (record ip { addrs = set ip.addrs i 0 }))
                      next (IsClearing-set sb start ip0 v0 f i ip (omega arith) c))
                    (subst (λ k. IsPartly sb start ip0 v0 f k v') next p')))
      ]

  -- The words of the indirect block.
  free_words_lem :
      (n : ℕ) (v : Volume)
      → addr_at ip0 ndirect ≢ 0
      → n ≤ 128
      → IsPartly sb start ip0 v0 f (140 - n) v
      → Returns
          (free_words sb n (v0.blocks (addr_at ip0 ndirect)) v)
          (IsPartly sb start ip0 v0 f 140)
  unfolding free_words
  free_words_lem zero v has le p = p
  free_words_lem (suc n) v has le p =
      let k = 140 - suc n in
      let s = 141 - suc n in
      let d = v0.blocks (addr_at ip0 ndirect) in
      let word = word_at d (nindirect - suc n) in
      let next : suc k ≡ 140 - n = omega arith in
      let at : rank s ≡ k = ground arith in
      let place : s - 13 ≡ nindirect - suc n = omega arith in
      let here : slot ip0 v0 s ≡ word =
        slot_high ip0 v0 s (omega arith)
        ∙ beyond_at v0 (addr_at ip0 ndirect) (s - 13) has
        ∙ ap (λ i. word_at d i) place in
      elim (Bool-cases (word == 0)) [
        | inl null ↦
            rw (null, free_words)
              (free_words_lem n v has (omega arith) (
                subst (λ j. IsPartly sb start ip0 v0 f j v) next
                  (IsPartly-skip sb start ip0 v0 f k s v at (omega arith)
                    (here ∙ (==_iff word 0).0 null) p)))
        | inr some_block ↦
            let nz : slot ip0 v0 s ≢ 0 = λ e. absurd (ground (arith, sym here ∙ e)) in
            rw (some_block, free_words)
              (Returns_bind (bfree sb word v) (λ v'. free_words sb n d v')
                (IsPartly sb start ip0 v0 f (suc k)) (IsPartly sb start ip0 v0 f 140)
                (subst (λ a. Returns (bfree sb a v) (IsPartly sb start ip0 v0 f (suc k))) here
                  (free_slot sb start ip0 v0 f k s v at (omega arith) nz p))
                (λ v' p'.
                  free_words_lem n v' has (omega arith)
                    (subst (λ j. IsPartly sb start ip0 v0 f j v') next p')))
      ]

  -- Without an indirect block there are no slots after the direct ones.
  no_slot : (s : ℕ) → addr_at ip0 ndirect ≡ 0 → 12 ≤ s → slot ip0 v0 s ≡ 0
  no_slot s empty high = elim (ℕ_discrete s 12) [
    | yes same ↦ ap (λ x. slot ip0 v0 x) same ∙ empty
    | no other ↦
        slot_high ip0 v0 s (omega arith) ∙ beyond_empty v0 (addr_at ip0 ndirect) (s - 13) empty
  ]

  none_beyond :
      (v : Volume)
      → addr_at ip0 ndirect ≡ 0
      → IsPartly sb start ip0 v0 f 12 v
      → IsPartly sb start ip0 v0 f 141 v
  none_beyond v empty p = record {
    freed = λ s lt low nz. elim (Bool-cases (ltb (rank s) 12)) [
      | inl direct ↦ p.freed s lt (ground arith) nz
      | inr beyond_them ↦ absurd (nz (no_slot s empty (ground arith)))
    ];
    kept = λ x top out. p.kept x top (λ s lt low. out s lt (omega (arith, low)));
    blocks = p.blocks;
  }

  free_indirect_lem :
      (ip : Inode) (v : Volume)
      → IsClearing sb start ip0 v0 f 12 ip
      → IsPartly sb start ip0 v0 f 12 v
      → Returns
          (free_indirect sb ip v)
          (λ r. IsClearing sb start ip0 v0 f 13 r.0 × IsPartly sb start ip0 v0 f 141 r.1)
  unfolding free_indirect
  free_indirect_lem ip v c p =
      let same : addr_at ip ndirect ≡ addr_at ip0 ndirect = c.rest 12 (omega arith) in
      elim (Bool-cases (addr_at ip0 ndirect == 0)) [
        | inl null ↦
            let empty : addr_at ip0 ndirect ≡ 0 = (==_iff (addr_at ip0 ndirect) 0).0 null in
            rw (same, free_indirect, null)
              (IsClearing-skip sb start ip0 v0 f 12 ip (same ∙ empty) c, none_beyond v empty p)
        | inr some_block ↦
            let addr = addr_at ip ndirect in
            let nz : addr_at ip0 ndirect ≢ 0 = λ e. absurd (ground (arith, e)) in
            let mapped : (addr == 0) ≡ false = ap (λ a. a == 0) same ∙ some_block in
            let read : v.blocks addr ≡ v0.blocks (addr_at ip0 ndirect) =
              ap (λ a. v.blocks a) same
              ∙ p.blocks (addr_at ip0 ndirect) (f.owned 12 (omega arith) nz).0 in
            let done = λ (r : Inode × Volume).
              IsClearing sb start ip0 v0 f 13 r.0 × IsPartly sb start ip0 v0 f 141 r.1 in
            let ip' = record ip { addrs = set ip.addrs ndirect 0 } in
            rw (mapped, free_indirect, read)
              (Returns_bind (free_words sb nindirect (v0.blocks (addr_at ip0 ndirect)) v)
                (λ v'. elim (bfree sb addr v') as (λ x. Result (Inode × Volume)) [
                  | panic ↦ panic
                  | ok v'' ↦ ok (ip', v'')
                ])
                (IsPartly sb start ip0 v0 f 140) done (free_words_lem 128 v nz (omega arith) p)
                (λ v' p'.
                  Returns_bind (bfree sb addr v') (λ v''. ok (ip', v''))
                    (IsPartly sb start ip0 v0 f 141) done
                    (subst (λ a. Returns (bfree sb a v') (IsPartly sb start ip0 v0 f 141))
                      (sym same) (free_slot sb start ip0 v0 f 140 12 v' refl (omega arith) nz p'))
                    (λ v'' p''. (IsClearing-set sb start ip0 v0 f 12 ip (omega arith) c, p''))))
      ]

  -- What `itrunc` leaves: an inode without blocks and of size 0, and its blocks free.
  pub record IsTruncated (ip : Inode) (v : Volume) : Type 0 where
    pub size : ip.size ≡ 0
    pub no_blocks : (s : ℕ) → s < 141 → slot ip v s ≡ 0
    pub given_back : (s : ℕ) → s < 141 → slot ip0 v0 s ≢ 0 → used sb v (slot ip0 v0 s) ≡ 0
    pub others :
        (x : ℕ) → x < sb.size → ((s : ℕ) → s < 141 → slot ip0 v0 s ≢ x) → used sb v x ≡ used sb v0 x

  no_blocks_lem :
      (ip : Inode) (v : Volume) (s : ℕ) → IsClearing sb start ip0 v0 f 13 ip → slot ip v s ≡ 0
  no_blocks_lem ip v s c = elim (Bool-cases (leb s 12)) [
    | inl low ↦ slot_low ip v s (ground arith) ∙ c.cleared s (ground arith)
    | inr high ↦
        slot_high ip v s (ground arith)
        ∙ beyond_empty v (addr_at ip ndirect) (s - 13) (c.cleared 12 (omega arith))
  ]

  emptied_lem :
      (ip : Inode) (v : Volume)
      → HasPlace sb start ip0.inum
      → IsClearing sb start ip0 v0 f 13 ip
      → IsPartly sb start ip0 v0 f 141 v
      → IsTruncated (emptied sb ip v).0 (emptied sb ip v).1
  unfolding iupdate
  emptied_lem ip v place c p =
      let ip' = record ip { size = 0 } in
      let b = iblock sb ip.inum in
      let d = put_dinode (v.blocks b) (ip.inum % inodes_per_block) ip' in
      let same_bits : (x : ℕ) → x < sb.size → used sb (write b d v) x ≡ used sb v x = λ x lt.
        ap (λ e. bit_at e (x % bits_per_block))
          (write_ne b (bblock sb x) d v
            (λ e. place.not_map x lt (e ∙ ap (λ n. iblock sb n) c.same_inum))) in
      record {
        size = refl;
        no_blocks = λ s lt. no_blocks_lem ip' (write b d v) s (record {
          cleared = c.cleared;
          rest = c.rest;
          thirteen = c.thirteen;
          same_inum = c.same_inum;
        });
        given_back = λ s lt nz.
            same_bits (slot ip0 v0 s) (f.owned s lt nz).1 ∙ p.freed s lt (ground arith) nz;
        others = λ x top out. same_bits x top ∙ p.kept x top (λ s lt _. out s lt);
      }

  -- `itrunc` of a file whose inode's block is reserved frees no block that is free, and so does not panic for that; whether the log has
  -- room is not looked at. It leaves the file without blocks and of size 0, all the blocks that it had
  -- free, and the bits of all other blocks as they were.
  pub itrunc_lem :
      HasPlace sb start ip0.inum → Returns (itrunc sb ip0 v0) (λ r. IsTruncated r.0 r.1)
  unfolding itrunc
  itrunc_lem place =
      let done = λ (r : Inode × Volume). IsTruncated r.0 r.1 in
      Returns_bind (free_direct sb ndirect ip0 v0)
        (λ r. elim (free_indirect sb r.0 r.1) as (λ x. Result (Inode × Volume)) [
          | panic ↦ panic
          | ok (ip'', v'') ↦ ok (emptied sb ip'' v'')
        ])
        (λ r. IsClearing sb start ip0 v0 f 12 r.0 × IsPartly sb start ip0 v0 f 12 r.1) done
        (free_direct_lem 12 ip0 v0 (omega arith)
          (record {
            cleared = λ j lt. absurd (omega arith);
            rest = λ j le. refl;
            thirteen = f.thirteen;
            same_inum = refl;
          })
          (record {
            freed = λ s lt low nz. absurd (omega arith);
            kept = λ x top out. refl;
            blocks = λ c high. refl;
          }))
        (λ r h.
          Returns_bind (free_indirect sb r.0 r.1) (λ q. ok (emptied sb q.0 q.1))
            (λ q. IsClearing sb start ip0 v0 f 13 q.0 × IsPartly sb start ip0 v0 f 141 q.1) done
            (free_indirect_lem r.0 r.1 h.0 h.1) (λ q g. emptied_lem q.0 q.1 place g.0 g.1))
