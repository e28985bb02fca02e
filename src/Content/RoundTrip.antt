-- ===== src/Content/RoundTrip.antt =====
-- `writei` of code/fs.c as a whole, and `readi` of what it has written.
use os_ex.Shared.{
  ℕ, suc, ◌+◌, ◌*◌, ◌/◌, ◌%◌, ◌^◌, ◌<◌, ◌≤◌, ◌≡◌, ◌≢◌, refl, sym, subst, ap, ◌∙◌, Bool-cases, inl,
  inr, true, false, ltb, eq_int, ◌||◌, ◌&&◌, if◌then◌else◌, Result, ok, panic, Returns, Option,
  List, [], length, ℤ, of_bits, arith,
}
use os_ex.Log.{Superblock}
use os_ex.Inodes.{Inode}
use os_ex.Content.{Data, Volume, block_size, maxfile, bblock, write}
use os_ex.Content.Fresh.{AreFree}
use os_ex.Content.Slots.{slot, slot_of, file_byte, IsFile}
use os_ex.Content.Io.{t_dev, write_chunks, writei, finish_write}
use os_ex.Content.Dinode.{iblock, inodes_per_block, put_dinode, iupdate}
use os_ex.Content.Reading.{blocks_of, IsSolid}
use os_ex.Content.Ready.{Ready, Ready-spend, Ready-forget, Ready-log, write-Ready, settled-ok}
use os_ex.Content.Store.{patched, stored-IsFile, stored-AreFree, stored_other, same_slot}
use os_ex.Content.Writing.{IsWritten, write_chunks_lem}

-- The size after a write that ends at `off`.
abbrev pub grown_size : Inode → ℕ → ℕ → ℕ
grown_size ip n off = if ltb 0 n && ltb ip.size off then off else ip.size

module _ (sb : Superblock) (start : ℕ) where
  -- The inode's block on the disk is reserved, and not of the free map.
  pub record HasPlace (inum : ℕ) : Type 0 where
    pub low : iblock sb inum < start
    pub not_map : (x : ℕ) → x < sb.size → bblock sb x ≢ iblock sb inum

  pub record IsStored (ip : Inode) (v : Volume) (off : ℕ) (bs fs : List ℕ) (ip' : Inode)
      (v' : Volume) : Type 0 where
    pub file : IsFile sb start ip' v'
    pub bytes :
        (i : ℕ)
        → i < maxfile * block_size
        → file_byte ip' v' i ≡ patched off bs (λ j. file_byte ip v j) i
    pub size : ip'.size ≡ grown_size ip (length bs) (off + length bs)
    pub type_kept : ip'.type ≡ ip.type
    pub inum_kept : ip'.inum ≡ ip.inum
    pub valid_kept : ip'.valid ≡ ip.valid
    pub kept : (s : ℕ) → s < 141 → slot ip v s ≢ 0 → slot ip' v' s ≢ 0
    pub solid : IsSolid ip' v' off (length bs)
    pub left :
        (fs' : List ℕ) × AreFree sb v' fs'
        × (length fs ≤ length fs' + blocks_of off (length bs) + blocks_of off (length bs))

  module _ (ip ip1 : Inode) (v v1 : Volume) (off off1 : ℕ) (bs fs : List ℕ) (out k : ℕ)
      (place : HasPlace ip.inum) (enough : Ready sb out (suc k + blocks_of off (length bs)) [] ip v)
      (w : IsWritten sb start ip v off bs fs off1 ip1 v1) where
    abbrev ip2 : Inode
    ip2 = record ip1 { size = off1 }

    abbrev updated : Data
    updated = put_dinode (v1.blocks (iblock sb ip1.inum)) (ip1.inum % inodes_per_block) ip2

    same_inum : ip1.inum ≡ ip.inum
    same_inum = ap (λ x. x.inum) w.inode

    low : iblock sb ip1.inum < start
    low = subst (λ n. iblock sb n < start) (sym same_inum) place.low

    not_map : (x : ℕ) → x < sb.size → bblock sb x ≢ iblock sb ip1.inum
    not_map x lt e = place.not_map x lt (e ∙ ap (λ n. iblock sb n) same_inum)

    not_slot : (s : ℕ) → s < 141 → slot ip1 v1 s ≢ 0 → slot ip1 v1 s ≢ iblock sb ip1.inum
    not_slot s lt nz e = absurd (omega (arith, e, low, (w.file.owned s lt nz).0))

    grown_kept : (s : ℕ) → slot ip1 v1 s ≢ 0 → slot ip2 (iupdate sb ip2 v1) s ≢ 0
    unfolding iupdate
    grown_kept s ne e = ne (
        sym (
          same_slot sb start ip1 ip2 v1 (iblock sb ip1.inum) updated w.file refl not_map
            (not_slot 12 (omega arith)) s)
        ∙ e)

    grown-IsStored :
        ltb 0 (length bs) && ltb ip1.size off1 ≡ true
        → IsStored ip v off bs fs ip2 (iupdate sb ip2 v1)
    unfolding iupdate
    grown-IsStored more = record {
      file =
          stored-IsFile sb start ip1 ip2 v1 (iblock sb ip1.inum) updated w.file refl not_map
            (not_slot 12 (omega arith));
      bytes = λ i lt.
          stored_other sb start ip1 ip2 v1 (iblock sb ip1.inum) updated w.file refl not_map
            (not_slot 12 (omega arith)) i (not_slot (slot_of (i / block_size)) (ground arith))
          ∙ w.bytes i lt;
      size =
          let e : ip1.size ≡ ip.size = ap (λ x. x.size) w.inode in ground (arith, e, w.moved, more);
      type_kept = ap (λ x. x.type) w.inode;
      inum_kept = same_inum;
      valid_kept = ap (λ x. x.valid) w.inode;
      kept = λ s lt ne. grown_kept s (w.kept s lt ne);
      solid = λ i lt. grown_kept (slot_of ((off + i) / block_size)) (w.solid i lt);
      left =
          let (fs', free, count) = w.left in
          (
            fs',
            stored-AreFree sb start ip1 ip2 v1 (iblock sb ip1.inum) updated w.file refl not_map
                (not_slot 12 (omega arith)) fs' free,
            count,
          );
    }

    grown-Ready : Ready sb out k [] ip2 (iupdate sb ip2 v1)
    unfolding iupdate
    grown-Ready =
        let b = iblock sb ip1.inum in
        Ready-forget sb out k b ip2 (write b updated v1) (
          write-Ready sb out k b updated ip2 v1
            (Ready-spend sb out k b ip2 v1 (w.ready out (suc k) enough)))

    kept-Ready : Ready sb out k [] ip1 v1
    kept-Ready =
        Ready-forget sb out k 0 ip1 v1 (Ready-spend sb out k 0 ip1 v1 (w.ready out (suc k) enough))

    kept-IsStored : ltb 0 (length bs) && ltb ip1.size off1 ≡ false → IsStored ip v off bs fs ip1 v1
    kept-IsStored no_more = record {
      file = w.file;
      bytes = w.bytes;
      size =
          let e : ip1.size ≡ ip.size = ap (λ x. x.size) w.inode in
          ground (arith, e, w.moved, no_more);
      type_kept = ap (λ x. x.type) w.inode;
      inum_kept = same_inum;
      valid_kept = ap (λ x. x.valid) w.inode;
      kept = w.kept;
      solid = w.solid;
      left = w.left;
    }

    finished : Returns (finish_write sb (length bs) (ok (off1, ip1, v1))) (λ r.
        (r.0 ≡ of_bits (length bs)) × IsStored ip v off bs fs r.1 r.2 × Ready sb out k [] r.1 r.2)
    finished = elim (Bool-cases (ltb 0 (length bs) && ltb ip1.size off1)) [
      | inl more ↦
          let (lg, log, _) = Ready-log sb out k ip2 (iupdate sb ip2 v1) grown-Ready in
          rw
            (
              more,
              settled-ok {A = ℤ × Inode × Volume} (iupdate sb ip2 v1) lg
                  (ok (of_bits (length bs), ip2, iupdate sb ip2 v1)) log,
            )
            (refl, grown-IsStored more, grown-Ready)
      | inr no_more ↦
          let (lg, log, _) = Ready-log sb out k ip1 v1 kept-Ready in
          rw
            (
              no_more,
              settled-ok {A = ℤ × Inode × Volume} v1 lg (ok (of_bits (length bs), ip1, v1)) log,
            )
            (refl, kept-IsStored no_more, kept-Ready)
    ]

  finish_lem :
      (ip : Inode) (v : Volume) (off : ℕ) (bs fs : List ℕ) (out k : ℕ)
      (r : Result (ℕ × Inode × Volume))
      → HasPlace ip.inum
      → Ready sb out (suc k + blocks_of off (length bs)) [] ip v
      → Returns r (λ q. IsWritten sb start ip v off bs fs q.0 q.1 q.2)
      → Returns (finish_write sb (length bs) r) (λ q.
        (q.0 ≡ of_bits (length bs)) × IsStored ip v off bs fs q.1 q.2 × Ready sb out k [] q.1 q.2)
  finish_lem ip v off bs fs out k panic place enough w = w
  finish_lem ip v off bs fs out k (ok (off1, ip1, v1)) place enough w =
      finished ip ip1 v v1 off off1 bs fs out k place enough w

  -- Writing bytes to a file, not a device, from an offset that is not past its end and up to at most
  -- MAXFILE blocks, on a device with one block of free map, with the inode's block reserved, two free
  -- blocks for each block that is written, and room in the log, of LOGSIZE blocks at least and in a
  -- transaction, for one entry for each of them and `k + 3` more, returns the number of bytes; `log_write` does not panic. They are
  -- then the bytes of the file from that offset on, without a hole, all others are as before, and the
  -- size is the end of the write if that is more than it was. The log has room for `k` more entries,
  -- besides those of the free map and the indirect block.
  pub writei_lem :
      (devsw : ℕ → Option (List ℕ → ℤ)) (ip : Inode) (off : ℕ) (bs : List ℕ) (v : Volume)
      (fs : List ℕ) (out k : ℕ)
      → IsFile sb start ip v
      → HasPlace ip.inum
      → eq_int ip.type t_dev ≡ false
      → off ≤ ip.size
      → off + length bs ≤ maxfile * block_size
      → AreFree sb v fs
      → blocks_of off (length bs) + blocks_of off (length bs) ≤ length fs
      → Ready sb out (suc k + blocks_of off (length bs)) [] ip v
      → Returns (writei sb devsw ip off bs v) (λ r.
        (r.0 ≡ of_bits (length bs)) × IsStored ip v off bs fs r.1 r.2 × Ready sb out k [] r.1 r.2)
  unfolding writei
  writei_lem devsw ip off bs v fs out k f place file low top free enough ready =
      let no_wrap : (off + length bs) % 2 ^ 32 ≡ off + length bs = omega arith in
      let inside : (ltb ip.size off || ltb (off + length bs) off) ≡ false = ground arith in
      let fits : ltb (maxfile * block_size) (off + length bs) ≡ false = ground arith in
      rw (file, no_wrap, inside, fits)
        (finish_lem ip v off bs fs out k (write_chunks sb (length bs) ip off bs v) place ready
          (write_chunks_lem sb start (length bs) ip off bs v fs (omega arith) f top free enough))
