-- ===== src/Content/Writing.antt =====
-- `writei` of code/fs.c against the bytes of a file, and `readi` after it.
use os_ex.Shared.{
  ℕ, zero, Bool-cases, ltb, suc, ◌+◌, ◌-◌, ◌*◌, ◌/◌, ◌%◌, ◌^◌, ◌<◌, ◌≤◌, ◌≡◌, ◌≢◌, refl, sym, subst,
  ap, ◌∙◌, inl, inr, ◌⊎◌, Result, ok, panic, Returns, Returns_mono, List, [], ◌∷◌, ◌++◌, length,
  length-append, split_at, split_at_lem, length-split_at, split_at-some, arith,
}
use os_ex.Log.{Superblock}
use os_ex.Inodes.{Inode}
use os_ex.Content.{Volume, block_size, maxfile, write, bmap}
use os_ex.Content.Fresh.{AreFree}
use os_ex.Content.Slots.{slot, slot_of, file_byte, IsFile}
use os_ex.Content.Bmap.{IsBmap, bmap_lem, with_addrs}
use os_ex.Content.Io.{write_chunks}
use os_ex.Content.Reading.{blocks_of}
use os_ex.Content.Store.{
  same_slot, patched, patch, patch_map, patch_indirect, patched_lem, stored-IsFile, stored-AreFree,
}
use os_ex.Content.Ready.{Ready, Ready-forget, write-Ready}
use os_ex.Content.Patches.{
  one_more, patched_nil, patched_same, patched-append, rounds_left, rounds_used,
}

module _ (sb : Superblock) (start : ℕ) where
  -- What the loop of `writei` leaves: the bytes written over, all others as before, no hole where they
  -- are, and room in the log but for one entry for each block.
  pub record IsWritten (ip : Inode) (v : Volume) (off : ℕ) (bs fs : List ℕ) (off' : ℕ) (ip' : Inode)
      (v' : Volume) : Type 0 where
    pub file : IsFile sb start ip' v'
    pub moved : off' ≡ off + length bs
    pub bytes :
        (i : ℕ)
        → i < maxfile * block_size
        → file_byte ip' v' i ≡ patched off bs (λ j. file_byte ip v j) i
    pub inode : ip' ≡ record ip { addrs = ip'.addrs }
    pub kept : (s : ℕ) → s < 141 → slot ip v s ≢ 0 → slot ip' v' s ≢ 0
    pub solid : (i : ℕ) → i < length bs → slot ip' v' (slot_of ((off + i) / block_size)) ≢ 0
    pub ready :
        (out k : ℕ)
        → Ready sb out (k + blocks_of off (length bs)) [] ip v
        → Ready sb out k [] ip' v'
    pub left :
        (fs' : List ℕ) × AreFree sb v' fs'
        × (length fs ≤ length fs' + blocks_of off (length bs) + blocks_of off (length bs))

  abbrev pub Writes : ℕ → Type 0
  Writes fuel =
      (ip : Inode) (off : ℕ) (bs : List ℕ) (v : Volume) (fs : List ℕ)
      → length bs ≤ fuel
      → IsFile sb start ip v
      → off + length bs ≤ maxfile * block_size
      → AreFree sb v fs
      → blocks_of off (length bs) + blocks_of off (length bs) ≤ length fs
      → Returns (write_chunks sb fuel ip off bs v) (λ r. IsWritten ip v off bs fs r.0 r.1 r.2)

  IsWritten-nil :
      (ip : Inode) (off : ℕ) (v : Volume) (fs : List ℕ)
      → IsFile sb start ip v
      → AreFree sb v fs
      → IsWritten ip v off [] fs off ip v
  IsWritten-nil ip off v fs f free = record {
    file = f;
    moved = omega arith;
    bytes = λ i lt. sym (patched_nil off (λ j. file_byte ip v j) i);
    inode = refl;
    kept = λ s lt ne. ne;
    solid = λ i lt. absurd (omega arith);
    ready = λ out k r.
        let none_left : k + 0 ≡ k = omega arith in subst (λ x. Ready sb out x [] ip v) none_left r;
    left = (fs, free, omega arith);
  }

  next_block :
      (fuel : ℕ)
      → Writes fuel
      → (ip : Inode) (off b : ℕ) (bs : List ℕ) (v : Volume) (fs : List ℕ)
        (r : Result (ℕ × Inode × Volume))
      → length (b ∷ bs) ≤ suc fuel
      → off + length (b ∷ bs) ≤ maxfile * block_size
      → blocks_of off (length (b ∷ bs)) + blocks_of off (length (b ∷ bs)) ≤ length fs
      → bmap sb ip (off / block_size) v ≡ r
      → Returns r (λ p. IsBmap sb start ip v (off / block_size) fs p.0 p.1 p.2)
      → Returns
          (write_chunks sb (suc fuel) ip off (b ∷ bs) v)
          (λ r. IsWritten ip v off (b ∷ bs) fs r.0 r.1 r.2)
  unfolding write_chunks
  next_block fuel ih ip off b bs v fs panic le top enough e p = absurd p
  next_block fuel ih ip off b bs v fs (ok (a, ip1, v1)) le top enough e p =
      let bn = off / block_size in
      let o = off % block_size in
      let n = block_size - o in
      let here = (split_at n (b ∷ bs)).0 in
      let rest = (split_at n (b ∷ bs)).1 in
      let split : b ∷ bs ≡ here ++ rest = split_at_lem n (b ∷ bs) in
      let both : length (b ∷ bs) ≡ length here + length rest =
        ap (λ l. length l) split ∙ length-append here rest in
      let short : length here ≤ n = (length-split_at n (b ∷ bs)).0 in
      let full = (length-split_at n (b ∷ bs)).1 in
      let whole : (length here ≡ n) ⊎ (length rest ≡ 0) = elim full [
        | inl e ↦ inl e
        | inr e ↦ inr (ap (λ l. length l) e)
      ] in
      let some_here : 0 < length here = split_at-some n b bs (omega arith) in
      let next : (off + length here) % 2 ^ 32 ≡ off + length here = omega (arith, both) in
      let (fs', free, count) = p.left in
      let at : a ≡ slot ip1 v1 (slot_of bn) = sym p.here in
      let mapped : slot ip1 v1 (slot_of bn) ≢ 0 = λ z. p.nonzero (at ∙ z) in
      let fits : o + length here ≤ block_size = omega (arith, short) in
      let low : bn < maxfile = omega arith in
      let d = patch sb start ip1 v1 bn o here p.file low mapped fits in
      let map = patch_map sb start ip1 v1 bn o here p.file low mapped fits in
      let indirect = patch_indirect sb start ip1 v1 bn o here p.file low mapped fits in
      let target = slot ip1 v1 (slot_of bn) in
      let v2 = write target d v1 in
      let stays : (s : ℕ) → slot ip1 v1 s ≢ 0 → slot ip1 v2 s ≢ 0 = λ s ne z.
        ne (sym (same_slot sb start ip1 ip1 v1 target d p.file refl map indirect s) ∙ z) in
      let at_off : bn * block_size + o ≡ off = omega arith in
      let left_rest : blocks_of (off + length here) (length rest)
            + blocks_of (off + length here) (length rest)
          ≤ length fs' =
        rounds_left off (length here) (length rest) (length fs) (length fs') some_here short whole
          (subst (λ x. blocks_of off x + blocks_of off x ≤ length fs) both enough) count in
      rw (write_chunks, e, next, at)
        (Returns_mono (write_chunks sb fuel ip1 (off + length here) rest v2)
          (λ r. IsWritten ip1 v2 (off + length here) rest fs' r.0 r.1 r.2)
          (λ r. IsWritten ip v off (b ∷ bs) fs r.0 r.1 r.2)
          (λ r q. record {
            file = q.file;
            moved = omega (arith, q.moved, both);
            bytes = λ i lt.
                q.bytes i lt
                ∙ patched_same (off + length here) rest (λ j. file_byte ip1 v2 j)
                    (λ j. patched off here (λ j. file_byte ip v j) j) i
                    (patched_lem sb start ip1 v1 bn o here p.file low mapped fits i lt
                      ∙ ap (λ x. patched x here (λ j. file_byte ip1 v1 j) i) at_off
                      ∙ patched_same off here (λ j. file_byte ip1 v1 j) (λ j. file_byte ip v j) i
                          (p.bytes i lt))
                ∙ patched-append off here rest (λ j. file_byte ip v j) i
                ∙ ap (λ l. patched off l (λ j. file_byte ip v j) i) (sym split);
            inode = q.inode ∙ ap (λ x. with_addrs r.1.addrs x) p.inode;
            kept = λ s lt ne. q.kept s lt (stays s (p.kept s lt ne));
            solid = λ i lt. elim (Bool-cases (ltb i (length here))) [
              | inl first ↦
                  let block : (off + i) / block_size ≡ bn = ground arith in
                  q.kept (slot_of ((off + i) / block_size)) (ground arith) (
                    subst (λ x. slot ip1 v2 (slot_of x) ≢ 0) (sym block)
                      (stays (slot_of bn) mapped))
              | inr later ↦
                  let place : off + length here + (i - length here) ≡ off + i = ground arith in
                  subst (λ x. slot r.1 r.2 (slot_of (x / block_size)) ≢ 0) place
                    (q.solid (i - length here) (ground arith))
            ];
            ready = λ out k w. q.ready out k (
                Ready-forget sb out (k + blocks_of (off + length here) (length rest)) target ip1 v2
                  (write-Ready sb out (k + blocks_of (off + length here) (length rest)) target d ip1
                    v1
                    (subst
                      (λ x.
                        Ready sb out (k + blocks_of (off + length here) (length rest)) (x ∷ []) ip1
                          v1)
                      at
                      (p.ready out (k + blocks_of (off + length here) (length rest)) (
                        subst (λ x. Ready sb out x [] ip v)
                          (one_more off (length here) (length rest) k (suc (length bs)) some_here
                            short whole both)
                          w)))));
            left =
                let (fs2, free2, count2) = q.left in
                (
                  fs2,
                  free2,
                  subst (λ x. length fs ≤ length fs2 + blocks_of off x + blocks_of off x) (sym both)
                      (rounds_used off (length here) (length rest) (length fs) (length fs')
                        (length fs2) some_here short count count2 whole),
                );
          })
          (ih ip1 (off + length here) rest v2 fs' (omega (arith, both, some_here))
            (stored-IsFile sb start ip1 ip1 v1 target d p.file refl map indirect)
            (omega (arith, both))
            (stored-AreFree sb start ip1 ip1 v1 target d p.file refl map indirect fs' free)
            left_rest))

  pub write_chunks_lem : (fuel : ℕ) → Writes fuel
  unfolding write_chunks
  write_chunks_lem zero ip off [] v fs le f top free enough = IsWritten-nil ip off v fs f free
  write_chunks_lem (suc fuel) ip off [] v fs le f top free enough = IsWritten-nil ip off v fs f free
  write_chunks_lem zero ip off (b ∷ bs) v fs le f top free enough = absurd (omega arith)
  write_chunks_lem (suc fuel) ip off (b ∷ bs) v fs le f top free enough =
      next_block fuel (write_chunks_lem fuel) ip off b bs v fs (bmap sb ip (off / block_size) v) le
        top enough refl
        (bmap_lem sb start ip v (off / block_size) fs f (omega arith) free (ground arith))
