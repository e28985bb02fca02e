-- ===== src/Content/Saved.antt =====
-- An inode that `iupdate` of code/fs.c has written, as `ilock` reads it again.
use native.Mathlib.Decide.{ℕ_discrete}
use os_ex.Shared.{
  ℕ, ◌+◌, ◌*◌, ◌%◌, ◌^◌, ◌<◌, ◌≤◌, ◌≡◌, ◌≢◌, refl, sym, ap, ◌∙◌, ◌⊎◌, inl, inr, Bool-cases, ==_iff,
  true, false, ◌==◌, eq_int, if◌then◌else◌, pos, to_bits, ok, panic, All, length, arith,
}
use os_ex.Log.{Superblock}
use os_ex.Inodes.{Inode}
use os_ex.Content.{Data, Volume, write, word_at, put_word}
use os_ex.Content.Scanning.{write_self, write_ne}
use os_ex.Content.Dinode.{
  inodes_per_block, iblock, half_at, put_half, of_half, put_words, words_at, put_dinode, iupdate,
  read_dinode, load_inode,
}
use os_ex.Content.Halves.{
  put_half_self, put_half_other, put_half_byte, put_word_byte, put_words_byte, put_word_self,
  half_before, word_same, words_at-put_words, words_same, IsShort, of_half-to_bits,
}

pub record HasFields (ip : Inode) : Type 0 where
  pub type_short : IsShort ip.type
  pub major_short : IsShort ip.major
  pub minor_short : IsShort ip.minor
  pub nlink_short : IsShort ip.nlink
  pub size_word : ip.size < 2 ^ 32
  pub thirteen : length ip.addrs ≡ 13
  pub addrs_words : All (λ w. w < 2 ^ 32) ip.addrs

module _ (d : Data) (p : ℕ) (ip : Inode) (h : HasFields ip) where
  abbrev d1 : Data
  d1 = put_half d (p * 32) (to_bits ip.type)

  abbrev d2 : Data
  d2 = put_half d1 (p * 32 + 1) (to_bits ip.major)

  abbrev d3 : Data
  d3 = put_half d2 (p * 32 + 2) (to_bits ip.minor)

  abbrev d4 : Data
  d4 = put_half d3 (p * 32 + 3) (to_bits ip.nlink)

  abbrev d5 : Data
  d5 = put_word d4 (p * 16 + 2) ip.size

  abbrev saved : Data
  saved = put_words d5 (p * 16 + 3) ip.addrs

  -- The shorts lie before the words.
  low_byte : (x : ℕ) → x < p * 64 + 8 → saved x ≡ d4 x
  low_byte x lt =
      put_words_byte d5 (p * 16 + 3) ip.addrs x (inl (omega arith))
      ∙ put_word_byte d4 (p * 16 + 2) ip.size x (inl (omega arith))

  low_half : (k : ℕ) → k < 4 → half_at saved (p * 32 + k) ≡ half_at d4 (p * 32 + k)
  low_half k lt =
      half_before d4 saved (p * 32 + k) (low_byte (2 * (p * 32 + k)) (omega arith))
        (low_byte (2 * (p * 32 + k) + 1) (omega arith))

  saved_type : of_half (half_at saved (p * 32)) ≡ ip.type
  saved_type =
      let at : p * 32 + 0 ≡ p * 32 = omega arith in
      ap (λ u. of_half u)
        (ap (λ k. half_at saved k) (sym at)
          ∙ low_half 0 (omega arith)
          ∙ ap (λ k. half_at d4 k) at
          ∙ put_half_other d3 (p * 32 + 3) (p * 32) (to_bits ip.nlink) (omega arith)
          ∙ put_half_other d2 (p * 32 + 2) (p * 32) (to_bits ip.minor) (omega arith)
          ∙ put_half_other d1 (p * 32 + 1) (p * 32) (to_bits ip.major) (omega arith)
          ∙ put_half_self d (p * 32) (to_bits ip.type))
      ∙ of_half-to_bits ip.type h.type_short

  saved_major : of_half (half_at saved (p * 32 + 1)) ≡ ip.major
  saved_major =
      ap (λ u. of_half u)
        (low_half 1 (omega arith)
          ∙ put_half_other d3 (p * 32 + 3) (p * 32 + 1) (to_bits ip.nlink) (omega arith)
          ∙ put_half_other d2 (p * 32 + 2) (p * 32 + 1) (to_bits ip.minor) (omega arith)
          ∙ put_half_self d1 (p * 32 + 1) (to_bits ip.major))
      ∙ of_half-to_bits ip.major h.major_short

  saved_minor : of_half (half_at saved (p * 32 + 2)) ≡ ip.minor
  saved_minor =
      ap (λ u. of_half u)
        (low_half 2 (omega arith)
          ∙ put_half_other d3 (p * 32 + 3) (p * 32 + 2) (to_bits ip.nlink) (omega arith)
          ∙ put_half_self d2 (p * 32 + 2) (to_bits ip.minor))
      ∙ of_half-to_bits ip.minor h.minor_short

  saved_nlink : of_half (half_at saved (p * 32 + 3)) ≡ ip.nlink
  saved_nlink =
      ap (λ u. of_half u)
        (low_half 3 (omega arith) ∙ put_half_self d3 (p * 32 + 3) (to_bits ip.nlink))
      ∙ of_half-to_bits ip.nlink h.nlink_short

  saved_size : word_at saved (p * 16 + 2) ≡ ip.size
  saved_size =
      word_same d5 saved (p * 16 + 2)
        (λ x lo hi. put_words_byte d5 (p * 16 + 3) ip.addrs x (inl (omega arith)))
      ∙ put_word_self d4 (p * 16 + 2) ip.size h.size_word

  saved_addrs : words_at saved (p * 16 + 3) 13 ≡ ip.addrs
  saved_addrs =
      ap (λ n. words_at saved (p * 16 + 3) n) (sym h.thirteen)
      ∙ words_at-put_words d5 (p * 16 + 3) ip.addrs h.addrs_words

  -- Bytes outside of the inode's place are as before.
  saved_outside : (x : ℕ) → (x < p * 64) ⊎ (p * 64 + 64 ≤ x) → saved x ≡ d x
  saved_outside x out =
      put_words_byte d5 (p * 16 + 3) ip.addrs x (ground (arith, h.thirteen))
      ∙ put_word_byte d4 (p * 16 + 2) ip.size x (ground arith)
      ∙ put_half_byte d3 (p * 32 + 3) (to_bits ip.nlink) x (ground arith)
      ∙ put_half_byte d2 (p * 32 + 2) (to_bits ip.minor) x (ground arith)
      ∙ put_half_byte d1 (p * 32 + 1) (to_bits ip.major) x (ground arith)
      ∙ put_half_byte d (p * 32) (to_bits ip.type) x (ground arith)

  read_saved :
      (ip0 : Inode)
      → read_dinode saved p ip0
        ≡ record ip { dev = ip0.dev; inum = ip0.inum; ref = ip0.ref; valid = true }
  read_saved ip0 =
      rw (saved_type, saved_major, saved_minor, saved_nlink, saved_size, saved_addrs) refl

  read_other : (q : ℕ) (ip0 : Inode) → q ≢ p → read_dinode saved q ip0 ≡ read_dinode d q ip0
  read_other q ip0 ne =
      let half = λ (k : ℕ) (lt : k < 4).
        half_before d saved (q * 32 + k) (saved_outside (2 * (q * 32 + k)) (ground arith))
          (saved_outside (2 * (q * 32 + k) + 1) (ground arith)) in
      let first : half_at saved (q * 32) ≡ half_at d (q * 32) =
        half_before d saved (q * 32) (saved_outside (2 * (q * 32)) (ground arith))
          (saved_outside (2 * (q * 32) + 1) (ground arith)) in
      let size : word_at saved (q * 16 + 2) ≡ word_at d (q * 16 + 2) =
        word_same d saved (q * 16 + 2) (λ x lo hi. saved_outside x (ground arith)) in
      let addrs : words_at saved (q * 16 + 3) 13 ≡ words_at d (q * 16 + 3) 13 =
        words_same d saved (q * 16 + 3) 13 (λ x lo hi. saved_outside x (ground arith)) in
      rw (first, half 1 (omega arith), half 2 (omega arith), half 3 (omega arith), size, addrs) refl

load_same :
    (sb : Superblock) (ip ip0 : Inode) (v : Volume)
    → HasFields ip
    → ip0.inum ≡ ip.inum
    → ip0.valid ≡ false
    → eq_int ip.type (pos 0) ≡ false
    → load_inode sb ip0 (iupdate sb ip v)
      ≡ ok (record ip { dev = ip0.dev; inum = ip0.inum; ref = ip0.ref; valid = true })
unfolding load_inode iupdate
load_same sb ip ip0 v h same invalid used =
    let b = iblock sb ip.inum in
    let p = ip.inum % inodes_per_block in
    rw
      (
        invalid,
        same,
        write_self b (put_dinode (v.blocks b) p ip) v,
        saved_type (v.blocks b) p ip h,
        saved_major (v.blocks b) p ip h,
        saved_minor (v.blocks b) p ip h,
        saved_nlink (v.blocks b) p ip h,
        saved_size (v.blocks b) p ip h,
        saved_addrs (v.blocks b) p ip h,
        used,
      )
      refl

load_other :
    (sb : Superblock) (ip ip0 : Inode) (v : Volume)
    → HasFields ip
    → ip0.inum ≢ ip.inum
    → load_inode sb ip0 (iupdate sb ip v) ≡ load_inode sb ip0 v
unfolding load_inode iupdate
load_other sb ip ip0 v h ne =
    let b = iblock sb ip.inum in
    let p = ip.inum % inodes_per_block in
    let d = put_dinode (v.blocks b) p ip in
    let q = ip0.inum % inodes_per_block in
    let read : read_dinode ((write b d v).blocks (iblock sb ip0.inum)) q ip0
        ≡ read_dinode (v.blocks (iblock sb ip0.inum)) q ip0 =
      elim (ℕ_discrete (iblock sb ip0.inum) b) [
        | no other ↦ ap (λ e. read_dinode e q ip0) (write_ne b (iblock sb ip0.inum) d v other)
        | yes same ↦
            ap (λ c. read_dinode ((write b d v).blocks c) q ip0) same
            ∙ ap (λ e. read_dinode e q ip0) (write_self b d v)
            ∙ read_other (v.blocks b) p ip h q ip0 (λ e. ne (omega (arith, e, same)))
            ∙ ap (λ c. read_dinode (v.blocks c) q ip0) (sym same)
      ] in
    ap (λ r. if ip0.valid then ok ip0 else if eq_int r.type (pos 0) then panic else ok r) read

-- An inode with fields in the range of their types, and not free, is read by `ilock` as `iupdate`
-- has written it; every other inode is read as it was before.
pub load_inode-iupdate :
    (sb : Superblock) (ip ip0 : Inode) (v : Volume)
    → HasFields ip
    → eq_int ip.type (pos 0) ≡ false
    → ip0.valid ≡ false
    → load_inode sb ip0 (iupdate sb ip v) ≡ (
        if ip0.inum == ip.inum
        then ok (record ip { dev = ip0.dev; inum = ip0.inum; ref = ip0.ref; valid = true })
        else load_inode sb ip0 v)
load_inode-iupdate sb ip ip0 v h used invalid = elim (Bool-cases (ip0.inum == ip.inum)) [
  | inl same ↦ rw same (load_same sb ip ip0 v h ((==_iff ip0.inum ip.inum).0 same) invalid used)
  | inr other ↦ rw other (load_other sb ip ip0 v h (λ e. absurd (ground (arith, e))))
]
