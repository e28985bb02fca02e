-- ===== src/Content/Store.antt =====
-- A write to a block that is neither of the free map nor the indirect block of a file: what it does
-- to the file.
use native.Mathlib.Decide.{ℕ_discrete}
use os_ex.Shared.{
  ℕ, ◌+◌, ◌-◌, ◌*◌, ◌/◌, ◌%◌, ◌<◌, ◌≤◌, ◌≡◌, ◌≢◌, refl, sym, ap, ◌∙◌, Bool-cases, inl, inr, leb,
  ltb, ◌&&◌, if◌then◌else◌, List, length, get_or, arith,
}
use os_ex.Log.{Superblock}
use os_ex.Inodes.{Inode}
use os_ex.Content.{
  Data, Volume, block_size, bits_per_block, ndirect, maxfile, bit_at, write, addr_at, bblock,
}
use os_ex.Content.Bitmap.{used}
use os_ex.Content.Scanning.{write_self, write_ne}
use os_ex.Content.Fresh.{AreFree}
use os_ex.Content.Slots.{beyond, byte_in_same, slot, slot_of, byte_in, file_byte, IsFile}
use os_ex.Content.Extend.{free_same}
use os_ex.Content.Placed.{slot_low, slot_high, beyond_same}
use os_ex.Content.Io.{put_data}
use os_ex.Content.Reading.{byte_in_some}

module _ (sb : Superblock) (start : ℕ) (ip ip' : Inode) (v : Volume) (b : ℕ) (d : Data)
    (f : IsFile sb start ip v) (same : ip'.addrs ≡ ip.addrs)
    (not_map : (x : ℕ) → x < sb.size → bblock sb x ≢ b)
    (not_indirect : addr_at ip ndirect ≢ 0 → addr_at ip ndirect ≢ b) where
  abbrev v' : Volume
  v' = write b d v

  same_used : (x : ℕ) → x < sb.size → used sb v' x ≡ used sb v x
  same_used x lt =
      ap (λ e. bit_at e (x % bits_per_block)) (write_ne b (bblock sb x) d v (not_map x lt))

  pub same_slot : (s : ℕ) → slot ip' v' s ≡ slot ip v s
  same_slot s = elim (Bool-cases (leb s 12)) [
    | inl low ↦
        slot_low ip' v' s (ground arith)
        ∙ ap (λ l. get_or l s 0) same
        ∙ sym (slot_low ip v s (ground arith))
    | inr high ↦
        slot_high ip' v' s (ground arith)
        ∙ ap (λ l. beyond v' (get_or l ndirect 0) (s - 13)) same
        ∙ beyond_same v v' (addr_at ip ndirect) (s - 13)
            (λ nz. write_ne b (addr_at ip ndirect) d v (not_indirect nz))
        ∙ sym (slot_high ip v s (ground arith))
  ]

  pub stored-IsFile : IsFile sb start ip' v'
  stored-IsFile = record {
    thirteen = ap (λ l. length l) same ∙ f.thirteen;
    small = f.small;
    laid_out = record {
      positive = f.laid_out.positive;
      start_in = f.laid_out.start_in;
      reserved = λ x low e.
          f.laid_out.reserved x low (sym (same_used x (omega (arith, f.laid_out.start_in))) ∙ e);
      map_low = f.laid_out.map_low;
    };
    owned = λ s lt ne.
        let e = same_slot s in
        let old = f.owned s lt (λ z. ne (e ∙ z)) in
        (
          omega (arith, e, old.0),
          omega (arith, e, old.1),
          λ z. old.2 (sym (same_used (slot ip v s) old.1) ∙ ap (λ x. used sb v' x) (sym e) ∙ z),
        );
    distinct = λ s t ls lt ne nz e.
        f.distinct s t ls lt ne (λ z. nz (same_slot s ∙ z)) (sym (same_slot s) ∙ e ∙ same_slot t);
  }

  pub stored-AreFree : (fs : List ℕ) → AreFree sb v fs → AreFree sb v' fs
  stored-AreFree fs free = (free_same sb start ip v f v v' fs same_used free.0, free.1)

  -- A byte in another block than the one that was written.
  pub stored_other :
      (i : ℕ)
      → (slot ip v (slot_of (i / block_size)) ≢ 0 → slot ip v (slot_of (i / block_size)) ≢ b)
      → file_byte ip' v' i ≡ file_byte ip v i
  stored_other i ne =
      let at = slot ip v (slot_of (i / block_size)) in
      ap (λ x. byte_in v' x (i % block_size)) (same_slot (slot_of (i / block_size)))
      ∙ byte_in_same v v' at (i % block_size)
          (λ nz. ap (λ e. e (i % block_size)) (write_ne b at d v (ne nz)))

-- The bytes of a file after some of them were written over.
abbrev pub patched : ℕ → List ℕ → (ℕ → ℕ) → ℕ → ℕ
patched off bs old i = if leb off i && ltb i (off + length bs) then get_or bs (i - off) 0 else old i

patched_shift :
    (c o r : ℕ) (bs : List ℕ) (old old' : ℕ → ℕ)
    → old r ≡ old' (c + r)
    → patched o bs old r ≡ patched (c + o) bs old' (c + r)
patched_shift c o r bs old old' e =
    let place : c + r - (c + o) ≡ r - o = omega arith in
    let low : leb (c + o) (c + r) ≡ leb o r = ground arith in
    let high : ltb (c + r) (c + o + length bs) ≡ ltb r (o + length bs) = ground arith in
    rw (place, low, high, e) refl

pub patched_outside :
    (off : ℕ) (bs : List ℕ) (old : ℕ → ℕ) (i : ℕ)
    → (off ≤ i → i < off + length bs → ⊥)
    → patched off bs old i ≡ old i
patched_outside off bs old i out = ground arith

module _ (sb : Superblock) (start : ℕ) (ip : Inode) (v : Volume) (bn o : ℕ) (here : List ℕ)
    (f : IsFile sb start ip v) (top : bn < maxfile) (mapped : slot ip v (slot_of bn) ≢ 0)
    (fits : o + length here ≤ block_size) where
  abbrev pub a : ℕ
  a = slot ip v (slot_of bn)

  abbrev pub patch : Data
  patch = put_data (v.blocks a) o here

  slot_top : slot_of bn < 141
  slot_top = ground arith

  slot_ne : slot_of bn ≢ 12
  slot_ne = ground arith

  pub patch_map : (x : ℕ) → x < sb.size → bblock sb x ≢ a
  patch_map x lt e =
      absurd (omega (arith, e, f.laid_out.map_low x lt, (f.owned (slot_of bn) slot_top mapped).0))

  pub patch_indirect : addr_at ip ndirect ≢ 0 → addr_at ip ndirect ≢ a
  patch_indirect nz e = f.distinct (slot_of bn) 12 slot_top (omega arith) slot_ne mapped (sym e)

  in_block :
      (i : ℕ)
      → i < maxfile * block_size
      → i / block_size ≡ bn
      → file_byte ip (write a patch v) i
        ≡ patched (bn * block_size + o) here (λ j. file_byte ip v j) i
  in_block i lt same =
      let r = i % block_size in
      let at : slot ip v (slot_of (i / block_size)) ≡ a = ap (λ x. slot ip v (slot_of x)) same in
      let old : v.blocks a r ≡ file_byte ip v i =
        sym (ap (λ x. byte_in v x r) at ∙ byte_in_some v a r mapped) in
      let whole : bn * block_size + r ≡ i = omega arith in
      ap (λ x. byte_in (write a patch v) x r)
        (same_slot sb start ip ip v a patch f refl patch_map patch_indirect
            (slot_of (i / block_size))
          ∙ at)
      ∙ byte_in_some (write a patch v) a r mapped
      ∙ ap (λ e. e r) (write_self a patch v)
      ∙ patched_shift (bn * block_size) o r here (v.blocks a) (λ j. file_byte ip v j)
          (old ∙ ap (λ x. file_byte ip v x) (sym whole))
      ∙ ap (λ x. patched (bn * block_size + o) here (λ j. file_byte ip v j) x) whole

  -- Each byte of the file after the write.
  pub patched_lem :
      (i : ℕ)
      → i < maxfile * block_size
      → file_byte ip (write a patch v) i
        ≡ patched (bn * block_size + o) here (λ j. file_byte ip v j) i
  patched_lem i lt = elim (ℕ_discrete (i / block_size) bn) [
    | yes same ↦ in_block i lt same
    | no other ↦
        stored_other sb start ip ip v a patch f refl patch_map patch_indirect i (λ nz.
          f.distinct (slot_of (i / block_size)) (slot_of bn) (ground arith) slot_top
            (λ e. absurd (ground arith)) nz)
        ∙ sym (
            patched_outside (bn * block_size + o) here (λ j. file_byte ip v j) i
              (λ low high. absurd (omega arith)))
  ]
