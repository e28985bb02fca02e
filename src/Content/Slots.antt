-- ===== src/Content/Slots.antt =====
-- The blocks of a file: the inode's 12 direct blocks are the slots 0 to 11, its indirect block is
-- slot 12, and the 128 words of that block are the slots 13 to 140.
use native.Mathlib.Decide.{ℕ_discrete}
use os_ex.Shared.{
  ℕ, ◌+◌, ◌-◌, ◌*◌, ◌/◌, ◌%◌, ◌^◌, ◌<◌, ◌≤◌, ◌≡◌, ◌≢◌, sym, ap, ◌∙◌, leb, ltb, ◌==◌, if◌then◌else◌,
  length, arith,
}
use os_ex.Log.{Superblock}
use os_ex.Inodes.{Inode}
use os_ex.Content.{Volume, block_size, ndirect, maxfile, word_at, addr_at}
use os_ex.Content.Bitmap.{used}
use os_ex.Content.Fresh.{IsLaidOut}

abbrev pub beyond : Volume → ℕ → ℕ → ℕ
beyond v addr n = if addr == 0 then 0 else word_at (v.blocks addr) n

abbrev pub slot : Inode → Volume → ℕ → ℕ
slot ip v s = if leb s ndirect then addr_at ip s else beyond v (addr_at ip ndirect) (s - 13)

-- The slot of a block of the file's contents.
abbrev pub slot_of : ℕ → ℕ
slot_of bn = if ltb bn ndirect then bn else bn + 1

-- A byte of a file, by the block that it is in; a block that is missing reads as zeros.
abbrev pub byte_in : Volume → ℕ → ℕ → ℕ
byte_in v b i = if b == 0 then 0 else v.blocks b i

abbrev pub file_byte : Inode → Volume → ℕ → ℕ
file_byte ip v i = byte_in v (slot ip v (slot_of (i / block_size))) (i % block_size)

-- The blocks of a file are in use, none of them is reserved, and no two slots share one.
pub record IsFile (sb : Superblock) (start : ℕ) (ip : Inode) (v : Volume) : Type 0 where
  pub thirteen : length ip.addrs ≡ 13
  pub small : sb.size ≤ 2 ^ 32
  pub laid_out : IsLaidOut sb start v
  pub owned :
      (s : ℕ)
      → s < 141
      → slot ip v s ≢ 0
      → (start ≤ slot ip v s) × (slot ip v s < sb.size) × (used sb v (slot ip v s) ≢ 0)
  pub distinct :
      (s s' : ℕ) → s < 141 → s' < 141 → s ≢ s' → slot ip v s ≢ 0 → slot ip v s ≢ slot ip v s'

byte_in_zero : (v : Volume) (b i : ℕ) → (b ≢ 0 → v.blocks b i ≡ 0) → byte_in v b i ≡ 0
byte_in_zero v b i h = ground arith

pub byte_in_same :
    (v v' : Volume) (b i : ℕ)
    → (b ≢ 0 → v'.blocks b i ≡ v.blocks b i)
    → byte_in v' b i ≡ byte_in v b i
byte_in_same v v' b i h = ground arith

-- A file to which one block was added, in a slot that was empty.
module _ (sb : Superblock) (start : ℕ) (ip ip' : Inode) (v v' : Volume) (s a : ℕ)
    (f : IsFile sb start ip v) (in_range : s < 141) (empty : slot ip v s ≡ 0) (above : start ≤ a)
    (inside : a < sb.size) (was_free : used sb v a ≡ 0) (now_used : used sb v' a ≢ 0)
    (others_used : (x : ℕ) → x < sb.size → x ≢ a → used sb v' x ≡ used sb v x)
    (laid : IsLaidOut sb start v') (len : length ip'.addrs ≡ 13) (here : slot ip' v' s ≡ a)
    (others : (s' : ℕ) → s' < 141 → s' ≢ s → slot ip' v' s' ≡ slot ip v s')
    (zeroed : (i : ℕ) → v'.blocks a i ≡ 0)
    (kept : (s' : ℕ)
      → s' < 141
      → s' ≢ 12
      → slot ip v s' ≢ 0
      → (i : ℕ) → v'.blocks (slot ip v s') i ≡ v.blocks (slot ip v s') i) where
  not_owned : (s' : ℕ) → s' < 141 → slot ip v s' ≢ a
  not_owned s' lt e =
      (f.owned s' lt (λ z. absurd (omega (arith, z, e, above, f.laid_out.positive)))).2
        (ap (λ x. used sb v x) e ∙ was_free)

  extended_owned :
      (s' : ℕ)
      → s' < 141
      → slot ip' v' s' ≢ 0
      → (start ≤ slot ip' v' s') × (slot ip' v' s' < sb.size) × (used sb v' (slot ip' v' s') ≢ 0)
  extended_owned s' lt ne = elim (ℕ_discrete s' s) [
    | yes same ↦
        let at : slot ip' v' s' ≡ a = ap (λ x. slot ip' v' x) same ∙ here in
        (omega (arith, at), omega (arith, at), λ e. now_used (ap (λ x. used sb v' x) (sym at) ∙ e))
    | no other ↦
        let at = others s' lt other in
        let old = f.owned s' lt (λ z. ne (at ∙ z)) in
        (
          omega (arith, at, old.0),
          omega (arith, at, old.1),
          λ e. old.2 (
              sym (others_used (slot ip v s') old.1 (not_owned s' lt))
              ∙ ap (λ x. used sb v' x) (sym at)
              ∙ e),
        )
  ]

  extended_distinct :
      (x y : ℕ) → x < 141 → y < 141 → x ≢ y → slot ip' v' x ≢ 0 → slot ip' v' x ≢ slot ip' v' y
  extended_distinct x y lx ly ne nz e = elim (ℕ_discrete x s) [
    | yes same ↦
        not_owned y ly
          (sym (others y ly (λ q. ne (same ∙ sym q))) ∙ sym e ∙ ap (λ z. slot ip' v' z) same ∙ here)
    | no other ↦ elim (ℕ_discrete y s) [
      | yes same' ↦
          not_owned x lx (sym (others x lx other) ∙ e ∙ ap (λ z. slot ip' v' z) same' ∙ here)
      | no other' ↦
          f.distinct x y lx ly ne (λ z. nz (others x lx other ∙ z))
            (sym (others x lx other) ∙ e ∙ others y ly other')
    ]
  ]

  pub extended-IsFile : IsFile sb start ip' v'
  extended-IsFile = record {
    thirteen = len;
    small = f.small;
    laid_out = laid;
    owned = extended_owned;
    distinct = extended_distinct;
  }

  pub extended-file_byte :
      (i : ℕ) → i < maxfile * block_size → file_byte ip' v' i ≡ file_byte ip v i
  extended-file_byte i lt = elim (ℕ_discrete (slot_of (i / block_size)) s) [
    | yes same ↦
        ap (λ b. byte_in v' b (i % block_size)) (ap (λ z. slot ip' v' z) same ∙ here)
        ∙ byte_in_zero v' a (i % block_size) (λ _. zeroed (i % block_size))
        ∙ sym (ap (λ b. byte_in v b (i % block_size)) (ap (λ z. slot ip v z) same ∙ empty))
    | no other ↦
        let s' = slot_of (i / block_size) in
        ap (λ b. byte_in v' b (i % block_size)) (others s' (ground arith) other)
        ∙ byte_in_same v v' (slot ip v s') (i % block_size)
            (λ nz. kept s' (ground arith) (ground arith) nz (i % block_size))
  ]
