-- ===== src/Content/Placed.antt =====
-- The blocks that the slots of an inode in code/fs.c hold, and a block put into one of them.
use native.Mathlib.Decide.{ℕ_discrete}
use os_ex.Shared.{
  ℕ, suc, [], ◌∷◌, ◌+◌, ◌-◌, ◌*◌, ◌^◌, ◌<◌, ◌≤◌, ◌≡◌, ◌≢◌, refl, sym, ap, ◌∙◌, true, false, leb,
  ◌==◌, List, length, arith,
}
use os_ex.Log.{Superblock}
use os_ex.Inodes.{Inode}
use os_ex.Content.{Data, Volume, block_size, ndirect, maxfile, word_at, put_word, addr_at}
use os_ex.Content.Ready.{Ready}
use os_ex.Content.Fresh.{AreFree}
use os_ex.Content.Slots.{beyond, slot, file_byte, IsFile}

pub slot_low : (ip : Inode) (v : Volume) (s : ℕ) → s ≤ 12 → slot ip v s ≡ addr_at ip s
slot_low ip v s le = let low : leb s ndirect ≡ true = ground arith in rw low refl

pub slot_high :
    (ip : Inode) (v : Volume) (s : ℕ)
    → 12 < s
    → slot ip v s ≡ beyond v (addr_at ip ndirect) (s - 13)
slot_high ip v s lt = let high : leb s ndirect ≡ false = ground arith in rw high refl

pub beyond_empty : (v : Volume) (addr n : ℕ) → addr ≡ 0 → beyond v addr n ≡ 0
beyond_empty v addr n e = ground arith

pub beyond_zero : (v : Volume) (addr n : ℕ) → ((i : ℕ) → v.blocks addr i ≡ 0) → beyond v addr n ≡ 0
beyond_zero v addr n h = ground (arith, h (4 * n), h (4 * n + 1), h (4 * n + 2), h (4 * n + 3))

pub beyond_at : (v : Volume) (addr n : ℕ) → addr ≢ 0 → beyond v addr n ≡ word_at (v.blocks addr) n
beyond_at v addr n ne = let some_addr : (addr == 0) ≡ false = ground arith in rw some_addr refl

pub beyond_same :
    (v v' : Volume) (addr n : ℕ)
    → (addr ≢ 0 → v'.blocks addr ≡ v.blocks addr)
    → beyond v' addr n ≡ beyond v addr n
beyond_same v v' addr n h = elim (ℕ_discrete addr 0) [
  | yes e ↦ beyond_empty v' addr n e ∙ sym (beyond_empty v addr n e)
  | no ne ↦ beyond_at v' addr n ne ∙ ap (λ d. word_at d n) (h ne) ∙ sym (beyond_at v addr n ne)
]

pub put_word_self : (d : Data) (n w : ℕ) → w < 2 ^ 32 → word_at (put_word d n w) n ≡ w
put_word_self d n w lt = ground arith

pub put_word_other : (d : Data) (n m w : ℕ) → m ≢ n → word_at (put_word d n w) m ≡ word_at d m
put_word_other d n m w ne = ground arith

-- The block in a slot, which it has now or had before, in a file that reads as before.
pub record IsPlaced (sb : Superblock) (start : ℕ) (ip : Inode) (v : Volume) (fs : List ℕ) (s a : ℕ)
    (ip' : Inode) (v' : Volume) : Type 0 where
  pub file : IsFile sb start ip' v'
  pub here : slot ip' v' s ≡ a
  pub nonzero : a ≢ 0
  pub bytes : (i : ℕ) → i < maxfile * block_size → file_byte ip' v' i ≡ file_byte ip v i
  pub others : (s' : ℕ) → s' < 141 → s' ≢ s → slot ip' v' s' ≡ slot ip v s'
  pub inode : ip' ≡ record ip { addrs = ip'.addrs }
  pub ready :
      (out k : ℕ)
      → (s ≡ 12 → Ready sb out k [] ip v → Ready sb out k [] ip' v')
        × (s ≢ 12 → Ready sb out (suc k) [] ip v → Ready sb out k (a ∷ []) ip' v')
  pub left : (fs' : List ℕ) × AreFree sb v' fs' × (length fs ≤ length fs' + 1)
