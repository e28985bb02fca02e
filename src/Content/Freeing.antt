-- ===== src/Content/Freeing.antt =====
-- What the loops of `itrunc` of code/fs.c have done so far. It goes through the slots of a file in the
-- order of their ranks: the direct blocks, the words of the indirect block, and that block itself.
use native.Mathlib.Decide.{ℕ_discrete}
use os_ex.Shared.{
  ℕ, suc, ◌-◌, ◌<◌, ◌≤◌, ◌≡◌, ◌≢◌, sym, ap, ◌∙◌, ltb, ◌==◌, if◌then◌else◌, Returns, Returns_mono,
  length, set, length-set, get_or-set_self, get_or-set_ne, arith,
}
use os_ex.Log.{Superblock}
use os_ex.Inodes.{Inode}
use os_ex.Content.{Volume, addr_at, bfree}
use os_ex.Content.Bitmap.{used, Freed, bfree-Freed}
use os_ex.Content.Slots.{slot, IsFile}

-- The place of a slot in the order in which they are freed.
abbrev pub rank : ℕ → ℕ
rank s = if ltb s 12 then s else if s == 12 then 140 else s - 1

pub rank-injective : (s t : ℕ) → s < 141 → t < 141 → rank s ≡ rank t → s ≡ t
rank-injective s t ls lt e = ground arith

module _ (sb : Superblock) (start : ℕ) (ip0 : Inode) (v0 : Volume)
    (f : IsFile sb start ip0 v0) where
  -- The blocks in slots of a lower rank than `k` are free, all other blocks are as they were.
  pub record IsPartly (k : ℕ) (v : Volume) : Type 0 where
    pub freed : (s : ℕ) → s < 141 → rank s < k → slot ip0 v0 s ≢ 0 → used sb v (slot ip0 v0 s) ≡ 0
    pub kept :
        (x : ℕ)
        → x < sb.size
        → ((s : ℕ) → s < 141 → rank s < k → slot ip0 v0 s ≢ x)
        → used sb v x ≡ used sb v0 x
    pub blocks : (c : ℕ) → start ≤ c → v.blocks c ≡ v0.blocks c

  pub IsPartly-skip :
      (k s : ℕ) (v : Volume)
      → rank s ≡ k
      → s < 141
      → slot ip0 v0 s ≡ 0
      → IsPartly k v
      → IsPartly (suc k) v
  IsPartly-skip k s v at lt empty p = record {
    freed = λ t top low nz. elim (ℕ_discrete (rank t) k) [
      | yes same ↦
          let e : t ≡ s = rank-injective t s top lt (same ∙ sym at) in
          absurd (nz (ap (λ x. slot ip0 v0 x) e ∙ empty))
      | no other ↦ p.freed t top (omega arith) nz
    ];
    kept = λ x top out. p.kept x top (λ t ltt low. out t ltt (omega (arith, low)));
    blocks = p.blocks;
  }

  pub IsPartly-free :
      (k s : ℕ) (v v' : Volume)
      → rank s ≡ k
      → s < 141
      → slot ip0 v0 s ≢ 0
      → IsPartly k v
      → Freed sb (slot ip0 v0 s) v v'
      → IsPartly (suc k) v'
  IsPartly-free k s v v' at lt nz p (clear, others, same) = record {
    freed = λ t top low nzt. elim (ℕ_discrete (rank t) k) [
      | yes same ↦
          let e : t ≡ s = rank-injective t s top lt (same ∙ sym at) in
          ap (λ x. used sb v' (slot ip0 v0 x)) e ∙ clear
      | no other ↦
          let ne : t ≢ s = λ e. other (ap (λ x. rank x) e ∙ at) in
          others (slot ip0 v0 t) (f.distinct t s top lt ne nzt) ∙ p.freed t top (omega arith) nzt
    ];
    kept = λ x top out.
        others x (λ e. out s lt (omega (arith, at)) (sym e))
        ∙ p.kept x top (λ t ltt low. out t ltt (omega (arith, low)));
    blocks = λ c high.
        same c
          (λ e. absurd (omega (arith, e, f.laid_out.map_low (slot ip0 v0 s) (f.owned s lt nz).1)))
        ∙ p.blocks c high;
  }

  pub still_used :
      (k s : ℕ) (v : Volume)
      → rank s ≡ k
      → s < 141
      → slot ip0 v0 s ≢ 0
      → IsPartly k v
      → used sb v (slot ip0 v0 s) ≢ 0
  still_used k s v at lt nz p e = (f.owned s lt nz).2 (
      sym (
        p.kept (slot ip0 v0 s) (f.owned s lt nz).1 (λ t ltt low q.
          f.distinct s t lt ltt (λ same. absurd (omega (arith, at, low, ap (λ x. rank x) same))) nz
            (sym q)))
      ∙ e)

  -- A step of a loop: the slot of rank `k` is freed, if it holds a block.
  pub free_slot :
      (k s : ℕ) (v : Volume)
      → rank s ≡ k
      → s < 141
      → slot ip0 v0 s ≢ 0
      → IsPartly k v
      → Returns (bfree sb (slot ip0 v0 s) v) (λ v'. IsPartly (suc k) v')
  free_slot k s v at lt nz p =
      Returns_mono (bfree sb (slot ip0 v0 s) v) (Freed sb (slot ip0 v0 s) v)
        (λ v'. IsPartly (suc k) v') (λ v' h. IsPartly-free k s v v' at lt nz p h)
        (bfree-Freed sb (slot ip0 v0 s) v (still_used k s v at lt nz p))

  -- The inode during the loop over the direct blocks: the first `k` addresses are cleared.
  pub record IsClearing (k : ℕ) (ip : Inode) : Type 0 where
    pub cleared : (j : ℕ) → j < k → addr_at ip j ≡ 0
    pub rest : (j : ℕ) → k ≤ j → addr_at ip j ≡ addr_at ip0 j
    pub thirteen : length ip.addrs ≡ 13
    pub same_inum : ip.inum ≡ ip0.inum

  pub IsClearing-skip :
      (k : ℕ) (ip : Inode) → addr_at ip k ≡ 0 → IsClearing k ip → IsClearing (suc k) ip
  IsClearing-skip k ip empty c = record {
    cleared = λ j lt. elim (ℕ_discrete j k) [
      | yes same ↦ ap (λ x. addr_at ip x) same ∙ empty
      | no other ↦ c.cleared j (omega arith)
    ];
    rest = λ j le. c.rest j (omega arith);
    thirteen = c.thirteen;
    same_inum = c.same_inum;
  }

  pub IsClearing-set :
      (k : ℕ) (ip : Inode)
      → k < 13
      → IsClearing k ip
      → IsClearing (suc k) (record ip { addrs = set ip.addrs k 0 })
  IsClearing-set k ip lt c = record {
    cleared = λ j ltj. elim (ℕ_discrete j k) [
      | yes same ↦
          ap (λ x. addr_at (record ip { addrs = set ip.addrs k 0 }) x) same
          ∙ get_or-set_self ip.addrs k 0 0 (omega (arith, c.thirteen))
      | no other ↦ get_or-set_ne ip.addrs k j 0 0 (λ e. other (sym e)) ∙ c.cleared j (omega arith)
    ];
    rest = λ j le.
        get_or-set_ne ip.addrs k j 0 0 (λ e. absurd (omega (arith, e))) ∙ c.rest j (omega arith);
    thirteen = length-set ip.addrs k 0 ∙ c.thirteen;
    same_inum = c.same_inum;
  }
