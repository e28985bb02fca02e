-- ===== src/Content/Ready.antt =====
-- The room that the log has for the writes of code/fs.c to a file: its data blocks, the one block of the
-- free map and the indirect block.
use os_ex.Shared.{
  ℕ, suc, ◌≡◌, ◌≢◌, ◌<◌, ◌≤◌, ◌⊎◌, ◌/◌, inl, inr, refl, List, [], ◌∷◌, ◌++◌, ok, arith, ◌∙◌, sym,
  ap, subst, ◌>>=◌, Result,
}
use os_ex.Log.{Log, Superblock, log_write}
use os_ex.Log.Entries.{Has}
use os_ex.Log.Room.{IsBusy, HasRoom, HasRoom-forget, log_write-HasRoom}
use os_ex.Inodes.{Inode}
use os_ex.Content.{
  Data, Volume, settled, write, bzero, mark, bblock, bits_per_block, ndirect, addr_at,
}

-- A volume whose log has not panicked, with room for blocks.
pub record Fits (out k : ℕ) (bs : List ℕ) (v : Volume) : Type 0 where
  pub lg : Log
  pub log : v.log ≡ ok lg
  pub busy : IsBusy out lg
  pub room : HasRoom bs k lg

pub write-Fits :
    (out k b : ℕ) (bs : List ℕ) (d : Data) (v : Volume)
    → Has b bs
    → Fits out k bs v
    → Fits out k bs (write b d v)
unfolding write
write-Fits out k b bs d v has f =
    let (lg', e, busy, room) = log_write-HasRoom bs b k out f.lg has f.busy f.room in
    record {
      lg = lg';
      log = ap (λ r. r >>= λ l. log_write b l) f.log ∙ e;
      busy = busy;
      room = room;
    }

-- Room for one more block is room for a given one.
pub Fits-spend :
    (out k b : ℕ) (bs : List ℕ) (v : Volume) → Fits out (suc k) bs v → Fits out k (b ∷ bs) v
Fits-spend out k b bs v f = record { lg = f.lg; log = f.log; busy = f.busy; room = inl f.room }

pub Fits-forget : (out k b : ℕ) (bs : List ℕ) (v : Volume) → Fits out k (b ∷ bs) v → Fits out k bs v
Fits-forget out k b bs v f = record {
  lg = f.lg;
  log = f.log;
  busy = f.busy;
  room = HasRoom-forget b bs k f.lg f.room;
}

pub settled-ok :
    {A : Type 0} (v : Volume) (lg : Log) (r : Result A) → v.log ≡ ok lg → settled v r ≡ r
settled-ok v lg r e = rw e refl

module _ (sb : Superblock) where
  -- Room for the blocks of the list, `k` others, the block of the free map and the indirect block, if
  -- the file has one or is given one.
  abbrev pub Ready : ℕ → ℕ → List ℕ → Inode → Volume → Type 0
  Ready out k bs ip v =
      (sb.size ≤ bits_per_block)
      × (Fits out (suc k) (bs ++ (sb.bmapstart ∷ [])) v
          ⊎ ((addr_at ip ndirect ≢ 0)
              × Fits out k (bs ++ (addr_at ip ndirect ∷ sb.bmapstart ∷ [])) v))

  -- The block of the free map.
  one_map : (a : ℕ) → sb.size ≤ bits_per_block → a < sb.size → sb.bmapstart ≡ bblock sb a
  one_map a small lt =
      let zero_block : a / bits_per_block ≡ 0 = omega arith in ground (arith, zero_block)

  balloc-Fits :
      (out k a : ℕ) (bs : List ℕ) (v : Volume)
      → Has (bblock sb a) bs
      → Has a bs
      → Fits out k bs v
      → Fits out k bs (bzero a (mark sb a v))
  unfolding bzero mark
  balloc-Fits out k a bs v map here f =
      write-Fits out k a bs _ _ here (write-Fits out k (bblock sb a) bs _ v map f)

  -- A block that is in place already.
  pub Ready-spend :
      (out k a : ℕ) (ip : Inode) (v : Volume)
      → Ready out (suc k) [] ip v
      → Ready out k (a ∷ []) ip v
  Ready-spend out k a ip v (small, inl f) = (small, inl (Fits-spend out (suc k) a _ v f))
  Ready-spend out k a ip v (small, inr (has, f)) = (small, inr (has, Fits-spend out k a _ v f))

  pub Ready-forget :
      (out k a : ℕ) (ip : Inode) (v : Volume) → Ready out k (a ∷ []) ip v → Ready out k [] ip v
  Ready-forget out k a ip v (small, inl f) = (small, inl (Fits-forget out (suc k) a _ v f))
  Ready-forget out k a ip v (small, inr (has, f)) = (small, inr (has, Fits-forget out k a _ v f))

  -- The log has not panicked.
  pub Ready-log :
      (out k : ℕ) (ip : Inode) (v : Volume)
      → Ready out k [] ip v
      → (lg : Log) × (v.log ≡ ok lg) × IsBusy out lg
  Ready-log out k ip v (small, inl f) = (f.lg, f.log, f.busy)
  Ready-log out k ip v (small, inr (has, f)) = (f.lg, f.log, f.busy)

  -- A write to the block in front.
  pub write-Ready :
      (out k a : ℕ) (d : Data) (ip : Inode) (v : Volume)
      → Ready out k (a ∷ []) ip v
      → Ready out k (a ∷ []) ip (write a d v)
  write-Ready out k a d ip v (small, inl f) =
      (small, inl (write-Fits out (suc k) a _ d v (inl refl) f))
  write-Ready out k a d ip v (small, inr (has, f)) =
      (small, inr (has, write-Fits out k a _ d v (inl refl) f))

  -- A data block that `balloc` has found, for the inode with another address of the same indirect block.
  pub balloc-Ready :
      (out k a : ℕ) (ip ip' : Inode) (v : Volume)
      → a < sb.size
      → addr_at ip' ndirect ≡ addr_at ip ndirect
      → Ready out (suc k) [] ip v
      → Ready out k (a ∷ []) ip' (bzero a (mark sb a v))
  balloc-Ready out k a ip ip' v lt same (small, inl f) = (
    small,
    inl (
        balloc-Fits out (suc k) a _ v (inr (inl (one_map a small lt))) (inl refl)
          (Fits-spend out (suc k) a _ v f)),
  )
  balloc-Ready out k a ip ip' v lt same (small, inr (has, f)) = (
    small,
    inr (
      λ e. has (sym same ∙ e),
      subst (λ x. Fits out k (a ∷ x ∷ sb.bmapstart ∷ []) (bzero a (mark sb a v))) (sym same)
          (balloc-Fits out k a _ v (inr (inr (inl (one_map a small lt)))) (inl refl)
            (Fits-spend out k a _ v f)),
    ),
  )

  -- The indirect block itself.
  pub balloc-Ready_indirect :
      (out k a : ℕ) (ip ip' : Inode) (v : Volume)
      → a < sb.size
      → a ≢ 0
      → addr_at ip ndirect ≡ 0
      → addr_at ip' ndirect ≡ a
      → Ready out k [] ip v
      → Ready out k [] ip' (bzero a (mark sb a v))
  balloc-Ready_indirect out k a ip ip' v lt nz hole now (small, inr (has, f)) = absurd (has hole)
  balloc-Ready_indirect out k a ip ip' v lt nz hole now (small, inl f) = (
    small,
    inr (
      λ e. nz (sym now ∙ e),
      subst (λ x. Fits out k (x ∷ sb.bmapstart ∷ []) (bzero a (mark sb a v))) (sym now)
          (balloc-Fits out k a _ v (inr (inl (one_map a small lt))) (inl refl)
            (Fits-spend out k a _ v f)),
    ),
  )

  -- A word of the indirect block is written after `balloc`.
  pub word-Ready :
      (out k a : ℕ) (d : Data) (ip : Inode) (v : Volume)
      → addr_at ip ndirect ≢ 0
      → Ready out k (a ∷ []) ip v
      → Ready out k (a ∷ []) ip (write (addr_at ip ndirect) d v)
  word-Ready out k a d ip v nz (small, inr (has, f)) =
      (small, inr (has, write-Fits out k (addr_at ip ndirect) _ d v (inr (inl refl)) f))
  word-Ready out k a d ip v nz (small, inl f) = (
    small,
    inr (
      nz,
      write-Fits out k (addr_at ip ndirect) _ d v (inr (inl refl))
          (record { lg = f.lg; log = f.log; busy = f.busy; room = between f.lg f.room }),
    ),
  )
    where
      between :
          (lg : Log)
          → HasRoom (a ∷ sb.bmapstart ∷ []) (suc k) lg
          → HasRoom (a ∷ addr_at ip ndirect ∷ sb.bmapstart ∷ []) k lg
      between lg (inl h) = inl (inl h)
      between lg (inr (l, h)) = inr (l, inl h)
