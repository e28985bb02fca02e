-- ===== src/Content/Extend.antt =====
-- A direct block and a word of the indirect block, found or allocated as in `bmap` of code/fs.c.
use native.Mathlib.Decide.{ℕ_discrete}
use os_ex.Shared.{
  ℕ, suc, subst, ◌+◌, ◌-◌, ◌%◌, ◌<◌, ◌≤◌, ◌≡◌, ◌≢◌, refl, sym, ap, ◌∙◌, Bool-cases, inl, inr, leb,
  List, [], ◌∷◌, All, set, length-set, get_or-set_self, get_or-set_ne, arith,
}
use os_ex.Log.{Superblock}
use os_ex.Inodes.{Inode}
use os_ex.Content.{
  Data, Volume, bits_per_block, ndirect, bit_at, write, word_at, put_word, addr_at, bblock,
}
use os_ex.Content.Bitmap.{used}
use os_ex.Content.Scanning.{write_self, write_ne}
use os_ex.Content.Fresh.{IsLaidOut, IsFresh, AreFree}
use os_ex.Content.Ready.{Ready, Ready-spend, balloc-Ready, balloc-Ready_indirect, word-Ready}
use os_ex.Content.Slots.{beyond, slot, IsFile, extended-IsFile, extended-file_byte}
use os_ex.Content.Placed.{
  slot_low, slot_high, beyond_empty, beyond_zero, beyond_at, beyond_same, put_word_self,
  put_word_other, IsPlaced,
}

module _ (sb : Superblock) (start : ℕ) (ip : Inode) (v : Volume) (f : IsFile sb start ip v) where
  pub IsPlaced-before :
      (s a : ℕ) (fs : List ℕ)
      → slot ip v s ≡ a
      → a ≢ 0
      → AreFree sb v fs
      → IsPlaced sb start ip v fs s a ip v
  IsPlaced-before s a fs here ne free = record {
    file = f;
    here = here;
    nonzero = ne;
    bytes = λ i lt. refl;
    others = λ s' lt ne'. refl;
    inode = refl;
    ready = λ out k. (λ e r. r, λ e r. Ready-spend sb out k a ip v r);
    left = (fs, free, omega arith);
  }

  -- A block of the file is not the fresh one.
  not_fresh :
      (s a : ℕ) (fs : List ℕ) (v' : Volume)
      → IsFresh sb start v fs a v'
      → s < 141
      → slot ip v s ≢ 0
      → v'.blocks (slot ip v s) ≡ v.blocks (slot ip v s)
  not_fresh s a fs v' fr lt ne =
      let old = f.owned s lt ne in
      fr.others (slot ip v s) old.0 (λ e. old.2 (ap (λ x. used sb v x) e ∙ fr.was_free))

  module _ (i a : ℕ) (fs : List ℕ) (v' : Volume) (lt : i ≤ 12) (hole : addr_at ip i ≡ 0)
      (fr : IsFresh sb start v fs a v') where
    abbrev set_addr : Inode
    set_addr = record ip { addrs = set ip.addrs i a }

    set_here : slot set_addr v' i ≡ a
    set_here =
        slot_low set_addr v' i lt ∙ get_or-set_self ip.addrs i a 0 (omega (arith, f.thirteen))

    set_addr_other : (s : ℕ) → s ≢ i → addr_at set_addr s ≡ addr_at ip s
    set_addr_other s ne = get_or-set_ne ip.addrs i s a 0 (λ e. ne (sym e))

    set_high :
        (s : ℕ)
        → 12 < s
        → s < 141
        → beyond v' (addr_at set_addr ndirect) (s - 13) ≡ beyond v (addr_at ip ndirect) (s - 13)
    set_high s high top = elim (ℕ_discrete 12 i) [
      | yes same ↦
          ap (λ x. beyond v' x (s - 13))
            (ap (λ x. addr_at set_addr x) same
              ∙ get_or-set_self ip.addrs i a 0 (omega (arith, f.thirteen)))
          ∙ beyond_zero v' a (s - 13) fr.zeroed
          ∙ sym (beyond_empty v (addr_at ip ndirect) (s - 13) (ap (λ x. addr_at ip x) same ∙ hole))
      | no other ↦
          ap (λ x. beyond v' x (s - 13)) (set_addr_other 12 other)
          ∙ beyond_same v v' (addr_at ip ndirect) (s - 13)
              (λ nz. not_fresh 12 a fs v' fr (omega arith) nz)
    ]

    set_others : (s : ℕ) → s < 141 → s ≢ i → slot set_addr v' s ≡ slot ip v s
    set_others s top ne = elim (Bool-cases (leb s 12)) [
      | inl low ↦
          slot_low set_addr v' s (ground arith)
          ∙ set_addr_other s ne
          ∙ sym (slot_low ip v s (ground arith))
      | inr high ↦
          slot_high set_addr v' s (ground arith)
          ∙ set_high s (ground arith) top
          ∙ sym (slot_high ip v s (ground arith))
    ]

    set_Ready_indirect :
        (out k : ℕ) → i ≡ 12 → Ready sb out k [] ip v → Ready sb out k [] set_addr v'
    set_Ready_indirect out k e r =
        subst (λ w. Ready sb out k [] set_addr w) (sym fr.made)
          (balloc-Ready_indirect sb out k a ip set_addr v fr.inside
            (λ z. absurd (omega (arith, z, fr.above, f.laid_out.positive)))
            (ap (λ x. addr_at ip x) (sym e) ∙ hole)
            (ap (λ x. addr_at set_addr x) (sym e)
              ∙ get_or-set_self ip.addrs i a 0 (omega (arith, f.thirteen)))
            r)

    set-Ready :
        (out k : ℕ) → i ≢ 12 → Ready sb out (suc k) [] ip v → Ready sb out k (a ∷ []) set_addr v'
    set-Ready out k ne r =
        subst (λ w. Ready sb out k (a ∷ []) set_addr w) (sym fr.made)
          (balloc-Ready sb out k a ip set_addr v fr.inside (set_addr_other 12 (λ e. ne (sym e))) r)

    pub set-IsPlaced : IsPlaced sb start ip v fs i a set_addr v'
    set-IsPlaced = record {
      file =
          extended-IsFile sb start ip set_addr v v' i a f (omega (arith, lt))
            (slot_low ip v i lt ∙ hole) fr.above fr.inside fr.was_free fr.now_used fr.others_used
            fr.laid_out (length-set ip.addrs i a ∙ f.thirteen) set_here set_others fr.zeroed
            (λ s' top _ nz j. ap (λ d. d j) (not_fresh s' a fs v' fr top nz));
      here = set_here;
      nonzero = λ e. absurd (omega (arith, e, fr.above, f.laid_out.positive));
      bytes =
          extended-file_byte sb start ip set_addr v v' i a f (omega (arith, lt))
            (slot_low ip v i lt ∙ hole) fr.above fr.inside fr.was_free fr.now_used fr.others_used
            fr.laid_out (length-set ip.addrs i a ∙ f.thirteen) set_here set_others fr.zeroed
            (λ s' top _ nz j. ap (λ d. d j) (not_fresh s' a fs v' fr top nz));
      others = set_others;
      inode = refl;
      ready = λ out k. (set_Ready_indirect out k, set-Ready out k);
      left = fr.left;
    }

  -- The free blocks stay free when the bits of the volume's blocks are as they were.
  pub free_same :
      (v1 v2 : Volume) (fs : List ℕ)
      → ((x : ℕ) → x < sb.size → used sb v2 x ≡ used sb v1 x)
      → All (λ g. (g < sb.size) × (used sb v1 g ≡ 0)) fs
      → All (λ g. (g < sb.size) × (used sb v2 g ≡ 0)) fs
  free_same v1 v2 [] same h = tt
  free_same v1 v2 (g ∷ fs) same h = ((h.0.0, same g h.0.0 ∙ h.0.1), free_same v1 v2 fs same h.1)

  module _ (n a : ℕ) (fs : List ℕ) (v' : Volume) (lt : n < 128) (has : addr_at ip ndirect ≢ 0)
      (hole : word_at (v.blocks (addr_at ip ndirect)) n ≡ 0) (fr : IsFresh sb start v fs a v') where
    abbrev addr : ℕ
    addr = addr_at ip ndirect

    abbrev data' : Data
    data' = put_word (v.blocks addr) n a

    abbrev v'' : Volume
    v'' = write addr data' v'

    addr_owned : (start ≤ addr) × (addr < sb.size) × (used sb v addr ≢ 0)
    addr_owned = f.owned 12 (omega arith) has

    addr_ne : addr ≢ a
    addr_ne e = addr_owned.2 (ap (λ x. used sb v x) e ∙ fr.was_free)

    used_same : (x : ℕ) → x < sb.size → used sb v'' x ≡ used sb v' x
    used_same x top =
        ap (λ d. bit_at d (x % bits_per_block))
          (write_ne addr (bblock sb x) data' v'
            (omega (arith, f.laid_out.map_low x top, addr_owned.0)))

    word_here : slot ip v'' (n + 13) ≡ a
    word_here =
        let at : n + 13 - 13 ≡ n = omega arith in
        slot_high ip v'' (n + 13) (omega arith)
        ∙ ap (λ m. beyond v'' addr m) at
        ∙ beyond_at v'' addr n has
        ∙ ap (λ d. word_at d n) (write_self addr data' v')
        ∙ put_word_self (v.blocks addr) n a (omega (arith, fr.inside, f.small))

    word_others : (s : ℕ) → s < 141 → s ≢ n + 13 → slot ip v'' s ≡ slot ip v s
    word_others s top ne = elim (Bool-cases (leb s 12)) [
      | inl low ↦ slot_low ip v'' s (ground arith) ∙ sym (slot_low ip v s (ground arith))
      | inr high ↦
          slot_high ip v'' s (ground arith)
          ∙ beyond_at v'' addr (s - 13) has
          ∙ ap (λ d. word_at d (s - 13)) (write_self addr data' v')
          ∙ put_word_other (v.blocks addr) n (s - 13) a (ground arith)
          ∙ sym (beyond_at v addr (s - 13) has)
          ∙ sym (slot_high ip v s (ground arith))
    ]

    word_empty : slot ip v (n + 13) ≡ 0
    word_empty =
        let at : n + 13 - 13 ≡ n = omega arith in
        slot_high ip v (n + 13) (omega arith)
        ∙ ap (λ m. beyond v addr m) at
        ∙ beyond_at v addr n has
        ∙ hole

    word_zeroed : (i : ℕ) → v''.blocks a i ≡ 0
    word_zeroed i = ap (λ d. d i) (write_ne addr a data' v' (λ e. addr_ne (sym e))) ∙ fr.zeroed i

    word_kept :
        (s : ℕ)
        → s < 141
        → s ≢ 12
        → slot ip v s ≢ 0
        → (i : ℕ) → v''.blocks (slot ip v s) i ≡ v.blocks (slot ip v s) i
    word_kept s top ne nz i =
        ap (λ d. d i)
          (write_ne addr (slot ip v s) data' v' (f.distinct s 12 top (omega arith) ne nz)
            ∙ not_fresh s a fs v' fr top nz)

    word-IsLaidOut : IsLaidOut sb start v''
    word-IsLaidOut = record {
      positive = f.laid_out.positive;
      start_in = f.laid_out.start_in;
      reserved = λ x low e.
          fr.laid_out.reserved x low (sym (used_same x (omega (arith, f.laid_out.start_in))) ∙ e);
      map_low = f.laid_out.map_low;
    }

    addressed-Ready : (out k : ℕ) → Ready sb out (suc k) [] ip v → Ready sb out k (a ∷ []) ip v''
    addressed-Ready out k r = word-Ready sb out k a data' ip v' has (
        subst (λ w. Ready sb out k (a ∷ []) ip w) (sym fr.made)
          (balloc-Ready sb out k a ip ip v fr.inside refl r))

    pub word-IsPlaced : IsPlaced sb start ip v fs (n + 13) a ip v''
    word-IsPlaced = record {
      file =
          extended-IsFile sb start ip ip v v'' (n + 13) a f (omega arith) word_empty fr.above
            fr.inside fr.was_free (λ e. fr.now_used (sym (used_same a fr.inside) ∙ e))
            (λ x top ne. used_same x top ∙ fr.others_used x top ne) word-IsLaidOut f.thirteen
            word_here word_others word_zeroed word_kept;
      here = word_here;
      nonzero = λ e. absurd (omega (arith, e, fr.above, f.laid_out.positive));
      bytes =
          extended-file_byte sb start ip ip v v'' (n + 13) a f (omega arith) word_empty fr.above
            fr.inside fr.was_free (λ e. fr.now_used (sym (used_same a fr.inside) ∙ e))
            (λ x top ne. used_same x top ∙ fr.others_used x top ne) word-IsLaidOut f.thirteen
            word_here word_others word_zeroed word_kept;
      others = word_others;
      inode = refl;
      ready = λ out k. (λ e. absurd (omega (arith, e)), λ e. addressed-Ready out k);
      left =
          let (fs', free, count) = fr.left in
          (fs', (free_same v' v'' fs' used_same free.0, free.1), count);
    }
