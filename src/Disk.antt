-- ===== src/Disk.antt =====
-- The disk behind the buffer cache, as the log and the file system see it. A block is a list of
-- 32-bit words. `cache b` is what `bread` of block `b` shows, `disk b` what would be read after a
-- crash; `bwrite` changes both at once. `writes` is the history of the writes to the disk.
use native.Mathlib.Decide.{ℕ_discrete}
use os_ex.Shared.{
  refl, All, sym, ap, ◌∙◌, ℕ, ◌≡◌, ◌≢◌, List, [], ◌∷◌, ◌++◌, if◌then◌else◌, ◌==◌, arith,
}

abbrev pub Block : Type 0
Block = List ℕ

abbrev pub Blocks : Type 0
Blocks = ℕ → Block

unfoldable pub update : Blocks → ℕ → Block → Blocks
update d b v a = if a == b then v else d a

pub update_self : (d : Blocks) (b : ℕ) (v : Block) → update d b v b ≡ v
unfolding update
update_self d b v = ground arith

pub update_ne : (d : Blocks) (b a : ℕ) (v : Block) → a ≢ b → update d b v a ≡ d a
unfolding update
update_ne d b a v ne = ground arith

pub record Store : Type 0 where
  pub cache : Blocks
  pub disk : Blocks
  pub writes : List (ℕ × Block)

-- The contents of a locked buffer are changed, and not written.
unfoldable pub change : ℕ → Block → Store → Store
change b v s = record s { cache = update s.cache b v }

unfoldable pub bwrite : ℕ → Block → Store → Store
bwrite b v s = record {
  cache = update s.cache b v;
  disk = update s.disk b v;
  writes = s.writes ++ ((b, v) ∷ []);
}

-- The disk after some writes.
unfoldable pub apply : List (ℕ × Block) → Blocks → Blocks
apply [] d = d
apply ((b, v) ∷ ws) d = apply ws (update d b v)

-- After a crash the cache is empty, so that it shows the disk.
unfoldable pub boot : Blocks → Store
boot d = record { cache = d; disk = d; writes = [] }

pub apply-append :
    (xs ys : List (ℕ × Block)) (d : Blocks) → apply (xs ++ ys) d ≡ apply ys (apply xs d)
unfolding apply
apply-append [] ys d = refl
apply-append ((b, v) ∷ xs) ys d = apply-append xs ys (update d b v)

-- Writes to other blocks leave a block.
pub apply_other :
    (ws : List (ℕ × Block)) (d : Blocks) (b : ℕ) → All (λ w. b ≢ w.0) ws → apply ws d b ≡ d b
unfolding apply
apply_other [] d b a = refl
apply_other ((x, v) ∷ ws) d b a = apply_other ws (update d x v) b a.1 ∙ update_ne d x b v a.0

-- Writes of the contents `c` leave a block that has them.
pub apply_keeps :
    (ws : List (ℕ × Block)) (c d : Blocks) (b : ℕ)
    → All (λ w. w.1 ≡ c w.0) ws
    → d b ≡ c b
    → apply ws d b ≡ c b
unfolding apply
apply_keeps [] c d b a e = e
apply_keeps ((x, v) ∷ ws) c d b a e = apply_keeps ws c (update d x v) b a.1 written
  where
    written : update d x v b ≡ c b
    written = elim (ℕ_discrete b x) [
      | yes same ↦ ap (update d x v) same ∙ update_self d x v ∙ a.0 ∙ ap c (sym same)
      | no ne ↦ update_ne d x b v ne ∙ e
    ]
