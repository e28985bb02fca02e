-- ===== src/Log/Prefix.antt =====
-- The disk after a part of the writes of `commit` in code/log.c.
use os_ex.Shared.{
  ℕ, zero, suc, ◌+◌, ◌<◌, ◌≤◌, ◌≡◌, ◌≢◌, inl, inr, refl, List, set, All, All_weaken, length, get_or,
  arith, ◌∙◌, ap, sym, subst,
}
use native.Mathlib.Decide.{ℕ_discrete}
use os_ex.Disk.{Block, Blocks, apply, apply_other, apply_keeps, update, update_self, update_ne}
use os_ex.Log.{Log, log_size, home, slot, put_blocks}
use os_ex.Log.Header.{header-count, header-at}
use os_ex.Log.Trace.{
  IsHome, IsLog, IsLogged, copies, installs, copies-All, installs-All, home-ne-slot,
}
use os_ex.Log.Crash.{IsCommitted, NoneOf}

-- a write to a slot of the log
abbrev pub IsCopy : Log → ℕ × Block → Type 0
IsCopy lg w = (j : ℕ) × (j < lg.n) × (w.0 ≡ slot lg j)

-- a write of a logged block to its place
abbrev pub IsInstall : Log → Blocks → ℕ × Block → Type 0
IsInstall lg c w = IsLogged lg w.0 × (w.1 ≡ c w.0)

-- what `write_head` writes, given what the block had
abbrev pub head : Log → Block → Block
head lg hb = put_blocks lg.block lg.n 0 (set hb 0 lg.n)

module _ (lg : Log) (v : IsLog lg) (c d : Blocks) where
  pub IsHome-ne-start : (b : ℕ) → IsHome lg b → b ≢ lg.start
  IsHome-ne-start b (inl x) q = omega arith
  IsHome-ne-start b (inr x) q = omega (arith, v.inside)

  pub IsHome-ne-slot : (b j : ℕ) → IsHome lg b → j < lg.n → b ≢ slot lg j
  IsHome-ne-slot b j (inl x) h q = omega arith
  IsHome-ne-slot b j (inr x) h q = omega (arith, v.few, v.inside)

  pub copies-start : (ws : List (ℕ × Block)) → All (IsCopy lg) ws → apply ws d lg.start ≡ d lg.start
  copies-start ws a =
      apply_other ws d lg.start (All_weaken (IsCopy lg) _ ws (λ w (j, h, e) q. omega arith) a)

  pub copies-home : (ws : List (ℕ × Block)) → All (IsCopy lg) ws → NoneOf lg d (apply ws d)
  copies-home ws a b hb =
      apply_other ws d b
        (All_weaken (IsCopy lg) _ ws (λ w (j, h, e) q. IsHome-ne-slot b j hb h (q ∙ e)) a)

  copies-after :
      (n tail t : ℕ) (x : Blocks)
      → t < tail
      → apply (copies lg n tail c) x (slot lg t) ≡ x (slot lg t)
  unfolding apply copies
  copies-after zero tail t x h = refl
  copies-after (suc n) tail t x h =
      copies-after n (suc tail) t _ (omega arith)
      ∙ update_ne x (slot lg tail) (slot lg t) _ (λ q. omega arith)

  copies-slot :
      (n tail j : ℕ) (x : Blocks)
      → tail + n ≤ lg.n
      → tail ≤ j
      → j < tail + n
      → apply (copies lg n tail c) x (slot lg j) ≡ c (home lg j)
  unfolding apply copies
  copies-slot zero tail j x h lo hi = absurd (omega arith)
  copies-slot (suc n) tail j x h lo hi = elim (ℕ_discrete tail j) [
    | yes e ↦ rw (← e) (
        copies-after n (suc tail) tail (update x (slot lg tail) (c (home lg tail))) (omega arith)
        ∙ update_self x (slot lg tail) (c (home lg tail)))
    | no ne ↦ copies-slot n (suc tail) j _ (omega arith) (omega arith) (omega arith)
  ]

  pub installs-home :
      (n tail j : ℕ) (x : Blocks)
      → tail + n ≤ lg.n
      → tail ≤ j
      → j < tail + n
      → apply (installs lg n tail c) x (home lg j) ≡ c (home lg j)
  unfolding apply installs
  installs-home zero tail j x h lo hi = absurd (omega arith)
  installs-home (suc n) tail j x h lo hi = elim (ℕ_discrete tail j) [
    | yes e ↦ rw (← e) (
        apply_keeps (installs lg n (suc tail) c) c (update x (home lg tail) (c (home lg tail)))
          (home lg tail)
          (All_weaken (IsInstall lg c) _ (installs lg n (suc tail) c) (λ w i. i.1)
            (installs-All lg v c n (suc tail) (omega arith)))
          (update_self x (home lg tail) (c (home lg tail))))
    | no ne ↦ installs-home n (suc tail) j _ (omega arith) (omega arith) (omega arith)
  ]

  -- the disk after the copies and the header
  abbrev pub written : Block → Blocks
  written h = update (apply (copies lg lg.n 0 c) d) lg.start h

  pub installs-start :
      (ws : List (ℕ × Block)) (x : Blocks)
      → All (IsInstall lg c) ws
      → apply ws x lg.start ≡ x lg.start
  installs-start ws x a = apply_other ws x lg.start (
      All_weaken (IsInstall lg c) _ ws
        (λ w ((i, h, e), f) q.
          IsHome-ne-start lg.start (subst (IsHome lg) (e ∙ sym q) (v.homes i h)) refl)
        a)

  pub installs-slot :
      (ws : List (ℕ × Block)) (x : Blocks) (j : ℕ)
      → j < lg.n
      → All (IsInstall lg c) ws
      → apply ws x (slot lg j) ≡ x (slot lg j)
  installs-slot ws x j hj a = apply_other ws x (slot lg j) (
      All_weaken (IsInstall lg c) _ ws
        (λ w ((i, h, e), f) q. home-ne-slot lg v c i j h hj (e ∙ sym q)) a)

  pub installs-other :
      (ws : List (ℕ × Block)) (x : Blocks) (b : ℕ)
      → ¬ IsLogged lg b
      → All (IsInstall lg c) ws
      → apply ws x b ≡ x b
  installs-other ws x b free a =
      apply_other ws x b
        (All_weaken (IsInstall lg c) _ ws (λ w ((i, h, e), f) q. free (i, h, e ∙ sym q)) a)

  pub written-other : (h : Block) (b : ℕ) → IsHome lg b → written h b ≡ d b
  written-other h b hb =
      update_ne (apply (copies lg lg.n 0 c) d) lg.start b h (IsHome-ne-start b hb)
      ∙ copies-home (copies lg lg.n 0 c) (copies-All lg v c lg.n 0 (omega arith)) b hb

  head_at_start :
      (hb : Block) (ws : List (ℕ × Block))
      → All (IsInstall lg c) ws
      → apply ws (written (head lg hb)) lg.start ≡ head lg hb
  head_at_start hb ws a =
      installs-start ws (written (head lg hb)) a
      ∙ update_self (apply (copies lg lg.n 0 c) d) lg.start (head lg hb)

  -- Once the header is on the disk the transaction counts, however far the installation got.
  pub installs-IsCommitted :
      (hb : Block) (ws : List (ℕ × Block))
      → log_size < length hb
      → All (IsInstall lg c) ws
      → IsCommitted lg c d (apply ws (written (head lg hb)))
  installs-IsCommitted hb ws fits a = record {
    count =
        ap (λ x. get_or x 0 0) (head_at_start hb ws a)
        ∙ header-count lg.block lg.n hb (omega arith);
    names = λ i h.
        ap (λ x. get_or x (i + 1) 0) (head_at_start hb ws a)
        ∙ header-at lg.block lg.n i hb (omega (arith, v.few, v.inside)) h;
    saved = λ i h.
        installs-slot ws (written (head lg hb)) i h a
        ∙ update_ne (apply (copies lg lg.n 0 c) d) lg.start (slot lg i) (head lg hb)
            (λ q. omega arith)
        ∙ copies-slot lg.n 0 i d (omega arith) (omega arith) (omega arith);
    others = λ b h free.
        installs-other ws (written (head lg hb)) b free a ∙ written-other (head lg hb) b h;
  }
