-- ===== src/Log/Trace.antt =====
-- The loops of code/log.c: the writes that they make, and what they leave in the cache and on disk.
use os_ex.Shared.{
  ℕ, zero, suc, ◌+◌, ◌<◌, ◌≤◌, ◌≡◌, ◌≢◌, ◌⊎◌, inl, inr, refl, List, [], ◌∷◌, ◌++◌, All, length,
  arith, ◌∙◌, ap, sym, append_assoc, append-nil,
}
use native.Mathlib.Decide.{ℕ_discrete}
use os_ex.Disk.{Block, Blocks, Store, bwrite, update, update_self, update_ne}
use os_ex.Log.{Log, log_size, home, slot, install_from, copy_from}

-- A block that does not belong to the log.
abbrev pub IsHome : Log → ℕ → Type 0
IsHome lg b = (b < lg.start) ⊎ (lg.start + lg.size ≤ b)

-- The entries of the log: at most as many as it can hold, each for a block outside the area of
-- `size` blocks, its header's among them.
pub record IsLog (lg : Log) : Type 0 where
  pub few : lg.n ≤ log_size
  pub inside : lg.n < lg.size
  pub entries : length lg.block ≡ log_size
  pub homes : (i : ℕ) → i < lg.n → IsHome lg (home lg i)

-- The block has an entry in the log.
abbrev pub IsLogged : Log → ℕ → Type 0
IsLogged lg b = (i : ℕ) × (i < lg.n) × (home lg i ≡ b)

-- The writes of `write_log` and of `install_trans`, given what the blocks contain.
unfoldable pub copies : Log → ℕ → ℕ → Blocks → List (ℕ × Block)
copies lg zero tail c = []
copies lg (suc n) tail c = (slot lg tail, c (home lg tail)) ∷ copies lg n (suc tail) c

unfoldable pub installs : Log → ℕ → ℕ → Blocks → List (ℕ × Block)
installs lg zero tail c = []
installs lg (suc n) tail c = (home lg tail, c (home lg tail)) ∷ installs lg n (suc tail) c

module _ (lg : Log) (v : IsLog lg) (c : Blocks) where
  pub home-ne-slot : (i j : ℕ) → i < lg.n → j < lg.n → home lg i ≢ slot lg j
  home-ne-slot i j hi hj e = elim (v.homes i hi) [
    | inl h ↦ omega (arith, v.few, v.inside)
    | inr h ↦ omega (arith, v.few, v.inside)
  ]

  -- The cache shows what it showed before of every logged block.
  abbrev pub Shows : Store → Type 0
  Shows s = (i : ℕ) → i < lg.n → s.cache (home lg i) ≡ c (home lg i)

  copy_step :
      (tail : ℕ) (s : Store)
      → tail < lg.n
      → Shows s
      → Shows (bwrite (slot lg tail) (s.cache (home lg tail)) s)
  unfolding bwrite
  copy_step tail s h shows i hi =
      update_ne s.cache (slot lg tail) (home lg i) (s.cache (home lg tail))
        (home-ne-slot i tail hi h)
      ∙ shows i hi

  pub copy_from-writes :
      (n tail : ℕ) (s : Store)
      → tail + n ≤ lg.n
      → Shows s
      → (copy_from lg n tail s).writes ≡ s.writes ++ copies lg n tail c
  unfolding copy_from copies bwrite
  copy_from-writes zero tail s h shows = sym (append-nil s.writes)
  copy_from-writes (suc n) tail s h shows =
      copy_from-writes n (suc tail) (bwrite (slot lg tail) (s.cache (home lg tail)) s) (omega arith)
        (copy_step tail s (omega arith) shows)
      ∙ append_assoc s.writes ((slot lg tail, s.cache (home lg tail)) ∷ [])
          (copies lg n (suc tail) c)
      ∙ ap (λ x. s.writes ++ ((slot lg tail, x) ∷ copies lg n (suc tail) c))
          (shows tail (omega arith))

  -- Blocks that are no slot of the range stay.
  pub copy_from-other :
      (n tail b : ℕ) (s : Store)
      → ((j : ℕ) → tail ≤ j → j < tail + n → b ≢ slot lg j)
      → (copy_from lg n tail s).cache b ≡ s.cache b
  unfolding copy_from bwrite
  copy_from-other zero tail b s h = refl
  copy_from-other (suc n) tail b s h =
      copy_from-other n (suc tail) b _ (λ j lo hi. h j (omega arith) (omega arith))
      ∙ update_ne s.cache (slot lg tail) b (s.cache (home lg tail))
          (h tail (omega arith) (omega arith))

  pub copy_from-slot :
      (n tail j : ℕ) (s : Store)
      → tail + n ≤ lg.n
      → Shows s
      → tail ≤ j
      → j < tail + n
      → (copy_from lg n tail s).cache (slot lg j) ≡ c (home lg j)
  unfolding copy_from bwrite
  copy_from-slot zero tail j s h shows lo hi = absurd (omega arith)
  copy_from-slot (suc n) tail j s h shows lo hi = elim (ℕ_discrete tail j) [
    | yes e ↦
        copy_from-other n (suc tail) (slot lg j) _ (λ k lo' hi' same. omega arith)
        ∙ ap (λ x. update s.cache (slot lg x) (s.cache (home lg x)) (slot lg j)) e
        ∙ update_self s.cache (slot lg j) (s.cache (home lg j))
        ∙ shows j (omega arith)
    | no ne ↦
        copy_from-slot n (suc tail) j _ (omega arith) (copy_step tail s (omega arith) shows)
          (omega arith) (omega arith)
  ]

  -- The copies in the log are those of the logged blocks.
  abbrev pub HoldsCopies : Store → Type 0
  HoldsCopies s = (i : ℕ) → i < lg.n → s.cache (slot lg i) ≡ c (home lg i)

  install_step :
      (tail : ℕ) (s : Store)
      → tail < lg.n
      → HoldsCopies s
      → HoldsCopies (bwrite (home lg tail) (s.cache (slot lg tail)) s)
  unfolding bwrite
  install_step tail s h holds i hi =
      update_ne s.cache (home lg tail) (slot lg i) (s.cache (slot lg tail))
        (λ e. home-ne-slot tail i h hi (sym e))
      ∙ holds i hi

  pub install_from-writes :
      (n tail : ℕ) (s : Store)
      → tail + n ≤ lg.n
      → HoldsCopies s
      → (install_from lg n tail s).writes ≡ s.writes ++ installs lg n tail c
  unfolding install_from installs bwrite
  install_from-writes zero tail s h holds = sym (append-nil s.writes)
  install_from-writes (suc n) tail s h holds =
      install_from-writes n (suc tail) (bwrite (home lg tail) (s.cache (slot lg tail)) s)
        (omega arith) (install_step tail s (omega arith) holds)
      ∙ append_assoc s.writes ((home lg tail, s.cache (slot lg tail)) ∷ [])
          (installs lg n (suc tail) c)
      ∙ ap (λ x. s.writes ++ ((home lg tail, x) ∷ installs lg n (suc tail) c))
          (holds tail (omega arith))

  -- Every write of `write_log` is to a slot of the log.
  pub copies-All :
      (n tail : ℕ)
      → tail + n ≤ lg.n
      → All (λ w. (j : ℕ) × (j < lg.n) × (w.0 ≡ slot lg j)) (copies lg n tail c)
  unfolding copies
  copies-All zero tail h = tt
  copies-All (suc n) tail h = ((tail, omega arith, refl), copies-All n (suc tail) (omega arith))

  -- Every write of `install_trans` puts a logged block in its place.
  pub installs-All :
      (n tail : ℕ)
      → tail + n ≤ lg.n
      → All (λ w. IsLogged lg w.0 × (w.1 ≡ c w.0)) (installs lg n tail c)
  unfolding installs
  installs-All zero tail h = tt
  installs-All (suc n) tail h =
      (((tail, omega arith, refl), refl), installs-All n (suc tail) (omega arith))

  -- `install_trans` leaves a block that holds its logged contents, and one that is not logged.
  pub install_from-disk_keeps :
      (n tail b : ℕ) (s : Store)
      → tail + n ≤ lg.n
      → HoldsCopies s
      → s.disk b ≡ c b
      → (install_from lg n tail s).disk b ≡ c b
  unfolding install_from bwrite
  install_from-disk_keeps zero tail b s h holds e = e
  install_from-disk_keeps (suc n) tail b s h holds e =
      install_from-disk_keeps n (suc tail) b _ (omega arith)
        (install_step tail s (omega arith) holds) written
    where
      written : update s.disk (home lg tail) (s.cache (slot lg tail)) b ≡ c b
      written = elim (ℕ_discrete b (home lg tail)) [
        | yes same ↦
            ap (update s.disk (home lg tail) (s.cache (slot lg tail))) same
            ∙ update_self s.disk (home lg tail) (s.cache (slot lg tail))
            ∙ holds tail (omega arith)
            ∙ ap c (sym same)
        | no ne ↦ update_ne s.disk (home lg tail) b (s.cache (slot lg tail)) ne ∙ e
      ]

  pub install_from-disk_home :
      (n tail j : ℕ) (s : Store)
      → tail + n ≤ lg.n
      → HoldsCopies s
      → tail ≤ j
      → j < tail + n
      → (install_from lg n tail s).disk (home lg j) ≡ c (home lg j)
  unfolding install_from bwrite
  install_from-disk_home zero tail j s h holds lo hi = absurd (omega arith)
  install_from-disk_home (suc n) tail j s h holds lo hi = elim (ℕ_discrete tail j) [
    | yes e ↦
        install_from-disk_keeps n (suc tail) (home lg j) _ (omega arith)
          (install_step tail s (omega arith) holds)
          (ap (λ x. update s.disk (home lg x) (s.cache (slot lg x)) (home lg j)) e
            ∙ update_self s.disk (home lg j) (s.cache (slot lg j))
            ∙ holds j (omega arith))
    | no ne ↦
        install_from-disk_home n (suc tail) j _ (omega arith)
          (install_step tail s (omega arith) holds) (omega arith) (omega arith)
  ]

  pub install_from-disk_other :
      (n tail b : ℕ) (s : Store)
      → ((j : ℕ) → tail ≤ j → j < tail + n → b ≢ home lg j)
      → (install_from lg n tail s).disk b ≡ s.disk b
  unfolding install_from bwrite
  install_from-disk_other zero tail b s h = refl
  install_from-disk_other (suc n) tail b s h =
      install_from-disk_other n (suc tail) b _ (λ j lo hi. h j (omega arith) (omega arith))
      ∙ update_ne s.disk (home lg tail) b (s.cache (slot lg tail))
          (h tail (omega arith) (omega arith))
