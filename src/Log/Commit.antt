-- ===== src/Log/Commit.antt =====
-- The writes of `commit` in code/log.c, in their order.
use os_ex.Shared.{ℕ, ◌<◌, ◌≡◌, refl, List, [], ◌∷◌, ◌++◌, set, append_assoc, get_or, arith, ◌∙◌, ap}
use os_ex.Disk.{Block, Blocks, Store, bwrite, update_ne}
use os_ex.Log.{Log, home, slot, commit, write_log, write_head, install_trans, put_blocks}
use os_ex.Log.Trace.{
  IsLog, copies, installs, copy_from-writes, copy_from-other, copy_from-slot, install_from-writes,
}
use os_ex.Log.Prefix.{head}

pub set-count : (xs : List ℕ) → get_or (set xs 0 0) 0 0 ≡ 0
set-count [] = refl
set-count (x ∷ xs) = refl

-- the writes of `commit`, the last one being of the block `h0`
abbrev pub trace : Log → Blocks → Block → Block → List (ℕ × Block)
trace lg c h h0 =
    copies lg lg.n 0 c ++ ((lg.start, h) ∷ (installs lg lg.n 0 c ++ ((lg.start, h0) ∷ [])))

module _ (lg : Log) (v : IsLog lg) (s : Store) (w : s.writes ≡ []) where
  start_kept : (write_log lg s).cache lg.start ≡ s.cache lg.start
  unfolding write_log
  start_kept = copy_from-other lg v s.cache lg.n 0 lg.start s (λ j lo hi q. omega arith)

  write_log-writes : (write_log lg s).writes ≡ copies lg lg.n 0 s.cache
  unfolding write_log
  write_log-writes =
      copy_from-writes lg v s.cache lg.n 0 s (omega arith) (λ i h. refl)
      ∙ ap (λ x. x ++ copies lg lg.n 0 s.cache) w

  headed-writes :
      (write_head lg (write_log lg s)).writes
      ≡ copies lg lg.n 0 s.cache ++ ((lg.start, head lg (s.cache lg.start)) ∷ [])
  unfolding write_head bwrite
  headed-writes =
      ap (λ x. (write_log lg s).writes ++ ((lg.start, head lg x) ∷ [])) start_kept
      ∙ ap (λ x. x ++ ((lg.start, head lg (s.cache lg.start)) ∷ [])) write_log-writes

  headed-slot :
      (i : ℕ) → i < lg.n → (write_head lg (write_log lg s)).cache (slot lg i) ≡ s.cache (home lg i)
  unfolding write_head bwrite write_log
  headed-slot i h =
      update_ne _ lg.start (slot lg i) _ (λ q. omega arith)
      ∙ copy_from-slot lg v s.cache lg.n 0 i s (omega arith) (λ j hj. refl) (omega arith)
          (omega arith)

  installed-writes :
      (install_trans lg (write_head lg (write_log lg s))).writes
      ≡ copies lg lg.n 0 s.cache
        ++ ((lg.start, head lg (s.cache lg.start)) ∷ installs lg lg.n 0 s.cache)
  unfolding install_trans
  installed-writes =
      install_from-writes lg v s.cache lg.n 0 _ (omega arith) headed-slot
      ∙ ap (λ x. x ++ installs lg lg.n 0 s.cache) headed-writes
      ∙ append_assoc (copies lg lg.n 0 s.cache) _ _

  -- the store when only the count is left to be cleared
  abbrev pub installed : Store
  installed = install_trans lg (write_head lg (write_log lg s))

  commit-pos : 0 < lg.n → (commit lg s).1 ≡ write_head (record lg { n = 0 }) installed
  unfolding commit
  commit-pos pos = ground arith

  pub commit-zero : lg.n ≡ 0 → (commit lg s).1.writes ≡ []
  unfolding commit
  commit-zero none = rw none w

  cleared-writes :
      (write_head (record lg { n = 0 }) installed).writes
      ≡ installed.writes ++ ((lg.start, set (installed.cache lg.start) 0 0) ∷ [])
  unfolding write_head bwrite put_blocks
  cleared-writes = refl

  pub commit-writes :
      0 < lg.n
      → (commit lg s).1.writes
        ≡ trace lg s.cache (head lg (s.cache lg.start)) (set (installed.cache lg.start) 0 0)
  commit-writes pos =
      ap (λ x. x.writes) (commit-pos pos)
      ∙ cleared-writes
      ∙ ap (λ x. x ++ ((lg.start, set (installed.cache lg.start) 0 0) ∷ [])) installed-writes
      ∙ append_assoc (copies lg lg.n 0 s.cache) _ _
