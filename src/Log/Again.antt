-- ===== src/Log/Again.antt =====
-- A crash during the recovery of code/log.c: the next recovery completes the transaction.
use os_ex.Shared.{
  ℕ, zero, suc, ◌+◌, ◌<◌, ◌≡◌, inl, inr, refl, List, [], ◌∷◌, ◌++◌, set, All, All_of_append,
  All_weaken, append-eq-append, append-nil, get_or, arith, ◌∙◌, ap, sym, subst,
}
use os_ex.Disk.{Block, Blocks, Store, apply, apply-append, boot, bwrite, update, update_self}
use os_ex.Log.{
  Log, home, slot, put_blocks, write_head, install_from, install_trans, recover_from_log,
}
use os_ex.Log.Trace.{IsHome, IsLog, installs, installs-All, install_from-writes}
use os_ex.Log.Crash.{
  IsClean, IsCommitted, AllOf, SamePlace, found, found-n, found-home, found-start, found-IsLog,
  saved, recover-IsClean, recover-IsCommitted,
}
use os_ex.Log.Prefix.{IsInstall, installs-start, installs-slot, installs-other}
use os_ex.Log.Commit.{set-count}

-- The disk is what the writes make of `d`.
abbrev IsPlayed : Blocks → Store → Type 0
IsPlayed d s = s.disk ≡ apply s.writes d

bwrite-IsPlayed :
    (d : Blocks) (b : ℕ) (v : Block) (s : Store) → IsPlayed d s → IsPlayed d (bwrite b v s)
unfolding bwrite apply
bwrite-IsPlayed d b v s p = ap (λ x. update x b v) p ∙ sym (apply-append s.writes ((b, v) ∷ []) d)

install_from-IsPlayed :
    (lg : Log) (n tail : ℕ) (d : Blocks) (s : Store)
    → IsPlayed d s
    → IsPlayed d (install_from lg n tail s)
unfolding install_from
install_from-IsPlayed lg zero tail d s p = p
install_from-IsPlayed lg (suc n) tail d s p =
    install_from-IsPlayed lg n (suc tail) d _
      (bwrite-IsPlayed d (home lg tail) (s.cache (slot lg tail)) s p)

module _ (lg : Log) (v : IsLog lg) (c d : Blocks) (lg0 : Log) (p : SamePlace lg lg0) (e : Blocks)
    (k : IsCommitted lg c d e) where
  abbrev log_found : Log
  log_found = found lg v c d lg0 p e

  -- the recovery before it clears the count
  abbrev installed : Store
  installed = install_trans log_found (boot e)

  abbrev cleared : Block
  cleared = set (installed.cache log_found.start) 0 0

  recovered-step : (recover_from_log lg0 (boot e)).1 ≡ bwrite log_found.start cleared installed
  unfolding recover_from_log write_head put_blocks
  recovered-step = refl

  installed-writes : installed.writes ≡ installs log_found log_found.n 0 c
  unfolding install_trans boot
  installed-writes =
      install_from-writes log_found (found-IsLog lg v c d lg0 p e k) c log_found.n 0 (boot e)
        (omega arith) (saved lg v c d lg0 p e k)

  recover-writes :
      (recover_from_log lg0 (boot e)).1.writes
      ≡ installs log_found log_found.n 0 c ++ ((log_found.start, cleared) ∷ [])
  unfolding bwrite
  recover-writes =
      ap (λ x. x.writes) recovered-step
      ∙ ap (λ x. x ++ ((log_found.start, cleared) ∷ [])) installed-writes

  recover-IsPlayed : IsPlayed e (recover_from_log lg0 (boot e)).1
  unfolding boot apply install_trans
  recover-IsPlayed = subst (IsPlayed e) (sym recovered-step) (
      bwrite-IsPlayed e log_found.start cleared installed
        (install_from-IsPlayed log_found log_found.n 0 e (boot e) refl))

  all_installed : All (IsInstall lg c) (installs log_found log_found.n 0 c)
  all_installed =
      All_weaken (IsInstall log_found c) (IsInstall lg c) (installs log_found log_found.n 0 c)
        (λ w ((i, h, q), same).
          let h' : i < lg.n = omega (arith, h, found-n lg v c d lg0 p e k) in
          ((i, h', sym (found-home lg v c d lg0 p e k i h') ∙ q), same))
        (installs-All log_found (found-IsLog lg v c d lg0 p e k) c log_found.n 0 (omega arith))

  -- Installing some blocks leaves the transaction committed.
  installs-keep :
      (ws : List (ℕ × Block)) → All (IsInstall lg c) ws → IsCommitted lg c d (apply ws e)
  installs-keep ws a = record {
    count = ap (λ x. get_or x 0 0) (installs-start lg v c d ws e a) ∙ k.count;
    names = λ i h. ap (λ x. get_or x (i + 1) 0) (installs-start lg v c d ws e a) ∙ k.names i h;
    saved = λ i h. installs-slot lg v c d ws e i h a ∙ k.saved i h;
    others = λ b h free. installs-other lg v c d ws e b free a ∙ k.others b h free;
  }

  abbrev recovered : Blocks → Blocks
  recovered x = (recover_from_log lg0 (boot x)).1.disk

  recovered-IsClean : IsClean lg (recovered e)
  unfolding bwrite
  recovered-IsClean =
      ap (λ x. get_or (x.disk lg.start) 0 0) recovered-step
      ∙ ap (λ x. get_or (update installed.disk log_found.start cleared x) 0 0)
          (sym (found-start lg v c d lg0 p e))
      ∙ ap (λ x. get_or x 0 0) (update_self installed.disk log_found.start cleared)
      ∙ set-count (installed.cache log_found.start)

  again_whole : AllOf lg c d (recovered (recovered e))
  again_whole =
      let (logged, others) = recover-IsCommitted lg v c d lg0 p e k in
      let same = recover-IsClean lg v c d lg0 p (recovered e) recovered-IsClean in
      (
        λ b l. same b (subst (IsHome lg) l.2 (v.homes l.0 l.1)) ∙ logged b l,
        λ b h free. same b h ∙ others b h free,
      )

  again_last :
      (r done rest : List (ℕ × Block))
      → done ≡ installs log_found log_found.n 0 c ++ r
      → (log_found.start, cleared) ∷ [] ≡ r ++ rest
      → AllOf lg c d (recovered (apply done e))
  again_last [] done rest q t = recover-IsCommitted lg v c d lg0 p _ (
      installs-keep done (
        subst (All (IsInstall lg c)) (sym (q ∙ append-nil (installs log_found log_found.n 0 c)))
          all_installed))
  again_last (w ∷ []) done rest q t =
      let same : done ≡ installs log_found log_found.n 0 c ++ ((log_found.start, cleared) ∷ []) =
        cc (q, t) in
      subst (λ x. AllOf lg c d (recovered x))
        (recover-IsPlayed ∙ ap (λ ws. apply ws e) (recover-writes ∙ sym same)) again_whole
  again_last (w ∷ w' ∷ r) done rest q t = cc t

  -- Let a disk have a committed transaction: the header names its blocks, and the log has their
  -- contents. Split the writes of the recovery at any point. After a crash there the next recovery
  -- still leaves all logged blocks as the transaction has them, and the others as they were.
  pub recover_crash :
      (done rest : List (ℕ × Block))
      → (recover_from_log lg0 (boot e)).1.writes ≡ done ++ rest
      → AllOf lg c d (recovered (apply done e))
  recover_crash done rest t =
      elim (append-eq-append (installs log_found log_found.n 0 c) ((log_found.start, cleared) ∷ [])
        done rest (sym recover-writes ∙ t)) [
          | inl (r, q) ↦ recover-IsCommitted lg v c d lg0 p _ (
              installs-keep done
                (All_of_append (IsInstall lg c) done r
                  (subst (All (IsInstall lg c)) q all_installed)).0)
          | inr (r, q, last) ↦ again_last r done rest q last
        ]
