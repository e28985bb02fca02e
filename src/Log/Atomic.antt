-- ===== src/Log/Atomic.antt =====
-- A crash during `commit` of code/log.c, after any number of its writes.
use os_ex.Shared.{
  ℕ, ◌<◌, ◌≡◌, ◌≢◌, ◌⊎◌, inl, inr, List, [], ◌∷◌, ◌++◌, set, All, All_of_append, append-eq-append,
  append-nil, length, length-append, get_or, arith, ◌∙◌, ap, sym, subst,
}
use native.Mathlib.Decide.{ℕ_discrete}
use os_ex.Disk.{Block, Blocks, Store, apply, apply-append, boot, update, update_self, update_ne}
use os_ex.Log.{Log, log_size, commit, recover_from_log}
use os_ex.Log.Trace.{IsHome, IsLog, IsLogged, copies, installs, copies-All, installs-All}
use os_ex.Log.Crash.{IsClean, NoneOf, AllOf, SamePlace, recover-IsClean, recover-IsCommitted}
use os_ex.Log.Prefix.{
  IsCopy, IsInstall, written, head, copies-start, copies-home, installs-IsCommitted, installs-home,
  written-other, installs-other, IsHome-ne-start,
}
use os_ex.Log.Commit.{trace, installed, commit-writes, commit-zero, set-count}

-- What recovery makes of a disk that a crash left, given the rest of the writes.
abbrev pub Recovered : Log → Store → Log → Blocks → List (ℕ × Block) → Type 0
Recovered lg s lg0 e rest =
    let e' = (recover_from_log lg0 (boot e)).1.disk in
    (NoneOf lg s.disk e' × (rest ≢ [])) ⊎ AllOf lg s.cache s.disk e'

module _ (lg : Log) (v : IsLog lg) (s : Store) (clean : IsClean lg s.disk) (lg0 : Log)
    (p : SamePlace lg lg0) where
  abbrev recovered : Blocks → Blocks
  recovered e = (recover_from_log lg0 (boot e)).1.disk

  crash_early :
      (ws : List (ℕ × Block)) → All (IsCopy lg) ws → NoneOf lg s.disk (recovered (apply ws s.disk))
  crash_early ws a b hb =
      recover-IsClean lg v s.cache s.disk lg0 p (apply ws s.disk)
        (ap (λ x. get_or x 0 0) (copies-start lg v s.cache s.disk ws a) ∙ clean) b hb
      ∙ copies-home lg v s.cache s.disk ws a b hb

  crash_late :
      (hb : Block) (ws : List (ℕ × Block))
      → log_size < length hb
      → All (IsInstall lg s.cache) ws
      → AllOf lg s.cache s.disk (recovered (apply ws (written lg v s.cache s.disk (head lg hb))))
  crash_late hb ws fits a =
      recover-IsCommitted lg v s.cache s.disk lg0 p _
        (installs-IsCommitted lg v s.cache s.disk hb ws fits a)

  abbrev finished : Block → Block → Blocks
  finished h h0 =
      update (apply (installs lg lg.n 0 s.cache) (written lg v s.cache s.disk h)) lg.start h0

  crash_finished :
      (h h0 : Block) → get_or h0 0 0 ≡ 0 → AllOf lg s.cache s.disk (recovered (finished h h0))
  crash_finished h h0 none = (
    λ b (l : IsLogged lg b).
        let hb : IsHome lg b = subst (IsHome lg) l.2 (v.homes l.0 l.1) in
        kept b hb
        ∙ rw (← l.2) (
            installs-home lg v s.cache s.disk lg.n 0 l.0 (written lg v s.cache s.disk h)
              (omega arith) (omega arith) (omega (arith, l.1))),
    λ b hb free.
        kept b hb
        ∙ installs-other lg v s.cache s.disk (installs lg lg.n 0 s.cache) _ b free
            (installs-All lg v s.cache lg.n 0 (omega arith))
        ∙ written-other lg v s.cache s.disk h b hb,
  )
    where
      kept :
          (b : ℕ)
          → IsHome lg b
          → recovered (finished h h0) b
            ≡ apply (installs lg lg.n 0 s.cache) (written lg v s.cache s.disk h) b
      kept b hb =
          recover-IsClean lg v s.cache s.disk lg0 p (finished h h0)
            (ap (λ x. get_or x 0 0) (update_self _ lg.start h0) ∙ none) b hb
          ∙ update_ne _ lg.start b h0 (IsHome-ne-start lg v s.cache s.disk b hb)

  module _ (fits : log_size < length (s.cache lg.start)) (h0 : Block)
      (none : get_or h0 0 0 ≡ 0) where
    abbrev header : Block
    header = head lg (s.cache lg.start)

    abbrev all_copies : List (ℕ × Block)
    all_copies = copies lg lg.n 0 s.cache

    abbrev all_installs : List (ℕ × Block)
    all_installs = installs lg lg.n 0 s.cache

    -- the header is among the writes that were done, and `done` of those after it
    abbrev after : List (ℕ × Block) → Blocks
    after done = apply done (written lg v s.cache s.disk header)

    after-apply :
        (done : List (ℕ × Block))
        → apply (all_copies ++ ((lg.start, header) ∷ done)) s.disk ≡ after done
    unfolding apply
    after-apply done = apply-append all_copies ((lg.start, header) ∷ done) s.disk

    all_installed : All (IsInstall lg s.cache) all_installs
    all_installed = installs-All lg v s.cache lg.n 0 (omega arith)

    all_copied : All (IsCopy lg) all_copies
    all_copied = copies-All lg v s.cache lg.n 0 (omega arith)

    after-finished : after (all_installs ++ ((lg.start, h0) ∷ [])) ≡ finished header h0
    unfolding apply
    after-finished =
        apply-append all_installs ((lg.start, h0) ∷ []) (written lg v s.cache s.disk header)

    after_last :
        (r done rest : List (ℕ × Block))
        → done ≡ all_installs ++ r
        → (lg.start, h0) ∷ [] ≡ r ++ rest
        → AllOf lg s.cache s.disk (recovered (after done))
    after_last [] done rest q t =
        crash_late (s.cache lg.start) done fits
          (subst (All (IsInstall lg s.cache)) (sym (q ∙ append-nil all_installs)) all_installed)
    after_last (w ∷ []) done rest q t =
        let same : done ≡ all_installs ++ ((lg.start, h0) ∷ []) = cc (q, t) in
        subst (λ x. AllOf lg s.cache s.disk (recovered x)) (sym (ap after same ∙ after-finished))
          (crash_finished header h0 none)
    after_last (w ∷ w' ∷ r) done rest q t = cc t

    after_installs :
        (done rest : List (ℕ × Block))
        → all_installs ++ ((lg.start, h0) ∷ []) ≡ done ++ rest
        → AllOf lg s.cache s.disk (recovered (after done))
    after_installs done rest e =
        elim (append-eq-append all_installs ((lg.start, h0) ∷ []) done rest e) [
          | inl (r, q) ↦
              crash_late (s.cache lg.start) done fits
                (All_of_append (IsInstall lg s.cache) done r
                  (subst (All (IsInstall lg s.cache)) q all_installed)).0
          | inr (r, q, t) ↦ after_last r done rest q t
        ]

    after_copies :
        (r done rest : List (ℕ × Block))
        → done ≡ all_copies ++ r
        → (lg.start, header) ∷ (all_installs ++ ((lg.start, h0) ∷ [])) ≡ r ++ rest
        → Recovered lg s lg0 (apply done s.disk) rest
    after_copies [] done rest q t = inl (
      crash_early done (subst (All (IsCopy lg)) (sym (q ∙ append-nil all_copies)) all_copied),
      λ e. cc (t, e),
    )
    after_copies (w ∷ r) done rest q t =
        let same : done ≡ all_copies ++ ((lg.start, header) ∷ r) = cc (q, t) in
        let left : all_installs ++ ((lg.start, h0) ∷ []) ≡ r ++ rest = cc t in
        inr (
          subst (λ x. AllOf lg s.cache s.disk (recovered x))
            (sym (ap (λ x. apply x s.disk) same ∙ after-apply r)) (after_installs r rest left))

    -- Less than the copies was written.
    some_left :
        (done r rest : List (ℕ × Block))
        → all_copies ≡ done ++ r
        → trace lg s.cache header h0 ≡ done ++ rest
        → rest ≢ []
    some_left done r rest q e none_left =
        let whole : length (trace lg s.cache header h0) ≡ length done =
          ap length (e ∙ ap (λ x. done ++ x) none_left ∙ append-nil done) in
        omega (
          arith,
          whole,
          ap length q,
          length-append done r,
          length-append all_copies ((lg.start, header) ∷ (all_installs ++ ((lg.start, h0) ∷ []))),
        )

    crash_in_trace :
        (done rest : List (ℕ × Block))
        → trace lg s.cache header h0 ≡ done ++ rest
        → Recovered lg s lg0 (apply done s.disk) rest
    crash_in_trace done rest e = elim (append-eq-append all_copies _ done rest e) [
      | inl (r, q) ↦ inl (
        crash_early done
            (All_of_append (IsCopy lg) done r (subst (All (IsCopy lg)) q all_copied)).0,
        some_left done r rest q e,
      )
      | inr (r, q, t) ↦ after_copies r done rest q t
    ]

  -- An empty transaction writes nothing, and all of it is nothing.
  crash_none :
      lg.n ≡ 0
      → (done rest : List (ℕ × Block)) → [] ≡ done ++ rest
      → AllOf lg s.cache s.disk (recovered (apply done s.disk))
  unfolding apply
  crash_none none [] rest e = (
    λ b l. absurd (omega (arith, l.1)),
    λ b hb free. recover-IsClean lg v s.cache s.disk lg0 p s.disk clean b hb,
  )
  crash_none none (w ∷ done) rest e = cc e

  -- Let `commit` start with no write, a header on the disk that says that the log is empty, entries
  -- of the log that fit, all of blocks outside it, and a block for the header that holds them. Split
  -- its writes at any point. After a crash there the recovery of a kernel whose log has the same
  -- place gives, outside the log, the disk before the transaction, or all logged blocks as the cache
  -- had them and the others as before; and the latter if no write was left.
  pub commit_crash :
      (done rest : List (ℕ × Block))
      → s.writes ≡ []
      → log_size < length (s.cache lg.start)
      → (commit lg s).1.writes ≡ done ++ rest
      → Recovered lg s lg0 (apply done s.disk) rest
  commit_crash done rest w fits e = elim (ℕ_discrete lg.n 0) [
    | yes none ↦ inr (crash_none none done rest (sym (commit-zero lg v s w none) ∙ e))
    | no some ↦
        crash_in_trace fits (set ((installed lg v s w).cache lg.start) 0 0)
          (set-count ((installed lg v s w).cache lg.start)) done rest
          (sym (commit-writes lg v s w (omega arith)) ∙ e)
  ]
