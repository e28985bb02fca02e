-- ===== src/Log/Crash.antt =====
-- Crash safety of code/log.c: after a crash at any point of `commit`, or of the recovery itself,
-- the recovery leaves all of the transaction on the disk, or none of it.
use os_ex.Shared.{ℕ, ◌+◌, ◌<◌, ◌≡◌, ◌≢◌, inl, inr, refl, length, get_or, arith, ◌∙◌, ap, sym, subst}
use os_ex.Disk.{Blocks, bwrite, boot, update_ne}
use os_ex.Log.{
  Log, log_size, home, slot, write_head, read_head, install_trans, install_from, recover_from_log,
}
use os_ex.Log.Header.{get_blocks-at, length-get_blocks}
use os_ex.Log.Trace.{IsHome, IsLog, IsLogged, install_from-disk_home, install_from-disk_other}

-- Nothing of the transaction counts: the header on the disk has no entries.
abbrev pub IsClean : Log → Blocks → Type 0
IsClean lg d = get_or (d lg.start) 0 0 ≡ 0

-- The transaction counts: the header on the disk names its blocks, and the log has their contents
-- `c`; other blocks are as in `d`.
pub record IsCommitted (lg : Log) (c d e : Blocks) : Type 0 where
  pub count : get_or (e lg.start) 0 0 ≡ lg.n
  pub names : (i : ℕ) → i < lg.n → get_or (e lg.start) (i + 1) 0 ≡ home lg i
  pub saved : (i : ℕ) → i < lg.n → e (slot lg i) ≡ c (home lg i)
  pub others : (b : ℕ) → IsHome lg b → ¬ IsLogged lg b → e b ≡ d b

-- The blocks outside the log, before and after the transaction.
abbrev pub NoneOf : Log → Blocks → Blocks → Type 0
NoneOf lg d e = (b : ℕ) → IsHome lg b → e b ≡ d b

abbrev pub AllOf : Log → Blocks → Blocks → Blocks → Type 0
AllOf lg c d e =
    ((b : ℕ) → IsLogged lg b → e b ≡ c b) × ((b : ℕ) → IsHome lg b → ¬ IsLogged lg b → e b ≡ d b)

-- The log of the kernel that starts again: the same place on the disk.
pub record SamePlace (lg lg0 : Log) : Type 0 where
  pub start : lg0.start ≡ lg.start
  pub size : lg0.size ≡ lg.size
  pub entries : length lg0.block ≡ log_size

module _ (lg : Log) (v : IsLog lg) (c d : Blocks) (lg0 : Log) (p : SamePlace lg lg0) where
  -- the log as `read_head` finds it
  abbrev pub found : Blocks → Log
  found e = read_head lg0 (boot e)

  pub found-n : (e : Blocks) → IsCommitted lg c d e → (found e).n ≡ lg.n
  unfolding read_head boot
  found-n e k = ap (λ x. get_or (e x) 0 0) p.start ∙ k.count

  pub found-home :
      (e : Blocks) → IsCommitted lg c d e → (i : ℕ) → i < lg.n → home (found e) i ≡ home lg i
  unfolding read_head boot
  found-home e k i h =
      get_blocks-at (e lg0.start) (get_or (e lg0.start) 0 0) 0 i lg0.block
        (omega (arith, found-n e k, v.few, v.inside, p.entries)) (omega arith)
        (omega (arith, found-n e k))
      ∙ ap (λ x. get_or (e x) (i + 1) 0) p.start
      ∙ k.names i h

  pub found-start : (e : Blocks) → (found e).start ≡ lg.start
  unfolding read_head
  found-start e = p.start

  found-size : (e : Blocks) → (found e).size ≡ lg.size
  unfolding read_head
  found-size e = p.size

  found-slot : (e : Blocks) (i : ℕ) → slot (found e) i ≡ slot lg i
  found-slot e i = ap (λ x. x + i + 1) (found-start e)

  found-IsHome : (e : Blocks) (b : ℕ) → IsHome lg b → IsHome (found e) b
  found-IsHome e b (inl h) = inl (omega (arith, found-start e))
  found-IsHome e b (inr h) = inr (omega (arith, found-start e, found-size e))

  length-found : (e : Blocks) → length (found e).block ≡ log_size
  unfolding read_head
  length-found e = length-get_blocks _ _ 0 lg0.block ∙ p.entries

  pub found-IsLog : (e : Blocks) → IsCommitted lg c d e → IsLog (found e)
  found-IsLog e k = record {
    few = omega (arith, found-n e k, v.few);
    inside = omega (arith, found-n e k, v.inside, found-size e);
    entries = length-found e;
    homes = λ i h.
        let h' : i < lg.n = omega (arith, found-n e k) in
        subst (IsHome (found e)) (sym (found-home e k i h'))
          (found-IsHome e (home lg i) (v.homes i h'));
  }

  -- Outside the log the recovery changes what `install_trans` changes.
  recover-disk :
      (e : Blocks) (b : ℕ)
      → IsHome lg b
      → (recover_from_log lg0 (boot e)).1.disk b ≡ (install_trans (found e) (boot e)).disk b
  unfolding recover_from_log write_head bwrite
  recover-disk e b h = update_ne _ (found e).start b _ (off h)
    where
      off : IsHome lg b → b ≢ (found e).start
      off (inl x) q = omega (arith, found-start e)
      off (inr x) q = omega (arith, found-start e, v.inside)

  module _ (e : Blocks) (k : IsCommitted lg c d e) where
    pub saved : (i : ℕ) → i < (found e).n → (boot e).cache (slot (found e) i) ≡ c (home (found e) i)
    unfolding boot
    saved i h =
        let h' : i < lg.n = omega (arith, found-n e k) in
        ap e (found-slot e i) ∙ k.saved i h' ∙ ap c (sym (found-home e k i h'))

    -- The recovery of a committed transaction installs all of it.
    pub recover-IsCommitted : AllOf lg c d (recover_from_log lg0 (boot e)).1.disk
    unfolding install_trans boot
    recover-IsCommitted = (
      λ b (l : IsLogged lg b).
          recover-disk e b (subst (IsHome lg) l.2 (v.homes l.0 l.1))
          ∙ ap (install_trans (found e) (boot e)).disk (sym l.2 ∙ sym (found-home e k l.0 l.1))
          ∙ install_from-disk_home (found e) (found-IsLog e k) c (found e).n 0 l.0 (boot e)
              (omega arith) saved (omega arith) (omega (arith, found-n e k, l.1))
          ∙ ap c (found-home e k l.0 l.1 ∙ l.2),
      λ b h free.
          recover-disk e b h
          ∙ install_from-disk_other (found e) (found-IsLog e k) c (found e).n 0 b (boot e)
              (λ j lo hi same.
                let j_in : j < lg.n = omega (arith, found-n e k) in
                free (j, j_in, sym (same ∙ found-home e k j j_in)))
          ∙ k.others b h free,
    )

  -- The recovery of a clean disk changes nothing outside the log.
  pub recover-IsClean :
      (e : Blocks) → IsClean lg e → NoneOf lg e (recover_from_log lg0 (boot e)).1.disk
  unfolding install_trans
  recover-IsClean e k b h =
      recover-disk e b h
      ∙ ap (λ x. (install_from (found e) x 0 (boot e)).disk b) none_found
      ∙ nothing
    where
      none_found : (found e).n ≡ 0
      none_found = unfold read_head boot in (ap (λ x. get_or (e x) 0 0) p.start ∙ k)

      nothing : (install_from (found e) 0 0 (boot e)).disk b ≡ e b
      nothing = unfold install_from boot in refl
