-- ===== src/Lifecycle/Exiting.antt =====
-- What `exit` of code/proc.c makes of the table, and the `wait` of the parent that it wakes.
use os_ex.Shared.{
  ℕ, ◌≡◌, ◌≢◌, refl, sym, subst, ap, ◌∙◌, Bool, Bool-cases, inl, inr, true, if◌then◌else◌, map,
  modify, get_elem?, Option, some, arith, get_elem?-map, get_elem?-modify_ne, get_elem?-modify_self,
}
use os_ex.Proc.{Proc, Procs, runnable, zombie, proc_chan, wake, wakeup}
use os_ex.Proc.Wakeup.{SleepsOn}
use os_ex.Lifecycle.Exit.{adopt, parent_chan, parent_at, exit_end}
use os_ex.Lifecycle.Orphans.{has_orphan, passed_on, has_orphan-wakeup, pass_children_lem}

module _ (proc_base self initproc : ℕ) where
  -- What becomes of another entry, if the exiting process has the parent `parent`, and has an orphan
  -- that has exited or not.
  abbrev pub fate : Option ℕ → Bool → Proc → Proc
  fate parent orphan p =
      let p' = adopt self initproc (wake (parent_chan proc_base parent) p) in
      if orphan then wake (proc_chan proc_base initproc) p' else p'

  get_elem?-passed_on :
      (procs : Procs) (c j : ℕ) (p : Proc)
      → get_elem? procs j ≡ some p
      → get_elem? (passed_on proc_base self initproc (wakeup c procs)) j
        ≡ some (
            let p' = adopt self initproc (wake c p) in
            if has_orphan self procs then wake (proc_chan proc_base initproc) p' else p')
  unfolding wakeup
  get_elem?-passed_on procs c j p e =
      let woken = get_elem?-map procs (wake c) j p e in
      let theirs = get_elem?-map (wakeup c procs) (adopt self initproc) j (wake c p) woken in
      elim (Bool-cases (has_orphan self procs)) [
        | inl some_orphan ↦
            rw (has_orphan-wakeup proc_base self initproc c procs, some_orphan)
              (get_elem?-map (map (adopt self initproc) (wakeup c procs))
                (wake (proc_chan proc_base initproc)) j (adopt self initproc (wake c p)) theirs)
        | inr no_orphan ↦ rw (has_orphan-wakeup proc_base self initproc c procs, no_orphan) theirs
      ]

  module _ (procs : Procs) where
    -- The table after the loop.
    abbrev passed : Procs
    passed =
        passed_on proc_base self initproc
          (wakeup (parent_chan proc_base (parent_at self procs)) procs)

    exit_end-passed :
        exit_end proc_base self initproc procs
        ≡ modify passed self (λ p. record p { state = zombie })
    unfolding exit_end
    exit_end-passed =
        ap (λ l. modify l self (λ p. record p { state = zombie }))
          (pass_children_lem proc_base self initproc
            (wakeup (parent_chan proc_base (parent_at self procs)) procs))

    pub exit_end-other :
        (j : ℕ) (p : Proc)
        → j ≢ self
        → get_elem? procs j ≡ some p
        → get_elem? (exit_end proc_base self initproc procs) j
          ≡ some (fate (parent_at self procs) (has_orphan self procs) p)
    exit_end-other j p ne e =
        ap (λ l. get_elem? l j) exit_end-passed
        ∙ get_elem?-modify_ne passed self j _ (λ s. ne (sym s))
        ∙ get_elem?-passed_on procs _ j p e

    pub exit_end-self :
        (p : Proc)
        → get_elem? procs self ≡ some p
        → get_elem? (exit_end proc_base self initproc procs) self
          ≡ some (record (fate p.parent (has_orphan self procs) p) { state = zombie })
    exit_end-self p e =
        let mine : parent_at self procs ≡ p.parent = rw (e, parent_at) refl in
        ap (λ l. get_elem? l self) exit_end-passed
        ∙ get_elem?-modify_self passed self _ _ (get_elem?-passed_on procs _ self p e)
        ∙ ap (λ o. some (record (fate o (has_orphan self procs) p) { state = zombie })) mine

  -- Another entry: the fields that `exit` may change.
  fate-adopted :
      (parent : Option ℕ) (orphan : Bool) (c : Proc)
      → c.parent ≡ some self
      → ((fate parent orphan c).parent ≡ some initproc) × ((fate parent orphan c).pid ≡ c.pid)
  unfolding wake
  fate-adopted parent orphan c e = ground arith

  fate-woken :
      (parent : Option ℕ) (orphan : Bool) (c : Proc)
      → SleepsOn (parent_chan proc_base parent) c
      → (fate parent orphan c).state ≡ runnable
  unfolding wake
  fate-woken parent orphan c s = ground arith

  fate-init :
      (parent : Option ℕ) (c : Proc)
      → SleepsOn (proc_chan proc_base initproc) c
      → (fate parent true c).state ≡ runnable
  unfolding wake
  fate-init parent c s = ground arith

  fate-kept :
      (parent : Option ℕ) (orphan : Bool) (c : Proc)
      → c.parent ≢ some self
      → ¬ SleepsOn (parent_chan proc_base parent) c
      → ¬ SleepsOn (proc_chan proc_base initproc) c
      → fate parent orphan c ≡ c
  unfolding wake
  fate-kept parent orphan c ne a b = ground arith

  -- What the end of process `p` does to the table.
  pub record Ended (procs : Procs) (p : Proc) (procs' : Procs) : Type 0 where
    pub ended : (q : Proc) × (get_elem? procs' self ≡ some q) × (q.state ≡ zombie)
    pub adopted :
        (j : ℕ) (c : Proc)
        → j ≢ self
        → get_elem? procs j ≡ some c
        → c.parent ≡ some self
        → (q : Proc) × (get_elem? procs' j ≡ some q) × (q.parent ≡ some initproc) × (q.pid ≡ c.pid)
    pub parent_woken :
        (j : ℕ) (c : Proc)
        → j ≢ self
        → get_elem? procs j ≡ some c
        → SleepsOn (parent_chan proc_base p.parent) c
        → (q : Proc) × (get_elem? procs' j ≡ some q) × (q.state ≡ runnable)
    pub init_woken :
        (j : ℕ) (c : Proc)
        → j ≢ self
        → has_orphan self procs ≡ true
        → get_elem? procs j ≡ some c
        → SleepsOn (proc_chan proc_base initproc) c
        → (q : Proc) × (get_elem? procs' j ≡ some q) × (q.state ≡ runnable)
    pub others :
        (j : ℕ) (c : Proc)
        → j ≢ self
        → get_elem? procs j ≡ some c
        → c.parent ≢ some self
        → ¬ SleepsOn (parent_chan proc_base p.parent) c
        → ¬ SleepsOn (proc_chan proc_base initproc) c
        → get_elem? procs' j ≡ some c

  -- The part of `exit` under the lock of the table makes the process a zombie. Each of its children has
  -- `init` as its parent. Who sleeps on its parent runs again, and so does who sleeps on `init` if one
  -- of the children was a zombie. An entry that is none of these is left as it was.
  pub exit_end_lem :
      (procs : Procs) (p : Proc)
      → get_elem? procs self ≡ some p
      → Ended procs p (exit_end proc_base self initproc procs)
  exit_end_lem procs p e =
      let mine : parent_at self procs ≡ p.parent = rw (e, parent_at) refl in
      let orphan = has_orphan self procs in
      let other : (j : ℕ) (c : Proc)
          → j ≢ self
          → get_elem? procs j ≡ some c
          → get_elem? (exit_end proc_base self initproc procs) j ≡ some (fate p.parent orphan c) =
        λ j c ne there.
          subst (λ o. get_elem? (exit_end proc_base self initproc procs) j ≡ some (fate o orphan c))
            mine (exit_end-other procs j c ne there) in
      record {
        ended = (record (fate p.parent orphan p) { state = zombie }, exit_end-self procs p e, refl);
        adopted = λ j c ne there child.
            let (passed_to, same) = fate-adopted p.parent orphan c child in
            (fate p.parent orphan c, other j c ne there, passed_to, same);
        parent_woken = λ j c ne there s.
            (fate p.parent orphan c, other j c ne there, fate-woken p.parent orphan c s);
        init_woken = λ j c ne some_orphan there s. (
          fate p.parent orphan c,
          other j c ne there,
          ap (λ b. (fate p.parent b c).state) some_orphan ∙ fate-init p.parent c s,
        );
        others = λ j c ne there a b d.
            other j c ne there ∙ ap (λ q. some q) (fate-kept p.parent orphan c a b d);
      }
