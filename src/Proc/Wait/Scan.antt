-- ===== src/Proc/Wait/Scan.antt =====
-- The scan that `wait`, `wait2` and `join` of code/proc.c share.
use os_ex.Shared.{
  ℕ, suc, ◌≡◌, refl, ◌⊎◌, inl, inr, Bool, true, false, ◌&&◌, ◌||◌, [], ◌∷◌, All, get_elem?, none,
  some, arith, Bool-cases, take, ap,
}
use os_ex.Proc.{Proc, Procs, is_zombie}
use os_ex.Proc.Wait.{scan, shift}

module _ (child : Proc → Bool) where
  -- `havekids` after the scan: some entry before it, or one of the table, is a child.
  abbrev pub SomeChild : Bool → Procs → Type 0
  SomeChild h procs =
      (h ≡ true) ⊎ ((i : ℕ) × (p : Proc) × (get_elem? procs i ≡ some p) × (child p ≡ true))

  -- No child has exited; `havekids` says whether there is a child.
  pub record Nobody (h : Bool) (procs : Procs) : Type 0 where
    pub none_found : (scan child h procs).0 ≡ none
    pub no_zombie : All (λ p. (child p && is_zombie p.state) ≡ false) procs
    pub kids : ((scan child h procs).1 ≡ true) → SomeChild h procs
    pub no_kids : ((scan child h procs).1 ≡ false) → (h ≡ false) × All (λ p. child p ≡ false) procs

  -- The first child that has exited.
  pub record Exited (h : Bool) (procs : Procs) : Type 0 where
    pub index : ℕ
    pub entry : Proc
    pub found : (scan child h procs).0 ≡ some (index, entry)
    pub there : get_elem? procs index ≡ some entry
    pub ready : (child entry ≡ true) × (is_zombie entry.state ≡ true)
    pub before : All (λ p. (child p && is_zombie p.state) ≡ false) (take index procs)

  SomeChild-cons :
      (h : Bool) (p : Proc) (procs : Procs)
      → SomeChild (h || child p) procs
      → SomeChild h (p ∷ procs)
  SomeChild-cons h p procs (inl e) = elim (Bool-cases h) [
    | inl was ↦ inl was
    | inr new ↦ inr (0, p, refl, ground arith)
  ]
  SomeChild-cons h p procs (inr (i, q, e, c)) = inr (suc i, q, e, c)

  -- The scan finds the first child that has exited, or says whether there is a child at all.
  pub scan_lem : (h : Bool) (procs : Procs) → Nobody h procs ⊎ Exited h procs
  unfolding scan
  scan_lem h [] =
      inl (record { none_found = refl; no_zombie = tt; kids = λ e. inl e; no_kids = λ e. (e, tt) })
  scan_lem h (p ∷ procs) = elim (Bool-cases (child p && is_zombie p.state)) [
    | inl hit ↦ inr (record {
      index = 0;
      entry = p;
      found = rw hit;
      there = refl;
      ready = ground arith;
      before = tt;
    })
    | inr miss ↦ elim (scan_lem (h || child p) procs) [
      | inl n ↦ inl (record {
        none_found = rw miss (ap shift n.none_found);
        no_zombie = (miss, n.no_zombie);
        kids = λ e. SomeChild-cons h p procs (n.kids (rw miss at e));
        no_kids =
            λ e. let (a, all) = n.no_kids (rw miss at e) in (ground arith, (ground arith, all));
      })
      | inr e ↦ inr (record {
        index = suc e.index;
        entry = e.entry;
        found = rw miss (ap shift e.found);
        there = e.there;
        ready = e.ready;
        before = (miss, e.before);
      })
    ]
  ]
