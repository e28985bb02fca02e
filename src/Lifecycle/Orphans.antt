-- ===== src/Lifecycle/Orphans.antt =====
-- The loop of `exit` over the table: the children of the process that ends pass to `init`.
use os_ex.Shared.{
  ℕ, zero, suc, ◌≡◌, refl, sym, ap, ◌∙◌, Bool, Bool-cases, inl, inr, true, false, ◌||◌, ◌&&◌,
  if◌then◌else◌, [], ◌∷◌, ◌++◌, map, length, arith, length-append, get_elem?-append, modify-append,
  append_assoc,
}
use os_ex.Proc.{Proc, Procs, is_zombie, proc_chan, wake, wakeup}
use os_ex.Proc.Wait.{is_child}
use os_ex.Lifecycle.Exit.{adopt, pass_children}

-- Some child has exited and was not waited for.
abbrev pub has_orphan : ℕ → Procs → Bool
has_orphan self [] = false
has_orphan self (p ∷ procs) = (is_child self p && is_zombie p.state) || has_orphan self procs

-- What the loop comes to: every child has the parent `init`, which is woken if one of them has exited.
abbrev pub passed_on : ℕ → ℕ → ℕ → Procs → Procs
passed_on proc_base self initproc procs =
    let theirs = map (adopt self initproc) procs in
    if has_orphan self procs then wakeup (proc_chan proc_base initproc) theirs else theirs

module _ (proc_base self initproc : ℕ) where
  abbrev chan : ℕ
  chan = proc_chan proc_base initproc

  wakeup-append : (c : ℕ) (xs ys : Procs) → wakeup c (xs ++ ys) ≡ wakeup c xs ++ wakeup c ys
  unfolding wakeup
  wakeup-append c [] ys = refl
  wakeup-append c (x ∷ xs) ys = ap (λ l. wake c x ∷ l) (wakeup-append c xs ys)

  wake-wake : (c : ℕ) (p : Proc) → wake c (wake c p) ≡ wake c p
  unfolding wake
  wake-wake c p = ground arith

  wakeup-wakeup : (c : ℕ) (xs : Procs) → wakeup c (wakeup c xs) ≡ wakeup c xs
  unfolding wakeup
  wakeup-wakeup c [] = refl
  wakeup-wakeup c (x ∷ xs) = rw (wake-wake c x, wakeup-wakeup c xs) refl

  length-wakeup : (c : ℕ) (xs : Procs) → length (wakeup c xs) ≡ length xs
  unfolding wakeup
  length-wakeup c [] = refl
  length-wakeup c (x ∷ xs) = ap suc (length-wakeup c xs)

  adopt-wake : (c : ℕ) (p : Proc) → adopt self initproc (wake c p) ≡ wake c (adopt self initproc p)
  unfolding wake
  adopt-wake c p = ground arith

  map-wakeup :
      (c : ℕ) (xs : Procs)
      → map (adopt self initproc) (wakeup c xs) ≡ wakeup c (map (adopt self initproc) xs)
  unfolding wakeup
  map-wakeup c [] = refl
  map-wakeup c (x ∷ xs) = rw (adopt-wake c x, map-wakeup c xs) refl

  -- What the loop makes of the table, of which the entries `done` are behind it.
  abbrev rest_passed : Procs → Procs → Procs
  rest_passed done rest =
      let all = done ++ map (adopt self initproc) rest in
      if has_orphan self rest then wakeup chan all else all

  twice_woken :
      (b : Bool) (xs : Procs)
      → (if b then wakeup chan (wakeup chan xs) else wakeup chan xs) ≡ wakeup chan xs
  twice_woken true xs = wakeup-wakeup chan xs
  twice_woken false xs = refl

  -- A round is over: its entry stands behind the loop.
  one_behind :
      (n : ℕ) (done rest : Procs) (q : Proc)
      → ((ds rs : Procs)
          → length rs ≡ n
          → pass_children proc_base self initproc n (length ds) (ds ++ rs) ≡ rest_passed ds rs)
      → length rest ≡ n
      → pass_children proc_base self initproc n (suc (length done)) (done ++ (q ∷ rest))
        ≡ rest_passed (done ++ (q ∷ [])) rest
  one_behind n done rest q ih e =
      let longer : suc (length done) ≡ length (done ++ (q ∷ [])) =
        omega (arith, length-append done (q ∷ [])) in
      ap (λ i. pass_children proc_base self initproc n i (done ++ (q ∷ rest))) longer
      ∙ ap (λ l. pass_children proc_base self initproc n (length (done ++ (q ∷ []))) l)
          (sym (append_assoc done (q ∷ []) rest))
      ∙ ih (done ++ (q ∷ [])) rest e

  orphan_wake :
      (c : ℕ) (p : Proc)
      → (is_child self (wake c p) && is_zombie (wake c p).state)
        ≡ (is_child self p && is_zombie p.state)
  unfolding wake
  orphan_wake c p = ground arith

  pub has_orphan-wakeup : (c : ℕ) (xs : Procs) → has_orphan self (wakeup c xs) ≡ has_orphan self xs
  unfolding wakeup
  has_orphan-wakeup c [] = refl
  has_orphan-wakeup c (x ∷ xs) = rw (has_orphan-wakeup c xs, orphan_wake c x) refl

  -- The rest of the loop, once a round has woken `init`.
  all_woken :
      (done rest : Procs) (q : Proc)
      → rest_passed (wakeup chan done ++ (wake chan q ∷ [])) (wakeup chan rest)
        ≡ wakeup chan (done ++ (q ∷ map (adopt self initproc) rest))
  unfolding wakeup
  all_woken done rest q =
      let theirs = map (adopt self initproc) rest in
      let same : (wakeup chan done ++ (wake chan q ∷ []))
            ++ map (adopt self initproc) (wakeup chan rest)
          ≡ wakeup chan (done ++ (q ∷ theirs)) =
        append_assoc (wakeup chan done) (wake chan q ∷ [])
          (map (adopt self initproc) (wakeup chan rest))
        ∙ ap (λ l. wakeup chan done ++ (wake chan q ∷ l)) (map-wakeup chan rest)
        ∙ sym (wakeup-append chan done (q ∷ theirs)) in
      ap (λ l. if has_orphan self (wakeup chan rest) then wakeup chan l else l) same
      ∙ twice_woken (has_orphan self (wakeup chan rest)) (done ++ (q ∷ theirs))

  pass_lem :
      (n : ℕ) (done rest : Procs)
      → length rest ≡ n
      → pass_children proc_base self initproc n (length done) (done ++ rest) ≡ rest_passed done rest
  unfolding pass_children wakeup
  pass_lem zero done [] e = refl
  pass_lem zero done (p ∷ rest) e = absurd (omega (arith, e))
  pass_lem (suc n) done [] e = absurd (omega (arith, e))
  pass_lem (suc n) done (p ∷ rest) e =
      let f = adopt self initproc in
      let short : length rest ≡ n = omega (arith, e) in
      let theirs = map f rest in
      let passed = modify-append done p rest f in
      let together = append_assoc done (f p ∷ []) theirs in
      elim (Bool-cases (is_child self p && is_zombie p.state)) [
        | inr other ↦
            rw (get_elem?-append done p rest, other, passed, pass_children)
              (one_behind n done rest (f p) (pass_lem n) short
                ∙ ap (λ l. if has_orphan self rest then wakeup chan l else l) together)
        | inl hit ↦
            rw (get_elem?-append done p rest, hit, passed, pass_children)
              (ap
                  (λ i.
                    pass_children proc_base self initproc n (suc i)
                      (wakeup chan (done ++ (f p ∷ rest))))
                  (sym (length-wakeup chan done))
                ∙ ap
                    (λ l.
                      pass_children proc_base self initproc n (suc (length (wakeup chan done))) l)
                    (wakeup-append chan done (f p ∷ rest))
                ∙ one_behind n (wakeup chan done) (wakeup chan rest) (wake chan (f p)) (pass_lem n)
                    (length-wakeup chan rest ∙ short)
                ∙ all_woken done rest (f p))
      ]

  -- The loop of `exit` over the whole table gives every child of the process to `init`, and wakes who
  -- sleeps on `init` if one of these children has exited; whichever round wakes, it comes to the same
  -- as waking once after the last.
  pub pass_children_lem :
      (procs : Procs)
      → pass_children proc_base self initproc (length procs) 0 procs
        ≡ passed_on proc_base self initproc procs
  pass_children_lem procs = pass_lem (length procs) [] procs refl
