-- ===== src/Bio/Start.antt =====
-- `binit` of code/bio.c makes a well-formed cache that shows the disk.
use os_ex.Shared.{
  ℕ, zero, suc, ◌+◌, ◌<◌, ◌≤◌, ◌≡◌, ◌⊎◌, inl, inr, refl, [], ◌∷◌, List, get_elem?_lt,
  get_elem?-replicate, length-replicate, replicate, arith, ap,
}
use native.Mathlib.Decide.{ℕ_discrete}
use os_ex.Disk.{Blocks}
use os_ex.Bio.{Buf, Bcache, nbuf, zeroed_buf, link_from, binit}
use os_ex.Bio.Cached.{Contains, IsBuf, IsFor, IsCache, Shows, on_disk}
use os_ex.Bio.Found.{HasFewReferences}

link_from-Contains :
    (n b i : ℕ) (order : List ℕ)
    → (Contains i order) ⊎ ((b ≤ i) × (i < b + n))
    → Contains i (link_from n b order)
unfolding link_from
link_from-Contains zero b i order (inl c) = c
link_from-Contains zero b i order (inr (lo, hi)) = absurd (omega (arith, lo, hi))
link_from-Contains (suc n) b i order (inl c) =
    link_from-Contains n (suc b) i (b ∷ order) (inl (inr c))
link_from-Contains (suc n) b i order (inr (lo, hi)) = elim (ℕ_discrete i b) [
  | yes e ↦ link_from-Contains n (suc b) i (b ∷ order) (inl (inl e))
  | no ne ↦ link_from-Contains n (suc b) i (b ∷ order) (inr (omega (arith, lo), omega (arith, hi)))
]

module _ (memdisk : Blocks) (disksize : ℕ) where
  abbrev start : Bcache
  start = binit memdisk disksize

  pub every_zeroed : (i : ℕ) (b : Buf) → IsBuf start i b → zeroed_buf ≡ b
  unfolding binit
  every_zeroed i b e = get_elem?-replicate nbuf zeroed_buf i b e

  not-IsFor : (i n : ℕ) (b : Buf) → IsBuf start i b → ¬ IsFor n b
  not-IsFor i n b e is = omega (arith, ap (λ x. x.dev) (every_zeroed i b e), is.0)

  pub binit-IsCache : IsCache start
  unfolding binit
  binit-IsCache = record {
    linked = λ i b e. link_from-Contains nbuf 0 i [] (
        inr (
          omega arith,
          omega (
            arith,
            get_elem?_lt (replicate nbuf zeroed_buf) i b e,
            length-replicate nbuf zeroed_buf,
          ),
        ));
    unique = λ i j n b b' e e' is is'. absurd (not-IsFor i n b e is);
    clean = λ i n b e is. absurd (not-IsFor i n b e is);
    whole = λ i b e d. cc (d, ap (λ x. x.dirty) (every_zeroed i b e));
  }

  pub binit-HasFewReferences : HasFewReferences start
  binit-HasFewReferences i b e = omega (arith, ap (λ x. x.refcnt) (every_zeroed i b e))

  pub binit-Shows : (n : ℕ) → Shows start n (memdisk n)
  unfolding binit
  binit-Shows n = on_disk (λ i b e is. absurd (not-IsFor i n b e is)) refl
