-- ===== src/Content/Scanning.antt =====
-- A block that is written, and the search of `balloc` of code/fs.c through a block of the free map.
use native.Mathlib.Decide.{ℕ_discrete}
use os_ex.Shared.{
  ℕ, zero, suc, ◌+◌, ◌<◌, ◌≤◌, ◌≡◌, ◌≢◌, inl, inr, sym, ap, ◌∙◌, Bool-cases, ltb, ◌==◌, Option,
  none, some, arith,
}
use os_ex.Content.{Data, Volume, bit_at, write, scan}

pub write_self : (b : ℕ) (d : Data) (v : Volume) → (write b d v).blocks b ≡ d
unfolding write
write_self b d v = ground arith

pub write_ne : (b x : ℕ) (d : Data) (v : Volume) → x ≢ b → (write b d v).blocks x ≡ v.blocks x
unfolding write
write_ne b x d v ne = ground arith

-- What a scan of the bits from `bi` on finds.
abbrev pub Scanned : ℕ → ℕ → Data → ℕ → ℕ → Option ℕ → Type 0
Scanned n size d b bi none = (x : ℕ) → bi ≤ x → x < bi + n → b + x < size → bit_at d x ≢ 0
Scanned n size d b bi (some r) =
    (bi ≤ r)
    × (r < bi + n)
    × (b + r < size)
    × (bit_at d r ≡ 0)
    × ((x : ℕ) → bi ≤ x → x < r → bit_at d x ≢ 0)

pub scan_cons :
    (n size : ℕ) (d : Data) (b bi : ℕ) (rest : Option ℕ)
    → bit_at d bi ≢ 0
    → Scanned n size d b (bi + 1) rest
    → Scanned (suc n) size d b bi rest
scan_cons n size d b bi none used s = λ x lo hi top. elim (ℕ_discrete x bi) [
  | yes same ↦ λ e. used (ap (λ y. bit_at d y) (sym same) ∙ e)
  | no other ↦ s x (omega arith) (omega arith) top
]
scan_cons n size d b bi (some r) used (lo', hi', top', free, before) = (
  omega arith,
  omega arith,
  top',
  free,
  λ x lo hi. elim (ℕ_discrete x bi) [
    | yes same ↦ λ e. used (ap (λ y. bit_at d y) (sym same) ∙ e)
    | no other ↦ before x (omega arith) hi
  ],
)

pub scan_lem : (n size : ℕ) (d : Data) (b bi : ℕ) → Scanned n size d b bi (scan n size d b bi)
unfolding scan
scan_lem zero size d b bi = λ x lo hi top. absurd (omega arith)
scan_lem (suc n) size d b bi = elim (Bool-cases (ltb (b + bi) size)) [
  | inr above ↦ rw (above, scan) (λ x lo hi top. absurd (ground arith))
  | inl below ↦ elim (Bool-cases (bit_at d bi == 0)) [
    | inl free ↦
        rw (below, scan, free)
          (omega arith, omega arith, ground arith, ground arith, λ x lo hi. absurd (omega arith))
    | inr used ↦
        rw (below, scan, used)
          (scan_cons n size d b bi (scan n size d b (bi + 1)) (λ e. absurd (ground (arith, e)))
            (scan_lem n size d b (bi + 1)))
  ]
]
