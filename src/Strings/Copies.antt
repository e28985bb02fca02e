-- ===== src/Strings/Copies.antt =====
-- The string functions of code/string.c: how far they read and write, and what they compare.
use os_ex.Shared.{
  ℕ, zero, suc, ◌+◌, ◌<◌, ◌≡◌, ◌≢◌, ◌↔◌, ◌==◌, ◌&&◌, not, inl, inr, refl, Bool, true, false,
  Bool-cases, sub_ℕ, pos, arith, ◌∙◌, ap, sym,
}
use os_ex.Strings.{Bytes, strncmp}

-- The strings agree in their first `n` bytes, or up to a common end before.
abbrev pub IsSame : ℕ → ℕ → ℕ → Bytes → Type 0
IsSame p q n m = (i : ℕ) → i < n → ((j : ℕ) → j < i → m (p + j) ≢ 0) → m (p + i) ≡ m (q + i)

sub_ℕ-zero : (a b : ℕ) → sub_ℕ a b ≡ pos 0 → a ≡ b
sub_ℕ-zero a b e = ground arith

-- The test of the loop of `strncmp`.
abbrev goes_on : ℕ → ℕ → Bytes → Bool
goes_on p q m = not (m p == 0) && (m p == m q)

goes_on-true : (p q : ℕ) (m : Bytes) → goes_on p q m ≡ true → (m p ≢ 0) × (m p ≡ m q)
goes_on-true p q m t = (λ z. ground arith, ground arith)

-- at an index from 0 and from 1 on
shift : (p i : ℕ) (m : Bytes) → m (p + suc i) ≡ m (p + 1 + i)
shift p i m = ap m (omega arith)

IsSame-longer :
    (p q n : ℕ) (m : Bytes)
    → goes_on p q m ≡ true
    → IsSame (p + 1) (q + 1) n m
    → IsSame p q (suc n) m
IsSame-longer p q n m t s zero h before =
    ap m (omega arith) ∙ (goes_on-true p q m t).1 ∙ ap m (omega arith)
IsSame-longer p q n m t s (suc i) h before =
    shift p i m
    ∙ s i (omega arith) (λ j lt z. before (suc j) (omega arith) (shift p j m ∙ z))
    ∙ sym (shift q i m)

none_zero :
    (p q i : ℕ) (m : Bytes)
    → goes_on p q m ≡ true
    → ((j : ℕ) → j < i → m (p + 1 + j) ≢ 0)
    → (j : ℕ) → j < suc i
    → m (p + j) ≢ 0
none_zero p q i m t before zero lt z = (goes_on-true p q m t).0 (ap m (omega arith) ∙ z)
none_zero p q i m t before (suc j) lt z = before j (omega arith) (sym (shift p j m) ∙ z)

IsSame-shorter :
    (p q n : ℕ) (m : Bytes)
    → goes_on p q m ≡ true
    → IsSame p q (suc n) m
    → IsSame (p + 1) (q + 1) n m
IsSame-shorter p q n m t s i h before =
    sym (shift p i m) ∙ s (suc i) (omega arith) (none_zero p q i m t before) ∙ shift q i m

IsSame-end : (p q n : ℕ) (m : Bytes) → goes_on p q m ≡ false → m p ≡ m q → IsSame p q (suc n) m
IsSame-end p q n m t e zero h before = ap m (omega arith) ∙ e ∙ ap m (omega arith)
IsSame-end p q n m t e (suc i) h before =
    absurd (before 0 (omega arith) (ap m (omega arith) ∙ ended))
  where
    ended : m p ≡ 0
    ended = ground arith

sub_ℕ-self : (a b : ℕ) → a ≡ b → sub_ℕ a b ≡ pos 0
sub_ℕ-self a b e = ground arith

-- `strncmp` returns 0 exactly if the strings agree in their first `n` bytes, or up to a common end.
pub strncmp_lem : (p q n : ℕ) (m : Bytes) → (strncmp p q n m ≡ pos 0) ↔ IsSame p q n m
unfolding strncmp
strncmp_lem p q zero m = (λ e i h f. absurd (omega arith), λ s. refl)
strncmp_lem p q (suc n) m =
    let (forth, back) = strncmp_lem (p + 1) (q + 1) n m in
    elim (Bool-cases (goes_on p q m)) [
      | inl t ↦
          rw t (λ e. IsSame-longer p q n m t (forth e), λ s. back (IsSame-shorter p q n m t s))
      | inr t ↦ rw t (
        λ e. IsSame-end p q n m t (sub_ℕ-zero (m p) (m q) e),
        λ s. sub_ℕ-self (m p) (m q) (
            ap m (omega arith)
            ∙ s 0 (omega arith) (λ j lt. absurd (omega arith))
            ∙ ap m (omega arith)),
      )
    ]
