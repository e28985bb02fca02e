-- ===== src/Strings/Moves.antt =====
-- `memmove` of code/string.c, for any overlap.
use os_ex.Shared.{
  ℕ, zero, suc, ◌+◌, ◌<◌, ◌≤◌, ◌≡◌, ◌≢◌, ◌⊎◌, ◌&&◌, inl, inr, refl, true, false, ltb, Bool-cases,
  arith, ◌∙◌, ap,
}
use native.Mathlib.Decide.{ℕ_discrete}
use os_ex.Strings.{Bytes, poke, move_down, move_up, memmove}

pub poke_self : (m : Bytes) (a b v : ℕ) → b ≡ a → poke m a v b ≡ v
unfolding poke
poke_self m a b v e = ground arith

pub poke_ne : (m : Bytes) (a b v : ℕ) → b ≢ a → poke m a v b ≡ m b
unfolding poke
poke_ne m a b v ne = ground arith

-- The address is not among the `n` from `d` on.
abbrev pub IsOutside : ℕ → ℕ → ℕ → Type 0
IsOutside d n a = (a < d) ⊎ (d + n ≤ a)

move_down-other : (d s n a : ℕ) (m : Bytes) → IsOutside d n a → move_down d s n m a ≡ m a
unfolding move_down
move_down-other d s zero a m o = refl
move_down-other d s (suc n) a m o =
    move_down-other d s n a _ (ground arith) ∙ poke_ne m (d + n) a (m (s + n)) (ground arith)

move_down-at : (d s n i : ℕ) (m : Bytes) → s < d → i < n → move_down d s n m (d + i) ≡ m (s + i)
unfolding move_down
move_down-at d s zero i m h lt = absurd (omega arith)
move_down-at d s (suc n) i m h lt = elim (ℕ_discrete i n) [
  | yes e ↦
      move_down-other d s n (d + i) _ (inr (omega (arith, e)))
      ∙ poke_self m (d + n) (d + i) (m (s + n)) (omega (arith, e))
      ∙ ap (λ x. m (s + x)) (omega (arith, e))
  | no ne ↦
      move_down-at d s n i _ h (omega arith) ∙ poke_ne m (d + n) (s + i) (m (s + n)) (omega arith)
]

move_up-other : (d s n a : ℕ) (m : Bytes) → IsOutside d n a → move_up d s n m a ≡ m a
unfolding move_up
move_up-other d s zero a m o = refl
move_up-other d s (suc n) a m o =
    move_up-other (d + 1) (s + 1) n a _ (ground arith) ∙ poke_ne m d a (m s) (ground arith)

move_up-at :
    (d s n i : ℕ) (m : Bytes) → (d ≤ s) ⊎ (s + n ≤ d) → i < n → move_up d s n m (d + i) ≡ m (s + i)
unfolding move_up
move_up-at d s zero i m h lt = absurd (omega arith)
move_up-at d s (suc n) zero m h lt =
    ap (move_up (d + 1) (s + 1) n (poke m d (m s))) (omega arith)
    ∙ move_up-other (d + 1) (s + 1) n d (poke m d (m s)) (inl (omega arith))
    ∙ poke_self m d d (m s) refl
    ∙ ap m (omega arith)
move_up-at d s (suc n) (suc i) m h lt =
    ap (move_up (d + 1) (s + 1) n (poke m d (m s))) (omega arith)
    ∙ move_up-at (d + 1) (s + 1) n i (poke m d (m s)) (ground arith) (omega arith)
    ∙ poke_ne m d (s + 1 + i) (m s) (ground arith)
    ∙ ap m (omega arith)

-- Whether the two ranges overlap or not, `memmove` makes the `n` bytes from `dst` on what those from
-- `src` on were, and changes no other byte.
pub memmove_lem :
    (dst src n : ℕ) (m : Bytes)
    → ((i : ℕ) → i < n → memmove dst src n m (dst + i) ≡ m (src + i))
      × ((a : ℕ) → IsOutside dst n a → memmove dst src n m a ≡ m a)
unfolding memmove
memmove_lem dst src n m = elim (Bool-cases (ltb src dst && ltb dst (src + n))) [
  | inl t ↦
      rw t
        (λ i lt. move_down-at dst src n i m (overlap t) lt, λ a o. move_down-other dst src n a m o)
  | inr t ↦
      rw t (λ i lt. move_up-at dst src n i m (apart t) lt, λ a o. move_up-other dst src n a m o)
]
  where
    overlap : (ltb src dst && ltb dst (src + n)) ≡ true → src < dst
    overlap t = ground arith

    apart : (ltb src dst && ltb dst (src + n)) ≡ false → (dst ≤ src) ⊎ (src + n ≤ dst)
    apart t = ground arith
