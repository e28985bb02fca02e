-- ===== src/Content/Bits.antt =====
-- Bits of the free map.
use os_ex.Shared.{ℕ, zero, suc, ◌+◌, ◌*◌, ◌/◌, ◌%◌, ◌≤◌, ◌≡◌, ◌≢◌, refl, ap, ◌∙◌, arith}
use os_ex.Content.{Data, bit, set_bit, clear_bit, bit_at, mark_at, unmark_at}
use native.Mathlib.Decide.{ℕ_discrete}

pub bit_bound : (w r : ℕ) → bit w r ≤ 1
bit_bound w zero = omega arith
bit_bound w (suc r) = bit_bound (w / 2) r

bit-set_bit_self : (w r : ℕ) → bit (set_bit w r) r ≡ 1
bit-set_bit_self w zero = omega arith
bit-set_bit_self w (suc r) =
    let half : (set_bit (w / 2) r * 2 + w % 2) / 2 ≡ set_bit (w / 2) r = omega arith in
    ap (λ x. bit x r) half ∙ bit-set_bit_self (w / 2) r

bit-set_bit_ne : (w r x : ℕ) → x ≢ r → bit (set_bit w r) x ≡ bit w x
bit-set_bit_ne w zero zero ne = absurd (ne refl)
bit-set_bit_ne w zero (suc x) ne =
    let half : (w / 2 * 2 + 1) / 2 ≡ w / 2 = omega arith in ap (λ y. bit y x) half
bit-set_bit_ne w (suc r) zero ne = omega arith
bit-set_bit_ne w (suc r) (suc x) ne =
    let half : (set_bit (w / 2) r * 2 + w % 2) / 2 ≡ set_bit (w / 2) r = omega arith in
    ap (λ y. bit y x) half ∙ bit-set_bit_ne (w / 2) r x (λ e. ne (ap suc e))

bit-clear_bit_self : (w r : ℕ) → bit (clear_bit w r) r ≡ 0
bit-clear_bit_self w zero = omega arith
bit-clear_bit_self w (suc r) =
    let half : (clear_bit (w / 2) r * 2 + w % 2) / 2 ≡ clear_bit (w / 2) r = omega arith in
    ap (λ x. bit x r) half ∙ bit-clear_bit_self (w / 2) r

bit-clear_bit_ne : (w r x : ℕ) → x ≢ r → bit (clear_bit w r) x ≡ bit w x
bit-clear_bit_ne w zero zero ne = absurd (ne refl)
bit-clear_bit_ne w zero (suc x) ne =
    let half : w / 2 * 2 / 2 ≡ w / 2 = omega arith in ap (λ y. bit y x) half
bit-clear_bit_ne w (suc r) zero ne = omega arith
bit-clear_bit_ne w (suc r) (suc x) ne =
    let half : (clear_bit (w / 2) r * 2 + w % 2) / 2 ≡ clear_bit (w / 2) r = omega arith in
    ap (λ y. bit y x) half ∙ bit-clear_bit_ne (w / 2) r x (λ e. ne (ap suc e))

mark_byte : (d : Data) (i x : ℕ) → x ≡ i / 8 → mark_at d i x ≡ set_bit (d x) (i % 8)
mark_byte d i x e = ground arith

mark_other_byte : (d : Data) (i x : ℕ) → x ≢ i / 8 → mark_at d i x ≡ d x
mark_other_byte d i x e = ground arith

unmark_byte : (d : Data) (i x : ℕ) → x ≡ i / 8 → unmark_at d i x ≡ clear_bit (d x) (i % 8)
unmark_byte d i x e = ground arith

unmark_other_byte : (d : Data) (i x : ℕ) → x ≢ i / 8 → unmark_at d i x ≡ d x
unmark_other_byte d i x e = ground arith

pub bit_at-mark_at_self : (d : Data) (i : ℕ) → bit_at (mark_at d i) i ≡ 1
bit_at-mark_at_self d i =
    ap (λ w. bit w (i % 8)) (mark_byte d i (i / 8) refl) ∙ bit-set_bit_self (d (i / 8)) (i % 8)

pub bit_at-mark_at_ne : (d : Data) (i x : ℕ) → x ≢ i → bit_at (mark_at d i) x ≡ bit_at d x
bit_at-mark_at_ne d i x ne = elim (ℕ_discrete (x / 8) (i / 8)) [
  | yes same ↦
      ap (λ w. bit w (x % 8)) (mark_byte d i (x / 8) same)
      ∙ bit-set_bit_ne (d (x / 8)) (i % 8) (x % 8) (omega arith)
  | no other ↦ ap (λ w. bit w (x % 8)) (mark_other_byte d i (x / 8) other)
]

pub bit_at-unmark_at_self : (d : Data) (i : ℕ) → bit_at (unmark_at d i) i ≡ 0
bit_at-unmark_at_self d i =
    ap (λ w. bit w (i % 8)) (unmark_byte d i (i / 8) refl) ∙ bit-clear_bit_self (d (i / 8)) (i % 8)

pub bit_at-unmark_at_ne : (d : Data) (i x : ℕ) → x ≢ i → bit_at (unmark_at d i) x ≡ bit_at d x
bit_at-unmark_at_ne d i x ne = elim (ℕ_discrete (x / 8) (i / 8)) [
  | yes same ↦
      ap (λ w. bit w (x % 8)) (unmark_byte d i (x / 8) same)
      ∙ bit-clear_bit_ne (d (x / 8)) (i % 8) (x % 8) (omega arith)
  | no other ↦ ap (λ w. bit w (x % 8)) (unmark_other_byte d i (x / 8) other)
]
