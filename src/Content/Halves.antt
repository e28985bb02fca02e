-- ===== src/Content/Halves.antt =====
-- Halves and words of a block of code/fs.c: what reads back, and what stays.

use os_ex.Shared.{
  ℕ, zero, suc, ◌+◌, ◌*◌, ◌%◌, ◌^◌, ◌<◌, ◌≤◌, ◌≡◌, ◌≢◌, refl, ap, ◌∙◌, ◌⊎◌, inl, ℤ, pos_part,
  neg_part, to_bits, List, [], ◌∷◌, All, length, arith,
}
use os_ex.Content.{Data, word_at, put_word}
use os_ex.Content.Dinode.{half_at, put_half, of_half, put_words, words_at}

pub put_half_self : (d : Data) (i w : ℕ) → half_at (put_half d i w) i ≡ w % 2 ^ 16
put_half_self d i w = ground arith

pub put_half_other : (d : Data) (i h w : ℕ) → h ≢ i → half_at (put_half d i w) h ≡ half_at d h
put_half_other d i h w ne = ground arith

pub put_half_byte : (d : Data) (i w x : ℕ) → (x < 2 * i) ⊎ (2 * i + 2 ≤ x) → put_half d i w x ≡ d x
put_half_byte d i w x out = ground arith

pub put_word_byte : (d : Data) (i w x : ℕ) → (x < 4 * i) ⊎ (4 * i + 4 ≤ x) → put_word d i w x ≡ d x
put_word_byte d i w x out = ground arith

pub put_words_byte :
    (d : Data) (i : ℕ) (ws : List ℕ) (x : ℕ)
    → (x < 4 * i) ⊎ (4 * i + 4 * length ws ≤ x)
    → put_words d i ws x ≡ d x
put_words_byte d i [] x out = refl
put_words_byte d i (w ∷ ws) x out =
    put_words_byte (put_word d i w) (i + 1) ws x (ground arith)
    ∙ put_word_byte d i w x (ground arith)

pub put_word_self : (d : Data) (i w : ℕ) → w < 2 ^ 32 → word_at (put_word d i w) i ≡ w
put_word_self d i w lt = ground arith

-- A half or a word that lies before what is written.
pub half_before :
    (d d' : Data) (h : ℕ)
    → d' (2 * h) ≡ d (2 * h)
    → d' (2 * h + 1) ≡ d (2 * h + 1)
    → half_at d' h ≡ half_at d h
half_before d d' h a b = omega (arith, a, b)

pub word_same :
    (d d' : Data) (i : ℕ)
    → ((x : ℕ) → 4 * i ≤ x → x < 4 * i + 4 → d' x ≡ d x)
    → word_at d' i ≡ word_at d i
word_same d d' i h = omega (
  arith,
  h (4 * i) (omega arith) (omega arith),
  h (4 * i + 1) (omega arith) (omega arith),
  h (4 * i + 2) (omega arith) (omega arith),
  h (4 * i + 3) (omega arith) (omega arith),
)

pub words_at-put_words :
    (d : Data) (i : ℕ) (ws : List ℕ)
    → All (λ w. w < 2 ^ 32) ws
    → words_at (put_words d i ws) i (length ws) ≡ ws
words_at-put_words d i [] small = refl
words_at-put_words d i (w ∷ ws) small =
    ap (λ x. x ∷ words_at (put_words (put_word d i w) (i + 1) ws) (i + 1) (length ws))
      (word_same (put_word d i w) (put_words (put_word d i w) (i + 1) ws) i
          (λ x lo hi. put_words_byte (put_word d i w) (i + 1) ws x (inl (omega arith)))
        ∙ put_word_self d i w small.0)
    ∙ ap (λ l. w ∷ l) (words_at-put_words (put_word d i w) (i + 1) ws small.1)

pub words_same :
    (d d' : Data) (i n : ℕ)
    → ((x : ℕ) → 4 * i ≤ x → x < 4 * i + 4 * n → d' x ≡ d x)
    → words_at d' i n ≡ words_at d i n
words_same d d' i zero h = refl
words_same d d' i (suc n) h =
    ap (λ x. x ∷ words_at d' (i + 1) n) (word_same d d' i (λ x lo hi. h x lo (omega arith)))
    ∙ ap (λ l. word_at d i ∷ l)
        (words_same d d' (i + 1) n (λ x lo hi. h x (omega arith) (omega arith)))

-- The values of a `short`, and of the fields of an inode.
abbrev pub IsShort : ℤ → Type 0
IsShort a = (pos_part a < 2 ^ 15) × (neg_part a ≤ 2 ^ 15)

pub of_half-to_bits : (a : ℤ) → IsShort a → of_half (to_bits a % 2 ^ 16) ≡ a
of_half-to_bits a h = ground arith
