-- ===== src/Content/Patches.antt =====
-- The bytes of a file after a part of them is written, and the blocks that a rest of the bytes takes.
use os_ex.Shared.{
  ℕ, suc, ◌+◌, ◌-◌, ◌%◌, ◌<◌, ◌≤◌, ◌≡◌, refl, sym, ap, ◌∙◌, Bool-cases, inl, inr, ◌⊎◌, leb, ltb,
  ◌&&◌, List, [], ◌++◌, length, length-append, get_or, get_or-append_left, get_or-append_right,
  arith,
}
use os_ex.Content.{block_size}
use os_ex.Content.Reading.{blocks_of}
use os_ex.Content.Store.{patched, patched_outside}

pub patched_nil : (off : ℕ) (old : ℕ → ℕ) (i : ℕ) → patched off [] old i ≡ old i
patched_nil off old i = patched_outside off [] old i (λ low high. absurd (omega arith))

pub patched_here :
    (off : ℕ) (bs : List ℕ) (old : ℕ → ℕ) (i : ℕ)
    → off ≤ i
    → i < off + length bs
    → patched off bs old i ≡ get_or bs (i - off) 0
patched_here off bs old i low high = ground arith

pub patched_same :
    (off : ℕ) (bs : List ℕ) (old old' : ℕ → ℕ) (i : ℕ)
    → old i ≡ old' i
    → patched off bs old i ≡ patched off bs old' i
patched_same off bs old old' i e = rw e refl

pub patched-append :
    (off : ℕ) (here rest : List ℕ) (old : ℕ → ℕ) (i : ℕ)
    → patched (off + length here) rest (λ j. patched off here old j) i
      ≡ patched off (here ++ rest) old i
patched-append off here rest old i =
    let both = length-append here rest in
    elim (Bool-cases (leb off i && ltb i (off + length (here ++ rest)))) [
      | inr out ↦
          patched_outside (off + length here) rest (λ j. patched off here old j) i
            (λ low high. absurd (ground (arith, both)))
          ∙ patched_outside off here old i (λ low high. absurd (ground (arith, both)))
          ∙ sym (patched_outside off (here ++ rest) old i (λ low high. absurd (ground arith)))
      | inl in_range ↦ elim (Bool-cases (ltb i (off + length here))) [
        | inl first ↦
            patched_outside (off + length here) rest (λ j. patched off here old j) i
              (λ low high. absurd (ground arith))
            ∙ patched_here off here old i (ground arith) (ground arith)
            ∙ sym (get_or-append_left here rest (i - off) 0 (ground arith))
            ∙ sym (patched_here off (here ++ rest) old i (ground arith) (ground arith))
        | inr second ↦
            let place : i - off ≡ length here + (i - (off + length here)) = ground arith in
            patched_here (off + length here) rest (λ j. patched off here old j) i (ground arith)
              (ground (arith, both))
            ∙ sym (get_or-append_right here rest (i - (off + length here)) 0)
            ∙ ap (λ j. get_or (here ++ rest) j 0) (sym place)
            ∙ sym (patched_here off (here ++ rest) old i (ground arith) (ground arith))
      ]
    ]

pub rounds_left :
    (off here rest l l' : ℕ)
    → 0 < here
    → here ≤ block_size - off % block_size
    → (here ≡ block_size - off % block_size) ⊎ (rest ≡ 0)
    → blocks_of off (here + rest) + blocks_of off (here + rest) ≤ l
    → l ≤ l' + 2
    → blocks_of (off + here) rest + blocks_of (off + here) rest ≤ l'
rounds_left off here rest l l' some_here short full enough count = ground arith

pub rounds_used :
    (off here rest l l' l2 : ℕ)
    → 0 < here
    → here ≤ block_size - off % block_size
    → l ≤ l' + 2
    → l' ≤ l2 + blocks_of (off + here) rest + blocks_of (off + here) rest
    → (here ≡ block_size - off % block_size) ⊎ (rest ≡ 0)
    → l ≤ l2 + blocks_of off (here + rest) + blocks_of off (here + rest)
rounds_used off here rest l l' l2 some_here short count count2 full = ground arith

-- The blocks of a range are the first and those of the rest.
pub one_more :
    (off here rest k n : ℕ)
    → 0 < here
    → here ≤ block_size - off % block_size
    → (here ≡ block_size - off % block_size) ⊎ (rest ≡ 0)
    → n ≡ here + rest
    → k + blocks_of off n ≡ suc (k + blocks_of (off + here) rest)
one_more off here rest k n some_here short full both = ground arith
