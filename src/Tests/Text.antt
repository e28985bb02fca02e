-- ===== src/Tests/Text.antt =====
-- Tests of the string functions.
use os_ex.Shared.{ℕ, ◌+◌, ◌<◌, ◌≡◌, ◌↔◌, refl, get_or, ◌∷◌, [], pos}
use os_ex.Strings.{
  Bytes, memmove, memcmp, memset, move_down, poke, strncmp, strlen, strlen_from, strncpy, pad,
  safestrcpy, safe_copy,
}
use os_ex.Strings.Moves.{IsOutside, memmove_lem}
use os_ex.Strings.Copies.{IsSame, strncmp_lem}

-- "abc" at 0 and "abd" at 4
abbrev text : Bytes
text a = get_or (97 ∷ 98 ∷ 99 ∷ 0 ∷ 97 ∷ 98 ∷ 100 ∷ 0 ∷ []) a 7

memmove_lem_example :
    ((i : ℕ) → i < 3 → memmove 1 0 3 text (1 + i) ≡ text (0 + i))
    × ((a : ℕ) → IsOutside 1 3 a → memmove 1 0 3 text a ≡ text a)
memmove_lem_example = memmove_lem 1 0 3 text

overlapping_move : memmove 1 0 3 text 3 ≡ 99
unfolding memmove move_down poke
overlapping_move = refl

strncmp_lem_example : (strncmp 0 4 2 text ≡ pos 0) ↔ IsSame 0 4 2 text
strncmp_lem_example = strncmp_lem 0 4 2 text

same_start : strncmp 0 4 2 text ≡ pos 0
unfolding strncmp
same_start = refl

length_of_text : strlen 10 1 text ≡ 2
unfolding strlen strlen_from
length_of_text = refl

equal_bytes : memcmp 0 4 2 text ≡ pos 0
unfolding memcmp
equal_bytes = refl

filled : memset 0 300 2 text 1 ≡ 44
unfolding memset poke
filled = refl

padded : strncpy 8 2 3 text 10 ≡ 0
unfolding strncpy pad poke
padded = refl

safe_copy_of_text : safestrcpy 4 0 3 text 6 ≡ 0
unfolding safestrcpy safe_copy poke
safe_copy_of_text = refl
