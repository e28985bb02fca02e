-- ===== src/Log/Header.antt =====
-- The header block of code/log.c: what `read_head` reads is what `write_head` wrote.
use os_ex.Shared.{
  ℕ, zero, suc, ◌+◌, ◌<◌, ◌≤◌, ◌≡◌, refl, List, set, get_or, length, length-set, get_or-set_self,
  get_or-set_ne, arith, ◌∙◌,
}
use native.Mathlib.Decide.{ℕ_discrete}
use os_ex.Disk.{Block}
use os_ex.Log.{put_blocks, get_blocks}

length-put_blocks :
    (block : List ℕ) (n i : ℕ) (hb : Block) → length (put_blocks block n i hb) ≡ length hb
unfolding put_blocks
length-put_blocks block zero i hb = refl
length-put_blocks block (suc n) i hb =
    length-put_blocks block n (suc i) (set hb (i + 1) (get_or block i 0))
    ∙ length-set hb (i + 1) (get_or block i 0)

-- Words up to `i` stay.
put_blocks-below :
    (block : List ℕ) (n i j : ℕ) (hb : Block)
    → j ≤ i
    → get_or (put_blocks block n i hb) j 0 ≡ get_or hb j 0
unfolding put_blocks
put_blocks-below block zero i j hb h = refl
put_blocks-below block (suc n) i j hb h =
    put_blocks-below block n (suc i) j (set hb (i + 1) (get_or block i 0)) (omega arith)
    ∙ get_or-set_ne hb (i + 1) j (get_or block i 0) 0 (omega arith)

put_blocks-at :
    (block : List ℕ) (n i m : ℕ) (hb : Block)
    → i + n < length hb
    → i ≤ m
    → m < i + n
    → get_or (put_blocks block n i hb) (m + 1) 0 ≡ get_or block m 0
unfolding put_blocks
put_blocks-at block zero i m hb fits lo hi = absurd (omega arith)
put_blocks-at block (suc n) i m hb fits lo hi = elim (ℕ_discrete i m) [
  | yes e ↦
      put_blocks-below block n (suc i) (m + 1) (set hb (i + 1) (get_or block i 0)) (omega arith)
      ∙ rw (← e) (get_or-set_self hb (i + 1) (get_or block i 0) 0 (omega arith))
  | no ne ↦
      put_blocks-at block n (suc i) m (set hb (i + 1) (get_or block i 0))
        (omega (arith, length-set hb (i + 1) (get_or block i 0))) (omega arith) (omega arith)
]

get_blocks-below :
    (hb : Block) (n i m : ℕ) (block : List ℕ)
    → m < i
    → get_or (get_blocks hb n i block) m 0 ≡ get_or block m 0
unfolding get_blocks
get_blocks-below hb zero i m block h = refl
get_blocks-below hb (suc n) i m block h =
    get_blocks-below hb n (suc i) m (set block i (get_or hb (i + 1) 0)) (omega arith)
    ∙ get_or-set_ne block i m (get_or hb (i + 1) 0) 0 (omega arith)

-- `read_head` takes the numbers from the words behind the count.
pub get_blocks-at :
    (hb : Block) (n i m : ℕ) (block : List ℕ)
    → i + n ≤ length block
    → i ≤ m
    → m < i + n
    → get_or (get_blocks hb n i block) m 0 ≡ get_or hb (m + 1) 0
unfolding get_blocks
get_blocks-at hb zero i m block fits lo hi = absurd (omega arith)
get_blocks-at hb (suc n) i m block fits lo hi = elim (ℕ_discrete i m) [
  | yes e ↦
      get_blocks-below hb n (suc i) m (set block i (get_or hb (i + 1) 0)) (omega arith)
      ∙ rw (← e) (get_or-set_self block i (get_or hb (i + 1) 0) 0 (omega arith))
  | no ne ↦
      get_blocks-at hb n (suc i) m (set block i (get_or hb (i + 1) 0))
        (omega (arith, length-set block i (get_or hb (i + 1) 0))) (omega arith) (omega arith)
]

-- What `write_head` puts in a block that is large enough: the count, then the numbers.
pub header-count :
    (block : List ℕ) (n : ℕ) (hb : Block)
    → 0 < length hb
    → get_or (put_blocks block n 0 (set hb 0 n)) 0 0 ≡ n
header-count block n hb fits =
    put_blocks-below block n 0 0 (set hb 0 n) (omega arith) ∙ get_or-set_self hb 0 n 0 fits

pub header-at :
    (block : List ℕ) (n m : ℕ) (hb : Block)
    → n < length hb
    → m < n
    → get_or (put_blocks block n 0 (set hb 0 n)) (m + 1) 0 ≡ get_or block m 0
header-at block n m hb fits hi =
    put_blocks-at block n 0 m (set hb 0 n) (omega (arith, length-set hb 0 n)) (omega arith)
      (omega arith)

pub length-get_blocks :
    (hb : Block) (n i : ℕ) (block : List ℕ) → length (get_blocks hb n i block) ≡ length block
unfolding get_blocks
length-get_blocks hb zero i block = refl
length-get_blocks hb (suc n) i block =
    length-get_blocks hb n (suc i) (set block i (get_or hb (i + 1) 0))
    ∙ length-set block i (get_or hb (i + 1) 0)
