-- ===== src/Paths/Elements.antt =====
-- `skipelem` of code/fs.c takes the first element off a path.
use os_ex.Shared.{
  ℕ, zero, suc, ◌+◌, ◌-◌, ◌<◌, ◌≤◌, ◌≡◌, ◌≢◌, ◌==◌, leb, Bool-cases, inl, inr, refl, Bool, true,
  false, some, arith, ◌∙◌, ap,
}
use os_ex.Strings.{Bytes, memmove}
use os_ex.Strings.Moves.{IsOutside, poke_self, poke_ne, memmove_lem}
use os_ex.Paths.{dirsiz, skip_while, is_slash, is_name, put_name, take_element, skipelem}

-- The test holds of the `n` bytes from `path` on, and not of the next.
pub record Spans (t : ℕ → Bool) (path n : ℕ) (m : Bytes) : Type 0 where
  pub inside : (i : ℕ) → i < n → t (m (path + i)) ≡ true
  pub ends : t (m (path + n)) ≡ false

skip_while-Spans :
    (t : ℕ → Bool) (fuel path n : ℕ) (m : Bytes)
    → n < fuel
    → Spans t path n m
    → skip_while t fuel path m ≡ path + n
unfolding skip_while
skip_while-Spans t zero path n m h s = absurd (omega arith)
skip_while-Spans t (suc fuel) path zero m h s = rw (here) (omega arith)
  where
    here : t (m path) ≡ false
    here = ap (λ x. t (m x)) (omega arith) ∙ s.ends
skip_while-Spans t (suc fuel) path (suc n) m h s = rw (here) (
    skip_while-Spans t fuel (path + 1) n m (omega arith) (record {
      inside = λ i lt. ap (λ x. t (m x)) (omega arith) ∙ s.inside (suc i) (omega arith);
      ends = ap (λ x. t (m x)) (omega arith) ∙ s.ends;
    })
    ∙ omega arith)
  where
    here : t (m path) ≡ true
    here = ap (λ x. t (m x)) (omega arith) ∙ s.inside 0 (omega arith)

-- What `put_name` leaves: the bytes of the element, as many as fit, an end if there is room.
put_name-Named :
    (name s len : ℕ) (m : Bytes)
    → ((i : ℕ) → i < len → i < dirsiz → put_name name s len m (name + i) ≡ m (s + i))
      × (len < dirsiz → put_name name s len m (name + len) ≡ 0)
      × ((a : ℕ) → IsOutside name dirsiz a → put_name name s len m a ≡ m a)
unfolding put_name
put_name-Named name s len m = elim (Bool-cases (leb dirsiz len)) [
  | inl long ↦
      let (moved, kept) = memmove_lem name s dirsiz m in
      rw long (λ i lt fits. moved i fits, λ short. absurd (not_both long short), kept)
  | inr short ↦
      let (moved, kept) = memmove_lem name s len m in
      rw short (
        λ i lt fits.
            poke_ne (memmove name s len m) (name + len) (name + i) 0 (omega arith) ∙ moved i lt,
        λ h. poke_self (memmove name s len m) (name + len) (name + len) 0 refl,
        λ a o.
            poke_ne (memmove name s len m) (name + len) a 0 (apart short o)
            ∙ kept a (outside short o),
      )
]
  where
    not_both : leb dirsiz len ≡ true → len < dirsiz → ⊥
    not_both h lt = ground arith

    apart : {a : ℕ} → leb dirsiz len ≡ false → IsOutside name dirsiz a → a ≢ name + len
    apart h o = ground arith

    outside : {a : ℕ} → leb dirsiz len ≡ false → IsOutside name dirsiz a → IsOutside name len a
    outside h o = ground arith

is_name-true : (c : ℕ) → is_name c ≡ true → (c == 0) ≡ false
is_name-true c h = ground arith

-- Changes elsewhere leave a span.
Spans-kept :
    (t : ℕ → Bool) (path n : ℕ) (m m' : Bytes)
    → ((a : ℕ) → path ≤ a → a ≤ path + n → m' a ≡ m a)
    → Spans t path n m
    → Spans t path n m'
Spans-kept t path n m m' kept s = record {
  inside = λ i lt. ap t (kept (path + i) (omega arith) (omega arith)) ∙ s.inside i lt;
  ends = ap t (kept (path + n) (omega arith) (omega arith)) ∙ s.ends;
}

-- What `skipelem` leaves of the memory: the element's bytes at `name`, as many as fit, with an end if
-- there is room, and nothing else changed.
pub record Named (name s len : ℕ) (m m' : Bytes) : Type 0 where
  pub bytes : (i : ℕ) → i < len → i < dirsiz → m' (name + i) ≡ m (s + i)
  pub end : len < dirsiz → m' (name + len) ≡ 0
  pub others : (a : ℕ) → IsOutside name dirsiz a → m' a ≡ m a

take_element-some :
    (fuel s len name : ℕ) (m : Bytes)
    → (m s == 0) ≡ false
    → take_element fuel s (s + len) name m
      ≡ (some (skip_while is_slash fuel (s + len) (put_name name s len m)), put_name name s len m)
unfolding take_element
take_element-some fuel s len name m more = rw (more, length_is) refl
  where
    length_is : s + len - s ≡ len
    length_is = omega arith

-- Let a path be slashes, an element that is not empty, and slashes up to another byte, none of it
-- among the bytes for the name. With more fuel than each of the three is long, `skipelem` returns the
-- path behind them, and puts the element at `name`, or its first bytes if it is longer.
pub skipelem_lem :
    (fuel path name k len j : ℕ) (m : Bytes)
    → k < fuel
    → len < fuel
    → j < fuel
    → 0 < len
    → Spans is_slash path k m
    → Spans is_name (path + k) len m
    → Spans is_slash (path + k + len) j m
    → ((a : ℕ) → path ≤ a → a ≤ path + k + len + j → IsOutside name dirsiz a)
    → (m' : Bytes) × (skipelem fuel path name m ≡ (some (path + k + len + j), m'))
      × Named name (path + k) len m m'
unfolding skipelem
skipelem_lem fuel path name k len j m hk hl hj some_byte before element after apart =
    let s = path + k in
    let m' = put_name name s len m in
    let (bytes, end, others) = put_name-Named name s len m in
    (
      m',
      ap (λ x. take_element fuel x (skip_while is_name fuel x m) name m)
            (skip_while-Spans is_slash fuel path k m hk before)
          ∙ ap (λ x. take_element fuel s x name m)
              (skip_while-Spans is_name fuel s len m hl element)
          ∙ take_element-some fuel s len name m not_end
          ∙ ap (λ x. (some x, m'))
              (skip_while-Spans is_slash fuel (s + len) j m' hj (
                Spans-kept is_slash (s + len) j m m'
                  (λ a lo hi. others a (apart a (omega arith) hi)) after)),
      record { bytes = bytes; end = end; others = others },
    )
  where
    not_end : (m (path + k) == 0) ≡ false
    not_end =
        is_name-true (m (path + k))
          (ap (λ x. is_name (m x)) (omega arith) ∙ element.inside 0 some_byte)
