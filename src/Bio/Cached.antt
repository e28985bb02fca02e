-- ===== src/Bio/Cached.antt =====
-- The buffer cache of code/bio.c: no block has two buffers, and an unused clean buffer has the
-- contents of its block.
use os_ex.Shared.{
  ℕ, ◌≡◌, ◌≢◌, ◌⊎◌, ◌==◌, inl, inr, refl, Bool, true, false, List, [], ◌∷◌, All, Bool-cases, none,
  some, get_elem?, modify, get_elem?-modify_self, get_elem?-modify_ne, some-injective, arith, ◌∙◌,
  ap, sym, subst, Option,
}
use native.Mathlib.Decide.{ℕ_discrete}
use os_ex.Disk.{Block}
use os_ex.Bio.{Buf, Bcache, find_buf, test_buf, without, change_buf}

abbrev pub Contains : ℕ → List ℕ → Type 0
Contains i [] = ⊥
Contains i (x ∷ xs) = (i ≡ x) ⊎ Contains i xs

pub All-Contains : (P : ℕ → Type 0) (i : ℕ) (xs : List ℕ) → All P xs → Contains i xs → P i
All-Contains P i [] a c = elim c [ ]
All-Contains P i (x ∷ xs) a (inl e) = subst P (sym e) a.0
All-Contains P i (x ∷ xs) a (inr c) = All-Contains P i xs a.1 c

pub find_buf-cases :
    (t : ℕ → Bool) (xs : List ℕ)
    → ((find_buf t xs ≡ none) × All (λ x. t x ≡ false) xs)
      ⊎ ((i : ℕ) × (find_buf t xs ≡ some i) × (t i ≡ true))
find_buf-cases t [] = inl (refl, tt)
find_buf-cases t (x ∷ xs) = elim (Bool-cases (t x)) [
  | inl hit ↦ rw hit (inr (x, refl, hit))
  | inr miss ↦ rw miss (elim (find_buf-cases t xs) [
    | inl (e, a) ↦ inl (e, (refl, a))
    | inr (i, e, h) ↦ inr (i, e, h)
  ])
]

pub Contains-without : (i j : ℕ) (xs : List ℕ) → Contains j xs → Contains j (i ∷ without i xs)
Contains-without i j [] c = elim c [ ]
Contains-without i j (x ∷ xs) (inl e) = elim (ℕ_discrete x i) [
  | yes q ↦ inl (e ∙ q)
  | no ne ↦ inr (rw (differ ne) (inl e))
]
  where
    differ : x ≢ i → (x == i) ≡ false
    differ ne = ground arith
Contains-without i j (x ∷ xs) (inr c) = elim (ℕ_discrete x i) [
  | yes q ↦ rw (same q) (Contains-without i j xs c)
  | no ne ↦ elim (Contains-without i j xs c) [
    | inl e ↦ inl e
    | inr d ↦ inr (rw (differ ne) (inr d))
  ]
]
  where
    same : x ≡ i → (x == i) ≡ true
    same q = ground arith

    differ : x ≢ i → (x == i) ≡ false
    differ ne = ground arith

-- Buffer `i`.
abbrev pub IsBuf : Bcache → ℕ → Buf → Type 0
IsBuf c i b = get_elem? c.bufs i ≡ some b

-- The buffer is for a block of the disk, which has the number 1.
abbrev pub IsFor : ℕ → Buf → Type 0
IsFor blockno b = (b.dev ≡ 1) × (b.blockno ≡ blockno)

pub record IsCache (c : Bcache) : Type 0 where
  pub linked : (i : ℕ) (b : Buf) → IsBuf c i b → Contains i c.order
  pub unique :
      (i j n : ℕ) (b b' : Buf) → IsBuf c i b → IsBuf c j b' → IsFor n b → IsFor n b' → i ≡ j
  pub clean :
      (i n : ℕ) (b : Buf)
      → IsBuf c i b
      → IsFor n b
      → b.valid ≡ true
      → b.dirty ≡ false
      → b.refcnt ≡ 0
      → b.bytes ≡ c.memdisk n
  pub whole : (i : ℕ) (b : Buf) → IsBuf c i b → b.dirty ≡ true → b.valid ≡ true

-- What a process sees of a block: the buffer with its contents, or the disk if there is none.
pub data Shows (c : Bcache) (n : ℕ) (v : Block) : Type 0 where
  cached : (i : ℕ) (b : Buf) → IsBuf c i b → IsFor n b → b.valid ≡ true → b.bytes ≡ v → Shows c n v
  on_disk :
      ((i : ℕ) (b : Buf) → IsBuf c i b → IsFor n b → b.valid ≡ false)
      → c.memdisk n ≡ v
      → Shows c n v

-- A block shows one content.
pub Shows-unique :
    (c : Bcache) (n : ℕ) (v w : Block) → IsCache c → Shows c n v → Shows c n w → v ≡ w
Shows-unique c n v w k (cached i b at is ok p) (cached j b' at' is' ok' p') =
    sym p
    ∙ ap (λ x. x.bytes)
        (some-injective b b'
          (sym at ∙ ap (get_elem? c.bufs) (k.unique i j n b b' at at' is is') ∙ at'))
    ∙ p'
Shows-unique c n v w k (cached i b at is ok p) (on_disk none' p') = cc (ok, none' i b at is)
Shows-unique c n v w k (on_disk none' p) (cached j b' at' is' ok' p') = cc (ok', none' j b' at' is')
Shows-unique c n v w k (on_disk none' p) (on_disk none'' p') = sym p ∙ p'

-- A changed buffer, and the others.
pub change_buf-cases :
    (c : Bcache) (i : ℕ) (f : Buf → Buf) (b : Buf) (j : ℕ) (x : Buf)
    → IsBuf c i b
    → IsBuf (change_buf i f c) j x
    → ((j ≡ i) × (x ≡ f b)) ⊎ ((j ≢ i) × IsBuf c j x)
change_buf-cases c i f b j x at new = elim (ℕ_discrete j i) [
  | yes e ↦ inl (
    e,
    some-injective x (f b)
        (sym new ∙ ap (get_elem? (modify c.bufs i f)) e ∙ get_elem?-modify_self c.bufs i f b at),
  )
  | no ne ↦ inr (ne, sym (get_elem?-modify_ne c.bufs i j f (λ q. ne (sym q))) ∙ new)
]

pub test_buf-true :
    (t : Buf → Bool) (c : Bcache) (i : ℕ)
    → test_buf t c i ≡ true
    → (b : Buf) × IsBuf c i b × (t b ≡ true)
test_buf-true t c i h = found (get_elem? c.bufs i) refl h
  where
    found :
        (o : Option Buf)
        → get_elem? c.bufs i ≡ o
        → test_buf t c i ≡ true
        → (b : Buf) × IsBuf c i b × (t b ≡ true)
    found none e h = ground arith
    found (some b) e h = (b, e, rw (test_buf, e) at h)

-- The change leaves what the buffer says of its block, and does not drop the last reference.
pub record Keeps (b b' : Buf) : Type 0 where
  pub dev : b'.dev ≡ b.dev
  pub blockno : b'.blockno ≡ b.blockno
  pub valid : b'.valid ≡ b.valid
  pub dirty : b'.dirty ≡ b.dirty
  pub bytes : b'.bytes ≡ b.bytes
  pub refcnt : b'.refcnt ≡ 0 → b.refcnt ≡ 0

Keeps-refl : (b : Buf) → Keeps b b
Keeps-refl b = record {
  dev = refl;
  blockno = refl;
  valid = refl;
  dirty = refl;
  bytes = refl;
  refcnt = λ q. q;
}

module _ (c : Bcache) (i : ℕ) (f : Buf → Buf) (b : Buf) (at : IsBuf c i b)
    (keeps : Keeps b (f b)) where
  abbrev changed : Bcache
  changed = change_buf i f c

  -- a buffer of the changed cache was in the cache
  before : (j : ℕ) (x : Buf) → IsBuf changed j x → (y : Buf) × IsBuf c j y × Keeps y x
  before j x e = elim (change_buf-cases c i f b j x at e) [
    | inl (q, r) ↦ (b, ap (get_elem? c.bufs) q ∙ at, subst (Keeps b) (sym r) keeps)
    | inr (ne, there) ↦ (x, there, Keeps-refl _)
  ]

  pub Keeps-IsCache : IsCache c → IsCache changed
  Keeps-IsCache k = record {
    linked = λ j x e. let (y, was, s) = before j x e in k.linked j y was;
    unique = λ j j' n x x' e e' is is'.
        let (y, was, s) = before j x e in
        let (y', was', s') = before j' x' e' in
        k.unique j j' n y y' was was' (sym s.dev ∙ is.0, sym s.blockno ∙ is.1)
          (sym s'.dev ∙ is'.0, sym s'.blockno ∙ is'.1);
    clean = λ j n x e is ok un zero_refs.
        let (y, was, s) = before j x e in
        s.bytes
        ∙ k.clean j n y was (sym s.dev ∙ is.0, sym s.blockno ∙ is.1) (sym s.valid ∙ ok)
            (sym s.dirty ∙ un) (s.refcnt zero_refs);
    whole =
        λ j x e d. let (y, was, s) = before j x e in s.valid ∙ k.whole j y was (sym s.dirty ∙ d);
  }

  -- a buffer of the cache is in the changed one
  after : (j : ℕ) (y : Buf) → IsBuf c j y → (x : Buf) × IsBuf changed j x × Keeps y x
  after j y was = elim (ℕ_discrete j i) [
    | yes e ↦
        let same : y ≡ b = some-injective y b (sym was ∙ ap (get_elem? c.bufs) e ∙ at) in
        (
          f b,
          ap (get_elem? changed.bufs) e ∙ get_elem?-modify_self c.bufs i f b at,
          subst (λ z. Keeps z (f b)) (sym same) keeps,
        )
    | no ne ↦ (y, get_elem?-modify_ne c.bufs i j f (λ q. ne (sym q)) ∙ was, Keeps-refl _)
  ]

  pub Keeps-Shows : (n : ℕ) (v : Block) → Shows c n v → Shows changed n v
  Keeps-Shows n v (cached j y was is ok p) =
      let (x, e, s) = after j y was in
      cached j x e (s.dev ∙ is.0, s.blockno ∙ is.1) (s.valid ∙ ok) (s.bytes ∙ p)
  Keeps-Shows n v (on_disk none_valid p) =
      on_disk
        (λ j x e is.
          let (y, was, s) = before j x e in
          s.valid ∙ none_valid j y was (sym s.dev ∙ is.0, sym s.blockno ∙ is.1))
        p
