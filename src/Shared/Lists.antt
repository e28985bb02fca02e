-- ===== src/Shared/Lists.antt =====
-- Arrays and tables as lists measured and indexed by native numbers, under the library's names.
use Prim.Native.Nat.{ℕ, zero, suc, ◌+◌, ◌<◌}
use mathlib.Core.Path.{◌≡◌, refl, ap, subst}
use mathlib.Core.Logic.{◌≢◌}
use mathlib.Core.List.{List, [], ◌∷◌, ◌++◌, map}
use mathlib.Core.Bool.{Bool, true, false}
use mathlib.Core.Option
use mathlib.Core.Option.{Option, none, some, some-injective}
use os_ex.Shared.Tests.{if◌then◌else◌, Bool-cases}
use mathlib.Core.Logic.{◌⊎◌, inl, inr}
use native.Mathlib.Omega.{arith}

module _ {ℓ} {A : Type ℓ} where
  abbrev pub length : List A → ℕ
  length [] = 0
  length (x ∷ xs) = suc (length xs)

  abbrev pub get_elem? : List A → ℕ → Option A
  get_elem? [] i = none
  get_elem? (x ∷ xs) zero = some x
  get_elem? (x ∷ xs) (suc i) = get_elem? xs i

  abbrev pub get_or : List A → ℕ → A → A
  get_or [] i d = d
  get_or (x ∷ xs) zero d = x
  get_or (x ∷ xs) (suc i) d = get_or xs i d

  -- A write out of bounds changes nothing.
  abbrev pub set : List A → ℕ → A → List A
  set [] i v = []
  set (x ∷ xs) zero v = v ∷ xs
  set (x ∷ xs) (suc i) v = x ∷ set xs i v

  -- `xs[i] = f(xs[i])`
  abbrev pub modify : List A → ℕ → (A → A) → List A
  modify [] i f = []
  modify (x ∷ xs) zero f = f x ∷ xs
  modify (x ∷ xs) (suc i) f = x ∷ modify xs i f

  abbrev pub take : ℕ → List A → List A
  take zero xs = []
  take (suc n) [] = []
  take (suc n) (x ∷ xs) = x ∷ take n xs

  abbrev pub replicate : ℕ → A → List A
  replicate zero a = []
  replicate (suc n) a = a ∷ replicate n a

  -- The scan `for(i = 0; i < n; i++) if(test(xs[i])) …`: the first index that passes.
  abbrev pub find_index : (A → Bool) → List A → Option ℕ
  find_index t [] = none
  find_index t (x ∷ xs) = if t x then some 0 else Option.map suc (find_index t xs)

  -- A predicate of every entry.
  abbrev pub All {κ} : (A → Type κ) → List A → Type κ
  All P [] = Unit
  All P (x ∷ xs) = P x × All P xs

module _ {ℓ} {A : Type ℓ} where
  pub length-append : (xs ys : List A) → length (xs ++ ys) ≡ length xs + length ys
  length-append [] ys = omega arith
  length-append (x ∷ xs) ys = omega (arith, length-append xs ys)

  pub length-set : (xs : List A) (i : ℕ) (v : A) → length (set xs i v) ≡ length xs
  length-set [] i v = refl
  length-set (x ∷ xs) zero v = refl
  length-set (x ∷ xs) (suc i) v = ap suc (length-set xs i v)

  pub length-modify : (xs : List A) (i : ℕ) (f : A → A) → length (modify xs i f) ≡ length xs
  length-modify [] i f = refl
  length-modify (x ∷ xs) zero f = refl
  length-modify (x ∷ xs) (suc i) f = ap suc (length-modify xs i f)

  pub length-map {κ} : {B : Type κ} (xs : List A) (f : A → B) → length (map f xs) ≡ length xs
  length-map [] f = refl
  length-map (x ∷ xs) f = ap suc (length-map xs f)

  pub length-replicate : (n : ℕ) (a : A) → length (replicate n a) ≡ n
  length-replicate zero a = refl
  length-replicate (suc n) a = ap suc (length-replicate n a)

  pub get_elem?-map {κ} :
      {B : Type κ} (xs : List A) (f : A → B) (i : ℕ) (x : A)
      → get_elem? xs i ≡ some x
      → get_elem? (map f xs) i ≡ some (f x)
  get_elem?-map [] f i x h = cc
  get_elem?-map (y ∷ xs) f zero x h = cc
  get_elem?-map (y ∷ xs) f (suc i) x h = get_elem?-map xs f i x h

  pub get_elem?-modify_self :
      (xs : List A) (i : ℕ) (f : A → A) (x : A)
      → get_elem? xs i ≡ some x
      → get_elem? (modify xs i f) i ≡ some (f x)
  get_elem?-modify_self [] i f x h = cc
  get_elem?-modify_self (y ∷ xs) zero f x h = cc
  get_elem?-modify_self (y ∷ xs) (suc i) f x h = get_elem?-modify_self xs i f x h

  pub get_elem?-modify_ne :
      (xs : List A) (i j : ℕ) (f : A → A) → i ≢ j → get_elem? (modify xs i f) j ≡ get_elem? xs j
  get_elem?-modify_ne [] i j f h = refl
  get_elem?-modify_ne (x ∷ xs) zero zero f h = absurd (h refl)
  get_elem?-modify_ne (x ∷ xs) zero (suc j) f h = refl
  get_elem?-modify_ne (x ∷ xs) (suc i) zero f h = refl
  get_elem?-modify_ne (x ∷ xs) (suc i) (suc j) f h =
      get_elem?-modify_ne xs i j f (λ e. h (ap suc e))

  pub get_elem?_lt : (xs : List A) (i : ℕ) (x : A) → get_elem? xs i ≡ some x → i < length xs
  get_elem?_lt [] i x h = cc
  get_elem?_lt (y ∷ xs) zero x h = omega arith
  get_elem?_lt (y ∷ xs) (suc i) x h = omega (arith, get_elem?_lt xs i x h)

  pub get_elem?-set_self :
      (xs : List A) (i : ℕ) (v : A) → i < length xs → get_elem? (set xs i v) i ≡ some v
  get_elem?-set_self [] i v h = absurd (omega arith)
  get_elem?-set_self (x ∷ xs) zero v h = refl
  get_elem?-set_self (x ∷ xs) (suc i) v h = get_elem?-set_self xs i v (omega arith)

  pub get_or-set_self :
      (xs : List A) (i : ℕ) (v d : A) → i < length xs → get_or (set xs i v) i d ≡ v
  get_or-set_self [] i v d h = absurd (omega arith)
  get_or-set_self (x ∷ xs) zero v d h = refl
  get_or-set_self (x ∷ xs) (suc i) v d h = get_or-set_self xs i v d (omega arith)

  pub get_or-set_ne :
      (xs : List A) (i j : ℕ) (v d : A) → i ≢ j → get_or (set xs i v) j d ≡ get_or xs j d
  get_or-set_ne [] i j v d h = refl
  get_or-set_ne (x ∷ xs) zero zero v d h = absurd (h refl)
  get_or-set_ne (x ∷ xs) zero (suc j) v d h = refl
  get_or-set_ne (x ∷ xs) (suc i) zero v d h = refl
  get_or-set_ne (x ∷ xs) (suc i) (suc j) v d h = get_or-set_ne xs i j v d (λ e. h (ap suc e))

  pub All_get_elem? {κ} :
      (P : A → Type κ) (xs : List A) (i : ℕ) (x : A) → All P xs → get_elem? xs i ≡ some x → P x
  All_get_elem? P [] i x a h = cc
  All_get_elem? P (y ∷ xs) zero x a h = subst P (some-injective y x h) a.0
  All_get_elem? P (y ∷ xs) (suc i) x a h = All_get_elem? P xs i x a.1 h

  -- A scan that finds an entry: it passes, and none before it does.
  pub record Found (t : A → Bool) (xs : List A) (i : ℕ) : Type ℓ where
    pub entry : A
    pub there : get_elem? xs i ≡ some entry
    pub passes : t entry ≡ true
    pub before : All (λ x. t x ≡ false) (take i xs)

  Found-cons :
      (t : A → Bool) (x : A) (xs : List A) (i : ℕ)
      → t x ≡ false
      → Found t xs i
      → Found t (x ∷ xs) (suc i)
  Found-cons t x xs i e f = record {
    entry = f.entry;
    there = f.there;
    passes = f.passes;
    before = (e, f.before);
  }

  -- A scan either finds the first entry that passes, or there is none.
  pub find_index-cases :
      (t : A → Bool) (xs : List A)
      → ((find_index t xs ≡ none) × All (λ x. t x ≡ false) xs)
        ⊎ ((i : ℕ) × (find_index t xs ≡ some i) × Found t xs i)
  find_index-cases t [] = inl (refl, tt)
  find_index-cases t (x ∷ xs) = elim (Bool-cases (t x)) [
    | inl hit ↦
        rw hit (inr (0, refl, record { entry = x; there = refl; passes = hit; before = tt }))
    | inr miss ↦ rw miss (elim (find_index-cases t xs) [
      | inl (e, all) ↦ rw e (inl (refl, (refl, all)))
      | inr (i, e, f) ↦ rw e (inr (suc i, refl, Found-cons t x xs i miss f))
    ])
  ]

  -- Only entry `i` differs, and its new value has the property.
  pub record UpdatedAt (P : A → Type 0) (i : ℕ) (xs ys : List A) : Type ℓ where
    pub entry : A
    pub there : get_elem? ys i ≡ some entry
    pub holds : P entry
    pub others : (j : ℕ) → i ≢ j → get_elem? ys j ≡ get_elem? xs j
    pub same_length : length ys ≡ length xs

  pub modify-UpdatedAt :
      (P : A → Type 0) (xs : List A) (i : ℕ) (f : A → A) (x : A)
      → get_elem? xs i ≡ some x
      → P (f x)
      → UpdatedAt P i xs (modify xs i f)
  modify-UpdatedAt P xs i f x e h = record {
    entry = f x;
    there = get_elem?-modify_self xs i f x e;
    holds = h;
    others = λ j. get_elem?-modify_ne xs i j f;
    same_length = length-modify xs i f;
  }
  -- A scan passes over entries that fail the test.
