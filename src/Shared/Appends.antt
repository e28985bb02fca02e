-- ===== src/Shared/Appends.antt =====
-- Lists in parts: appended, split, repeated, and what is found in them.
use Prim.Native.Nat.{◌≤◌, ℕ, zero, suc, ◌+◌, ◌<◌}
use mathlib.Core.Path.{◌≡◌, ◌∙◌, refl, sym, ap}
use mathlib.Core.Logic.{◌≢◌}
use mathlib.Core.List.{List, [], ◌∷◌, ◌++◌}
use mathlib.Core.Bool.{Bool, true, false}
use mathlib.Core.Option.{some, some-injective}
use mathlib.Core.Logic.{◌⊎◌, inl, inr}
use native.Mathlib.Omega.{arith}
use native.Mathlib.Decide.{ℕ_discrete}
use os_ex.Shared.Lists.{
  length, get_elem?, get_or, modify, replicate, find_index, All, get_elem?-modify_self,
  get_elem?-modify_ne,
}

module _ {ℓ} {A : Type ℓ} where
  pub find_index-append :
      (t : A → Bool) (xs : List A) (x : A) (ys : List A)
      → All (λ y. t y ≡ false) xs
      → t x ≡ true
      → find_index t (xs ++ (x ∷ ys)) ≡ some (length xs)
  find_index-append t [] x ys a h = rw h
  find_index-append t (y ∷ xs) x ys a h = rw (a.0, find_index-append t xs x ys a.1 h)

  pub modify-append :
      (xs : List A) (x : A) (ys : List A) (f : A → A)
      → modify (xs ++ (x ∷ ys)) (length xs) f ≡ xs ++ (f x ∷ ys)
  modify-append [] x ys f = refl
  modify-append (y ∷ xs) x ys f = ap (λ r. y ∷ r) (modify-append xs x ys f)

  pub get_elem?-append :
      (xs : List A) (x : A) (ys : List A) → get_elem? (xs ++ (x ∷ ys)) (length xs) ≡ some x
  get_elem?-append [] x ys = refl
  get_elem?-append (y ∷ xs) x ys = get_elem?-append xs x ys

  -- An element of two lists is one of the first, or of the second.
  pub get_elem?-append-cases :
      (xs ys : List A) (i : ℕ) (x : A)
      → get_elem? (xs ++ ys) i ≡ some x
      → (get_elem? xs i ≡ some x) ⊎ ((j : ℕ) × (i ≡ length xs + j) × (get_elem? ys j ≡ some x))
  get_elem?-append-cases [] ys i x h = inr (i, omega arith, h)
  get_elem?-append-cases (y ∷ xs) ys zero x h = inl h
  get_elem?-append-cases (y ∷ xs) ys (suc i) x h = elim (get_elem?-append-cases xs ys i x h) [
    | inl here ↦ inl here
    | inr (j, at, there) ↦ inr (j, omega (arith, at), there)
  ]

  pub get_elem?→get_or :
      (xs : List A) (i : ℕ) (x d : A) → get_elem? xs i ≡ some x → get_or xs i d ≡ x
  get_elem?→get_or [] i x d h = cc
  get_elem?→get_or (y ∷ xs) zero x d h = some-injective y x h
  get_elem?→get_or (y ∷ xs) (suc i) x d h = get_elem?→get_or xs i x d h

  pub get_elem?-replicate :
      (n : ℕ) (a : A) (i : ℕ) (x : A) → get_elem? (replicate n a) i ≡ some x → a ≡ x
  get_elem?-replicate zero a i x h = cc
  get_elem?-replicate (suc n) a zero x h = some-injective a x h
  get_elem?-replicate (suc n) a (suc i) x h = get_elem?-replicate n a i x h

  pub get_or-replicate : (n : ℕ) (a : A) (i : ℕ) → get_or (replicate n a) i a ≡ a
  get_or-replicate zero a i = refl
  get_or-replicate (suc n) a zero = refl
  get_or-replicate (suc n) a (suc i) = get_or-replicate n a i

  pub All_of_append {κ} : (P : A → Type κ) (xs ys : List A) → All P (xs ++ ys) → All P xs × All P ys
  All_of_append P [] ys a = (tt, a)
  All_of_append P (x ∷ xs) ys a = let (l, r) = All_of_append P xs ys a.1 in ((a.0, l), r)

  pub All_weaken {κ λ'} :
      (P : A → Type κ) (Q : A → Type λ') (xs : List A) → ((x : A) → P x → Q x) → All P xs → All Q xs
  All_weaken P Q [] w a = tt
  All_weaken P Q (x ∷ xs) w a = (w x a.0, All_weaken P Q xs w a.1)

  -- A first part of `xs ++ ys` is a first part of `xs`, or `xs` and a first part of `ys`.
  pub append-eq-append :
      (xs ys p q : List A)
      → xs ++ ys ≡ p ++ q
      → ((r : List A) × (xs ≡ p ++ r)) ⊎ ((r : List A) × (p ≡ xs ++ r) × (ys ≡ r ++ q))
  append-eq-append [] ys p q e = inr (p, refl, e)
  append-eq-append (x ∷ xs) ys [] q e = inl (x ∷ xs, refl)
  append-eq-append (x ∷ xs) ys (y ∷ p) q e = elim (append-eq-append xs ys p q (tail_of e)) [
    | inl (r, l) ↦ inl (r, cons_eq l)
    | inr (r, l, m) ↦ inr (r, sym (cons_eq (sym l)), m)
  ]
    where
      tail_of : x ∷ (xs ++ ys) ≡ y ∷ (p ++ q) → xs ++ ys ≡ p ++ q
      tail_of h = cc h

      cons_eq : {l m : List A} → l ≡ m → x ∷ l ≡ y ∷ m
      cons_eq h = cc (e, h)

  -- An entry of a changed list is the changed one, or was there.
  pub get_elem?-modify-cases :
      (xs : List A) (i j : ℕ) (f : A → A) (x y : A)
      → get_elem? xs i ≡ some x
      → get_elem? (modify xs i f) j ≡ some y
      → ((j ≡ i) × (y ≡ f x)) ⊎ ((j ≢ i) × (get_elem? xs j ≡ some y))
  get_elem?-modify-cases xs i j f x y at new = elim (ℕ_discrete j i) [
    | yes e ↦ inl (
      e,
      some-injective y (f x)
          (sym new ∙ ap (get_elem? (modify xs i f)) e ∙ get_elem?-modify_self xs i f x at),
    )
    | no ne ↦ inr (ne, sym (get_elem?-modify_ne xs i j f (λ q. ne (sym q))) ∙ new)
  ]

  -- At most `n` elements, and the rest.
  abbrev pub split_at : ℕ → List A → List A × List A
  split_at zero xs = ([], xs)
  split_at (suc n) [] = ([], [])
  split_at (suc n) (x ∷ xs) = let (here, rest) = split_at n xs in (x ∷ here, rest)

  pub split_at_lem : (n : ℕ) (xs : List A) → xs ≡ (split_at n xs).0 ++ (split_at n xs).1
  split_at_lem zero xs = refl
  split_at_lem (suc n) [] = refl
  split_at_lem (suc n) (x ∷ xs) = ap (λ l. x ∷ l) (split_at_lem n xs)

  pub length-split_at :
      (n : ℕ) (xs : List A)
      → let here = length (split_at n xs).0 in (here ≤ n) × ((here ≡ n) ⊎ ((split_at n xs).1 ≡ []))
  length-split_at zero xs = (omega arith, inl refl)
  length-split_at (suc n) [] = (omega arith, inr refl)
  length-split_at (suc n) (x ∷ xs) =
      let (short, full) = length-split_at n xs in
      (omega (arith, short), elim full [ inl e ↦ inl (ap suc e) | inr e ↦ inr e ])

  pub split_at-some : (n : ℕ) (x : A) (xs : List A) → 0 < n → 0 < length (split_at n (x ∷ xs)).0
  split_at-some zero x xs h = absurd (omega arith)
  split_at-some (suc n) x xs h = omega arith

  pub get_or-append_left :
      (xs ys : List A) (i : ℕ) (d : A) → i < length xs → get_or (xs ++ ys) i d ≡ get_or xs i d
  get_or-append_left [] ys i d h = absurd (omega arith)
  get_or-append_left (x ∷ xs) ys zero d h = refl
  get_or-append_left (x ∷ xs) ys (suc i) d h = get_or-append_left xs ys i d (omega arith)

  pub get_or-append_right :
      (xs ys : List A) (i : ℕ) (d : A) → get_or (xs ++ ys) (length xs + i) d ≡ get_or ys i d
  get_or-append_right [] ys i d = ap (λ j. get_or ys j d) (omega arith)
  get_or-append_right (x ∷ xs) ys i d =
      let at : suc (length xs) + i ≡ suc (length xs + i) = omega arith in
      ap (λ j. get_or (x ∷ (xs ++ ys)) j d) at ∙ get_or-append_right xs ys i d
