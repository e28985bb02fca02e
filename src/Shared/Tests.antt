-- ===== src/Shared/Tests.antt =====
-- Boolean tests on the native numbers, the conditional, and the splits that keep an equation.
use Prim.Native.Nat.{ℕ, ◌≤◌, ◌<◌, compare, Ordering}
use mathlib.Core.Path.{◌≡◌, refl}
use mathlib.Core.Logic.{◌↔◌, ◌⊎◌, inl, inr}
use mathlib.Core.Bool.{Bool, true, false}
use mathlib.Core.Option.{Option, none, some}
use native.Mathlib.Omega.{arith}

abbrev pub ltb : ℕ → ℕ → Bool
ltb a b = elim (compare a b) [ Ordering.lt ↦ true | _ ↦ false ]

abbrev pub leb : ℕ → ℕ → Bool
leb a b = elim (compare a b) [ Ordering.gt ↦ false | _ ↦ true ]

infix 50 ◌==◌
abbrev pub ◌==◌ : ℕ → ℕ → Bool
a == b = elim (compare a b) [ Ordering.eq ↦ true | _ ↦ false ]

infix 1 if◌then◌else◌
abbrev pub if◌then◌else◌ {ℓ} : {A : Type ℓ} → Bool → A → A → A
if true then x else y = x
if false then x else y = y

pub ltb→lt : (a b : ℕ) → ltb a b ≡ true → a < b
ltb→lt a b h = ground arith

pub lt→ltb : (a b : ℕ) → a < b → ltb a b ≡ true
lt→ltb a b h = ground arith

pub leb→le : (a b : ℕ) → leb a b ≡ true → a ≤ b
leb→le a b h = ground arith

pub ==_iff : (a b : ℕ) → ((a == b) ≡ true) ↔ (a ≡ b)
==_iff a b = ground arith

pub ==_self : (a : ℕ) → (a == a) ≡ true
==_self a = ground arith

pub Bool-cases : (b : Bool) → (b ≡ true) ⊎ (b ≡ false)
Bool-cases true = inl refl
Bool-cases false = inr refl

pub Option-cases {ℓ} : {A : Type ℓ} (o : Option A) → (o ≡ none) ⊎ ((a : A) × (o ≡ some a))
Option-cases none = inl refl
Option-cases (some a) = inr (a, refl)

-- What a call of the kernel leaves: a value, or `panic` with its message.
pub data Result {ℓ} (A : Type ℓ) : Type ℓ where
  ok : A → Result A
  panic : Result A

infixl 5 ◌>>=◌
abbrev pub ◌>>=◌ {ℓ κ} : {A : Type ℓ} {B : Type κ} → Result A → (A → Result B) → Result B
ok a >>= f = f a
panic >>= f = panic

-- The call returns, and the postcondition holds of what it returns.
abbrev pub Returns {ℓ} : {A : Type ℓ} → Result A → (A → Type 0) → Type 0
Returns (ok a) P = P a
Returns panic P = ⊥

pub Returns_mono {ℓ} :
    {A : Type ℓ} (r : Result A) (P Q : A → Type 0)
    → ((a : A) → P a → Q a)
    → Returns r P
    → Returns r Q
Returns_mono (ok a) P Q f h = f a h
Returns_mono panic P Q f h = h

-- A call, and what is done with its value.
pub Returns_bind {ℓ κ} :
    {A : Type ℓ} {B : Type κ} (r : Result A) (g : A → Result B) (P : A → Type 0) (Q : B → Type 0)
    → Returns r P
    → ((a : A) → P a → Returns (g a) Q)
    → Returns (elim r as (λ x. Result B) [ ok a ↦ g a | panic ↦ panic ]) Q
Returns_bind (ok a) g P Q h f = f a h
Returns_bind panic g P Q h f = h
