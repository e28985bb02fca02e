-- ===== src/Files/Counts.antt =====
-- The reference counts of code/file.c: a file's count is the number of descriptors that hold it.
use os_ex.Shared.{
  ℕ, zero, suc, ◌+◌, ◌<◌, ◌^◌, ◌≡◌, ◌≢◌, ◌==◌, refl, if◌then◌else◌, List, [], ◌∷◌, Option, none,
  some, get_elem?, set, modify, get_elem?-modify-cases, inl, inr, some-injective, pos, add_int,
  sub_int, add_int-pos, sub_int-pos, arith, ◌∙◌, ap, sym,
}
use os_ex.Files.{File, Open}

-- how many descriptors hold file `f`
abbrev pub holds : ℕ → List (Option ℕ) → ℕ
holds f [] = 0
holds f (none ∷ slots) = holds f slots
holds f (some g ∷ slots) = (if g == f then 1 else 0) + holds f slots

abbrev pub holds_slot : ℕ → Option ℕ → ℕ
holds_slot f none = 0
holds_slot f (some g) = if g == f then 1 else 0

abbrev pub Counted : (ℕ → ℕ) → Open → Type 0
Counted elsewhere s =
    (f : ℕ) (x : File) → get_elem? s.files f ≡ some x → x.ref ≡ pos (holds f s.ofile + elsewhere f)

-- Each file has the count of its descriptors, and of the references from elsewhere.
pub record IsCounted (elsewhere : ℕ → ℕ) (s : Open) : Type 0 where
  pub counted : Counted elsewhere s
  pub exist :
      (fd f : ℕ)
      → get_elem? s.ofile fd ≡ some (some f)
      → (x : File) × (get_elem? s.files f ≡ some x)
  pub few : (f : ℕ) → holds f s.ofile + elsewhere f + 1 < 2 ^ 31

holds-cons :
    (f : ℕ) (x : Option ℕ) (slots : List (Option ℕ))
    → holds f (x ∷ slots) ≡ holds_slot f x + holds f slots
holds-cons f none slots = omega arith
holds-cons f (some g) slots = refl

pub holds-set :
    (f i : ℕ) (slot slot' : Option ℕ) (slots : List (Option ℕ))
    → get_elem? slots i ≡ some slot
    → holds f (set slots i slot') + holds_slot f slot ≡ holds f slots + holds_slot f slot'
holds-set f i slot slot' [] e = cc e
holds-set f zero slot slot' (x ∷ slots) e =
    let same : holds_slot f x ≡ holds_slot f slot = ap (holds_slot f) (some-injective x slot e) in
    omega (arith, holds-cons f slot' slots, holds-cons f x slots, same)
holds-set f (suc i) slot slot' (x ∷ slots) e = omega (
  arith,
  holds-set f i slot slot' slots e,
  holds-cons f x slots,
  holds-cons f x (set slots i slot'),
)

pub holds_slot_self : (f : ℕ) → holds_slot f (some f) ≡ 1
holds_slot_self f = ground arith

holds_slot_ne : (f g : ℕ) → g ≢ f → holds_slot f (some g) ≡ 0
holds_slot_ne f g ne = ground arith

module _ (elsewhere : ℕ → ℕ) (s : Open) (k : IsCounted elsewhere s) (fd f : ℕ) (x : File)
    (at : get_elem? s.files f ≡ some x) where
  -- A descriptor more, and a reference more.
  pub dup-Counted :
      get_elem? s.ofile fd ≡ some none
      → Counted elsewhere (record {
        ofile = set s.ofile fd (some f);
        files = modify s.files f (λ y. record y { ref = add_int y.ref (pos 1) });
      })
  dup-Counted free g y e =
      let slots = holds-set g fd none (some f) s.ofile free in
      elim (get_elem?-modify-cases s.files f g _ x y at e) [
        | inl (same, changed) ↦
            ap (λ z. z.ref) changed
            ∙ ap (λ z. add_int z (pos 1)) (k.counted f x at)
            ∙ add_int-pos (holds f s.ofile + elsewhere f) (k.few f)
            ∙ ap pos (rw same (omega (arith, rw same at slots, holds_slot_self f)))
        | inr (ne, was) ↦
            k.counted g y was ∙ ap pos (omega (arith, slots, holds_slot_ne g f (λ q. ne (sym q))))
      ]

  -- A descriptor less, and a reference less.
  pub close-Counted :
      (h : File → File)
      → get_elem? s.ofile fd ≡ some (some f)
      → (h x).ref ≡ sub_int x.ref (pos 1)
      → Counted elsewhere (record { ofile = set s.ofile fd none; files = modify s.files f h })
  close-Counted h held less g y e =
      let slots = holds-set g fd (some f) none s.ofile held in
      elim (get_elem?-modify-cases s.files f g h x y at e) [
        | inl (same, changed) ↦
            let one_less : holds f s.ofile ≡ suc (holds f (set s.ofile fd none)) =
              omega (arith, holds-set f fd (some f) none s.ofile held, holds_slot_self f) in
            ap (λ z. z.ref) changed
            ∙ less
            ∙ ap (λ z. sub_int z (pos 1)) (k.counted f x at ∙ ap pos (omega (arith, one_less)))
            ∙ sub_int-pos (holds f (set s.ofile fd none) + elsewhere f)
                (omega (arith, k.few f, one_less))
            ∙ ap (λ z. pos (holds z (set s.ofile fd none) + elsewhere z)) (sym same)
        | inr (ne, was) ↦
            k.counted g y was ∙ ap pos (omega (arith, slots, holds_slot_ne g f (λ q. ne (sym q))))
      ]
