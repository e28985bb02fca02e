-- ===== src/Files/Descriptors.antt =====
-- `dup` and `close` of code/sysfile.c keep the reference counts of the files.
use os_ex.Shared.{
  ℕ, suc, ◌+◌, ◌<◌, ◌^◌, ◌≡◌, ◌⊎◌, ◌↔◌, zero, inl, inr, refl, true, false, leb, Bool-cases, Option,
  none, some, get_elem?, set, modify, find_index-cases, ℤ, pos, negsuc, minus_one, add_int, sub_int,
  sub_int-pos, lt_int-pos, lt_int, ok, arith, ◌∙◌, ap, sym,
}
use os_ex.Proc.{nofile}
use os_ex.Files.{
  File, fd_none, filedup, fileclose, Open, is_free, fdalloc, file_of, argfd, sys_dup, sys_close,
}
use os_ex.Files.Counts.{
  holds, holds-set, holds_slot_self, Counted, IsCounted, dup-Counted, close-Counted,
}

pos-injective : {a b : ℕ} → pos a ≡ pos b → a ≡ b
pos-injective e = cc e

argfd-cases :
    (n : ℤ) (s : Open)
    → (argfd n s ≡ none)
      ⊎ ((fd f : ℕ) × (argfd n s ≡ some (fd, f)) × (get_elem? s.ofile fd ≡ some (some f)))
unfolding argfd
argfd-cases (negsuc n) s = inl refl
argfd-cases (pos fd) s = elim (Bool-cases (leb nofile fd)) [
  | inl out ↦ inl (rw out refl)
  | inr inside ↦ rw inside (found (get_elem? s.ofile fd) refl)
]
  where
    found :
        (o : Option (Option ℕ))
        → get_elem? s.ofile fd ≡ o
        → (file_of fd o ≡ none)
          ⊎ ((fd' f : ℕ) × (file_of fd o ≡ some (fd', f)) × (get_elem? s.ofile fd' ≡ some (some f)))
    found none e = inl refl
    found (some none) e = inl refl
    found (some (some f)) e = inr (fd, f, refl, e)

fdalloc-cases :
    (f : ℕ) (s : Open)
    → (fdalloc f s ≡ (minus_one, s))
      ⊎ ((fd : ℕ) × (fdalloc f s ≡ (pos fd, record s { ofile = set s.ofile fd (some f) }))
          × (get_elem? s.ofile fd ≡ some none))
unfolding fdalloc
fdalloc-cases f s = elim (find_index-cases is_free s.ofile) [
  | inl (e, all) ↦ inl (rw (fdalloc, e) refl)
  | inr (fd, e, hit) ↦
      inr (fd, rw (fdalloc, e) refl, hit.there ∙ ap some (free hit.entry hit.passes))
]
  where
    free : (x : Option ℕ) → is_free x ≡ true → x ≡ none
    free none h = refl
    free (some g) h = cc h

not_less : (n : ℕ) → lt_int (pos (suc n)) (pos 1) ≡ false
not_less n = ground arith

above_zero : (n : ℕ) → lt_int (pos 0) (pos (suc n)) ≡ true
above_zero n = ground arith

filedup-ok :
    (f n : ℕ) (s : Open) (x : File)
    → get_elem? s.files f ≡ some x
    → x.ref ≡ pos (suc n)
    → filedup f s.files ≡ ok (modify s.files f (λ y. record y { ref = add_int y.ref (pos 1) }))
unfolding filedup
filedup-ok f n s x at e = rw (filedup, at, e, not_less n) refl

-- `fileclose` of a file with references: the file is still open exactly if some are left.
fileclose-ok :
    (f m : ℕ) (s : Open) (x : File)
    → m + 1 < 2 ^ 31
    → get_elem? s.files f ≡ some x
    → x.ref ≡ pos (suc m)
    → (o : Option File) × (h : File → File) × (fileclose f s.files ≡ ok (o, modify s.files f h))
      × ((h x).ref ≡ sub_int x.ref (pos 1))
      × ((o ≡ none) ↔ (0 < m))
unfolding fileclose
fileclose-ok f zero s x few at e = (
  some (record x { ref = sub_int x.ref (pos 1) }),
  λ y. record y { ref = pos 0; type = fd_none },
  rw (fileclose, at, e, sub_int-pos 0 few) refl,
  rw (e, sub_int-pos 0 few) refl,
  (λ q. cc q, λ q. absurd (omega (arith, q))),
)
fileclose-ok f (suc m) s x few at e = (
  none,
  λ y. record y { ref = sub_int x.ref (pos 1) },
  rw (fileclose, at, e, sub_int-pos (suc m) few, not_less (suc m), above_zero m) refl,
  refl,
  (λ q. omega arith, λ q. refl),
)

module _ (elsewhere : ℕ → ℕ) (s : Open) (k : IsCounted elsewhere s) (n : ℤ) where
  -- the count of a file that a descriptor holds is above 0
  held-ref :
      (fd f : ℕ) (x : File)
      → get_elem? s.ofile fd ≡ some (some f)
      → get_elem? s.files f ≡ some x
      → (m : ℕ) × (x.ref ≡ pos (suc m))
  held-ref fd f x held at = (
    holds f (set s.ofile fd none) + elsewhere f,
    k.counted f x at
        ∙ ap pos (omega (arith, holds-set f fd (some f) none s.ofile held, holds_slot_self f)),
  )

  -- Let the count of every file be the number of its descriptors in the process and of the references
  -- from elsewhere, with each descriptor's file in the table and no count about to wrap. Then `dup`
  -- of any argument does not panic, and the counts are right again.
  pub sys_dup-Counted : (r : ℤ) × (s' : Open) × (sys_dup n s ≡ ok (r, s')) × Counted elsewhere s'
  unfolding sys_dup
  sys_dup-Counted = elim (argfd-cases n s) [
    | inl e ↦ (minus_one, s, rw (sys_dup, e) refl, k.counted)
    | inr (fd, f, e, held) ↦ elim (fdalloc-cases f s) [
      | inl full ↦ (minus_one, s, rw (sys_dup, e, full) refl, k.counted)
      | inr (fd', q, free) ↦
          let (x, at) = k.exist fd f held in
          let (m, positive) = held-ref fd f x held at in
          (
            pos fd',
            record {
              ofile = set s.ofile fd' (some f);
              files = modify s.files f (λ y. record y { ref = add_int y.ref (pos 1) });
            },
            rw (sys_dup, e, q, lt_int-pos fd', filedup-ok f m s x at positive) refl,
            dup-Counted elsewhere s k fd' f x at free,
          )
    ]
  ]

  -- Let the count of every file be the number of its descriptors in the process and of the references
  -- from elsewhere, with each descriptor's file in the table and no count about to wrap. Then `close`
  -- of any argument does not panic, and the counts are right again.
  pub sys_close-Counted :
      (r : ℤ) × (o : Option File) × (s' : Open) × (sys_close n s ≡ ok (r, o, s'))
      × Counted elsewhere s'
  unfolding sys_close
  sys_close-Counted = elim (argfd-cases n s) [
    | inl e ↦ (minus_one, none, s, rw (sys_close, e) refl, k.counted)
    | inr (fd, f, e, held) ↦
        let (x, at) = k.exist fd f held in
        let (m, positive) = held-ref fd f x held at in
        let (o, h, closed, less, last) =
          fileclose-ok f m s x (few_left f m x at positive) at positive in
        (
          pos 0,
          o,
          record { ofile = set s.ofile fd none; files = modify s.files f h },
          rw (sys_close, e, closed) refl,
          close-Counted elsewhere s k fd f x at h held less,
        )
  ]
    where
      few_left :
          (f m : ℕ) (x : File) → get_elem? s.files f ≡ some x → x.ref ≡ pos (suc m) → m + 1 < 2 ^ 31
      few_left f m x at e = omega (arith, k.few f, pos-injective (sym (k.counted f x at) ∙ e))
