-- ===== src/Log/Entries.antt =====
-- The entries that `log_write` of code/log.c makes: one for each block, made once.
use os_ex.Shared.{
  ℕ, zero, suc, ◌+◌, ◌<◌, ◌≤◌, ◌≡◌, ◌≢◌, ◌⊎◌, ◌==◌, inl, inr, refl, List, [], ◌∷◌, take, set, All,
  some, get_elem?, find_index-cases, get_elem?→get_or, get_or-set_self, get_or-set_ne, length-set,
  length, get_or, arith, ◌∙◌, sym, ap, subst, false, true,
}
use native.Mathlib.Decide.{ℕ_discrete}
use os_ex.Log.{Log, log_size, home, entry_of, log_enter}
use os_ex.Log.Trace.{IsHome, IsLog, IsLogged}

get_elem?_of_take :
    {A : Type 0} (n : ℕ) (xs : List A) (i : ℕ) (x : A)
    → get_elem? (take n xs) i ≡ some x
    → (i < n) × (get_elem? xs i ≡ some x)
get_elem?_of_take zero xs i x h = cc h
get_elem?_of_take (suc n) [] i x h = cc h
get_elem?_of_take (suc n) (y ∷ xs) zero x h = (omega arith, h)
get_elem?_of_take (suc n) (y ∷ xs) (suc i) x h =
    let (lt, e) = get_elem?_of_take n xs i x h in (omega (arith, lt), e)

All_of_take :
    {A : Type 0} (P : A → Type 0) (n : ℕ) (xs : List A) (i : ℕ) (d : A)
    → n ≤ length xs
    → All P (take n xs)
    → i < n
    → P (get_or xs i d)
All_of_take P zero xs i d fits a h = absurd (omega arith)
All_of_take P (suc n) [] i d fits a h = absurd (omega arith)
All_of_take P (suc n) (x ∷ xs) zero d fits a h = a.0
All_of_take P (suc n) (x ∷ xs) (suc i) d fits a h =
    All_of_take P n xs i d (omega arith) a.1 (omega arith)

-- A number of a list.
abbrev pub Has : ℕ → List ℕ → Type 0
Has b [] = ⊥
Has b (x ∷ xs) = (x ≡ b) ⊎ Has b xs

-- No block has two entries.
abbrev pub IsDistinct : Log → Type 0
IsDistinct lg = (i j : ℕ) → i < j → j < lg.n → home lg i ≢ home lg j

-- What `log_write` of block `b` makes of a log.
pub record Entered (b : ℕ) (lg lg' : Log) : Type 0 where
  pub valid : IsLog lg'
  pub distinct : IsDistinct lg'
  pub logged : IsLogged lg' b
  pub kept : (x : ℕ) → IsLogged lg x → IsLogged lg' x
  pub only : (x : ℕ) → IsLogged lg' x → IsLogged lg x ⊎ (x ≡ b)
  pub place : (lg'.start ≡ lg.start) × (lg'.size ≡ lg.size)

pub entry_of-cases :
    (lg : Log) (b : ℕ)
    → lg.n ≤ log_size
    → length lg.block ≡ log_size
    → ((entry_of lg b < lg.n) × (home lg (entry_of lg b) ≡ b))
      ⊎ ((entry_of lg b ≡ lg.n) × ((i : ℕ) → i < lg.n → home lg i ≢ b))
entry_of-cases lg b few entries = elim (find_index-cases (λ x. x == b) (take lg.n lg.block)) [
  | inl (e, a) ↦
      rw (entry_of, e)
        (inr (
          refl,
          λ i h same.
              let miss : (home lg i == b) ≡ false =
                All_of_take (λ x. (x == b) ≡ false) lg.n lg.block i 0 (omega (arith, few, entries))
                  a h in
              ground arith,
        ))
  | inr (i, e, f) ↦
      let (lt, at) = get_elem?_of_take lg.n lg.block i f.entry f.there in
      rw (entry_of, e)
        (inl (lt, get_elem?→get_or lg.block i f.entry 0 at ∙ same_block f.entry f.passes))
]
  where
    same_block : (x : ℕ) → (x == b) ≡ true → x ≡ b
    same_block x h = ground arith

-- the log that a successful `log_write` leaves
abbrev entered : ℕ → ℕ → ℕ → Log → Log
entered b i n lg = record lg { block = set lg.block i b; n = n }

module _ (lg : Log) (b : ℕ) (v : IsLog lg) (d : IsDistinct lg) (hb : IsHome lg b) where
  -- the log with a new entry
  abbrev longer : Log
  longer = entered b lg.n (lg.n + 1) lg

  longer-old : (i : ℕ) → i < lg.n → home longer i ≡ home lg i
  longer-old i h = get_or-set_ne lg.block lg.n i b 0 (λ q. omega arith)

  longer-new : lg.n < log_size → home longer lg.n ≡ b
  longer-new room = get_or-set_self lg.block lg.n b 0 (omega (arith, v.entries))

  longer-cases :
      (i : ℕ)
      → lg.n < log_size
      → i < lg.n + 1
      → ((i < lg.n) × (home longer i ≡ home lg i)) ⊎ ((i ≡ lg.n) × (home longer i ≡ b))
  longer-cases i room h = elim (ℕ_discrete i lg.n) [
    | yes e ↦ inr (e, ap (home longer) e ∙ longer-new room)
    | no ne ↦ inl (omega arith, longer-old i (omega arith))
  ]

  longer-Entered :
      lg.n < log_size
      → lg.n + 1 < lg.size
      → ((i : ℕ) → i < lg.n → home lg i ≢ b)
      → Entered b lg longer
  longer-Entered room inside new = record {
    valid = record {
      few = omega arith;
      inside = inside;
      entries = length-set lg.block lg.n b ∙ v.entries;
      homes = λ i h. elim (longer-cases i room h) [
        | inl (lt, e) ↦ subst (IsHome lg) (sym e) (v.homes i lt)
        | inr (_, e) ↦ subst (IsHome lg) (sym e) hb
      ];
    };
    distinct = λ i j lt h same. elim (longer-cases j room h) [
      | inl (old, e) ↦ d i j lt old (sym (longer-old i (omega arith)) ∙ same ∙ e)
      | inr (q, e) ↦ new i (omega arith) (sym (longer-old i (omega arith)) ∙ same ∙ e)
    ];
    logged = (lg.n, omega arith, longer-new room);
    kept = λ x (i, h, e). (i, omega arith, longer-old i h ∙ e);
    only = λ x (i, h, e). elim (longer-cases i room h) [
      | inl (lt, q) ↦ inl (i, lt, sym q ∙ e)
      | inr (_, q) ↦ inr (sym e ∙ q)
    ];
    place = (refl, refl);
  }

  -- the log with the entry that the block has already
  abbrev again : ℕ → Log
  again k = entered b k lg.n lg

  again-home : (k i : ℕ) → k < lg.n → home lg k ≡ b → home (again k) i ≡ home lg i
  again-home k i h e = elim (ℕ_discrete i k) [
    | yes q ↦
        ap (home (again k)) q
        ∙ get_or-set_self lg.block k b 0 (omega (arith, v.few, v.entries))
        ∙ sym e
        ∙ ap (home lg) (sym q)
    | no ne ↦ get_or-set_ne lg.block k i b 0 (λ q. ne (sym q))
  ]

  again-Entered : (k : ℕ) → k < lg.n → home lg k ≡ b → Entered b lg (again k)
  again-Entered k h e = record {
    valid = record {
      few = v.few;
      inside = v.inside;
      entries = length-set lg.block k b ∙ v.entries;
      homes = λ i hi. subst (IsHome lg) (sym (again-home k i h e)) (v.homes i hi);
    };
    distinct = λ i j lt hj same. d i j lt hj (sym (again-home k i h e) ∙ same ∙ again-home k j h e);
    logged = (k, h, again-home k k h e ∙ e);
    kept = λ x (i, hi, q). (i, hi, again-home k i h e ∙ q);
    only = λ x (i, hi, q). inl (i, hi, sym (again-home k i h e) ∙ q);
    place = (refl, refl);
  }

-- A block is entered in a log that has room.
log_enter-Entered :
    (lg : Log) (b : ℕ)
    → IsLog lg
    → IsDistinct lg
    → IsHome lg b
    → lg.n < log_size
    → lg.n + 1 < lg.size
    → Entered b lg (log_enter b lg)
log_enter-Entered lg b v d hb room inside = elim (entry_of-cases lg b v.few v.entries) [
  | inl (lt, at) ↦
      let old : (entry_of lg b == lg.n) ≡ false = ground arith in
      rw old (again-Entered lg b v d hb (entry_of lg b) lt at)
  | inr (last, new) ↦
      let end : (entry_of lg b == lg.n) ≡ true = ground arith in
      rw (end, last) (longer-Entered lg b v d hb room inside new)
]

-- Callers of `log_write` that are past its tests take the lock one after the other.
abbrev pub enter_each : List ℕ → Log → Log
enter_each [] lg = lg
enter_each (b ∷ bs) lg = enter_each bs (log_enter b lg)

pub record EnteredAll (bs : List ℕ) (lg lg' : Log) : Type 0 where
  pub valid : IsLog lg'
  pub distinct : IsDistinct lg'
  pub logged : All (IsLogged lg') bs
  pub kept : (x : ℕ) → IsLogged lg x → IsLogged lg' x
  pub only : (x : ℕ) → IsLogged lg' x → IsLogged lg x ⊎ Has x bs
  pub place : (lg'.start ≡ lg.start) × (lg'.size ≡ lg.size)

log_enter_more : (b : ℕ) (lg : Log) → (log_enter b lg).n ≤ lg.n + 1
log_enter_more b lg = ground arith

-- Let any number of callers of `log_write` be past its tests, which it makes before it takes the lock,
-- and let them take the lock in any order. From a log whose entries fit and are for different blocks
-- outside it, with room for as many entries as there are callers, blocks outside it are entered so
-- that the entries fit and are for different blocks outside it again, in the same place. The blocks
-- with an entry are those before and the new ones.
pub enter_each_lem :
    (bs : List ℕ) (lg : Log)
    → IsLog lg
    → IsDistinct lg
    → All (IsHome lg) bs
    → lg.n + length bs ≤ log_size
    → lg.n + length bs < lg.size
    → EnteredAll bs lg (enter_each bs lg)
enter_each_lem [] lg v d homes room inside = record {
  valid = v;
  distinct = d;
  logged = tt;
  kept = λ x l. l;
  only = λ x l. inl l;
  place = (refl, refl);
}
enter_each_lem (b ∷ bs) lg v d homes room inside =
    let e = log_enter-Entered lg b v d homes.0 (omega arith) (omega arith) in
    let more = log_enter_more b lg in
    let rest =
      enter_each_lem bs (log_enter b lg) e.valid e.distinct homes.1 (omega (arith, more, room))
        (omega (arith, more, inside)) in
    record {
      valid = rest.valid;
      distinct = rest.distinct;
      logged = (rest.kept b e.logged, rest.logged);
      kept = λ x l. rest.kept x (e.kept x l);
      only = λ x l. elim (rest.only x l) [
        | inl before ↦ elim (e.only x before) [
          | inl old ↦ inl old
          | inr here ↦ inr (inl (sym here))
        ]
        | inr later ↦ inr (inr later)
      ];
      place = rest.place;
    }
