-- ===== src/Spinlock/Nesting.antt =====
-- Matched calls of `pushcli` and `popcli` of code/spinlock.c, nested in any way, leave a processor as
-- it was; between them no interrupt comes in.
use os_ex.Shared.{
  ℕ, zero, suc, ◌+◌, ◌<◌, ◌^◌, ◌≡◌, refl, false, ◌&&◌, if◌then◌else◌, pos, add_int, eq_int,
  add_int-pos, sub_int-pos, lt_int-pos, Result, ok, ◌>>=◌, arith, ◌∙◌, ap, sym,
}
use os_ex.Spinlock.{Cpu, pushcli, popcli}

-- Code by its calls: none, or `pushcli`, some code, `popcli`, and the rest.
pub data Code : Type 0 where
  done : Code
  guarded : Code → Code → Code

pub run : Code → Cpu → Result Cpu
run done c = ok c
run (guarded body rest) c = run body (pushcli c) >>= λ c'. popcli c' >>= λ c''. run rest c''

abbrev pub depth : Code → ℕ
depth done = 0
depth (guarded body rest) = suc (depth body) + depth rest

-- Within `n` calls of `pushcli` interrupts are off.
pub record IsCpu (n : ℕ) (c : Cpu) : Type 0 where
  pub count : c.ncli ≡ pos n
  pub off : 0 < n → c.interrupts ≡ false

-- The processor is as it was; outside all calls `intena` is not read.
pub record Restored (n : ℕ) (c c' : Cpu) : Type 0 where
  pub count : c'.ncli ≡ pos n
  pub interrupts : c'.interrupts ≡ c.interrupts
  pub intena : 0 < n → c'.intena ≡ c.intena

pushcli-IsCpu : (n : ℕ) (c : Cpu) → n + 1 < 2 ^ 31 → IsCpu n c → IsCpu (suc n) (pushcli c)
unfolding pushcli
pushcli-IsCpu n c h i = record {
  count = ap (λ x. add_int x (pos 1)) i.count ∙ add_int-pos n h ∙ ap pos (omega arith);
  off = λ p. refl;
}

-- what the outermost call is to restore
pushcli-intena :
    (n : ℕ) (c : Cpu)
    → c.ncli ≡ pos n
    → (pushcli c).intena ≡ (if eq_int (pos n) (pos 0) then c.interrupts else c.intena)
unfolding pushcli
pushcli-intena n c e = rw e refl

popcli-ok :
    (n : ℕ) (c : Cpu)
    → n + 1 < 2 ^ 31
    → c.ncli ≡ pos (suc n)
    → c.interrupts ≡ false
    → popcli c ≡ ok (record c { ncli = pos n; interrupts = eq_int (pos n) (pos 0) && c.intena })
unfolding popcli
popcli-ok n c h e off = rw (popcli, off, e, sub_int-pos n h, lt_int-pos n) refl

not_zero : (n : ℕ) → eq_int (pos (suc n)) (pos 0) ≡ false
not_zero n = ground arith

popcli-Restored :
    (n : ℕ) (c c' : Cpu)
    → n + 1 < 2 ^ 31
    → IsCpu n c
    → Restored (suc n) (pushcli c) c'
    → (c'' : Cpu) × (popcli c' ≡ ok c'') × Restored n c c''
unfolding pushcli
popcli-Restored zero c c' h i r = (
  record c' { ncli = pos 0; interrupts = c'.intena },
  popcli-ok 0 c' h r.count r.interrupts,
  record {
    count = refl;
    interrupts = r.intena (omega arith) ∙ pushcli-intena 0 c i.count;
    intena = λ p. absurd (omega (arith, p));
  },
)
popcli-Restored (suc n) c c' h i r = (
  record c' { ncli = pos (suc n); interrupts = false },
  popcli-ok (suc n) c' h r.count r.interrupts ∙ rw (not_zero n) refl,
  record {
    count = refl;
    interrupts = sym (i.off (omega arith));
    intena = λ p. r.intena (omega arith) ∙ pushcli-intena (suc n) c i.count ∙ rw (not_zero n) refl;
  },
)

Restored-IsCpu : (n : ℕ) (c c' : Cpu) → IsCpu n c → Restored n c c' → IsCpu n c'
Restored-IsCpu n c c' i r = record { count = r.count; off = λ p. r.interrupts ∙ i.off p }

Restored-trans : (n : ℕ) (c c' c'' : Cpu) → Restored n c c' → Restored n c' c'' → Restored n c c''
Restored-trans n c c' c'' r s = record {
  count = s.count;
  interrupts = s.interrupts ∙ r.interrupts;
  intena = λ p. s.intena p ∙ r.intena p;
}

-- On a processor within `n` calls of `pushcli`, with interrupts off if there are any, code whose
-- calls match does not panic if the count cannot wrap. It leaves the count and the flag for
-- interrupts as they were, and within other calls what the outermost is to restore.
pub run-Restored :
    (code : Code) (n : ℕ) (c : Cpu)
    → n + depth code + 1 < 2 ^ 31
    → IsCpu n c
    → (c' : Cpu) × (run code c ≡ ok c') × Restored n c c'
unfolding run
run-Restored done n c h i =
    (c, refl, record { count = i.count; interrupts = refl; intena = λ p. refl })
run-Restored (guarded body rest) n c h i =
    let pushed = pushcli-IsCpu n c (omega arith) i in
    let (c1, e1, r1) = run-Restored body (suc n) (pushcli c) (omega arith) pushed in
    let (c2, e2, r2) = popcli-Restored n c c1 (omega arith) i r1 in
    let (c3, e3, r3) = run-Restored rest n c2 (omega arith) (Restored-IsCpu n c c2 i r2) in
    (c3, rw (e1, e2, e3) refl, Restored-trans n c c2 c3 r2 r3)
