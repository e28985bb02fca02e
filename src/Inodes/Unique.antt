-- ===== src/Inodes/Unique.antt =====
-- An inode of code/fs.c has at most one entry in the cache, so that its users share it.
use os_ex.Shared.{
  ℕ, ◌+◌, ◌<◌, ◌^◌, ◌≡◌, ◌≢◌, ◌⊎◌, inl, inr, refl, true, false, All, All_get_elem?, All_weaken,
  some, get_elem?, modify, find_index-cases, get_elem?-modify_self, get_elem?-modify_ne,
  some-injective, get_elem?-modify-cases, pos, add_int, add_int-pos, lt_int, ok, panic, arith, ◌∙◌,
  ap, sym,
}
use os_ex.Inodes.{Inode, Icache, is_inode, is_unreferenced, once_more, taken, iget}

-- Entry `i` is in use, with `n` references, for the inode.
pub record Refers (dev inum n : ℕ) (ip : Inode) : Type 0 where
  pub count : ip.ref ≡ pos n
  pub used : 0 < n
  pub names : (ip.dev ≡ dev) × (ip.inum ≡ inum)

pub record IsIcache (inodes : Icache) : Type 0 where
  -- Counts are numbers that do not wrap when they grow by one.
  pub counts :
      (i : ℕ) (ip : Inode)
      → get_elem? inodes i ≡ some ip
      → (n : ℕ) × (ip.ref ≡ pos n) × (n + 1 < 2 ^ 31)
  pub unique :
      (i j dev inum n m : ℕ) (ip ip' : Inode)
      → get_elem? inodes i ≡ some ip
      → get_elem? inodes j ≡ some ip'
      → Refers dev inum n ip
      → Refers dev inum m ip'
      → i ≡ j

-- What `iget` leaves: one entry changed, which is in use for the inode, no two entries for one.
pub record Got (dev inum i : ℕ) (inodes inodes' : Icache) : Type 0 where
  pub entry : Inode
  pub there : get_elem? inodes' i ≡ some entry
  pub refs : ℕ
  pub refers : Refers dev inum (refs + 1) entry
  pub before : ((ip : Inode) → get_elem? inodes i ≡ some ip → ip.ref ≡ pos refs)
  pub others : (j : ℕ) → i ≢ j → get_elem? inodes' j ≡ get_elem? inodes j
  pub unique :
      (j k dev' inum' n m : ℕ) (ip ip' : Inode)
      → get_elem? inodes' j ≡ some ip
      → get_elem? inodes' k ≡ some ip'
      → Refers dev' inum' n ip
      → Refers dev' inum' m ip'
      → j ≡ k

is_inode-true :
    (dev inum : ℕ) (ip : Inode)
    → is_inode dev inum ip ≡ true
    → (ip.dev ≡ dev) × (ip.inum ≡ inum) × (lt_int (pos 0) ip.ref ≡ true)
is_inode-true dev inum ip h = ground arith

is_inode-false :
    (dev inum n : ℕ) (ip : Inode) → is_inode dev inum ip ≡ false → ¬ Refers dev inum n ip
is_inode-false dev inum n ip h r = absurd (refuted r.count r.used r.names)
  where
    refuted : ip.ref ≡ pos n → 0 < n → (ip.dev ≡ dev) × (ip.inum ≡ inum) → ⊥
    refuted c u e = ground arith

module _ (dev inum : ℕ) (inodes : Icache) (k : IsIcache inodes) (i : ℕ) (ip : Inode)
    (at : get_elem? inodes i ≡ some ip) where
  -- A change of entry `i` that leaves its names, or gives it names that no other entry has.
  changed_unique :
      (f : Inode → Inode) (n : ℕ)
      → Refers dev inum n (f ip)
      → ((j m : ℕ) (ip' : Inode) → j ≢ i → get_elem? inodes j ≡ some ip' → ¬ Refers dev inum m ip')
      → (j l dev' inum' n' m : ℕ) (x y : Inode) → get_elem? (modify inodes i f) j ≡ some x
      → get_elem? (modify inodes i f) l ≡ some y
      → Refers dev' inum' n' x
      → Refers dev' inum' m y
      → j ≡ l
  changed_unique f n new alone j l dev' inum' n' m x y e e' r r' =
      elim (get_elem?-modify-cases inodes i j f ip x at e) [
        | inl (p, q) ↦ elim (get_elem?-modify-cases inodes i l f ip y at e') [
          | inl (p', q') ↦ p ∙ sym p'
          | inr (ne, was) ↦ absurd (
              alone l m y ne was (record {
                count = r'.count;
                used = r'.used;
                names = (
                  r'.names.0 ∙ sym r.names.0 ∙ ap (λ z. z.dev) q ∙ new.names.0,
                  r'.names.1 ∙ sym r.names.1 ∙ ap (λ z. z.inum) q ∙ new.names.1,
                );
              }))
        ]
        | inr (ne, was) ↦ elim (get_elem?-modify-cases inodes i l f ip y at e') [
          | inl (p', q') ↦ absurd (
              alone j n' x ne was (record {
                count = r.count;
                used = r.used;
                names = (
                  r.names.0 ∙ sym r'.names.0 ∙ ap (λ z. z.dev) q' ∙ new.names.0,
                  r.names.1 ∙ sym r'.names.1 ∙ ap (λ z. z.inum) q' ∙ new.names.1,
                );
              }))
          | inr (ne', was') ↦ k.unique j l dev' inum' n' m x y was was' r r'
        ]
      ]

  changed-Got :
      (f : Inode → Inode) (n : ℕ)
      → ip.ref ≡ pos n
      → Refers dev inum (n + 1) (f ip)
      → ((j m : ℕ) (ip' : Inode) → j ≢ i → get_elem? inodes j ≡ some ip' → ¬ Refers dev inum m ip')
      → Got dev inum i inodes (modify inodes i f)
  changed-Got f n was new alone = record {
    entry = f ip;
    there = get_elem?-modify_self inodes i f ip at;
    refs = n;
    refers = new;
    before = λ x e. ap (λ z. z.ref) (some-injective x ip (sym e ∙ at)) ∙ was;
    others = λ j ne. get_elem?-modify_ne inodes i j f ne;
    unique = changed_unique f (n + 1) new alone;
  }

-- In a cache whose counts do not wrap and which has no inode twice, `iget` either panics, all entries
-- being in use, or returns an entry of the inode with one reference more than it had. It leaves the
-- other entries, and again no inode has two.
pub iget_lem :
    (dev inum : ℕ) (inodes : Icache)
    → IsIcache inodes
    → ((iget dev inum inodes ≡ panic) × All (λ ip. ip.ref ≢ pos 0) inodes)
      ⊎ ((i : ℕ) × (inodes' : Icache) × (iget dev inum inodes ≡ ok (i, inodes'))
          × Got dev inum i inodes inodes')
unfolding iget
iget_lem dev inum inodes k = elim (find_index-cases (is_inode dev inum) inodes) [
  | inr (i, e, f) ↦
      let (n, count, few) = k.counts i f.entry f.there in
      let (d, q, used) = is_inode-true dev inum f.entry f.passes in
      let refers : Refers dev inum n f.entry = record {
        count = count;
        used = positive n f.entry count used;
        names = (d, q);
      } in
      inr (
        i,
        modify inodes i once_more,
        rw (iget, e) refl,
        changed-Got dev inum inodes k i f.entry f.there once_more n count
            (record {
              count = ap (λ z. add_int z (pos 1)) count ∙ add_int-pos n few;
              used = omega arith;
              names = (d, q);
            })
            (λ j m x ne was r. ne (k.unique j i dev inum m n x f.entry was f.there r refers)),
      )
  | inl (e, none_for) ↦ elim (find_index-cases is_unreferenced inodes) [
    | inr (i, e', f) ↦ inr (
      i,
      modify inodes i (taken dev inum),
      rw (iget, e, e') refl,
      changed-Got dev inum inodes k i f.entry f.there (taken dev inum) 0 (empty f.entry f.passes)
          (record { count = refl; used = omega arith; names = (refl, refl) })
          (λ j m x ne was.
            is_inode-false dev inum m x
              (All_get_elem? (λ z. is_inode dev inum z ≡ false) inodes j x none_for was)),
    )
    | inl (e', none_empty) ↦ inl (
      rw (iget, e, e') refl,
      All_weaken (λ z. is_unreferenced z ≡ false) _ inodes not_empty none_empty,
    )
  ]
]
  where
    positive : (n : ℕ) (ip : Inode) → ip.ref ≡ pos n → lt_int (pos 0) ip.ref ≡ true → 0 < n
    positive n ip c u = ground arith

    empty : (ip : Inode) → is_unreferenced ip ≡ true → ip.ref ≡ pos 0
    empty ip h = ground arith

    not_empty : (ip : Inode) → is_unreferenced ip ≡ false → ip.ref ≢ pos 0
    not_empty ip h q = ground arith
