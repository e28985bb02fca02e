-- ===== src/Tests/Entries.antt =====
-- Tests of the inode cache.
use os_ex.Shared.{
  ℕ, zero, suc, ◌+◌, ◌<◌, ◌^◌, ◌≡◌, ◌≢◌, ◌⊎◌, refl, All, true, [], ◌∷◌, some, get_elem?, replicate,
  pos, ok, panic, arith, add_int, sub_int,
}
use os_ex.Inodes.{Inode, Icache, iget, idup, drop_ref}
use os_ex.Inodes.Unique.{Refers, IsIcache, Got, iget_lem}

abbrev inode : Inode
inode = record {
  dev = 1;
  inum = 7;
  ref = pos 1;
  valid = true;
  type = pos 2;
  major = pos 0;
  minor = pos 0;
  nlink = pos 1;
  size = 0;
  addrs = replicate 13 0;
}

-- one inode in use, and an empty entry
abbrev two_inodes : Icache
two_inodes = inode ∷ record inode { inum = 0; dev = 0; ref = pos 0 } ∷ []

unused : (n : ℕ) (ip : Inode) → ip.ref ≡ pos 0 → ip.ref ≡ pos n → 0 < n → ⊥
unused n ip z c u = ground arith

two_inodes-IsIcache : IsIcache two_inodes
two_inodes-IsIcache = record { counts = counts; unique = unique }
  where
    counts :
        (i : ℕ) (ip : Inode)
        → get_elem? two_inodes i ≡ some ip
        → (n : ℕ) × (ip.ref ≡ pos n) × (n + 1 < 2 ^ 31)
    counts zero ip e = (1, cc e, omega arith)
    counts (suc zero) ip e = (0, cc e, omega arith)
    counts (suc (suc i)) ip e = cc e

    unique :
        (i j dev inum n m : ℕ) (ip ip' : Inode)
        → get_elem? two_inodes i ≡ some ip
        → get_elem? two_inodes j ≡ some ip'
        → Refers dev inum n ip
        → Refers dev inum m ip'
        → i ≡ j
    unique zero zero dev inum n m ip ip' e e' r r' = refl
    unique zero (suc zero) dev inum n m ip ip' e e' r r' =
        absurd (unused m ip' (cc e') r'.count r'.used)
    unique zero (suc (suc j)) dev inum n m ip ip' e e' r r' = cc e'
    unique (suc zero) j dev inum n m ip ip' e e' r r' = absurd (unused n ip (cc e) r.count r.used)
    unique (suc (suc i)) j dev inum n m ip ip' e e' r r' = cc e

iget_lem_example :
    ((iget 1 9 two_inodes ≡ panic) × All (λ ip. ip.ref ≢ pos 0) two_inodes)
    ⊎ ((i : ℕ) × (inodes' : Icache) × (iget 1 9 two_inodes ≡ ok (i, inodes'))
        × Got 1 9 i two_inodes inodes')
iget_lem_example = iget_lem 1 9 two_inodes two_inodes-IsIcache

-- A reference that is taken and dropped leaves the entry.
dup_and_drop : drop_ref 0 (idup 0 two_inodes) ≡ two_inodes
unfolding drop_ref idup add_int sub_int
dup_and_drop = refl
