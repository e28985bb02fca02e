-- ===== src/Tests/Volumes.antt =====
-- Tests of the blocks of a file: a volume of 100 blocks, the first 10 of them reserved, with block 8
-- as its free map and block 16 in use, a file without blocks and one that has block 16.
use os_ex.Shared.{
  ℕ, zero, suc, ◌<◌, ◌≤◌, ◌≡◌, ◌≢◌, refl, ◌∙◌, Bool-cases, inl, inr, true, false, ◌==◌, leb,
  if◌then◌else◌, List, [], ◌∷◌, replicate, get_or, none, ok, Returns, pos, of_bits, arith,
}
use os_ex.Log.{Log, Superblock, log_write}
use os_ex.Content.Ready.{Ready}
use os_ex.Inodes.{Inode}
use os_ex.Content.{write, Volume}
use os_ex.Content.Bitmap.{used}
use os_ex.Content.Fresh.{IsLaidOut, AreFree}
use os_ex.Content.Slots.{slot, IsFile}
use os_ex.Content.Placed.{slot_low, slot_high}
use os_ex.Content.Io.{writei}
use os_ex.Content.Dinode.{iupdate, load_inode}
use os_ex.Inodes.{iget}
use os_ex.Content.Trunc.{
  itrunc, free_direct, free_indirect, free_words, put_inode, ialloc, find_inode, stati,
}
use os_ex.Content.Saved.{HasFields, load_inode-iupdate}
use os_ex.Content.Truncated.{IsTruncated, itrunc_lem}
use os_ex.Content.RoundTrip.{HasPlace, IsStored, writei_lem}

abbrev pub layout : Superblock
layout = record {
  size = 100;
  nblocks = 90;
  ninodes = 20;
  nlog = 0;
  logstart = 2;
  inodestart = 2;
  bmapstart = 8;
}

-- the log of a transaction that has written nothing, and the log before it
abbrev pub rest_log : Log
rest_log = record {
  addr = 0x80112000;
  start = 2;
  size = 30;
  outstanding = pos 0;
  committing = false;
  n = 0;
  block = replicate 30 0;
}

abbrev pub begun_log : Log
begun_log = record rest_log { outstanding = pos 1 }

abbrev pub volume : Volume
volume = record {
  blocks = λ b i.
      if b == 8 then if i == 0 then 255 else if i == 1 then 3 else if i == 2 then 1 else 0 else 0;
  log = ok begun_log;
}

abbrev pub file : Inode
file = record {
  dev = 1;
  inum = 1;
  ref = pos 1;
  valid = true;
  type = pos 2;
  major = pos 0;
  minor = pos 0;
  nlink = pos 1;
  size = 0;
  addrs = replicate 13 0;
}

reserved_used : (x : ℕ) → x < 10 → used layout volume x ≢ 0
reserved_used zero lt e = absurd (omega (arith, e))
reserved_used (suc zero) lt e = absurd (omega (arith, e))
reserved_used (suc (suc zero)) lt e = absurd (omega (arith, e))
reserved_used (suc (suc (suc zero))) lt e = absurd (omega (arith, e))
reserved_used (suc (suc (suc (suc zero)))) lt e = absurd (omega (arith, e))
reserved_used (suc (suc (suc (suc (suc zero))))) lt e = absurd (omega (arith, e))
reserved_used (suc (suc (suc (suc (suc (suc zero)))))) lt e = absurd (omega (arith, e))
reserved_used (suc (suc (suc (suc (suc (suc (suc zero))))))) lt e = absurd (omega (arith, e))
reserved_used (suc (suc (suc (suc (suc (suc (suc (suc zero)))))))) lt e = absurd (omega (arith, e))
reserved_used (suc (suc (suc (suc (suc (suc (suc (suc (suc zero))))))))) lt e =
    absurd (omega (arith, e))
reserved_used (suc (suc (suc (suc (suc (suc (suc (suc (suc (suc x)))))))))) lt e =
    absurd (omega arith)

volume-IsLaidOut : IsLaidOut layout 10 volume
volume-IsLaidOut = record {
  positive = omega arith;
  start_in = omega arith;
  reserved = reserved_used;
  map_low = λ x lt. omega arith;
}

get_or-replicate : (n i : ℕ) → get_or {A = ℕ} (replicate n 0) i 0 ≡ 0
get_or-replicate zero i = refl
get_or-replicate (suc n) zero = refl
get_or-replicate (suc n) (suc i) = get_or-replicate n i

no_slot : (s : ℕ) → slot file volume s ≡ 0
no_slot s = elim (Bool-cases (leb s 12)) [
  | inl low ↦ slot_low file volume s (ground arith) ∙ get_or-replicate 13 s
  | inr high ↦ slot_high file volume s (ground arith)
]

pub file-IsFile : IsFile layout 10 file volume
file-IsFile = record {
  thirteen = refl;
  small = omega arith;
  laid_out = volume-IsLaidOut;
  owned = λ s lt ne. absurd (ne (no_slot s));
  distinct = λ s s' lt lt' differ ne. absurd (ne (no_slot s));
}

abbrev pub four_free : List ℕ
four_free = 10 ∷ 11 ∷ 12 ∷ 13 ∷ []

pub volume-AreFree : AreFree layout volume four_free
volume-AreFree = (
  ((omega arith, refl), ((omega arith, refl), ((omega arith, refl), ((omega arith, refl), tt)))),
  omega arith,
)

pub file-HasPlace : HasPlace layout 10 1
file-HasPlace = record { low = omega arith; not_map = λ x lt. omega arith }

volume-Ready : Ready layout 0 2 [] file volume
volume-Ready = (
  omega arith,
  inl (record {
    lg = begun_log;
    log = refl;
    busy = record { count = refl; idle = refl; entries = refl; long = omega arith };
    room = inl (omega arith);
  }),
)

writei_lem_example : Returns (writei layout (λ _. none) file 0 (7 ∷ 8 ∷ 9 ∷ []) volume) (λ r.
    (r.0 ≡ of_bits 3)
    × IsStored layout 10 file volume 0 (7 ∷ 8 ∷ 9 ∷ []) four_free r.1 r.2
    × Ready layout 0 0 [] r.1 r.2)
writei_lem_example =
    writei_lem layout 10 (λ _. none) file 0 (7 ∷ 8 ∷ 9 ∷ []) volume four_free 0 0 file-IsFile
      file-HasPlace refl (omega arith) (omega arith) volume-AreFree (omega arith) volume-Ready

file-HasFields : HasFields file
file-HasFields = record {
  type_short = omega arith;
  major_short = omega arith;
  minor_short = omega arith;
  nlink_short = omega arith;
  size_word = omega arith;
  thirteen = refl;
  addrs_words = omega arith;
}

load_inode-iupdate_example :
    load_inode layout (record file { valid = false; nlink = pos 7 }) (iupdate layout file volume)
    ≡ ok file
load_inode-iupdate_example =
    load_inode-iupdate layout file (record file { valid = false; nlink = pos 7 }) volume
      file-HasFields refl refl

abbrev pub small_file : Inode
small_file = record file { size = 100; addrs = 16 ∷ replicate 12 0 }

no_other_slot : (s : ℕ) → slot small_file volume (suc s) ≡ 0
no_other_slot s = elim (Bool-cases (leb (suc s) 12)) [
  | inl low ↦ slot_low small_file volume (suc s) (ground arith) ∙ get_or-replicate 12 s
  | inr high ↦ slot_high small_file volume (suc s) (ground arith)
]

small_file_owned :
    (s : ℕ)
    → s < 141
    → slot small_file volume s ≢ 0
    → (10 ≤ slot small_file volume s)
      × (slot small_file volume s < 100)
      × (used layout volume (slot small_file volume s) ≢ 0)
small_file_owned zero lt ne = (omega arith, omega arith, λ e. absurd (omega (arith, e)))
small_file_owned (suc s) lt ne = absurd (ne (no_other_slot s))

small_file_distinct :
    (s s' : ℕ)
    → s < 141
    → s' < 141
    → s ≢ s'
    → slot small_file volume s ≢ 0
    → slot small_file volume s ≢ slot small_file volume s'
small_file_distinct zero zero lt lt' differ ne = absurd (differ refl)
small_file_distinct zero (suc s') lt lt' differ ne = λ e. ne (e ∙ no_other_slot s')
small_file_distinct (suc s) s' lt lt' differ ne = absurd (ne (no_other_slot s))

pub small_file-IsFile : IsFile layout 10 small_file volume
small_file-IsFile = record {
  thirteen = refl;
  small = omega arith;
  laid_out = volume-IsLaidOut;
  owned = small_file_owned;
  distinct = small_file_distinct;
}

itrunc_lem_example :
    Returns
      (itrunc layout small_file volume)
      (λ r. IsTruncated layout 10 small_file volume small_file-IsFile r.0 r.1)
itrunc_lem_example = itrunc_lem layout 10 small_file volume small_file-IsFile file-HasPlace

-- An empty file gives no block back, and a volume without inodes has none that is free.
itrunc_runs : Returns (itrunc layout file volume) (λ r. r.1.log ≡ log_write 2 begun_log)
unfolding itrunc free_direct free_indirect iupdate write
itrunc_runs = refl

free_words_runs : Returns (free_words layout 128 (λ i. 0) volume) (λ v. v.log ≡ ok begun_log)
unfolding free_words
free_words_runs = refl

put_inode_keeps : put_inode layout file volume ≡ ok (file, volume)
unfolding put_inode
put_inode_keeps = refl

ialloc_runs :
    Returns (ialloc layout 1 (pos 2) (record file { ref = pos 0 } ∷ []) volume) (λ r. r.0 ≡ 0)
unfolding ialloc find_inode iget
ialloc_runs = refl

stati_runs : (stati file).ino ≡ 1
unfolding stati
stati_runs = refl
