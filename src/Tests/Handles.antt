-- ===== src/Tests/Handles.antt =====
-- Tests of the file table and the descriptors.
use os_ex.Shared.{
  ℕ, zero, suc, ◌+◌, ◌≡◌, refl, true, false, [], ◌∷◌, Option, none, some, get_elem?, ℤ, pos, ok,
  arith, ◌<◌, ◌^◌, minus_one, Returns,
}
use os_ex.Kalloc.{Kmem, kalloc}
use os_ex.Files.{File, fd_inode, fd_none, Open, filealloc, sys_dup, sys_close}
use os_ex.Files.Pipes.{pipealloc, fresh_pipe}
use os_ex.Files.Counts.{Counted, IsCounted, holds}
use os_ex.Files.Descriptors.{sys_dup-Counted, sys_close-Counted}

-- an open file with inode 7 and two references, one of them of another process
abbrev file : File
file = record {
  type = fd_inode;
  ref = pos 2;
  readable = true;
  writable = false;
  pipe = 0;
  ip = 7;
  off = 0;
}

abbrev elsewhere : ℕ → ℕ
elsewhere zero = 1
elsewhere (suc f) = 0

abbrev one_open : Open
one_open = record { ofile = some 0 ∷ none ∷ []; files = file ∷ [] }

one_open-IsCounted : IsCounted elsewhere one_open
one_open-IsCounted = record { counted = counted; exist = exist; few = few }
  where
    counted : Counted elsewhere one_open
    counted zero x e = cc e
    counted (suc f) x e = cc e

    exist :
        (fd f : ℕ)
        → get_elem? one_open.ofile fd ≡ some (some f)
        → (x : File) × (get_elem? one_open.files f ≡ some x)
    exist zero zero e = (file, refl)
    exist zero (suc f) e = cc e
    exist (suc zero) f e = cc e
    exist (suc (suc fd)) f e = cc e

    few : (f : ℕ) → holds f one_open.ofile + elsewhere f + 1 < 2 ^ 31
    few zero = omega arith
    few (suc f) = ground arith

sys_dup-Counted_example :
    (r : ℤ) × (s' : Open) × (sys_dup (pos 0) one_open ≡ ok (r, s')) × Counted elsewhere s'
sys_dup-Counted_example = sys_dup-Counted elsewhere one_open one_open-IsCounted (pos 0)

sys_close-Counted_example :
    (r : ℤ) × (o : Option File) × (s' : Open) × (sys_close (pos 0) one_open ≡ ok (r, o, s'))
    × Counted elsewhere s'
sys_close-Counted_example = sys_close-Counted elsewhere one_open one_open-IsCounted (pos 0)

-- A free entry is the first without references.
second_free : (filealloc (file ∷ record file { ref = pos 0 } ∷ [])).0 ≡ some 1
unfolding filealloc
second_free = refl

-- A pipe needs two files that are not in use and a page.
abbrev free_file : File
free_file = record {
  type = fd_none;
  ref = pos 0;
  readable = false;
  writable = false;
  pipe = 0;
  ip = 0;
  off = 0;
}

abbrev one_page : Kmem
one_page = record { use_lock = true; freelist = 0x80401000; memory = λ a. 0 }

pipealloc_runs :
    Returns
      (pipealloc [] (file ∷ free_file ∷ free_file ∷ []) one_page)
      (λ r. (r.0 ≡ pos 0) × (r.1 ≡ some (1, 2, fresh_pipe 0x80401000 [])) × (r.3.freelist ≡ 0))
unfolding pipealloc filealloc kalloc
pipealloc_runs = (refl, refl, refl)

no_file :
    Returns
      (pipealloc [] (file ∷ []) one_page)
      (λ r. (r.0 ≡ minus_one) × (r.2 ≡ file ∷ []) × (r.3 ≡ one_page))
unfolding pipealloc filealloc
no_file = (refl, refl, refl)
