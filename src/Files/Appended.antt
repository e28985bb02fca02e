-- ===== src/Files/Appended.antt =====
-- An open file of code/file.c to which a round of `filewrite` has written, and two rounds together.
use os_ex.Shared.{
  ℕ, ◌+◌, ◌*◌, ◌%◌, ◌^◌, ◌<◌, ◌≤◌, ◌≡◌, refl, sym, subst, ap, ◌∙◌, true, false, eq_int, lt_int, ok,
  Result, List, [], ◌++◌, length, length-append, pos, of_bits, arith,
}
use os_ex.Log.{Log, Superblock}
use os_ex.Proc.{Procs}
use os_ex.Inodes.{Inode}
use os_ex.Files.{File}
use os_ex.Content.{Volume, block_size, maxfile}
use os_ex.Content.Slots.{file_byte, IsFile}
use os_ex.Content.Dinode.{load_inode}
use os_ex.Content.Io.{t_dev}
use os_ex.Content.Store.{patched, patched_outside}
use os_ex.Content.Patches.{patched-append, patched_same}
use os_ex.Content.RoundTrip.{HasPlace, IsStored, grown_size}
use os_ex.Files.Data.{Opened, advance, with_log}

pub of_bits_small : (n : ℕ) → n < 2 ^ 31 → of_bits n ≡ pos n
of_bits_small n lt = ground arith

pub load_inode_lem :
    (sb : Superblock) (ip : Inode) (v : Volume) → ip.valid ≡ true → load_inode sb ip v ≡ ok ip
unfolding load_inode
load_inode_lem sb ip v loaded = rw loaded refl

abbrev pub moved_to : File → ℕ → File
moved_to f n = record f { off = n }

abbrev pub moved_by : File → ℕ → File
moved_by f n = moved_to f (f.off + n)

-- An open file with a loaded inode that is not a device's, at an offset that is not past its end.
module _ (sb : Superblock) (start : ℕ) where
  pub record IsOpen (o : Opened) : Type 0 where
    pub loaded : o.inode.valid ≡ true
    pub file : IsFile sb start o.inode o.volume
    pub place : HasPlace sb start o.inode.inum
    pub not_device : eq_int o.inode.type t_dev ≡ false
    pub within : o.file.off ≤ o.inode.size

  pub record IsAppended (o : Opened) (bs : List ℕ) (o' : Opened) : Type 0 where
    pub still_open : IsOpen o'
    pub moved : o'.file ≡ record (o.file) { off = o.file.off + length bs }
    pub bytes :
        (i : ℕ)
        → i < maxfile * block_size
        → file_byte o'.inode o'.volume i
          ≡ patched o.file.off bs (λ j. file_byte o.inode o.volume j) i
    pub size : o'.inode.size ≡ grown_size o.inode (length bs) (o.file.off + length bs)

  pub nothing-IsAppended : (o : Opened) → IsOpen o → IsAppended o [] o
  nothing-IsAppended o p = record {
    still_open = p;
    moved =
        let e : o.file.off ≡ o.file.off + 0 = omega arith in
        ap (λ n. record (o.file) { off = n }) e;
    bytes = λ i lt. sym (
        patched_outside o.file.off [] (λ j. file_byte o.inode o.volume j) i
          (λ low high. absurd (omega arith)));
    size = refl;
  }

  -- The open file after a round that has written bytes.
  abbrev pub after_round : Opened → List ℕ → Inode → Volume → Opened
  after_round o here ip' v' = record o {
    file = advance (pos (length here)) o.file;
    inode = ip';
    volume = v';
  }

  pub round-IsAppended :
      (o : Opened) (here fs : List ℕ) (ip' : Inode) (v' : Volume)
      → IsOpen o
      → 0 < length here
      → o.file.off + length here ≤ maxfile * block_size
      → IsStored sb start o.inode o.volume o.file.off here fs ip' v'
      → IsAppended o here (after_round o here ip' v')
  round-IsAppended o here fs ip' v' p some_here top s =
      let no_wrap : (o.file.off + length here) % 2 ^ 32 ≡ o.file.off + length here = omega arith in
      let more : lt_int (pos 0) (pos (length here)) ≡ true = ground arith in
      let moved : advance (pos (length here)) o.file
          ≡ record (o.file) { off = o.file.off + length here } =
        rw (more, no_wrap) refl in
      record {
        still_open = record {
          loaded = s.valid_kept ∙ p.loaded;
          file = s.file;
          place = subst (λ n. HasPlace sb start n) (sym s.inum_kept) p.place;
          not_device = ap (λ t. eq_int t t_dev) s.type_kept ∙ p.not_device;
          within =
              let w = p.within in
              subst (λ f. f.off ≤ ip'.size) (sym moved) (ground (arith, s.size, w));
        };
        moved = moved;
        bytes = s.bytes;
        size = s.size;
      }

  pub append-IsAppended :
      (o o1 o2 : Opened) (here left : List ℕ)
      → IsAppended o here o1
      → IsAppended o1 left o2
      → IsAppended o (here ++ left) o2
  append-IsAppended o o1 o2 here left p q =
      let both = length-append here left in
      let off1 : o1.file.off ≡ o.file.off + length here = ap (λ f. f.off) p.moved in
      let end : o.file.off + length here + length left ≡ o.file.off + length (here ++ left) =
        omega (arith, both) in
      record {
        still_open = q.still_open;
        moved =
            q.moved ∙ ap (λ f. moved_by f (length left)) p.moved ∙ ap (λ n. moved_to o.file n) end;
        bytes = λ i lt.
            q.bytes i lt
            ∙ ap (λ n. patched n left (λ j. file_byte o1.inode o1.volume j) i) off1
            ∙ patched_same (o.file.off + length here) left (λ j. file_byte o1.inode o1.volume j)
                (patched o.file.off here (λ j. file_byte o.inode o.volume j)) i (p.bytes i lt)
            ∙ patched-append o.file.off here left (λ j. file_byte o.inode o.volume j) i;
        size = ground (arith, q.size, p.size, off1, end);
      }

  -- The log and the processes are no part of what is open and what was written.
  pub IsFile-log :
      (ip : Inode) (v : Volume) (l : Result Log)
      → IsFile sb start ip v
      → IsFile sb start ip (record v { log = l })
  IsFile-log ip v l f = record {
    thirteen = f.thirteen;
    small = f.small;
    laid_out = record {
      positive = f.laid_out.positive;
      start_in = f.laid_out.start_in;
      reserved = f.laid_out.reserved;
      map_low = f.laid_out.map_low;
    };
    owned = f.owned;
    distinct = f.distinct;
  }

  pub with_log-IsOpen :
      (o : Opened) (lg : Log) (procs : Procs) → IsOpen o → IsOpen (with_log o lg procs)
  with_log-IsOpen o lg procs p = record {
    loaded = p.loaded;
    file = IsFile-log o.inode o.volume (ok lg) p.file;
    place = p.place;
    not_device = p.not_device;
    within = p.within;
  }

  pub with_log-IsAppended :
      (o o' : Opened) (here : List ℕ) (lg lg' : Log) (procs procs' : Procs)
      → IsAppended (with_log o lg procs) here o'
      → IsAppended o here (with_log o' lg' procs')
  with_log-IsAppended o o' here lg lg' procs procs' a = record {
    still_open = with_log-IsOpen o' lg' procs' a.still_open;
    moved = a.moved;
    bytes = a.bytes;
    size = a.size;
  }
