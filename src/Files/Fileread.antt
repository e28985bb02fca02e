-- ===== src/Files/Fileread.antt =====
-- `fileread` of code/file.c on a file with an inode.
use os_ex.Shared.{
  ℕ, eq_int, false, ◌+◌, ◌*◌, ◌%◌, ◌^◌, ◌<◌, ◌≤◌, ◌≡◌, refl, ap, ◌∙◌, Bool-cases, inl, inr, true,
  lt_int, ok, Option, List, ℤ, pos, of_bits, arith,
}
use os_ex.Log.{Log, Superblock}
use os_ex.Proc.Wait.{returned}
use os_ex.Files.{File, fd_inode}
use os_ex.Content.{block_size, maxfile}
use os_ex.Content.Io.{t_dev, readi}
use os_ex.Content.Reading.{read_length, file_bytes, IsSolid, readi_lem}
use os_ex.Files.Data.{Opened, advance, fileread, finish_fileread}
use os_ex.Files.Appended.{load_inode_lem, moved_to, of_bits_small}

abbrev with_file : Opened → File → Opened
with_file o f = record o { file = f }

advance_lem :
    (n : ℕ) (f : File)
    → n < 2 ^ 31
    → f.off + n < 2 ^ 32
    → advance (of_bits n) f ≡ moved_to f (f.off + n)
advance_lem n f short top =
    let no_wrap : (f.off + n) % 2 ^ 32 ≡ f.off + n = omega arith in
    rw (of_bits_small n short) (elim (Bool-cases (lt_int (pos 0) (pos n))) [
      | inl some_read ↦ rw (some_read, no_wrap) refl
      | inr none_read ↦
          let still : f.off ≡ f.off + n = ground arith in
          rw none_read (ap (λ k. moved_to f k) still)
    ])

module _ (sb : Superblock) where
  fileread-inode :
      (devsw : ℕ → Option (ℕ → ℤ × List ℕ)) (self n : ℕ) (o : Opened)
      → o.file.readable ≡ true
      → o.file.type ≡ fd_inode
      → o.inode.valid ≡ true
      → fileread sb devsw self n o
        ≡ finish_fileread o (readi sb devsw o.inode o.file.off n o.volume)
  unfolding fileread
  fileread-inode devsw self n o readable inode loaded =
      simp (readable, inode, load_inode_lem sb o.inode o.volume loaded)

  -- Reading through a readable file with an inode, which is loaded, of at most MAXFILE blocks and not
  -- a device's, at an offset that is not past its end and from which `n` bytes end below 2^32, with no
  -- hole where it reads and no panic of the log before, returns the number of bytes that there are from
  -- the offset on, `n` at most (0 at the end of the file), and these bytes. No operation need be in
  -- progress on the log. Nothing changes but the offset, which has moved by that number.
  pub fileread_lem :
      (devsw : ℕ → Option (ℕ → ℤ × List ℕ)) (self n : ℕ) (o : Opened) (lg : Log)
      → o.file.readable ≡ true
      → o.file.type ≡ fd_inode
      → o.inode.valid ≡ true
      → eq_int o.inode.type t_dev ≡ false
      → o.file.off ≤ o.inode.size
      → o.inode.size ≤ maxfile * block_size
      → o.file.off + n < 2 ^ 32
      → IsSolid o.inode o.volume o.file.off (read_length o.inode o.file.off n)
      → o.volume.log ≡ ok lg
      → let m = read_length o.inode o.file.off n in
        fileread sb devsw self n o
        ≡ ok (
          returned (of_bits m, file_bytes o.inode o.volume o.file.off m),
          record o { file = moved_to o.file (o.file.off + m) },
        )
  fileread_lem devsw self n o lg readable inode loaded file low size top solid log =
      let m = read_length o.inode o.file.off n in
      let bs = file_bytes o.inode o.volume o.file.off m in
      let small : o.file.off + m ≤ o.inode.size = ground arith in
      fileread-inode devsw self n o readable inode loaded
      ∙ ap (λ q. finish_fileread o q)
          (readi_lem sb devsw o.inode o.file.off n o.volume lg file size low top solid log)
      ∙ ap (λ k. ok (returned (of_bits m, bs), with_file o k))
          (advance_lem m o.file (omega arith) (omega arith))
