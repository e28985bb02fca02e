-- ===== src/Tests/Transfers.antt =====
-- Tests of reading and writing through an open file.
use os_ex.Shared.{
  ◌≡◌, sym, ◌∙◌, of_bits, ◌/◌, ◌+◌, refl, true, false, [], ◌∷◌, replicate, none, ok, panic, Returns,
  pos, minus_one, arith,
}
use os_ex.Proc.{running}
use os_ex.Proc.Wait.{returned}
use os_ex.Files.{fd_inode, fd_none}
use os_ex.Files.Data.{
  Opened, write_rounds, next_bytes, filewrite, filewrite_resume, fileread, filestat,
}
use os_ex.Log.{log_write}
use os_ex.Content.Io.{readi, read_chunks}
use os_ex.Content.Dinode.{load_inode}
use os_ex.Content.{bmap, direct_block, balloc, balloc_from, scan, mark, bzero, write}
use os_ex.Content.Slots.{slot, slot_of}
use os_ex.Content.Reading.{IsSolid, file_bytes}
use os_ex.Files.Appended.{moved_to}
use os_ex.Files.Fileread.{fileread_lem}
use os_ex.Tests.{process}
use os_ex.Tests.Volumes.{rest_log, small_file, layout, volume, file}

abbrev opened : Opened
opened = record {
  file = record {
    type = fd_inode;
    ref = pos 1;
    readable = true;
    writable = true;
    pipe = 0;
    ip = 0;
    off = 0;
  };
  inode = file;
  volume = record volume { log = ok rest_log };
  pipes = record {
    pipe = record {
      addr = 0x80401000;
      bytes = replicate 512 0;
      nread = 0;
      nwrite = 0;
      readopen = true;
      writeopen = true;
    };
    procs = process running 1 none ∷ [];
  };
}

-- a file of 100 bytes in block 16, without a transaction
abbrev short_opened : Opened
short_opened = record opened { inode = small_file }

short_opened-IsSolid : IsSolid small_file short_opened.volume 0 5
short_opened-IsSolid i lt e =
    let first : (0 + i) / 512 ≡ 0 = omega arith in
    let block : slot small_file short_opened.volume (slot_of ((0 + i) / 512)) ≡ 16 =
      rw first refl in
    omega (arith, sym block ∙ e)

fileread_lem_example :
    fileread layout (λ _. none) 0 5 short_opened
    ≡ ok (
      returned (of_bits 5, file_bytes small_file short_opened.volume 0 5),
      record short_opened { file = moved_to short_opened.file 5 },
    )
fileread_lem_example =
    fileread_lem layout (λ _. none) 0 5 short_opened rest_log refl refl refl refl (omega arith)
      (omega arith) (omega arith) short_opened-IsSolid refl

-- Where a block is missing, the read would allocate it, and panics without a transaction.
abbrev hollow : Opened
hollow = record opened { inode = record file { size = 5 } }

hole_panics : fileread layout (λ _. none) 0 5 hollow ≡ panic
unfolding fileread readi read_chunks bmap direct_block balloc balloc_from scan mark bzero write
    log_write load_inode
hole_panics = refl

-- A file that is not open for the transfer, and one without an inode.
abbrev shut : Opened
shut = record opened {
  file = record (opened.file) { type = fd_none; readable = false; writable = false };
}

filewrite_refuses :
    Returns (filewrite layout (λ _. none) 0 (7 ∷ []) shut) (λ r. r.0 ≡ returned minus_one)
unfolding filewrite
filewrite_refuses = refl

fileread_refuses :
    Returns (fileread layout (λ _. none) 0 5 shut) (λ r. r.0 ≡ returned (minus_one, []))
unfolding fileread
fileread_refuses = refl

filestat_refuses : Returns (filestat layout shut) (λ r. r.0 ≡ minus_one)
unfolding filestat
filestat_refuses = refl

nothing_to_write : write_rounds layout (λ _. none) 0 3 [] opened ≡ ok (returned true, [], opened)
unfolding write_rounds
nothing_to_write = refl

one_round : next_bytes (7 ∷ 8 ∷ []) ≡ (7 ∷ 8 ∷ [], [])
unfolding next_bytes
one_round = refl

resume_finishes :
    Returns (filewrite_resume layout (λ _. none) 0 3 [] opened) (λ r. r.0 ≡ returned (pos 3))
unfolding filewrite_resume write_rounds
resume_finishes = refl
