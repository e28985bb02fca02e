-- ===== src/Files/Pipes.antt =====
-- `pipealloc` of code/pipe.c, over the table of files and the page allocator.
use os_ex.Shared.{
  ℕ, ◌==◌, Bool, not, true, false, if◌then◌else◌, ℤ, pos, minus_one, Result, ok, ◌>>=◌, List,
  Option, none, some, modify,
}
use os_ex.Kalloc.{Kmem, kalloc}
use os_ex.Pipe.{Pipe}
use os_ex.Files.{File, Ftable, fd_pipe, filealloc, fileclose}

-- `if(*f) fileclose(*f)`: the file is a fresh one without a type, so that no more is closed.
abbrev pub close_fresh : Option ℕ → Ftable → Result Ftable
close_fresh none files = ok files
close_fresh (some i) files = fileclose i files >>= λ r. ok r.1

-- `bad:`, which no path reaches with a page
abbrev pub undo_files :
    Option ℕ → Option ℕ → Ftable → Kmem → Result (ℤ × Option (ℕ × ℕ × Pipe) × Ftable × Kmem)
undo_files f0 f1 files k = close_fresh f0 files >>= λ files'.
    close_fresh f1 files' >>= λ files''. ok (minus_one, none, files'', k)

-- The new pipe in a page with what its bytes held before.
abbrev pub fresh_pipe : ℕ → List ℕ → Pipe
fresh_pipe p held = record {
  addr = p;
  bytes = held;
  nread = 0;
  nwrite = 0;
  readopen = true;
  writeopen = true;
}

-- The reading end or the writing end of a pipe.
abbrev pub pipe_end : Bool → ℕ → File → File
pipe_end reads p f = record f { type = fd_pipe; readable = reads; writable = not reads; pipe = p }

-- The result, and on success the two files and the pipe.
unfoldable pub pipealloc :
    List ℕ → Ftable → Kmem → Result (ℤ × Option (ℕ × ℕ × Pipe) × Ftable × Kmem)
pipealloc held files k =
    let (o0, files1) = filealloc files in
    elim o0 [
      | none ↦ undo_files none none files1 k
      | some f0 ↦
          let (o1, files2) = filealloc files1 in
          elim o1 [
            | none ↦ undo_files (some f0) none files2 k
            | some f1 ↦
                let (p, k') = kalloc k in
                if p == 0
                then undo_files (some f0) (some f1) files2 k'
                else ok (
                  pos 0,
                  some (f0, f1, fresh_pipe p held),
                  modify (modify files2 f0 (pipe_end true p)) f1 (pipe_end false p),
                  k',
                )
          ]
    ]
