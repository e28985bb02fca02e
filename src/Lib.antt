-- ===== src/Lib.antt =====
-- A verification library for the kernel of this repository: xv6 with a page allocator, processes,
-- threads, semaphores, selectable schedulers, pipes and a file system, in C under code/.
--
-- The parts that are modelled, and where:
--
-- - Kalloc: code/kalloc.c. The state `Kmem` has the head of the free list and a memory of words
--   through which the list runs. Below it, FreeList refines the list to a stack of pages, and Range
--   is the loop of `freerange`.
-- - Vm: code/vm.c. Tables is the translation of addresses that a page table stands for, Walk and
--   Entry relate `walkpgdir` and a written entry to it, Ranges and Mapping are `mappages`, Space has
--   `setupkvm`, `allocuvm`, `deallocuvm` and `freevm`, Growing and Shrinking are their loops, Users
--   is `uva2ka`, Bytes, UserWrite and Copyout are `copyout`, Copies `inituvm` and `copyuvm`.
-- - Proc: code/proc.h and the operations of code/proc.c on the process table alone (`sleep`,
--   `wakeup`, `yield`, `kill`, `setpriority`, `update_statistics`). Proc.Alloc is `allocproc`, which
--   calls `kalloc`; Proc.Wait is `wait`, `wait2` and `join`, which call `kfree`.
-- - Lifecycle: `fork`, `clone`, `growproc` and `exit` of code/proc.c over the process table, the
--   page allocator, the files and the inodes. Started and Children are about `fork` and `clone`,
--   Orphans about the loop of `exit`, Exiting about `exit`, Reaping about `exit` and `wait`
--   together.
-- - Sem: the semaphores of code/proc.c, and what `exit` gives back of them. They put processes to
--   sleep and wake them through Proc.
-- - Sched: `random`, `scheduler`, `getscheduler`, `setscheduler` of code/proc.c and the tables of
--   code/sdh.h.
-- - Pipe: code/pipe.c. Readers and writers sleep and are woken through Proc.
-- - Bio: code/bio.c over the disk of code/memide.c. Cached is what makes a cache well-formed and
--   what a block shows, Replace and Found are `bget`, Read and Total `bread`, Start is `binit`.
-- - Files: the table of code/file.c and the descriptors of code/sysfile.c, `dup` and `close`; Data
--   is `fileread`, `filewrite` and `filestat`, Filewrite, Appended and Fileread are about them,
--   Pipes is `pipealloc` of code/pipe.c. Each round of `filewrite` is an operation of the log.
-- - Content: the blocks of a file in code/fs.c. Bits, Scanning, Bitmap and Fresh are `balloc` and
--   `bfree`, Slots, Placed, Extend and Bmap are `bmap`, Ready is the log's room for them, Dinode,
--   Halves and Saved are inodes on the disk, Io, Reading, Store, Patches, Writing and RoundTrip are
--   `readi` and `writei`, Trunc has `itrunc`, `ialloc` and `stati`, and Freeing and Truncated are
--   about what `itrunc` frees and leaves.
-- - Inodes: the inode cache of code/fs.c; Paths: `skipelem` of code/fs.c.
-- - Spinlock: code/spinlock.c; Nesting is matched calls of `pushcli` and `popcli`.
-- - Sleeplock: code/sleeplock.c, whose waiters sleep in the table of Proc.
-- - Syscall: code/syscall.c, how arguments are fetched; Arguments is what is accepted as a pointer
--   or a string.
-- - Strings: code/string.c over a memory of bytes.
-- - Disk: the disk behind the buffer cache, as code/log.c uses it: what `bread` shows of a block,
--   what the disk holds, and the history of the writes.
-- - Log: code/log.c. The tests of `log_write` stand outside its lock; what it does under the lock is
--   `log_enter`. Header, Trace and Commit find the writes of `commit`, Crash and Prefix what the
--   recovery makes of a disk, Atomic is a crash in `commit` and Again one in the recovery; Entries
--   is `log_enter` by any number of callers, Room what a log still takes; Steps is the machine of
--   operations in progress, with Admission and Waiting about it.
-- - Shared: tests, results, arrays as lists, and C's `int` with its wrap-around.
-- - Tests: runs on small inputs, and the theorems at inputs that meet their hypotheses.
--
-- A C function is a function of the state that it reads and writes; `panic` is the case `panic` of
-- Result, and an undefined result is `none`. A pointer into a table is an index, another pointer an
-- address, null being 0. Every function, `log_write` apart, takes its lock at its first access to
-- what the lock protects and keeps it to its last, so it is one step; the lock itself is no part of
-- the state. Where a function calls `sleep`, a step ends there, and the rest of the function, from
-- the return of `sleep` on, is a step of its own: between the two any other step may happen. What a
-- process prints on the console is left out.
--
-- Loops over a table are recursions on it. `freerange` takes one round of fuel for each page below
-- the end of its range, and one more for the test that ends it. The loops of Vm take one for each
-- page of their range and one or two more; `mappages` counts its pages around the end of the
-- addresses. `strlen` and `skipelem` take fuel for the bytes that they pass over, and one more.
--
-- The addresses that the linker gives (`end`, `data`, `ptable`, `sema`), `trapret` and `forkret` are
-- arguments. So is `freevm` in `wait` and `wait2`, and in `clone` the processor's store through a page
-- directory.
--
-- A block is a list of words; the list `writes` records every write to the disk, and a crash keeps a
-- first part of them. Disk is the view that a user of the cache of Bio has: what each block shows, with
-- its buffers left out. The number of a block in the log is a word of the header, and in Disk `bread`
-- and `bwrite` are steps that cannot fail.
--
-- The file contents of Content are bytes by block and offset, of one device: a change of a buffer
-- that is given to `log_write` is one step. A volume has the log in memory too, on which `log_write`
-- is called for every such change; once it has panicked the volume says so, and `readi` and `writei`
-- panic instead of returning. `itrunc`, `iupdate` and `balloc` leave it to their caller to look. The
-- loops of `readi` and `writei` take one unit of fuel for a byte, those of `balloc` one for each
-- block of the free map.
--
-- Not modelled: hardware, devices, start-up, the context switch, directories, the table of system calls, and
-- the user programs.
pub mod Shared
pub mod Bio
pub mod Content
pub mod Disk
pub mod Files
pub mod Inodes
pub mod Kalloc
pub mod Lifecycle
pub mod Log
pub mod Paths
pub mod Pipe
pub mod Proc
pub mod Sched
pub mod Sem
pub mod Sleeplock
pub mod Spinlock
pub mod Strings
pub mod Syscall
pub mod Tests
pub mod Vm
