-- ===== src/Files/Filewrite.antt =====
-- `filewrite` of code/file.c on a file with an inode: its rounds of at most `max` bytes.
use os_ex.Shared.{ℕ, ◌+◌, ◌*◌, ◌/◌, ◌≡◌, Bool, true, false, ok, List, []}
use os_ex.Log.{Log, Superblock}
use os_ex.Log.Room.{IsIdle}
use os_ex.Content.Ready.{Ready}
use os_ex.Proc.Wait.{Outcome, returned, asleep}
use os_ex.Content.Reading.{blocks_of}
use os_ex.Files.Data.{Opened, max_write, Rounds}
use os_ex.Files.Appended.{IsAppended}

-- Blocks that may be needed to write at an offset: two for each block of the range, and two for each
-- round that ends within a block.
abbrev pub room_for : ℕ → ℕ → ℕ
room_for off n = 2 * (blocks_of off n + n / max_write)

-- No operation is in progress, and the log is empty.
abbrev pub AtRest : Opened → Type 0
AtRest o = (lg : Log) × (o.volume.log ≡ ok lg) × IsIdle lg

abbrev all_of : Outcome Bool → Bool
all_of asleep = false
all_of (returned b) = b

module _ (sb : Superblock) (start : ℕ) where
  -- The rounds for the bytes of a list were made, and the log is at rest.
  abbrev pub Made : Opened → List ℕ → Rounds → Type 0
  Made o bs (r, left, o') =
      (r ≡ returned true) × (left ≡ []) × IsAppended sb start o bs o' × AtRest o'
