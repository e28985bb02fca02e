-- ===== src/Content/Reading.antt =====
-- `readi` of code/fs.c against the bytes of a file.
use os_ex.Shared.{
  ℕ, subst, zero, suc, ◌+◌, ◌-◌, ◌*◌, ◌/◌, ◌%◌, ◌^◌, ◌<◌, ◌≤◌, ◌≡◌, ◌≢◌, refl, sym, ap, ◌∙◌,
  Bool-cases, inl, inr, false, ltb, ◌==◌, ==_iff, eq_int, ◌||◌, if◌then◌else◌, ok, Option, List, [],
  ◌∷◌, ◌++◌, ℤ, of_bits, arith,
}
use os_ex.Log.{Log, Superblock}
use os_ex.Inodes.{Inode}
use os_ex.Content.{Volume, block_size, maxfile}
use os_ex.Content.Slots.{slot, slot_of, byte_in, file_byte}
use os_ex.Content.Bmap.{bmap_mapped}
use os_ex.Content.Ready.{settled-ok}
use os_ex.Content.Io.{t_dev, chunk, get_data, read_chunks, finish_read, readi}

-- The `n` bytes of a file from `off` on.
abbrev pub file_bytes : Inode → Volume → ℕ → ℕ → List ℕ
file_bytes ip v off zero = []
file_bytes ip v off (suc n) = file_byte ip v off ∷ file_bytes ip v (off + 1) n

-- The blocks in which `n` bytes from `off` on lie.
abbrev pub blocks_of : ℕ → ℕ → ℕ
blocks_of off n = if n == 0 then 0 else (off % block_size + n + block_size - 1) / block_size

pub file_bytes-append :
    (ip : Inode) (v : Volume) (off m n : ℕ)
    → file_bytes ip v off m ++ file_bytes ip v (off + m) n ≡ file_bytes ip v off (m + n)
file_bytes-append ip v off zero n =
    let at : off + zero ≡ off = omega arith in
    let all : n ≡ zero + n = omega arith in
    ap (λ x. file_bytes ip v x n) at ∙ ap (λ x. file_bytes ip v off x) all
file_bytes-append ip v off (suc m) n =
    let at : off + suc m ≡ off + 1 + m = omega arith in
    let all : suc (m + n) ≡ suc m + n = omega arith in
    ap (λ x. file_byte ip v off ∷ (file_bytes ip v (off + 1) m ++ file_bytes ip v x n)) at
    ∙ ap (λ l. file_byte ip v off ∷ l) (file_bytes-append ip v (off + 1) m n)
    ∙ ap (λ x. file_bytes ip v off x) all

pub file_bytes_same :
    (ip ip' : Inode) (v v' : Volume) (off n cap : ℕ)
    → ((i : ℕ) → i < cap → file_byte ip' v' i ≡ file_byte ip v i)
    → off + n ≤ cap
    → file_bytes ip' v' off n ≡ file_bytes ip v off n
file_bytes_same ip ip' v v' off zero cap same le = refl
file_bytes_same ip ip' v v' off (suc n) cap same le =
    ap (λ b. b ∷ file_bytes ip' v' (off + 1) n) (same off (omega arith))
    ∙ ap (λ l. file_byte ip v off ∷ l)
        (file_bytes_same ip ip' v v' (off + 1) n cap same (omega arith))

pub byte_in_some : (v : Volume) (b i : ℕ) → b ≢ 0 → byte_in v b i ≡ v.blocks b i
byte_in_some v b i ne = ground arith

-- Bytes of one block of a file.
get_data_lem :
    (ip : Inode) (v : Volume) (m off o bn : ℕ)
    → off ≡ bn * block_size + o
    → o + m ≤ block_size
    → slot ip v (slot_of bn) ≢ 0
    → get_data (v.blocks (slot ip v (slot_of bn))) o m ≡ file_bytes ip v off m
get_data_lem ip v zero off o bn at le ne = refl
get_data_lem ip v (suc m) off o bn at le ne =
    let block : off / block_size ≡ bn = omega arith in
    let place : off % block_size ≡ o = omega arith in
    let b = slot ip v (slot_of bn) in
    let first : v.blocks b o ≡ file_byte ip v off = sym (
      ap (λ x. byte_in v (slot ip v (slot_of x)) (off % block_size)) block
      ∙ ap (λ x. byte_in v b x) place
      ∙ byte_in_some v b o ne) in
    ap (λ x. x ∷ get_data (v.blocks b) (o + 1) m) first
    ∙ ap (λ l. file_byte ip v off ∷ l)
        (get_data_lem ip v m (off + 1) (o + 1) bn (omega arith) (omega arith) ne)

-- What `readi` reads of a file: no more than there is.
abbrev pub read_length : Inode → ℕ → ℕ → ℕ
read_length ip off n = if ltb ip.size (off + n) then ip.size - off else n

-- No part of a range of a file is missing.
abbrev pub IsSolid : Inode → Volume → ℕ → ℕ → Type 0
IsSolid ip v off n = (i : ℕ) → i < n → slot ip v (slot_of ((off + i) / block_size)) ≢ 0

module _ (sb : Superblock) where
  first_chunk :
      (ip : Inode) (off n : ℕ) (v : Volume)
      → off + n ≤ maxfile * block_size
      → n ≢ 0
      → IsSolid ip v off n
      → get_data
          (v.blocks (slot ip v (slot_of (off / block_size))))
          (off % block_size)
          (chunk off n)
        ≡ file_bytes ip v off (chunk off n)
  first_chunk ip off n v top nz solid =
      let at : off + 0 ≡ off = omega arith in
      get_data_lem ip v (chunk off n) off (off % block_size) (off / block_size) (omega arith)
        (ground arith)
        (subst (λ x. slot ip v (slot_of (x / block_size)) ≢ 0) at (solid 0 (omega (arith, nz))))

  IsSolid-rest :
      (ip : Inode) (v : Volume) (off m n : ℕ)
      → m ≤ n
      → IsSolid ip v off n
      → IsSolid ip v (off + m) (n - m)
  IsSolid-rest ip v off m n le solid i lt =
      let place : off + (m + i) ≡ off + m + i = omega arith in
      subst (λ x. slot ip v (slot_of (x / block_size)) ≢ 0) place (solid (m + i) (omega arith))

  -- The loop allocates nothing where nothing is missing.
  read_chunks_lem :
      (fuel : ℕ) (ip : Inode) (off n : ℕ) (v : Volume)
      → n < fuel
      → off + n ≤ maxfile * block_size
      → IsSolid ip v off n
      → read_chunks sb fuel ip off n v ≡ ok (file_bytes ip v off n, ip, v)
  unfolding read_chunks
  read_chunks_lem zero ip off n v lt top solid = absurd (omega arith)
  read_chunks_lem (suc fuel) ip off n v lt top solid = elim (Bool-cases (n == 0)) [
    | inl none_left ↦
        let null : n ≡ 0 = (==_iff n 0).0 none_left in
        let done : read_chunks sb (suc fuel) ip off n v ≡ ok ([], ip, v) =
          simp (read_chunks, none_left) in
        done ∙ ap (λ x. ok (file_bytes ip v off x, ip, v)) (sym null)
    | inr some_left ↦
        let nz : n ≢ 0 = λ z. absurd (ground (arith, z)) in
        let m = chunk off n in
        let next : (off + m) % 2 ^ 32 ≡ off + m = ground arith in
        let parts : m + (n - m) ≡ n = ground arith in
        let at : off + 0 ≡ off = omega arith in
        let mapped = bmap_mapped sb ip v (off / block_size) (omega arith) (
          subst (λ x. slot ip v (slot_of (x / block_size)) ≢ 0) at (solid 0 (omega (arith, nz)))) in
        let rest =
          read_chunks_lem fuel ip (off + m) (n - m) v (ground arith) (ground arith)
            (IsSolid-rest ip v off m n (ground arith) solid) in
        let round : read_chunks sb (suc fuel) ip off n v
            ≡ ok (
              get_data (v.blocks (slot ip v (slot_of (off / block_size)))) (off % block_size) m
                  ++ file_bytes ip v (off + m) (n - m),
              ip,
              v,
            ) =
          simp (read_chunks, some_left, mapped, next, rest) in
        round
        ∙ ap (λ l. ok (l ++ file_bytes ip v (off + m) (n - m), ip, v))
            (first_chunk ip off n v top nz solid)
        ∙ ap (λ l. ok (l, ip, v)) (file_bytes-append ip v off m (n - m))
        ∙ ap (λ x. ok (file_bytes ip v off x, ip, v)) parts
  ]

  -- Reading a file, not a device, of at most MAXFILE blocks, from an offset that is not past its end,
  -- with no part of the range missing and no panic of the log before, returns the number of bytes
  -- that there are, `n` at most, and these bytes of the file. Nothing changes.
  pub readi_lem :
      (devsw : ℕ → Option (ℕ → ℤ × List ℕ)) (ip : Inode) (off n : ℕ) (v : Volume) (lg : Log)
      → eq_int ip.type t_dev ≡ false
      → ip.size ≤ maxfile * block_size
      → off ≤ ip.size
      → off + n < 2 ^ 32
      → IsSolid ip v off (read_length ip off n)
      → v.log ≡ ok lg
      → readi sb devsw ip off n v
        ≡ ok (of_bits (read_length ip off n), file_bytes ip v off (read_length ip off n), ip, v)
  unfolding readi
  readi_lem devsw ip off n v lg file size low top solid log =
      let no_wrap : (off + n) % 2 ^ 32 ≡ off + n = omega arith in
      let inside : (ltb ip.size off || ltb (off + n) off) ≡ false = ground arith in
      let read =
        read_chunks_lem (read_length ip off n + 1) ip off (read_length ip off n) v (omega arith)
          (ground arith) solid in
      rw (file, no_wrap, inside)
        (ap (λ r. finish_read sb (read_length ip off n) r) read ∙ settled-ok v lg _ log)
