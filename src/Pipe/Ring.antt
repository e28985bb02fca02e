-- ===== src/Pipe/Ring.antt =====
-- The ring of code/pipe.c holds a queue of at most 512 bytes, through the wrap of its counters.
use os_ex.Shared.{
  ℕ, zero, suc, ◌+◌, ◌-◌, ◌%◌, ◌^◌, ◌<◌, ◌≤◌, ◌≡◌, refl, false, List, [], ◌∷◌, get_or, length,
  length-set, arith, ap, ◌∙◌,
}
use os_ex.Pipe.{Pipe, pipe_size, inc, is_full, is_empty, put, get}

-- the number of bytes that are stored
abbrev pub count : Pipe → ℕ
count p = (p.nwrite + 2 ^ 32 - p.nread) % 2 ^ 32

pub record IsPipe (p : Pipe) : Type 0 where
  pub size : length p.bytes ≡ pipe_size
  pub read_range : p.nread < 2 ^ 32
  pub write_range : p.nwrite < 2 ^ 32
  pub fits : count p ≤ pipe_size

-- the `n` bytes that a reader at counter `r` finds
abbrev pub bytes_from : List ℕ → ℕ → ℕ → List ℕ
bytes_from bytes r zero = []
bytes_from bytes r (suc n) = get_or bytes (r % pipe_size) 0 ∷ bytes_from bytes (inc r) n

-- The bytes that were written and not yet read, in order.
abbrev pub contents : Pipe → List ℕ
contents p = bytes_from p.bytes p.nread (count p)

length-bytes_from : (bytes : List ℕ) (r n : ℕ) → length (bytes_from bytes r n) ≡ n
length-bytes_from bytes r zero = refl
length-bytes_from bytes r (suc n) = ap suc (length-bytes_from bytes (inc r) n)

pub length-contents : (p : Pipe) → length (contents p) ≡ count p
length-contents p = length-bytes_from p.bytes p.nread (count p)

pub put-IsPipe : (b : ℕ) (p : Pipe) → IsPipe p → is_full p ≡ false → IsPipe (put b p)
unfolding put
put-IsPipe b p v open_ = record {
  size = length-set p.bytes (p.nwrite % pipe_size) b ∙ v.size;
  read_range = v.read_range;
  write_range = omega arith;
  fits = ground arith;
}

pub get-IsPipe : (p : Pipe) → IsPipe p → is_empty p ≡ false → IsPipe (get p).1
unfolding get
get-IsPipe p v some_left = record {
  size = v.size;
  read_range = omega arith;
  write_range = v.write_range;
  fits = ground arith;
}
