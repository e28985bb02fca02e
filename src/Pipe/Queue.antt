-- ===== src/Pipe/Queue.antt =====
-- Writing one byte to the ring of code/pipe.c enqueues it; reading one dequeues the oldest.
use os_ex.Shared.{
  ℕ, zero, suc, ◌+◌, ◌-◌, ◌%◌, ◌^◌, ◌<◌, ◌≡◌, true, false, List, [], ◌∷◌, ◌++◌, set, get_or, length,
  get_or-set_self, get_or-set_ne, arith, ap, ◌∙◌,
}
use mathlib.Core.Path.{ap₂}
use os_ex.Pipe.{Pipe, pipe_size, inc, is_full, is_empty, put, get}
use os_ex.Pipe.Ring.{IsPipe, count, bytes_from, contents}

-- A write behind the `n` bytes from counter `r` extends them by one, if there is room.
bytes_from-set :
    (bytes : List ℕ) (b n r w : ℕ)
    → length bytes ≡ pipe_size
    → r < 2 ^ 32
    → n < pipe_size
    → w ≡ (r + n) % 2 ^ 32
    → bytes_from (set bytes (w % pipe_size) b) r (suc n) ≡ bytes_from bytes r n ++ (b ∷ [])
bytes_from-set bytes b zero r w size range room at =
    let same : w % pipe_size ≡ r % pipe_size = omega arith in
    ap (λ x. x ∷ [])
      (ap (λ i. get_or (set bytes i b) (r % pipe_size) 0) same
        ∙ get_or-set_self bytes (r % pipe_size) b 0 (omega arith))
bytes_from-set bytes b (suc n) r w size range room at =
    ap₂ ◌∷◌ (get_or-set_ne bytes (w % pipe_size) (r % pipe_size) b 0 (omega arith))
      (bytes_from-set bytes b n (inc r) w size (omega arith) (omega arith) (omega arith))

-- A byte that is written to a pipe with room comes last.
pub contents-put :
    (b : ℕ) (p : Pipe) → IsPipe p → is_full p ≡ false → contents (put b p) ≡ contents p ++ (b ∷ [])
unfolding put
contents-put b p v room =
    let less : count p < pipe_size = ground arith in
    let more : (inc p.nwrite + 2 ^ 32 - p.nread) % 2 ^ 32 ≡ suc (count p) = omega arith in
    ap (bytes_from (set p.bytes (p.nwrite % pipe_size) b) p.nread) more
    ∙ bytes_from-set p.bytes b (count p) p.nread p.nwrite v.size v.read_range less (omega arith)

-- What is read from a pipe that is not empty is the first byte of its contents.
pub contents-get :
    (p : Pipe) → IsPipe p → is_empty p ≡ false → contents p ≡ (get p).0 ∷ contents (get p).1
unfolding get
contents-get p v some_left =
    let more : count p ≡ suc ((p.nwrite + 2 ^ 32 - inc p.nread) % 2 ^ 32) = ground arith in
    ap (bytes_from p.bytes p.nread) more

pub contents-empty : (p : Pipe) → IsPipe p → is_empty p ≡ true → contents p ≡ []
contents-empty p v none_left =
    let nothing : count p ≡ 0 = ground arith in ap (bytes_from p.bytes p.nread) nothing
