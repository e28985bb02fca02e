-- ===== src/Proc/Wakeup.antt =====
-- `sleep` and `wakeup` of code/proc.c: no sleeper on the channel is missed, and no other is touched.
use os_ex.Shared.{
  ℕ, ◌≡◌, [], ◌∷◌, All, get_elem?, some, arith, get_elem?-map, get_elem?-modify_self, ◌∙◌,
}
use os_ex.Proc.{Proc, Procs, sleeping, runnable, wake, wakeup, sleep_begin}

-- A process that sleeps on the channel.
abbrev pub SleepsOn : ℕ → Proc → Type 0
SleepsOn chan p = (p.state ≡ sleeping) × (p.chan ≡ chan)

-- After `wakeup` nobody sleeps on the channel.
pub wakeup-All : (chan : ℕ) (procs : Procs) → All (λ p. ¬ SleepsOn chan p) (wakeup chan procs)
unfolding wakeup
wakeup-All chan [] = tt
wakeup-All chan (p ∷ procs) = (λ s. ground arith, wakeup-All chan procs)

-- A process that goes to sleep on a channel is runnable after the next `wakeup` of the channel.
pub wakeup-sleep_begin :
    (self chan : ℕ) (procs : Procs) (p : Proc)
    → get_elem? procs self ≡ some p
    → get_elem? (wakeup chan (sleep_begin self chan procs)) self
      ≡ some (record p { chan = chan; state = runnable })
unfolding wakeup sleep_begin
wakeup-sleep_begin self chan procs p e =
    get_elem?-map (sleep_begin self chan procs) (wake chan) self
      (record p { chan = chan; state = sleeping }) (get_elem?-modify_self procs self _ p e)
    ∙ woken
  where
    woken :
        some (wake chan (record p { chan = chan; state = sleeping }))
        ≡ some (record p { chan = chan; state = runnable })
    woken = ground arith
