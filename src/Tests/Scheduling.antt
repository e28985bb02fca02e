-- ===== src/Tests/Scheduling.antt =====
-- Tests of the scheduler.
use os_ex.Shared.{ℕ, ◌<◌, ◌≡◌, ◌⊎◌, refl, [], ◌∷◌, false, pos, some, none, Option}
use os_ex.Proc.{Procs, runnable, running, nproc}
use os_ex.Sched.{Seeds, random, schedule, default, Selected, runnable_at}
use os_ex.Sched.Choice.{RunsOne, schedule-default}
use os_ex.Sched.Policies.{Sets, setscheduler_lem}
use os_ex.Tests.{process}

abbrev seeds : Seeds
seeds = record { z1 = 12345; z2 = 12345; z3 = 12345; z4 = 12345 }

abbrev two : Procs
two = process running 1 none ∷ process runnable 2 none ∷ []

abbrev selected : Selected
selected = record { policy = default; sid = pos 0 }

random_runs : (random (pos 64) seeds).0 ≡ pos 22
unfolding random
random_runs = refl

schedule-default_example :
    (r : Option ℕ) × (procs' : Procs) × (s' : Seeds) × (schedule default two seeds
      ≡ some (r, procs', s'))
    × (RunsOne two (r, procs')
        ⊎ ((r ≡ none) × (procs' ≡ two) × ((j : ℕ) → j < nproc → runnable_at two j ≡ false)))
schedule-default_example = schedule-default two seeds

setscheduler_lem_example : Sets (pos 5) selected
setscheduler_lem_example = setscheduler_lem (pos 5) selected
