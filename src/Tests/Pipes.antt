-- ===== src/Tests/Pipes.antt =====
-- Tests of pipes.
use os_ex.Shared.{◌-◌, ◌^◌, ◌≡◌, refl, [], ◌∷◌, arith, true, pos, replicate, set}
use os_ex.Proc.{running}
use os_ex.Proc.Wait.{returned}
use os_ex.Pipe.{Pipe, Sys, pipewrite, write_from, piperead}
use os_ex.Pipe.Ring.{IsPipe, contents}
use os_ex.Pipe.Transfer.{Written, pipewrite_lem}
use os_ex.Tests.{process}
use mathlib.Core.Option.{none}

-- one byte, 65, in the last place, at the wrap of the counters
abbrev pipe : Pipe
pipe = record {
  addr = 0x80401000;
  bytes = set (replicate 512 0) 511 65;
  nread = 2 ^ 32 - 1;
  nwrite = 0;
  readopen = true;
  writeopen = true;
}

abbrev sys : Sys
sys = record { pipe = pipe; procs = process running 1 none ∷ [] }

pipe-IsPipe : IsPipe pipe
pipe-IsPipe = record {
  size = refl;
  read_range = omega arith;
  write_range = omega arith;
  fits = omega arith;
}

contents_of_pipe : contents pipe ≡ 65 ∷ []
contents_of_pipe = refl

pipewrite_runs : (pipewrite 0 (66 ∷ 67 ∷ []) sys).0 ≡ returned (pos 2)
unfolding pipewrite write_from
pipewrite_runs = refl

piperead_runs : (piperead 0 9 sys).0 ≡ returned (pos 1, 65 ∷ [])
unfolding piperead
piperead_runs = refl

pipewrite_lem_example : Written 0 2 (66 ∷ 67 ∷ []) sys (pipewrite 0 (66 ∷ 67 ∷ []) sys)
pipewrite_lem_example = pipewrite_lem 0 (66 ∷ 67 ∷ []) sys pipe-IsPipe
