-- ===== src/Tests/Arguments.antt =====
-- Tests of the arguments of system calls: a process of 100 bytes with a stack at 40.
use os_ex.Shared.{◌≡◌, refl, ◌==◌, if◌then◌else◌, pos, negsuc, none, some, arith}
use os_ex.Syscall.{UserSpace, fetchint, find_nul, fetchstr, argint, argptr, argstr}
use os_ex.Syscall.Arguments.{IsPointer, argptr_lem, IsArgument, argstr_lem}

-- The first argument is 80, where there is the string "A".
abbrev user : UserSpace
user = record { sz = 100; esp = 40; mem = λ a. if a == 44 then 80 else if a == 80 then 65 else 0 }

argptr_lem_example : IsPointer user (pos 20) (argint 0 user) (argptr 0 (pos 20) user)
argptr_lem_example = argptr_lem 0 (pos 20) user (omega arith) (omega arith, omega arith)

argint_runs : argint 0 user ≡ some (pos 80)
unfolding argint fetchint
argint_runs = refl

argptr_fits : argptr 0 (pos 20) user ≡ some 80
unfolding argptr argint fetchint
argptr_fits = refl

argptr_too_long : argptr 0 (pos 21) user ≡ none
unfolding argptr argint fetchint
argptr_too_long = refl

argptr_negative : argptr 0 (negsuc 0) user ≡ none
unfolding argptr argint fetchint
argptr_negative = refl

argstr_lem_example : IsArgument user (argint 0 user) (argstr 0 user)
argstr_lem_example = argstr_lem 0 user

argstr_runs : argstr 0 user ≡ some (80, 1)
unfolding argstr fetchstr find_nul argint fetchint
argstr_runs = refl

-- A stack at the end of the process has no arguments.
no_argument : argint 0 (record user { esp = 93 }) ≡ none
unfolding argint fetchint
no_argument = refl
