-- ===== src/Examples/Calls.antt =====
-- System calls with a number or with arguments that kernel/syscall.c and kernel/sysproc.c take wrong.
use osn.Base.{◌≡◌, refl, [], ◌∷◌, some, ◌==◌, if◌then◌else◌, get_elem?}
use osn.Proc.{Proc, Kernel, Trapframe, zeroed, boot, running}
use osn.Base.Int.{to_int}
use osn.Syscall.{frame_at, argint, argraw}
use osn.Syscall.Handlers.{sys_set_priority, sys_set_priority_swapped}

-- a0 is 2, a1 is 40, and a7 is the number of `waitx`.
abbrev registers : Trapframe
registers i = if i == 112 then 2 else if i == 120 then 40 else if i == 168 then 24 else 0

abbrev caller : Proc
caller = record zeroed { state = running; pid = 2; trapframe = some registers }

abbrev one : Kernel
one = record boot { procs = caller ∷ [] }

set_priority_example :
    get_elem? (sys_set_priority 0 one).0.procs 0
    ≡ some (record caller { static_priority = 40; niceness = 5 })
unfolding frame_at argint argraw to_int
set_priority_example =
    sys_set_priority_swapped 0 0 2 one registers caller refl refl
      (refl, refl, λ i q lt e. elim lt [ ])
