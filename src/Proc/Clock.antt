-- ===== src/Proc/Clock.antt =====
-- The clock: `RunningTime` of kernel/proc.c, `clockintr` of kernel/trap.c, and what a timer interrupt does to
-- the running process under each scheduler (`usertrap`, `kerneltrap`).
pub mod Slices
use osn.Base.{
  ℕ, zero, suc, ◌+◌, ◌%◌, ◌^◌, ◌≡◌, List, Option, none, some, Bool, true, false, ◌==◌, ltb,
  if◌then◌else◌, get_or, set, each,
}
use osn.Base.Word.{add32, sub32}
use osn.Proc.{Proc, Kernel, running, state_eq, ticks_chan}
use osn.Proc.Wakeup.{at_proc, wakeup, yield}

-- A running process spends one tick.
pub spend : Proc → Proc
spend p = record p {
  runtime = add32 p.runtime 1;
  rtime = add32 p.rtime 1;
  timein_q = sub32 p.timein_q 1;
  timeineachq = set p.timeineachq p.level (add32 (get_or p.timeineachq p.level 0) 1);
}

running_slot : ℕ → Proc → Proc
unfolding spend
running_slot i p = if state_eq p.state running then spend p else p

pub running_time : Kernel → Kernel
unfolding running_slot
running_time k = record k { procs = each 0 running_slot k.procs }

-- `me` is `myproc()` of the interrupted processor.
pub clockintr : Option ℕ → Kernel → Kernel
unfolding running_time
clockintr me k = wakeup me ticks_chan (running_time (record k { ticks = add32 k.ticks 1 }))

-- Under MLFQ, the new level and slice of a process whose slice is used up: `timeinQ <= 0` of a `uint` is
-- `timeinQ == 0`.
pub demote : Proc → Proc
demote p =
    if ltb p.level 4
    then record p { level = p.level + 1; timein_q = 2 ^ (p.level + 1) }
    else if p.level == 4
    then record p { timein_q = 2 ^ p.level }
    else p

-- The timer interrupt of the running process `me` under MLFQ, which yields only at the end of its slice.
mlfq_timer_at : ℕ → Proc → Kernel → Kernel
unfolding demote
mlfq_timer_at me p k = if p.timein_q == 0 then yield me (at_proc me demote k) else k

-- `kerneltrap` asks that the process is running; `usertrap` comes from a process that is.
pub mlfq_timer : ℕ → Proc → Kernel → Kernel
unfolding mlfq_timer_at
mlfq_timer me p k = if state_eq p.state running then mlfq_timer_at me p k else k

-- The timer interrupt under the default scheduler.
pub default_timer : ℕ → Proc → Kernel → Kernel
default_timer me p k = if state_eq p.state running then yield me k else k
