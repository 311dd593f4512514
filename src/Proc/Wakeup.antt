-- ===== src/Proc/Wakeup.antt =====
-- `sleep`, `wakeup`, `kill`, `yield` and `_setpriority` of kernel/proc.c. A pass over the table
-- takes one slot's lock at a time; it is one step here, as no other processor changes a slot under it.
pub mod Waking
pub mod Handover
pub mod Killing
use osn.Base.{
  ℕ, zero, suc, ◌%◌, ◌≡◌, List, [], ◌∷◌, Option, none, some, Bool, true, false, ◌==◌, ◌&&◌,
  if◌then◌else◌, each, same_slot,
}
use osn.Base.Int.{ℤ, pos, minus_one}
use osn.Base.Word.{uint_mod}
use osn.Proc.{Proc, Kernel, Chan, null_chan, sleeping, runnable, state_eq, chan_eq}

-- `p->state = RUNNABLE; p->sched2 = ticks`
unfoldable pub make_runnable : ℕ → Proc → Proc
make_runnable ticks p = record p { state = runnable; sched2 = ticks }

-- Changes the entry at one slot.
unfoldable pub at_proc : ℕ → (Proc → Proc) → Kernel → Kernel
at_proc me f k = record k { procs = each 0 (λ i p. if i == me then f p else p) k.procs }

-- `p->chan = chan; p->state = SLEEPING`
unfoldable pub go_to_sleep : Chan → Proc → Proc
go_to_sleep chan p = record p { chan = chan; state = sleeping }

-- What `sleep` stores up to `sched()`, under `p->lock`. Handover has its steps, with those on the two locks.
pub sleep : ℕ → Chan → Kernel → Kernel
unfolding at_proc go_to_sleep
sleep me chan k = at_proc me (go_to_sleep chan) k

-- `sleep` after `sched()`.
pub sleep_end : ℕ → Kernel → Kernel
unfolding at_proc
sleep_end me k = at_proc me (λ p. record p { chan = null_chan }) k

-- `yield` up to `sched()`.
unfoldable pub yield : ℕ → Kernel → Kernel
unfolding at_proc make_runnable
yield me k = at_proc me (make_runnable k.ticks) k

-- What `wakeup` does with the process at slot `i`; `me` is `myproc()`, which may be null.
pub wakeup_slot : Option ℕ → Chan → ℕ → ℕ → Proc → Proc
unfolding make_runnable
wakeup_slot me chan ticks i p =
    if same_slot (some i) me
    then p
    else if state_eq p.state sleeping && chan_eq p.chan chan
    then make_runnable ticks p
    else p

unfoldable pub wakeup : Option ℕ → Chan → Kernel → Kernel
unfolding wakeup_slot
wakeup me chan k = record k { procs = each 0 (wakeup_slot me chan k.ticks) k.procs }

-- What `kill` does with its victim.
kill_proc : ℕ → Proc → Proc
unfolding make_runnable
kill_proc ticks p =
    let q = record p { killed = 1 } in
    if state_eq p.state sleeping then make_runnable ticks q else q

kill_in : ℕ → ℕ → List Proc → List Proc × ℤ
unfolding kill_proc
kill_in pid ticks [] = ([], minus_one)
kill_in pid ticks (p ∷ ps) =
    let (rest, r) = kill_in pid ticks ps in
    if p.pid == pid then (kill_proc ticks p ∷ ps, pos 0) else (p ∷ rest, r)

pub kill : ℕ → Kernel → Kernel × ℤ
unfolding kill_in
kill pid k = let (ps, r) = kill_in pid k.ticks k.procs in (record k { procs = ps }, r)

-- `priority` is the bit pattern of the `int`. The result is the old priority, or 0.
unfoldable pub setpriority_in : ℕ → ℕ → List Proc → List Proc × ℕ
setpriority_in pid priority [] = ([], 0)
setpriority_in pid priority (p ∷ ps) =
    let (rest, r) = setpriority_in pid priority ps in
    if p.pid == pid
    then (record p { static_priority = priority % uint_mod; niceness = 5 } ∷ ps, p.static_priority)
    else (p ∷ rest, r)

unfoldable pub setpriority : ℕ → ℕ → Kernel → Kernel × ℕ
unfolding setpriority_in
setpriority pid priority k =
    let (ps, r) = setpriority_in pid priority k.procs in (record k { procs = ps }, r)
