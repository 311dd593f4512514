-- ===== src/Proc/Wakeup/Handover.antt =====
-- `sleep` of kernel/proc.c step by step, by a process that waits for a condition under `lk`, as its callers do:
-- `acquire(lk); while(!condition) sleep(chan, lk); release(lk)`. Another party sets the condition under `lk` and calls
-- `wakeup(chan)`. An `acquire` of a lock that is taken is a step that changes nothing.
pub mod Lawful
pub mod Unlost
use osn.Base.{ℕ, List, [], ◌∷◌, Option, Bool, true, false, if◌then◌else◌}
use osn.Proc.{Proc, Chan, null_chan, running, runnable, state_eq}
use osn.Proc.Wakeup.{go_to_sleep, wakeup_slot}

-- Where the sleeper is: before `acquire(lk)`; at the test of the condition; in `sleep` before `acquire(&p->lock)`,
-- before `release(lk)`, before the store of the channel and state, before `sched()`; switched out; back from
-- `sched()`; before `release(&p->lock)`; before `acquire(lk)`; before `release(lk)` of the caller; or done.
pub data SleeperAt : Type 0 where
  starting testing entering handing storing switching : SleeperAt
  asleep woken tidied returning leaving finished : SleeperAt

-- Where the waker is: before `acquire(lk)`; before the store of the condition; in `wakeup` before `acquire(&p->lock)`,
-- before the look at the process, before `release(&p->lock)`; before `release(lk)`; or done.
pub data WakerAt : Type 0 where
  coming setting calling looking looked going gone : WakerAt

-- The two locks, the condition, the entry of the sleeper, and the places.
pub record Race : Type 0 where
  pub lk : Bool
  pub plock : Bool
  pub condition : Bool
  pub proc : Proc
  pub sleeper : SleeperAt
  pub waker : WakerAt

-- A step of the sleeper. `sched()` gives `p->lock` to the scheduler, which releases it; the scheduler takes it again
-- to run a process that is runnable.
unfoldable pub sleeper_step : Chan → SleeperAt → Race → Race
unfolding go_to_sleep
sleeper_step chan starting m = if m.lk then m else record m { lk = true; sleeper = testing }
sleeper_step chan testing m =
    if m.condition then record m { sleeper = leaving } else record m { sleeper = entering }
sleeper_step chan entering m = if m.plock then m else record m { plock = true; sleeper = handing }
sleeper_step chan handing m = record m { lk = false; sleeper = storing }
sleeper_step chan storing m = record m { proc = go_to_sleep chan m.proc; sleeper = switching }
sleeper_step chan switching m = record m { plock = false; sleeper = asleep }
sleeper_step chan asleep m =
    if state_eq m.proc.state runnable
    then (if m.plock
        then m
        else record m { plock = true; proc = record m.proc { state = running }; sleeper = woken })
    else m
sleeper_step chan woken m = record m { proc = record m.proc { chan = null_chan }; sleeper = tidied }
sleeper_step chan tidied m = record m { plock = false; sleeper = returning }
sleeper_step chan returning m = if m.lk then m else record m { lk = true; sleeper = testing }
sleeper_step chan leaving m = record m { lk = false; sleeper = finished }
sleeper_step chan finished m = m

-- A step of the waker, whose `myproc()` is `me`; the sleeper's slot is `i`.
unfoldable pub waker_step : Option ℕ → ℕ → ℕ → Chan → WakerAt → Race → Race
unfolding wakeup_slot
waker_step me i ticks chan coming m = if m.lk then m else record m { lk = true; waker = setting }
waker_step me i ticks chan setting m = record m { condition = true; waker = calling }
waker_step me i ticks chan calling m =
    if m.plock then m else record m { plock = true; waker = looking }
waker_step me i ticks chan looking m = record m {
  proc = wakeup_slot me chan ticks i m.proc;
  waker = looked;
}
waker_step me i ticks chan looked m = record m { plock = false; waker = going }
waker_step me i ticks chan going m = record m { lk = false; waker = gone }
waker_step me i ticks chan gone m = m

-- Who takes a step.
pub data Party : Type 0 where
  the_sleeper the_waker : Party

unfoldable pub race_step : Option ℕ → ℕ → ℕ → Chan → Party → Race → Race
unfolding sleeper_step waker_step
race_step me i ticks chan the_sleeper m = sleeper_step chan m.sleeper m
race_step me i ticks chan the_waker m = waker_step me i ticks chan m.waker m

-- The two take their steps in this order.
unfoldable pub race : Option ℕ → ℕ → ℕ → Chan → List Party → Race → Race
unfolding race_step
race me i ticks chan [] m = m
race me i ticks chan (x ∷ xs) m = race me i ticks chan xs (race_step me i ticks chan x m)

-- Both locks are free, and the condition does not hold.
abbrev pub race_start : Proc → Race
race_start p = record {
  lk = false;
  plock = false;
  condition = false;
  proc = p;
  sleeper = starting;
  waker = coming;
}
