-- ===== src/Lock.antt =====
-- kernel/spinlock.c: one spin lock and any number of processors, each of which takes it and gives it back again
-- and again. A step of a processor is what it does atomically; the compiler fences are the order of the steps.
pub mod Lawful
pub mod Steps
pub mod Exclusion
pub mod Sleeplock
use osn.Base.{
  ℕ, zero, suc, ◌+◌, ◌-◌, ◌≡◌, List, [], ◌∷◌, Option, none, some, Bool, true, false, not, ◌==◌, ltb,
  ◌&&◌, ◌||◌, if◌then◌else◌, update,
}
use osn.File.{Outcome, done, panicked}

-- `struct spinlock`
pub record Spinlock : Type 0 where
  pub locked : Bool
  pub cpu : Option ℕ

pub initlock : Spinlock
initlock = record { locked = false; cpu = none }

-- `noff` and `intena` of `struct cpu`, and the interrupt flag of the processor.
pub record Cpu : Type 0 where
  pub noff : ℕ
  pub intena : Bool
  pub intr : Bool

unfoldable pub holding : ℕ → Spinlock → Bool
holding me lk = lk.locked && elim lk.cpu [ none ↦ false | some c ↦ c == me ]

unfoldable pub push_off : Cpu → Cpu
push_off c = record {
  noff = c.noff + 1;
  intena = if c.noff == 0 then c.intr else c.intena;
  intr = false;
}

pub pop_off : Cpu → Outcome Cpu
pop_off c =
    if c.intr
    then panicked
    else if ltb c.noff 1
    then panicked
    else done (record c {
      noff = c.noff - 1;
      intr = if c.noff - 1 == 0 && c.intena then true else c.intr;
    })

-- Where a processor is: outside; in the loop of `acquire`; with the lock, before `lk->cpu` is set; inside its
-- critical section; in `release`, before the lock is free; before `pop_off`; or in a panic.
pub data Place : Type 0 where
  outside spinning taken inside leaving freed broken : Place

-- The lock and, for each processor, its place and its flags.
pub record Machine : Type 0 where
  pub lock : Spinlock
  pub place : ℕ → Place
  pub cpus : ℕ → Cpu

-- `acquire` up to its loop.
unfoldable pub acquire_start : ℕ → Machine → Machine
unfolding push_off holding
acquire_start me m =
    let cpus' = update m.cpus me (push_off (m.cpus me)) in
    if holding me m.lock
    then record m { cpus = cpus'; place = update m.place me broken }
    else record m { cpus = cpus'; place = update m.place me spinning }

-- One `__sync_lock_test_and_set(&lk->locked, 1)`
unfoldable pub test_and_set : ℕ → Machine → Machine
test_and_set me m =
    if m.lock.locked
    then record m { lock = record { locked = true; cpu = m.lock.cpu } }
    else record m {
      lock = record { locked = true; cpu = m.lock.cpu };
      place = update m.place me taken;
    }

-- `lk->cpu = mycpu()`
unfoldable pub acquire_end : ℕ → Machine → Machine
acquire_end me m = record m {
  lock = record { locked = m.lock.locked; cpu = some me };
  place = update m.place me inside;
}

-- `release` up to `lk->cpu = 0`
unfoldable pub release_start : ℕ → Machine → Machine
unfolding holding
release_start me m =
    if holding me m.lock
    then record m {
      lock = record { locked = m.lock.locked; cpu = none };
      place = update m.place me leaving;
    }
    else record m { place = update m.place me broken }

-- `__sync_lock_release(&lk->locked)`
unfoldable pub lock_release : ℕ → Machine → Machine
lock_release me m = record m {
  lock = record { locked = false; cpu = m.lock.cpu };
  place = update m.place me freed;
}

-- `pop_off()` at the end of `release`
pub release_end : ℕ → Machine → Machine
unfolding pop_off
release_end me m = elim (pop_off (m.cpus me)) [
  | panicked ↦ record m { place = update m.place me broken }
  | done c ↦ record m { cpus = update m.cpus me c; place = update m.place me outside }
]

-- The next step of a processor.
unfoldable pub step_at : Place → ℕ → Machine → Machine
unfolding acquire_start test_and_set acquire_end release_start lock_release release_end
step_at outside me m = acquire_start me m
step_at spinning me m = test_and_set me m
step_at taken me m = acquire_end me m
step_at inside me m = release_start me m
step_at leaving me m = lock_release me m
step_at freed me m = release_end me m
step_at broken me m = m

unfoldable pub step : ℕ → Machine → Machine
unfolding step_at
step me m = step_at (m.place me) me m

-- The processors take their steps in this order.
unfoldable pub run_steps : List ℕ → Machine → Machine
unfolding step
run_steps [] m = m
run_steps (c ∷ cs) m = run_steps cs (step c m)
