-- ===== src/Examples/Processes.antt =====
-- Sleeping, waking and killing in kernel/proc.c, and its clock.
use osn.Base.{
  ℕ, zero, suc, ◌<◌, ◌≡◌, ◌≢◌, refl, List, [], ◌∷◌, ◌++◌, replicate, true, none, some, get_elem?,
  arith, ap, sym,
}
use mathlib.Core.Option.{some-injective}
use osn.Proc.{
  Proc, Kernel, Trapframe, zeroed, boot, running, sleeping, used, unused, other_chan, ticks_chan,
}
use osn.Proc.Alloc.{allocproc}
use osn.Proc.Wakeup.{kill, go_to_sleep}
use osn.Proc.Wakeup.Handover.{
  Party, the_sleeper, the_waker, sleeper_step, waker_step, race_step, race, race_start, finished,
}
use osn.Proc.Wakeup.Handover.Unlost.{wakeup_arrives}
use osn.Proc.Wakeup.Killing.{FirstWith, kill_zero-allocproc}
use osn.Proc.Clock.Slices.{Account}

-- A running process, one that sleeps on the clock, and a free slot.
abbrev runner : Proc
runner = record zeroed { state = running; pid = 1; level = 4; timein_q = 0 }

abbrev sleeper : Proc
sleeper = record zeroed { state = sleeping; chan = ticks_chan; pid = 2 }

abbrev three : Kernel
three = record boot { procs = runner ∷ sleeper ∷ zeroed ∷ []; ticks = 9 }

-- The sleeper is switched out before the waker comes.
abbrev sleeper_first : List Party
sleeper_first = replicate 6 the_sleeper ++ replicate 6 the_waker

wakeup_example :
    (race none 0 9
      (other_chan 5)
      (replicate 6 the_sleeper)
      (race none 0 9 (other_chan 5) sleeper_first (race_start runner))).sleeper
    ≡ finished
unfolding race race_step sleeper_step waker_step go_to_sleep
wakeup_example = wakeup_arrives none 0 9 (other_chan 5) sleeper_first runner refl refl

first_two : FirstWith 2 three.procs 1 sleeper
first_two = (refl, refl, only)
  where
    only : (i : ℕ) (q : Proc) → i < 1 → get_elem? three.procs i ≡ some q → q.pid ≢ 2
    only zero q lt e same =
        let f : q.pid ≡ 1 = ap (λ x. x.pid) (sym (some-injective runner q e)) in omega arith
    only (suc i) q lt e same = omega arith

abbrev frame : Trapframe
frame i = 0

first_zero : FirstWith 0 three.procs 2 zeroed
first_zero = (refl, refl, only)
  where
    only : (i : ℕ) (q : Proc) → i < 2 → get_elem? three.procs i ≡ some q → q.pid ≢ 0
    only zero q lt e same =
        let f : q.pid ≡ 1 = ap (λ x. x.pid) (sym (some-injective runner q e)) in omega arith
    only (suc zero) q lt e same =
        let f : q.pid ≡ 2 = ap (λ x. x.pid) (sym (some-injective sleeper q e)) in omega arith
    only (suc (suc i)) q lt e same = omega arith

kill_zero_example :
    let (k', new) = allocproc (some frame) true (kill 0 three).0 in
    (new ≡ some 2)
    × ((q : Proc) × (get_elem? k'.procs 2 ≡ some q) × (q.state ≡ used) × (q.killed ≡ 1))
kill_zero_example = kill_zero-allocproc frame three 2 zeroed first_zero refl busy
  where
    busy : (n : ℕ) (q : Proc) → n < 2 → get_elem? three.procs n ≡ some q → q.state ≢ unused
    busy zero q lt e same =
        let f : q.state ≡ running = ap (λ x. x.state) (sym (some-injective runner q e)) in cc
    busy (suc zero) q lt e same =
        let f : q.state ≡ sleeping = ap (λ x. x.state) (sym (some-injective sleeper q e)) in cc
    busy (suc (suc n)) q lt e same = omega arith

    sleeper_ok : Account sleeper
    sleeper_ok = record { level_in = omega arith; five = refl; total = refl }

    zeroed_ok : Account zeroed
    zeroed_ok = record { level_in = omega arith; five = refl; total = refl }
