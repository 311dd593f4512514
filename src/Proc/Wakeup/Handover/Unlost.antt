-- ===== src/Proc/Wakeup/Handover/Unlost.antt =====
-- No order of the steps of `sleep` and `wakeup` of kernel/proc.c leaves the sleeper asleep.
use osn.Base.{ℕ, ◌≡◌, refl, List, Option, some, Bool, true, false, same_slot, arith, replicate}
use osn.Proc.{Proc, Chan, runnable, state_eq}
use osn.Proc.Wakeup.Handover.{
  SleeperAt, starting, testing, entering, handing, storing, switching, asleep, woken, tidied,
  returning, leaving, finished, WakerAt, gone, Party, the_sleeper, sleeper_step, race_step, race,
  race_start,
}
use osn.Proc.Wakeup.Handover.Lawful.{Lawful, state, race-Lawful}

module _ (me : Option ℕ) (i ticks : ℕ) (chan : Chan) where
  -- With the waker gone, the sleeper ends.
  ends :
      (s : SleeperAt) (l q c : Bool) (p : Proc)
      → Lawful chan (state l q c p s gone)
      → (race me i ticks chan (replicate 6 the_sleeper) (state l q c p s gone)).sleeper ≡ finished
  unfolding race race_step sleeper_step
  ends entering l q c p h = absurd (ground (arith, h))
  ends handing l q c p h = absurd (ground (arith, h))
  ends storing l q c p h = absurd (ground (arith, h))
  ends switching l q c p h = absurd (ground (arith, h))
  ends starting l q true p (lf, lo, qf, qo, co, un, en) = rw lf refl
  ends testing l q true p (lf, lo, qf, qo, co, un, en) = refl
  ends asleep l q true p (lf, lo, qf, qo, co, un, en) =
      let awake : state_eq p.state runnable ≡ true = ground arith in rw (lf, qf, awake) refl
  ends woken l q true p (lf, lo, qf, qo, co, un, en) = rw lf refl
  ends tidied l q true p (lf, lo, qf, qo, co, un, en) = rw lf refl
  ends returning l q true p (lf, lo, qf, qo, co, un, en) = rw lf refl
  ends leaving l q true p h = refl
  ends finished l q true p h = refl
  ends _ l q false p h = absurd (ground (arith, h))

  ends_when_gone :
      (w : WakerAt) (s : SleeperAt) (l q c : Bool) (p : Proc)
      → w ≡ gone
      → Lawful chan (state l q c p s w)
      → (race me i ticks chan (replicate 6 the_sleeper) (state l q c p s w)).sleeper ≡ finished
  ends_when_gone gone s l q c p e h = ends s l q c p h
  ends_when_gone _ s l q c p e h = cc

  -- No wakeup is lost: in every order of the steps of a process that waits for a condition in `sleep`, and of another
  -- party that sets the condition and calls `wakeup`, both under the lock given to `sleep`, once the other party is
  -- done the process is through its wait and has released the lock after six more steps of its own at most.
  pub wakeup_arrives :
      (xs : List Party) (p : Proc)
      → same_slot (some i) me ≡ false
      → (race me i ticks chan xs (race_start p)).waker ≡ gone
      → (race me i ticks chan
          (replicate 6 the_sleeper)
          (race me i ticks chan xs (race_start p))).sleeper
        ≡ finished
  wakeup_arrives xs p other done =
      let m = race me i ticks chan xs (race_start p) in
      let h : Lawful chan m =
        race-Lawful chan me i ticks other xs (race_start p)
          (refl, refl, refl, refl, refl, refl, refl) in
      ends_when_gone m.waker m.sleeper m.lk m.plock m.condition m.proc done h
