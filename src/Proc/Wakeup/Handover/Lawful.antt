-- ===== src/Proc/Wakeup/Handover/Lawful.antt =====
-- What holds between the steps of `sleep` and `wakeup` of kernel/proc.c.
use osn.Base.{
  ℕ, ◌≡◌, refl, List, [], ◌∷◌, Option, some, Bool, true, false, ◌&&◌, ◌||◌, same_slot, arith, inl,
  inr, Bool-cases, if◌then◌else◌,
}
use osn.Proc.{Proc, Chan, sleeping, runnable, running, state_eq, chan_eq}
use osn.Proc.Wakeup.{go_to_sleep, wakeup_slot, make_runnable}
use osn.Proc.Wakeup.Waking.{chan_eq_refl}
use osn.Proc.Wakeup.Handover.{
  SleeperAt, starting, testing, entering, handing, storing, switching, asleep, woken, tidied,
  returning, leaving, finished, WakerAt, coming, setting, calling, looking, looked, going, gone,
  Race, Party, the_sleeper, the_waker, sleeper_step, waker_step, race_step, race,
}

-- The sleeper has `lk`.
abbrev pub sleeper_lk : SleeperAt → Bool
sleeper_lk testing = true
sleeper_lk entering = true
sleeper_lk handing = true
sleeper_lk leaving = true
sleeper_lk _ = false

-- The sleeper has its `p->lock`.
abbrev pub sleeper_plock : SleeperAt → Bool
sleeper_plock handing = true
sleeper_plock storing = true
sleeper_plock switching = true
sleeper_plock woken = true
sleeper_plock tidied = true
sleeper_plock _ = false

-- The waker has `lk`.
abbrev pub waker_lk : WakerAt → Bool
waker_lk coming = false
waker_lk gone = false
waker_lk _ = true

-- The waker has the sleeper's `p->lock`.
abbrev pub waker_plock : WakerAt → Bool
waker_plock looking = true
waker_plock looked = true
waker_plock _ = false

-- The waker has set the condition.
abbrev pub is_set : WakerAt → Bool
is_set coming = false
is_set setting = false
is_set _ = true

-- The waker has looked at the sleeper.
abbrev pub has_looked : WakerAt → Bool
has_looked looked = true
has_looked going = true
has_looked gone = true
has_looked _ = false

-- The sleeper has found that the condition does not hold, and nobody has woken it.
abbrev pub waits : SleeperAt → Proc → Bool
waits entering p = true
waits handing p = true
waits storing p = true
waits switching p = true
waits asleep p = state_eq p.state sleeping
waits _ p = false

-- The entry of a process that is switched out, or about to be.
abbrev pub entry_ok : Chan → SleeperAt → Proc → Bool
entry_ok chan switching p = state_eq p.state sleeping && chan_eq p.chan chan
entry_ok chan asleep p =
    (state_eq p.state sleeping && chan_eq p.chan chan) || state_eq p.state runnable
entry_ok chan _ p = true

-- The locks are held by one party at most, as the places say, and no wakeup has passed a sleeper that waits.
abbrev pub Lawful : Chan → Race → Type 0
Lawful chan m =
    (m.lk ≡ (sleeper_lk m.sleeper || waker_lk m.waker))
    × ((sleeper_lk m.sleeper && waker_lk m.waker) ≡ false)
    × (m.plock ≡ (sleeper_plock m.sleeper || waker_plock m.waker))
    × ((sleeper_plock m.sleeper && waker_plock m.waker) ≡ false)
    × (m.condition ≡ is_set m.waker)
    × ((waits m.sleeper m.proc && has_looked m.waker) ≡ false)
    × (entry_ok chan m.sleeper m.proc ≡ true)

looked-set : (w : WakerAt) → is_set w ≡ false → has_looked w ≡ false
looked-set coming e = refl
looked-set setting e = refl
looked-set _ e = cc

abbrev pub state : Bool → Bool → Bool → Proc → SleeperAt → WakerAt → Race
state l q c p s w = record { lk = l; plock = q; condition = c; proc = p; sleeper = s; waker = w }

module _ (chan : Chan) where
  sleeper_step-Lawful :
      (s : SleeperAt) (w : WakerAt) (l q c : Bool) (p : Proc)
      → Lawful chan (state l q c p s w)
      → Lawful chan (sleeper_step chan s (state l q c p s w))
  unfolding sleeper_step go_to_sleep
  sleeper_step-Lawful starting w true q c p h = h
  sleeper_step-Lawful starting w false q c p h = ground (arith, h)
  sleeper_step-Lawful testing w l q true p h = ground (arith, h)
  sleeper_step-Lawful testing w l q false p h = ground (arith, h, looked-set w)
  sleeper_step-Lawful entering w l true c p h = h
  sleeper_step-Lawful entering w l false c p h = ground (arith, h)
  sleeper_step-Lawful handing w l q c p h = ground (arith, h)
  sleeper_step-Lawful storing w l q c p h = ground (arith, h, chan_eq_refl chan)
  sleeper_step-Lawful switching w l q c p h = ground (arith, h)
  sleeper_step-Lawful asleep w l q c p h = elim (Bool-cases (state_eq p.state runnable)) [
    | inr not_yet ↦ rw not_yet h
    | inl ready ↦ rw ready (by_plock q h)
  ]
    where
      by_plock :
          (q : Bool)
          → Lawful chan (state l q c p asleep w)
          → Lawful chan (
              if q
              then state l q c p asleep w
              else state l true c (record p { state = running }) woken w)
      by_plock true h = h
      by_plock false h = ground (arith, h)
  sleeper_step-Lawful woken w l q c p h = ground (arith, h)
  sleeper_step-Lawful tidied w l q c p h = ground (arith, h)
  sleeper_step-Lawful returning w true q c p h = h
  sleeper_step-Lawful returning w false q c p h = ground (arith, h)
  sleeper_step-Lawful leaving w l q c p h = ground (arith, h)
  sleeper_step-Lawful finished w l q c p h = h

  module _ (me : Option ℕ) (i ticks : ℕ) (other : same_slot (some i) me ≡ false) where
    -- A look at a process that sleeps makes it runnable.
    look-asleep :
        (p : Proc)
        → state_eq p.state sleeping ≡ true
        → chan_eq p.chan chan ≡ true
        → wakeup_slot me chan ticks i p ≡ make_runnable ticks p
    unfolding wakeup_slot
    look-asleep p st ch = rw (other, st, ch) refl

    look-awake : (p : Proc) → state_eq p.state sleeping ≡ false → wakeup_slot me chan ticks i p ≡ p
    unfolding wakeup_slot
    look-awake p st = rw (other, st) refl

    look-Lawful :
        (s : SleeperAt) (l q c : Bool) (p : Proc)
        → Lawful chan (state l q c p s looking)
        → Lawful chan (state l q c (wakeup_slot me chan ticks i p) s looked)
    unfolding make_runnable
    look-Lawful starting l q c p h = ground (arith, h)
    look-Lawful woken l q c p h = ground (arith, h)
    look-Lawful tidied l q c p h = ground (arith, h)
    look-Lawful returning l q c p h = ground (arith, h)
    look-Lawful finished l q c p h = ground (arith, h)
    look-Lawful asleep l q c p h = elim (Bool-cases (state_eq p.state sleeping)) [
      | inl st ↦
          let ch : chan_eq p.chan chan ≡ true = ground (arith, h) in
          rw (look-asleep p st ch) (ground (arith, h))
      | inr st ↦ rw (look-awake p st) (ground (arith, h))
    ]
    look-Lawful _ l q c p h = ground (arith, h)

    waker_step-Lawful :
        (w : WakerAt) (s : SleeperAt) (l q c : Bool) (p : Proc)
        → Lawful chan (state l q c p s w)
        → Lawful chan (waker_step me i ticks chan w (state l q c p s w))
    unfolding waker_step
    waker_step-Lawful coming s true q c p h = h
    waker_step-Lawful coming s false q c p h = ground (arith, h)
    waker_step-Lawful setting s l q c p h = ground (arith, h)
    waker_step-Lawful calling s l true c p h = h
    waker_step-Lawful calling s l false c p h = ground (arith, h)
    waker_step-Lawful looking s l q c p h = look-Lawful s l q c p h
    waker_step-Lawful looked s l q c p h = ground (arith, h)
    waker_step-Lawful going s l q c p h = ground (arith, h)
    waker_step-Lawful gone s l q c p h = h

    pub race-Lawful :
        (xs : List Party) (m : Race) → Lawful chan m → Lawful chan (race me i ticks chan xs m)
    unfolding race race_step
    race-Lawful [] m h = h
    race-Lawful (the_sleeper ∷ xs) m h =
        race-Lawful xs (sleeper_step chan m.sleeper m)
          (sleeper_step-Lawful m.sleeper m.waker m.lk m.plock m.condition m.proc h)
    race-Lawful (the_waker ∷ xs) m h =
        race-Lawful xs (waker_step me i ticks chan m.waker m)
          (waker_step-Lawful m.waker m.sleeper m.lk m.plock m.condition m.proc h)
