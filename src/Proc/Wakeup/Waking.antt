-- ===== src/Proc/Wakeup/Waking.antt =====
-- Whom `wakeup` of kernel/proc.c reaches.
use osn.Base.{
  ℕ, ◌≡◌, ◌≢◌, refl, Option, some, true, false, same_slot, get_elem?, get_elem?-each_zero, arith,
  inl, inr, ◌⊎◌, ap, sym, ◌∙◌, Bool-cases, ==_refl, ==_ne,
}
use osn.Proc.{
  Proc, Kernel, Chan, ProcState, sleeping, runnable, chan_eq, state_eq, null_chan, proc_chan,
  ticks_chan, other_chan,
}
use osn.Proc.Wakeup.{wakeup, wakeup_slot, make_runnable}

-- The process sleeps on the channel.
abbrev pub SleepsOn : Chan → Proc → Type 0
SleepsOn chan p = (p.state ≡ sleeping) × (chan_eq p.chan chan ≡ true)

sleeping_of : (s : ProcState) → state_eq s sleeping ≡ true → s ≡ sleeping
sleeping_of sleeping e = refl
sleeping_of _ e = cc

pub get_elem?-wakeup :
    (me : Option ℕ) (chan : Chan) (k : Kernel) (j : ℕ) (p : Proc)
    → get_elem? k.procs j ≡ some p
    → get_elem? (wakeup me chan k).procs j ≡ some (wakeup_slot me chan k.ticks j p)
unfolding wakeup
get_elem?-wakeup me chan k j p e =
    ground (arith, get_elem?-each_zero j (wakeup_slot me chan k.ticks) k.procs)

-- `wakeup` does one of two things to a process.
pub wakeup_slot_cases :
    (me : Option ℕ) (chan : Chan) (ticks i : ℕ) (p : Proc)
    → (wakeup_slot me chan ticks i p ≡ p)
      ⊎ ((SleepsOn chan p) × (wakeup_slot me chan ticks i p ≡ make_runnable ticks p))
unfolding wakeup_slot
wakeup_slot_cases me chan ticks i p = elim (Bool-cases (same_slot (some i) me)) [
  | inl own ↦ inl (rw own refl)
  | inr other ↦ elim (Bool-cases (state_eq p.state sleeping)) [
    | inl asleep ↦ elim (Bool-cases (chan_eq p.chan chan)) [
      | inl hit ↦ inr ((sleeping_of p.state asleep, hit), rw (other, asleep, hit) refl)
      | inr miss ↦ inl (rw (other, asleep, miss) refl)
    ]
    | inr awake ↦ inl (rw (other, awake) refl)
  ]
]

pub wakeup_slot-sleeper :
    (me : ℕ) (chan : Chan) (ticks i : ℕ) (p : Proc)
    → me ≢ i
    → SleepsOn chan p
    → wakeup_slot (some me) chan ticks i p ≡ make_runnable ticks p
unfolding wakeup_slot
wakeup_slot-sleeper me chan ticks i p ne sleeps =
    rw (==_ne i me (λ h. ne (sym h)), sleeps.0, sleeps.1)

-- After `wakeup` by another process, a sleeper of the channel is runnable, and was last made so now.
pub wakeup_sleeper :
    (me : Option ℕ) (chan : Chan) (k : Kernel) (j : ℕ) (p : Proc)
    → get_elem? k.procs j ≡ some p
    → SleepsOn chan p
    → same_slot (some j) me ≡ false
    → get_elem? (wakeup me chan k).procs j ≡ some (record p { state = runnable; sched2 = k.ticks })
unfolding wakeup_slot
wakeup_sleeper me chan k j p here sleeps other = ground (arith, get_elem?-wakeup me chan k j p here)

-- `wakeup` leaves every process alone that does not sleep on the channel.
pub wakeup_other :
    (me : Option ℕ) (chan : Chan) (k : Kernel) (j : ℕ) (p : Proc)
    → get_elem? k.procs j ≡ some p
    → ¬ SleepsOn chan p
    → get_elem? (wakeup me chan k).procs j ≡ some p
unfolding wakeup_slot
wakeup_other me chan k j p here not_asleep =
    get_elem?-wakeup me chan k j p here ∙ ap some (unchanged me j)
  where
    unchanged : (me : Option ℕ) (j : ℕ) → wakeup_slot me chan k.ticks j p ≡ p
    unchanged me j = elim (Bool-cases (state_eq p.state sleeping)) [
      | inl asleep ↦ elim (Bool-cases (chan_eq p.chan chan)) [
        | inl hit ↦ absurd (not_asleep (sleeping_of p.state asleep, hit))
        | inr miss ↦ ground arith
      ]
      | inr awake ↦ ground arith
    ]

pub chan_eq_refl : (c : Chan) → chan_eq c c ≡ true
chan_eq_refl (proc_chan i) = ==_refl i
chan_eq_refl (other_chan i) = ==_refl i
chan_eq_refl null_chan = refl
chan_eq_refl ticks_chan = refl
