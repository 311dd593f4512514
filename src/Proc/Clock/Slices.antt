-- ===== src/Proc/Clock/Slices.antt =====
-- The accounts of the clock of kernel/proc.c and kernel/trap.c, and the slices of MLFQ.
use osn.Base.{
  ℕ, zero, suc, ◌+◌, ◌-◌, ◌%◌, ◌^◌, ◌≤◌, ◌<◌, ◌≡◌, ◌≢◌, refl, List, [], ◌∷◌, Option, some, true,
  false, ◌==◌, ltb, if◌then◌else◌, get_or, set, length, length-set, arith, All, All-each,
  Bool-cases, get_elem?, get_elem?-each_zero, inl, inr, ◌⊎◌, ap, ◌∙◌, min,
}
use osn.Base.Word.{add32, uint_mod}
use osn.Proc.{Proc, Kernel, running, runnable, state_eq, ticks_chan}
use osn.Proc.Wakeup.{wakeup, wakeup_slot, make_runnable, at_proc, yield}
use osn.Proc.Wakeup.Waking.{wakeup_slot_cases}
use osn.Proc.Clock.{spend, running_slot, running_time, clockintr, demote, mlfq_timer, mlfq_timer_at}

abbrev pub sum : List ℕ → ℕ
sum [] = 0
sum (x ∷ xs) = x + sum xs

-- A process's account: its level is one of the five queues, and the times that it spent in each of
-- them add up to its running time, in 32 bits.
pub record Account (p : Proc) : Type 0 where
  pub level_in : p.level ≤ 4
  pub five : length p.timeineachq ≡ 5
  pub total : sum p.timeineachq % uint_mod ≡ p.rtime

sum-count :
    (xs : List ℕ) (i : ℕ)
    → i < length xs
    → sum (set xs i (add32 (get_or xs i 0) 1)) % uint_mod ≡ (sum xs + 1) % uint_mod
sum-count [] i h = elim h [ ]
sum-count (x ∷ xs) zero h = omega arith
sum-count (x ∷ xs) (suc i) h = omega (arith, sum-count xs i (omega arith))

spend-Account : (p : Proc) → Account p → Account (spend p)
unfolding spend
spend-Account p a = record {
  level_in = a.level_in;
  five = length-set p.timeineachq p.level _ ∙ a.five;
  total =
      omega (arith, sum-count p.timeineachq p.level (omega (arith, a.five, a.level_in)), a.total);
}

wakeup-Account :
    (me : Option ℕ) (c : _) (k : Kernel) → All Account k.procs → All Account (wakeup me c k).procs
unfolding wakeup make_runnable
wakeup-Account me c k = All-each Account 0 (wakeup_slot me c k.ticks) k.procs keep
  where
    keep : (n : ℕ) (p : Proc) → Account p → Account (wakeup_slot me c k.ticks n p)
    keep n p a = elim (wakeup_slot_cases me c k.ticks n p) [
      | inl same ↦ rw same a
      | inr (asleep, woken) ↦
          rw woken (record { level_in = a.level_in; five = a.five; total = a.total })
    ]

-- A tick of the clock charges every running process and keeps all accounts.
pub clockintr-Account :
    (me : Option ℕ) (k : Kernel) → All Account k.procs → All Account (clockintr me k).procs
unfolding clockintr
clockintr-Account me k a =
    wakeup-Account me ticks_chan (running_time (record k { ticks = add32 k.ticks 1 }))
      (All-each Account 0 running_slot k.procs keep a)
  where
    keep : (n : ℕ) (p : Proc) → Account p → Account (running_slot n p)
    keep n p a = elim (Bool-cases (state_eq p.state running)) [
      | inl runs ↦ rw runs (spend-Account p a)
      | inr idle ↦ rw idle a
    ]

-- At the end of its slice a process goes one level down, to the lowest at most, and gets the slice of its
-- new level, `2 ^ level` ticks.
pub demote_lem :
    (p : Proc)
    → p.level ≤ 4
    → ((demote p).level ≡ min (p.level + 1) 4) × ((demote p).timein_q ≡ 2 ^ (demote p).level)
unfolding demote
demote_lem p h = elim (Bool-cases (ltb p.level 4)) [
  | inl upper ↦ rw upper (ground arith, refl)
  | inr lowest ↦
      let last : (p.level == 4) ≡ true = ground arith in rw (lowest, last) (ground arith, refl)
]

get_elem?-at_proc :
    (me : ℕ) (f : Proc → Proc) (k : Kernel) (p : Proc)
    → get_elem? k.procs me ≡ some p
    → get_elem? (at_proc me f k).procs me ≡ some (f p)
unfolding at_proc
get_elem?-at_proc me f k p e =
    ground
      (arith, get_elem?-each_zero me (λ (i : ℕ) (x : Proc). if i == me then f x else x) k.procs)

timer_over :
    (me : ℕ) (p : Proc) (k : Kernel)
    → p.state ≡ running
    → (p.timein_q == 0) ≡ true
    → mlfq_timer me p k ≡ yield me (at_proc me demote k)
unfolding mlfq_timer mlfq_timer_at
timer_over me p k runs over = rw (ap (λ s. state_eq s running) runs, over)

timer_lasts :
    (me : ℕ) (p : Proc) (k : Kernel)
    → p.state ≡ running
    → (p.timein_q == 0) ≡ false
    → mlfq_timer me p k ≡ k
unfolding mlfq_timer mlfq_timer_at
timer_lasts me p k runs lasts = rw (ap (λ s. state_eq s running) runs, lasts)

-- The timer interrupt of a running process leaves it running while its slice lasts. At the end of the slice
-- the process becomes runnable, one level down.
pub mlfq_timer_lem :
    (me : ℕ) (p : Proc) (k : Kernel)
    → get_elem? k.procs me ≡ some p
    → p.state ≡ running
    → ((p.timein_q ≢ 0) × (mlfq_timer me p k ≡ k))
      ⊎ ((p.timein_q ≡ 0)
          × (get_elem? (mlfq_timer me p k).procs me
              ≡ some (record (demote p) { state = runnable; sched2 = k.ticks })))
unfolding yield make_runnable
mlfq_timer_lem me p k here runs = elim (Bool-cases (p.timein_q == 0)) [
  | inl over ↦ inr (
    ground arith,
    ap (λ (x : Kernel). get_elem? x.procs me) (timer_over me p k runs over)
        ∙ yielded (get_elem?-at_proc me demote k p here),
  )
  | inr lasts ↦ inl (ground arith, timer_lasts me p k runs lasts)
]
  where
    yielded :
        get_elem? (at_proc me demote k).procs me ≡ some (demote p)
        → get_elem? (yield me (at_proc me demote k)).procs me
          ≡ some (record (demote p) { state = runnable; sched2 = k.ticks })
    yielded e = get_elem?-at_proc me (make_runnable k.ticks) (at_proc me demote k) (demote p) e

-- A process that runs into the next tick with its slice used up is not preempted by the timer: the slice
-- wraps to `2 ^ 32 - 1`, and the test for its end fails.
pub missed_slice :
    (me : ℕ) (p : Proc) (k : Kernel)
    → p.timein_q ≡ 0
    → ((spend p).timein_q ≡ uint_mod - 1) × (mlfq_timer me (spend p) k ≡ k)
unfolding spend mlfq_timer
missed_slice me p k h = ground arith
