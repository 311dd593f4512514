-- ===== src/Lock/Exclusion.antt =====
-- Who has the spin lock of kernel/spinlock.c, in any order of the steps of the processors.
use osn.Base.{
  ℕ, ◌+◌, ◌-◌, ◌≡◌, ◌≢◌, refl, sym, ◌∙◌, List, Bool, true, false, ◌==◌, ltb, ◌&&◌, if◌then◌else◌,
  arith, subst, ℕ_discrete, ==_ne,
}
use osn.File.{done}
use osn.Lock.{Cpu, push_off, pop_off, Place, outside, broken, Machine, run_steps}
use osn.Lock.Lawful.{owns, FlagsAt, Lawful, start, all_flags, held_by, start-Lawful}
use osn.Lock.Steps.{run_steps-Lawful}

at_most_one :
    (m : Machine) (a b : ℕ) → Lawful m → owns (m.place a) ≡ true → owns (m.place b) ≡ true → a ≡ b
at_most_one m a b h ha hb = elim (ℕ_discrete a b) [
  | yes e ↦ e
  | no ne ↦ let z : true ≡ false = sym ha ∙ (held_by b m hb h).2 a ne in cc
]

-- In every order of the steps of the processors, from a free lock: two processors that have the lock are the
-- same one.
pub mutual_exclusion :
    (on : ℕ → Bool) (cs : List ℕ) (a b : ℕ)
    → owns ((run_steps cs (start on)).place a) ≡ true
    → owns ((run_steps cs (start on)).place b) ≡ true
    → a ≡ b
mutual_exclusion on cs a b = at_most_one _ a b (run_steps-Lawful cs (start on) (start-Lawful on))

no_panic : (m : Machine) (a : ℕ) → Lawful m → m.place a ≢ broken
no_panic m a h at = subst (λ p. FlagsAt p (m.cpus a)) at (all_flags m h a)

owns-flags : (p : Place) (c : Cpu) → owns p ≡ true → FlagsAt p c → (c.noff ≡ 1) × (c.intr ≡ false)
owns-flags outside c h f = cc
owns-flags broken c h f = cc
owns-flags _ c h f = f

interrupts_off :
    (m : Machine) (a : ℕ)
    → Lawful m
    → owns (m.place a) ≡ true
    → ((m.cpus a).noff ≡ 1) × ((m.cpus a).intr ≡ false)
interrupts_off m a h ha = owns-flags (m.place a) (m.cpus a) ha (all_flags m h a)

-- In every order of the steps nobody panics.
pub exclusion-no_panic :
    (on : ℕ → Bool) (cs : List ℕ) (a : ℕ) → (run_steps cs (start on)).place a ≢ broken
exclusion-no_panic on cs a = no_panic _ a (run_steps-Lawful cs (start on) (start-Lawful on))

-- In every order of the steps, a processor with the lock has its interrupts off, counted once.
pub exclusion-interrupts :
    (on : ℕ → Bool) (cs : List ℕ) (a : ℕ)
    → owns ((run_steps cs (start on)).place a) ≡ true
    → (((run_steps cs (start on)).cpus a).noff ≡ 1)
      × (((run_steps cs (start on)).cpus a).intr ≡ false)
exclusion-interrupts on cs a ha =
    interrupts_off _ a (run_steps-Lawful cs (start on) (start-Lawful on)) ha

not_below : (n : ℕ) → ltb (n + 1) 1 ≡ false
not_below n = ground arith

back : (n : ℕ) → n + 1 - 1 ≡ n
back n = omega arith

if_same : (b : Bool) → (if b then true else false) ≡ b
if_same true = refl
if_same false = refl

-- `push_off` and then `pop_off` leave the count and the interrupt flag as they were, if interrupts were off
-- wherever the count was not zero.
pub pop_off-push_off :
    (c : Cpu)
    → (c.noff ≢ 0 → c.intr ≡ false)
    → (c' : Cpu) × (pop_off (push_off c) ≡ done c') × (c'.noff ≡ c.noff) × (c'.intr ≡ c.intr)
unfolding push_off pop_off
pop_off-push_off c off = (
  record {
    noff = c.noff + 1 - 1;
    intena = if c.noff == 0 then c.intr else c.intena;
    intr =
        if c.noff + 1 - 1 == 0 && (if c.noff == 0 then c.intr else c.intena) then true else false;
  },
  rw (not_below c.noff) refl,
  omega arith,
  elim (ℕ_discrete c.noff 0) [
    | yes z ↦ rw z (if_same c.intr)
    | no ne ↦ rw (back c.noff, ==_ne c.noff 0 ne) (sym (off ne))
  ],
)
