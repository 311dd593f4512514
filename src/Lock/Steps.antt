-- ===== src/Lock/Steps.antt =====
-- The steps of acquire and release of kernel/spinlock.c, one by one.
use osn.Base.{
  ℕ, ◌-◌, ◌≡◌, refl, ap, sym, ◌∙◌, List, [], ◌∷◌, none, some, Bool, true, false, ◌==◌, ◌&&◌,
  if◌then◌else◌, arith, update, subst,
}
use osn.File.{done, panicked}
use osn.Lock.{
  Cpu, push_off, pop_off, Place, outside, spinning, taken, inside, leaving, freed, broken, Machine,
  acquire_start, test_and_set, acquire_end, release_start, lock_release, release_end, step, step_at,
  run_steps,
}
use osn.Lock.Lawful.{
  owns, owner_at, FlagsAt, Lawful, is_free, is_held, update_all, flags_place, all_flags, move_free,
  held_by, move_held, not_holding, is_holding,
}

-- The swap at either value of the lock.
swap-Lawful :
    (me : ℕ) (m : Machine) (b : Bool)
    → m.lock.locked ≡ b
    → m.place me ≡ spinning
    → Lawful m
    → Lawful (
        if b then record m { lock = record { locked = true; cpu = m.lock.cpu } } else record m {
          lock = record { locked = true; cpu = m.lock.cpu };
          place = update m.place me taken;
        })
swap-Lawful me m true l at h =
    subst (λ b. Lawful (record m { lock = record { locked = b; cpu = m.lock.cpu } })) l h
swap-Lawful me m false l at (is_held h l' e owns_h others all) =
    let z : true ≡ false = sym l' ∙ l in cc
swap-Lawful me m false l at (is_free l' e none_owns all) =
    subst
      (λ o.
        Lawful
          (record m { lock = record { locked = true; cpu = o }; place = update m.place me taken }))
      (sym e)
      (move_held me m taken (λ c ne. none_owns c) refl
        (subst (λ p. FlagsAt p (m.cpus me)) at (all me)) all)

pop_off-once :
    (c : Cpu) → c.noff ≡ 1 → c.intr ≡ false → (c' : Cpu) × (pop_off c ≡ done c') × (c'.noff ≡ 0)
unfolding pop_off
pop_off-once c n i = (
  record c { noff = c.noff - 1; intr = if c.noff - 1 == 0 && c.intena then true else c.intr },
  rw i (rw n refl),
  omega arith,
)

-- `step-Lawful` by the place.
step_at-Lawful :
    (p : Place) (me : ℕ) (m : Machine) → m.place me ≡ p → Lawful m → Lawful (step_at p me m)
unfolding step_at acquire_start test_and_set acquire_end release_start lock_release release_end
    push_off
step_at-Lawful outside me m at h =
    let fl : FlagsAt outside (m.cpus me) =
      subst (λ p. FlagsAt p (m.cpus me)) at (all_flags m h me) in
    rw (not_holding me m (ap owns at) h)
      (move_free me m spinning (push_off (m.cpus me)) (ap owns at) refl (omega arith, refl) h)
step_at-Lawful spinning me m at h = swap-Lawful me m m.lock.locked refl at h
step_at-Lawful taken me m at h =
    let (l, e, others) = held_by me m (ap owns at) h in
    subst
      (λ b. Lawful (record m {
        lock = record { locked = b; cpu = some me };
        place = update m.place me inside;
      }))
      (sym l)
      (move_held me m inside others refl (subst (λ p. FlagsAt p (m.cpus me)) at (all_flags m h me))
        (all_flags m h))
step_at-Lawful inside me m at h =
    let (l, e, others) = held_by me m (ap owns at) h in
    let fl : FlagsAt inside (m.cpus me) =
      subst (λ p. FlagsAt p (m.cpus me)) at (all_flags m h me) in
    rw (is_holding me m l (e ∙ ap (λ p. owner_at p me) at)) (
      subst
        (λ b. Lawful (record m {
          lock = record { locked = b; cpu = none };
          place = update m.place me leaving;
        }))
        (sym l) (move_held me m leaving others refl fl (all_flags m h)))
step_at-Lawful leaving me m at h =
    let (l, e, others) = held_by me m (ap owns at) h in
    is_free refl (e ∙ ap (λ p. owner_at p me) at)
      (update_all (λ c q. owns q ≡ false) m.place me freed others refl)
      (flags_place m.place m.cpus me freed (all_flags m h)
        (subst (λ p. FlagsAt p (m.cpus me)) at (all_flags m h me)))
step_at-Lawful freed me m at h =
    let fl : FlagsAt freed (m.cpus me) = subst (λ p. FlagsAt p (m.cpus me)) at (all_flags m h me) in
    let (c', run, n) = pop_off-once (m.cpus me) fl.0 fl.1 in
    subst
      (λ o. Lawful (elim o [
        | panicked ↦ record m { place = update m.place me broken }
        | done c ↦ record m { cpus = update m.cpus me c; place = update m.place me outside }
      ]))
      (sym run) (move_free me m outside c' (ap owns at) refl n h)
step_at-Lawful broken me m at h = h

pub run_steps-Lawful : (cs : List ℕ) (m : Machine) → Lawful m → Lawful (run_steps cs m)
unfolding run_steps step
run_steps-Lawful [] m h = h
run_steps-Lawful (c ∷ cs) m h =
    run_steps-Lawful cs (step c m) (step_at-Lawful (m.place c) c m refl h)
