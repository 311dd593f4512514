-- ===== src/Lock/Lawful.antt =====
-- Which processor has the spin lock of kernel/spinlock.c, and the moves of a processor that keep it so.
use osn.Base.{
  ℕ, ◌≡◌, ◌≢◌, refl, sym, ◌∙◌, Option, none, some, Bool, true, false, ◌==◌, update, update_self,
  update_ne, subst, ℕ_discrete, ==_refl, ==_ne,
}
use osn.Lock.{Cpu, holding, Place, outside, taken, inside, leaving, broken, Machine}

-- A processor has the lock from the swap that took it to the store that frees it.
abbrev pub owns : Place → Bool
owns taken = true
owns inside = true
owns leaving = true
owns _ = false

-- `lk->cpu` while a processor at this place has the lock.
abbrev pub owner_at : Place → ℕ → Option ℕ
owner_at inside me = some me
owner_at _ me = none

-- The flags at each place: from `push_off` to `pop_off` interrupts are off and counted once; nobody panics.
abbrev pub FlagsAt : Place → Cpu → Type 0
FlagsAt outside c = c.noff ≡ 0
FlagsAt broken c = ⊥
FlagsAt _ c = (c.noff ≡ 1) × (c.intr ≡ false)

-- The lock is free and nobody has it, or one processor has it and no other.
pub data Lawful (m : Machine) : Type 0 where
  is_free :
      m.lock.locked ≡ false
      → m.lock.cpu ≡ none
      → ((c : ℕ) → owns (m.place c) ≡ false)
      → ((c : ℕ) → FlagsAt (m.place c) (m.cpus c))
      → Lawful m
  is_held :
      (h : ℕ)
      → m.lock.locked ≡ true
      → m.lock.cpu ≡ owner_at (m.place h) h
      → owns (m.place h) ≡ true
      → ((c : ℕ) → c ≢ h → owns (m.place c) ≡ false)
      → ((c : ℕ) → FlagsAt (m.place c) (m.cpus c))
      → Lawful m

-- At the start all processors are outside, whether or not their interrupts are on.
abbrev pub start : (ℕ → Bool) → Machine
start on = record {
  lock = record { locked = false; cpu = none };
  place = λ c. outside;
  cpus = λ c. record { noff = 0; intena = false; intr = on c };
}

pub start-Lawful : (on : ℕ → Bool) → Lawful (start on)
start-Lawful on = is_free refl refl (λ c. refl) (λ c. refl)

-- A property of every processor after a change at one.
pub update_all :
    {A : Type 0} (P : ℕ → A → Type 0) (f : ℕ → A) (me : ℕ) (v : A)
    → ((c : ℕ) → c ≢ me → P c (f c))
    → P me v
    → (c : ℕ) → P c (update f me v c)
update_all P f me v others here c = elim (ℕ_discrete c me) [
  | yes e ↦
      subst (λ x. P x (update f me v x)) (sym e) (subst (P me) (sym (update_self f me v)) here)
  | no ne ↦ subst (P c) (sym (update_ne f me c v (λ e. ne (sym e)))) (others c ne)
]

flags_all :
    (place : ℕ → Place) (cpus : ℕ → Cpu) (me : ℕ) (p : Place) (x : Cpu)
    → ((c : ℕ) → FlagsAt (place c) (cpus c))
    → FlagsAt p x
    → (c : ℕ) → FlagsAt (update place me p c) (update cpus me x c)
flags_all place cpus me p x flags here c = elim (ℕ_discrete c me) [
  | yes e ↦
      subst (λ y. FlagsAt (update place me p y) (update cpus me x y)) (sym e)
        (rw (update_self place me p, update_self cpus me x) here)
  | no ne ↦
      rw (update_ne place me c p (λ e. ne (sym e)), update_ne cpus me c x (λ e. ne (sym e)))
        (flags c)
]

pub flags_place :
    (place : ℕ → Place) (cpus : ℕ → Cpu) (me : ℕ) (p : Place)
    → ((c : ℕ) → FlagsAt (place c) (cpus c))
    → FlagsAt p (cpus me)
    → (c : ℕ) → FlagsAt (update place me p c) (cpus c)
flags_place place cpus me p flags here c = elim (ℕ_discrete c me) [
  | yes e ↦
      subst (λ y. FlagsAt (update place me p y) (cpus y)) (sym e) (rw (update_self place me p) here)
  | no ne ↦ rw (update_ne place me c p (λ e. ne (sym e))) (flags c)
]

pub all_flags : (m : Machine) → Lawful m → (c : ℕ) → FlagsAt (m.place c) (m.cpus c)
all_flags m (is_free l e none_owns flags) = flags
all_flags m (is_held h l e owns_h others flags) = flags

-- A processor without the lock moves to another place without it.
pub move_free :
    (me : ℕ) (m : Machine) (p : Place) (x : Cpu)
    → owns (m.place me) ≡ false
    → owns p ≡ false
    → FlagsAt p x
    → Lawful m
    → Lawful (record m { cpus = update m.cpus me x; place = update m.place me p })
move_free me m p x here there flags (is_free l e none_owns all) =
    is_free l e (update_all (λ c q. owns q ≡ false) m.place me p (λ c ne. none_owns c) there)
      (flags_all m.place m.cpus me p x all flags)
move_free me m p x here there flags (is_held h l e owns_h others all) =
    let ne : h ≢ me = λ same. cc in
    let at : update m.place me p h ≡ m.place h = update_ne m.place me h p (λ same. ne (sym same)) in
    is_held h l (rw at e) (rw at owns_h)
      (update_all (λ c q. c ≢ h → owns q ≡ false) m.place me p (λ c _. others c) (λ _. there))
      (flags_all m.place m.cpus me p x all flags)

-- What is known of the lock when a processor has it.
pub held_by :
    (me : ℕ) (m : Machine)
    → owns (m.place me) ≡ true
    → Lawful m
    → (m.lock.locked ≡ true)
      × (m.lock.cpu ≡ owner_at (m.place me) me)
      × ((c : ℕ) → c ≢ me → owns (m.place c) ≡ false)
held_by me m here (is_free l e none_owns all) = let z : true ≡ false = sym here ∙ none_owns me in cc
held_by me m here (is_held h l e owns_h others all) = elim (ℕ_discrete me h) [
  | yes same ↦ (
    l,
    subst (λ x. m.lock.cpu ≡ owner_at (m.place x) x) (sym same) e,
    subst (λ x. (c : ℕ) → c ≢ x → owns (m.place c) ≡ false) (sym same) others,
  )
  | no ne ↦ let z : true ≡ false = sym here ∙ others me ne in cc
]

-- The processor with the lock moves to another place where it has it.
pub move_held :
    (me : ℕ) (m : Machine) (p : Place)
    → ((c : ℕ) → c ≢ me → owns (m.place c) ≡ false)
    → owns p ≡ true
    → FlagsAt p (m.cpus me)
    → ((c : ℕ) → FlagsAt (m.place c) (m.cpus c))
    → Lawful (record m {
      lock = record { locked = true; cpu = owner_at p me };
      place = update m.place me p;
    })
move_held me m p others there flags all =
    let at : update m.place me p me ≡ p = update_self m.place me p in
    is_held me refl (rw at refl) (rw at there)
      (update_all (λ c q. c ≢ me → owns q ≡ false) m.place me p (λ c ne _. others c ne)
        (λ ne. elim (ne refl) [ ]))
      (flags_place m.place m.cpus me p all flags)

owner_at-ne :
    (p : Place) (h me : ℕ)
    → h ≢ me
    → elim (owner_at p h) [ none ↦ false | some c ↦ c == me ] ≡ false
owner_at-ne inside h me ne = ==_ne h me ne
owner_at-ne _ h me ne = refl

-- `holding` is false of a processor without the lock.
pub not_holding :
    (me : ℕ) (m : Machine) → owns (m.place me) ≡ false → Lawful m → holding me m.lock ≡ false
unfolding holding
not_holding me m here (is_free l e none_owns all) = rw l refl
not_holding me m here (is_held h l e owns_h others all) =
    let ne : h ≢ me = λ same. cc in rw (l, e) (owner_at-ne (m.place h) h me ne)

pub is_holding :
    (me : ℕ) (m : Machine) → m.lock.locked ≡ true → m.lock.cpu ≡ some me → holding me m.lock ≡ true
unfolding holding
is_holding me m l e = rw (l, e) (==_refl me)
