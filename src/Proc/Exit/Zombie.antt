-- ===== src/Proc/Exit/Zombie.antt =====
-- What `exit` of kernel/proc.c leaves of the process, of its children and of its parent.
use osn.Base.{
  ℕ, zero, suc, ◌≡◌, ◌≢◌, refl, List, Option, none, some, false, ◌==◌, if◌then◌else◌, get_elem?,
  each, same_slot, get_elem?-each_zero, arith, Option-cases, inl, inr, ◌⊎◌, ap, sym, ◌∙◌,
  Bool-cases, replicate, length, ==_refl, ==_ne,
}
use osn.Base.Int.{ℤ}
use osn.File.{done, Released, File, Outcome-cases}
use osn.Proc.{Proc, Kernel, Chan, proc_chan, runnable, zombie}
use osn.Proc.Wakeup.{at_proc, wakeup, wakeup_slot, make_runnable}
use osn.Proc.Wakeup.Waking.{SleepsOn, wakeup_slot_cases, wakeup_slot-sleeper, get_elem?-wakeup}
use osn.Proc.Exit.{
  reparent, reparent_from, reparent_slot, become_zombie, exit, exit_at, exit_closed, chan_of,
  close_files, put_cwd,
}
use osn.Proc.Exit.Orphans.{
  parent_at, adopt, parent_at-reparent, parent_at-each, parent_at-wakeup, slot-none, slot-some,
}

-- Slot `m` holds a process with the property.
pub data Holds (P : Proc → Type 0) (k : Kernel) (m : ℕ) : Type 0 where
  holds : (q : Proc) → get_elem? k.procs m ≡ some q → P q → Holds P k m

Holds-each :
    (P : Proc → Type 0) (k : Kernel) (m : ℕ) (body : ℕ → Proc → Proc)
    → ((q : Proc) → P q → P (body m q))
    → Holds P k m
    → Holds P (record k { procs = each 0 body k.procs }) m
Holds-each P k m body keep (holds q e s) =
    holds (body m q) (ground (arith, get_elem?-each_zero m body k.procs)) (keep q s)

-- A property that neither a wakeup nor a new parent ends holds through `reparent`.
module _ (P : Proc → Type 0) (woken : (q : Proc) (ticks : ℕ) → P q → P (make_runnable ticks q))
    (adopted : (q : Proc) (new : Option ℕ) → P q → P (record q { parent = new })) where
  Holds-wakeup :
      (me : Option ℕ) (c : Chan) (k : Kernel) (m : ℕ) → Holds P k m → Holds P (wakeup me c k) m
  unfolding wakeup
  Holds-wakeup me c k m = Holds-each P k m (wakeup_slot me c k.ticks) keep
    where
      keep : (q : Proc) → P q → P (wakeup_slot me c k.ticks m q)
      keep q s = elim (wakeup_slot_cases me c k.ticks m q) [
        | inl same ↦ rw same s
        | inr (asleep, wakes) ↦ rw wakes (woken q k.ticks s)
      ]

  Holds-slot : (me i : ℕ) (k : Kernel) (m : ℕ) → Holds P k m → Holds P (reparent_slot me i k) m
  unfolding at_proc
  Holds-slot me i k m r = elim (Option-cases (get_elem? k.procs i)) [
    | inl past ↦ rw (slot-none me i k past) r
    | inr (pp, here) ↦
        rw (slot-some me i k pp here) (elim (Bool-cases (same_slot pp.parent (some me))) [
          | inl child ↦ rw child (
              Holds-wakeup (some me) (chan_of k.initproc)
                (at_proc i (λ p. record p { parent = k.initproc }) k) m (Holds-each P k m _ keep r))
          | inr other ↦ rw other r
        ])
  ]
    where
      keep : (q : Proc) → P q → P (if m == i then record q { parent = k.initproc } else q)
      keep q s = elim (Bool-cases (m == i)) [
        | inl own ↦ rw own (adopted q k.initproc s)
        | inr other ↦ rw other s
      ]

  Holds-reparent_from :
      (n me i : ℕ) (k : Kernel) (m : ℕ) → Holds P k m → Holds P (reparent_from me i n k) m
  unfolding reparent_from
  Holds-reparent_from zero me i k m r = r
  Holds-reparent_from (suc n) me i k m r =
      Holds-reparent_from n me (suc i) (reparent_slot me i k) m (Holds-slot me i k m r)

  Holds-reparent : (me : ℕ) (k : Kernel) (m : ℕ) → Holds P k m → Holds P (reparent me k) m
  unfolding reparent
  Holds-reparent me k m = Holds-reparent_from (length k.procs) me 0 k m

-- The process is runnable, or sleeps on the channel.
abbrev pub Wakeable : Chan → Proc → Type 0
Wakeable chan q = (q.state ≡ runnable) ⊎ SleepsOn chan q

-- Such a process is runnable once its channel is woken by another process.
runnable-wakeup :
    (chan : Chan) (me : ℕ) (k : Kernel) (m : ℕ)
    → me ≢ m
    → Holds (Wakeable chan) k m
    → Holds (λ q. q.state ≡ runnable) (wakeup (some me) chan k) m
unfolding make_runnable
runnable-wakeup chan me k m ne (holds q e s) =
    holds (wakeup_slot (some me) chan k.ticks m q) (get_elem?-wakeup (some me) chan k m q e) wakes
  where
    wakes : (wakeup_slot (some me) chan k.ticks m q).state ≡ runnable
    wakes = elim s [
      | inl already ↦ elim (wakeup_slot_cases (some me) chan k.ticks m q) [
        | inl same ↦ ap (λ (x : Proc). x.state) same ∙ already
        | inr (asleep, woken) ↦ ap (λ (x : Proc). x.state) woken
      ]
      | inr sleeps ↦ ap (λ (x : Proc). x.state) (wakeup_slot-sleeper me chan k.ticks m q ne sleeps)
    ]

-- A call of `exit` that does not panic closes the files and goes on.
exit-done :
    (me : ℕ) (status : ℤ) (k k' : Kernel) (rs : List Released) (p : Proc)
    → get_elem? k.procs me ≡ some p
    → exit me status k ≡ done (k', rs)
    → (same_slot (some me) k.initproc ≡ false)
      × ((fs : List File) × (counts : ℕ → ℕ) × (k'
            ≡ become_zombie me status p (exit_closed me p fs counts k)))
unfolding exit exit_at
exit-done me status k k' rs p here e = elim (Bool-cases (same_slot (some me) k.initproc)) [
  | inl init ↦ absurd (ground arith)
  | inr other ↦ elim (Outcome-cases (close_files p.ofile k.ftable)) [
    | inl bad ↦ absurd (ground arith)
    | inr (r, good) ↦ elim (Outcome-cases (put_cwd p.cwd k.icount)) [
      | inl bad ↦ absurd (ground arith)
      | inr (counts, put) ↦ (other, (r.0, counts, ground arith))
    ]
  ]
]

parent_at-zombie :
    (me : ℕ) (status : ℤ) (p : Proc) (k : Kernel) (j : ℕ)
    → parent_at (become_zombie me status p k) j ≡ adopt me k.initproc (parent_at k j)
unfolding become_zombie at_proc
parent_at-zombie me status p k j =
    let k' = wakeup (some me) (chan_of p.parent) (reparent me k) in
    parent_at-each k' _ j (λ q. ground arith)
    ∙ parent_at-wakeup (some me) (chan_of p.parent) (reparent me k) j
    ∙ parent_at-reparent me k j

adopt-ne :
    (me : ℕ) (new : Option ℕ) (q : Option (Option ℕ))
    → same_slot (some me) new ≡ false
    → adopt me new q ≢ some (some me)
unfolding adopt
adopt-ne me new none other e = cc
adopt-ne me none (some none) other e = ground arith
adopt-ne me (some n) (some none) other e = ground arith
adopt-ne me none (some (some q)) other e = ground arith
adopt-ne me (some n) (some (some q)) other e = ground arith

-- The closing of files reaches the process's own descriptors only.
Holds-closed :
    (P : Proc → Type 0) (me : ℕ) (p : Proc) (fs : List File) (counts : ℕ → ℕ) (k : Kernel) (m : ℕ)
    → ((q : Proc) (files : List (Option ℕ)) → P q → P (record q { ofile = files; cwd = none }))
    → Holds P k m
    → Holds P (exit_closed me p fs counts k) m
unfolding exit_closed
Holds-closed P me p fs counts k m closes (holds q e s) =
    holds (if m == me then record q { ofile = replicate (length p.ofile) none; cwd = none } else q)
      (ground (
        arith,
        get_elem?-each_zero m
            (λ (i : ℕ) (x : Proc).
              if i == me
              then record x { ofile = replicate (length p.ofile) none; cwd = none }
              else x)
            k.procs,
      ))
      (elim (Bool-cases (m == me)) [ inl own ↦ rw own (closes q _ s) | inr other ↦ rw other s ])

Holds-at_proc :
    (P Q : Proc → Type 0) (me m : ℕ) (f : Proc → Proc) (k : Kernel)
    → ((q : Proc) → P q → Q (if m == me then f q else q))
    → Holds P k m
    → Holds Q (at_proc me f k) m
unfolding at_proc
Holds-at_proc P Q me m f k change (holds q e s) =
    holds (if m == me then f q else q)
      (ground
        (arith, get_elem?-each_zero m (λ (i : ℕ) (x : Proc). if i == me then f x else x) k.procs))
      (change q s)

-- The slot is in the table.
abbrev Exists : Proc → Type 0
Exists q = Unit {0}

zombie_at :
    (me : ℕ) (status : ℤ) (p : Proc) (k : Kernel)
    → Holds Exists k me
    → let k' = become_zombie me status p k in
      Holds (λ q. (q.state ≡ zombie) × (q.xstate ≡ status) × (q.etime ≡ k'.ticks)) k' me
unfolding become_zombie at_proc wakeup
zombie_at me status p k r =
    Holds-at_proc Exists _ me me _ (wakeup (some me) (chan_of p.parent) (reparent me k))
      (λ q s. rw (==_refl me) (refl, refl, refl))
      (Holds-wakeup Exists (λ q t s. s) (λ q n s. s) (some me) (chan_of p.parent) (reparent me k) me
        (Holds-reparent Exists (λ q t s. s) (λ q n s. s) me k me r))

woken_at :
    (me : ℕ) (status : ℤ) (p : Proc) (k : Kernel) (m : ℕ)
    → p.parent ≡ some m
    → me ≢ m
    → Holds (Wakeable (proc_chan m)) k m
    → Holds (λ q. q.state ≡ runnable) (become_zombie me status p k) m
unfolding become_zombie make_runnable
woken_at me status p k m up ne r =
    Holds-at_proc (λ q. q.state ≡ runnable) (λ q. q.state ≡ runnable) me m _
      (wakeup (some me) (chan_of p.parent) (reparent me k))
      (λ q s. rw (==_ne m me (λ h. ne (sym h))) s)
      (rw up (
        runnable-wakeup (proc_chan m) me (reparent me k) m ne
          (Holds-reparent (Wakeable (proc_chan m)) (λ q t s. inl refl) (λ q n s. s) me k m r)))

-- What `exit` by `me`, whose entry was `p`, has done.
pub record Exited (me : ℕ) (status : ℤ) (p : Proc) (k k' : Kernel) : Type 0 where
  pub not_init : same_slot (some me) k.initproc ≡ false
  pub zombie_now :
      Holds (λ q. (q.state ≡ zombie) × (q.xstate ≡ status) × (q.etime ≡ k'.ticks)) k' me
  pub no_children : (j : ℕ) → parent_at k' j ≢ some (some me)
  pub parent_woken :
      (m : ℕ)
      → p.parent ≡ some m
      → me ≢ m
      → Holds (Wakeable (proc_chan m)) k m
      → Holds (λ q. q.state ≡ runnable) k' m

-- An `exit` that does not panic was not init's. It leaves a zombie that keeps the status and the time, no
-- process whose parent is the one that exited, and a parent that was asleep in `wait`, or runnable, is
-- runnable.
pub exit-Exited :
    (me : ℕ) (status : ℤ) (k k' : Kernel) (rs : List Released) (p : Proc)
    → get_elem? k.procs me ≡ some p
    → exit me status k ≡ done (k', rs)
    → Exited me status p k k'
unfolding exit_closed
exit-Exited me status k k' rs p here e =
    let (other, (fs, counts, result)) = exit-done me status k k' rs p here e in
    let k2 = exit_closed me p fs counts k in
    rw result (record {
      not_init = other;
      zombie_now =
          zombie_at me status p k2
            (Holds-closed Exists me p fs counts k me (λ q _ s. s) (holds p here tt));
      no_children = λ j h.
          adopt-ne me k.initproc (parent_at k2 j) other
            (sym (parent_at-zombie me status p k2 j ∙ same_init fs counts (parent_at k2 j)) ∙ h);
      parent_woken = λ m up ne r.
          woken_at me status p k2 m up ne
            (Holds-closed (Wakeable (proc_chan m)) me p fs counts k m (λ q _ s. s) r);
    })
  where
    same_init :
        (fs : List File) (counts : ℕ → ℕ) (q : Option (Option ℕ))
        → adopt me (exit_closed me p fs counts k).initproc q ≡ adopt me k.initproc q
    same_init fs counts q = refl
