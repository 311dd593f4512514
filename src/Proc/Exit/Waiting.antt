-- ===== src/Proc/Exit/Waiting.antt =====
-- What a round of `wait` and of `waitx` of kernel/proc.c does, on every branch.
use osn.Base.{
  ℕ, zero, suc, ◌+◌, ◌≡◌, ◌≢◌, refl, List, [], ◌∷◌, Option, none, some, Bool, true, false, ◌==◌,
  get_elem?, set, same_slot, arith, inl, inr, ◌⊎◌, ap, sym, ◌∙◌, Bool-cases, zero-add, ==_refl,
}
use mathlib.Core.Option.{some-injective}
use osn.Base.Int.{to_int, minus_one}
use osn.File.{done, ◌>>=◌}
use osn.Proc.{Proc, Kernel, ProcState, proc_chan, zombie, state_eq}
use osn.Proc.Alloc.{freeproc}
use osn.Proc.Alloc.Unique.{Freed, freeproc-Freed}
use osn.Proc.Wakeup.{sleep}
use osn.Proc.Exit.{Scan, exited, none_exited, scan, Waited, returns, sleeps, wait, wait_end, waitx}

-- A process in the table is a child of `me`, at slot `i`.
abbrev pub Child : ℕ → List Proc → ℕ → Proc → Type 0
Child me ps i np = (get_elem? ps i ≡ some np) × (np.parent ≡ some me)

abbrev pub NoZombie : ℕ → List Proc → Type 0
NoZombie me ps = (i : ℕ) (np : Proc) → Child me ps i np → np.state ≢ zombie

-- What the scan may find: `had` says that a child was seen before.
data Found (me : ℕ) (ps : List Proc) (had : Bool) : Scan → Type 0 where
  hit : (i : ℕ) (np : Proc) → Child me ps i np → np.state ≡ zombie → Found me ps had (exited i np)
  childless :
      had ≡ false → ((i : ℕ) (np : Proc) → ¬ Child me ps i np) → Found me ps had (none_exited false)
  waiting :
      (had ≡ true) ⊎ ((i : ℕ) × (np : Proc) × Child me ps i np)
      → NoZombie me ps
      → Found me ps had (none_exited true)

same_slot-some : (q : Option ℕ) (me : ℕ) → same_slot q (some me) ≡ true → q ≡ some me
same_slot-some none me e = cc
same_slot-some (some n) me e = ground arith

zombie_of : (s : ProcState) → state_eq s zombie ≡ true → s ≡ zombie
zombie_of zombie e = refl
zombie_of _ e = cc

-- The same find, one slot further on.
abbrev shifted : ℕ → Scan → Scan
shifted n (exited i np) = exited (n + i) np
shifted n (none_exited b) = none_exited b

abbrev next : Scan → Scan
next (exited i np) = exited (suc i) np
next (none_exited b) = none_exited b

shifted-next : (n : ℕ) (s : Scan) → shifted (suc n) s ≡ shifted n (next s)
shifted-next n (exited i np) = ap (λ j. exited j np) (omega arith)
shifted-next n (none_exited b) = refl

-- The scan goes on past a slot that holds no zombie child.
Found-next :
    (me : ℕ) (x : Proc) (ps : List Proc) (had had' : Bool) {s : Scan}
    → (had' ≡ true → (had ≡ true) ⊎ (x.parent ≡ some me))
    → (had' ≡ false → (had ≡ false) × (x.parent ≢ some me))
    → (x.parent ≡ some me → x.state ≢ zombie)
    → Found me ps had' s
    → Found me (x ∷ ps) had (next s)
Found-next me x ps had had' seen unseen alive (hit i np c z) = hit (suc i) np c z
Found-next me x ps had had' seen unseen alive (childless e h) =
    childless (unseen e).0 λ i np c. past i np c
  where
    past : (i : ℕ) (np : Proc) → ¬ Child me (x ∷ ps) i np
    past zero np c = (unseen e).1 (ap (λ (p : Proc). p.parent) (some-injective x np c.0) ∙ c.1)
    past (suc i) np c = h i np c
Found-next me x ps had had' seen unseen alive (waiting w nz) = waiting (before w) still
  where
    before :
        (had' ≡ true) ⊎ ((i : ℕ) × (np : Proc) × Child me ps i np)
        → (had ≡ true) ⊎ ((i : ℕ) × (np : Proc) × Child me (x ∷ ps) i np)
    before (inl e) = elim (seen e) [ inl old ↦ inl old | inr own ↦ inr (0, x, (refl, own)) ]
    before (inr (i, np, c)) = inr (suc i, np, c)

    still : NoZombie me (x ∷ ps)
    still zero np c = λ z.
        let same = some-injective x np c.0 in
        alive (ap (λ (p : Proc). p.parent) same ∙ c.1) (ap (λ (p : Proc). p.state) same ∙ z)
    still (suc i) np c = nz i np c

scan-Found :
    (me n : ℕ) (ps : List Proc) (had : Bool)
    → (s : Scan) × (scan me n ps had ≡ shifted n s) × Found me ps had s
unfolding scan
scan-Found me n [] false = (none_exited false, refl, childless refl (λ i np c. cc (c.0)))
scan-Found me n [] true = (none_exited true, refl, waiting (inl refl) (λ i np c. absurd (cc (c.0))))
scan-Found me n (x ∷ ps) had = elim (Bool-cases (same_slot x.parent (some me))) [
  | inl child ↦ elim (Bool-cases (state_eq x.state zombie)) [
    | inl dead ↦ (
      exited 0 x,
      rw (child, dead) (ap (λ i. exited i x) (omega arith)),
      hit 0 x (refl, same_slot-some x.parent me child) (zombie_of x.state dead),
    )
    | inr alive ↦
        let (s, e, f) = scan-Found me (suc n) ps true in
        (
          next s,
          rw (child, alive) (e ∙ shifted-next n s),
          Found-next me x ps had true (λ _. inr (same_slot-some x.parent me child))
              (λ h. absurd (cc h)) (λ _ z. cc (sym alive ∙ ap (λ t. state_eq t zombie) z)) f,
        )
  ]
  | inr other ↦
      let (s, e, f) = scan-Found me (suc n) ps had in
      (
        next s,
        rw other (e ∙ shifted-next n s),
        Found-next me x ps had had (λ h. inl h) (λ h. (h, not_child x.parent other))
            (λ own. absurd (not_child x.parent other own)) f,
      )
]
  where
    not_child : (q : Option ℕ) → same_slot q (some me) ≡ false → q ≢ some me
    not_child q e own = cc (sym e ∙ ap (λ t. same_slot t (some me)) own ∙ ==_refl me)

shifted-zero : (s : Scan) → shifted 0 s ≡ s
shifted-zero (exited i np) = ap (λ j. exited j np) (zero-add i)
shifted-zero (none_exited b) = refl

-- What one round of `wait` by `me`, whose entry is `p`, does.
pub data Waits (me addr : ℕ) (copied : Bool) (p : Proc) (k : Kernel)
    : Kernel × Waited → Type 0 where
  reaped :
      (i : ℕ) (np : Proc)
      → Child me k.procs i np
      → np.state ≡ zombie
      → Freed (freeproc np)
      → (addr ≡ 0) ⊎ (copied ≡ true)
      → Waits me addr copied p k
          (record k { procs = set k.procs i (freeproc np) }, returns (to_int np.pid))
  bad_address :
      (i : ℕ) (np : Proc)
      → Child me k.procs i np
      → np.state ≡ zombie
      → (addr ≢ 0) × (copied ≡ false)
      → Waits me addr copied p k (k, returns minus_one)
  no_children :
      ((i : ℕ) (np : Proc) → ¬ Child me k.procs i np)
      → Waits me addr copied p k (k, returns minus_one)
  was_killed : NoZombie me k.procs → p.killed ≢ 0 → Waits me addr copied p k (k, returns minus_one)
  goes_to_sleep :
      (i : ℕ) (np : Proc)
      → Child me k.procs i np
      → NoZombie me k.procs
      → p.killed ≡ 0
      → Waits me addr copied p k (sleep me (proc_chan me) k, sleeps)

wait_end-Waits :
    (me addr : ℕ) (copied : Bool) (p : Proc) (k : Kernel) {s : Scan}
    → Found me k.procs false s
    → Waits me addr copied p k (wait_end me addr copied p s k)
unfolding wait_end
wait_end-Waits me addr copied p k (hit i np c z) = elim (Bool-cases (addr == 0)) [
  | inl null ↦ rw null (reaped i np c z (freeproc-Freed np) (inl (ground arith)))
  | inr given ↦ elim (Bool-cases copied) [
    | inl ok ↦ rw (given, ok) (reaped i np c z (freeproc-Freed np) (inr refl))
    | inr bad ↦ rw (given, bad) (bad_address i np c z (ground arith, refl))
  ]
]
wait_end-Waits me addr copied p k (childless e h) = no_children h
wait_end-Waits me addr copied p k (waiting (inl old) nz) = absurd (cc old)
wait_end-Waits me addr copied p k (waiting (inr (i, np, c)) nz) =
    elim (Bool-cases (p.killed == 0)) [
      | inl live ↦ rw live (goes_to_sleep i np c nz (ground arith))
      | inr killed ↦ rw killed (was_killed nz (ground arith))
    ]

-- `wait` frees the slot of a zombie child of the caller, whose pid it returns, and of nothing else, and changes no other
-- slot; the slot is then unused, with no pid, parent, memory, channel or kill mark. It fails, with
-- nothing changed, only for a bad address, for want of children, or because the caller was killed; and it
-- sleeps, on its own entry, only while it has children, none of which has exited.
pub wait-Waits :
    (me addr : ℕ) (copied : Bool) (k : Kernel) (p : Proc)
    → get_elem? k.procs me ≡ some p
    → (r : Kernel × Waited) × (wait me addr copied k ≡ done r) × Waits me addr copied p k r
unfolding wait
wait-Waits me addr copied k p here =
    let (s, e, f) = scan-Found me 0 k.procs false in
    (
      wait_end me addr copied p s k,
      ground (arith, e, shifted-zero s),
      wait_end-Waits me addr copied p k f,
    )

-- `waitx` does what `wait` does, and besides reports two times, where a child has exited.
pub waitx-wait :
    (me addr : ℕ) (copied : Bool) (k : Kernel)
    → (waitx me addr copied k >>= λ r. done (r.0, r.1)) ≡ wait me addr copied k
unfolding waitx wait
waitx-wait me addr copied k = ground arith
