-- ===== src/Proc/Wakeup/Killing.antt =====
-- `kill` of kernel/proc.c: whom it reaches, and a victim that is no process.
use osn.Base.{
  ℕ, zero, suc, ◌≡◌, ◌≢◌, ◌<◌, refl, List, [], ◌∷◌, some, true, get_elem?, set, arith, inl, inr, ap,
  sym, ◌∙◌, Bool-cases, get_elem?-set_self, get_elem?-set_ne, lt-length_of_get, length, length-set,
  zero-add, ◌+◌,
}
use osn.Base.Int.{pos, minus_one}
use osn.Base.Word.{add32}
use osn.Proc.{Proc, Kernel, Trapframe, ProcState, sleeping, unused, used, state_eq}
use osn.Proc.Wakeup.{kill, kill_in, kill_proc}
use osn.Proc.Alloc.{allocproc, fresh, find_unused}
use osn.Proc.Alloc.Unique.{state_eq-unused}

-- Slot `j` is the first with the pid.
abbrev pub FirstWith : ℕ → List Proc → ℕ → Proc → Type 0
FirstWith pid ps j p =
    (get_elem? ps j ≡ some p)
    × (p.pid ≡ pid)
    × ((i : ℕ) (q : Proc) → i < j → get_elem? ps i ≡ some q → q.pid ≢ pid)

kill_in-first :
    (pid ticks : ℕ) (ps : List Proc) (j : ℕ) (p : Proc)
    → FirstWith pid ps j p
    → kill_in pid ticks ps ≡ (set ps j (kill_proc ticks p), pos 0)
unfolding kill_in
kill_in-first pid ticks [] j p h = absurd (cc (h.0))
kill_in-first pid ticks (x ∷ ps) zero p h = ground (arith, h.0, h.1)
kill_in-first pid ticks (x ∷ ps) (suc j) p h = ground (
  arith,
  h.2 0 x (omega arith) refl,
  kill_in-first pid ticks ps j p (h.0, h.1, λ i q lt e. h.2 (suc i) q (omega arith) e),
)

kill_in-none :
    (pid ticks : ℕ) (ps : List Proc)
    → ((i : ℕ) (q : Proc) → get_elem? ps i ≡ some q → q.pid ≢ pid)
    → kill_in pid ticks ps ≡ (ps, minus_one)
unfolding kill_in
kill_in-none pid ticks [] h = refl
kill_in-none pid ticks (x ∷ ps) h =
    ground (arith, h 0 x refl, kill_in-none pid ticks ps (λ i q e. h (suc i) q e))

not_asleep :
    (ticks : ℕ) (p : Proc)
    → ((kill_proc ticks p).killed ≡ 1) × ((kill_proc ticks p).state ≢ sleeping)
unfolding kill_proc
not_asleep ticks p = by_state p.state refl
  where
    by_state :
        (s : ProcState)
        → p.state ≡ s
        → ((kill_proc ticks p).killed ≡ 1) × ((kill_proc ticks p).state ≢ sleeping)
    by_state sleeping e = ground arith
    by_state _ e = ground arith

-- Where the table has the pid, `kill` returns 0; the first process with it is marked killed and is not
-- asleep afterwards.
pub kill_lem :
    (pid : ℕ) (k : Kernel) (j : ℕ) (p : Proc)
    → FirstWith pid k.procs j p
    → let (k', r) = kill pid k in
      (r ≡ pos 0)
      × ((q : Proc) × (get_elem? k'.procs j ≡ some q) × ((q.killed ≡ 1) × (q.state ≢ sleeping)))
unfolding kill
kill_lem pid k j p h = rw (kill_in-first pid k.ticks k.procs j p h) (
  refl,
  (
    kill_proc k.ticks p,
    get_elem?-set_self k.procs j _ (lt-length_of_get k.procs j h.0),
    not_asleep k.ticks p,
  ),
)

-- No slot but that of the first process with the pid changes.
pub kill_others :
    (pid : ℕ) (k : Kernel) (j : ℕ) (p : Proc) (i : ℕ)
    → FirstWith pid k.procs j p
    → j ≢ i
    → get_elem? (kill pid k).0.procs i ≡ get_elem? k.procs i
unfolding kill
kill_others pid k j p i h ne =
    rw (kill_in-first pid k.ticks k.procs j p h) (get_elem?-set_ne k.procs _ ne)

-- `kill` of a pid that no slot has returns -1 and changes nothing.
pub kill-none :
    (pid : ℕ) (k : Kernel)
    → ((i : ℕ) (q : Proc) → get_elem? k.procs i ≡ some q → q.pid ≢ pid)
    → kill pid k ≡ (k, minus_one)
unfolding kill
kill-none pid k h = rw (kill_in-none pid k.ticks k.procs h)

find_unused-first :
    (ps : List Proc) (i j : ℕ) (p : Proc)
    → get_elem? ps j ≡ some p
    → p.state ≡ unused
    → ((n : ℕ) (q : Proc) → n < j → get_elem? ps n ≡ some q → q.state ≢ unused)
    → find_unused i ps ≡ some (i + j, p)
unfolding find_unused
find_unused-first [] i j p e free before = absurd (cc e)
find_unused-first (x ∷ ps) i zero p e free before = ground arith
find_unused-first (x ∷ ps) i (suc j) p e free before = elim (Bool-cases (state_eq x.state unused)) [
  | inl idle ↦ absurd (before 0 x (omega arith) refl (state_eq-unused x.state idle))
  | inr busy ↦ ground (
    arith,
    find_unused-first ps (suc i) j p e free (λ n q lt h. before (suc n) q (omega arith) h),
  )
]

allocproc-first :
    (tf : Trapframe) (k : Kernel) (j : ℕ) (p : Proc)
    → find_unused 0 k.procs ≡ some (j, p)
    → allocproc (some tf) true k ≡ (
      record k {
        nextpid = add32 k.nextpid 1;
        procs =
            set k.procs j
              (record (fresh k.nextpid k.ticks p) { trapframe = some tf; pagetable = true });
      },
      some j,
    )
unfolding allocproc
allocproc-first tf k j p e = rw (e, allocproc)

kill_proc-free :
    (ticks : ℕ) (p : Proc)
    → p.state ≡ unused
    → ((kill_proc ticks p).state ≡ unused) × ((kill_proc ticks p).killed ≡ 1)
unfolding kill_proc
kill_proc-free ticks p free = ground arith

-- Killing pid 0 kills a process that does not exist yet: pid 0 is the pid of every free slot, `kill` marks
-- the first one, `allocproc` does not clear the mark, and so the next process starts its life killed.
pub kill_zero-allocproc :
    (tf : Trapframe) (k : Kernel) (j : ℕ) (p : Proc)
    → FirstWith 0 k.procs j p
    → p.state ≡ unused
    → ((n : ℕ) (q : Proc) → n < j → get_elem? k.procs n ≡ some q → q.state ≢ unused)
    → let (k', new) = allocproc (some tf) true (kill 0 k).0 in
      (new ≡ some j)
      × ((q : Proc) × (get_elem? k'.procs j ≡ some q) × (q.state ≡ used) × (q.killed ≡ 1))
unfolding kill fresh
kill_zero-allocproc tf k j p first free before = rw (kill_in-first 0 k.ticks k.procs j p first) (
    rw (allocproc-first tf marked j victim found)
      (refl, (_, get_elem?-set_self marked.procs j _ (rw length-set room), refl, marks.1)))
  where
    victim : Proc
    victim = kill_proc k.ticks p

    marked : Kernel
    marked = record k { procs = set k.procs j victim }

    room : j < length k.procs
    room = lt-length_of_get k.procs j first.0

    marks : (victim.state ≡ unused) × (victim.killed ≡ 1)
    marks = kill_proc-free k.ticks p free

    found : find_unused 0 marked.procs ≡ some (j, victim)
    found =
        find_unused-first marked.procs 0 j victim (get_elem?-set_self k.procs j victim room) marks.0
          (λ n q lt e. before n q lt (sym (get_elem?-set_ne k.procs victim (λ h. omega arith)) ∙ e))
        ∙ ap (λ i. some (i, victim)) (zero-add j)
