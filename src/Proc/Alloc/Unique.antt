-- ===== src/Proc/Alloc/Unique.antt =====
-- What `allocproc` of kernel/proc.c returns on each branch, and the ids of the processes in use.
use osn.Base.{
  ℕ, zero, suc, ◌+◌, ◌-◌, ◌^◌, subst, ◌<◌, ◌≡◌, ◌≢◌, refl, ap, ◌⊎◌, inl, inr, List, [], ◌∷◌, Option,
  none, some, Bool, true, false, get_elem?, set, arith, Bool-cases, get_elem?-set_cases,
}
use osn.Base.Word.{add32}
use osn.Proc.{Proc, Kernel, Trapframe, ProcState, unused, state_eq, null_chan}
use osn.Proc.Alloc.{allocproc, find_unused, fresh, freeproc}

pub state_eq-unused : (s : ProcState) → (state_eq s unused ≡ true) → s ≡ unused
state_eq-unused unused e = refl
state_eq-unused _ e = cc

find_unused_lem :
    (ps : List Proc) (i n : ℕ) (p : Proc)
    → find_unused i ps ≡ some (n, p)
    → (j : ℕ) × (n ≡ i + j) × (get_elem? ps j ≡ some p) × (p.state ≡ unused)
unfolding find_unused
find_unused_lem [] i n p e = cc
find_unused_lem (q ∷ ps) i n p e = elim (Bool-cases (state_eq q.state unused)) [
  | inl free ↦ (0, ground arith, ground arith, ground (arith, state_eq-unused q.state free))
  | inr busy ↦
      let (j, at, here, state) = find_unused_lem ps (suc i) n p (ground arith) in
      (suc j, omega arith, here, state)
]

find_unused-none :
    (ps : List Proc) (i : ℕ)
    → find_unused i ps ≡ none
    → (j : ℕ) (p : Proc) → get_elem? ps j ≡ some p
    → p.state ≢ unused
unfolding find_unused
find_unused-none [] i e j p g = cc
find_unused-none (x ∷ ps) i e zero p g = ground arith
find_unused-none (x ∷ ps) i e (suc j) p g = find_unused-none ps (suc i) (ground arith) j p g

-- A free slot, without a parent, memory or a mark from `kill`.
pub record Freed (q : Proc) : Type 0 where
  pub state : q.state ≡ unused
  pub ids : (q.pid ≡ 0) × (q.parent ≡ none)
  pub memory : (q.trapframe ≡ none) × (q.pagetable ≡ false) × (q.sz ≡ 0)
  pub quiet : (q.chan ≡ null_chan) × (q.killed ≡ 0)

pub freeproc-Freed : (p : Proc) → Freed (freeproc p)
unfolding freeproc
freeproc-Freed p = record {
  state = refl;
  ids = (refl, refl);
  memory = (refl, refl, refl);
  quiet = (refl, refl);
}

-- What `allocproc` does with the table: it fails for want of a slot, fails for want of memory and
-- leaves the slot free, or hands the slot out.
pub data Allocated (page : Option Trapframe) (pagetable : Bool) (k : Kernel)
    : Kernel × Option ℕ → Type 0 where
  full :
      ((j : ℕ) (p : Proc) → get_elem? k.procs j ≡ some p → p.state ≢ unused)
      → Allocated page pagetable k (k, none)
  no_memory :
      (i : ℕ) (p q : Proc)
      → get_elem? k.procs i ≡ some p
      → p.state ≡ unused
      → (page ≡ none) ⊎ (pagetable ≡ false)
      → q.state ≡ unused
      → Allocated page pagetable k
          (record k { nextpid = add32 k.nextpid 1; procs = set k.procs i q }, none)
  found :
      (i : ℕ) (p q : Proc)
      → get_elem? k.procs i ≡ some p
      → p.state ≡ unused
      → q ≡ record (fresh k.nextpid k.ticks p) { trapframe = page; pagetable = true }
      → Allocated page pagetable k
          (record k { nextpid = add32 k.nextpid 1; procs = set k.procs i q }, some i)

slot :
    (ps : List Proc) (n j : ℕ) (p : Proc)
    → n ≡ 0 + j
    → get_elem? ps j ≡ some p
    → get_elem? ps n ≡ some p
slot ps n j p at here = let e : n ≡ j = omega arith in rw e here

pub allocproc-Allocated :
    (page : Option Trapframe) (pagetable : Bool) (k : Kernel)
    → Allocated page pagetable k (allocproc page pagetable k)
unfolding allocproc
allocproc-Allocated page pagetable k = go page pagetable (find_unused 0 k.procs) refl
  where
    go :
        (page : Option Trapframe) (pagetable : Bool) (r : Option (ℕ × Proc))
        → find_unused 0 k.procs ≡ r
        → Allocated page pagetable k (allocproc page pagetable k)
    go page pagetable none e = rw (e, allocproc) (full (find_unused-none k.procs 0 e))
    go none pagetable (some (n, p)) e =
        let (j, at, here, free) = find_unused_lem k.procs 0 n p e in
        rw (e, allocproc)
          (no_memory n p (freeproc (fresh k.nextpid k.ticks p)) (slot k.procs n j p at here) free
            (inl refl) refl)
    go (some tf) false (some (n, p)) e =
        let (j, at, here, free) = find_unused_lem k.procs 0 n p e in
        rw (e, allocproc)
          (no_memory n p (freeproc (fresh k.nextpid k.ticks p)) (slot k.procs n j p at here) free
            (inr refl) refl)
    go (some tf) true (some (n, p)) e =
        let (j, at, here, free) = find_unused_lem k.procs 0 n p e in
        rw (e, allocproc) (found n p _ (slot k.procs n j p at here) free refl)

-- The ids of the processes in use are distinct, and below the next one to hand out.
pub record PidsUnique (ps : List Proc) (next : ℕ) : Type 0 where
  pub below : (i : ℕ) (p : Proc) → get_elem? ps i ≡ some p → p.state ≢ unused → p.pid < next
  pub distinct :
      (i j : ℕ) (p q : Proc)
      → get_elem? ps i ≡ some p
      → get_elem? ps j ≡ some q
      → p.state ≢ unused
      → q.state ≢ unused
      → p.pid ≡ q.pid
      → i ≡ j

-- A slot may be freed, or take the next id.
pub PidsUnique-set :
    (ps : List Proc) (next i : ℕ) (q : Proc)
    → PidsUnique ps next
    → (q.state ≡ unused) ⊎ (q.pid ≡ next)
    → PidsUnique (set ps i q) (next + 1)
PidsUnique-set ps next i q u new = record { below = below; distinct = distinct }
  where
    below :
        (j : ℕ) (p : Proc) → get_elem? (set ps i q) j ≡ some p → p.state ≢ unused → p.pid < next + 1
    below j p e busy = ground (arith, get_elem?-set_cases ps i j q e, u.below j p)

    distinct :
        (j k : ℕ) (p r : Proc)
        → get_elem? (set ps i q) j ≡ some p
        → get_elem? (set ps i q) k ≡ some r
        → p.state ≢ unused
        → r.state ≢ unused
        → p.pid ≡ r.pid
        → j ≡ k
    distinct j k p r ej ek bp br same = ground (
      arith,
      get_elem?-set_cases ps i j q ej,
      get_elem?-set_cases ps i k q ek,
      u.distinct j k p r,
      u.below j p,
      u.below k r,
    )

-- No id wraps before the largest `int`.
next_pid :
    (ps : List Proc) (next : ℕ)
    → next < 2 ^ 31 - 1
    → PidsUnique ps (next + 1)
    → PidsUnique ps (add32 next 1)
next_pid ps next lt u = let e : next + 1 ≡ add32 next 1 = omega arith in subst (PidsUnique ps) e u

PidsUnique-Allocated :
    (page : Option Trapframe) (pagetable : Bool) (k : Kernel) {r : Kernel × Option ℕ}
    → k.nextpid < 2 ^ 31 - 1
    → PidsUnique k.procs k.nextpid
    → Allocated page pagetable k r
    → PidsUnique r.0.procs r.0.nextpid
unfolding fresh
PidsUnique-Allocated page pagetable k lt u (full none_free) = u
PidsUnique-Allocated page pagetable k lt u (no_memory i p q here free short freed) =
    next_pid (set k.procs i q) k.nextpid lt (PidsUnique-set k.procs k.nextpid i q u (inl freed))
PidsUnique-Allocated page pagetable k lt u (found i p q here free made) =
    next_pid (set k.procs i q) k.nextpid lt
      (PidsUnique-set k.procs k.nextpid i q u (inr (ap (λ (x : Proc). x.pid) made)))

-- `allocproc` keeps the ids of the processes in use distinct and below `nextpid`, whether or not it succeeds, as long as
-- `nextpid` is below the largest `int`.
pub allocproc-PidsUnique :
    (page : Option Trapframe) (pagetable : Bool) (k : Kernel)
    → k.nextpid < 2 ^ 31 - 1
    → PidsUnique k.procs k.nextpid
    → let r = allocproc page pagetable k in PidsUnique r.0.procs r.0.nextpid
allocproc-PidsUnique page pagetable k lt u =
    PidsUnique-Allocated page pagetable k lt u (allocproc-Allocated page pagetable k)
