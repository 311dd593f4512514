-- ===== src/Sched.antt =====
-- The schedulers of kernel/proc.c: one of the four is compiled in. A round of a scheduler picks a process
-- under its lock; `swtch` is a parameter, what the kernel does while the process runs on this processor.
pub mod Pick
pub mod Fcfs
pub mod Pbs
pub mod Queue
pub mod Mlfq
use osn.Base.{
  ℕ, zero, suc, ◌+◌, ◌-◌, ◌%◌, ◌≡◌, List, [], ◌∷◌, Option, none, some, Bool, true, false, ◌==◌,
  ◌&&◌, ltb, if◌then◌else◌, get_elem?,
}
use osn.Base.Word.{add32, sub32, mul32, divu32}
use osn.Proc.{Proc, Kernel, runnable, running, state_eq}
use osn.Proc.Wakeup.{at_proc}

-- The slot held so far and its entry, `low`, after the runnable process `p` at slot `i`: the lower key wins,
-- and the earlier slot among equal keys.
pub consider : (Proc → ℕ) → ℕ → Proc → Option (ℕ × Proc) → Option (ℕ × Proc)
consider key i p none = some (i, p)
consider key i p (some (j, low)) = if ltb (key p) (key low) then some (i, p) else some (j, low)

-- The scan of the first-come-first-served scheduler.
pub fcfs_scan : ℕ → Option (ℕ × Proc) → List Proc → Option (ℕ × Proc)
unfolding consider
fcfs_scan i low [] = low
fcfs_scan i low (p ∷ ps) =
    fcfs_scan (suc i)
      (if state_eq p.state runnable then consider (λ q. q.birthtime) i p low else low) ps

-- A round of the first-come-first-served scheduler.
pub fcfs_round : (ℕ → Kernel → Kernel) → Kernel → Kernel
unfolding fcfs_scan at_proc
fcfs_round swtch k = elim (fcfs_scan 0 none k.procs) [
  | none ↦ k
  | some (i, low) ↦ swtch i (at_proc i (λ p. record p { nrun = add32 p.nrun 1; state = running }) k)
]

-- `temp` of the priority scheduler, in the `uint`s of the code: at most 100.
pub capped : ℕ → ℕ → ℕ
capped static niceness =
    let priority = add32 (sub32 static niceness) 5 in if ltb 100 priority then 100 else priority

-- The new niceness and dynamic priority of a runnable process.
pub reprioritise : Proc → Proc
unfolding capped
reprioritise p =
    let slept = sub32 (sub32 p.sched2 p.sched1) p.runtime in
    let nice = divu32 (mul32 10 slept) (sub32 p.sched2 p.sched1) in
    record p { niceness = nice; dynamic_priority = capped p.static_priority nice }

-- The scan of the priority scheduler, which also stores the new priorities.
pub pbs_scan : ℕ → Option (ℕ × Proc) → List Proc → List Proc × Option (ℕ × Proc)
unfolding consider reprioritise
pbs_scan i low [] = ([], low)
pbs_scan i low (p ∷ ps) =
    let p' = if state_eq p.state runnable then reprioritise p else p in
    let low' =
      if state_eq p.state runnable then consider (λ q. q.dynamic_priority) i p' low else low in
    let (rest, chosen) = pbs_scan (suc i) low' ps in (p' ∷ rest, chosen)

-- The end of a round of the priority scheduler, with the table and the choice of its scan.
pbs_start : (ℕ → Kernel → Kernel) → Kernel → List Proc × Option (ℕ × Proc) → Kernel
unfolding at_proc
pbs_start swtch k (ps, none) = record k { procs = ps }
pbs_start swtch k (ps, some (i, low)) = swtch i (
    at_proc i
      (λ p. record p { nrun = add32 p.nrun 1; state = running; runtime = 0; sched1 = k.ticks })
      (record k { procs = ps }))

-- A round of the priority scheduler.
pub pbs_round : (ℕ → Kernel → Kernel) → Kernel → Kernel
unfolding pbs_scan pbs_start
pbs_round swtch k = pbs_start swtch k (pbs_scan 0 none k.procs)

-- A pass of the default scheduler over the slots from `i` on, `n` of them: each process that is runnable
-- when its turn comes runs once.
default_pass : ℕ → ℕ → (ℕ → Kernel → Kernel) → Kernel → Kernel
unfolding at_proc
default_pass zero i swtch k = k
default_pass (suc n) i swtch k = default_pass n (suc i) swtch (turn (get_elem? k.procs i))
  where
    turn : Option Proc → Kernel
    turn none = k
    turn (some p) =
        if state_eq p.state runnable
        then swtch i (at_proc i (λ p. record p { state = running }) k)
        else k
