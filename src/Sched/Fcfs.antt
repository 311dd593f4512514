-- ===== src/Sched/Fcfs.antt =====
-- The choice of the first-come-first-served scheduler of kernel/proc.c.
use osn.Base.{ℕ, suc, ◌≡◌, ◌≢◌, refl, List, [], ◌∷◌, Option, none, some, get_elem?, ◌⊎◌, ◌≤◌, ◌<◌}
use osn.Base.Word.{add32}
use osn.Proc.{Proc, Kernel, runnable, running}
use osn.Proc.Wakeup.{at_proc}
use osn.Sched.{fcfs_scan, fcfs_round}
use osn.Sched.Pick.{Chosen, nobody, lowest, scan_by, scan_by-Chosen}

fcfs_scan-scan_by :
    (ps : List Proc) (i : ℕ) (low : Option (ℕ × Proc))
    → fcfs_scan i low ps ≡ scan_by (λ p. p.birthtime) i low ps
unfolding fcfs_scan scan_by
fcfs_scan-scan_by [] i low = refl
fcfs_scan-scan_by (p ∷ ps) i low = fcfs_scan-scan_by ps (suc i) _

-- What a round of the scheduler does: nothing, if no process is runnable; or it runs one, with its count
-- of runs up by one.
pub data FcfsRound (swtch : ℕ → Kernel → Kernel) (k : Kernel) : Kernel → Type 0 where
  idle :
      ((j : ℕ) (q : Proc) → get_elem? k.procs j ≡ some q → q.state ≢ runnable) → FcfsRound swtch k k
  runs :
      (i : ℕ) (p : Proc)
      → get_elem? k.procs i ≡ some p
      → p.state ≡ runnable
      → ((j : ℕ) (q : Proc)
          → get_elem? k.procs j ≡ some q
          → q.state ≡ runnable
          → (p.birthtime < q.birthtime) ⊎ ((p.birthtime ≡ q.birthtime) × (i ≤ j)))
      → FcfsRound swtch k
          (swtch i (at_proc i (λ q. record q { nrun = add32 q.nrun 1; state = running }) k))

-- A round runs a process exactly if one is runnable, and then the one that was created first, the first in
-- the table among those of one tick.
pub fcfs_round_lem :
    (swtch : ℕ → Kernel → Kernel) (k : Kernel) → FcfsRound swtch k (fcfs_round swtch k)
unfolding fcfs_round
fcfs_round_lem swtch k = by_choice picked
  where
    picked : Chosen (λ p. p.birthtime) k.procs (fcfs_scan 0 none k.procs)
    picked = rw (fcfs_scan-scan_by k.procs 0 none) (scan_by-Chosen (λ p. p.birthtime) k.procs)

    by_choice :
        {r : Option (ℕ × Proc)}
        → Chosen (λ p. p.birthtime) k.procs r
        → FcfsRound swtch k (elim r [
          | none ↦ k
          | some (i, low) ↦
              swtch i (at_proc i (λ q. record q { nrun = add32 q.nrun 1; state = running }) k)
        ])
    by_choice (nobody h) = idle h
    by_choice (lowest i p here r first) = runs i p here r first
