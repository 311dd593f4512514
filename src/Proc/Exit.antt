-- ===== src/Proc/Exit.antt =====
-- `reparent`, `exit`, `wait` and `waitx` of kernel/proc.c. `wait_lock` is held through each of them, so
-- each is one step; one round of the loop of `wait` ends by a return or by `sleep`.
pub mod Orphans
pub mod Zombie
pub mod Waiting
use osn.Base.{
  ℕ, zero, suc, ◌+◌, ◌-◌, ◌%◌, ◌^◌, ◌≡◌, List, [], ◌∷◌, ◌++◌, Option, none, some, Bool, true, false,
  not, ◌==◌, ◌&&◌, ◌||◌, if◌then◌else◌, get_elem?, set, each, same_slot, update, replicate, map,
  length,
}
use osn.Base.Int.{ℤ, pos, minus_one, to_int}
use osn.Base.Word.{sub32, add32, uint_mod}
use osn.File.{File, Outcome, done, panicked, ◌>>=◌, Released, fileclose}
use osn.Proc.{Proc, Kernel, Chan, null_chan, proc_chan, zombie, state_eq, nofile}
use osn.Proc.Alloc.{freeproc}
use osn.Proc.Wakeup.{at_proc, wakeup, sleep}

-- A `struct proc *` as a channel.
abbrev pub chan_of : Option ℕ → Chan
chan_of none = null_chan
chan_of (some i) = proc_chan i

-- What the loop of `reparent` does at slot `i`; `me` is the process that exits.
pub reparent_slot : ℕ → ℕ → Kernel → Kernel
reparent_slot me i k = elim (get_elem? k.procs i) [
  | none ↦ k
  | some pp ↦
      if same_slot pp.parent (some me)
      then wakeup (some me) (chan_of k.initproc)
          (at_proc i (λ p. record p { parent = k.initproc }) k)
      else k
]

-- The slots from `i` on, `n` of them, in order.
reparent_from : ℕ → ℕ → ℕ → Kernel → Kernel
unfolding reparent_slot
reparent_from me i zero k = k
reparent_from me i (suc n) k = reparent_from me (suc i) n (reparent_slot me i k)

pub reparent : ℕ → Kernel → Kernel
unfolding reparent_from
reparent me k = reparent_from me 0 (length k.procs) k

-- The descriptors in order, and what each last close releases below file.c.
close_files : List (Option ℕ) → List File → Outcome (List File × List Released)
close_files [] fs = done (fs, [])
close_files (none ∷ rest) fs = close_files rest fs
close_files (some f ∷ rest) fs = do
  (fs', r) ← fileclose f fs
  (fs'', rs) ← close_files rest fs'
  done (fs'', r ∷ rs)

-- `iput(p->cwd)` on the count; what it does to an inode without links is fs.c's. A null
-- pointer is a page fault of the kernel, which panics.
put_cwd : Option ℕ → (ℕ → ℕ) → Outcome (ℕ → ℕ)
put_cwd none icount = panicked
put_cwd (some ip) icount = done (update icount ip (sub32 (icount ip) 1))

-- `exit` after the files are closed and the directory is put, up to `sched()`.
become_zombie : ℕ → ℤ → Proc → Kernel → Kernel
unfolding reparent
become_zombie me status p k =
    let k' = wakeup (some me) (chan_of p.parent) (reparent me k) in
    at_proc me (λ q. record q { xstate = status; state = zombie; etime = k'.ticks }) k'

-- The entry of the exiting process with its files closed and its directory put.
exit_closed : ℕ → Proc → List File → (ℕ → ℕ) → Kernel → Kernel
exit_closed me p fs counts k = record k {
  procs =
      each 0
        (λ i q.
          if i == me then record q { ofile = replicate (length p.ofile) none; cwd = none } else q)
        k.procs;
  ftable = fs;
  icount = counts;
}

exit_at : ℕ → ℤ → Proc → Kernel → Outcome (Kernel × List Released)
unfolding exit_closed close_files put_cwd become_zombie
exit_at me status p k = if same_slot (some me) k.initproc then panicked else do
  (fs, rs) ← close_files p.ofile k.ftable
  counts ← put_cwd p.cwd k.icount
  done (become_zombie me status p (exit_closed me p fs counts k), rs)

-- `exit` up to `sched()`, which does not come back, with what the closes released.
unfoldable pub exit : ℕ → ℤ → Kernel → Outcome (Kernel × List Released)
unfolding exit_at
exit me status k = elim (get_elem? k.procs me) [ none ↦ panicked | some p ↦ exit_at me status p k ]

-- What the scan over the table finds: an exited child with its slot, or whether there are children.
pub data Scan : Type 0 where
  exited : ℕ → Proc → Scan
  none_exited : Bool → Scan

scan : ℕ → ℕ → List Proc → Bool → Scan
scan me i [] havekids = none_exited havekids
scan me i (np ∷ ps) havekids =
    let rest = scan me (suc i) ps (same_slot np.parent (some me) || havekids) in
    if same_slot np.parent (some me) && state_eq np.state zombie then exited i np else rest

pub data Waited : Type 0 where
  returns : ℤ → Waited
  sleeps : Waited

-- The end of a round of `wait` after the scan: `addr` is the user address for the status, and `copied`
-- is whether `copyout` to it succeeds.
wait_end : ℕ → ℕ → Bool → Proc → Scan → Kernel → Kernel × Waited
unfolding to_int
wait_end me addr copied p (exited i np) k =
    if not (addr == 0) && not copied
    then (k, returns minus_one)
    else (record k { procs = set k.procs i (freeproc np) }, returns (to_int np.pid))
wait_end me addr copied p (none_exited havekids) k =
    if not havekids || not (p.killed == 0)
    then (k, returns minus_one)
    else (sleep me (proc_chan me) k, sleeps)

-- One round of `wait`. After `sleeps` the process waits to be woken, and the next round begins.
pub wait : ℕ → ℕ → Bool → Kernel → Outcome (Kernel × Waited)
unfolding scan wait_end
wait me addr copied k = elim (get_elem? k.procs me) [
  | none ↦ panicked
  | some p ↦ done (wait_end me addr copied p (scan me 0 k.procs false) k)
]

-- `*rtime` and `*wtime`, which are set where a child has exited.
times_of : Scan → Option (ℕ × ℕ)
times_of (exited i np) = some (np.rtime, sub32 (sub32 np.etime np.birthtime) np.rtime)
times_of (none_exited havekids) = none

-- One round of `waitx`.
pub waitx : ℕ → ℕ → Bool → Kernel → Outcome (Kernel × Waited × Option (ℕ × ℕ))
unfolding scan wait_end times_of
waitx me addr copied k = elim (get_elem? k.procs me) [
  | none ↦ panicked
  | some p ↦
      let s = scan me 0 k.procs false in
      let (k', r) = wait_end me addr copied p s k in done (k', r, times_of s)
]
