-- ===== src/Sched/Queue/Hang.antt =====
-- The loop of `ProcQueueRemove` of kernel/proc.c.
use osn.Base.{
  ℕ, zero, suc, ◌≡◌, ◌≢◌, none, some, true, ◌==◌, arith, Bool-cases, Option-cases, inl, inr,
}
use osn.Base.Int.{ℤ, ltb_ℤ}
use osn.Sched.Queue.{ProcQueue, finished, remove, remove_from, exchange, read}

remove_from-hangs :
    (fuel : ℕ) (pid_of : ℕ → ℕ) (pid : ℕ) (i : ℤ) (q q' : ProcQueue)
    → ltb_ℤ i q.rear ≡ true
    → remove_from fuel pid_of pid i q ≢ finished q'
unfolding remove_from
remove_from-hangs zero pid_of pid i q q' h e = cc
remove_from-hangs (suc fuel) pid_of pid i q q' h e = elim (Option-cases (read q.list i)) [
  | inl out ↦ ground arith
  | inr (none, null) ↦ ground arith
  | inr (some p, here) ↦ elim (Bool-cases (pid_of p == pid)) [
    | inr other ↦ remove_from-hangs fuel pid_of pid i q q' h (ground arith)
    | inl hit ↦ elim (Option-cases (exchange q.list i (some p))) [
      | inl out ↦ ground arith
      | inr (list, swapped) ↦
          remove_from-hangs fuel pid_of pid i (record q { list = list }) q' h (ground arith)
    ]
  ]
]

-- While the front stands before the rear, as in a queue of two or more entries that does not go round the
-- end of the array, no number of rounds brings `ProcQueueRemove` to its end.
pub remove-hangs :
    (fuel : ℕ) (pid_of : ℕ → ℕ) (pid : ℕ) (q q' : ProcQueue)
    → ltb_ℤ q.front q.rear ≡ true
    → remove fuel pid_of pid q ≢ finished q'
unfolding remove
remove-hangs fuel pid_of pid q q' h = remove_from-hangs fuel pid_of pid q.front q q' h
