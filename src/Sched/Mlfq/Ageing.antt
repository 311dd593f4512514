-- ===== src/Sched/Mlfq/Ageing.antt =====
-- What `ageing` of kernel/proc.c does with an aged process.
use osn.Base.{
  ℕ, ◌-◌, ◌^◌, ◌<◌, ◌≡◌, ◌≢◌, refl, some, true, false, ltb, ◌&&◌, if◌then◌else◌, get_elem?, arith,
  Bool-cases, inl, inr,
}
use osn.Base.Int.{ltb_ℤ}
use osn.Base.Word.{sub32}
use osn.Proc.{Proc, runnable, state_eq}
use osn.Sched.Queue.{ProcQueue, Removal, finished, faulted, in_loop, remove}
use osn.Sched.Queue.Hang.{remove-hangs}
use osn.Sched.Mlfq.{System, done, ageing_slot, age_slot, take_out, aged, promote, pid_at}

-- `ageing` moves a process up by one level, gives it the slice of the level it then has, and never moves a
-- process that has just entered its queue: promotion needs 25 ticks there.
pub promote_lem :
    (ticks : ℕ) (p : Proc)
    → ((promote ticks p).level ≡ p.level - 1)
      × ((promote ticks p).timein_q ≡ (if ltb 0 p.level then 2 ^ (p.level - 1) else p.timein_q))
      × ((promote ticks p).q_enter ≡ ticks)
      × (aged ticks (promote ticks p) ≡ false)
unfolding promote aged
promote_lem ticks p = elim (Bool-cases (ltb 0 p.level)) [
  | inl up ↦ rw up (refl, refl, refl, fresh_entry)
  | inr top ↦ rw top (ground arith, refl, refl, fresh_entry)
]
  where
    no_wait : ltb 24 (sub32 ticks ticks) ≡ false
    no_wait = ground arith

    fresh_entry : (state_eq p.state runnable && ltb 24 (sub32 ticks ticks)) ≡ false
    fresh_entry = ground arith

-- An aged process that is in a queue whose front stands before its rear stops the scheduler: whatever the
-- fuel, `ageing` does not get past its slot.
pub ageing-hangs :
    (fuel i : ℕ) (s s' : System) (p : Proc) (q : ProcQueue)
    → get_elem? s.kernel.procs i ≡ some p
    → p.state ≡ runnable
    → 24 < sub32 s.kernel.ticks p.q_enter
    → p.in_q ≡ 1
    → get_elem? s.mfq p.level ≡ some q
    → ltb_ℤ q.front q.rear ≡ true
    → ageing_slot fuel i s ≢ done s'
unfolding ageing_slot aged age_slot take_out
ageing-hangs fuel i s s' p q here runs old queued at before e =
    by_removal (remove fuel (pid_at s.kernel) p.pid q) refl
  where
    by_removal : (r : Removal) → remove fuel (pid_at s.kernel) p.pid q ≡ r → ⊥
    by_removal (finished q') r = remove-hangs fuel (pid_at s.kernel) p.pid q q' before r
    by_removal faulted r = ground arith
    by_removal in_loop r = ground arith
