-- ===== src/Sched/Mlfq.antt =====
-- The multi-level feedback scheduler of kernel/proc.c: `ageing`, the filling of the queues, the choice, and
-- a round of the scheduler. `spins` means that the fuel of a loop ran out.
pub mod Choice
pub mod Ageing
use osn.Base.{
  ℕ, zero, suc, ◌+◌, ◌-◌, ◌%◌, ◌^◌, ◌≡◌, List, [], ◌∷◌, Option, none, some, Bool, true, false, not,
  ◌==◌, ltb, ◌&&◌, if◌then◌else◌, get_elem?, set, replicate, length,
}
use osn.Base.Word.{add32, sub32}
use osn.Proc.{Proc, Kernel, runnable, running, state_eq}
use osn.Proc.Wakeup.{at_proc}
use osn.Sched.Queue.{
  ProcQueue, pq_init, enqueue, dequeue, remove, Removal, finished, faulted, in_loop,
}

-- The kernel and `mfq[5]`.
pub record System : Type 0 where
  pub kernel : Kernel
  pub mfq : List ProcQueue

pub data Run {ℓ} (A : Type ℓ) : Type ℓ where
  done : A → Run A
  fault : Run A
  spins : Run A

infixl 5 ◌>>=◌
abbrev pub ◌>>=◌ {ℓ κ} : {A : Type ℓ} {B : Type κ} → Run A → (A → Run B) → Run B
done a >>= f = f a
fault >>= f = fault
spins >>= f = spins

abbrev pub from_option {ℓ} : {A : Type ℓ} → Option A → Run A
from_option none = fault
from_option (some a) = done a

abbrev from_removal : Removal → Run ProcQueue
from_removal (finished q) = done q
from_removal faulted = fault
from_removal in_loop = spins

-- The pid of the process at a slot; past the table there is none.
pid_at : Kernel → ℕ → ℕ
pid_at k i = elim (get_elem? k.procs i) [ none ↦ 0 | some p ↦ p.pid ]

-- `RUNNABLE`, and 25 ticks or more in its queue.
pub aged : ℕ → Proc → Bool
aged ticks p = state_eq p.state runnable && ltb 24 (sub32 ticks p.q_enter)

-- The entry of an aged process after `ageing`: one level up, if there is one.
pub promote : ℕ → Proc → Proc
promote ticks p =
    let q = record p { in_q = if p.in_q == 1 then 0 else p.in_q; q_enter = ticks } in
    if ltb 0 p.level then record q { level = p.level - 1; timein_q = 2 ^ (p.level - 1) } else q

-- `ProcQueueRemove(&mfq[p->level], p->pid)`
take_out : ℕ → Proc → System → Run System
unfolding pid_at
take_out fuel p s = do
  q ← from_option (get_elem? s.mfq p.level)
  q' ← from_removal (remove fuel (pid_at s.kernel) p.pid q)
  done (record s { mfq = set s.mfq p.level q' })

-- An aged process leaves its queue, if it is in one, and moves up.
age_slot : ℕ → ℕ → Proc → System → Run System
unfolding promote take_out at_proc
age_slot fuel i p s = do
  s' ← if p.in_q == 1 then take_out fuel p s else done s
  done (record s' { kernel = at_proc i (promote s.kernel.ticks) s'.kernel })

pub ageing_slot : ℕ → ℕ → System → Run System
unfolding aged age_slot
ageing_slot fuel i s = elim (get_elem? s.kernel.procs i) [
  | none ↦ done s
  | some p ↦ if aged s.kernel.ticks p then age_slot fuel i p s else done s
]

-- `ageing`, from slot `i` on; `fuel` is for each `ProcQueueRemove`.
ageing_from : ℕ → ℕ → ℕ → System → Run System
unfolding ageing_slot
ageing_from fuel i zero s = done s
ageing_from fuel i (suc n) s = do s' ← ageing_slot fuel i s; ageing_from fuel (suc i) n s'

pub ageing : ℕ → System → Run System
unfolding ageing_from
ageing fuel s = ageing_from fuel 0 (length s.kernel.procs) s

-- `p->inQ = 1; ProcQueueEnqueue(&(mfq[p->level]), p)`
put_in : ℕ → Proc → System → Run System
unfolding at_proc
put_in i p s = do
  q ← from_option (get_elem? s.mfq p.level)
  q' ← from_option (enqueue q i)
  done (record {
    kernel = at_proc i (λ x. record x { in_q = 1 }) s.kernel;
    mfq = set s.mfq p.level q';
  })

-- A runnable process that is in no queue is put into that of its level.
fill_slot : ℕ → System → Run System
unfolding put_in
fill_slot i s = elim (get_elem? s.kernel.procs i) [
  | none ↦ done s
  | some p ↦ if state_eq p.state runnable && p.in_q == 0 then put_in i p s else done s
]

fill_from : ℕ → ℕ → System → Run System
unfolding fill_slot
fill_from i zero s = done s
fill_from i (suc n) s = do s' ← fill_slot i s; fill_from (suc i) n s'

-- Takes entries from one queue until a runnable process or null comes out.
pub pick_level : ℕ → Kernel → ProcQueue → Run (Kernel × ProcQueue × Option ℕ)
pick_level zero k q = spins
pick_level (suc fuel) k q = do
  (temp, q') ← from_option (dequeue q)
  elim temp [
    | none ↦ done (k, q', none)
    | some i ↦ elim (get_elem? k.procs i) [
      | none ↦ fault
      | some p ↦
          let out = at_proc i (λ x. record x { in_q = 0 }) k in
          elim (state_eq p.state runnable) [
            | true ↦ done (at_proc i (λ x. record x { q_enter = k.ticks }) out, q', some i)
            | false ↦ pick_level fuel out q'
          ]
    ]
  ]

-- The levels from `i` on, `n` of them, until one has a runnable process.
pick_from : ℕ → ℕ → ℕ → System → Run (System × Option ℕ)
unfolding pick_level
pick_from fuel i zero s = done (s, none)
pick_from fuel i (suc n) s = do
  q ← from_option (get_elem? s.mfq i)
  (k', q', low) ← pick_level fuel s.kernel q
  let s' = record s { kernel = k'; mfq = set s.mfq i q' }
  elim low [ none ↦ pick_from fuel (suc i) n s' | some p ↦ done (s', some p) ]

-- The end of a round, with the process that was picked; `swtch` is what happens while it runs on this
-- processor.
mlfq_start : (ℕ → System → System) → System → Option ℕ → System
unfolding at_proc
mlfq_start swtch s none = s
mlfq_start swtch s (some i) =
    let start =
      at_proc i
        (λ p. record p {
          nrun = add32 p.nrun 1;
          state = running;
          runtime = 0;
          sched1 = s.kernel.ticks;
        })
        s.kernel in
    let s' = swtch i (record s { kernel = start }) in
    record s' { kernel = at_proc i (λ p. record p { q_enter = s'.kernel.ticks }) s'.kernel }

-- A round of the scheduler.
pub mlfq_round : ℕ → (ℕ → System → System) → System → Run System
unfolding ageing fill_from pick_from mlfq_start
mlfq_round fuel swtch s = do
  s1 ← ageing fuel s
  s2 ← fill_from 0 (length s1.kernel.procs) s1
  (s3, low) ← pick_from fuel 0 5 s2
  done (mlfq_start swtch s3 low)
