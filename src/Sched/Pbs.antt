-- ===== src/Sched/Pbs.antt =====
-- The priority scheduler of kernel/proc.c: its priorities, and its choice.
use osn.Base.{
  ℕ, ◌+◌, ◌-◌, ◌*◌, ◌/◌, ◌^◌, ◌≡◌, ◌≢◌, refl, some, false, if◌then◌else◌, get_elem?, arith, inl,
  inr, ◌⊎◌, ◌≤◌, ◌<◌, ◌==◌, min, each, dec_le,
}
use osn.Base.Word.{add32, sub32, mul32}
use osn.Proc.{Proc, Kernel, runnable, running, state_eq}
use osn.Proc.Wakeup.{at_proc}
use osn.Sched.{capped, reprioritise}

-- The niceness that the assignment defines: the share of sleep since the process was last scheduled, in
-- tenths, for a process that slept `slept` of `slept + ran` ticks.
pub share : ℕ → ℕ → ℕ
share slept ran = 10 * slept / (slept + ran)

share-le : (slept ran : ℕ) → share slept ran ≤ 10
unfolding share
share-le slept ran = grind arith

-- For a process that has run and slept since it was last scheduled, in times that do not wrap, the niceness
-- is the share of sleep, at most 10.
pub niceness_lem :
    (p : Proc) (slept : ℕ)
    → p.sched2 ≡ p.sched1 + p.runtime + slept
    → 0 < p.runtime + slept
    → p.sched2 < 2 ^ 28
    → ((reprioritise p).niceness ≡ share slept p.runtime) × ((reprioritise p).niceness ≤ 10)
unfolding reprioritise share
niceness_lem p slept e pos small =
    let span : sub32 p.sched2 p.sched1 ≡ slept + p.runtime = omega arith in
    let rest : sub32 (slept + p.runtime) p.runtime ≡ slept = omega arith in
    let tenfold : mul32 10 slept ≡ 10 * slept = omega arith in
    let some_time : (slept + p.runtime == 0) ≡ false = ground arith in
    rw (span, rest, tenfold, some_time) (refl, share-le slept p.runtime)

-- The dynamic priority is never above 100.
pub capped-le : (static niceness : ℕ) → capped static niceness ≤ 100
unfolding capped
capped-le static niceness = ground arith

-- Where the niceness is at most the static priority and 5, the dynamic priority is
-- `min (100, static - niceness + 5)`. Where it is more, the difference wraps, and the process gets the
-- lowest priority, 100, and not the highest, 0.
pub capped_lem :
    (static niceness : ℕ)
    → static ≤ 100
    → niceness ≤ 10
    → ((niceness ≤ static + 5) × (capped static niceness ≡ min 100 (static + 5 - niceness)))
      ⊎ ((static + 5 < niceness) × (capped static niceness ≡ 100))
unfolding capped
capped_lem static niceness hs hn = elim (dec_le niceness (static + 5)) [
  | yes h ↦ inl (h, ground arith)
  | no h ↦ inr (omega arith, ground arith)
]

-- The entry of a process after the pass that stores the priorities.
updated : ℕ → Proc → Proc
unfolding reprioritise
updated i p = if state_eq p.state runnable then reprioritise p else p

-- The table with the priorities of this round.
pub table_of : Kernel → Kernel
unfolding updated
table_of k = record k { procs = each 0 updated k.procs }

-- What a round does with the updated table `k`: nothing, or it runs a process from it.
pub data PbsRound (swtch : ℕ → Kernel → Kernel) (k : Kernel) : Kernel → Type 0 where
  idle :
      ((j : ℕ) (q : Proc) → get_elem? k.procs j ≡ some q → q.state ≢ runnable) → PbsRound swtch k k
  runs :
      (i : ℕ) (p : Proc)
      → get_elem? k.procs i ≡ some p
      → p.state ≡ runnable
      → ((j : ℕ) (q : Proc)
          → get_elem? k.procs j ≡ some q
          → q.state ≡ runnable
          → (p.dynamic_priority < q.dynamic_priority)
            ⊎ ((p.dynamic_priority ≡ q.dynamic_priority) × (i ≤ j)))
      → PbsRound swtch k (
          swtch i (
            at_proc i
              (λ q. record q {
                nrun = add32 q.nrun 1;
                state = running;
                runtime = 0;
                sched1 = k.ticks;
              })
              k))
