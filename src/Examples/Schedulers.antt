-- ===== src/Examples/Schedulers.antt =====
-- Rounds of the schedulers of kernel/proc.c and the queues of the multi-level one.
use osn.Base.{ℕ, ◌≡◌, ◌≢◌, refl, ◌⊎◌, List, [], ◌∷◌, Option, none, some, arith, replicate}
use osn.Base.Int.{pos}
use osn.Proc.{Proc, Kernel, zeroed, boot, runnable, sleeping}
use osn.Sched.{fcfs_round}
use osn.Sched.Fcfs.{FcfsRound, fcfs_round_lem}
use osn.Sched.Queue.{ProcQueue, pq_init, dequeue}
use osn.Sched.Queue.Fifo.{Holds, some_items, dequeue-Holds}
use osn.Sched.Mlfq.{System, done, pick_level, ageing_slot}
use osn.Sched.Mlfq.Ageing.{ageing-hangs}
use osn.Sched.Mlfq.Choice.{Ends, state_at, pick_level_lem}

abbrev asleep : Proc
asleep = record zeroed { state = sleeping; pid = 1 }

abbrev ready : Proc
ready = record zeroed { state = runnable; pid = 2; in_q = 1; level = 1; static_priority = 60 }

abbrev table : Kernel
table = record boot { procs = asleep ∷ ready ∷ []; ticks = 40 }

-- Nothing happens while the process runs.
abbrev idle_swtch : ℕ → Kernel → Kernel
idle_swtch i k = k

fcfs_round_example : FcfsRound idle_swtch table (fcfs_round idle_swtch table)
fcfs_round_example = fcfs_round_lem idle_swtch table

-- A queue with the sleeping process before the ready one.
abbrev queue : ProcQueue
queue = record { front = pos 0; rear = pos 1; list = some 0 ∷ some 1 ∷ replicate 126 none }

queue-Holds : Holds queue (some 0 ∷ some 1 ∷ [])
queue-Holds =
    some_items 0 1 1 (some 0 ∷ some 1 ∷ replicate 126 none) (some 0 ∷ some 1 ∷ []) refl
      (omega arith) (omega arith) (omega arith) refl

dequeue_example :
    (◌≡◌ {A = List (Option ℕ)} (some 0 ∷ some 1 ∷ []) [] × (dequeue queue ≡ some (none, queue)))
    ⊎ ((x : Option ℕ) × (rest : List (Option ℕ)) × (q' : ProcQueue) × ((some 0 ∷ some 1 ∷ [])
          ≡ x ∷ rest)
        × (dequeue queue ≡ some (x, q'))
        × Holds q' rest)
dequeue_example = dequeue-Holds queue-Holds

pick_level_example :
    (k' : Kernel) × (q' : ProcQueue) × (r : Option ℕ) × (rest : List (Option ℕ)) × (pick_level 3
        table queue
      ≡ done (k', q', r))
    × Holds q' rest
    × Ends (state_at table) (some 0 ∷ some 1 ∷ []) rest r
pick_level_example =
    pick_level_lem 3 table (state_at table) (some 0 ∷ some 1 ∷ []) (λ i. refl) queue-Holds
      ((sleeping, refl), ((runnable, refl), tt)) (omega arith)

abbrev system : System
system = record { kernel = table; mfq = pq_init ∷ queue ∷ pq_init ∷ pq_init ∷ pq_init ∷ [] }

ageing_example : ageing_slot 1000 1 system ≢ done system
ageing_example =
    ageing-hangs 1000 1 system system ready queue refl refl (omega arith) refl refl refl
