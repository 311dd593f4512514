-- ===== src/Sched/Mlfq/Choice.antt =====
-- What the multi-level scheduler of kernel/proc.c takes out of one queue.
use osn.Base.{
  ℕ, zero, suc, ◌==◌, ◌<◌, ◌≡◌, ◌≢◌, refl, List, [], ◌∷◌, ◌++◌, map, Option, none, some, true,
  false, if◌then◌else◌, get_elem?, length, arith, Bool-cases, inl, inr, ap, sym, ◌∙◌,
  get_elem?-each_zero, Option-cases, subst,
}
use mathlib.Core.Option
use mathlib.Core.Option.{some-injective}
use osn.Sched.Pick.{runnable_of, not_runnable_of}
use osn.Proc.{Proc, Kernel, ProcState, runnable, state_eq}
use osn.Proc.Wakeup.{at_proc}
use osn.Sched.Queue.{ProcQueue, dequeue}
use osn.Sched.Queue.Fifo.{Holds, dequeue-Holds}
use osn.Sched.Mlfq.{done, pick_level}

-- The state of the process at a slot.
abbrev pub state_at : Kernel → ℕ → Option ProcState
state_at k i = Option.map (λ p. p.state) (get_elem? k.procs i)

-- Every process in the entries has a state.
abbrev pub InTable : (ℕ → Option ProcState) → List (Option ℕ) → Type 0
InTable st [] = Unit {0}
InTable st (none ∷ xs) = InTable st xs
InTable st (some i ∷ xs) = ((s : ProcState) × (st i ≡ some s)) × InTable st xs

-- Every entry is a process that is not runnable.
abbrev pub AllIdle : (ℕ → Option ProcState) → List ℕ → Type 0
AllIdle st [] = Unit {0}
AllIdle st (i ∷ is) = (st i ≢ some runnable) × AllIdle st is

-- How the search of a queue that held `items` ends, with `rest` left: it has passed over processes that are
-- not runnable, and stops at the first that is, at a null entry, or when the queue is empty.
pub data Ends (st : ℕ → Option ProcState)
    : List (Option ℕ) → List (Option ℕ) → Option ℕ → Type 0 where
  picked :
      (passed : List ℕ) (i : ℕ) (items rest : List (Option ℕ))
      → items ≡ map some passed ++ (some i ∷ rest)
      → AllIdle st passed
      → st i ≡ some runnable
      → Ends st items rest (some i)
  at_null :
      (passed : List ℕ) (items rest : List (Option ℕ))
      → items ≡ map some passed ++ (none ∷ rest)
      → AllIdle st passed
      → Ends st items rest none
  ran_out :
      (passed : List ℕ) (items : List (Option ℕ))
      → items ≡ map some passed
      → AllIdle st passed
      → Ends st items [] none

-- One more process passed over.
Ends-cons :
    (st : ℕ → Option ProcState) (i : ℕ) {items rest : List (Option ℕ)} {r : Option ℕ}
    → st i ≢ some runnable
    → Ends st items rest r
    → Ends st (some i ∷ items) rest r
Ends-cons st i idle (picked passed j items rest e h run) =
    picked (i ∷ passed) j (some i ∷ items) rest (ap (λ x. some i ∷ x) e) (idle, h) run
Ends-cons st i idle (at_null passed items rest e h) =
    at_null (i ∷ passed) (some i ∷ items) rest (ap (λ x. some i ∷ x) e) (idle, h)
Ends-cons st i idle (ran_out passed items e h) =
    ran_out (i ∷ passed) (some i ∷ items) (ap (λ x. some i ∷ x) e) (idle, h)

-- Clearing `inQ` of one process changes no state.
state_at-at_proc :
    (k : Kernel) (i j : ℕ) → state_at (at_proc i (λ x. record x { in_q = 0 }) k) j ≡ state_at k j
unfolding at_proc
state_at-at_proc k i j =
    rw (get_elem?-each_zero j (λ n p. if n == i then record p { in_q = 0 } else p) k.procs)
      (ground arith)

-- The step on a runnable process.
pick_level-runnable :
    (n i : ℕ) (k : Kernel) (q q' : ProcQueue) (p : Proc)
    → dequeue q ≡ some (some i, q')
    → get_elem? k.procs i ≡ some p
    → state_eq p.state runnable ≡ true
    → (k' : Kernel) × (pick_level (suc n) k q ≡ done (k', q', some i))
unfolding pick_level
pick_level-runnable n i k q q' p e at b = (
  at_proc i (λ x. record x { q_enter = k.ticks }) (at_proc i (λ x. record x { in_q = 0 }) k),
  ground arith,
)

-- The step on another process.
pick_level-idle :
    (n i : ℕ) (k : Kernel) (q q' : ProcQueue) (p : Proc)
    → dequeue q ≡ some (some i, q')
    → get_elem? k.procs i ≡ some p
    → state_eq p.state runnable ≡ false
    → pick_level (suc n) k q ≡ pick_level n (at_proc i (λ x. record x { in_q = 0 }) k) q'
unfolding pick_level
pick_level-idle n i k q q' p e at b = ground arith

-- The process at a slot that has a state.
found_at :
    (k : Kernel) (i : ℕ) (s : ProcState)
    → state_at k i ≡ some s
    → (p : Proc) × (get_elem? k.procs i ≡ some p) × (p.state ≡ s)
found_at k i s e = elim (Option-cases (get_elem? k.procs i)) [
  | inl at ↦ let absurd : none ≡ some s = sym (ap (Option.map (λ p. p.state)) at) ∙ e in cc
  | inr (p, at) ↦ (p, at, some-injective p.state s (sym (ap (Option.map (λ p. p.state)) at) ∙ e))
]

-- With fuel for each entry and one more, the search of a queue whose entries are processes of the table, or
-- null, ends without a fault, and as `Ends` says; the queue then holds the rest.
pub pick_level_lem :
    (fuel : ℕ) (k : Kernel) (st : ℕ → Option ProcState) (items : List (Option ℕ)) {q : ProcQueue}
    → ((i : ℕ) → state_at k i ≡ st i)
    → Holds q items
    → InTable st items
    → length items < fuel
    → (k' : Kernel) × (q' : ProcQueue) × (r : Option ℕ) × (rest : List (Option ℕ)) × (pick_level
          fuel k q
        ≡ done (k', q', r))
      × Holds q' rest
      × Ends st items rest r
unfolding pick_level
pick_level_lem zero k st items same h table room = elim room [ ]
pick_level_lem (suc n) k st items {q} same h table room = elim (dequeue-Holds h) [
  | inl (e, d) ↦ (k, q, none, [], rw d refl, subst (Holds q) e h, ran_out [] items e tt)
  | inr (none, rest, q', e, d, h') ↦ (k, q', none, rest, rw d refl, h', at_null [] items rest e tt)
  | inr (some i, rest, q', e, d, h') ↦
      let (s, st_i) = (subst (InTable st) e table).0 in
      let (p, at, p_s) = found_at k i s (same i ∙ st_i) in
      let st_p : st i ≡ some p.state = st_i ∙ ap some (sym p_s) in
      let room' : length rest < n = omega (arith, ap length e) in
      elim (Bool-cases (state_eq p.state runnable)) [
        | inl b ↦
            let (k', run) = pick_level-runnable n i k q q' p d at b in
            (
              k',
              q',
              some i,
              rest,
              run,
              h',
              picked [] i items rest e tt (st_p ∙ ap some (runnable_of p.state b)),
            )
        | inr b ↦
            let (k', q'', r, rest', run, h'', ends) =
              pick_level_lem n (at_proc i (λ x. record x { in_q = 0 }) k) st rest
                (λ j. state_at-at_proc k i j ∙ same j) h' (subst (InTable st) e table).1 room' in
            (
              k',
              q'',
              r,
              rest',
              pick_level-idle n i k q q' p d at b ∙ run,
              h'',
              subst (λ l. Ends st l rest' r) (sym e)
                  (Ends-cons st i
                    (λ h.
                      not_runnable_of p.state b (some-injective p.state runnable (sym st_p ∙ h)))
                    ends),
            )
      ]
]
