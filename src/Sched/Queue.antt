-- ===== src/Sched/Queue.antt =====
-- The circular queues of the multi-level scheduler, `ProcQueue` of kernel/proc.c. `none` is an access
-- outside the array or through a null pointer.
pub mod Fifo
pub mod Hang
use osn.Base.{
  ℕ, zero, suc, ◌+◌, ◌-◌, ◌%◌, ◌<◌, ◌≡◌, List, [], ◌∷◌, Option, none, some, Bool, true, false, ◌==◌,
  ltb, if◌then◌else◌, get_elem?, set, replicate, length,
}
use osn.Base.Int.{ℤ, pos, negsuc, minus_one, sub_ℕ, ltb_ℤ}
use osn.Proc.{nproc}

-- `struct _ProcQueue`; an entry is a slot of the process table, or null.
pub record ProcQueue : Type 0 where
  pub front : ℤ
  pub rear : ℤ
  pub list : List (Option ℕ)

-- A queue as `pq_init` leaves it.
pub pq_init : ProcQueue
pq_init = record { front = pos 0; rear = pos 0; list = replicate 128 none }

-- `(i+1)%NPROC` of an `int`; the remainder of a negative number is not positive.
pub next_index : ℤ → ℤ
next_index (pos n) = pos ((n + 1) % nproc)
next_index (negsuc n) = sub_ℕ 0 (n % nproc)

pub read : List (Option ℕ) → ℤ → Option (Option ℕ)
read xs (pos i) = get_elem? xs i
read xs (negsuc i) = none

pub write : List (Option ℕ) → ℤ → Option ℕ → Option (List (Option ℕ))
write xs (pos i) v = if ltb i (length xs) then some (set xs i v) else none
write xs (negsuc i) v = none

pub is_minus_one : ℤ → Bool
is_minus_one (pos n) = false
is_minus_one (negsuc n) = n == 0

pub same_index : ℤ → ℤ → Bool
same_index (pos a) (pos b) = a == b
same_index (pos a) (negsuc b) = false
same_index (negsuc a) (pos b) = false
same_index (negsuc a) (negsuc b) = a == b

-- `ProcQueueEnqueue` of the process at slot `p`.
pub enqueue : ProcQueue → ℕ → Option ProcQueue
unfolding next_index write is_minus_one
enqueue q p = elim (write q.list (next_index q.rear) (some p)) [
  | none ↦ none
  | some list ↦ some (record {
    front = if is_minus_one q.front then pos 0 else q.front;
    rear = next_index q.rear;
    list = list;
  })
]

-- `ProcQueueDequeue` once the entry at the front is read.
pub take_front : ProcQueue → Option ℕ → Option (Option ℕ × ProcQueue)
unfolding write same_index next_index
take_front q ret =
    if same_index q.front q.rear
    then elim (write q.list q.front none) [
      | none ↦ none
      | some list ↦ some (ret, record { front = minus_one; rear = minus_one; list = list })
    ]
    else some (ret, record q { front = next_index q.front })

-- `ProcQueueDequeue`: the entry, or null.
pub dequeue : ProcQueue → Option (Option ℕ × ProcQueue)
unfolding take_front read is_minus_one
dequeue q =
    if is_minus_one q.front
    then some (none, q)
    else elim (read q.list q.front) [ none ↦ none | some ret ↦ take_front q ret ]

-- The end of a call of `ProcQueueRemove`, or that it has not ended yet.
pub data Removal : Type 0 where
  finished : ProcQueue → Removal
  faulted : Removal
  in_loop : Removal

-- `int` one more or one less.
pub add_one : ℤ → ℤ
add_one (pos n) = pos (n + 1)
add_one (negsuc zero) = pos 0
add_one (negsuc (suc n)) = negsuc n

pub sub_one : ℤ → ℤ
sub_one (pos zero) = negsuc 0
sub_one (pos (suc n)) = pos n
sub_one (negsuc n) = negsuc (n + 1)

-- Exchanges the entries at `i` and after it.
pub exchange : List (Option ℕ) → ℤ → Option ℕ → Option (List (Option ℕ))
unfolding read write add_one
exchange xs i here = elim (read xs (add_one i)) [
  | none ↦ none
  | some next ↦ elim (write xs i next) [ none ↦ none | some ys ↦ write ys (add_one i) here ]
]

-- After the loop: `q->list[q->rear] = 0; q->rear--`.
pub drop_last : ProcQueue → Removal
unfolding write sub_one
drop_last q = elim (write q.list q.rear none) [
  | none ↦ faulted
  | some list ↦ finished (record q { rear = sub_one q.rear; list = list })
]

-- The loop `while(i<q->rear)` of `ProcQueueRemove` on fuel, `i` from the front; the body does not change
-- `i`. `pid_of` is the pid of the process at a slot.
pub remove_from : ℕ → (ℕ → ℕ) → ℕ → ℤ → ProcQueue → Removal
unfolding read exchange drop_last
remove_from zero pid_of pid i q = in_loop
remove_from (suc fuel) pid_of pid i q = elim (ltb_ℤ i q.rear) [
  | false ↦ drop_last q
  | true ↦ elim (read q.list i) [
    | none ↦ faulted
    | some none ↦ faulted
    | some (some p) ↦ elim (pid_of p == pid) [
      | false ↦ remove_from fuel pid_of pid i q
      | true ↦ elim (exchange q.list i (some p)) [
        | none ↦ faulted
        | some list ↦ remove_from fuel pid_of pid i (record q { list = list })
      ]
    ]
  ]
]

pub remove : ℕ → (ℕ → ℕ) → ℕ → ProcQueue → Removal
unfolding remove_from
remove fuel pid_of pid q = remove_from fuel pid_of pid q.front q
