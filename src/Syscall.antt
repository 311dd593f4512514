-- ===== src/Syscall.antt =====
-- kernel/syscall.c and the handlers of kernel/sysproc.c that work on the process table alone. The numbers
-- that stand in memory around the array of counts are an argument, since `syscall` reads them for some numbers.
pub mod Handlers
use osn.Base.{
  ℕ, zero, suc, ◌+◌, ◌-◌, ◌*◌, ◌/◌, ◌%◌, ◌^◌, ◌≡◌, List, [], ◌∷◌, Option, none, some, Bool, true,
  false, not, ◌==◌, ltb, ◌&&◌, if◌then◌else◌, get_elem?, update,
}
use mathlib.Core.Option
use osn.Base.Int.{ℤ, pos, negsuc, minus_one, pos_part, to_int}
use osn.Proc.{Proc, Kernel, Trapframe, off_a0, off_a7}
use osn.Proc.Wakeup.{at_proc, kill, setpriority}

-- `syscall_argcnt`, whose 23 entries end at `set_priority`.
abbrev pub argcnts : List ℕ
argcnts =
    0 ∷ 1 ∷ 1 ∷ 1 ∷ 3 ∷ 1 ∷ 2 ∷ 2 ∷ 1 ∷ 1 ∷ 0 ∷ 1 ∷ 1 ∷ 0 ∷ 2 ∷ 3 ∷ 3 ∷ 1 ∷ 2 ∷ 1 ∷ 1 ∷ 1 ∷ 2 ∷ []

-- `syscall_argcnt[num - 1]`; outside the array it is what `beyond` says of the number.
pub argcnt_of : (ℤ → ℤ) → ℤ → ℤ
argcnt_of beyond (pos zero) = beyond (pos zero)
argcnt_of beyond (pos (suc i)) = elim (get_elem? argcnts i) [
  | none ↦ beyond (pos (suc i))
  | some cnt ↦ pos cnt
]
argcnt_of beyond (negsuc n) = beyond (negsuc n)

-- `argraw(n)` for the six arguments that there are.
unfoldable pub argraw : ℕ → Trapframe → ℕ
argraw n tf = tf (off_a0 + 8 * n)

unfoldable pub argint : ℕ → Trapframe → ℤ
unfolding argraw to_int
argint n tf = to_int (argraw n tf)

-- A handler runs for the process in a slot and gives the value for a0.
abbrev pub Handler : Type 0
Handler = ℕ → Kernel → Kernel × ℕ

-- `num > 0 && num < NELEM(syscalls) && syscalls[num]`
pub handler_of : (ℕ → Option Handler) → ℤ → Option Handler
handler_of syscalls (pos n) = if ltb 0 n && ltb n 25 then syscalls n else none
handler_of syscalls (negsuc n) = none

-- What is printed: the number and arguments of a traced call with its result, or the complaint about a number.
pub data Printed : Type 0 where
  nothing : Printed
  traced : ℕ → List ℤ → ℤ → Printed
  unknown : ℕ → ℤ → Printed

-- How `syscall` ends: it returns, or it panics, in `argraw` or at a null pointer.
pub data Served : Type 0 where
  served : Kernel → Printed → Served
  panics : Served

unfoldable pub frame_at : ℕ → Kernel → Option Trapframe
frame_at me k = elim (get_elem? k.procs me) [ none ↦ none | some p ↦ p.trapframe ]

pub set_a0 : ℕ → ℕ → Kernel → Kernel
set_a0 me r k =
    at_proc me (λ p. record p { trapframe = Option.map (λ tf. update tf off_a0 r) p.trapframe }) k

-- `mask & (1 << num)`
pub mask_bit : ℕ → ℕ → Bool
mask_bit mask num = mask / 2 ^ num % 2 == 1

-- The arguments from `i` on, `n` of them.
pub rest_args : Trapframe → ℕ → ℕ → List ℤ
unfolding argint
rest_args tf i zero = []
rest_args tf i (suc n) = argint i tf ∷ rest_args tf (i + 1) n

-- The printed arguments: the first as it was before the call, since a0 has the result now.
pub printed_args : ℕ → ℤ → Trapframe → List ℤ
unfolding rest_args
printed_args zero a tf = []
printed_args (suc n) a tf = a ∷ rest_args tf 1 n

-- The end of a call of a handler, with the trace. It prints the name of the call, which its number stands for here, and
-- fetches `cnt` arguments.
pub finish : ℕ → ℕ → ℕ → ℤ → Kernel → ℕ → Served
unfolding set_a0 mask_bit printed_args to_int
finish me num cnt a k r = elim (get_elem? (set_a0 me r k).procs me) [
  | none ↦ panics
  | some p ↦ elim p.trapframe [
    | none ↦ panics
    | some tf ↦
        if not (mask_bit p.trace_mask num)
        then served (set_a0 me r k) nothing
        else if ltb 6 cnt
        then panics
        else served (set_a0 me r k) (traced num (printed_args cnt a tf) (to_int r))
  ]
]

-- The value of a0 that stands for -1.
abbrev pub minus_one_word : ℕ
minus_one_word = 2 ^ 64 - 1

-- `syscall` once the number and the count of arguments are read.
pub dispatch : (ℕ → Option Handler) → ℕ → Trapframe → ℤ → ℤ → Kernel → Served
unfolding handler_of finish set_a0
dispatch syscalls me tf num cnt k = elim (handler_of syscalls num) [
  | none ↦
      served (set_a0 me minus_one_word k)
        (unknown (elim (get_elem? k.procs me) [ none ↦ 0 | some p ↦ p.pid ]) num)
  | some h ↦
      let (k', r) = h me k in finish me (pos_part num) (pos_part cnt) (to_int (tf off_a0)) k' r
]

pub syscall : (ℤ → ℤ) → (ℕ → Option Handler) → ℕ → Kernel → Served
unfolding dispatch frame_at argcnt_of to_int
syscall beyond syscalls me k = elim (frame_at me k) [
  | none ↦ panics
  | some tf ↦ let num = to_int (tf off_a7) in dispatch syscalls me tf num (argcnt_of beyond num) k
]
