-- ===== src/Syscall/Handlers.antt =====
-- Handlers of kernel/sysproc.c that work on the process table alone, and what `set_priority` does to its arguments.
use osn.Base.{
  ℕ, zero, suc, ◌-◌, ◌%◌, ◌^◌, ◌≡◌, refl, ap, ◌∙◌, List, [], ◌∷◌, none, some, arith, get_elem?,
}
use osn.Base.Int.{to_int, ℤ, pos, negsuc}
use osn.Base.Word.{uint_mod}
use osn.Proc.{Proc, Kernel, Trapframe}
use osn.Proc.Wakeup.{at_proc, kill, setpriority, setpriority_in}
use osn.Proc.Wakeup.Killing.{FirstWith}
use osn.Syscall.{argint, argraw, minus_one_word, frame_at, Handler}

-- An `int` result as the value of a0.
pub word_of : ℤ → ℕ
word_of (pos n) = n
word_of (negsuc n) = 2 ^ 64 - 1 - n

pub sys_getpid : Handler
unfolding word_of to_int
sys_getpid me k = (k, elim (get_elem? k.procs me) [ none ↦ 0 | some p ↦ word_of (to_int p.pid) ])

pub sys_uptime : Handler
sys_uptime me k = (k, k.ticks)

-- The arguments of a handler; a process always has a trapframe here.
pub with_frame : (Trapframe → Handler) → Handler
unfolding frame_at
with_frame body me k = elim (frame_at me k) [ none ↦ (k, minus_one_word) | some tf ↦ body tf me k ]

-- A pid is the bit pattern of an `int`.
pub kill_int : ℤ → Kernel → Kernel × ℕ
unfolding word_of
kill_int (pos pid) k = let (k', r) = kill pid k in (k', word_of r)
kill_int (negsuc n) k = let (k', r) = kill (2 ^ 32 - 1 - n) k in (k', word_of r)

pub sys_kill : Handler
unfolding with_frame kill_int argint
sys_kill = with_frame (λ tf me. kill_int (argint 0 tf))

pub sys_trace : Handler
unfolding with_frame argraw
sys_trace =
    with_frame (λ tf me k. (at_proc me (λ p. record p { trace_mask = argraw 0 tf % 2 ^ 32 }) k, 0))

pub set_priority_int : ℤ → ℕ → Kernel → Kernel × ℕ
unfolding word_of to_int
set_priority_int (pos pid) priority k =
    let (k', r) = setpriority pid priority k in (k', word_of (to_int r))
set_priority_int (negsuc n) priority k =
    let (k', r) = setpriority (2 ^ 32 - 1 - n) priority k in (k', word_of (to_int r))

-- `_setpriority(new_priority, procid)`
pub sys_set_priority : Handler
unfolding with_frame set_priority_int argint argraw
sys_set_priority = with_frame (λ tf me. set_priority_int (argint 0 tf) (argraw 1 tf))

setpriority_in-first :
    (pid priority : ℕ) (ps : List Proc) (j : ℕ) (p : Proc)
    → FirstWith pid ps j p
    → get_elem? (setpriority_in pid priority ps).0 j
      ≡ some (record p { static_priority = priority % uint_mod; niceness = 5 })
unfolding setpriority_in
setpriority_in-first pid priority [] j p h = cc
setpriority_in-first pid priority (x ∷ ps) zero p h = ground (arith, h.0, h.1)
setpriority_in-first pid priority (x ∷ ps) (suc j) p h = ground (
  arith,
  h.2 0 x (omega arith) refl,
  setpriority_in-first pid priority ps j p (h.0, h.1, λ i q lt e. h.2 (suc i) q (omega arith) e),
)

sys_set_priority_step :
    (me : ℕ) (k : Kernel) (tf : Trapframe)
    → frame_at me k ≡ some tf
    → sys_set_priority me k ≡ set_priority_int (argint 0 tf) (argraw 1 tf) k
unfolding sys_set_priority with_frame
sys_set_priority_step me k tf e =
    ap
      (λ o. elim o [
        | none ↦ (k, minus_one_word)
        | some t ↦ set_priority_int (argint 0 t) (argraw 1 t) k
      ])
      e

-- The call `set_priority(priority, pid)` has its arguments swapped on the way: it gives the first process whose
-- id is the number `priority` the static priority `pid`, the second argument.
pub sys_set_priority_swapped :
    (me j priority : ℕ) (k : Kernel) (tf : Trapframe) (p : Proc)
    → frame_at me k ≡ some tf
    → argint 0 tf ≡ pos priority
    → FirstWith priority k.procs j p
    → get_elem? (sys_set_priority me k).0.procs j
      ≡ some (record p { static_priority = argraw 1 tf % uint_mod; niceness = 5 })
unfolding set_priority_int setpriority
sys_set_priority_swapped me j priority k tf p e a h =
    ap (λ r. get_elem? r.0.procs j)
      (sys_set_priority_step me k tf e ∙ ap (λ z. set_priority_int z (argraw 1 tf) k) a)
    ∙ setpriority_in-first priority (argraw 1 tf) k.procs j p h
