-- ===== src/Examples/Lives.antt =====
-- Creation, exit and waiting in kernel/proc.c.
use osn.Base.{
  ℕ, zero, suc, ◌+◌, ◌<◌, ◌≡◌, ◌≢◌, refl, [], ◌∷◌, true, false, some, get_elem?, arith, ap, sym,
}
use mathlib.Core.Option.{some-injective}
use osn.Base.Int.{pos, to_int}
use osn.File.{Outcome, done, panicked}
use osn.Proc.{Proc, Kernel, Trapframe, zeroed, boot, running, unused}
use osn.Proc.Alloc.{allocproc, fork}
use osn.Proc.Alloc.Unique.{PidsUnique, allocproc-PidsUnique}
use osn.Proc.Alloc.Fork.{Forked, fork-Forked}
use osn.Proc.Exit.{exit, wait, Waited}
use osn.Proc.Exit.Zombie.{Exited, exit-Exited}
use osn.Proc.Exit.Waiting.{Waits, wait-Waits}

abbrev frame : Trapframe
frame i = 7

-- init, in slot 0, and its child; then a free slot.
abbrev init : Proc
init = record zeroed { state = running; pid = 1; trapframe = some frame }

abbrev child : Proc
child = record zeroed {
  cwd = some 0;
  state = running;
  pid = 2;
  parent = some 0;
  trapframe = some frame;
}

abbrev family : Kernel
family = record boot { procs = init ∷ child ∷ zeroed ∷ []; nextpid = 3; initproc = some 0 }

-- The kernel after a call that does not panic.
abbrev kernel_of : {A : Type 0} → Outcome (Kernel × A) → Kernel
kernel_of panicked = boot
kernel_of (done r) = r.0

abbrev after_fork : Kernel
after_fork = kernel_of (fork 1 (some frame) true true family)

abbrev after_exit : Kernel
after_exit = kernel_of (exit 1 (pos 5) family)

pids_family : PidsUnique family.procs 3
pids_family = record { below = below; distinct = distinct }
  where
    pid_at :
        (i : ℕ) (p : Proc)
        → get_elem? family.procs i ≡ some p
        → p.state ≢ unused
        → (p.pid ≡ i + 1) × (i < 2)
    pid_at zero p e live = (ap (λ x. x.pid) (sym (some-injective init p e)), omega arith)
    pid_at (suc zero) p e live = (ap (λ x. x.pid) (sym (some-injective child p e)), omega arith)
    pid_at (suc (suc zero)) p e live =
        elim (live (ap (λ x. x.state) (sym (some-injective zeroed p e)))) [ ]
    pid_at (suc (suc (suc i))) p e live = cc

    below : (i : ℕ) (p : Proc) → get_elem? family.procs i ≡ some p → p.state ≢ unused → p.pid < 3
    below i p e live = omega (arith, (pid_at i p e live).0, (pid_at i p e live).1)

    distinct :
        (i j : ℕ) (p q : Proc)
        → get_elem? family.procs i ≡ some p
        → get_elem? family.procs j ≡ some q
        → p.state ≢ unused
        → q.state ≢ unused
        → p.pid ≡ q.pid
        → i ≡ j
    distinct i j p q e f a b same = omega (arith, (pid_at i p e a).0, (pid_at j q f b).0)

allocproc_example : let r = allocproc (some frame) true family in PidsUnique r.0.procs r.0.nextpid
allocproc_example = allocproc-PidsUnique (some frame) true family (omega arith) pids_family

fork_example : (i : ℕ) × (c : Proc) × Forked 1 child family after_fork 3 i c
unfolding fork allocproc to_int
fork_example =
    fork-Forked 1 (some frame) true true family after_fork child 3 (omega arith) refl refl

exit_example : Exited 1 (pos 5) child family after_exit
unfolding exit
exit_example = exit-Exited 1 (pos 5) family after_exit [] child refl refl

wait_example :
    (r : Kernel × Waited) × (wait 0 0 false family ≡ done r) × Waits 0 0 false init family r
wait_example = wait-Waits 0 0 false family init refl
