-- ===== src/Proc/Alloc.antt =====
-- `allocpid`, `allocproc`, `freeproc` and `fork` of kernel/proc.c. `p->lock` is held from the search on,
-- so each is one step. What kalloc.c and vm.c give it is an argument: the page of the trapframe, or
-- null, and whether `proc_pagetable` and `uvmcopy` succeed.
pub mod Unique
pub mod Fork
use osn.Base.{
  ℕ, zero, suc, ◌+◌, ◌-◌, ◌%◌, ◌^◌, ◌≡◌, List, [], ◌∷◌, Option, none, some, Bool, true, false, ◌==◌,
  ltb, if◌then◌else◌, get_elem?, set, replicate, update,
}
use osn.Base.Int.{ℤ, pos, minus_one, to_int}
use osn.Base.Word.{add32}
use osn.File.{File, Outcome, done, panicked, ◌>>=◌, filedup}
use osn.Proc.{Proc, Kernel, Trapframe, unused, used, runnable, state_eq, null_chan, off_a0, nofile}

-- `nextpid` is the bit pattern of an `int`, and the addition is the machine's, which wraps.
pub allocpid : Kernel → Kernel × ℕ
allocpid k = (record k { nextpid = add32 k.nextpid 1 }, k.nextpid)

-- The first slot from index `i` on that is not in use, with what it holds.
unfoldable pub find_unused : ℕ → List Proc → Option (ℕ × Proc)
find_unused i [] = none
find_unused i (p ∷ ps) = if state_eq p.state unused then some (i, p) else find_unused (suc i) ps

-- What `allocproc` stores in the slot before it allocates memory.
unfoldable pub fresh : ℕ → ℕ → Proc → Proc
fresh pid ticks p = record p {
  pid = pid;
  state = used;
  birthtime = ticks;
  in_q = 0;
  q_enter = ticks;
  level = 0;
  timein_q = 2 ^ 0;
  rtime = 0;
  etime = 0;
  timeineachq = replicate 5 0;
  nrun = 0;
  static_priority = 60;
  niceness = 5;
}

pub freeproc : Proc → Proc
freeproc p = record p {
  trapframe = none;
  pagetable = false;
  sz = 0;
  pid = 0;
  parent = none;
  name = [];
  chan = null_chan;
  killed = 0;
  xstate = pos 0;
  state = unused;
}

-- The slot with its trapframe and page table, or the reason to free it again.
with_memory : Option Trapframe → Bool → Proc → Option Proc
with_memory none pagetable p = none
with_memory (some tf) false p = none
with_memory (some tf) true p = some (record p { trapframe = some tf; pagetable = true })

unfoldable pub allocproc : Option Trapframe → Bool → Kernel → Kernel × Option ℕ
unfolding allocpid find_unused fresh freeproc with_memory
allocproc page pagetable k = elim (find_unused 0 k.procs) [
  | none ↦ (k, none)
  | some (i, p) ↦
      let (k', pid) = allocpid k in
      let p' = fresh pid k.ticks p in
      elim (with_memory page pagetable p') [
        | none ↦ (record k' { procs = set k.procs i (freeproc p') }, none)
        | some p'' ↦ (record k' { procs = set k.procs i p'' }, some i)
      ]
]

-- `for(i = 0; i < NOFILE; i++) if(p->ofile[i]) np->ofile[i] = filedup(p->ofile[i])`, as it
-- counts the references.
dup_files : List (Option ℕ) → List File → Outcome (List File)
dup_files [] fs = done fs
dup_files (none ∷ rest) fs = dup_files rest fs
dup_files (some f ∷ rest) fs = do fs' ← filedup f fs; dup_files rest fs'

-- `idup(p->cwd)` on the counts, which are bit patterns of an `int`. A null pointer is a page fault of the kernel, which
-- panics.
dup_cwd : Option ℕ → (ℕ → ℕ) → Outcome (ℕ → ℕ)
dup_cwd none icount = panicked
dup_cwd (some ip) icount = done (update icount ip (add32 (icount ip) 1))

-- `*(np->trapframe) = *(p->trapframe); np->trapframe->a0 = 0`
pub child_frame : Option Trapframe → Option Trapframe
child_frame none = none
child_frame (some tf) = some (update tf off_a0 0)

-- The child's descriptors: a null one of the parent is passed over.
copy_files : List (Option ℕ) → List (Option ℕ) → List (Option ℕ)
copy_files [] old = old
copy_files (f ∷ rest) [] = []
copy_files (none ∷ rest) (o ∷ old) = o ∷ copy_files rest old
copy_files (some f ∷ rest) (o ∷ old) = some f ∷ copy_files rest old

-- The child's entry when `fork` returns.
child_of : ℕ → Proc → Proc → Proc
unfolding child_frame copy_files
child_of me p np = record np {
  sz = p.sz;
  trace_mask = p.trace_mask;
  trapframe = child_frame p.trapframe;
  ofile = copy_files p.ofile np.ofile;
  cwd = p.cwd;
  name = p.name;
  parent = some me;
  state = runnable;
}

-- The rest of `fork` once the child `np` stands at slot `i`.
fork_into : ℕ → Bool → Proc → ℕ → Proc → Kernel → Outcome (Kernel × ℤ)
unfolding freeproc dup_files dup_cwd child_of to_int
fork_into me false p i np k = done (record k { procs = set k.procs i (freeproc np) }, minus_one)
fork_into me true p i np k = do
  fs ← dup_files p.ofile k.ftable
  counts ← dup_cwd p.cwd k.icount
  done (
    record k { procs = set k.procs i (child_of me p np); ftable = fs; icount = counts },
    to_int np.pid,
  )

-- `fork` once `allocproc` has returned a slot or null.
fork_with : ℕ → Bool → Proc → Kernel × Option ℕ → Outcome (Kernel × ℤ)
unfolding fork_into
fork_with me copied p (k, none) = done (k, minus_one)
fork_with me copied p (k, some i) = elim (get_elem? k.procs i) [
  | none ↦ panicked
  | some np ↦ fork_into me copied p i np k
]

-- `fork` by the process at slot `me`. An index that is no slot is a wild pointer.
unfoldable pub fork : ℕ → Option Trapframe → Bool → Bool → Kernel → Outcome (Kernel × ℤ)
unfolding fork_with
fork me page pagetable copied k = elim (get_elem? k.procs me) [
  | none ↦ panicked
  | some p ↦ fork_with me copied p (allocproc page pagetable k)
]
