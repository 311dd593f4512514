-- ===== src/Proc/Alloc/Fork.antt =====
-- What `fork` of kernel/proc.c leaves in the table, and what it returns.
use osn.Base.{
  ℕ, ◌-◌, ◌^◌, none, update, update_self, update_ne, ◌<◌, ◌≡◌, ◌≢◌, refl, ap, ◌∙◌, sym, Option,
  some, Bool, true, false, get_elem?, set, arith, get_elem?-set_self, get_elem?-set_ne,
  lt-length_of_get, length, length-set,
}
use mathlib.Core.Option.{some-injective}
use mathlib.Core.Path.{subst}
use osn.Base.Int.{pos, to_int}
use osn.Base.Word.{add32}
use osn.File.{done}
use osn.Proc.{Proc, Kernel, Trapframe, unused, runnable, off_a0}
use osn.Proc.Alloc.{allocproc, fresh, fork, fork_with, fork_into, child_of, child_frame}
use osn.Proc.Alloc.Unique.{Allocated, full, no_memory, found, allocproc-Allocated}

-- The table after a successful `fork` by slot `me`, whose entry is `p`: the child's entry `c` stands at
-- slot `i`, which was free, and no other slot has changed.
pub record Forked (me : ℕ) (p : Proc) (k k' : Kernel) (n i : ℕ) (c : Proc) : Type 0 where
  pub child : get_elem? k'.procs i ≡ some c
  pub was_free : (q : Proc) → get_elem? k.procs i ≡ some q → q.state ≡ unused
  pub pid : (c.pid ≡ n) × (n ≡ k.nextpid)
  pub runs : c.state ≡ runnable
  pub parent : c.parent ≡ some me
  pub copied : (c.sz ≡ p.sz) × (c.trace_mask ≡ p.trace_mask) × (c.cwd ≡ p.cwd)
  pub frame :
      (tf : Trapframe)
      → p.trapframe ≡ some tf
      → (g : Trapframe) × (c.trapframe ≡ some g)
        × (g off_a0 ≡ 0)
        × ((r : ℕ) → off_a0 ≢ r → g r ≡ tf r)
  pub others : (j : ℕ) → i ≢ j → get_elem? k'.procs j ≡ get_elem? k.procs j

-- `fork_into` stores the child, if its memory was copied and its files could be duplicated.
fork_into-done :
    (me : ℕ) (copied : Bool) (p : Proc) (i : ℕ) (np : Proc) (k k' : Kernel) (n : ℕ)
    → fork_into me copied p i np k ≡ done (k', pos n)
    → (k'.procs ≡ set k.procs i (child_of me p np)) × (to_int np.pid ≡ pos n)
unfolding fork_into
fork_into-done me false p i np k k' n e = absurd (ground arith)
fork_into-done me true p i np k k' n e = ground arith

fork_with-some :
    (me : ℕ) (copied : Bool) (p : Proc) (k : Kernel) (i : ℕ) (np : Proc)
    → get_elem? k.procs i ≡ some np
    → fork_with me copied p (k, some i) ≡ fork_into me copied p i np k
unfolding fork_with
fork_with-some me copied p k i np e = ground arith

to_int-small : (x n : ℕ) → x < 2 ^ 31 → to_int x ≡ pos n → x ≡ n
unfolding to_int
to_int-small x n lt e = ground arith

child_frame_lem :
    (page : Option Trapframe) (tf : Trapframe)
    → page ≡ some tf
    → (g : Trapframe) × (child_frame page ≡ some g)
      × (g off_a0 ≡ 0)
      × ((r : ℕ) → off_a0 ≢ r → g r ≡ tf r)
unfolding child_frame
child_frame_lem none tf e = cc
child_frame_lem (some x) tf e = (
  update x off_a0 0,
  refl,
  update_self x off_a0 0,
  λ r ne. update_ne x off_a0 r 0 ne ∙ ap (λ f. f r) (some-injective x tf e),
)

child_made :
    (me : ℕ) (page : Option Trapframe) (p : Proc) (k k' : Kernel) (n i : ℕ) (q np : Proc)
    → get_elem? k.procs i ≡ some q
    → q.state ≡ unused
    → np ≡ record (fresh k.nextpid k.ticks q) { trapframe = page; pagetable = true }
    → k'.procs ≡ set (set k.procs i np) i (child_of me p np)
    → k.nextpid < 2 ^ 31 - 1
    → to_int np.pid ≡ pos n
    → Forked me p k k' n i (child_of me p np)
unfolding child_of fresh
child_made me page p k k' n i q np here free made procs lt pid = record {
  child = rw procs (get_elem?-set_self (set k.procs i np) i _ (rw length-set room));
  was_free =
      λ q' e. subst (λ (x : Proc). x.state ≡ unused) (some-injective q q' (sym here ∙ e)) free;
  pid = (same, sym same ∙ taken);
  runs = refl;
  parent = refl;
  copied = (refl, refl, refl);
  frame = λ tf e. child_frame_lem p.trapframe tf e;
  others = λ j ne.
      rw (procs, get_elem?-set_ne (set k.procs i np) (child_of me p np) ne)
        (get_elem?-set_ne k.procs np ne);
}
  where
    taken : np.pid ≡ k.nextpid
    taken = ap (λ (x : Proc). x.pid) made

    same : np.pid ≡ n
    same = to_int-small np.pid n (omega (arith, taken)) pid

    room : i < length k.procs
    room = lt-length_of_get k.procs i here

fork_with-Forked :
    (me : ℕ) (page : Option Trapframe) (pagetable copied : Bool) (p : Proc) (k : Kernel)
    {r : Kernel × Option ℕ} (k' : Kernel) (n : ℕ)
    → k.nextpid < 2 ^ 31 - 1
    → Allocated page pagetable k r
    → fork_with me copied p r ≡ done (k', pos n)
    → (i : ℕ) × (c : Proc) × Forked me p k k' n i c
unfolding fork_with
fork_with-Forked me page pagetable copied p k k' n lt (full none_free) e = absurd (ground arith)
fork_with-Forked me page pagetable copied p k k' n lt (no_memory i q q' here free short freed) e =
    absurd (ground arith)
fork_with-Forked me page pagetable copied p k k' n lt (found i q np here free made) e =
    let room = lt-length_of_get k.procs i here in
    let stored = get_elem?-set_self k.procs i np room in
    let at =
      fork_with-some me copied p
        (record k { nextpid = add32 k.nextpid 1; procs = set k.procs i np }) i np stored in
    let (procs, pid) = fork_into-done me copied p i np _ k' n (sym at ∙ e) in
    (i, child_of me p np, child_made me page p k k' n i q np here free made procs lt pid)

fork-some :
    (me : ℕ) (page : Option Trapframe) (pagetable copied : Bool) (k : Kernel) (p : Proc)
    → get_elem? k.procs me ≡ some p
    → fork me page pagetable copied k ≡ fork_with me copied p (allocproc page pagetable k)
unfolding fork
fork-some me page pagetable copied k p e = ground arith

-- A `fork` that returns a pid, and not -1, while `nextpid` is below the largest `int`, has put a runnable child of the caller into a free slot, under
-- the next unused pid, which it returns: with the caller's size, trace mask, directory and registers,
-- but for a0, which is 0. No other slot of the table changes.
pub fork-Forked :
    (me : ℕ) (page : Option Trapframe) (pagetable copied : Bool) (k k' : Kernel) (p : Proc) (n : ℕ)
    → k.nextpid < 2 ^ 31 - 1
    → get_elem? k.procs me ≡ some p
    → fork me page pagetable copied k ≡ done (k', pos n)
    → (i : ℕ) × (c : Proc) × Forked me p k k' n i c
fork-Forked me page pagetable copied k k' p n lt here e =
    fork_with-Forked me page pagetable copied p k k' n lt (allocproc-Allocated page pagetable k)
      (sym (fork-some me page pagetable copied k p here) ∙ e)
