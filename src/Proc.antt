-- ===== src/Proc.antt =====
-- kernel/proc.h: the process table entries and the kernel state that kernel/proc.c works on. The
-- functions of proc.c stand in the modules below this one and in Sched.
pub mod Alloc
pub mod Wakeup
pub mod Exit
pub mod Clock
use osn.Base.{
  ℕ, zero, suc, ◌+◌, ◌-◌, ◌≡◌, List, [], ◌∷◌, Option, none, some, Bool, true, false, ◌==◌,
  replicate, update, ◌&&◌,
}
use osn.Base.Int.{ℤ, pos}
use osn.File.{File, fd_none}

pub data ProcState : Type 0 where
  unused used sleeping runnable running zombie : ProcState

abbrev pub state_eq : ProcState → ProcState → Bool
state_eq unused unused = true
state_eq used used = true
state_eq sleeping sleeping = true
state_eq runnable runnable = true
state_eq running running = true
state_eq zombie zombie = true
state_eq _ _ = false

-- What a process sleeps on, the `void *chan`: null, a `struct proc`, `&ticks`, or another address.
pub data Chan : Type 0 where
  null_chan : Chan
  proc_chan : ℕ → Chan
  ticks_chan : Chan
  other_chan : ℕ → Chan

abbrev pub chan_eq : Chan → Chan → Bool
chan_eq null_chan null_chan = true
chan_eq (proc_chan i) (proc_chan j) = i == j
chan_eq ticks_chan ticks_chan = true
chan_eq (other_chan a) (other_chan b) = a == b
chan_eq _ _ = false

-- `struct trapframe`: the word at each byte offset that the comments of proc.h give.
abbrev pub Trapframe : Type 0
Trapframe = ℕ → ℕ

abbrev pub off_epc : ℕ
off_epc = 24

abbrev pub off_sp : ℕ
off_sp = 48

abbrev pub off_a0 : ℕ
off_a0 = 112

abbrev pub off_a7 : ℕ
off_a7 = 168

-- A pointer to another process is its index in the table; `pagetable` says that there is one.
pub record Proc : Type 0 where
  pub state : ProcState
  pub chan : Chan
  pub killed : ℕ
  pub xstate : ℤ
  pub pid : ℕ
  pub parent : Option ℕ
  pub sz : ℕ
  pub pagetable : Bool
  pub trapframe : Option Trapframe
  pub ofile : List (Option ℕ)
  pub cwd : Option ℕ
  pub name : List ℕ
  pub trace_mask : ℕ
  pub birthtime : ℕ
  pub static_priority : ℕ
  pub dynamic_priority : ℕ
  pub niceness : ℕ
  pub sched1 : ℕ
  pub runtime : ℕ
  pub sched2 : ℕ
  pub in_q : ℕ
  pub level : ℕ
  pub timein_q : ℕ
  pub q_enter : ℕ
  pub timeineachq : List ℕ
  pub rtime : ℕ
  pub etime : ℕ
  pub nrun : ℕ

-- The tables and counters that proc.c shares: `proc[]`, `ticks`, `nextpid`, `initproc`, the open files of
-- file.c, and for each in-core inode the reference count that `idup` and `iput` change.
pub record Kernel : Type 0 where
  pub procs : List Proc
  pub ticks : ℕ
  pub nextpid : ℕ
  pub initproc : Option ℕ
  pub ftable : List File
  pub icount : ℕ → ℕ

abbrev pub nproc : ℕ
nproc = 64

abbrev pub nofile : ℕ
nofile = 16

-- A slot of the zeroed table.
abbrev pub zeroed : Proc
zeroed = record {
  state = unused;
  chan = null_chan;
  killed = 0;
  xstate = pos 0;
  pid = 0;
  parent = none;
  sz = 0;
  pagetable = false;
  trapframe = none;
  ofile = replicate nofile none;
  cwd = none;
  name = [];
  trace_mask = 0;
  birthtime = 0;
  static_priority = 0;
  dynamic_priority = 0;
  niceness = 0;
  sched1 = 0;
  runtime = 0;
  sched2 = 0;
  in_q = 0;
  level = 0;
  timein_q = 0;
  q_enter = 0;
  timeineachq = replicate 5 0;
  rtime = 0;
  etime = 0;
  nrun = 0;
}

abbrev pub no_file : File
no_file = record {
  type = fd_none;
  ref = 0;
  readable = false;
  writable = false;
  pipe = 0;
  ip = 0;
  off = 0;
  major = pos 0;
}

abbrev pub boot : Kernel
boot = record {
  procs = replicate nproc zeroed;
  ticks = 0;
  nextpid = 1;
  initproc = none;
  ftable = replicate 100 no_file;
  icount = λ i. 0;
}
