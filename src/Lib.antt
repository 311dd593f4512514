-- ===== src/Lib.antt =====
-- A model of the kernel in Assignment 4, an xv6 for RISC-V with four schedulers, process accounting and system call
-- tracing, and what holds of it. Paths are from the repository's root; kernel/ is Assignment 4/kernel/.
--
-- The parts, from the bottom up:
-- * Kstring models kernel/string.c. A memory is a function from addresses to bytes. strlen takes fuel, and one round
--   more than the length is enough.
-- * Lock models kernel/spinlock.c: a machine of one lock and any number of processors. Each atomic action of acquire
--   and release is a step, and a run is a list of processors in the order in which they step. The spinning loop is one
--   step that may be taken again and again, so no fuel is needed. Lock.Sleeplock models kernel/sleeplock.c.
-- * Kalloc models kernel/kalloc.c: kinit, freerange, kfree and kalloc. The links of the free list are words of the free
--   pages. The loop of freerange has fuel for every page below the end of its range and one more.
-- * File models the open files of kernel/file.c with their reference counts. File.Transfer models fileread and filewrite
--   over a record of the layers below them: pipes, devices, inodes and the log. The loop of filewrite has fuel for each
--   byte.
-- * Proc holds the state that kernel/proc.c shares: the process table, the clock, the next pid, init, the open files and
--   the counts of the inodes. Proc.Alloc has allocproc and fork; Proc.Wakeup has sleep, wakeup, kill, yield and
--   _setpriority, and in Handover the steps of sleep and wakeup on the two locks, in any order; Proc.Exit has reparent, exit, wait and waitx; Proc.Clock has RunningTime, clockintr and the timer
--   interrupt of kernel/trap.c. sleep and exit are modelled up to the context switch, and wait one round at a time.
-- * Pipe models kernel/pipe.c, with wakeup and sleep on the process table. A call that sleeps ends as asleep with the
--   number of bytes moved, and is entered again from there. A user address is a function from offsets: copyin of
--   kernel/vm.c gives a byte or fails, copyout stores a byte or fails.
-- * Sched models the first come first served and the priority scheduler of kernel/proc.c and a pass of the default one.
--   What happens from swtch to the return is a parameter. Sched.Queue models the circular queues with C int indices,
--   where an access outside the array is none; its removal loop takes fuel. Sched.Mlfq models the multi-level scheduler
--   over the five queues: ageing, the filling of the queues and the choice.
-- * Log models the write-ahead log of kernel/log.c over a disk and a buffer cache, with a number of disk writes after
--   which the power is lost. Log.Reserve has the order in which operations call begin_op, log_write and end_op.
-- * Console models the line discipline of kernel/console.c, with wakeup on the process table; a consoleread that sleeps is
--   entered again. Its loops run over the characters of the ring, so that their number is enough fuel.
-- * Vm models the look up of a page in kernel/vm.c and the copies from user memory, over memory as bytes. Their loops have
--   fuel for each byte.
-- * Bio models the buffer cache of kernel/bio.c: the list of buffers in the order of their use. Fs and Log take it as the
--   function from block numbers to what bread gives, which Bio.View relates to the buffers.
-- * Fs models kernel/fs.c over that log: the blocks are bytes, and each change of a block goes through log_write. Fs.Bitmap
--   has balloc and bfree, with fuel for each block of the map and one more; Fs.Dinode the bytes of a struct dinode;
--   Fs.Itable the table of inodes with iget, idup, ilock, iunlock, iupdate and ialloc; Fs.Content bmap and the loops of
--   itrunc; Fs.Inode itrunc, iput and iunlockput; Fs.Transfer readi and writei, with fuel for each byte; Fs.Path skipelem
--   on the list of a path's bytes; Fs.Dir the directories, with fuel for each entry and one more; Fs.Namex namex, namei and
--   nameiparent, with fuel for each byte of the path and one more. Room stands for what begin_op reserves in the log.
-- * Syscall models syscall of kernel/syscall.c over a table of handlers and the memory around its array of counts, with the registers in the trapframe and what it
--   prints, and the handlers of kernel/sysproc.c that work on the process table alone.
-- * User models printint of user/printf.c and atoi of user/ulib.c, with fuel for each unit of the number.
-- * Examples applies the theorems at concrete inputs.
--
-- The files below a part hold its theorems and are named for what they prove. Base has the shared helpers: numbers of 32
-- bits that wrap, the C int, arrays as lists and as functions, and the loop over all slots of a table. Signed
-- arithmetic that overflows in the source wraps, as it does on the machine.
--
-- A lock that a function holds from its start to its end makes the function one step. Pointers to processes and files are
-- indices of their tables, and null is none.
--
-- Not modelled: the functions of kernel/vm.c that change page tables, the start of kernel/fs.c that reads the super
-- block, the system calls of kernel/sysfile.c, program loading, the registers of traps and devices, the context switch in assembly, the rest of the user programs and the other
-- assignments.
pub mod Base
pub mod Kstring
pub mod File
pub mod Proc
pub mod Lock
pub mod Kalloc
pub mod Pipe
pub mod Log
pub mod Sched
pub mod Console
pub mod Vm
pub mod Bio
pub mod Fs
pub mod Syscall
pub mod User
pub mod Examples
