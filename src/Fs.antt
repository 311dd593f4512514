-- ===== src/Fs.antt =====
-- kernel/fs.h and the blocks of kernel/fs.c: the super block, and the blocks as the buffer cache holds them, changed
-- through the log of kernel/log.c. A block is its bytes by their offsets.
pub mod Room
pub mod Bitmap
pub mod Dinode
pub mod Itable
pub mod Content
pub mod Inode
pub mod Transfer
pub mod Path
pub mod Dir
pub mod Namex
use osn.Base.{ℕ, ◌+◌, ◌/◌, ◌%◌, update}
use osn.File.{Outcome}
use osn.Log.{LogState, log_write}

abbrev pub bsize : ℕ
bsize = 1024

abbrev pub Block : Type 0
Block = ℕ → ℕ

abbrev pub Disk : Type 0
Disk = LogState Block

-- `struct superblock`
pub record Superblock : Type 0 where
  pub magic : ℕ
  pub size : ℕ
  pub nblocks : ℕ
  pub ninodes : ℕ
  pub nlog : ℕ
  pub logstart : ℕ
  pub inodestart : ℕ
  pub bmapstart : ℕ

-- `BPB` and `BBLOCK`
abbrev pub bpb : ℕ
bpb = 8192

abbrev pub bblock : Superblock → ℕ → ℕ
bblock sb b = b / bpb + sb.bmapstart

-- A block that is read, changed to these bytes, and given to `log_write`.
pub modify : ℕ → Block → Disk → Outcome Disk
modify b bytes s = log_write b (record s { cache = update s.cache b bytes })

-- `bzero`
pub bzero : ℕ → Disk → Outcome Disk
unfolding modify
bzero b s = modify b (λ i. 0) s
