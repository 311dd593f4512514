-- ===== src/Log.antt =====
-- The write-ahead log of kernel/log.c over a disk and the buffer cache. `writes` is the number of disk writes
-- until the power is lost; from then on the disk does not change.
pub mod Install
pub mod Write
pub mod Recover
pub mod Lost
pub mod Crash
pub mod Commit
pub mod Ops
pub mod Reserve
use osn.Base.{
  ℕ, zero, suc, ◌+◌, ◌-◌, ◌*◌, ◌^◌, ◌≡◌, List, [], ◌∷◌, ◌++◌, Option, none, some, Bool, true, false,
  ◌==◌, ltb, leb, ◌||◌, if◌then◌else◌, update, length,
}
use osn.Base.Int.{ℤ, pos, negsuc, ltb_ℤ, to_int, to_bits}
use osn.Base.Word.{add32, sub32}
use osn.File.{Outcome, done, panicked}

abbrev pub maxopblocks : ℕ
maxopblocks = 10

abbrev pub logsize : ℕ
logsize = 30

-- `struct log`, with the disk's blocks by their numbers, the header block on disk read as a `struct logheader`,
-- what `bread` gives for each block, and the reference counts that `bpin` and `bunpin` change.
pub record LogState (B : Type 0) : Type 0 where
  pub start : ℕ
  pub size : ℕ
  pub outstanding : ℤ
  pub committing : Bool
  pub lh : List ℕ
  pub disk : ℕ → B
  pub head : List ℕ
  pub cache : ℕ → B
  pub pins : ℕ → ℕ
  pub writes : ℕ

pub data Began (B : Type 0) : Type 0 where
  begun : LogState B → Began B
  sleeps : Began B

-- `log.lh.n + (log.outstanding+1)*MAXOPBLOCKS > LOGSIZE`, in the arithmetic of an `int`, which wraps on the machine.
pub no_space : ℕ → ℤ → Bool
unfolding to_int
no_space n o = ltb_ℤ (pos logsize) (to_int (n + (to_bits o + 1) * maxopblocks))

pub outstanding_more : ℤ → ℤ
unfolding to_int
outstanding_more o = to_int (to_bits o + 1)

pub outstanding_less : ℤ → ℤ
unfolding to_int
outstanding_less o = to_int (to_bits o + 2 ^ 32 - 1)

pub is_zero : ℤ → Bool
is_zero (pos o) = o == 0
is_zero (negsuc o) = false

-- The block is in the list.
abbrev pub among : ℕ → List ℕ → Bool
among b [] = false
among b (x ∷ xs) = if b == x then true else among b xs

module _ {B : Type 0} where
  -- A turn of the loop of `begin_op`; a process that sleeps takes another when it is woken.
  pub begin_op : LogState B → Began B
  unfolding no_space outstanding_more
  begin_op s =
      if s.committing
      then sleeps
      else if no_space (length s.lh) s.outstanding
      then sleeps
      else begun (record s { outstanding = outstanding_more s.outstanding })

  -- `bwrite`
  pub bwrite : ℕ → LogState B → LogState B
  bwrite b s =
      if s.writes == 0
      then s
      else record s { disk = update s.disk b (s.cache b); writes = s.writes - 1 }

  -- `memmove(to->data, from->data, BSIZE)`
  pub move_block : ℕ → ℕ → LogState B → LogState B
  move_block to from s = record s { cache = update s.cache to (s.cache from) }

  pub write_head : LogState B → LogState B
  write_head s = if s.writes == 0 then s else record s { head = s.lh; writes = s.writes - 1 }

  pub bunpin : Bool → ℕ → LogState B → LogState B
  bunpin recovering b s =
      if recovering then s else record s { pins = update s.pins b (sub32 (s.pins b) 1) }

  -- The loop of `install_trans` at `tail`.
  pub install_from : Bool → ℕ → List ℕ → LogState B → LogState B
  unfolding bwrite move_block bunpin
  install_from recovering tail [] s = s
  install_from recovering tail (b ∷ bs) s =
      install_from recovering (tail + 1) bs
        (bunpin recovering b (bwrite b (move_block b (s.start + tail + 1) s)))

  pub install_trans : Bool → LogState B → LogState B
  unfolding install_from
  install_trans recovering s = install_from recovering 0 s.lh s

  pub read_head : LogState B → LogState B
  read_head s = record s { lh = s.head }

  pub recover_from_log : LogState B → LogState B
  unfolding read_head install_trans write_head
  recover_from_log s =
      let s' = install_trans true (read_head s) in write_head (record s' { lh = [] })

  -- The loop of `write_log` at `tail`.
  pub write_log_from : ℕ → List ℕ → LogState B → LogState B
  unfolding bwrite move_block
  write_log_from tail [] s = s
  write_log_from tail (b ∷ bs) s =
      write_log_from (tail + 1) bs
        (bwrite (s.start + tail + 1) (move_block (s.start + tail + 1) b s))

  pub write_log : LogState B → LogState B
  unfolding write_log_from
  write_log s = write_log_from 0 s.lh s

  -- `commit` where the log is not empty.
  pub commit_all : LogState B → LogState B
  unfolding write_log write_head install_trans
  commit_all s =
      let s' = install_trans false (write_head (write_log s)) in write_head (record s' { lh = [] })

  pub commit : LogState B → LogState B
  unfolding commit_all
  commit s = if ltb 0 (length s.lh) then commit_all s else s

  -- `end_op`, with the call of `commit` and what follows it. `wake` is `wakeup(&log)`, on the processes.
  pub end_op : {W : Type 0} → (W → W) → LogState B → W → Outcome (LogState B × W)
  unfolding outstanding_less is_zero commit
  end_op wake s w =
      let s' = record s { outstanding = outstanding_less s.outstanding } in
      if s.committing
      then panicked
      else if is_zero s'.outstanding
      then done (record (commit (record s' { committing = true })) { committing = false }, wake w)
      else done (s', wake w)

  unfoldable pub log_write : ℕ → LogState B → Outcome (LogState B)
  log_write b s =
      if leb logsize (length s.lh) || leb (s.size - 1) (length s.lh)
      then panicked
      else if ltb_ℤ s.outstanding (pos 1)
      then panicked
      else if among b s.lh
      then done s
      else done (record s { lh = s.lh ++ (b ∷ []); pins = update s.pins b (add32 (s.pins b) 1) })

  -- The machine starts again, with `n` disk writes before the next loss of power: the memory is lost, and
  -- `initlog` recovers.
  pub restart : ℕ → LogState B → LogState B
  unfolding recover_from_log
  restart n s =
      recover_from_log
        (record s { outstanding = pos 0; committing = false; lh = []; cache = s.disk; writes = n })
