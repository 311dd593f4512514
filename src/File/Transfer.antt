-- ===== src/File/Transfer.antt =====
-- `fileread` and `filewrite` of kernel/file.c over the layers below them, and what a write does.
pub mod Chunks
use osn.Base.{
  ℕ, zero, suc, ◌+◌, ◌-◌, ◌%◌, ◌≤◌, ◌<◌, ◌≡◌, ◌≢◌, refl, ◌⊎◌, inl, inr, List, Option, none, some,
  Bool, true, false, not, ltb, leb, ◌==◌, ◌||◌, if◌then◌else◌, arith, Bool-cases, min,
}
use osn.Base.Int.{ℤ, pos, negsuc, minus_one, ltb_ℤ}
use osn.Base.Word.{add32}
use osn.File.{File, FileType, fd_none, fd_pipe, fd_inode, fd_device, Outcome, done, panicked}

-- The parts of the kernel that file.c calls, over their state `W`: pipes, the device switch (none for
-- a null entry), inodes and the log. A transfer returns the C `int`: a count, or -1.
pub record Layers {ℓ} (W : Type ℓ) : Type ℓ where
  pub piperead : ℕ → ℕ → ℤ → W → W × ℤ
  pub pipewrite : ℕ → ℕ → ℤ → W → W × ℤ
  pub dev_read : ℕ → Option (ℕ → ℤ → W → W × ℤ)
  pub dev_write : ℕ → Option (ℕ → ℤ → W → W × ℤ)
  pub readi : ℕ → ℕ → ℕ → ℤ → W → W × ℤ
  pub writei : ℕ → ℕ → ℕ → ℕ → W → W × ℤ
  pub ilock : ℕ → W → W
  pub iunlock : ℕ → W → W
  pub begin_op : W → W
  pub end_op : W → W

abbrev pub ndev : ℕ
ndev = 10

-- `((MAXOPBLOCKS-1-1-2) / 2) * BSIZE`
abbrev pub max_chunk : ℕ
max_chunk = 3072

-- `if(r > 0) f->off += r`
advance : ℕ → ℤ → ℕ
advance off (pos r) = add32 off r
advance off (negsuc r) = off

-- `r != n1`
is_count : ℤ → ℕ → Bool
is_count (pos r) n = r == n
is_count (negsuc r) n = false

-- The device function for a major number in range.
device {ℓ} : {A : Type ℓ} → (ℕ → Option A) → ℤ → Option A
device sw (negsuc m) = none
device sw (pos m) = if leb ndev m then none else sw m

module _ {ℓ} {W : Type ℓ} (l : Layers W) where
  open l use {
    piperead, pipewrite, dev_read, dev_write, readi, writei, ilock, iunlock, begin_op, end_op,
  }

  -- The read of a file of each type.
  read_as : FileType → File → ℕ → ℤ → W → Outcome (W × File × ℤ)
  unfolding advance device
  read_as fd_pipe f addr n w = let (w', r) = piperead f.pipe addr n w in done (w', f, r)
  read_as fd_device f addr n w = elim (device dev_read f.major) [
    | none ↦ done (w, f, minus_one)
    | some read ↦ let (w', r) = read addr n w in done (w', f, r)
  ]
  read_as fd_inode f addr n w =
      let (w', r) = readi f.ip addr f.off n (ilock f.ip w) in
      done (iunlock f.ip w', record f { off = advance f.off r }, r)
  read_as fd_none f addr n w = panicked

  pub fileread : File → ℕ → ℤ → W → Outcome (W × File × ℤ)
  unfolding read_as
  fileread f addr n w = if not f.readable then done (w, f, minus_one) else read_as f.type f addr n w

  -- One round of the write loop: the state and offset after it, and what `writei` returned for the
  -- count that it was given.
  write_round : File → ℕ → ℕ → ℕ → W → W × ℕ × ℤ
  unfolding advance
  write_round f addr off n1 w =
      let (w', r) = writei f.ip addr off n1 (ilock f.ip (begin_op w)) in
      (end_op (iunlock f.ip w'), advance off r, r)

  chunk : ℕ → ℕ → ℕ
  chunk n i = if ltb max_chunk (n - i) then max_chunk else n - i

  -- `while(i < n)`, on fuel; each round that goes on writes at least one byte, so `n` rounds are enough.
  write_loop : ℕ → File → ℕ → ℕ → ℕ → ℕ → W → W × ℕ × ℕ
  unfolding write_round chunk is_count
  write_loop zero f addr n off i w = (w, off, i)
  write_loop (suc fuel) f addr n off i w =
      let (w', off', r) = write_round f (addr + i) off (chunk n i) w in
      let again = write_loop fuel f addr n off' (i + chunk n i) w' in
      if ltb i n then (if is_count r (chunk n i) then again else (w', off', i)) else (w, off, i)

  -- The inode case of `filewrite`.
  write_inode : File → ℕ → ℤ → W → W × File × ℤ
  unfolding write_loop
  write_inode f addr (negsuc n) w = (w, f, minus_one)
  write_inode f addr (pos n) w =
      let (w', off', i) = write_loop n f addr n f.off 0 w in
      (w', record f { off = off' }, if i == n then pos n else minus_one)

  write_as : FileType → File → ℕ → ℤ → W → Outcome (W × File × ℤ)
  unfolding write_inode device
  write_as fd_pipe f addr n w = let (w', r) = pipewrite f.pipe addr n w in done (w', f, r)
  write_as fd_device f addr n w = elim (device dev_write f.major) [
    | none ↦ done (w, f, minus_one)
    | some write ↦ let (w', r) = write addr n w in done (w', f, r)
  ]
  write_as fd_inode f addr n w = done (write_inode f addr n w)
  write_as fd_none f addr n w = panicked

  pub filewrite : File → ℕ → ℤ → W → Outcome (W × File × ℤ)
  unfolding write_as
  filewrite f addr n w =
      if not f.writable then done (w, f, minus_one) else write_as f.type f addr n w
