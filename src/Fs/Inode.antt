-- ===== src/Fs/Inode.antt =====
-- `itrunc`, `iput`, `iunlockput` and the parts of kernel/fs.c that change both the table of inodes and the blocks.
-- `iput` takes no turn of `acquiresleep` that sleeps: no other process has a reference to the inode then.
pub mod Put
pub mod Free
pub mod Last
use osn.Base.{ℕ, ◌+◌, ◌-◌, ◌≡◌, Bool, true, false, ◌==◌, ◌&&◌, if◌then◌else◌, update}
use osn.File.{Outcome, done, panicked, ◌>>=◌}
use osn.Fs.{Disk, Superblock}
use osn.Fs.Dinode.{Dinode}
use osn.Fs.Itable.{Inode, Files, iupdate, iunlock}
use osn.Fs.Content.{truncate}

-- The table with another inode at slot `i`.
abbrev pub with_inode : ℕ → Inode → Files → Files
with_inode i ip s = record s { inodes = update s.inodes i ip }

pub itrunc : Superblock → ℕ → Files → Outcome Files
itrunc sb i s = do
  (copy, d) ← truncate sb (s.inodes i).copy s.disk
  iupdate sb i
      (record s { disk = d; inodes = update s.inodes i (record (s.inodes i) { copy = copy }) })

-- What `iput` does with the last reference to an inode that no directory has.
pub free_inode : Superblock → ℕ → Files → Outcome Files
unfolding itrunc
free_inode sb i s = do
  s1 ← itrunc sb i (with_inode i (record (s.inodes i) { locked = true }) s)
  let ip1 = s1.inodes i
  s2 ← iupdate sb i (with_inode i (record ip1 { copy = record ip1.copy { type = 0 } }) s1)
  done (with_inode i (record (s2.inodes i) { valid = false; locked = false }) s2)

-- `ip->ref--`
pub drop_ref : ℕ → Files → Files
drop_ref i s = with_inode i (record (s.inodes i) { ref = (s.inodes i).ref - 1 }) s

pub iput : Superblock → ℕ → Files → Outcome Files
unfolding free_inode drop_ref
iput sb i s =
    let ip = s.inodes i in
    if ip.ref == 1 && (ip.valid && ip.copy.nlink == 0)
    then (do s' ← free_inode sb i s; done (drop_ref i s'))
    else done (drop_ref i s)

pub iunlockput : Superblock → ℕ → Files → Outcome Files
unfolding iput
iunlockput sb i s = do s' ← iunlock i s; iput sb i s'
