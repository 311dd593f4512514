-- ===== src/Fs/Content.antt =====
-- The blocks of an inode, as `bmap` and `itrunc` of kernel/fs.c find, take and free them. There is one device, so
-- `dev` is left out.
pub mod Bmap
pub mod Truncate
use osn.Base.{
  ℕ, zero, suc, ◌+◌, ◌-◌, ◌*◌, ◌≡◌, Option, none, some, Bool, true, false, ◌==◌, ltb, if◌then◌else◌,
  update,
}
use osn.File.{Outcome, done, panicked, ◌>>=◌}
use osn.Log.{LogState}
use osn.Fs.{Disk, Block, Superblock, modify}
use osn.Fs.Dinode.{Dinode, ndirect, load32, store32}
use osn.Fs.Bitmap.{balloc, bfree}

abbrev pub nindirect : ℕ
nindirect = 256

-- `addrs` with one address replaced.
abbrev pub with_addr : ℕ → ℕ → Dinode → Dinode
with_addr i addr ip = record ip { addrs = update ip.addrs i addr }

-- An address of the inode, taken by `balloc` if it is 0.
pub take_addr : Superblock → ℕ → Dinode → Disk → Outcome (Dinode × Disk × ℕ)
take_addr sb i ip d =
    if ip.addrs i == 0
    then (do (d', addr) ← balloc sb d; done (with_addr i addr ip, d', addr))
    else done (ip, d, ip.addrs i)

-- An entry of the indirect block `at`, taken by `balloc` if it is 0.
pub take_entry : Superblock → ℕ → ℕ → Disk → Outcome (Disk × ℕ)
take_entry sb at bn d =
    if load32 (d.cache at) (4 * bn) == 0
    then (do
      (d1, addr) ← balloc sb d
      d2 ← modify at (store32 (d1.cache at) (4 * bn) addr) d1
      done (d2, addr))
    else done (d, load32 (d.cache at) (4 * bn))

unfoldable pub bmap : Superblock → ℕ → Dinode → Disk → Outcome (Dinode × Disk × ℕ)
unfolding take_addr take_entry
bmap sb bn ip d =
    if ltb bn ndirect
    then take_addr sb bn ip d
    else if ltb (bn - ndirect) nindirect
    then (do
      (ip', d1, at) ← take_addr sb ndirect ip d
      (d2, addr) ← take_entry sb at (bn - ndirect) d1
      done (ip', d2, addr))
    else panicked

-- `if(addr) bfree(addr)`
pub free_addr : Superblock → ℕ → Disk → Outcome Disk
free_addr sb addr d = if addr == 0 then done d else bfree sb addr d

-- The first loop of `itrunc` at `i`, with `n` turns to go.
pub free_direct : Superblock → ℕ → ℕ → Dinode → Disk → Outcome (Dinode × Disk)
unfolding free_addr
free_direct sb i zero ip d = done (ip, d)
free_direct sb i (suc n) ip d = do
  d' ← free_addr sb (ip.addrs i) d
  free_direct sb (i + 1) n (with_addr i 0 ip) d'

-- The second loop at `j`, for the indirect block `at`.
pub free_entries : Superblock → ℕ → ℕ → ℕ → Disk → Outcome Disk
unfolding free_addr
free_entries sb at j zero d = done d
free_entries sb at j (suc n) d = do
  d' ← free_addr sb (load32 (d.cache at) (4 * j)) d
  free_entries sb at (j + 1) n d'

pub free_indirect : Superblock → Dinode → Disk → Outcome (Dinode × Disk)
unfolding free_entries
free_indirect sb ip d = if ip.addrs ndirect == 0 then done (ip, d) else (do
  d1 ← free_entries sb (ip.addrs ndirect) 0 nindirect d
  d2 ← bfree sb (ip.addrs ndirect) d1
  done (with_addr ndirect 0 ip, d2))

-- `itrunc` up to its call of `iupdate`.
pub truncate : Superblock → Dinode → Disk → Outcome (Dinode × Disk)
unfolding free_direct free_indirect
truncate sb ip d = do
  (ip1, d1) ← free_direct sb 0 ndirect ip d
  (ip2, d2) ← free_indirect sb ip1 d1
  done (record ip2 { size = 0 }, d2)
