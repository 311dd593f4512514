-- ===== src/Fs/Itable.antt =====
-- The inodes in memory of kernel/fs.c: `iget`, `idup`, `ilock`, `iunlock`, `iupdate`, `stati` and `ialloc`. The table is
-- held locked through each of `iget` and `idup`. `locked` is the `locked` of the inode's sleep lock: `ilock` is
-- modelled from the moment when it has the lock, and `iunlock` for the process that holds it.
pub mod Unique
pub mod Update
pub mod Fresh
use osn.Base.{
  ℕ, zero, suc, ◌+◌, ◌-◌, ◌%◌, ◌≡◌, List, Option, none, some, Bool, true, false, not, ◌==◌, ◌&&◌,
  ◌||◌, ltb, if◌then◌else◌, update,
}
use osn.File.{Outcome, done, panicked, ◌>>=◌}
use osn.Log.{LogState, log_write}
use osn.Fs.{Disk, Block, Superblock, modify}
use osn.Fs.Dinode.{Dinode, iblock, dinode_at, encode, decode, load16, store16}

abbrev pub ninode : ℕ
ninode = 50

-- `struct inode`
pub record Inode : Type 0 where
  pub dev : ℕ
  pub inum : ℕ
  pub ref : ℕ
  pub locked : Bool
  pub valid : Bool
  pub copy : Dinode

-- `itable.inode` and the file system below it.
pub record Files : Type 0 where
  pub disk : Disk
  pub inodes : ℕ → Inode

-- `ip->ref > 0 && ip->dev == dev && ip->inum == inum`
abbrev pub cached : ℕ → ℕ → Inode → Bool
cached dev inum ip = ltb 0 ip.ref && (ip.dev == dev && ip.inum == inum)

-- The loop of `iget` from slot `i`, with `n` slots to go: the slot that has the inode, or the first empty slot.
pub data Slot : Type 0 where
  at_slot : ℕ → Slot
  empty_slot : Option ℕ → Slot

pub search : ℕ → ℕ → (ℕ → Inode) → ℕ → ℕ → Option ℕ → Slot
search dev inum inodes i zero empty = empty_slot empty
search dev inum inodes i (suc n) empty =
    if cached dev inum (inodes i) then at_slot i else elim empty [
      | none ↦ search dev inum inodes (suc i) n (if (inodes i).ref == 0 then some i else none)
      | some e ↦ search dev inum inodes (suc i) n (some e)
    ]

pub iget : ℕ → ℕ → Files → Outcome (Files × ℕ)
unfolding search
iget dev inum s = elim (search dev inum s.inodes 0 ninode none) [
  | at_slot i ↦ done (
    record s { inodes = update s.inodes i (record (s.inodes i) { ref = (s.inodes i).ref + 1 }) },
    i,
  )
  | empty_slot none ↦ panicked
  | empty_slot (some i) ↦ done (
    record s {
      inodes =
          update s.inodes i
            (record (s.inodes i) { dev = dev; inum = inum; ref = 1; valid = false });
    },
    i,
  )
]

pub idup : ℕ → Files → Files
idup i s = record s {
  inodes = update s.inodes i (record (s.inodes i) { ref = (s.inodes i).ref + 1 });
}

-- The inode at a slot with the lock held and the dinode copied in.
loaded : Superblock → Disk → Inode → Inode
loaded sb d ip = record ip {
  locked = true;
  valid = true;
  copy = decode (d.cache (iblock sb ip.inum)) (dinode_at ip.inum);
}

pub ilock : Superblock → ℕ → Files → Outcome Files
unfolding loaded
ilock sb i s =
    let ip = s.inodes i in
    if ltb ip.ref 1
    then panicked
    else if ip.valid
    then done (record s { inodes = update s.inodes i (record ip { locked = true }) })
    else if (loaded sb s.disk ip).copy.type == 0
    then panicked
    else done (record s { inodes = update s.inodes i (loaded sb s.disk ip) })

pub iunlock : ℕ → Files → Outcome Files
iunlock i s =
    let ip = s.inodes i in
    if not ip.locked || ltb ip.ref 1
    then panicked
    else done (record s { inodes = update s.inodes i (record ip { locked = false }) })

pub iupdate : Superblock → ℕ → Files → Outcome Files
iupdate sb i s = do
  let ip = s.inodes i
  let b = iblock sb ip.inum
  d ← modify b (encode (s.disk.cache b) (dinode_at ip.inum) ip.copy) s.disk
  done (record s { disk = d })

-- `memset(dip, 0, sizeof(*dip))` and the store of the type.
pub fresh_dinode : Block → ℕ → ℕ → Block
fresh_dinode bytes o type =
    store16 (λ j. if not (ltb j o) && ltb j (o + 64) then 0 else bytes j) o type

-- The loop of `ialloc` at `inum`, with `n` turns to go.
pub ialloc_from : Superblock → ℕ → ℕ → ℕ → ℕ → Files → Outcome (Files × ℕ)
unfolding fresh_dinode
ialloc_from sb dev type inum zero s = panicked
ialloc_from sb dev type inum (suc n) s =
    elim (load16 (s.disk.cache (iblock sb inum)) (dinode_at inum) == 0) [
      | true ↦ do
        d ←
            modify (iblock sb inum)
              (fresh_dinode (s.disk.cache (iblock sb inum)) (dinode_at inum) type) s.disk
        iget dev inum (record s { disk = d })
      | false ↦ ialloc_from sb dev type (inum + 1) n s
    ]

pub ialloc : Superblock → ℕ → ℕ → Files → Outcome (Files × ℕ)
unfolding ialloc_from
ialloc sb dev type s = ialloc_from sb dev type 1 (sb.ninodes - 1) s

-- `struct stat` with what `stati` copies to it.
pub record Stat : Type 0 where
  pub dev : ℕ
  pub ino : ℕ
  pub type : ℕ
  pub nlink : ℕ
  pub size : ℕ

pub stati : Inode → Stat
stati ip = record {
  dev = ip.dev;
  ino = ip.inum;
  type = ip.copy.type;
  nlink = ip.copy.nlink;
  size = ip.copy.size;
}
