-- ===== src/Fs/Content/Bmap.antt =====
-- What `bmap` of kernel/fs.c does with the blocks of an inode.
pub mod Direct
pub mod Link
pub mod Entry
pub mod Mapping
use osn.Base.{
  ℕ, zero, suc, ◌+◌, ◌-◌, ◌*◌, ◌^◌, ◌≤◌, ◌<◌, ◌≡◌, ◌≢◌, ◌⊎◌, inl, inr, refl, ap, ap₂, sym, ◌∙◌,
  Bool, true, false, ◌==◌, ltb, if◌then◌else◌, update, update_self, update_ne, arith, dec_lt,
  Bool-cases, ℕ_discrete, subst,
}
use osn.File.{Outcome, done, panicked, ◌>>=◌}
use osn.Log.{LogState}
use osn.Fs.{Disk, Block, Superblock, bblock, modify}
use osn.Fs.Room.{Room, Modified, modify-Modified}
use osn.Fs.Dinode.{Dinode, ndirect, load32, store32}
use osn.Fs.Dinode.Codec.{load32-store32, load32-store32-Apart}
use osn.Fs.Bitmap.{balloc}
use osn.Fs.Bitmap.Used.{used, used-update_other, MapUsed}
use osn.Fs.Bitmap.Alloc.{Balloc, out_of_blocks, taken, Taken, balloc-Balloc, not_map}
use osn.Fs.Content.{bmap, nindirect, take_addr, take_entry, with_addr}

-- The block that an inode has for the block `bn` of its file, or 0.
abbrev pub block_of : Dinode → (ℕ → Block) → ℕ → ℕ
block_of ip cache bn =
    if ltb bn ndirect
    then ip.addrs bn
    else if ip.addrs ndirect == 0
    then 0
    else load32 (cache (ip.addrs ndirect)) (4 * (bn - ndirect))

-- No block of the free bit map.
abbrev pub NotMap : Superblock → ℕ → Type 0
NotMap sb y = (x : ℕ) → x < sb.size → bblock sb x ≢ y

-- The bit map's blocks and the boot block are in use, and so is the indirect block of the inode, which is no block
-- of the map.
pub record Sane (sb : Superblock) (ip : Dinode) (d : Disk) : Type 0 where
  pub map_used : MapUsed sb d.cache
  pub boot : used sb d.cache 0 ≡ true
  pub small : sb.size < 2 ^ 32
  pub indirect_inside : ip.addrs ndirect ≢ 0 → ip.addrs ndirect < sb.size
  pub indirect_used : ip.addrs ndirect ≢ 0 → used sb d.cache (ip.addrs ndirect) ≡ true
  pub indirect_apart : ip.addrs ndirect ≢ 0 → NotMap sb (ip.addrs ndirect)

-- Blocks may have been taken, but none freed or changed that was in use, but for the map and the indirect block.
pub record Kept (sb : Superblock) (ip' : Dinode) (d d' : Disk) : Type 0 where
  pub keeps : (x : ℕ) → x < sb.size → used sb d.cache x ≡ true → used sb d'.cache x ≡ true
  pub frame :
      (y : ℕ)
      → y < sb.size
      → used sb d.cache y ≡ true
      → NotMap sb y
      → ip'.addrs ndirect ≢ y
      → d'.cache y ≡ d.cache y

-- What `bmap` leaves where it returns `addr`.
pub record Mapped (sb : Superblock) (n bn : ℕ) (ip : Dinode) (d : Disk) (ip' : Dinode) (d' : Disk)
    (addr : ℕ) : Type 0 where
  pub nonzero : addr ≢ 0
  pub here : block_of ip' d'.cache bn ≡ addr
  pub others : (k : ℕ) → k ≢ bn → block_of ip' d'.cache k ≡ block_of ip d.cache k
  pub old : block_of ip d.cache bn ≢ 0 → block_of ip d.cache bn ≡ addr
  pub new :
      block_of ip d.cache bn ≡ 0
      → (addr < sb.size) × (used sb d.cache addr ≡ false) × (used sb d'.cache addr ≡ true)
  pub zeroed : block_of ip d.cache bn ≡ 0 → d'.cache addr ≡ (λ i. 0)
  pub kept : Kept sb ip' d d'
  pub sane : Sane sb ip' d'
  pub room : Room n d'

pub data TakeAddr (n : ℕ) (sb : Superblock) (i : ℕ) (ip : Dinode) (d : Disk)
    : Outcome (Dinode × Disk × ℕ) → Type 0 where
  no_block : ((x : ℕ) → x < sb.size → used sb d.cache x ≡ true) → TakeAddr n sb i ip d panicked
  had : ip.addrs i ≢ 0 → TakeAddr n sb i ip d (done (ip, d, ip.addrs i))
  took :
      (b : ℕ) (r : Disk)
      → ip.addrs i ≡ 0
      → Taken n sb b d r
      → TakeAddr n sb i ip d (done (with_addr i b ip, r, b))

pub take_addr-TakeAddr :
    (n : ℕ) (sb : Superblock) (i : ℕ) (ip : Dinode) (d : Disk)
    → Room (suc (suc n)) d
    → MapUsed sb d.cache
    → TakeAddr n sb i ip d (take_addr sb i ip d)
unfolding take_addr
take_addr-TakeAddr n sb i ip d room map_used = elim (Bool-cases (ip.addrs i == 0)) [
  | inl z ↦
      let zero_addr : ip.addrs i ≡ 0 = ground arith in
      rw z (take zero_addr (balloc sb d) (balloc-Balloc n sb d room map_used))
  | inr nz ↦ let has : ip.addrs i ≢ 0 = λ e. ground arith in rw nz (had has)
]
  where
    take :
        ip.addrs i ≡ 0
        → (o : Outcome (Disk × ℕ)) → Balloc n sb d o
        → TakeAddr n sb i ip d (o >>= (λ r. done (with_addr i r.1 ip, r.0, r.1)))
    take z panicked (out_of_blocks all) = no_block all
    take z (done _) (taken b r t) = took b r z t

-- At most one block is free.
abbrev pub Full : Superblock → Disk → Type 0
Full sb d =
    (x y : ℕ)
    → x < sb.size
    → y < sb.size
    → used sb d.cache x ≡ false
    → used sb d.cache y ≡ false
    → x ≡ y

pub Full-all :
    (sb : Superblock) (d : Disk) → ((x : ℕ) → x < sb.size → used sb d.cache x ≡ true) → Full sb d
Full-all sb d all x y lx ly fx fy = let z : true ≡ false = sym (all x lx) ∙ fx in cc
