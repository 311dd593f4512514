-- ===== src/Fs/Content/Bmap/Link.antt =====
-- The indirect block of an inode, as `bmap` of kernel/fs.c finds or takes it.
use osn.Base.{
  ℕ, ◌-◌, ◌*◌, ◌<◌, ◌≡◌, ◌≢◌, refl, ap, sym, ◌∙◌, true, false, update_self, update_ne, arith,
  dec_lt,
}
use osn.Fs.{Disk, Superblock}
use osn.Fs.Room.{Room}
use osn.Fs.Dinode.{Dinode, ndirect, load16, load32}
use osn.Fs.Bitmap.Used.{used, MapUsed}
use osn.Fs.Bitmap.Alloc.{Taken}
use osn.Fs.Content.{with_addr}
use osn.Fs.Content.Bmap.{Full, Full-all, block_of, NotMap, Sane, Kept}
use osn.Fs.Content.Bmap.Direct.{
  Taken-keeps, Taken-used, Taken-ne, Taken-same, Taken-MapUsed, Taken-boot, Taken-NotMap,
  block_of-direct, block_of-none, block_of-indirect,
}

-- The inode has an indirect block `at`, and what it took to have it.
pub record Linked (sb : Superblock) (n at : ℕ) (ip : Dinode) (d : Disk) (ip1 : Dinode) (d1 : Disk)
    : Type 0 where
  pub link : ip1.addrs ndirect ≡ at
  pub nonzero : at ≢ 0
  pub inside : at < sb.size
  pub in_use : used sb d1.cache at ≡ true
  pub apart : NotMap sb at
  pub same : (k : ℕ) → block_of ip1 d1.cache k ≡ block_of ip d.cache k
  pub kept : Kept sb ip1 d d1
  pub map_used : MapUsed sb d1.cache
  pub boot : used sb d1.cache 0 ≡ true
  pub room : Room n d1
  pub full : ((x : ℕ) → x < sb.size → used sb d1.cache x ≡ true) → Full sb d

pub Linked-had :
    (sb : Superblock) (n : ℕ) (ip : Dinode) (d : Disk)
    → Sane sb ip d
    → Room n d
    → ip.addrs ndirect ≢ 0
    → Linked sb n (ip.addrs ndirect) ip d ip d
Linked-had sb n ip d s room nz = record {
  link = refl;
  nonzero = nz;
  inside = s.indirect_inside nz;
  in_use = s.indirect_used nz;
  apart = s.indirect_apart nz;
  same = λ k. refl;
  kept = record { keeps = λ x lt u. u; frame = λ y lt' u out ne. refl };
  map_used = s.map_used;
  boot = s.boot;
  room = room;
  full = λ all. Full-all sb d all;
}

load32-zeros : (o : ℕ) → load32 (λ i. 0) o ≡ 0
unfolding load32 load16
load32-zeros o = refl

pub Linked-took :
    {n b : ℕ} {sb : Superblock} {ip : Dinode} {d r : Disk}
    → Sane sb ip d
    → ip.addrs ndirect ≡ 0
    → Taken n sb b d r
    → Linked sb n b ip d (with_addr ndirect b ip) r
Linked-took {n} {b} {sb} {ip} {d} {r} s z t = record {
  link = update_self ip.addrs ndirect b;
  nonzero = Taken-ne t 0 s.boot;
  inside = t.in_disk;
  in_use = Taken-used t;
  apart = Taken-NotMap t s.map_used;
  same = λ k. elim (dec_lt k ndirect) [
    | yes below ↦
        block_of-direct (with_addr ndirect b ip) r.cache k below
        ∙ (update_ne ip.addrs ndirect k b (λ e. omega arith)
            ∙ sym (block_of-direct ip d.cache k below))
    | no above ↦
        block_of-indirect (with_addr ndirect b ip) r.cache k b (omega arith)
          (update_self ip.addrs ndirect b) (Taken-ne t 0 s.boot)
        ∙ (ap (λ c. load32 c (4 * (k - ndirect))) t.zeroed
            ∙ (load32-zeros (4 * (k - ndirect)) ∙ sym (block_of-none ip d.cache k (omega arith) z)))
  ];
  kept = record { keeps = Taken-keeps t; frame = λ y lt' u out ne. Taken-same t y u out };
  map_used = Taken-MapUsed t s.map_used;
  boot = Taken-boot t s.boot;
  room = t.room;
  full = λ all x y lx ly fx fy. only x lx fx all ∙ sym (only y ly fy all);
}
  where
    only :
        (x : ℕ)
        → x < sb.size
        → used sb d.cache x ≡ false
        → ((x : ℕ) → x < sb.size → used sb r.cache x ≡ true)
        → x ≡ b
    only x lt free all = ground (arith, t.in_use x lt, all x lt)
