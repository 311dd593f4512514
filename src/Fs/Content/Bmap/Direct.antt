-- ===== src/Fs/Content/Bmap/Direct.antt =====
-- The steps of `bmap` of kernel/fs.c: the block that it takes, and the two kinds of block number.
use osn.Base.{
  ℕ, ◌-◌, ◌*◌, ◌≤◌, ◌<◌, ◌≡◌, ◌≢◌, refl, ap, sym, ◌∙◌, Bool, true, false, ◌==◌, ltb, if◌then◌else◌,
  update, update_self, update_ne, arith, dec_lt, ℕ_discrete, subst,
}
use osn.Fs.{Disk, Block, Superblock, bblock}
use osn.Fs.Dinode.{Dinode, ndirect, load32}
use osn.Fs.Bitmap.Used.{used, MapUsed}
use osn.Fs.Bitmap.Alloc.{Taken, not_map}
use osn.Fs.Content.{with_addr}
use osn.Fs.Content.Bmap.{block_of, NotMap, Sane, Mapped}

-- What taking a block leaves.
module _ {n b : ℕ} {sb : Superblock} {d r : Disk} (t : Taken n sb b d r) where
  pub Taken-keeps : (x : ℕ) → x < sb.size → used sb d.cache x ≡ true → used sb r.cache x ≡ true
  Taken-keeps x lt u = t.in_use x lt ∙ (rw u (if_true (x == b)))
    where
      if_true : (c : Bool) → (if c then true else true) ≡ true
      if_true true = refl
      if_true false = refl

  pub Taken-used : used sb r.cache b ≡ true
  Taken-used = t.in_use b t.in_disk ∙ ground arith

  pub Taken-ne : (y : ℕ) → used sb d.cache y ≡ true → b ≢ y
  Taken-ne y u e = let z : true ≡ false = sym u ∙ (ap (used sb d.cache) (sym e) ∙ t.was_free) in cc

  pub Taken-same : (y : ℕ) → used sb d.cache y ≡ true → NotMap sb y → r.cache y ≡ d.cache y
  Taken-same y u out = t.others y (out b t.in_disk) (Taken-ne y u)

  pub Taken-MapUsed : MapUsed sb d.cache → MapUsed sb r.cache
  unfolding MapUsed
  Taken-MapUsed map_used x lt =
      let (inside, u) = map_used x lt in (inside, Taken-keeps (bblock sb x) inside u)

  pub Taken-boot : used sb d.cache 0 ≡ true → used sb r.cache 0 ≡ true
  Taken-boot u = Taken-keeps 0 (omega (arith, t.in_disk)) u

  pub Taken-NotMap : MapUsed sb d.cache → NotMap sb b
  Taken-NotMap map_used x lt = not_map sb d.cache b x map_used lt t.was_free

if_then {ℓ} : {A : Type ℓ} {c : Bool} (x y : A) → c ≡ true → (if c then x else y) ≡ x
if_then x y e = rw e refl

if_else {ℓ} : {A : Type ℓ} {c : Bool} (x y : A) → c ≡ false → (if c then x else y) ≡ y
if_else x y e = rw e refl

pub block_of-direct :
    (ip : Dinode) (cache : ℕ → Block) (k : ℕ) → k < ndirect → block_of ip cache k ≡ ip.addrs k
block_of-direct ip cache k lt = ground arith

pub block_of-none :
    (ip : Dinode) (cache : ℕ → Block) (k : ℕ)
    → ndirect ≤ k
    → ip.addrs ndirect ≡ 0
    → block_of ip cache k ≡ 0
block_of-none ip cache k ge z = ground arith

pub block_of-indirect :
    (ip : Dinode) (cache : ℕ → Block) (k at : ℕ)
    → ndirect ≤ k
    → ip.addrs ndirect ≡ at
    → at ≢ 0
    → block_of ip cache k ≡ load32 (cache at) (4 * (k - ndirect))
block_of-indirect ip cache k at ge e nz =
    let c : ltb k ndirect ≡ false = ground arith in
    let h : (at == 0) ≡ false = ground arith in rw (c, e, h) refl

-- The direct block: nothing else of the inode changes.
direct-others :
    {n b : ℕ} {sb : Superblock} {ip : Dinode} {d r : Disk} (bn : ℕ)
    → Sane sb ip d
    → bn < ndirect
    → Taken n sb b d r
    → (k : ℕ) → k ≢ bn
    → block_of (with_addr bn b ip) r.cache k ≡ block_of ip d.cache k
direct-others {n} {b} {sb} {ip} {d} {r} bn s lt t k ne =
    let same : update ip.addrs bn b ndirect ≡ ip.addrs ndirect =
      update_ne ip.addrs bn ndirect b (λ e. omega arith) in
    elim (dec_lt k ndirect) [
      | yes below ↦
          block_of-direct (with_addr bn b ip) r.cache k below
          ∙ (update_ne ip.addrs bn k b (λ e. ne (sym e)) ∙ sym (block_of-direct ip d.cache k below))
      | no above ↦ elim (ℕ_discrete (ip.addrs ndirect) 0) [
        | yes z ↦
            block_of-none (with_addr bn b ip) r.cache k (omega arith) (same ∙ z)
            ∙ sym (block_of-none ip d.cache k (omega arith) z)
        | no nz ↦
            block_of-indirect (with_addr bn b ip) r.cache k (ip.addrs ndirect) (omega arith) same nz
            ∙ (ap (λ c. load32 c (4 * (k - ndirect)))
                  (Taken-same t (ip.addrs ndirect) (s.indirect_used nz) (s.indirect_apart nz))
                ∙ sym (block_of-indirect ip d.cache k (ip.addrs ndirect) (omega arith) refl nz))
      ]
    ]

pub direct-Mapped :
    {n b : ℕ} {sb : Superblock} {ip : Dinode} {d r : Disk} (bn : ℕ)
    → Sane sb ip d
    → bn < ndirect
    → ip.addrs bn ≡ 0
    → Taken n sb b d r
    → Mapped sb n bn ip d (with_addr bn b ip) r b
direct-Mapped {n} {b} {sb} {ip} {d} {r} bn s lt z t =
    let same : update ip.addrs bn b ndirect ≡ ip.addrs ndirect =
      update_ne ip.addrs bn ndirect b (λ e. omega arith) in
    record {
      nonzero = Taken-ne t 0 s.boot;
      here = block_of-direct (with_addr bn b ip) r.cache bn lt ∙ update_self ip.addrs bn b;
      others = direct-others bn s lt t;
      old = λ nz. absurd (nz (block_of-direct ip d.cache bn lt ∙ z));
      new = λ zero_block. (t.in_disk, t.was_free, Taken-used t);
      zeroed = λ zero_block. t.zeroed;
      kept = record { keeps = Taken-keeps t; frame = λ y lt' u out ne. Taken-same t y u out };
      sane = record {
        map_used = Taken-MapUsed t s.map_used;
        boot = Taken-boot t s.boot;
        small = s.small;
        indirect_inside =
            λ nz. subst (λ y. y < sb.size) (sym same) (s.indirect_inside (λ e. nz (same ∙ e)));
        indirect_used = λ nz.
            let has : ip.addrs ndirect ≢ 0 = λ e. nz (same ∙ e) in
            ap (used sb r.cache) same
            ∙ Taken-keeps t (ip.addrs ndirect) (s.indirect_inside has) (s.indirect_used has);
        indirect_apart = λ nz. subst (NotMap sb) (sym same) (s.indirect_apart (λ e. nz (same ∙ e)));
      };
      room = t.room;
    }
