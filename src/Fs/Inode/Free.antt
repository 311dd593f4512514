-- ===== src/Fs/Inode/Free.antt =====
-- What `iput` of kernel/fs.c does with the last reference to an inode that no directory has.
use osn.Base.{
  ℕ, suc, ◌^◌, ◌≤◌, ◌<◌, ◌≡◌, ◌≢◌, inl, inr, refl, ap, sym, ◌∙◌, true, false, if◌then◌else◌, update,
  update_self, arith, Bool-cases, subst,
}
use osn.File.{done}
use osn.Log.{among}
use osn.Fs.{Disk, Superblock, bblock, bpb}
use osn.Fs.Room.{Room, RoomFor}
use osn.Fs.Dinode.{Dinode, ndirect, iblock, dinode_at, decode}
use osn.Fs.Dinode.Codec.{Fits, SameDinode}
use osn.Fs.Bitmap.Used.{used}
use osn.Fs.Itable.{Inode, Files, iupdate}
use osn.Fs.Itable.Update.{dinode, Stored, iupdate-Stored}
use osn.Fs.Content.Truncate.{Lost}
use osn.Fs.Content.Truncate.Whole.{Owned, owns, Truncated, truncate-Truncated}
use osn.Fs.Inode.{with_inode, itrunc, free_inode}
use osn.Fs.Inode.Put.{SameKeys, SameKeys-with, SameKeys-trans}

RoomFor-Room : (n b : ℕ) (s : Disk) → RoomFor n b s → Room (suc n) s
RoomFor-Room n b s h = elim (Bool-cases (among b s.lh)) [
  | inl old ↦ subst (λ t. Room (if t then suc n else suc (suc n)) s) old h
  | inr new ↦
      let h' : Room (suc (suc n)) s =
        subst (λ t. Room (if t then suc n else suc (suc n)) s) new h in
      record {
        header = omega (arith, h'.header);
        place = omega (arith, h'.place);
        inside = h'.inside;
      }
]

iupdate-at :
    (sb : Superblock) (n i : ℕ) (s : Files) (ip : Inode)
    → s.inodes i ≡ ip
    → Room (suc n) s.disk
    → Fits ip.copy
    → (r : Disk) × (iupdate sb i s ≡ done (record s { disk = r }))
      × Stored sb n ip.inum ip.copy s.disk r
iupdate-at sb n i s ip e room fits =
    let (r, run, st) = iupdate-Stored sb n i s room (subst (λ x. Fits x.copy) (sym e) fits) in
    (r, run, subst (λ x. Stored sb n x.inum x.copy s.disk r) e st)

-- The blocks of inodes are none of the map.
abbrev pub InodesApart : Superblock → Type 0
InodesApart sb = (k : ℕ) → k < sb.ninodes → iblock sb k ≢ bblock sb 0

-- The blocks of the inode are free, its dinode is, and the other dinodes and bits are as they were.
pub record FreedInode (sb : Superblock) (n : ℕ) (ip : Inode) (d r : Disk) : Type 0 where
  pub blocks :
      (x : ℕ)
      → x < sb.size
      → used sb r.cache x ≡ (if owns ip.copy d.cache x then false else used sb d.cache x)
  pub freed : (dinode sb r ip.inum).type ≡ 0
  pub others : (k : ℕ) → k < sb.ninodes → k ≢ ip.inum → SameDinode (dinode sb r k) (dinode sb d k)
  pub room : Room n r

SameDinode-trans : {a b c : Dinode} → SameDinode a b → SameDinode b c → SameDinode a c
SameDinode-trans f g = record {
  type = f.type ∙ g.type;
  major = f.major ∙ g.major;
  minor = f.minor ∙ g.minor;
  nlink = f.nlink ∙ g.nlink;
  size = f.size ∙ g.size;
  addrs = λ i lt. f.addrs i lt ∙ g.addrs i lt;
}

same_block :
    (sb : Superblock) (c c' : ℕ → ℕ → ℕ) (k : ℕ)
    → c (iblock sb k) ≡ c' (iblock sb k)
    → SameDinode (decode (c (iblock sb k)) (dinode_at k)) (decode (c' (iblock sb k)) (dinode_at k))
same_block sb c c' k e = record {
  type = ap (λ b. (decode b (dinode_at k)).type) e;
  major = ap (λ b. (decode b (dinode_at k)).major) e;
  minor = ap (λ b. (decode b (dinode_at k)).minor) e;
  nlink = ap (λ b. (decode b (dinode_at k)).nlink) e;
  size = ap (λ b. (decode b (dinode_at k)).size) e;
  addrs = λ i lt. ap (λ b. (decode b (dinode_at k)).addrs i) e;
}

-- The fields of an inode with no blocks fit.
Fits-empty :
    (d e : Dinode) (t : ℕ)
    → Fits d
    → t < 2 ^ 16
    → e ≡ record d { type = t; size = 0; addrs = e.addrs }
    → ((j : ℕ) → j ≤ ndirect → e.addrs j ≡ 0)
    → Fits e
Fits-empty d e t f lt same none_left = record {
  type_fits = subst (λ x. x < 2 ^ 16) (sym (ap (λ x. x.type) same)) lt;
  major_fits = subst (λ x. x < 2 ^ 16) (sym (ap (λ x. x.major) same)) f.major_fits;
  minor_fits = subst (λ x. x < 2 ^ 16) (sym (ap (λ x. x.minor) same)) f.minor_fits;
  nlink_fits = subst (λ x. x < 2 ^ 16) (sym (ap (λ x. x.nlink) same)) f.nlink_fits;
  size_fits = subst (λ x. x < 2 ^ 32) (sym (ap (λ x. x.size) same)) (omega arith);
  addrs_fit = λ j lt'. subst (λ x. x < 2 ^ 32) (sym (none_left j (omega arith))) (omega arith);
}

cleared_copy : Dinode → Dinode
cleared_copy d = record d { type = 0 }

-- Two stores of the same inode keep what one does not touch.
used-Stored :
    (sb : Superblock) (n inum x : ℕ) (c : Dinode) (d r : Disk)
    → sb.size ≤ bpb
    → iblock sb inum ≢ bblock sb 0
    → x < sb.size
    → Stored sb n inum c d r
    → used sb r.cache x ≡ used sb d.cache x
unfolding used
used-Stored sb n inum x c d r one apart lt st =
    let same : bblock sb 0 ≡ bblock sb x = omega arith in
    rw (st.blocks (bblock sb x) (λ e. apart (e ∙ sym same))) refl

disk-FreedInode :
    (sb : Superblock) (n : ℕ) (ip : Inode) (c1 c2 : Dinode) (d d1 d2 d3 : Disk)
    → sb.size ≤ bpb
    → InodesApart sb
    → ip.inum < sb.ninodes
    → Lost sb (suc n) (owns ip.copy d.cache) d d1
    → Stored sb (suc n) ip.inum c1 d1 d2
    → Stored sb n ip.inum c2 d2 d3
    → c2.type ≡ 0
    → FreedInode sb n ip d d3
disk-FreedInode sb n ip c1 c2 d d1 d2 d3 one apart lt l st1 st2 z = record {
  blocks = λ x lt'.
      used-Stored sb n ip.inum x c2 d2 d3 one (apart ip.inum lt) lt' st2
      ∙ (used-Stored sb (suc n) ip.inum x c1 d1 d2 one (apart ip.inum lt) lt' st1 ∙ l.free x);
  freed = st2.stored.type ∙ z;
  others = λ k lt' ne. SameDinode-trans (st2.others k ne) (
      SameDinode-trans (st1.others k ne)
        (same_block sb d1.cache d.cache k (l.others (iblock sb k) (apart k lt'))));
  room = st2.room;
}

module _ (sb : Superblock) (one : sb.size ≤ bpb) (apart : InodesApart sb) (n i : ℕ) (s : Files)
    (inside : (s.inodes i).inum < sb.ninodes) (owned : Owned sb (s.inodes i).copy s.disk)
    (fits : Fits (s.inodes i).copy) (room : RoomFor (suc n) (bblock sb 0) s.disk) where
  -- `itrunc` of the inode, with its lock held or not.
  itrunc-at :
      (t : Files) (ip : Inode)
      → t.inodes i ≡ ip
      → t.disk ≡ s.disk
      → ip.copy ≡ (s.inodes i).copy
      → (c : Dinode) × (d1 d2 : Disk) × (itrunc sb i t
          ≡ done (record t { disk = d2; inodes = update t.inodes i (record ip { copy = c }) }))
        × Truncated sb (suc n) (s.inodes i).copy s.disk c d1
        × Stored sb (suc n) ip.inum c d1 d2
  unfolding itrunc
  itrunc-at t ip e de ce =
      let (c, d1, run, tr) =
        truncate-Truncated {extra = suc n} sb one (s.inodes i).copy s.disk owned room in
      let t1 : Files = record t {
        disk = d1;
        inodes = update t.inodes i (record ip { copy = c });
      } in
      let fit =
        Fits-empty (s.inodes i).copy c (s.inodes i).copy.type fits fits.type_fits tr.same
          tr.no_addrs in
      let (d2, run2, st) =
        iupdate-at sb (suc n) i t1 (record ip { copy = c })
          (update_self t.inodes i (record ip { copy = c }))
          (RoomFor-Room (suc n) (bblock sb 0) d1 tr.lost.room) fit in
      (c, d1, d2, rw (e, ce, de) (rw run run2), tr, st)

  pub free_inode-FreedInode :
      (r : Files) × (free_inode sb i s ≡ done r)
      × FreedInode sb n (s.inodes i) s.disk r.disk
      × SameKeys s r
  unfolding free_inode cleared_copy
  free_inode-FreedInode =
      let ip = s.inodes i in
      let ipl = record ip { locked = true } in
      let s0 = with_inode i ipl s in
      let (c, d1, d2, run1, tr, st1) = itrunc-at s0 ipl (update_self s.inodes i ipl) refl refl in
      let s1 : Files = record s0 {
        disk = d2;
        inodes = update s0.inodes i (record ipl { copy = c });
      } in
      let e1 : s1.inodes i ≡ record ipl { copy = c } =
        update_self s0.inodes i (record ipl { copy = c }) in
      let ip2 : Inode = record (s1.inodes i) { copy = record (s1.inodes i).copy { type = 0 } } in
      let s2 = with_inode i ip2 s1 in
      let type_fits : 0 < 2 ^ 16 = omega arith in
      let same2 : ip2.copy ≡ record ip.copy { type = 0; size = 0; addrs = ip2.copy.addrs } =
        subst
          (λ (x : Inode).
            cleared_copy x.copy ≡ record ip.copy { type = 0; size = 0; addrs = x.copy.addrs })
          (sym e1) (ap {A = Dinode} cleared_copy tr.same) in
      let fit2 =
        Fits-empty ip.copy ip2.copy 0 fits type_fits same2
          (λ j le. ap (λ x. x.copy.addrs j) e1 ∙ tr.no_addrs j le) in
      let (d3, run2, st2) = iupdate-at sb n i s2 ip2 (update_self s1.inodes i ip2) st1.room fit2 in
      let s3 : Files = record s2 { disk = d3 } in
      let ip4 : Inode = record (s3.inodes i) { valid = false; locked = false } in
      let st2' : Stored sb n ip.inum ip2.copy d2 d3 =
        subst (λ x. Stored sb n x ip2.copy d2 d3) (ap (λ x. x.inum) e1) st2 in
      let k0 = SameKeys-with i ipl s refl refl refl in
      let k1 : SameKeys s0 s1 =
        let e0 = update_self s.inodes i ipl in
        SameKeys-with i (record ipl { copy = c }) s0 (ap (λ x. x.dev) (sym e0))
          (ap (λ x. x.inum) (sym e0)) (ap (λ x. x.ref) (sym e0)) in
      let k2 = SameKeys-with i ip2 s1 refl refl refl in
      let k4 = SameKeys-with i ip4 s3 refl refl refl in
      (
        with_inode i ip4 s3,
        rw run1 (rw run2 refl),
        disk-FreedInode sb n ip c ip2.copy s.disk d1 d2 d3 one apart inside tr.lost st1 st2' refl,
        SameKeys-trans s s0 (with_inode i ip4 s3) k0 (
            SameKeys-trans s0 s1 (with_inode i ip4 s3) k1
              (SameKeys-trans s1 s3 (with_inode i ip4 s3) k2 k4)),
      )
