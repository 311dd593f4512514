-- ===== src/Fs/Itable/Update.antt =====
-- The dinodes on disk under `iupdate`, `ilock` and `ialloc` of kernel/fs.c.
use osn.Base.{
  ℕ, suc, ◌+◌, ◌%◌, ◌≤◌, ◌<◌, ◌≡◌, ◌≢◌, ◌⊎◌, inl, inr, refl, ap, sym, ◌∙◌, true, false, ◌==◌, ltb,
  if◌then◌else◌, update, update_self, update_ne, arith, dec_lt, Bool-cases, ℕ_discrete, subst,
}
use osn.File.{done, panicked}
use osn.Fs.{Disk, Block, Superblock}
use osn.Fs.Room.{Room, Modified, modify-Modified}
use osn.Fs.Dinode.{Dinode, iblock, ipb, dinode_at, encode, decode}
use osn.Fs.Dinode.Codec.{Fits, SameDinode, decode-encode, decode-encode_apart, Apart}
use osn.Fs.Itable.{Inode, Files, ilock, iupdate}

-- The dinode that the buffer cache has for an inode.
abbrev pub dinode : Superblock → Disk → ℕ → Dinode
dinode sb d inum = decode (d.cache (iblock sb inum)) (dinode_at inum)

-- Only the dinode of `inum` changes, to `d`, and no block but its own.
pub record Stored (sb : Superblock) (n inum : ℕ) (d : Dinode) (s r : Disk) : Type 0 where
  pub stored : SameDinode (dinode sb r inum) d
  pub others : (k : ℕ) → k ≢ inum → SameDinode (dinode sb r k) (dinode sb s k)
  pub blocks : (y : ℕ) → iblock sb inum ≢ y → r.cache y ≡ s.cache y
  pub room : Room n r

same_refl : (d e : Dinode) → d ≡ e → SameDinode d e
same_refl d e h = record {
  type = ap (λ x. x.type) h;
  major = ap (λ x. x.major) h;
  minor = ap (λ x. x.minor) h;
  nlink = ap (λ x. x.nlink) h;
  size = ap (λ x. x.size) h;
  addrs = λ i lt. ap (λ x. x.addrs i) h;
}

slots-Apart :
    (sb : Superblock) (inum k : ℕ)
    → k ≢ inum
    → iblock sb inum ≡ iblock sb k
    → Apart (dinode_at k) 64 (dinode_at inum) 64
slots-Apart sb inum k ne e = elim (dec_lt (k % ipb) (inum % ipb)) [
  | yes lt ↦ inl (omega arith)
  | no ge ↦ inr (apart (omega arith))
]
  where
    apart : inum % ipb < k % ipb → dinode_at inum + 64 ≤ dinode_at k
    apart lt = omega arith

-- A change of the block of an inode that leaves the other inodes of the block.
pub Stored-by :
    (sb : Superblock) (n inum : ℕ) (d : Dinode) (bytes : Block) (s r : Disk)
    → Modified n (iblock sb inum) bytes s r
    → SameDinode (decode bytes (dinode_at inum)) d
    → ((p : ℕ)
        → Apart p 64 (dinode_at inum) 64
        → SameDinode (decode bytes p) (decode (s.cache (iblock sb inum)) p))
    → Stored sb n inum d s r
Stored-by sb n inum d bytes s r m here rest = record {
  stored =
      subst (λ c. SameDinode (decode (c (iblock sb inum)) (dinode_at inum)) d) (sym m.cached)
        (rw (update_self s.cache (iblock sb inum) bytes) here);
  others = λ k ne.
      subst (λ c. SameDinode (decode (c (iblock sb k)) (dinode_at k)) (dinode sb s k))
        (sym m.cached) (other k ne);
  blocks = λ y ne. ap (λ c. c y) m.cached ∙ update_ne s.cache (iblock sb inum) y bytes ne;
  room = m.room;
}
  where
    other :
        (k : ℕ)
        → k ≢ inum
        → SameDinode
            (decode (update s.cache (iblock sb inum) bytes (iblock sb k)) (dinode_at k))
            (dinode sb s k)
    other k ne = elim (ℕ_discrete (iblock sb inum) (iblock sb k)) [
      | no diff ↦
          rw (update_ne s.cache (iblock sb inum) (iblock sb k) bytes diff)
            (same_refl (dinode sb s k) (dinode sb s k) refl)
      | yes e ↦
          subst
            (λ y.
              SameDinode (decode (update s.cache (iblock sb inum) bytes y) (dinode_at k))
                (decode (s.cache y) (dinode_at k)))
            e
            (rw (update_self s.cache (iblock sb inum) bytes)
              (rest (dinode_at k) (slots-Apart sb inum k ne e)))
    ]

-- `iupdate` with room for a block in the log stores exactly the inode, where its fields fit.
pub iupdate-Stored :
    (sb : Superblock) (n i : ℕ) (s : Files)
    → Room (suc n) s.disk
    → Fits (s.inodes i).copy
    → (r : Disk) × (iupdate sb i s ≡ done (record s { disk = r }))
      × Stored sb n (s.inodes i).inum (s.inodes i).copy s.disk r
unfolding iupdate
iupdate-Stored sb n i s room fits =
    let ip = s.inodes i in
    let b = iblock sb ip.inum in
    let bytes = encode (s.disk.cache b) (dinode_at ip.inum) ip.copy in
    let (r, run, m) = modify-Modified n b bytes s.disk room in
    (
      r,
      rw run refl,
      Stored-by sb n ip.inum ip.copy bytes s.disk r m
          (decode-encode (s.disk.cache b) (dinode_at ip.inum) ip.copy fits)
          (decode-encode_apart (s.disk.cache b) (dinode_at ip.inum) ip.copy),
    )

-- What `ilock` leaves of the inode at slot `i` of the table: its lock is held, and it has the dinode.
pub record Locked (sb : Superblock) (i : ℕ) (s r : Files) : Type 0 where
  pub locked : (r.inodes i).locked ≡ true
  pub valid : (r.inodes i).valid ≡ true
  pub copy :
      (r.inodes i).copy
      ≡ (if (s.inodes i).valid then (s.inodes i).copy else dinode sb s.disk (s.inodes i).inum)
  pub same_ref : (r.inodes i).ref ≡ (s.inodes i).ref
  pub same_inum : (r.inodes i).inum ≡ (s.inodes i).inum
  pub others : (j : ℕ) → i ≢ j → r.inodes j ≡ s.inodes j
  pub same_disk : r.disk ≡ s.disk

-- The table with the new inode at its slot.
put_inode : ℕ → Inode → Files → Files
put_inode i v s = record s { inodes = update s.inodes i v }

put_inode-Locked :
    (sb : Superblock) (i : ℕ) (v : Inode) (s : Files)
    → v.locked ≡ true
    → v.valid ≡ true
    → v.copy
      ≡ (if (s.inodes i).valid then (s.inodes i).copy else dinode sb s.disk (s.inodes i).inum)
    → v.ref ≡ (s.inodes i).ref
    → v.inum ≡ (s.inodes i).inum
    → Locked sb i s (put_inode i v s)
unfolding put_inode
put_inode-Locked sb i v s l va c r n =
    let self = update_self s.inodes i v in
    record {
      locked = ap (λ x. x.locked) self ∙ l;
      valid = ap (λ x. x.valid) self ∙ va;
      copy = ap (λ x. x.copy) self ∙ c;
      same_ref = ap (λ x. x.ref) self ∙ r;
      same_inum = ap (λ x. x.inum) self ∙ n;
      others = λ j ne. update_ne s.inodes i j v ne;
      same_disk = refl;
    }

-- `ilock` of an inode with a reference takes its lock and reads its dinode where it has not been read yet; it panics
-- exactly where nothing refers to the inode, or the dinode that it reads is free.
pub ilock-Locked :
    (sb : Superblock) (i : ℕ) (s : Files)
    → ((r : Files) × (ilock sb i s ≡ done r) × Locked sb i s r)
      ⊎ ((ilock sb i s ≡ panicked)
          × (((s.inodes i).ref ≡ 0)
              ⊎ (((s.inodes i).valid ≡ false) × ((dinode sb s.disk (s.inodes i).inum).type ≡ 0))))
unfolding ilock put_inode
ilock-Locked sb i s = elim (Bool-cases (ltb ip.ref 1)) [
  | inl none_left ↦ inr (rw none_left refl, inl (ground arith))
  | inr held ↦ elim (Bool-cases ip.valid) [
    | inl valid ↦ inl (
      put_inode i (record ip { locked = true }) s,
      rw (held, valid) refl,
      put_inode-Locked sb i (record ip { locked = true }) s refl valid (rw valid refl) refl refl,
    )
    | inr invalid ↦ elim (Bool-cases ((dinode sb s.disk ip.inum).type == 0)) [
      | inl free ↦ inr (rw (held, invalid, free) refl, inr (invalid, ground arith))
      | inr typed ↦ inl (
        put_inode i v s,
        rw (held, invalid, typed) refl,
        put_inode-Locked sb i v s refl refl (rw invalid refl) refl refl,
      )
    ]
  ]
]
  where
    ip : Inode
    ip = s.inodes i

    v : Inode
    v = record ip { locked = true; valid = true; copy = dinode sb s.disk ip.inum }
