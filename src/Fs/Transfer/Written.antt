-- ===== src/Fs/Transfer/Written.antt =====
-- `writei` of kernel/fs.c from the kernel's memory, as a whole.
use osn.Base.{
  ℕ, suc, ◌+◌, ◌-◌, ◌*◌, ◌^◌, ◌/◌, ◌%◌, ◌≤◌, ◌<◌, ◌≡◌, ◌≢◌, inl, inr, refl, ap, sym, ◌∙◌, subst,
  some, true, false, not, ◌&&◌, ◌||◌, ltb, ◌==◌, if◌then◌else◌, update_self, arith, Bool-cases,
}
use osn.Base.Word.{add32}
use osn.File.{done}
use osn.Fs.{Disk, Superblock, bsize}
use osn.Fs.Room.{Room}
use osn.Fs.Dinode.{Dinode, ndirect, iblock, load32}
use osn.Fs.Dinode.Codec.{Fits, SameDinode}
use osn.Fs.Itable.{Inode, Files, iupdate}
use osn.Fs.Itable.Update.{Stored, iupdate-Stored, dinode}
use osn.Fs.Content.{nindirect}
use osn.Fs.Content.Bmap.{block_of}
use osn.Fs.Inode.{with_inode}
use osn.Fs.Transfer.{write_chunks, finish_write, writei, max_bytes, kernel_copyin}
use osn.Fs.Transfer.Reading.{Mapped, byte_of}
use osn.Fs.Transfer.Writing.{Placed, Written, write_all_lem}

-- The dinode after a write that ends at `off`.
abbrev pub grown : ℕ → Dinode → Dinode
grown off d = record d { size = if ltb d.size off then off else d.size }

grown-Fits : (off : ℕ) (d : Dinode) → off < 2 ^ 32 → Fits d → Fits (grown off d)
grown-Fits off d lt f = record {
  type_fits = f.type_fits;
  major_fits = f.major_fits;
  minor_fits = f.minor_fits;
  nlink_fits = f.nlink_fits;
  size_fits = ground (arith, f.size_fits);
  addrs_fit = f.addrs_fit;
}

-- What follows the loop leaves this.
record Finished (sb : Superblock) (i off n : ℕ) (x y : Files) : Type 0 where
  copy : (y.inodes i).copy ≡ grown off (x.inodes i).copy
  stored : Stored sb n (x.inodes i).inum (grown off (x.inodes i).copy) x.disk y.disk

finish_write-past :
    (m : ℕ → ℕ) (sb : Superblock) (i off : ℕ) (x : Files)
    → ltb (x.inodes i).copy.size off ≡ true
    → finish_write (kernel_copyin m) sb i off x
      ≡ iupdate sb i (with_inode i (record (x.inodes i) { copy = grown off (x.inodes i).copy }) x)
unfolding finish_write
finish_write-past m sb i off x past = rw past refl

finish_write-Finished :
    (m : ℕ → ℕ) (sb : Superblock) (i off n : ℕ) (x : Files)
    → off < 2 ^ 32
    → Room (suc n) x.disk
    → Fits (x.inodes i).copy
    → (y : Files) × (finish_write (kernel_copyin m) sb i off x ≡ done y) × Finished sb i off n x y
unfolding finish_write
finish_write-Finished m sb i off n x lt room fits =
    elim (Bool-cases (ltb (x.inodes i).copy.size off)) [
      | inl past ↦
          let ip : Inode = record (x.inodes i) { copy = grown off (x.inodes i).copy } in
          let e : (with_inode i ip x).inodes i ≡ ip = update_self x.inodes i ip in
          let (d, run, st) =
            iupdate-Stored sb n i (with_inode i ip x) room
              (subst (λ z. Fits z.copy) (sym e) (grown-Fits off (x.inodes i).copy lt fits)) in
          (
            record (with_inode i ip x) { disk = d },
            finish_write-past m sb i off x past ∙ run,
            record {
              copy = ap (λ z. z.copy) e;
              stored = subst (λ z. Stored sb n z.inum z.copy x.disk d) e st;
            },
          )
      | inr within ↦
          let same : (x.inodes i).copy ≡ grown off (x.inodes i).copy = rw within refl in
          let (d, run, st) = iupdate-Stored sb n i x room fits in
          (
            record x { disk = d },
            rw within run,
            record {
              copy = same;
              stored = subst (λ z. Stored sb n (x.inodes i).inum z x.disk d) same st;
            },
          )
    ]

module _ (m : ℕ → ℕ) (sb : Superblock) (i : ℕ) (s : Files) where
  -- The block of the inode is no block of the file.
  pub record Separate : Type 0 where
    pub data_apart :
        (k : ℕ)
        → k < ndirect + nindirect
        → iblock sb (s.inodes i).inum ≢ block_of (s.inodes i).copy s.disk.cache k
    pub link_apart : iblock sb (s.inodes i).inum ≢ (s.inodes i).copy.addrs ndirect

  -- What a write of `n` bytes from `src` at `off` leaves, with room for `r` more blocks in the log.
  pub record Writes (src off n r : ℕ) : Type 0 where
    pub after : Files
    pub run : writei (kernel_copyin m) sb i src off n s ≡ done (after, some n)
    pub bytes :
        (k : ℕ)
        → k < max_bytes
        → byte_of (after.inodes i).copy after.disk.cache k ≡ (
            if not (ltb k off) && ltb k (off + n)
            then m (src + (k - off))
            else byte_of (s.inodes i).copy s.disk.cache k)
    pub copy : (after.inodes i).copy ≡ grown (off + n) (s.inodes i).copy
    pub stored : SameDinode (dinode sb after.disk (s.inodes i).inum) (after.inodes i).copy
    pub frame :
        (y : ℕ)
        → ((k : ℕ) → k < ndirect + nindirect → block_of (s.inodes i).copy s.disk.cache k ≢ y)
        → iblock sb (s.inodes i).inum ≢ y
        → after.disk.cache y ≡ s.disk.cache y
    pub room : Room r after.disk

  Writes-by :
      (src off n r : ℕ) (d : Disk) (y : Files)
      → writei (kernel_copyin m) sb i src off n s ≡ done (y, some n)
      → Separate
      → Written m (s.inodes i).copy off src n s.disk d
      → Finished sb i (off + n) r (record s { disk = d }) y
      → Writes src off n r
  Writes-by src off n r d y run apart w fin =
      let ip = (s.inodes i).copy in
      let same : (b : ℕ) → block_of ip y.disk.cache b ≡ block_of ip d.cache b = λ b.
        ap
          (λ x.
            if ltb b ndirect
            then ip.addrs b
            else if ip.addrs ndirect == 0
            then 0
            else load32 x (4 * (b - ndirect)))
          (fin.stored.blocks (ip.addrs ndirect) apart.link_apart) in
      record {
        after = y;
        run = run;
        bytes = λ k lt.
            ap (λ z. byte_of z y.disk.cache k) fin.copy
            ∙ (ap (λ x. y.disk.cache x (k % bsize)) (same (k / bsize))
                ∙ (ap (λ f. f (k % bsize))
                      (fin.stored.blocks (block_of ip d.cache (k / bsize)) (λ e.
                        apart.data_apart (k / bsize) (omega arith) (e ∙ w.same_blocks (k / bsize))))
                    ∙ w.bytes k lt));
        copy = fin.copy;
        stored =
            subst (λ z. SameDinode (dinode sb y.disk (s.inodes i).inum) z) (sym fin.copy)
              fin.stored.stored;
        frame = λ x out ne. fin.stored.blocks x ne ∙ w.frame x out;
        room = fin.stored.room;
      }

  writei-run :
      (src off n : ℕ) (d : Disk) (y : Files)
      → off ≤ (s.inodes i).copy.size
      → off + n ≤ max_bytes
      → write_chunks (kernel_copyin m) n sb i 0 n off src s
        ≡ done (record s { disk = d }, n, off + n)
      → finish_write (kernel_copyin m) sb i (off + n) (record s { disk = d }) ≡ done y
      → writei (kernel_copyin m) sb i src off n s ≡ done (y, some n)
  unfolding writei
  writei-run src off n d y le small run last =
      let begins : (ltb (s.inodes i).copy.size off || ltb (add32 off n) off) ≡ false =
        ground arith in
      let fits_file : ltb max_bytes (add32 off n) ≡ false = ground arith in
      rw begins (rw fits_file (rw run (rw last refl)))

  -- `writei` of `n` bytes from `src` of the kernel's memory at `off`, which is within the file, with `off + n` within the
  -- largest file, an inode whose fields fit their widths on disk, blocks for these bytes that the file has and that
  -- differ from each other, from the indirect block and from the inode's block, and room in the log for them and the
  -- inode's block, returns `n`: the file has the bytes of the memory from `off` to `off + n` and its old bytes elsewhere,
  -- its size is the larger of the old one and `off + n`, the dinode on the buffer of the inode's block is the inode in
  -- memory, and no other block changes.
  pub writei-Writes :
      (src off n blocks r : ℕ)
      → off ≤ (s.inodes i).copy.size
      → off + n ≤ max_bytes
      → off % bsize + n ≤ blocks * bsize
      → Fits (s.inodes i).copy
      → Placed (s.inodes i).copy s.disk.cache
      → Separate
      → Mapped sb i s off n
      → Room (blocks + suc r) s.disk
      → Writes src off n r
  writei-Writes src off n blocks r le small cover fits placed apart mapped room =
      let (d, run, w, room1) =
        write_all_lem m sb i n off src blocks (suc r) s small cover placed mapped room in
      let (y, last, fin) =
        finish_write-Finished m sb i (off + n) r (record s { disk = d }) (omega arith) room1 fits in
      Writes-by src off n r d y (writei-run src off n d y le small run last) apart w fin
