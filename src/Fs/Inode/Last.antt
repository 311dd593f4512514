-- ===== src/Fs/Inode/Last.antt =====
-- `iput` of kernel/fs.c, whichever reference it gives back.
use osn.Base.{
  ℕ, suc, ◌≤◌, ◌<◌, ◌≡◌, ◌⊎◌, inl, inr, refl, sym, subst, Bool, true, false, ◌==◌, ◌&&◌, Bool-cases,
}
use osn.File.{done}
use osn.Fs.{Disk, Superblock, bblock, bpb}
use osn.Fs.Room.{RoomFor}
use osn.Fs.Dinode.Codec.{Fits}
use osn.Fs.Itable.{Inode, Files, ninode}
use osn.Fs.Itable.Unique.{Unique}
use osn.Fs.Content.Truncate.Whole.{Owned}
use osn.Fs.Inode.{iput, drop_ref}
use osn.Fs.Inode.Put.{Dropped, Dropped-SameKeys, drop_ref-Dropped, Unique-SameKeys}
use osn.Fs.Inode.Free.{InodesApart, FreedInode, free_inode-FreedInode}

-- The last reference to an inode that has been read and that no directory has.
abbrev pub is_last : Inode → Bool
is_last ip = ip.ref == 1 && (ip.valid && ip.copy.nlink == 0)

-- What freeing the inode relies on: it owns its blocks, and the log has room.
pub record Freeable (sb : Superblock) (n : ℕ) (ip : Inode) (d : Disk) : Type 0 where
  pub inside : ip.inum < sb.ninodes
  pub owned : Owned sb ip.copy d
  pub fits : Fits ip.copy
  pub room : RoomFor (suc n) (bblock sb 0) d

-- Take a disk whose bitmap is one block, which holds no inodes, a table whose entries in use are of different inodes, and
-- an entry in use, which, where it is the last reference to an inode that has been read and that no directory has, is an
-- inode of the disk that owns its blocks, with fields that fit their widths on disk and with room in the log. `iput`
-- does not panic and gives back one reference, with the table as it is for the other inodes. In the case of such a last
-- reference it frees the inode's blocks and its dinode, and only those; otherwise the disk does not change.
pub iput_lem :
    (sb : Superblock) (n i : ℕ) (s : Files)
    → sb.size ≤ bpb
    → InodesApart sb
    → Unique s
    → i < ninode
    → 0 < (s.inodes i).ref
    → (is_last (s.inodes i) ≡ true → Freeable sb n (s.inodes i) s.disk)
    → (r : Files) × (iput sb i s ≡ done r)
      × Dropped (s.inodes i).dev (s.inodes i).inum s r
      × (((is_last (s.inodes i) ≡ false) × (r.disk ≡ s.disk))
          ⊎ ((is_last (s.inodes i) ≡ true) × FreedInode sb n (s.inodes i) s.disk r.disk))
unfolding iput drop_ref
iput_lem sb n i s one apart uniq lt pos free = elim (Bool-cases (is_last (s.inodes i))) [
  | inr more ↦ (drop_ref i s, rw more refl, drop_ref-Dropped i s uniq lt pos, inl (more, refl))
  | inl last ↦
      let f = free last in
      let (r, run, freed, keys) =
        free_inode-FreedInode sb one apart n i s f.inside f.owned f.fits f.room in
      let (dev, inum, ref) = keys i in
      let pos' : 0 < (r.inodes i).ref = subst (λ x. 0 < x) (sym ref) pos in
      let d = drop_ref-Dropped i r (Unique-SameKeys s r keys uniq) lt pos' in
      let d' : Dropped (s.inodes i).dev (s.inodes i).inum r (drop_ref i r) =
        subst (λ x. Dropped x (s.inodes i).inum r (drop_ref i r)) dev
          (subst (λ x. Dropped (r.inodes i).dev x r (drop_ref i r)) inum d) in
      (
        drop_ref i r,
        rw last (rw run refl),
        Dropped-SameKeys (s.inodes i).dev (s.inodes i).inum s r (drop_ref i r) keys d',
        inr (last, freed),
      )
]
