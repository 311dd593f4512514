-- ===== src/Examples/Directories.antt =====
-- Files, directories and paths of kernel/fs.c.
use osn.Base.{
  ℕ, ◌<◌, ◌/◌, ◌≡◌, ◌≢◌, refl, sym, subst, [], ◌∷◌, true, false, ◌==◌, ◌&&◌, if◌then◌else◌, arith,
}
use osn.Base.Int.{pos}
use osn.Fs.{Disk, Superblock}
use osn.Fs.Dinode.{Dinode}
use osn.Fs.Itable.{Files}
use osn.Fs.Itable.Unique.{Unique}
use osn.Fs.Content.Bmap.{block_of}
use osn.Fs.Transfer.Reading.{Mapped, Reads, readi-Reads}
use osn.Fs.Transfer.Writing.{Placed}
use osn.Fs.Transfer.Written.{Separate, Writes, writei-Writes}
use osn.Fs.Room.{Room}
use osn.Fs.Dinode.Codec.{Fits}
use osn.Fs.Path.{skipelem}
use osn.Fs.Path.Elements.{Skipped, skipelem-Skipped}
use osn.Fs.Dir.{dirlookup}
use osn.Fs.Dir.Lookup.{Dirlookup, dirlookup-Dirlookup}

abbrev dir_sb : Superblock
dir_sb = record {
  magic = 0;
  size = 8;
  nblocks = 4;
  ninodes = 16;
  nlog = 0;
  logstart = 2;
  inodestart = 2;
  bmapstart = 3;
}

-- Block 4 has one entry: the inode 5 with the name "a".
abbrev dir_disk : Disk
dir_disk = record {
  start = 2;
  size = 30;
  outstanding = pos 1;
  committing = false;
  lh = [];
  disk = λ b i. 0;
  head = [];
  cache = λ b i. if b == 4 && i == 0 then 5 else if b == 4 && i == 2 then 97 else 0;
  pins = λ b. 0;
  writes = 0;
}

abbrev dir_copy : Dinode
dir_copy = record {
  type = 1;
  major = 0;
  minor = 0;
  nlink = 1;
  size = 16;
  addrs = λ i. if i == 0 then 4 else 0;
}

abbrev dir_files : Files
dir_files = record {
  disk = dir_disk;
  inodes = λ i. record {
    dev = 1;
    inum = 1;
    ref = if i == 0 then 1 else 0;
    locked = true;
    valid = true;
    copy = dir_copy;
  };
}

dir-Mapped : Mapped dir_sb 0 dir_files 0 16
unfolding Mapped
dir-Mapped k ge lt =
    let e : k / 1024 ≡ 0 = omega arith in
    subst (λ b. block_of dir_copy dir_disk.cache b ≢ 0) (sym e) (λ z. omega arith)

dir-Mapped_at : Mapped dir_sb 0 dir_files 15 1
unfolding Mapped
dir-Mapped_at k ge lt =
    let e : k / 1024 ≡ 0 = omega arith in
    subst (λ b. block_of dir_copy dir_disk.cache b ≢ 0) (sym e) (λ z. omega arith)

dir-Unique : Unique dir_files
unfolding Unique
dir-Unique i j dev inum li lj ci cj = ground arith

readi_example : Reads dir_sb 0 dir_files 100 2 5 (λ a. 0) 5
unfolding Mapped
readi_example =
    readi-Reads dir_sb 0 dir_files 100 2 5 (λ a. 0) (omega arith) (omega arith) (omega arith)
      (λ k ge lt. dir-Mapped k (omega arith) (omega arith))

dirlookup_example :
    Dirlookup dir_sb 0 dir_files (97 ∷ []) (dirlookup dir_sb 0 (97 ∷ []) dir_files (λ a. 0))
dirlookup_example =
    dirlookup-Dirlookup dir_sb 0 dir_files (97 ∷ []) (λ a. 0)
      (record { is_dir = refl; small = omega arith; whole = refl; mapped = dir-Mapped }) dir-Unique

skipelem_example : Skipped (47 ∷ 97 ∷ 47 ∷ 98 ∷ []) (skipelem (47 ∷ 97 ∷ 47 ∷ 98 ∷ []))
skipelem_example = skipelem-Skipped (47 ∷ 97 ∷ 47 ∷ 98 ∷ [])

dir-Room : Room 2 dir_disk
dir-Room = record { header = omega arith; place = omega arith; inside = refl }

dir-Fits : Fits dir_copy
dir-Fits = record {
  type_fits = omega arith;
  major_fits = omega arith;
  minor_fits = omega arith;
  nlink_fits = omega arith;
  size_fits = omega arith;
  addrs_fit = λ i lt. ground arith;
}

dir_blocks : (k : ℕ) → k < 268 → block_of dir_copy dir_disk.cache k ≡ (if k == 0 then 4 else 0)
dir_blocks k lt = ground arith

dir-Placed : Placed dir_copy dir_disk.cache
dir-Placed = record {
  distinct = λ j k lt lt' has e. ground (arith, dir_blocks j lt, dir_blocks k lt');
  indirect_apart = λ j lt has. has;
}

dir-Separate : Separate (λ a. a) dir_sb 0 dir_files
dir-Separate = record {
  data_apart = λ k lt. ground (arith, dir_blocks k lt);
  link_apart = λ e. omega arith;
}

writei_example : Writes (λ a. a) dir_sb 0 dir_files 70 15 1 0
writei_example =
    writei-Writes (λ a. a) dir_sb 0 dir_files 70 15 1 1 0 (omega arith) (omega arith) (omega arith)
      dir-Fits dir-Placed dir-Separate dir-Mapped_at (dir-Room)
