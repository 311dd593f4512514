-- ===== src/Examples/Blocks.antt =====
-- Blocks and inodes of kernel/fs.c.
use osn.Base.{
  ℕ, ◌≤◌, ◌<◌, ◌≡◌, ◌⊎◌, refl, sym, subst, [], true, false, ◌==◌, ◌&&◌, if◌then◌else◌, arith,
  ℕ_discrete,
}
use osn.Base.Bits.{test_bit}
use osn.Base.Int.{pos}
use osn.File.{done}
use osn.Fs.{Disk, Block, Superblock, bblock}
use osn.Fs.Room.{Room}
use osn.Fs.Dinode.{Dinode}
use osn.Fs.Dinode.Codec.{Fits}
use osn.Fs.Bitmap.{balloc}
use osn.Fs.Bitmap.Alloc.{Balloc, balloc-Balloc}
use osn.Fs.Bitmap.Used.{used, bit_at, MapUsed}
use osn.Fs.Itable.{Inode, Files, iget, ialloc, iupdate}
use osn.Fs.Itable.Unique.{Unique, Iget, iget-Iget}
use osn.Fs.Itable.Update.{Stored, iupdate-Stored}
use osn.Fs.Itable.Fresh.{Ialloc, ialloc-Ialloc}
use osn.Fs.Content.{bmap}
use osn.Fs.Content.Bmap.{Sane}
use osn.Fs.Content.Bmap.Mapping.{Bmap, bmap-Bmap}
use osn.Fs.Content.Truncate.Whole.{Owned}
use osn.Fs.Inode.{iput}
use osn.Fs.Inode.Put.{Dropped}
use osn.Fs.Inode.Free.{InodesApart, FreedInode}
use osn.Fs.Inode.Last.{is_last, iput_lem}

-- Eight blocks: the inodes are in block 2 and the map is block 3; the first five are in use.
abbrev small_sb : Superblock
small_sb = record {
  magic = 0;
  size = 8;
  nblocks = 4;
  ninodes = 16;
  nlog = 0;
  logstart = 2;
  inodestart = 2;
  bmapstart = 3;
}

abbrev small_cache : ℕ → Block
small_cache b i = if b == 3 && i == 0 then 31 else 0

abbrev small_disk : Disk
small_disk = record {
  start = 2;
  size = 30;
  outstanding = pos 1;
  committing = false;
  lh = [];
  disk = λ b i. 0;
  head = [];
  cache = small_cache;
  pins = λ b. 0;
  writes = 0;
}

small-Room : (n : ℕ) → n ≤ 29 → Room n small_disk
small-Room n le = record { header = omega arith; place = omega arith; inside = refl }

small_map : MapUsed small_sb small_cache
unfolding MapUsed used bit_at test_bit
small_map b lt =
    let e : bblock small_sb b ≡ 3 = omega arith in
    (omega arith, subst (λ x. used small_sb small_cache x ≡ true) (sym e) refl)

balloc_example : Balloc 27 small_sb small_disk (balloc small_sb small_disk)
balloc_example = balloc-Balloc 27 small_sb small_disk (small-Room 29 (omega arith)) small_map

-- A file with block 4 that no directory has.
abbrev small_copy : Dinode
small_copy = record {
  type = 2;
  major = 0;
  minor = 0;
  nlink = 0;
  size = 3;
  addrs = λ i. if i == 0 then 4 else 0;
}

small-Sane : Sane small_sb small_copy small_disk
unfolding used bit_at test_bit
small-Sane = record {
  map_used = small_map;
  boot = refl;
  small = omega arith;
  indirect_inside = λ nz. absurd (nz refl);
  indirect_used = λ nz. absurd (nz refl);
  indirect_apart = λ nz. absurd (nz refl);
}

bmap_example : Bmap small_sb 20 1 small_copy small_disk (bmap small_sb 1 small_copy small_disk)
bmap_example =
    bmap-Bmap small_sb 20 1 small_copy small_disk small-Sane (small-Room 25 (omega arith))

abbrev no_copy : Dinode
no_copy = record { type = 0; major = 0; minor = 0; nlink = 0; size = 0; addrs = λ i. 0 }

abbrev small_inode : Inode
small_inode = record { dev = 1; inum = 1; ref = 1; locked = false; valid = true; copy = small_copy }

abbrev no_inode : Inode
no_inode = record { dev = 0; inum = 0; ref = 0; locked = false; valid = false; copy = no_copy }

-- One reference to that file.
abbrev small_files : Files
small_files = record { disk = small_disk; inodes = λ i. if i == 0 then small_inode else no_inode }

small-Unique : Unique small_files
unfolding Unique
small-Unique i j dev inum li lj ci cj = ground arith

small-Fits : Fits small_copy
small-Fits = record {
  type_fits = omega arith;
  major_fits = omega arith;
  minor_fits = omega arith;
  nlink_fits = omega arith;
  size_fits = omega arith;
  addrs_fit = λ i lt. ground arith;
}

small-Owned : Owned small_sb small_copy small_disk
unfolding used bit_at test_bit
small-Owned = record {
  inhabited = omega arith;
  direct = λ j lt nz. elim (ℕ_discrete j 0) [
    | yes e ↦
        subst
          (λ j. (small_copy.addrs j < 8) × (used small_sb small_cache (small_copy.addrs j) ≡ true))
          (sym e) (omega arith, refl)
    | no ne ↦ absurd (nz (ground arith))
  ];
  distinct = λ j k lt le nz. ground arith;
  indirect = λ nz. absurd (nz refl);
  entries = λ nz. absurd (nz refl);
  entries_distinct = λ nz. absurd (nz refl);
  entries_apart = λ nz. absurd (nz refl);
}

small_apart : InodesApart small_sb
small_apart k lt = omega arith

iput_example :
    (r : Files) × (iput small_sb 0 small_files ≡ done r)
    × Dropped 1 1 small_files r
    × (((is_last small_inode ≡ false) × (r.disk ≡ small_disk))
        ⊎ ((is_last small_inode ≡ true) × FreedInode small_sb 5 small_inode small_disk r.disk))
iput_example =
    iput_lem small_sb 5 0 small_files (omega arith) small_apart small-Unique (omega arith)
      (omega arith)
      (λ last. record {
        inside = omega arith;
        owned = small-Owned;
        fits = small-Fits;
        room = small-Room 8 (omega arith);
      })

iget_example : Iget 1 2 small_files (iget 1 2 small_files)
iget_example = iget-Iget 1 2 small_files small-Unique

ialloc_example : Ialloc small_sb 5 1 2 small_files (ialloc small_sb 1 2 small_files)
ialloc_example =
    ialloc-Ialloc small_sb 5 1 2 small_files (small-Room 6 (omega arith)) (omega arith) small-Unique

iupdate_example :
    (r : Disk) × (iupdate small_sb 0 small_files ≡ done (record small_files { disk = r }))
    × Stored small_sb 5 1 small_copy small_disk r
iupdate_example = iupdate-Stored small_sb 5 0 small_files (small-Room 6 (omega arith)) small-Fits
