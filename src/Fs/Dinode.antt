-- ===== src/Fs/Dinode.antt =====
-- `struct dinode` of kernel/fs.h in its block, and the copies between it and the inode in memory that `iupdate` and
-- `ilock` of kernel/fs.c make. A short is given by its bit pattern.
pub mod Codec
use osn.Base.{ℕ, zero, suc, ◌+◌, ◌*◌, ◌/◌, ◌%◌, update}
use osn.Fs.{Block, Superblock}

abbrev pub ndirect : ℕ
ndirect = 12

abbrev pub ipb : ℕ
ipb = 16

-- `IBLOCK`
abbrev pub iblock : Superblock → ℕ → ℕ
iblock sb inum = inum / ipb + sb.inodestart

-- The fields that `struct inode` and `struct dinode` share.
pub record Dinode : Type 0 where
  pub type : ℕ
  pub major : ℕ
  pub minor : ℕ
  pub nlink : ℕ
  pub size : ℕ
  pub addrs : ℕ → ℕ

-- The little-endian loads and stores of a short and a `uint`.
unfoldable pub load16 : Block → ℕ → ℕ
load16 bytes o = bytes o + 256 * bytes (o + 1)

pub store16 : Block → ℕ → ℕ → Block
store16 bytes o v = update (update bytes o (v % 256)) (o + 1) (v / 256 % 256)

unfoldable pub load32 : Block → ℕ → ℕ
unfolding load16
load32 bytes o = load16 bytes o + 65536 * load16 bytes (o + 2)

pub store32 : Block → ℕ → ℕ → Block
unfolding store16
store32 bytes o v = store16 (store16 bytes o v) (o + 2) (v / 65536)

-- `memmove` of the first `n` words of `addrs` to offset `o`.
pub store_words : Block → ℕ → ℕ → (ℕ → ℕ) → Block
unfolding store32
store_words bytes o zero addrs = bytes
store_words bytes o (suc n) addrs = store32 (store_words bytes o n addrs) (o + 4 * n) (addrs n)

-- The offset of `(struct dinode*)bp->data + inum%IPB`.
abbrev pub dinode_at : ℕ → ℕ
dinode_at inum = 64 * (inum % ipb)

-- The copy of `iupdate`.
pub encode : Block → ℕ → Dinode → Block
unfolding store_words
encode bytes o d =
    store_words
      (store32
        (store16 (store16 (store16 (store16 bytes o d.type) (o + 2) d.major) (o + 4) d.minor)
          (o + 6) d.nlink)
        (o + 8) d.size)
      (o + 12) (ndirect + 1) d.addrs

-- The copy of `ilock`.
unfoldable pub decode : Block → ℕ → Dinode
unfolding load32
decode bytes o = record {
  type = load16 bytes o;
  major = load16 bytes (o + 2);
  minor = load16 bytes (o + 4);
  nlink = load16 bytes (o + 6);
  size = load32 bytes (o + 8);
  addrs = λ i. load32 bytes (o + 12 + 4 * i);
}
