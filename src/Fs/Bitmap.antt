-- ===== src/Fs/Bitmap.antt =====
-- `balloc` and `bfree` of kernel/fs.c: the free bit map.
pub mod Used
pub mod Alloc
use osn.Base.{
  ℕ, zero, suc, ◌+◌, ◌-◌, ◌*◌, ◌/◌, ◌%◌, ◌≡◌, Option, none, some, Bool, true, false, not, ltb,
  if◌then◌else◌, min, update,
}
use osn.Base.Bits.{test_bit, set_bit, clear_bit}
use osn.File.{Outcome, done, panicked, ◌>>=◌}
use osn.Log.{LogState}
use osn.Fs.{Disk, Block, Superblock, bpb, bblock, modify, bzero}

-- The inner loop of `balloc` at `bi`, with `n` bits to go: the first clear bit of the block.
pub find_clear : Block → ℕ → ℕ → Option ℕ
find_clear bytes bi zero = none
find_clear bytes bi (suc n) =
    if test_bit (bytes (bi / 8)) (bi % 8) then find_clear bytes (bi + 1) n else some bi

-- The block with the bit set or cleared.
pub mark : Block → ℕ → Block
mark bytes bi = update bytes (bi / 8) (set_bit (bytes (bi / 8)) (bi % 8))

pub unmark : Block → ℕ → Block
unmark bytes bi = update bytes (bi / 8) (clear_bit (bytes (bi / 8)) (bi % 8))

-- What `balloc` does with the bit it has found.
pub take_block : Superblock → ℕ → ℕ → Disk → Outcome (Disk × ℕ)
unfolding mark
take_block sb b bi s = do
  s1 ← modify (bblock sb b) (mark (s.cache (bblock sb b)) bi) s
  s2 ← bzero (b + bi) s1
  done (s2, b + bi)

-- The outer loop of `balloc` at `b`, with fuel.
pub balloc_from : ℕ → Superblock → ℕ → Disk → Outcome (Disk × ℕ)
unfolding find_clear take_block
balloc_from zero sb b s = panicked
balloc_from (suc fuel) sb b s = elim (ltb b sb.size) [
  | false ↦ panicked
  | true ↦ elim (find_clear (s.cache (bblock sb b)) 0 (min bpb (sb.size - b))) [
    | some bi ↦ take_block sb b bi s
    | none ↦ balloc_from fuel sb (b + bpb) s
  ]
]

-- Each turn takes a block of the map, so one more than their number is enough fuel.
pub balloc : Superblock → Disk → Outcome (Disk × ℕ)
unfolding balloc_from
balloc sb s = balloc_from (sb.size / bpb + 2) sb 0 s

unfoldable pub bfree : Superblock → ℕ → Disk → Outcome Disk
unfolding unmark
bfree sb b s =
    let bytes = s.cache (bblock sb b) in
    let bi = b % bpb in
    if test_bit (bytes (bi / 8)) (bi % 8)
    then modify (bblock sb b) (unmark bytes bi) s
    else panicked
