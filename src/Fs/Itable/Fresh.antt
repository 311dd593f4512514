-- ===== src/Fs/Itable/Fresh.antt =====
-- `ialloc` of kernel/fs.c and the dinode that it makes.
use osn.Base.{
  ℕ, zero, suc, ◌+◌, ◌-◌, ◌*◌, ◌^◌, ◌≤◌, ◌<◌, ◌≡◌, ◌≢◌, ◌⊎◌, inl, inr, ap, ap₂, sym, ◌∙◌, true,
  false, not, ◌==◌, ◌&&◌, ltb, if◌then◌else◌, arith, Bool-cases, ℕ_discrete, subst,
}
use osn.File.{Outcome, done, panicked, ◌>>=◌}
use osn.Fs.{Disk, Block, Superblock, modify}
use osn.Fs.Room.{Room, modify-Modified}
use osn.Fs.Dinode.{Dinode, iblock, dinode_at, decode, load16, load32, store16}
use osn.Fs.Dinode.Codec.{SameDinode, Apart, load16-store16, load16-store16-Apart}
use osn.Fs.Itable.{Files, ninode, iget, ialloc, ialloc_from, fresh_dinode}
use osn.Fs.Itable.Update.{dinode, Stored, Stored-by}
use osn.Fs.Itable.Unique.{no_inodes, got, Referenced, Iget, iget-Iget, Unique}

-- The dinode of a file that has just been made.
abbrev pub new_dinode : ℕ → Dinode
new_dinode type = record { type = type; major = 0; minor = 0; nlink = 0; size = 0; addrs = λ i. 0 }

cleared : Block → ℕ → Block
cleared bytes o j = if not (ltb j o) && ltb j (o + 64) then 0 else bytes j

load16-cleared : (bytes : Block) (o p : ℕ) → o ≤ p → p + 2 ≤ o + 64 → load16 (cleared bytes o) p ≡ 0
unfolding load16 cleared
load16-cleared bytes o p ge le = ground arith

load16-cleared-Apart :
    (bytes : Block) (o p : ℕ) → Apart p 2 o 64 → load16 (cleared bytes o) p ≡ load16 bytes p
unfolding load16 cleared
load16-cleared-Apart bytes o p h = ground arith

fresh_dinode-new :
    (bytes : Block) (o type : ℕ)
    → type < 2 ^ 16
    → SameDinode (decode (fresh_dinode bytes o type) o) (new_dinode type)
unfolding fresh_dinode decode load32 cleared
fresh_dinode-new bytes o type fits =
    let zero16 : (p : ℕ)
        → o + 2 ≤ p
        → p + 2 ≤ o + 64
        → load16 (store16 (cleared bytes o) o type) p ≡ 0 =
      λ p ge le.
        load16-store16-Apart (cleared bytes o) o p type (ground arith)
        ∙ load16-cleared bytes o p (omega arith) le in
    let zero32 : (p : ℕ)
        → o + 2 ≤ p
        → p + 4 ≤ o + 64
        → load32 (store16 (cleared bytes o) o type) p ≡ 0 =
      λ p ge le.
        ap₂ (λ a b. a + 65536 * b) (zero16 p ge (omega arith))
          (zero16 (p + 2) (omega arith) (omega arith)) in
    record {
      type = load16-store16 (cleared bytes o) o type fits;
      major = zero16 (o + 2) (omega arith) (omega arith);
      minor = zero16 (o + 4) (omega arith) (omega arith);
      nlink = zero16 (o + 6) (omega arith) (omega arith);
      size = zero32 (o + 8) (omega arith) (omega arith);
      addrs = λ i lt. zero32 (o + 12 + 4 * i) (omega arith) (omega arith);
    }

fresh_dinode-apart :
    (bytes : Block) (o type p : ℕ)
    → Apart p 64 o 64
    → SameDinode (decode (fresh_dinode bytes o type) p) (decode bytes p)
unfolding fresh_dinode decode load32 cleared
fresh_dinode-apart bytes o type p h =
    let same16 : (q : ℕ)
        → Apart q 2 o 64
        → load16 (store16 (cleared bytes o) o type) q ≡ load16 bytes q =
      λ q h'.
        load16-store16-Apart (cleared bytes o) o q type (ground arith)
        ∙ load16-cleared-Apart bytes o q h' in
    let same32 : (q : ℕ)
        → Apart q 4 o 64
        → load32 (store16 (cleared bytes o) o type) q ≡ load32 bytes q =
      λ q h'.
        ap₂ (λ a b. a + 65536 * b) (same16 q (ground arith)) (same16 (q + 2) (ground arith)) in
    record {
      type = same16 p (ground arith);
      major = same16 (p + 2) (ground arith);
      minor = same16 (p + 4) (ground arith);
      nlink = same16 (p + 6) (ground arith);
      size = same32 (p + 8) (ground arith);
      addrs = λ i lt. same32 (p + 12 + 4 * i) (ground arith);
    }

-- How `ialloc` ends.
pub data Ialloc (sb : Superblock) (n dev type : ℕ) (s : Files) : Outcome (Files × ℕ) → Type 0 where
  all_used :
      ((k : ℕ) → 1 ≤ k → k < sb.ninodes → (dinode sb s.disk k).type ≢ 0)
      → Ialloc sb n dev type s panicked
  table_full : ((j : ℕ) → j < ninode → 0 < (s.inodes j).ref) → Ialloc sb n dev type s panicked
  made :
      (inum i : ℕ) (r : Files)
      → 1 ≤ inum
      → inum < sb.ninodes
      → (dinode sb s.disk inum).type ≡ 0
      → ((k : ℕ) → 1 ≤ k → k < inum → (dinode sb s.disk k).type ≢ 0)
      → Stored sb n inum (new_dinode type) s.disk r.disk
      → Referenced dev inum i s r
      → Ialloc sb n dev type s (done (r, i))

module _ (sb : Superblock) (n dev type : ℕ) (s : Files) (room : Room (suc n) s.disk)
    (fits : type < 2 ^ 16) (uniq : Unique s) where
  make : ℕ → Outcome (Files × ℕ)
  make inum = do
    d ←
        modify (iblock sb inum) (fresh_dinode (s.disk.cache (iblock sb inum)) (dinode_at inum) type)
          s.disk
    iget dev inum (record s { disk = d })

  make-Ialloc :
      (inum : ℕ)
      → 1 ≤ inum
      → inum < sb.ninodes
      → (dinode sb s.disk inum).type ≡ 0
      → ((k : ℕ) → 1 ≤ k → k < inum → (dinode sb s.disk k).type ≢ 0)
      → Ialloc sb n dev type s (make inum)
  unfolding make Unique
  make-Ialloc inum ge lt free before =
      let b = iblock sb inum in
      let bytes = fresh_dinode (s.disk.cache b) (dinode_at inum) type in
      let (d, run, m) = modify-Modified n b bytes s.disk room in
      let st =
        Stored-by sb n inum (new_dinode type) bytes s.disk d m
          (fresh_dinode-new (s.disk.cache b) (dinode_at inum) type fits)
          (fresh_dinode-apart (s.disk.cache b) (dinode_at inum) type) in
      rw run (
        gotten d (iget dev inum (record s { disk = d })) st
          (iget-Iget dev inum (record s { disk = d }) uniq))
    where
      gotten :
          (d : Disk) (o : Outcome (Files × ℕ))
          → Stored sb n inum (new_dinode type) s.disk d
          → Iget dev inum (record s { disk = d }) o
          → Ialloc sb n dev type s o
      gotten d panicked st (no_inodes full) = table_full (λ j lt'. (full j lt').0)
      gotten d (done _) st (got i r ref same) =
          made inum i r ge lt free before
            (subst (Stored sb n inum (new_dinode type) s.disk) (sym same) st)
            (record {
              in_table = ref.in_table;
              here = ref.here;
              unique = ref.unique;
              counts = ref.counts;
            })

  ialloc_from-free :
      (turns inum : ℕ)
      → ((dinode sb s.disk inum).type == 0) ≡ true
      → ialloc_from sb dev type inum (suc turns) s ≡ make inum
  unfolding ialloc_from make decode
  ialloc_from-free turns inum free = ground arith

  ialloc_from-used :
      (turns inum : ℕ)
      → ((dinode sb s.disk inum).type == 0) ≡ false
      → ialloc_from sb dev type inum (suc turns) s ≡ ialloc_from sb dev type (inum + 1) turns s
  unfolding ialloc_from decode
  ialloc_from-used turns inum busy = ground arith

  ialloc_from-Ialloc :
      (turns inum : ℕ)
      → 1 ≤ inum
      → sb.ninodes ≤ inum + turns
      → inum + turns ≤ sb.ninodes ⊎ (turns ≡ 0)
      → ((k : ℕ) → 1 ≤ k → k < inum → (dinode sb s.disk k).type ≢ 0)
      → Ialloc sb n dev type s (ialloc_from sb dev type inum turns s)
  unfolding ialloc_from
  ialloc_from-Ialloc zero inum ge end exact before =
      all_used (λ k ge' lt. before k ge' (omega arith))
  ialloc_from-Ialloc (suc turns) inum ge end exact before =
      elim (Bool-cases ((dinode sb s.disk inum).type == 0)) [
        | inl free ↦
            let lt : inum < sb.ninodes = ground arith in
            let z : (dinode sb s.disk inum).type ≡ 0 = ground arith in
            rw (ialloc_from-free turns inum free) (make-Ialloc inum ge lt z before)
        | inr busy ↦
            let nz : (dinode sb s.disk inum).type ≢ 0 = λ z. ground arith in
            let step =
              λ (k : ℕ) (ge' : 1 ≤ k) (lt : k < inum + 1). earlier k inum ge' lt before nz in
            rw (ialloc_from-used turns inum busy)
              (ialloc_from-Ialloc turns (inum + 1) (omega arith) (omega arith) (ground arith) step)
      ]
    where
      earlier :
          (k inum : ℕ)
          → 1 ≤ k
          → k < inum + 1
          → ((k : ℕ) → 1 ≤ k → k < inum → (dinode sb s.disk k).type ≢ 0)
          → (dinode sb s.disk inum).type ≢ 0
          → (dinode sb s.disk k).type ≢ 0
      earlier k inum ge lt before nz z = elim (ℕ_discrete k inum) [
        | yes e ↦ nz (ap (λ x. (dinode sb s.disk x).type) (sym e) ∙ z)
        | no ne ↦ before k ge (omega arith) z
      ]

  -- `ialloc`, with room for a block in the log, makes a file of the first free dinode, with every other field zero,
  -- and refers to it in the table; it panics only where no dinode is free or the table is full.
  pub ialloc-Ialloc : Ialloc sb n dev type s (ialloc sb dev type s)
  unfolding ialloc
  ialloc-Ialloc =
      ialloc_from-Ialloc (sb.ninodes - 1) 1 (omega arith) (omega arith) (ground arith)
        (λ k ge lt z. absurd (omega arith))
