-- ===== src/Fs/Bitmap/Alloc.antt =====
-- What `balloc` and `bfree` of kernel/fs.c do with the set of used blocks.
use osn.Base.{
  ℕ, zero, suc, ◌+◌, ◌-◌, ◌*◌, ◌/◌, ◌%◌, ◌≤◌, ◌<◌, ◌≡◌, ◌≢◌, refl, ap, ap₂, sym, ◌∙◌, dec_lt,
  lt→ltb, Option, none, some, true, false, ◌==◌, ltb, if◌then◌else◌, min, update, update_self,
  update_ne, arith, Bool-cases, inl, inr, ◌⊎◌,
}
use osn.File.{Outcome, done, panicked}
use osn.Fs.{Disk, Block, Superblock, bpb, bblock, bzero}
use osn.Fs.Room.{Room, modify-Modified}
use osn.Fs.Bitmap.{find_clear, mark, unmark, take_block, balloc_from, balloc, bfree}
use osn.Fs.Bitmap.Used.{
  bit_at, used, used-update_other, used-mark, used-unmark, MapUsed, Search, none_clear, first_clear,
  find_clear-Search,
}

-- What `bfree` of block `b` leaves: the block is free, and nothing else changes but its block of the map.
pub record Freed (n : ℕ) (sb : Superblock) (b : ℕ) (s r : Disk) : Type 0 where
  pub free : (x : ℕ) → used sb r.cache x ≡ (if x == b then false else used sb s.cache x)
  pub others : (y : ℕ) → bblock sb b ≢ y → r.cache y ≡ s.cache y
  pub room : Room n r

-- `bfree` of a used block, with room in the log for one block, frees exactly that block; of a free block it
-- panics.
pub bfree-Freed :
    (n : ℕ) (sb : Superblock) (b : ℕ) (s : Disk)
    → Room (suc n) s
    → ((used sb s.cache b ≡ true) × ((r : Disk) × (bfree sb b s ≡ done r) × Freed n sb b s r))
      ⊎ ((used sb s.cache b ≡ false) × (bfree sb b s ≡ panicked))
unfolding bfree used bit_at
bfree-Freed n sb b s room = elim (Bool-cases (used sb s.cache b)) [
  | inr clear ↦ inr (clear, rw clear refl)
  | inl set ↦
      let bytes = unmark (s.cache (bblock sb b)) (b % bpb) in
      let (r, run, m) = modify-Modified n (bblock sb b) bytes s room in
      inl (
        set,
        (
          r,
          rw set run,
          record {
            free = λ x. ap (λ c. used sb c x) m.cached ∙ used-unmark sb s.cache b x;
            others = λ y ne. ap (λ c. c y) m.cached ∙ update_ne s.cache (bblock sb b) y bytes ne;
            room = m.room;
          },
        ),
      )
]

-- What `balloc` leaves when it returns block `b`: the first free block is in use and zero, and nothing else
-- changes but its block of the map.
pub record Taken (n : ℕ) (sb : Superblock) (b : ℕ) (s r : Disk) : Type 0 where
  pub in_disk : b < sb.size
  pub was_free : used sb s.cache b ≡ false
  pub first : (x : ℕ) → x < b → used sb s.cache x ≡ true
  pub in_use :
      (x : ℕ) → x < sb.size → used sb r.cache x ≡ (if x == b then true else used sb s.cache x)
  pub zeroed : r.cache b ≡ (λ i. 0)
  pub others : (y : ℕ) → bblock sb b ≢ y → b ≢ y → r.cache y ≡ s.cache y
  pub room : Room n r

-- How `balloc` ends.
pub data Balloc (n : ℕ) (sb : Superblock) (s : Disk) : Outcome (Disk × ℕ) → Type 0 where
  out_of_blocks : ((x : ℕ) → x < sb.size → used sb s.cache x ≡ true) → Balloc n sb s panicked
  taken : (b : ℕ) (r : Disk) → Taken n sb b s r → Balloc n sb s (done (r, b))

-- The block found is no block of the map.
pub not_map :
    (sb : Superblock) (cache : ℕ → Block) (b x : ℕ)
    → MapUsed sb cache
    → x < sb.size
    → used sb cache b ≡ false
    → bblock sb x ≢ b
unfolding MapUsed
not_map sb cache b x map_used lt clear e =
    let z : true ≡ false = sym (map_used x lt).1 ∙ (ap (used sb cache) e ∙ clear) in cc

take_block-Taken :
    (n : ℕ) (sb : Superblock) (b bi : ℕ) (s : Disk)
    → Room (suc (suc n)) s
    → MapUsed sb s.cache
    → b % bpb ≡ 0
    → bi < bpb
    → b + bi < sb.size
    → used sb s.cache (b + bi) ≡ false
    → ((x : ℕ) → x < b + bi → used sb s.cache x ≡ true)
    → (r : Disk) × (take_block sb b bi s ≡ done (r, b + bi)) × Taken n sb (b + bi) s r
unfolding take_block bzero
take_block-Taken n sb b bi s room map_used al lt in_disk clear first =
    let bytes = mark (s.cache (bblock sb b)) bi in
    let (s1, run1, m1) = modify-Modified (suc n) (bblock sb b) bytes s room in
    let (s2, run2, m2) = modify-Modified n (b + bi) (λ i. 0) s1 m1.room in
    let c2 : s2.cache ≡ update (update s.cache (bblock sb b) bytes) (b + bi) (λ i. 0) =
      m2.cached ∙ ap (λ c. update c (b + bi) (λ i. 0)) m1.cached in
    let same : bblock sb (b + bi) ≡ bblock sb b = omega arith in
    let index : (b + bi) % bpb ≡ bi = omega arith in
    (
      s2,
      rw run1 (rw run2 refl),
      record {
        in_disk = in_disk;
        was_free = clear;
        first = first;
        in_use = λ x lt'.
            ap (λ c. used sb c x) c2
            ∙ (used-update_other sb (update s.cache (bblock sb b) bytes) (b + bi) x (λ i. 0)
                  (not_map sb s.cache (b + bi) x map_used lt' clear)
                ∙ marked sb s.cache b bi x same index);
        zeroed =
            ap (λ c. c (b + bi)) c2
            ∙ update_self (update s.cache (bblock sb b) bytes) (b + bi) (λ i. 0);
        others = λ y ne ne'.
            ap (λ c. c y) c2
            ∙ (update_ne (update s.cache (bblock sb b) bytes) (b + bi) y (λ i. 0) ne'
                ∙ update_ne s.cache (bblock sb b) y bytes (λ e. ne (same ∙ e)));
        room = m2.room;
      },
    )
  where
    marked :
        (sb : Superblock) (cache : ℕ → Block) (b bi x : ℕ)
        → bblock sb (b + bi) ≡ bblock sb b
        → (b + bi) % bpb ≡ bi
        → used sb (update cache (bblock sb b) (mark (cache (bblock sb b)) bi)) x
          ≡ (if x == b + bi then true else used sb cache x)
    marked sb cache b bi x same index =
        ap₂ (λ y j. used sb (update cache y (mark (cache y) j)) x) (sym same) (sym index)
        ∙ used-mark sb cache (b + bi) x

-- The bits of a block of the map.
used-bit_at :
    (sb : Superblock) (cache : ℕ → Block) (b j : ℕ)
    → b % bpb ≡ 0
    → j < bpb
    → used sb cache (b + j) ≡ bit_at (cache (bblock sb b)) j
unfolding used
used-bit_at sb cache b j al lt = ap₂ (λ y i. bit_at (cache y) i) (omega arith) (omega arith)

-- The blocks of the disk below `b` are in use.
UsedBelow : Superblock → (ℕ → Block) → ℕ → Type 0
UsedBelow sb cache b = (x : ℕ) → x < b → x < sb.size → used sb cache x ≡ true

-- What a turn of the outer loop has looked at.
turn :
    (sb : Superblock) (cache : ℕ → Block) (b bi x : ℕ)
    → b % bpb ≡ 0
    → ((j : ℕ) → 0 ≤ j → j < bi → bit_at (cache (bblock sb b)) j ≡ true)
    → UsedBelow sb cache b
    → x < b + min bi bpb
    → x < sb.size
    → used sb cache x ≡ true
unfolding UsedBelow
turn sb cache b bi x al all before lt inside = elim (dec_lt x b) [
  | yes lt' ↦ before x lt' inside
  | no ge ↦
      let split : x ≡ b + (x - b) = omega arith in
      ap (used sb cache) split
      ∙ (used-bit_at sb cache b (x - b) al (omega arith) ∙ all (x - b) (omega arith) (omega arith))
]

turn-Balloc :
    (n fuel : ℕ) (sb : Superblock) (b : ℕ) (s : Disk)
    → Room (suc (suc n)) s
    → MapUsed sb s.cache
    → b % bpb ≡ 0
    → b < sb.size
    → UsedBelow sb s.cache b
    → (UsedBelow sb s.cache (b + bpb) → Balloc n sb s (balloc_from fuel sb (b + bpb) s))
    → (o : Option ℕ) → Search (s.cache (bblock sb b)) 0 (min bpb (sb.size - b)) o
    → Balloc n sb s
        (elim o [ some bi ↦ take_block sb b bi s | none ↦ balloc_from fuel sb (b + bpb) s ])
unfolding UsedBelow
turn-Balloc n fuel sb b s room map_used al lt before rest none (none_clear all) =
    rest (λ x lt' inside.
      turn sb s.cache b (min bpb (sb.size - b)) x al (λ j lo hi. all j lo (omega arith)) before
        (omega arith) inside)
turn-Balloc n fuel sb b s room map_used al lt before rest (some bi)
      (first_clear _ lo hi clear prior) =
    let (r, run, t) =
      take_block-Taken n sb b bi s room map_used al (omega arith) (omega arith)
        (used-bit_at sb s.cache b bi al (omega arith) ∙ clear)
        (λ x lt'. turn sb s.cache b bi x al prior before (omega arith) (omega arith)) in
    rw run (taken (b + bi) r t)

balloc_from-end :
    (fuel : ℕ) (sb : Superblock) (b : ℕ) (s : Disk)
    → ltb b sb.size ≡ false
    → balloc_from (suc fuel) sb b s ≡ panicked
unfolding balloc_from
balloc_from-end fuel sb b s e = rw (balloc_from, e) refl

balloc_from-turn :
    (fuel : ℕ) (sb : Superblock) (b : ℕ) (s : Disk)
    → ltb b sb.size ≡ true
    → balloc_from (suc fuel) sb b s
      ≡ (elim (find_clear (s.cache (bblock sb b)) 0 (min bpb (sb.size - b))) [
        | some bi ↦ take_block sb b bi s
        | none ↦ balloc_from fuel sb (b + bpb) s
      ])
unfolding balloc_from
balloc_from-turn fuel sb b s e = ground arith

balloc_from-Balloc :
    (n fuel : ℕ) (sb : Superblock) (b : ℕ) (s : Disk)
    → Room (suc (suc n)) s
    → MapUsed sb s.cache
    → b % bpb ≡ 0
    → sb.size < b + fuel * bpb
    → UsedBelow sb s.cache b
    → Balloc n sb s (balloc_from fuel sb b s)
unfolding balloc_from UsedBelow
balloc_from-Balloc n zero sb b s room map_used al enough before =
    out_of_blocks (λ x lt. before x (omega arith) lt)
balloc_from-Balloc n (suc fuel) sb b s room map_used al enough before = elim (dec_lt b sb.size) [
  | no ge ↦
      let e : ltb b sb.size ≡ false = ground arith in
      rw (balloc_from-end fuel sb b s e) (out_of_blocks (λ x lt. before x (omega arith) lt))
  | yes lt ↦ rw (balloc_from-turn fuel sb b s (lt→ltb b sb.size lt)) (
      turn-Balloc n fuel sb b s room map_used al lt before
        (λ below.
          balloc_from-Balloc n fuel sb (b + bpb) s room map_used (omega arith) (omega arith) below)
        (find_clear (s.cache (bblock sb b)) 0 (min bpb (sb.size - b)))
        (find_clear-Search (s.cache (bblock sb b)) 0 (min bpb (sb.size - b))))
]

-- `balloc`, with room in the log for two blocks and a bitmap that marks its own blocks as used, takes the first free block
-- of the disk and makes it zero; it panics only where there is none.
pub balloc-Balloc :
    (n : ℕ) (sb : Superblock) (s : Disk)
    → Room (suc (suc n)) s
    → MapUsed sb s.cache
    → Balloc n sb s (balloc sb s)
unfolding balloc UsedBelow
balloc-Balloc n sb s room map_used =
    balloc_from-Balloc n (sb.size / bpb + 2) sb 0 s room map_used refl (omega arith)
      (λ x lt inside. absurd (omega arith))
