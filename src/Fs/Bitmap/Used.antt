-- ===== src/Fs/Bitmap/Used.antt =====
-- The set of used blocks that the free bit map of kernel/fs.c stands for.
use osn.Base.{
  ℕ, zero, suc, ◌+◌, ◌/◌, ◌%◌, ◌≤◌, ◌<◌, ◌≡◌, ◌≢◌, refl, sym, ◌∙◌, Option, none, some, Bool, true,
  false, ◌==◌, if◌then◌else◌, update, update_ne, arith, Bool-cases, ℕ_discrete, subst, inl, inr,
}
use osn.Base.Bits.{test_bit, test_bit-set_bit, test_bit-clear_bit}
use osn.Fs.{Block, Superblock, bpb, bblock}
use osn.Fs.Bitmap.{find_clear, mark, unmark}

-- The bit at an index of a block of the map.
unfoldable pub bit_at : Block → ℕ → Bool
bit_at bytes bi = test_bit (bytes (bi / 8)) (bi % 8)

-- Whether a block is in use.
unfoldable pub used : Superblock → (ℕ → Block) → ℕ → Bool
unfolding bit_at
used sb cache b = bit_at (cache (bblock sb b)) (b % bpb)

bit_at-mark :
    (bytes : Block) (bi bj : ℕ)
    → bit_at (mark bytes bi) bj ≡ (if bj == bi then true else bit_at bytes bj)
unfolding bit_at mark update
bit_at-mark bytes bi bj = ground (arith, test_bit-set_bit (bi % 8) (bj % 8) (bytes (bi / 8)))

bit_at-unmark :
    (bytes : Block) (bi bj : ℕ)
    → bit_at (unmark bytes bi) bj ≡ (if bj == bi then false else bit_at bytes bj)
unfolding bit_at unmark update
bit_at-unmark bytes bi bj = ground (arith, test_bit-clear_bit (bi % 8) (bj % 8) (bytes (bi / 8)))

-- A search finds the first clear bit, or there is none.
pub data Search (bytes : Block) (bi n : ℕ) : Option ℕ → Type 0 where
  none_clear : ((j : ℕ) → bi ≤ j → j < bi + n → bit_at bytes j ≡ true) → Search bytes bi n none
  first_clear :
      (r : ℕ)
      → bi ≤ r
      → r < bi + n
      → bit_at bytes r ≡ false
      → ((j : ℕ) → bi ≤ j → j < r → bit_at bytes j ≡ true)
      → Search bytes bi n (some r)

Search-suc :
    (bytes : Block) (bi n : ℕ) {o : Option ℕ}
    → bit_at bytes bi ≡ true
    → Search bytes (bi + 1) n o
    → Search bytes bi (suc n) o
Search-suc bytes bi n set (none_clear all) = none_clear (λ j lo hi. elim (ℕ_discrete bi j) [
  | yes e ↦ subst (λ x. bit_at bytes x ≡ true) e set
  | no ne ↦ all j (omega arith) (omega arith)
])
Search-suc bytes bi n set (first_clear r lo hi clear before) =
    first_clear r (omega arith) (omega arith) clear (λ j lo' hi'. elim (ℕ_discrete bi j) [
      | yes e ↦ subst (λ x. bit_at bytes x ≡ true) e set
      | no ne ↦ before j (omega arith) hi'
    ])

pub find_clear-Search : (bytes : Block) (bi n : ℕ) → Search bytes bi n (find_clear bytes bi n)
unfolding find_clear bit_at
find_clear-Search bytes bi zero = none_clear (λ j lo hi. absurd (omega arith))
find_clear-Search bytes bi (suc n) = elim (Bool-cases (bit_at bytes bi)) [
  | inl set ↦ rw set (Search-suc bytes bi n set (find_clear-Search bytes (bi + 1) n))
  | inr clear ↦
      rw clear (first_clear bi (omega arith) (omega arith) clear (λ j lo hi. absurd (omega arith)))
]

-- Every block of the map is itself in use.
unfoldable pub MapUsed : Superblock → (ℕ → Block) → Type 0
MapUsed sb cache =
    (b : ℕ) → b < sb.size → (bblock sb b < sb.size) × (used sb cache (bblock sb b) ≡ true)

-- How the map of a cache changes with one block of the map.
used-update :
    (sb : Superblock) (cache : ℕ → Block) (b x : ℕ) (bytes : Block)
    → used sb (update cache (bblock sb b) bytes) x
      ≡ (if x / bpb == b / bpb then bit_at bytes (x % bpb) else used sb cache x)
unfolding used update
used-update sb cache b x bytes = ground arith

-- A block outside the map does not matter to it.
pub used-update_other :
    (sb : Superblock) (cache : ℕ → Block) (b x : ℕ) (bytes : Block)
    → bblock sb x ≢ b
    → used sb (update cache b bytes) x ≡ used sb cache x
unfolding used
used-update_other sb cache b x bytes ne =
    rw (update_ne cache b (bblock sb x) bytes (λ e. ne (sym e))) refl

pub used-mark :
    (sb : Superblock) (cache : ℕ → Block) (b x : ℕ)
    → used sb (update cache (bblock sb b) (mark (cache (bblock sb b)) (b % bpb))) x
      ≡ (if x == b then true else used sb cache x)
unfolding used
used-mark sb cache b x =
    used-update sb cache b x (mark (cache (bblock sb b)) (b % bpb))
    ∙ ground (arith, bit_at-mark (cache (bblock sb b)) (b % bpb) (x % bpb))

pub used-unmark :
    (sb : Superblock) (cache : ℕ → Block) (b x : ℕ)
    → used sb (update cache (bblock sb b) (unmark (cache (bblock sb b)) (b % bpb))) x
      ≡ (if x == b then false else used sb cache x)
unfolding used
used-unmark sb cache b x =
    used-update sb cache b x (unmark (cache (bblock sb b)) (b % bpb))
    ∙ ground (arith, bit_at-unmark (cache (bblock sb b)) (b % bpb) (x % bpb))
