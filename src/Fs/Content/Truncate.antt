-- ===== src/Fs/Content/Truncate.antt =====
-- The loops of `itrunc` of kernel/fs.c that free blocks, on a disk with one block of the free bit map.
pub mod Each
pub mod Whole
use osn.Base.{
  ℕ, zero, suc, ◌+◌, ◌-◌, ◌*◌, ◌/◌, ◌%◌, ◌^◌, ◌≤◌, ◌<◌, ◌≡◌, ◌≢◌, ◌⊎◌, inl, inr, refl, ap, ap₂, sym,
  ◌∙◌, Bool, true, false, not, ◌==◌, ◌&&◌, ◌||◌, ltb, if◌then◌else◌, update, update_self, update_ne,
  arith, dec_lt, Bool-cases, ℕ_discrete, subst, length,
}
use osn.File.{Outcome, done, panicked, ◌>>=◌}
use osn.Log.{LogState, among, logsize}
use osn.Fs.{Disk, Block, Superblock, bpb, bblock, modify}
use osn.Fs.Room.{Room, Modified, RoomFor, modify-RoomFor}
use osn.Fs.Dinode.{Dinode, ndirect, load32}
use osn.Fs.Bitmap.{bfree, unmark}
use osn.Fs.Bitmap.Used.{used, bit_at, used-unmark}
use osn.Fs.Content.{
  truncate, free_addr, free_direct, free_entries, free_indirect, with_addr, nindirect,
}
use osn.Fs.Content.Bmap.{block_of}

-- The set of used blocks loses these blocks, and nothing changes but the map's block.
pub record Lost (sb : Superblock) (extra : ℕ) (gone : ℕ → Bool) (d r : Disk) : Type 0 where
  pub free : (x : ℕ) → used sb r.cache x ≡ (if gone x then false else used sb d.cache x)
  pub others : (y : ℕ) → y ≢ bblock sb 0 → r.cache y ≡ d.cache y
  pub room : RoomFor extra (bblock sb 0) r

-- The two loops of `itrunc`, over the addresses `f`.
pub free_each : Superblock → (ℕ → ℕ) → ℕ → ℕ → Disk → Outcome Disk
free_each sb f i zero d = done d
free_each sb f i (suc n) d = do d' ← free_addr sb (f i) d; free_each sb f (i + 1) n d'

-- The block is one of `n` addresses from `i` on.
pub member : (ℕ → ℕ) → ℕ → ℕ → ℕ → Bool
member f i zero x = false
member f i (suc n) x = member f (i + 1) n x || (not (f i == 0) && x == f i)

-- The disk is smaller than what one block of the map stands for.
module _ {extra : ℕ} (sb : Superblock) (one : sb.size ≤ bpb) where
  pub Lost-trans :
      {f g : ℕ → Bool} {d e r : Disk}
      → Lost sb extra f d e
      → Lost sb extra g e r
      → Lost sb extra (λ x. g x || f x) d r
  Lost-trans {f} {g} {d} {e} {r} a b = record {
    free = λ x.
        b.free x
        ∙ (ap (λ u. if g x then false else u) (a.free x) ∙ or_else (g x) (f x) (used sb d.cache x));
    others = λ y ne. b.others y ne ∙ a.others y ne;
    room = b.room;
  }
    where
      or_else :
          (s t u : Bool)
          → (if s then false else if t then false else u) ≡ (if s || t then false else u)
      or_else true t u = refl
      or_else false t u = refl

  pub bfree-Lost :
      (a : ℕ) (d : Disk)
      → a < sb.size
      → used sb d.cache a ≡ true
      → RoomFor extra (bblock sb 0) d
      → (r : Disk) × (bfree sb a d ≡ done r) × Lost sb extra (λ x. x == a) d r
  unfolding bfree used bit_at
  bfree-Lost a d lt u room =
      let same : bblock sb 0 ≡ bblock sb a = omega arith in
      let bytes = unmark (d.cache (bblock sb a)) (a % bpb) in
      let (r, run, m) =
        modify-RoomFor extra (bblock sb a) bytes d (subst (λ b. RoomFor extra b d) same room) in
      let in_log : among (bblock sb 0) r.lh ≡ true =
        ap (λ b. among b r.lh) same ∙ (m.logged (bblock sb a) ∙ ground arith) in
      (
        r,
        rw u run,
        record {
          free = λ x. ap (λ c. used sb c x) m.cached ∙ used-unmark sb d.cache a x;
          others = λ y ne.
              ap (λ c. c y) m.cached
              ∙ update_ne d.cache (bblock sb a) y bytes (λ e. ne (sym e ∙ sym same));
          room = rw in_log m.room;
        },
      )

  free_addr-Lost :
      (a : ℕ) (d : Disk)
      → (a ≢ 0 → (a < sb.size) × (used sb d.cache a ≡ true))
      → RoomFor extra (bblock sb 0) d
      → (r : Disk) × (free_addr sb a d ≡ done r) × Lost sb extra (λ x. not (a == 0) && x == a) d r
  unfolding free_addr
  free_addr-Lost a d owned room = elim (Bool-cases (a == 0)) [
    | inl z ↦ (d, rw z refl, record { free = λ x. rw z refl; others = λ y ne. refl; room = room })
    | inr nz ↦
        let (lt, u) = owned (λ e. ground arith) in
        let (r, run, l) = bfree-Lost a d lt u room in
        (r, rw nz run, record { free = λ x. rw nz (l.free x); others = l.others; room = l.room })
  ]

  pub free_each-Lost :
      (f : ℕ → ℕ) (i n : ℕ) (d : Disk)
      → ((j : ℕ) → i ≤ j → j < i + n → f j ≢ 0 → (f j < sb.size) × (used sb d.cache (f j) ≡ true))
      → ((j k : ℕ) → i ≤ j → j < k → k < i + n → f j ≢ 0 → f j ≢ f k)
      → RoomFor extra (bblock sb 0) d
      → (r : Disk) × (free_each sb f i n d ≡ done r) × Lost sb extra (member f i n) d r
  unfolding free_each member
  free_each-Lost f i zero d owned distinct room =
      (d, refl, record { free = λ x. refl; others = λ y ne. refl; room = room })
  free_each-Lost f i (suc n) d owned distinct room =
      let (e, run1, l1) =
        free_addr-Lost (f i) d (λ nz. owned i (omega arith) (omega arith) nz) room in
      let (r, run2, l2) =
        free_each-Lost f (i + 1) n e
          (λ j ge lt nz.
            let (inside, u) = owned j (omega arith) (omega arith) nz in
            let apart : (not (f i == 0) && f j == f i) ≡ false =
              ground (arith, distinct i j (omega arith) (omega arith) (omega arith)) in
            (inside, l1.free (f j) ∙ rw apart u))
          (λ j k ge lt lt' nz. distinct j k (omega arith) lt (omega arith) nz) l1.room in
      (r, rw run1 run2, Lost-trans l1 l2)
