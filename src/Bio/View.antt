-- ===== src/Bio/View.antt =====
-- What the buffer cache of kernel/bio.c shows of the disk, as `bread` changes the buffers.
pub mod Bread
use osn.Base.{
  ℕ, zero, suc, ◌+◌, ◌≡◌, ◌≢◌, ◌≤◌, ◌<◌, refl, ap, ap₂, sym, ◌∙◌, ◌⊎◌, inl, inr, subst, List, [],
  ◌∷◌, ◌++◌, Option, none, some, Bool, true, false, ◌==◌, ◌&&◌, if◌then◌else◌, arith, Bool-cases,
  All, ==_refl, ==_ne,
}
use osn.Base.Word.{add32}
use osn.File.{Outcome, done, panicked, ◌>>=◌}
use osn.Bio.{Buf, Bcache, Data, has_key, hold, recycled, bget, bread, at_buf, fill}
use osn.Bio.Bget.{count, InUse, Bget, no_buffers, was_cached, was_unused, bget-Bget}

-- The bytes of a block: those of its buffer where that is valid, and otherwise the disk's.
unfoldable pub shown : ℕ → ℕ → Data → List Buf → Data
shown dev blockno on_disk [] = on_disk
shown dev blockno on_disk (b ∷ bs) =
    let rest = shown dev blockno on_disk bs in
    if has_key dev blockno b then (if b.valid then b.bytes else on_disk) else rest

abbrev pub view : Bcache → ℕ → ℕ → Data
view c dev blockno = shown dev blockno (c.disk blockno) c.bufs

-- At most one buffer has a block of a device.
abbrev pub OneBuffer : List Buf → Type 0
OneBuffer bs = (dev blockno : ℕ) → dev ≢ 0 → count dev blockno bs ≤ 1

-- A valid buffer that nothing refers to has what is on disk.
abbrev pub Clean : (ℕ → Data) → Buf → Type 0
Clean disk b = b.refcnt ≡ 0 → b.valid ≡ true → b.bytes ≡ disk b.blockno

-- No two buffers have the same address.
abbrev pub DistinctIds : List Buf → Type 0
DistinctIds [] = Unit {0}
DistinctIds (b ∷ bs) = All (λ c. c.id ≢ b.id) bs × DistinctIds bs

pub record Sound (c : Bcache) : Type 0 where
  pub ids : DistinctIds c.bufs
  pub one_buffer : OneBuffer c.bufs
  pub clean : All (Clean c.disk) c.bufs

module _ (dev blockno : ℕ) where
  pub count-append :
      (pre : List Buf) (b : Buf) (post : List Buf)
      → count dev blockno (pre ++ (b ∷ post))
        ≡ count dev blockno pre + (if has_key dev blockno b then 1 else 0) + count dev blockno post
  unfolding count
  count-append [] b post = omega arith
  count-append (a ∷ pre) b post = omega (arith, count-append pre b post)

  -- The buffer of the block, where no buffer before it has it.
  pub shown-here :
      (d : Data) (pre : List Buf) (b : Buf) (post : List Buf)
      → count dev blockno pre ≡ 0
      → has_key dev blockno b ≡ true
      → shown dev blockno d (pre ++ (b ∷ post)) ≡ (if b.valid then b.bytes else d)
  unfolding shown count
  shown-here d [] b post z k = rw k refl
  shown-here d (a ∷ pre) b post z k = elim (Bool-cases (has_key dev blockno a)) [
    | inl ka ↦ absurd (ground arith)
    | inr na ↦ rw na (shown-here d pre b post (ground arith) k)
  ]

  pub shown-none :
      (d : Data) (bs : List Buf) → count dev blockno bs ≡ 0 → shown dev blockno d bs ≡ d
  unfolding shown count
  shown-none d [] z = refl
  shown-none d (a ∷ bs) z = elim (Bool-cases (has_key dev blockno a)) [
    | inl ka ↦ absurd (ground arith)
    | inr na ↦ rw na (shown-none d bs (ground arith))
  ]

  -- A buffer that has the block neither before nor after a change.
  pub shown-other :
      (d : Data) (pre : List Buf) (b b' : Buf) (post : List Buf)
      → has_key dev blockno b ≡ false
      → has_key dev blockno b' ≡ false
      → shown dev blockno d (pre ++ (b ∷ post)) ≡ shown dev blockno d (pre ++ (b' ∷ post))
  unfolding shown
  shown-other d [] b b' post k k' = rw (k, k') refl
  shown-other d (a ∷ pre) b b' post k k' =
      ap (λ r. if has_key dev blockno a then (if a.valid then a.bytes else d) else r)
        (shown-other d pre b b' post k k')

  -- A buffer that shows the same.
  pub shown-same :
      (d : Data) (pre : List Buf) (b b' : Buf) (post : List Buf)
      → has_key dev blockno b ≡ has_key dev blockno b'
      → (if b.valid then b.bytes else d) ≡ (if b'.valid then b'.bytes else d)
      → shown dev blockno d (pre ++ (b ∷ post)) ≡ shown dev blockno d (pre ++ (b' ∷ post))
  unfolding shown
  shown-same d [] b b' post k e = ap₂ (λ t r. if t then r else shown dev blockno d post) k e
  shown-same d (a ∷ pre) b b' post k e =
      ap (λ r. if has_key dev blockno a then (if a.valid then a.bytes else d) else r)
        (shown-same d pre b b' post k e)

pub All-append :
    (P : Buf → Type 0) (pre : List Buf) (b b' : Buf) (post : List Buf)
    → All P (pre ++ (b ∷ post))
    → P b'
    → All P (pre ++ (b' ∷ post))
All-append P [] b b' post all p = (p, all.1)
All-append P (a ∷ pre) b b' post all p = (all.0, All-append P pre b b' post all.1 p)

pub All-at :
    (P : Buf → Type 0) (pre : List Buf) (b : Buf) (post : List Buf)
    → All P (pre ++ (b ∷ post))
    → P b
All-at P [] b post all = all.0
All-at P (a ∷ pre) b post all = All-at P pre b post all.1

pub DistinctIds-replace :
    (pre : List Buf) (b b' : Buf) (post : List Buf)
    → DistinctIds (pre ++ (b ∷ post))
    → b'.id ≡ b.id
    → DistinctIds (pre ++ (b' ∷ post))
DistinctIds-replace [] b b' post (all, rest) e =
    (subst (λ n. All (λ c. c.id ≢ n) post) (sym e) all, rest)
DistinctIds-replace (a ∷ pre) b b' post (all, rest) e = (
  All-append (λ c. c.id ≢ a.id) pre b b' post all
      (λ h. All-at (λ c. c.id ≢ a.id) pre b post all (sym e ∙ h)),
  DistinctIds-replace pre b b' post rest e,
)

-- A change at the address of a buffer changes that buffer.
pub at_buf-append :
    (f : Buf → Buf) (pre : List Buf) (b : Buf) (post : List Buf)
    → DistinctIds (pre ++ (b ∷ post))
    → at_buf b.id f (pre ++ (b ∷ post)) ≡ pre ++ (f b ∷ post)
unfolding at_buf
at_buf-append f [] b post h = rw (==_refl b.id) refl
at_buf-append f (a ∷ pre) b post (all, rest) =
    let other : (a.id == b.id) ≡ false =
      ==_ne a.id b.id (λ e. All-at (λ c. c.id ≢ a.id) pre b post all (sym e)) in
    rw other (ap (λ l. a ∷ l) (at_buf-append f pre b post rest))
