-- ===== src/Bio/Bget.antt =====
-- The buffer that `bget` of kernel/bio.c returns.
use osn.Base.{
  ℕ, ◌+◌, ◌≡◌, ◌≢◌, refl, ap, inl, inr, List, [], ◌∷◌, ◌++◌, Option, none, some, true, false, ◌==◌,
  if◌then◌else◌, arith, Bool-cases, All,
}
use osn.File.{Outcome, done, panicked}
use osn.Bio.{Buf, has_key, hold, recycled, find_cached, find_recyclable, bget}

-- How many buffers have a block.
unfoldable pub count : ℕ → ℕ → List Buf → ℕ
count dev blockno [] = 0
count dev blockno (b ∷ bs) = (if has_key dev blockno b then 1 else 0) + count dev blockno bs

abbrev pub InUse : List Buf → Type 0
InUse bs = All (λ b. b.refcnt ≢ 0) bs

data Cached (dev blockno : ℕ) (bs : List Buf) : Option (List Buf × ℕ) → Type 0 where
  not_cached : count dev blockno bs ≡ 0 → Cached dev blockno bs none
  cached :
      (pre post : List Buf) (b : Buf)
      → bs ≡ pre ++ (b ∷ post)
      → count dev blockno pre ≡ 0
      → has_key dev blockno b ≡ true
      → Cached dev blockno bs (some (pre ++ (hold b ∷ post), b.id))

data Unused (dev blockno : ℕ) (bs : List Buf) : Option (List Buf × ℕ) → Type 0 where
  all_used : InUse bs → Unused dev blockno bs none
  unused :
      (pre post : List Buf) (b : Buf)
      → bs ≡ pre ++ (b ∷ post)
      → b.refcnt ≡ 0
      → InUse post
      → Unused dev blockno bs (some (pre ++ (recycled dev blockno b ∷ post), b.id))

module _ (dev blockno : ℕ) where
  find_cached-here :
      (b : Buf) (bs : List Buf)
      → has_key dev blockno b ≡ true
      → find_cached dev blockno (b ∷ bs) ≡ some (hold b ∷ bs, b.id)
  unfolding find_cached
  find_cached-here b bs k = rw k refl

  find_cached-past :
      (b : Buf) (bs : List Buf)
      → has_key dev blockno b ≡ false
      → find_cached dev blockno (b ∷ bs)
        ≡ (elim (find_cached dev blockno bs) [ none ↦ none | some r ↦ some (b ∷ r.0, r.1) ])
  unfolding find_cached
  find_cached-past b bs k = rw k refl

  Cached-past :
      (b : Buf) (bs : List Buf)
      → has_key dev blockno b ≡ false
      → (o : Option (List Buf × ℕ)) → Cached dev blockno bs o
      → Cached dev blockno (b ∷ bs) (elim o [ none ↦ none | some r ↦ some (b ∷ r.0, r.1) ])
  unfolding count
  Cached-past b bs k none (not_cached z) = not_cached (rw k (omega (arith, z)))
  Cached-past b bs k (some _) (cached pre post c e z h) =
      cached (b ∷ pre) post c (ap (λ l. b ∷ l) e) (rw k (omega (arith, z))) h

  find_cached-Cached : (bs : List Buf) → Cached dev blockno bs (find_cached dev blockno bs)
  unfolding find_cached count
  find_cached-Cached [] = not_cached refl
  find_cached-Cached (b ∷ bs) = elim (Bool-cases (has_key dev blockno b)) [
    | inl k ↦ rw (find_cached-here b bs k) (cached [] bs b refl refl k)
    | inr k ↦
        rw (find_cached-past b bs k)
          (Cached-past b bs k (find_cached dev blockno bs) (find_cached-Cached bs))
  ]

  Unused-next :
      (b : Buf) (bs : List Buf) (o : Option (List Buf × ℕ))
      → Unused dev blockno bs o
      → Unused dev blockno (b ∷ bs) (elim o [
        | some r ↦ some (b ∷ r.0, r.1)
        | none ↦ if b.refcnt == 0 then some (recycled dev blockno b ∷ bs, b.id) else none
      ])
  Unused-next b bs (some _) (unused pre post c e z rest) =
      unused (b ∷ pre) post c (ap (λ l. b ∷ l) e) z rest
  Unused-next b bs none (all_used all) = elim (Bool-cases (b.refcnt == 0)) [
    | inl z ↦ let free : b.refcnt ≡ 0 = ground arith in rw z (unused [] bs b refl free all)
    | inr nz ↦ let held : b.refcnt ≢ 0 = λ e. ground arith in rw nz (all_used (held, all))
  ]

  find_recyclable-Unused : (bs : List Buf) → Unused dev blockno bs (find_recyclable dev blockno bs)
  unfolding find_recyclable
  find_recyclable-Unused [] = all_used tt
  find_recyclable-Unused (b ∷ bs) =
      Unused-next b bs (find_recyclable dev blockno bs) (find_recyclable-Unused bs)

  -- How `bget` ends.
  pub data Bget (bs : List Buf) : Outcome (List Buf × ℕ) → Type 0 where
    no_buffers : count dev blockno bs ≡ 0 → InUse bs → Bget bs panicked
    was_cached :
        (pre post : List Buf) (b : Buf)
        → bs ≡ pre ++ (b ∷ post)
        → count dev blockno pre ≡ 0
        → has_key dev blockno b ≡ true
        → Bget bs (done (pre ++ (hold b ∷ post), b.id))
    was_unused :
        (pre post : List Buf) (b : Buf)
        → bs ≡ pre ++ (b ∷ post)
        → count dev blockno bs ≡ 0
        → b.refcnt ≡ 0
        → InUse post
        → Bget bs (done (pre ++ (recycled dev blockno b ∷ post), b.id))

  pub bget-Bget : (bs : List Buf) → Bget bs (bget dev blockno bs)
  unfolding bget
  bget-Bget bs =
      outcome (find_cached dev blockno bs) (find_recyclable dev blockno bs) (find_cached-Cached bs)
        (find_recyclable-Unused bs)
    where
      outcome :
          (o p : Option (List Buf × ℕ))
          → Cached dev blockno bs o
          → Unused dev blockno bs p
          → Bget bs
              (elim o [ some r ↦ done r | none ↦ elim p [ some r ↦ done r | none ↦ panicked ] ])
      outcome (some _) p (cached pre post b e z k) u = was_cached pre post b e z k
      outcome none (some _) (not_cached z) (unused pre post b e free rest) =
          was_unused pre post b e z free rest
      outcome none none (not_cached z) (all_used all) = no_buffers z all
