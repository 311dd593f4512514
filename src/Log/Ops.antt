-- ===== src/Log/Ops.antt =====
-- The size of the log under `log_write` of kernel/log.c.
use osn.Base.{
  ℕ, suc, ◌-◌, ◌≤◌, ◌<◌, ◌≡◌, refl, ap, sym, ◌∙◌, List, [], ◌∷◌, ◌++◌, Bool, true, false, ◌==◌,
  ◌||◌, arith, length, length-append, Bool-cases, ℕ_discrete, ==_ne, subst, inl, inr, ◌⊎◌,
}
use osn.File.{done}
use osn.Log.{LogState, among, log_write, logsize}

-- No block is in the list twice.
abbrev pub Distinct : List ℕ → Type 0
Distinct [] = Unit {0}
Distinct (x ∷ xs) = (among x xs ≡ false) × Distinct xs

pub among-append : (x b : ℕ) (xs : List ℕ) → among x (xs ++ (b ∷ [])) ≡ (among x xs || x == b)
among-append x b [] = ground arith
among-append x b (y ∷ xs) = ground (arith, among-append x b xs)

Distinct-append :
    (b : ℕ) (xs : List ℕ) → among b xs ≡ false → Distinct xs → Distinct (xs ++ (b ∷ []))
Distinct-append b [] out h = (refl, tt)
Distinct-append b (x ∷ xs) out h =
    (ground (arith, among-append x b xs, h.0), Distinct-append b xs (ground arith) h.1)

pub among-same : (x b : ℕ) (xs : List ℕ) → among b xs ≡ true → among x xs ≡ (among x xs || x == b)
among-same x b xs inside = elim (ℕ_discrete x b) [
  | yes e ↦ rw e (rw inside refl)
  | no ne ↦ rw (==_ne x b ne) (or_false (among x xs))
]
  where
    or_false : (t : Bool) → t ≡ (t || false)
    or_false true = refl
    or_false false = refl

module _ {B : Type 0} where
  -- The log is small enough for its header and its place on disk, and has no block twice.
  pub record Sound (s : LogState B) : Type 0 where
    pub header : length s.lh ≤ logsize
    pub place : length s.lh < s.size
    pub distinct : Distinct s.lh

  log_write-done :
      (b : ℕ) (s s' : LogState B)
      → log_write b s ≡ done s'
      → ((among b s.lh ≡ true) × (s' ≡ s))
        ⊎ ((among b s.lh ≡ false)
            × (length s.lh < logsize)
            × (length s.lh < s.size - 1)
            × (s'.lh ≡ s.lh ++ (b ∷ []))
            × (s'.size ≡ s.size))
  unfolding log_write
  log_write-done b s s' e = elim (Bool-cases (among b s.lh)) [
    | inl inside ↦ inl (inside, ground arith)
    | inr out ↦ inr (out, ground arith, ground arith, ground arith, ground arith)
  ]

  -- A `log_write` that does not panic keeps the log sound, and logs the block, once: the blocks that were
  -- logged before still are.
  pub log_write-Sound :
      (b : ℕ) (s s' : LogState B)
      → Sound s
      → log_write b s ≡ done s'
      → Sound s' × ((x : ℕ) → among x s'.lh ≡ (among x s.lh || x == b))
  log_write-Sound b s s' h e = elim (log_write-done b s s' e) [
    | inl (inside, same) ↦
        (subst Sound (sym same) h, λ x. ap (λ t. among x t.lh) same ∙ among-same x b s.lh inside)
    | inr (out, room, place, lh, size) ↦
        let len : length s'.lh ≡ suc (length s.lh) =
          ap length lh ∙ (length-append s.lh (b ∷ []) ∙ omega arith) in
        (
          record {
            header = omega arith;
            place = omega arith;
            distinct = subst Distinct (sym lh) (Distinct-append b s.lh out h.distinct);
          },
          λ x. ap (among x) lh ∙ among-append x b s.lh,
        )
  ]
