-- ===== src/Sched/Pick.antt =====
-- The choice by the lowest key, which the first-come-first-served and the priority scheduler share.
use osn.Base.{
  ℕ, zero, suc, ◌+◌, ◌≤◌, ◌<◌, ◌≡◌, ◌≢◌, refl, List, [], ◌∷◌, Option, none, some, true, false, ltb,
  if◌then◌else◌, get_elem?, arith, inl, inr, ◌⊎◌, Bool-cases, ap, sym, ◌∙◌, subst,
}
use mathlib.Core.Option.{some-injective}
use osn.Proc.{Proc, ProcState, runnable, state_eq}
use osn.Sched.{consider}

-- The choice among the runnable processes of a table: none, if there are none, or the first with the
-- lowest key.
pub data Chosen (key : Proc → ℕ) (ps : List Proc) : Option (ℕ × Proc) → Type 0 where
  nobody : ((j : ℕ) (q : Proc) → get_elem? ps j ≡ some q → q.state ≢ runnable) → Chosen key ps none
  lowest :
      (i : ℕ) (p : Proc)
      → get_elem? ps i ≡ some p
      → p.state ≡ runnable
      → ((j : ℕ) (q : Proc)
          → get_elem? ps j ≡ some q
          → q.state ≡ runnable
          → (key p < key q) ⊎ ((key p ≡ key q) × (i ≤ j)))
      → Chosen key ps (some (i, p))

pub runnable_of : (s : ProcState) → state_eq s runnable ≡ true → s ≡ runnable
runnable_of runnable e = refl
runnable_of _ e = cc

pub not_runnable_of : (s : ProcState) → state_eq s runnable ≡ false → s ≢ runnable
not_runnable_of runnable e h = cc
not_runnable_of _ e h = cc

-- The scan by any key.
unfoldable pub scan_by : (Proc → ℕ) → ℕ → Option (ℕ × Proc) → List Proc → Option (ℕ × Proc)
scan_by key i low [] = low
scan_by key i low (p ∷ ps) =
    scan_by key (suc i) (if state_eq p.state runnable then consider key i p low else low) ps

module _ (key : Proc → ℕ) where
  Beats : Option (ℕ × Proc) → Proc → Type 0
  Beats none p = Unit {0}
  Beats (some (m, q)) p = key p < key q

  -- No runnable process of the list has a lower key.
  abbrev Least : Proc → List Proc → Type 0
  Least p ps = (j : ℕ) (q : Proc) → get_elem? ps j ≡ some q → q.state ≡ runnable → key p ≤ key q

  -- Slot `j` is the first with the lowest key.
  abbrev FirstLeast : ℕ → Proc → List Proc → Type 0
  FirstLeast i p ps =
      (j : ℕ) (q : Proc)
      → get_elem? ps j ≡ some q
      → q.state ≡ runnable
      → (key p < key q) ⊎ ((key p ≡ key q) × (i ≤ j))

  -- What the scan finds in the rest of the table, with the choice so far.
  data Scanned (i : ℕ) (ps : List Proc) : Option (ℕ × Proc) → Option (ℕ × Proc) → Type 0 where
    nobody_yet :
        ((j : ℕ) (q : Proc) → get_elem? ps j ≡ some q → q.state ≢ runnable) → Scanned i ps none none
    kept : (m : ℕ) (p : Proc) → Least p ps → Scanned i ps (some (m, p)) (some (m, p))
    taken :
        (low : Option (ℕ × Proc)) (n j : ℕ) (p : Proc)
        → n ≡ i + j
        → get_elem? ps j ≡ some p
        → p.state ≡ runnable
        → FirstLeast j p ps
        → Beats low p
        → Scanned i ps low (some (n, p))

  Scanned-idle :
      (i : ℕ) (x : Proc) (ps : List Proc) {low r : Option (ℕ × Proc)}
      → x.state ≢ runnable
      → Scanned (suc i) ps low r
      → Scanned i (x ∷ ps) low r
  Scanned-idle i x ps idle (nobody_yet h) = nobody_yet none_here
    where
      none_here : (j : ℕ) (q : Proc) → get_elem? (x ∷ ps) j ≡ some q → q.state ≢ runnable
      none_here zero q e r = idle (ap (λ (p : Proc). p.state) (some-injective x q e) ∙ r)
      none_here (suc j) q e r = h j q e r
  Scanned-idle i x ps idle (kept m p h) = kept m p least
    where
      least : Least p (x ∷ ps)
      least zero q e r = absurd (idle (ap (λ (y : Proc). y.state) (some-injective x q e) ∙ r))
      least (suc j) q e r = h j q e r
  Scanned-idle i x ps idle (taken low n j p at here runs first beats) =
      taken low n (suc j) p (omega arith) here runs firsts beats
    where
      firsts : FirstLeast (suc j) p (x ∷ ps)
      firsts zero q e r = absurd (idle (ap (λ (y : Proc). y.state) (some-injective x q e) ∙ r))
      firsts (suc i') q e r = ground (arith, first i' q e r)

  -- The key of the process at the head, and of one further on.
  key-head : (x q : Proc) (ps : List Proc) → get_elem? (x ∷ ps) 0 ≡ some q → key x ≡ key q
  key-head x q ps e = ap key (some-injective x q e)

  head-Least : (x : Proc) (ps : List Proc) → Least x ps → FirstLeast 0 x (x ∷ ps)
  head-Least x ps h zero q e r = inr (key-head x q ps e, omega arith)
  head-Least x ps h (suc j) q e r = ground (arith, h j q e r)

  Beats-trans : (low : Option (ℕ × Proc)) (x p : Proc) → Beats low x → key p ≤ key x → Beats low p
  unfolding Beats
  Beats-trans none x p b h = tt
  Beats-trans (some (m, q)) x p b h = omega arith

  firsts_below :
      (j : ℕ) (p x : Proc) (ps : List Proc)
      → key p < key x
      → FirstLeast j p ps
      → FirstLeast (suc j) p (x ∷ ps)
  firsts_below j p x ps lt first zero q e r = inl (omega (arith, key-head x q ps e))
  firsts_below j p x ps lt first (suc n) q e r = ground (arith, first n q e r)

  Beats-some :
      (low : Option (ℕ × Proc)) (i : ℕ) (x p : Proc)
      → low ≡ some (i, x)
      → Beats low p
      → key p < key x
  unfolding Beats
  Beats-some none i x p e b = cc
  Beats-some (some (m, q)) i x p e b =
      let same = ap (λ (y : ℕ × Proc). key y.1) (some-injective (m, q) (i, x) e) in
      omega (arith, same)

  -- The process at the head is the new choice.
  Scanned-new :
      (i : ℕ) (x : Proc) (ps : List Proc) (low : Option (ℕ × Proc)) {new r : Option (ℕ × Proc)}
      → x.state ≡ runnable
      → Beats low x
      → new ≡ some (i, x)
      → Scanned (suc i) ps new r
      → Scanned i (x ∷ ps) low r
  Scanned-new i x ps low runs beats e (nobody_yet h) = cc
  Scanned-new i x ps low runs beats e (kept m p h) =
      let same = some-injective (m, p) (i, x) e in
      subst (λ y. Scanned i (x ∷ ps) low (some y)) (sym same)
        (taken low i 0 x (omega arith) refl runs
          (head-Least x ps (subst (λ (y : ℕ × Proc). Least y.1 ps) same h)) beats)
  Scanned-new i x ps low runs beats e (taken new n j p at here ready first wins) =
      let lt = Beats-some new i x p e wins in
      taken low n (suc j) p (omega arith) here ready (firsts_below j p x ps lt first)
        (Beats-trans low x p beats (omega arith))

  -- The process at the head does not beat the choice so far.
  Scanned-old :
      (i : ℕ) (x : Proc) (ps : List Proc) (m : ℕ) (q : Proc) {low r : Option (ℕ × Proc)}
      → key q ≤ key x
      → low ≡ some (m, q)
      → Scanned (suc i) ps low r
      → Scanned i (x ∷ ps) low r
  Scanned-old i x ps m q le e (nobody_yet h) = cc
  Scanned-old i x ps m q le e (kept n p h) = kept n p least
    where
      least : Least p (x ∷ ps)
      least zero y g r = omega (
        arith,
        key-head x y ps g,
        ap (λ (z : ℕ × Proc). key z.1) (some-injective (n, p) (m, q) e),
      )
      least (suc j) y g r = h j y g r
  Scanned-old i x ps m q le e (taken low n j p at here ready first wins) =
      let lt = Beats-some low m q p e wins in
      taken low n (suc j) p (omega arith) here ready (firsts_below j p x ps (omega arith) first)
        wins

  -- A runnable process at the head, whatever the rest of the scan finds.
  Scanned-consider :
      (i : ℕ) (x : Proc) (ps : List Proc) (low : Option (ℕ × Proc))
      (rest : Option (ℕ × Proc) → Option (ℕ × Proc))
      → x.state ≡ runnable
      → ((new : Option (ℕ × Proc)) → Scanned (suc i) ps new (rest new))
      → Scanned i (x ∷ ps) low (rest (consider key i x low))
  unfolding consider Beats
  Scanned-consider i x ps none rest runs ih =
      Scanned-new i x ps none runs tt refl (ih (some (i, x)))
  Scanned-consider i x ps (some (m, q)) rest runs ih = elim (Bool-cases (ltb (key x) (key q))) [
    | inl lower ↦
        rw lower (Scanned-new i x ps (some (m, q)) runs (ground arith) refl (ih (some (i, x))))
    | inr higher ↦ rw higher (Scanned-old i x ps m q (ground arith) refl (ih (some (m, q))))
  ]

  scan_by-Scanned :
      (ps : List Proc) (i : ℕ) (low : Option (ℕ × Proc)) → Scanned i ps low (scan_by key i low ps)
  unfolding scan_by
  scan_by-Scanned [] i none = nobody_yet (λ j q e. cc e)
  scan_by-Scanned [] i (some (m, p)) = kept m p (λ j q e r. absurd (cc e))
  scan_by-Scanned (x ∷ ps) i low = elim (Bool-cases (state_eq x.state runnable)) [
    | inl runs ↦ rw runs (
        Scanned-consider i x ps low (λ new. scan_by key (suc i) new ps) (runnable_of x.state runs)
          (λ new. scan_by-Scanned ps (suc i) new))
    | inr idle ↦
        rw idle
          (Scanned-idle i x ps (not_runnable_of x.state idle) (scan_by-Scanned ps (suc i) low))
  ]

  pub scan_by-Chosen : (ps : List Proc) → Chosen key ps (scan_by key 0 none ps)
  scan_by-Chosen ps = chosen refl (scan_by-Scanned ps 0 none)
    where
      chosen : {low r : Option (ℕ × Proc)} → low ≡ none → Scanned 0 ps low r → Chosen key ps r
      chosen e (nobody_yet h) = nobody h
      chosen e (kept m p h) = cc
      chosen e (taken low n j p at here runs first beats) =
          let e' : n ≡ j = omega arith in
          lowest n p (rw e' here) runs (λ i q g r. ground (arith, first i q g r))
