-- ===== src/Kalloc/Freerange.antt =====
-- The loop of `freerange` of kernel/kalloc.c, and `kinit`.
use osn.Base.{
  ℕ, zero, suc, ◌+◌, ◌*◌, ◌/◌, ◌%◌, ◌≤◌, ◌<◌, ◌≡◌, refl, ◌∙◌, List, [], ◌∷◌, true, false, leb,
  arith, inl, inr, ◌⊎◌, All, Bool-cases,
}
use osn.File.{done}
use osn.Kalloc.{Kmem, kfree, freerange_from, freerange, kinit, pgsize}
use osn.Kalloc.Freelist.{FreePages, Fresh, kfree-FreePages, null}

-- The page is one of these.
abbrev pub Among : ℕ → List ℕ → Type 0
Among q [] = ⊥
Among q (p ∷ ps) = (q ≡ p) ⊎ Among q ps

Fresh-of_below : (p : ℕ) (ps : List ℕ) → All (λ q. q < p) ps → Fresh p ps
Fresh-of_below p [] h = tt
Fresh-of_below p (q ∷ ps) h = ((λ e. omega (arith, h.0)), Fresh-of_below p ps h.1)

below_more : (p n : ℕ) (ps : List ℕ) → All (λ q. q < p) ps → All (λ q. q < p + n) ps
below_more p n [] h = tt
below_more p n (q ∷ ps) h = (omega (arith, h.0), below_more p n ps h.1)

module _ (end phystop : ℕ) where
  -- A step of the loop.
  freerange_from-page :
      (fuel p pa_end : ℕ) (km km1 : Kmem)
      → leb (p + pgsize) pa_end ≡ true
      → kfree end phystop p km ≡ done km1
      → freerange_from end phystop (suc fuel) p pa_end km
        ≡ freerange_from end phystop fuel (p + pgsize) pa_end km1
  unfolding freerange_from
  freerange_from-page fuel p pa_end km km1 b run = ground arith

  freerange_from-end :
      (fuel p pa_end : ℕ) (km : Kmem)
      → leb (p + pgsize) pa_end ≡ false
      → freerange_from end phystop (suc fuel) p pa_end km ≡ done km
  unfolding freerange_from
  freerange_from-end fuel p pa_end km b = ground arith

  -- With fuel for each page, the loop ends without a panic, and has freed every whole page from `p` on.
  freerange_from-FreePages :
      (fuel p pa_end : ℕ) (km : Kmem) (ps : List ℕ)
      → pa_end < p + fuel * pgsize
      → pa_end ≤ phystop
      → end ≤ p
      → p % pgsize ≡ 0
      → All (λ q. q < p) ps
      → FreePages end phystop km ps
      → (km' : Kmem) × (qs : List ℕ) × (freerange_from end phystop fuel p pa_end km ≡ done km')
        × FreePages end phystop km' qs
        × ((q : ℕ) → Among q ps → Among q qs)
        × ((q : ℕ) → q % pgsize ≡ 0 → p ≤ q → q + pgsize ≤ pa_end → Among q qs)
  unfolding freerange_from
  freerange_from-FreePages zero p pa_end km ps room hi lo al below free =
      (km, ps, refl, free, λ q h. h, λ q a b c. let z : ⊥ = omega arith in elim z [ ])
  freerange_from-FreePages (suc fuel) p pa_end km ps room hi lo al below free =
      elim (Bool-cases (leb (p + pgsize) pa_end)) [
        | inl b ↦
            let (km1, run, free1) =
              kfree-FreePages end phystop p km ps free (al, lo, ground arith)
                (Fresh-of_below p ps below) in
            let (km', qs, run', free', keep, all) =
              freerange_from-FreePages fuel (p + pgsize) pa_end km1 (p ∷ ps) (omega arith) hi
                (omega arith) (omega arith) (omega arith, below_more p pgsize ps below) free1 in
            (
              km',
              qs,
              freerange_from-page fuel p pa_end km km1 b run ∙ run',
              free',
              λ q h. keep q (inr h),
              λ q a lo' hi'. elim (Bool-cases (leb (p + pgsize) q)) [
                | inl c ↦ all q a (ground arith) hi'
                | inr c ↦ keep q (inl (ground arith))
              ],
            )
        | inr b ↦ (
          km,
          ps,
          freerange_from-end fuel p pa_end km b,
          free,
          λ q h. h,
          λ q x y z. let w : ⊥ = ground arith in elim w [ ],
        )
      ]

  -- `kinit` frees every whole page between the kernel's end and the end of memory, and panics on none.
  pub kinit-FreePages :
      (mem : ℕ → ℕ)
      → (km' : Kmem) × (qs : List ℕ) × (kinit end phystop (record { mem = mem; freelist = 0 })
          ≡ done km')
        × FreePages end phystop km' qs
        × ((q : ℕ) → q % pgsize ≡ 0 → end ≤ q → q + pgsize ≤ phystop → Among q qs)
  unfolding kinit freerange
  kinit-FreePages mem =
      let (km', qs, run, free, keep, all) =
        freerange_from-FreePages (phystop / pgsize + 1) ((end + 4095) / pgsize * pgsize) phystop
          (record { mem = mem; freelist = 0 }) [] (omega arith) (omega arith) (omega arith)
          (omega arith) tt null in
      (km', qs, run, free, λ q a b c. all q a (omega arith) c)
