-- ===== src/Kalloc/Freelist.antt =====
-- The free list of kernel/kalloc.c and the list of pages that it stands for.
use osn.Base.{
  ℕ, ◌%◌, ◌≤◌, ◌<◌, ◌≡◌, ◌≢◌, refl, sym, ◌∙◌, List, [], ◌∷◌, arith, update, update_self, update_ne,
  inl, inr, ◌⊎◌, subst, ==_ne,
}
use osn.File.{done, panicked}
use osn.Kalloc.{Kmem, junk, kfree, kalloc, bad_page, pgsize}

-- The address of a page of the allocator's range.
abbrev pub IsPage : ℕ → ℕ → ℕ → Type 0
IsPage end phystop pa = (pa % pgsize ≡ 0) × (end ≤ pa) × (pa < phystop)

-- The page is none of these.
abbrev pub Fresh : ℕ → List ℕ → Type 0
Fresh pa [] = Unit {0}
Fresh pa (q ∷ qs) = (pa ≢ q) × Fresh pa qs

-- From address `p` the links lead through exactly these pages, all of the range and no two the same.
pub data Links (end phystop : ℕ) (mem : ℕ → ℕ) : ℕ → List ℕ → Type 0 where
  null : Links end phystop mem 0 []
  link :
      (p : ℕ) (ps : List ℕ)
      → IsPage end phystop p
      → Fresh p ps
      → Links end phystop mem (mem p) ps
      → Links end phystop mem p (p ∷ ps)

-- The allocator holds exactly these free pages, the next to be given first.
abbrev pub FreePages : ℕ → ℕ → Kmem → List ℕ → Type 0
FreePages end phystop km ps = Links end phystop km.mem km.freelist ps

-- Filling a page leaves the words of the others.
junk_other :
    (c pa p : ℕ) (mem : ℕ → ℕ) → pa % pgsize ≡ 0 → p % pgsize ≡ 0 → pa ≢ p → junk c pa mem p ≡ mem p
unfolding junk
junk_other c pa p mem a b ne = ground arith

module _ (end phystop : ℕ) where
  -- Links through other pages are the same in a memory that has the same words there.
  Links-same :
      (mem mem' : ℕ → ℕ) {p : ℕ} {ps : List ℕ} (pa : ℕ)
      → ((q : ℕ) → q % pgsize ≡ 0 → pa ≢ q → mem' q ≡ mem q)
      → Fresh pa ps
      → Links end phystop mem p ps
      → Links end phystop mem' p ps
  Links-same mem mem' pa same fresh null = null
  Links-same mem mem' pa same fresh (link p ps page distinct rest) = link p ps page distinct (
      subst (λ q. Links end phystop mem' q ps) (sym (same p page.0 fresh.0))
        (Links-same mem mem' pa same fresh.1 rest))

  -- A page of the range that is not free can be freed: it becomes the first free page.
  pub kfree-FreePages :
      (pa : ℕ) (km : Kmem) (ps : List ℕ)
      → FreePages end phystop km ps
      → IsPage end phystop pa
      → Fresh pa ps
      → (km' : Kmem) × (kfree end phystop pa km ≡ done km') × FreePages end phystop km' (pa ∷ ps)
  unfolding kfree bad_page
  kfree-FreePages pa km ps free page fresh = (
    record { mem = update (junk 1 pa km.mem) pa km.freelist; freelist = pa },
    ground arith,
    link pa ps page fresh (
        subst (λ q. Links end phystop (update (junk 1 pa km.mem) pa km.freelist) q ps)
          (sym (update_self (junk 1 pa km.mem) pa km.freelist))
          (Links-same km.mem (update (junk 1 pa km.mem) pa km.freelist) pa
            (λ q al ne.
              update_ne (junk 1 pa km.mem) pa q km.freelist ne
              ∙ junk_other 1 pa q km.mem page.0 al ne)
            fresh free)),
  )

  -- Freeing an address that is not of the range panics.
  pub kfree_bad :
      (pa : ℕ) (km : Kmem)
      → ((pa % pgsize ≢ 0) ⊎ ((pa < end) ⊎ (phystop ≤ pa)))
      → kfree end phystop pa km ≡ panicked
  unfolding kfree bad_page
  kfree_bad pa km h = elim h [
    | inl a ↦ ground arith
    | inr b ↦ elim b [ inl c ↦ ground arith | inr d ↦ ground arith ]
  ]

  kalloc-Links :
      (mem : ℕ → ℕ) {p : ℕ} {ps : List ℕ}
      → 0 < end
      → Links end phystop mem p ps
      → ((ps ≡ [])
          × (kalloc (record { mem = mem; freelist = p }) ≡ (record { mem = mem; freelist = p }, 0)))
        ⊎ ((pa : ℕ) × (qs : List ℕ) × (km' : Kmem) × (ps ≡ pa ∷ qs)
            × (kalloc (record { mem = mem; freelist = p }) ≡ (km', pa))
            × IsPage end phystop pa
            × Fresh pa qs
            × FreePages end phystop km' qs)
  unfolding kalloc
  kalloc-Links mem pos_end null = inl (refl, refl)
  kalloc-Links mem pos_end (link p ps page fresh rest) = inr (
    p,
    ps,
    record { mem = junk 5 p mem; freelist = mem p },
    refl,
    rw (==_ne p 0 (λ z. omega arith)) refl,
    page,
    fresh,
    Links-same mem (junk 5 p mem) p (λ q al ne. junk_other 5 p q mem page.0 al ne) fresh rest,
  )

  -- If address 0 is not of the range, `kalloc` gives null exactly when no page is free, and otherwise the first free page, which is in the range
  -- and is not free any more.
  pub kalloc-FreePages :
      (km : Kmem) {ps : List ℕ}
      → 0 < end
      → FreePages end phystop km ps
      → ((ps ≡ []) × (kalloc km ≡ (km, 0)))
        ⊎ ((pa : ℕ) × (qs : List ℕ) × (km' : Kmem) × (ps ≡ pa ∷ qs)
            × (kalloc km ≡ (km', pa))
            × IsPage end phystop pa
            × Fresh pa qs
            × FreePages end phystop km' qs)
  kalloc-FreePages km pos_end free = kalloc-Links km.mem pos_end free
