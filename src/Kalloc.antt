-- ===== src/Kalloc.antt =====
-- kernel/kalloc.c: the free list of physical pages. A free page keeps the address of the next one in its
-- first eight bytes, a word of `mem`, so the list lives in the pages it lists.
pub mod Freelist
pub mod Freerange
use osn.Base.{
  ℕ, zero, suc, ◌+◌, ◌*◌, ◌/◌, ◌%◌, ◌≡◌, List, Option, none, some, Bool, true, false, not, ◌==◌,
  ltb, leb, ◌&&◌, ◌||◌, if◌then◌else◌, update,
}
use osn.File.{Outcome, done, panicked, ◌>>=◌}

abbrev pub pgsize : ℕ
pgsize = 4096

-- The words of physical memory by their addresses, and `kmem.freelist`; address 0 is null.
pub record Kmem : Type 0 where
  pub mem : ℕ → ℕ
  pub freelist : ℕ

-- `memset(pa, c, PGSIZE)` of an aligned page, in words that hold the byte eight times.
pub junk : ℕ → ℕ → (ℕ → ℕ) → ℕ → ℕ
junk c pa mem a = if leb pa a && ltb a (pa + pgsize) then c * 72340172838076673 else mem a

-- `end` is the first address after the kernel and `phystop` the end of memory.
module _ (end phystop : ℕ) where
  -- The test of `kfree` that panics.
  pub bad_page : ℕ → Bool
  bad_page pa = not (pa % pgsize == 0) || ltb pa end || leb phystop pa

  pub kfree : ℕ → Kmem → Outcome Kmem
  unfolding bad_page junk
  kfree pa km =
      if bad_page pa
      then panicked
      else done (record { mem = update (junk 1 pa km.mem) pa km.freelist; freelist = pa })

  -- The loop of `freerange`, with fuel.
  pub freerange_from : ℕ → ℕ → ℕ → Kmem → Outcome Kmem
  unfolding kfree
  freerange_from zero p pa_end km = done km
  freerange_from (suc fuel) p pa_end km = elim (leb (p + pgsize) pa_end) [
    | true ↦ kfree p km >>= freerange_from fuel (p + pgsize) pa_end
    | false ↦ done km
  ]

  -- `freerange`: each page takes one unit of fuel, so `pa_end / PGSIZE + 1` is enough.
  pub freerange : ℕ → ℕ → Kmem → Outcome Kmem
  unfolding freerange_from
  freerange pa_start pa_end km =
      freerange_from (pa_end / pgsize + 1) ((pa_start + 4095) / pgsize * pgsize) pa_end km

  -- `kinit`, after which every whole page from `end` to `PHYSTOP` is free.
  pub kinit : Kmem → Outcome Kmem
  unfolding freerange
  kinit km = freerange end phystop km

-- The page, or null.
pub kalloc : Kmem → Kmem × ℕ
unfolding junk
kalloc km =
    let r = km.freelist in
    if r == 0 then (km, 0) else (record { mem = junk 5 r km.mem; freelist = km.mem r }, r)
