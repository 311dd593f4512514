-- ===== src/Proc/Exit/Orphans.antt =====
-- The parents of the processes after `reparent` and `exit` of kernel/proc.c.
use osn.Base.{
  ℕ, zero, suc, ◌+◌, ◌≤◌, ◌≡◌, refl, List, [], ◌∷◌, Option, none, some, ◌==◌, ◌&&◌, ltb, leb,
  if◌then◌else◌, get_elem?, each, same_slot, get_elem?-each_zero, length, length-each, arith,
  Option-cases, inl, inr, ◌∙◌, Bool-cases,
}
use osn.Proc.{Proc, Kernel, Chan}
use osn.Proc.Wakeup.{at_proc, wakeup, wakeup_slot}
use osn.Proc.Exit.{reparent_from, reparent, reparent_slot, chan_of}

-- The parent of the process at a slot, if there is such a slot.
pub parent_at : Kernel → ℕ → Option (Option ℕ)
parent_at k j = elim (get_elem? k.procs j) [ none ↦ none | some p ↦ some p.parent ]

pub parent_at-each :
    (k : Kernel) (body : ℕ → Proc → Proc) (j : ℕ)
    → ((p : Proc) → (body j p).parent ≡ p.parent)
    → parent_at (record k { procs = each 0 body k.procs }) j ≡ parent_at k j
unfolding parent_at
parent_at-each k body j same = elim (Option-cases (get_elem? k.procs j)) [
  | inl e ↦ ground (arith, get_elem?-each_zero j body k.procs)
  | inr (p, e) ↦ ground (arith, get_elem?-each_zero j body k.procs, same p)
]

pub parent_at-wakeup :
    (me : Option ℕ) (chan : Chan) (k : Kernel) (j : ℕ)
    → parent_at (wakeup me chan k) j ≡ parent_at k j
unfolding wakeup
parent_at-wakeup me chan k j = parent_at-each k (wakeup_slot me chan k.ticks) j keeps
  where
    keeps : (p : Proc) → (wakeup_slot me chan k.ticks j p).parent ≡ p.parent
    keeps p = ground arith

-- A child of `me` gets the new parent.
unfoldable pub adopt : ℕ → Option ℕ → Option (Option ℕ) → Option (Option ℕ)
adopt me new none = none
adopt me new (some q) = if same_slot q (some me) then some new else some q

parent_at-at_proc :
    (i : ℕ) (new : Option ℕ) (k : Kernel) (j : ℕ) (p : Proc)
    → get_elem? k.procs j ≡ some p
    → parent_at (at_proc i (λ q. record q { parent = new }) k) j
      ≡ some (if j == i then new else p.parent)
unfolding parent_at at_proc
parent_at-at_proc i new k j p e = ground (
  arith,
  get_elem?-each_zero j (λ (n : ℕ) (q : Proc). if n == i then record q { parent = new } else q)
      k.procs,
)

parent_at-some :
    (k : Kernel) (j : ℕ) (p : Proc) → get_elem? k.procs j ≡ some p → parent_at k j ≡ some p.parent
unfolding parent_at
parent_at-some k j p e = ground arith

-- A slot past the table stays past it.
parent_at-at_proc-none :
    (i : ℕ) (new : Option ℕ) (k : Kernel) (j : ℕ)
    → get_elem? k.procs j ≡ none
    → parent_at (at_proc i (λ q. record q { parent = new }) k) j ≡ parent_at k j
unfolding parent_at at_proc
parent_at-at_proc-none i new k j e = ground (
  arith,
  get_elem?-each_zero j (λ (n : ℕ) (q : Proc). if n == i then record q { parent = new } else q)
      k.procs,
)

parent_at-none : (k : Kernel) (j : ℕ) → get_elem? k.procs j ≡ none → parent_at k j ≡ none
unfolding parent_at
parent_at-none k j e = ground arith

pub slot-none : (me i : ℕ) (k : Kernel) → get_elem? k.procs i ≡ none → reparent_slot me i k ≡ k
unfolding reparent_slot
slot-none me i k e = rw (e, reparent_slot)

abbrev pub adopted : ℕ → ℕ → Kernel → Kernel
adopted me i k =
    wakeup (some me) (chan_of k.initproc) (at_proc i (λ p. record p { parent = k.initproc }) k)

pub slot-some :
    (me i : ℕ) (k : Kernel) (pp : Proc)
    → get_elem? k.procs i ≡ some pp
    → reparent_slot me i k ≡ (if same_slot pp.parent (some me) then adopted me i k else k)
unfolding reparent_slot
slot-some me i k pp e = rw (e, reparent_slot)

parent_at-adopted :
    (me i : ℕ) (k : Kernel) (j : ℕ) (pp : Proc)
    → get_elem? k.procs i ≡ some pp
    → parent_at (adopted me i k) j ≡ (if j == i then some k.initproc else parent_at k j)
parent_at-adopted me i k j pp here =
    parent_at-wakeup (some me) (chan_of k.initproc) _ j
    ∙ elim (Option-cases (get_elem? k.procs j)) [
      | inl past ↦ parent_at-at_proc-none i k.initproc k j past ∙ ground arith
      | inr (p, e) ↦ parent_at-at_proc i k.initproc k j p e ∙ ground (arith, parent_at-some k j p e)
    ]

-- One round changes the parent at its own slot only, and only of a child of `me`.
parent_at-slot :
    (me i : ℕ) (k : Kernel) (j : ℕ)
    → parent_at (reparent_slot me i k) j
      ≡ (if j == i then adopt me k.initproc (parent_at k j) else parent_at k j)
unfolding adopt
parent_at-slot me i k j = elim (Option-cases (get_elem? k.procs i)) [
  | inl past ↦ rw (slot-none me i k past) (ground (arith, parent_at-none k i past))
  | inr (pp, here) ↦
      let own = parent_at-some k i pp here in
      let given = parent_at-adopted me i k j pp here in
      rw (slot-some me i k pp here) (elim (Bool-cases (same_slot pp.parent (some me))) [
        | inl child ↦ rw child (given ∙ ground arith)
        | inr other ↦ rw other (ground arith)
      ])
]

initproc-slot : (me i : ℕ) (k : Kernel) → (reparent_slot me i k).initproc ≡ k.initproc
unfolding reparent_slot at_proc wakeup
initproc-slot me i k = ground arith

length-slot : (me i : ℕ) (k : Kernel) → length (reparent_slot me i k).procs ≡ length k.procs
unfolding reparent_slot at_proc wakeup
length-slot me i k = elim (Option-cases (get_elem? k.procs i)) [
  | inl past ↦ rw (slot-none me i k past) refl
  | inr (pp, here) ↦
      rw (slot-some me i k pp here) (elim (Bool-cases (same_slot pp.parent (some me))) [
        | inl child ↦ rw (child, length-each, length-each) refl
        | inr other ↦ rw other refl
      ])
]

parent_at-from :
    (n me i : ℕ) (k : Kernel) (j : ℕ)
    → parent_at (reparent_from me i n k) j
      ≡ (if leb i j && ltb j (i + n) then adopt me k.initproc (parent_at k j) else parent_at k j)
unfolding reparent_from
parent_at-from zero me i k j = ground arith
parent_at-from (suc n) me i k j = ground (
  arith,
  parent_at-from n me (suc i) (reparent_slot me i k) j,
  parent_at-slot me i k j,
  initproc-slot me i k,
)

get_past : (ps : List Proc) (j : ℕ) → length ps ≤ j → get_elem? ps j ≡ none
get_past [] j h = refl
get_past (p ∷ ps) zero h = absurd (omega arith)
get_past (p ∷ ps) (suc j) h = get_past ps j (omega arith)

-- `reparent` gives every child of the process to init and changes no other parent.
pub parent_at-reparent :
    (me : ℕ) (k : Kernel) (j : ℕ)
    → parent_at (reparent me k) j ≡ adopt me k.initproc (parent_at k j)
unfolding reparent adopt
parent_at-reparent me k j = elim (Bool-cases (ltb j (0 + length k.procs))) [
  | inl in_table ↦ parent_at-from (length k.procs) me 0 k j ∙ ground arith
  | inr past ↦
      parent_at-from (length k.procs) me 0 k j
      ∙ ground (arith, parent_at-none k j (get_past k.procs j (ground arith)))
]
