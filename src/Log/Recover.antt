-- ===== src/Log/Recover.antt =====
-- What a recovery of kernel/log.c makes of the disk.
use osn.Base.{
  ℕ, ◌+◌, ◌-◌, ◌<◌, ◌≡◌, refl, ap, sym, ◌∙◌, List, [], ◌∷◌, Option, none, some, true, false, ◌==◌,
  ltb, leb, ◌||◌, arith, if◌then◌else◌, length, inl, inr, ◌⊎◌, All, subst, Bool-cases,
}
use osn.Base.Int.{pos}
use osn.Log.{LogState, among, write_head, install_trans, restart, recover_from_log, read_head}
use osn.Log.Install.{Home, LogHolds, Installed, install_from-Installed}

Home-of : (x start size : ℕ) → (ltb x start || leb (start + size) x) ≡ true → Home start size x
Home-of x start size h = elim (Bool-cases (ltb x start)) [
  | inl lt ↦ inl (ground arith)
  | inr ge ↦ inr (ground arith)
]

module _ {B : Type 0} where
  -- What a disk holds besides the log: nothing at the log's own blocks.
  pub home_view : LogState B → (ℕ → B) → ℕ → Option B
  home_view s f x = if ltb x s.start || leb (s.start + s.size) x then some (f x) else none

  -- The disk as the commit makes it: the logged blocks as in the cache, the others as they were.
  unfoldable pub committed : LogState B → ℕ → B
  committed s x = if among x s.lh then s.cache x else s.disk x

  -- The log blocks of another state that agrees with this one there, on disk, and has no other blocks cached.
  pub LogHolds-in :
      (v : ℕ → B) (s r : LogState B) (tail : ℕ) (bs : List ℕ)
      → tail + length bs < s.size
      → r.start ≡ s.start
      → ((x : ℕ)
          → s.start < x
          → x < s.start + s.size
          → (r.disk x ≡ s.disk x) × ((r.cache x ≡ s.cache x) ⊎ (r.cache x ≡ s.disk x)))
      → LogHolds v s tail bs
      → LogHolds v r tail bs
  LogHolds-in v s r tail [] room at same h = tt
  LogHolds-in v s r tail (b ∷ bs) room at same h =
      let (d, c) = same (s.start + tail + 1) (omega arith) (omega arith) in
      (
        ap (λ n. r.disk (n + tail + 1)) at ∙ (d ∙ h.0),
        ap (λ n. r.cache (n + tail + 1)) at ∙ elim c [ inl e ↦ e ∙ h.1 | inr e ↦ e ∙ h.0 ],
        LogHolds-in v s r (tail + 1) bs (omega arith) at same h.2,
      )

  pub home_view-eq :
      (s : LogState B) (f g : ℕ → B)
      → ((x : ℕ) → Home s.start s.size x → f x ≡ g x)
      → (x : ℕ) → home_view s f x ≡ home_view s g x
  unfolding home_view
  home_view-eq s f g same x = elim (Bool-cases (ltb x s.start || leb (s.start + s.size) x)) [
    | inl home ↦ rw home (ap some (same x (Home-of x s.start s.size home)))
    | inr log ↦ rw log refl
  ]

  -- A write of the header, with the power on or off.
  pub write_head_cases :
      (s : LogState B)
      → ((s.writes ≡ 0) × (write_head s ≡ s))
        ⊎ ((0 < s.writes) × (write_head s ≡ record s { head = s.lh; writes = s.writes - 1 }))
  unfolding write_head
  write_head_cases s = elim (Bool-cases (s.writes == 0)) [
    | inl z ↦ inl (ground arith, rw z refl)
    | inr nz ↦ inr (ground arith, rw nz refl)
  ]

  write_head-disk : (s : LogState B) → (write_head s).disk ≡ s.disk
  write_head-disk s = elim (write_head_cases s) [
    | inl (z, e) ↦ ap (λ t. t.disk) e
    | inr (more, e) ↦ ap (λ t. t.disk) e
  ]

  write_head-head : (s : LogState B) → 0 < s.writes → (write_head s).head ≡ s.lh
  write_head-head s more = elim (write_head_cases s) [
    | inl (z, e) ↦ let w : ⊥ = omega arith in elim w [ ]
    | inr (_, e) ↦ ap (λ t. t.head) e
  ]

  -- Recovery with writes enough, from a log that holds `v` of the blocks that its header names.
  recovered_head :
      (v : ℕ → B) (n : ℕ) (s : LogState B)
      → All (Home s.start s.size) s.head
      → length s.head < s.size
      → length s.head < n
      → LogHolds v (record s { cache = s.disk }) 0 s.head
      → ((restart n s).head ≡ [])
        × ((x : ℕ) → (restart n s).disk x ≡ (if among x s.head then v x else s.disk x))
  unfolding restart recover_from_log read_head install_trans
  recovered_head v n s home room enough h =
      let s0 : LogState B = record s {
        outstanding = pos 0;
        committing = false;
        lh = s.head;
        cache = s.disk;
        writes = n;
      } in
      let r = install_trans true s0 in
      let i : Installed v s.head s0 r =
        install_from-Installed true v 0 s.head s0 home (omega arith) (
          LogHolds-in v (record s { cache = s.disk }) s0 0 s.head (omega arith) refl
            (λ x a b. (refl, inr refl)) h) in
      (
        write_head-head (record r { lh = [] }) (omega (arith, i.spent)),
        λ x.
            ap (λ f. f x) (write_head-disk (record r { lh = [] }))
            ∙ elim (Bool-cases (among x s.head)) [
              | inl inside ↦ rw inside (i.installed x inside (omega arith))
              | inr out ↦ rw out (i.others x out)
            ],
      )

  pub recovered :
      (v : ℕ → B) (n : ℕ) (s : LogState B) (hs : List ℕ)
      → s.head ≡ hs
      → All (Home s.start s.size) hs
      → length hs < s.size
      → length hs < n
      → LogHolds v (record s { cache = s.disk }) 0 hs
      → ((restart n s).head ≡ [])
        × ((x : ℕ) → (restart n s).disk x ≡ (if among x hs then v x else s.disk x))
  recovered v n s hs e home room enough h =
      let r =
        recovered_head v n s (subst (All (Home s.start s.size)) (sym e) home)
          (omega (arith, ap length e)) (omega (arith, ap length e))
          (subst (LogHolds v (record s { cache = s.disk }) 0) (sym e) h) in
      (r.0, λ x. r.1 x ∙ ap (λ l. if among x l then v x else s.disk x) e)
