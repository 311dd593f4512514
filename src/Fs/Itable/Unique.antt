-- ===== src/Fs/Itable/Unique.antt =====
-- The references to the inodes in memory of kernel/fs.c.
use osn.Base.{
  ℕ, zero, suc, ◌+◌, ◌≤◌, ◌<◌, ◌≡◌, inl, inr, refl, sym, ◌∙◌, Option, none, some, true, false, ◌==◌,
  ◌&&◌, if◌then◌else◌, update, update_self, update_ne, arith, Bool-cases, ℕ_discrete, subst,
}
use osn.File.{Outcome, done, panicked}
use osn.Fs.Itable.{Inode, Files, Slot, at_slot, empty_slot, cached, search, iget, idup, ninode}

-- What is remembered of the empty slots from `lo` on.
data Miss (inodes : ℕ → Inode) (lo n : ℕ) : Option ℕ → Option ℕ → Type 0 where
  kept : (e : ℕ) → Miss inodes lo n (some e) (some e)
  full : ((j : ℕ) → lo ≤ j → j < lo + n → 0 < (inodes j).ref) → Miss inodes lo n none none
  found : (e : ℕ) → lo ≤ e → e < lo + n → (inodes e).ref ≡ 0 → Miss inodes lo n none (some e)

data Searched (dev inum : ℕ) (inodes : ℕ → Inode) (lo n : ℕ) (empty : Option ℕ)
    : Slot → Type 0 where
  hit :
      (i : ℕ)
      → lo ≤ i
      → i < lo + n
      → cached dev inum (inodes i) ≡ true
      → Searched dev inum inodes lo n empty (at_slot i)
  miss :
      (r : Option ℕ)
      → ((j : ℕ) → lo ≤ j → j < lo + n → cached dev inum (inodes j) ≡ false)
      → Miss inodes lo n empty r
      → Searched dev inum inodes lo n empty (empty_slot r)

module _ (dev inum : ℕ) (inodes : ℕ → Inode) where
  from_suc :
      (P : ℕ → Type 0) (lo n : ℕ)
      → P lo
      → ((j : ℕ) → suc lo ≤ j → j < suc lo + n → P j)
      → (j : ℕ) → lo ≤ j
      → j < lo + suc n
      → P j
  from_suc P lo n here rest j ge lt = elim (ℕ_discrete lo j) [
    | yes e ↦ subst P e here
    | no ne ↦ rest j (omega arith) (omega arith)
  ]

  Searched-suc-some :
      (lo n e : ℕ) (o : Slot)
      → cached dev inum (inodes lo) ≡ false
      → Searched dev inum inodes (suc lo) n (some e) o
      → Searched dev inum inodes lo (suc n) (some e) o
  Searched-suc-some lo n e (at_slot i) other (hit _ ge lt c) = hit i (omega arith) (omega arith) c
  Searched-suc-some lo n e (empty_slot _) other (miss _ none_cached (kept _)) =
      miss (some e) (from_suc (λ j. cached dev inum (inodes j) ≡ false) lo n other none_cached)
        (kept e)

  Searched-suc-none :
      (lo n : ℕ) (o : Slot)
      → cached dev inum (inodes lo) ≡ false
      → Searched dev inum inodes (suc lo) n (if (inodes lo).ref == 0 then some lo else none) o
      → Searched dev inum inodes lo (suc n) none o
  Searched-suc-none lo n o other h = elim (Bool-cases ((inodes lo).ref == 0)) [
    | inl z ↦
        free o (ground arith)
          (subst (λ t. Searched dev inum inodes (suc lo) n (if t then some lo else none) o) z h)
    | inr nz ↦
        in_use o (ground arith)
          (subst (λ t. Searched dev inum inodes (suc lo) n (if t then some lo else none) o) nz h)
  ]
    where
      free :
          (o : Slot)
          → (inodes lo).ref ≡ 0
          → Searched dev inum inodes (suc lo) n (some lo) o
          → Searched dev inum inodes lo (suc n) none o
      free (at_slot i) z (hit _ ge lt c) = hit i (omega arith) (omega arith) c
      free (empty_slot _) z (miss _ none_cached (kept _)) =
          miss (some lo) (from_suc (λ j. cached dev inum (inodes j) ≡ false) lo n other none_cached)
            (found lo (omega arith) (omega arith) z)

      in_use :
          (o : Slot)
          → 0 < (inodes lo).ref
          → Searched dev inum inodes (suc lo) n none o
          → Searched dev inum inodes lo (suc n) none o
      in_use (at_slot i) nz (hit _ ge lt c) = hit i (omega arith) (omega arith) c
      in_use (empty_slot _) nz (miss _ none_cached (full all)) =
          miss none (from_suc (λ j. cached dev inum (inodes j) ≡ false) lo n other none_cached)
            (full (from_suc (λ j. 0 < (inodes j).ref) lo n nz all))
      in_use (empty_slot _) nz (miss _ none_cached (found e ge lt z)) =
          miss (some e) (from_suc (λ j. cached dev inum (inodes j) ≡ false) lo n other none_cached)
            (found e (omega arith) (omega arith) z)

  search-Searched :
      (lo n : ℕ) (empty : Option ℕ)
      → Searched dev inum inodes lo n empty (search dev inum inodes lo n empty)
  unfolding search
  search-Searched lo zero (some e) = miss (some e) (λ j ge lt. absurd (omega arith)) (kept e)
  search-Searched lo zero none =
      miss none (λ j ge lt. absurd (omega arith)) (full (λ j ge lt. absurd (omega arith)))
  search-Searched lo (suc n) (some e) = elim (Bool-cases (cached dev inum (inodes lo))) [
    | inl yes_cached ↦ rw yes_cached (hit lo (omega arith) (omega arith) yes_cached)
    | inr other ↦ rw other (
        Searched-suc-some lo n e (search dev inum inodes (suc lo) n (some e)) other
          (search-Searched (suc lo) n (some e)))
  ]
  search-Searched lo (suc n) none = elim (Bool-cases (cached dev inum (inodes lo))) [
    | inl yes_cached ↦ rw yes_cached (hit lo (omega arith) (omega arith) yes_cached)
    | inr other ↦
        let next = if (inodes lo).ref == 0 then some lo else none in
        rw other (
          Searched-suc-none lo n (search dev inum inodes (suc lo) n next) other
            (search-Searched (suc lo) n next))
  ]

-- The references to an inode that one slot counts, and those that the first `n` slots count.
abbrev pub slot_refs : ℕ → ℕ → Inode → ℕ
slot_refs dev inum ip = if cached dev inum ip then ip.ref else 0

unfoldable pub count_refs : ℕ → ℕ → (ℕ → Inode) → ℕ → ℕ
count_refs dev inum inodes zero = 0
count_refs dev inum inodes (suc n) = count_refs dev inum inodes n + slot_refs dev inum (inodes n)

abbrev pub refs : Files → ℕ → ℕ → ℕ
refs s dev inum = count_refs dev inum s.inodes ninode

count_refs-update_out :
    (dev inum i n : ℕ) (inodes : ℕ → Inode) (v : Inode)
    → n ≤ i
    → count_refs dev inum (update inodes i v) n ≡ count_refs dev inum inodes n
unfolding count_refs
count_refs-update_out dev inum i zero inodes v h = refl
count_refs-update_out dev inum i (suc n) inodes v h =
    rw (count_refs-update_out dev inum i n inodes v (omega arith))
      (rw (update_ne inodes i n v (λ e. omega arith)) refl)

pub count_refs-update :
    (dev inum i n : ℕ) (inodes : ℕ → Inode) (v : Inode)
    → i < n
    → count_refs dev inum (update inodes i v) n + slot_refs dev inum (inodes i)
      ≡ count_refs dev inum inodes n + slot_refs dev inum v
unfolding count_refs
count_refs-update dev inum i zero inodes v h = absurd (omega arith)
count_refs-update dev inum i (suc n) inodes v h = elim (ℕ_discrete i n) [
  | yes e ↦
      subst
        (λ k.
          count_refs dev inum (update inodes i v) k
            + slot_refs dev inum (update inodes i v k)
            + slot_refs dev inum (inodes i)
          ≡ count_refs dev inum inodes k + slot_refs dev inum (inodes k) + slot_refs dev inum v)
        e
        (rw (count_refs-update_out dev inum i i inodes v (omega arith))
          (rw (update_self inodes i v) (omega arith)))
  | no ne ↦
      let rest = count_refs-update dev inum i n inodes v (omega arith) in
      rw (update_ne inodes i n v ne) (omega (arith, rest))
]

-- No inode is in two slots that are in use.
unfoldable pub Unique : Files → Type 0
Unique s =
    (i j dev inum : ℕ)
    → i < ninode
    → j < ninode
    → cached dev inum (s.inodes i) ≡ true
    → cached dev inum (s.inodes j) ≡ true
    → i ≡ j

-- One more reference to the inode, and to no other.
pub record Referenced (dev inum i : ℕ) (s r : Files) : Type 0 where
  pub in_table : i < ninode
  pub here : cached dev inum (r.inodes i) ≡ true
  pub unique : Unique r
  pub counts :
      (dev' inum' : ℕ)
      → refs r dev' inum' ≡ refs s dev' inum' + (if dev == dev' && inum == inum' then 1 else 0)

pub data Iget (dev inum : ℕ) (s : Files) : Outcome (Files × ℕ) → Type 0 where
  no_inodes :
      ((j : ℕ) → j < ninode → (0 < (s.inodes j).ref) × (cached dev inum (s.inodes j) ≡ false))
      → Iget dev inum s panicked
  got :
      (i : ℕ) (r : Files)
      → Referenced dev inum i s r
      → r.disk ≡ s.disk
      → Iget dev inum s (done (r, i))

-- One more reference at the slot that has the inode.
more : ℕ → Files → Files
more i s = record s {
  inodes = update s.inodes i (record (s.inodes i) { ref = (s.inodes i).ref + 1 });
}

cached-more :
    (dev inum i j : ℕ) (s : Files)
    → 0 < (s.inodes i).ref
    → cached dev inum ((more i s).inodes j) ≡ cached dev inum (s.inodes j)
unfolding more update
cached-more dev inum i j s pos = ground arith

more-Referenced :
    (dev inum i : ℕ) (s : Files)
    → Unique s
    → i < ninode
    → cached dev inum (s.inodes i) ≡ true
    → Referenced dev inum i s (more i s)
unfolding more Unique
more-Referenced dev inum i s uniq lt here =
    let pos : 0 < (s.inodes i).ref = ground arith in
    record {
      in_table = lt;
      here = cached-more dev inum i i s pos ∙ here;
      unique = λ a b d n la lb ha hb.
          uniq a b d n la lb (sym (cached-more d n i a s pos) ∙ ha)
            (sym (cached-more d n i b s pos) ∙ hb);
      counts = λ d n.
          let c =
            count_refs-update d n i ninode s.inodes
              (record (s.inodes i) { ref = (s.inodes i).ref + 1 }) lt in
          ground (arith, c);
    }

-- An empty slot is given to an inode that no slot has.
given : ℕ → ℕ → ℕ → Files → Files
given dev inum i s = record s {
  inodes =
      update s.inodes i (record (s.inodes i) { dev = dev; inum = inum; ref = 1; valid = false });
}

given-Referenced :
    (dev inum i : ℕ) (s : Files)
    → Unique s
    → i < ninode
    → (s.inodes i).ref ≡ 0
    → ((j : ℕ) → j < ninode → cached dev inum (s.inodes j) ≡ false)
    → Referenced dev inum i s (given dev inum i s)
unfolding given Unique update
given-Referenced dev inum i s uniq lt empty new = record {
  in_table = lt;
  here = ground arith;
  unique = λ a b d n la lb ha hb. ground (arith, new a la, new b lb, uniq a b d n la lb);
  counts = λ d n.
      let c =
        count_refs-update d n i ninode s.inodes
          (record (s.inodes i) { dev = dev; inum = inum; ref = 1; valid = false }) lt in
      ground (arith, c);
}

-- `iget` gives the slot of the inode with one more reference to it, and keeps it in one slot; it panics only where
-- the inode is in no slot and every slot is in use.
pub iget-Iget : (dev inum : ℕ) (s : Files) → Unique s → Iget dev inum s (iget dev inum s)
unfolding iget more given
iget-Iget dev inum s uniq =
    outcome (search dev inum s.inodes 0 ninode none)
      (search-Searched dev inum s.inodes 0 ninode none)
  where
    outcome :
        (o : Slot)
        → Searched dev inum s.inodes 0 ninode none o
        → Iget dev inum s (elim o [
          | at_slot i ↦ done (more i s, i)
          | empty_slot none ↦ panicked
          | empty_slot (some i) ↦ done (given dev inum i s, i)
        ])
    outcome (at_slot i) (hit _ ge lt c) =
        got i (more i s) (more-Referenced dev inum i s uniq (omega arith) c) refl
    outcome (empty_slot _) (miss _ new (full all)) =
        no_inodes (λ j lt. (all j (omega arith) (omega arith), new j (omega arith) (omega arith)))
    outcome (empty_slot _) (miss _ new (found e ge lt z)) =
        got e (given dev inum e s)
          (given-Referenced dev inum e s uniq (omega arith) z
            (λ j lt'. new j (omega arith) (omega arith)))
          refl

-- `idup` of an inode that has a reference adds one.
pub idup-Referenced :
    (dev inum i : ℕ) (s : Files)
    → Unique s
    → i < ninode
    → cached dev inum (s.inodes i) ≡ true
    → Referenced dev inum i s (idup i s)
unfolding idup more
idup-Referenced dev inum i s uniq lt here = more-Referenced dev inum i s uniq lt here
