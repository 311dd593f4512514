-- ===== src/Log/Reserve/Fixed.antt =====
-- What `commit` of kernel/log.c leaves of the log in memory.
use osn.Base.{
  ℕ, ◌+◌, ◌≡◌, refl, ◌∙◌, List, [], ◌∷◌, Bool, true, false, ◌==◌, ltb, length, inl, inr, Bool-cases,
  arith,
}
use osn.Log.{
  LogState, bwrite, move_block, bunpin, write_head, install_from, install_trans, write_log_from,
  write_log, commit_all, commit,
}

empty_of_length : (xs : List ℕ) → ltb 0 (length xs) ≡ false → xs ≡ []
empty_of_length [] e = refl
empty_of_length (x ∷ xs) e = absurd (ground arith)

module _ {B : Type 0} where
  -- The same list of blocks and the same fields.
  pub record Fixed (s r : LogState B) : Type 0 where
    pub lh : r.lh ≡ s.lh
    pub size : r.size ≡ s.size
    pub outstanding : r.outstanding ≡ s.outstanding

  Fixed-trans : {s t r : LogState B} → Fixed s t → Fixed t r → Fixed s r
  Fixed-trans f g = record {
    lh = g.lh ∙ f.lh;
    size = g.size ∙ f.size;
    outstanding = g.outstanding ∙ f.outstanding;
  }

  Fixed-refl : (s : LogState B) → Fixed s s
  Fixed-refl s = record { lh = refl; size = refl; outstanding = refl }

  bwrite-Fixed : (b : ℕ) (s : LogState B) → Fixed s (bwrite b s)
  unfolding bwrite
  bwrite-Fixed b s = elim (Bool-cases (s.writes == 0)) [
    | inl off ↦ rw off (Fixed-refl s)
    | inr on ↦ rw on (record { lh = refl; size = refl; outstanding = refl })
  ]

  write_head-Fixed : (s : LogState B) → Fixed s (write_head s)
  unfolding write_head
  write_head-Fixed s = elim (Bool-cases (s.writes == 0)) [
    | inl off ↦ rw off (Fixed-refl s)
    | inr on ↦ rw on (record { lh = refl; size = refl; outstanding = refl })
  ]

  move_block-Fixed : (a b : ℕ) (s : LogState B) → Fixed s (move_block a b s)
  unfolding move_block
  move_block-Fixed a b s = record { lh = refl; size = refl; outstanding = refl }

  bunpin-Fixed : (recovering : Bool) (b : ℕ) (s : LogState B) → Fixed s (bunpin recovering b s)
  unfolding bunpin
  bunpin-Fixed true b s = Fixed-refl s
  bunpin-Fixed false b s = record { lh = refl; size = refl; outstanding = refl }

  install_from-Fixed :
      (recovering : Bool) (tail : ℕ) (bs : List ℕ) (s : LogState B)
      → Fixed s (install_from recovering tail bs s)
  unfolding install_from
  install_from-Fixed recovering tail [] s = Fixed-refl s
  install_from-Fixed recovering tail (b ∷ bs) s =
      let s1 = move_block b (s.start + tail + 1) s in
      let s2 = bwrite b s1 in
      Fixed-trans (move_block-Fixed b (s.start + tail + 1) s) (
        Fixed-trans (bwrite-Fixed b s1) (
          Fixed-trans (bunpin-Fixed recovering b s2)
            (install_from-Fixed recovering (tail + 1) bs (bunpin recovering b s2))))

  write_log_from-Fixed :
      (tail : ℕ) (bs : List ℕ) (s : LogState B) → Fixed s (write_log_from tail bs s)
  unfolding write_log_from
  write_log_from-Fixed tail [] s = Fixed-refl s
  write_log_from-Fixed tail (b ∷ bs) s =
      let s1 = move_block (s.start + tail + 1) b s in
      Fixed-trans (move_block-Fixed (s.start + tail + 1) b s) (
        Fixed-trans (bwrite-Fixed (s.start + tail + 1) s1)
          (write_log_from-Fixed (tail + 1) bs (bwrite (s.start + tail + 1) s1)))

  -- The log is empty, and the other fields are the same.
  pub record Emptied (s r : LogState B) : Type 0 where
    pub lh : r.lh ≡ []
    pub size : r.size ≡ s.size
    pub outstanding : r.outstanding ≡ s.outstanding

  commit_all-Emptied : (s : LogState B) → Emptied s (commit_all s)
  unfolding commit_all write_log install_trans
  commit_all-Emptied s =
      let s1 = write_log_from 0 s.lh s in
      let s2 = write_head s1 in
      let s3 = install_from false 0 s2.lh s2 in
      let f : Fixed s s3 =
        Fixed-trans (write_log_from-Fixed 0 s.lh s)
          (Fixed-trans (write_head-Fixed s1) (install_from-Fixed false 0 s2.lh s2)) in
      let g = write_head-Fixed (record s3 { lh = [] }) in
      record { lh = g.lh; size = g.size ∙ f.size; outstanding = g.outstanding ∙ f.outstanding }

  pub commit-Emptied : (s : LogState B) → Emptied s (commit s)
  unfolding commit
  commit-Emptied s = elim (Bool-cases (ltb 0 (length s.lh))) [
    | inl some_blocks ↦ rw some_blocks (commit_all-Emptied s)
    | inr no_blocks ↦
        rw no_blocks
          (record { lh = empty_of_length s.lh no_blocks; size = refl; outstanding = refl })
  ]
