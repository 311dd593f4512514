-- ===== src/Log/Commit.antt =====
-- A commit of kernel/log.c with the power on.
use osn.Base.{
  ℕ, ◌+◌, ◌-◌, ◌*◌, ◌<◌, ◌≡◌, refl, sym, ◌∙◌, [], true, false, ltb, arith, length, inl, inr, All,
  subst, Bool-cases,
}
use osn.Log.{LogState, among, write_head, install_from, commit, write_log_from}
use osn.Log.Install.{Home, LogHolds, Installed, install_from-Installed, All-Home}
use osn.Log.Write.{Written, write_log_from-Written, Clear-of_Home}
use osn.Log.Recover.{committed, LogHolds-in, home_view-eq, write_head_cases}
use osn.Log.Crash.{closing, closing_on, commit_all-closing, Applied}

module _ {B : Type 0} where
  -- The commit is done: the log is empty in memory and on disk, and its blocks are in their places.
  pub record Done (s r : LogState B) : Type 0 where
    pub emptied : (r.lh ≡ []) × (r.head ≡ [])
    pub applied : Applied s r

  Done-install :
      (s s2 : LogState B)
      → (s2.start ≡ s.start) × (s2.size ≡ s.size)
      → All (Home s.start s.size) s.lh
      → length s.lh < s.size
      → length s.lh < s2.writes
      → LogHolds s.cache s2 0 s.lh
      → ((x : ℕ) → Home s.start s.size x → s2.disk x ≡ s.disk x)
      → Done s (closing (install_from false 0 s.lh s2))
  unfolding committed Applied
  Done-install s s2 place home room more h same =
      let s3 = install_from false 0 s.lh s2 in
      let home2 = All-Home s.start s2.start s.size s2.size s.lh (sym place.0) (sym place.1) home in
      let i : Installed s.cache s.lh s2 s3 =
        install_from-Installed false s.cache 0 s.lh s2 home2 (omega (arith, place.1)) h in
      subst (Done s) (sym (closing_on s3 (omega (arith, i.spent)))) (record {
        emptied = (refl, refl);
        applied = home_view-eq s s3.disk (committed s) (λ x hx. elim (Bool-cases (among x s.lh)) [
          | inl inside ↦ rw inside (i.installed x inside (omega arith))
          | inr out ↦ rw out (i.others x out ∙ same x hx)
        ]);
      })

  Done-Written :
      (s s1 : LogState B)
      → All (Home s.start s.size) s.lh
      → length s.lh < s.size
      → 2 * length s.lh + 1 < s.writes
      → Written 0 s.lh s s1
      → Done s (closing (install_from false 0 (write_head s1).lh (write_head s1)))
  Done-Written s s1 home room more w = elim (write_head_cases s1) [
    | inl (z, e) ↦ let no : ⊥ = omega (arith, w.spent) in elim no [ ]
    | inr (on, e) ↦
        let s2 : LogState B = record s1 { head = s1.lh; writes = s1.writes - 1 } in
        subst (λ t. Done s (closing (install_from false 0 t.lh t))) (sym e)
          (subst (λ l. Done s (closing (install_from false 0 l s2))) (sym w.same_head.1)
            (Done-install s s2 w.same_place home room (omega (arith, w.spent))
              (LogHolds-in s.cache s1 s2 0 s.lh (omega (arith, w.same_place.1)) refl
                (λ x a b. (refl, inl refl)) (w.logged (omega arith)))
              (λ x hx. (w.others x (Clear-of_Home s.start s.size 0 x hx)).0)))
  ]

  -- With two disk writes for each logged block and two more, a commit of a log that is not empty, whose blocks
  -- are outside the log's area and fit in it, ends with every logged block in its place, no other block
  -- changed, and an empty log.
  pub commit-Done :
      (s : LogState B)
      → 0 < length s.lh
      → All (Home s.start s.size) s.lh
      → length s.lh < s.size
      → 2 * length s.lh + 1 < s.writes
      → Done s (commit s)
  unfolding commit
  commit-Done s some_logged home room more =
      let test : ltb 0 (length s.lh) ≡ true = ground arith in
      rw test (
        subst (Done s) (sym (commit_all-closing s)) (
          Done-Written s (write_log_from 0 s.lh s) home room more
            (write_log_from-Written 0 s.lh s home (omega arith))))
