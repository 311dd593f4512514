-- ===== src/Log/Crash.antt =====
-- A loss of power during a commit of kernel/log.c, and the recovery after it.
use osn.Base.{
  ℕ, ◌-◌, ◌<◌, ◌≡◌, refl, ap, sym, ◌∙◌, [], false, ltb, arith, length, inl, inr, ◌⊎◌, All, subst,
  Bool-cases, ℕ_discrete,
}
use osn.Log.{
  LogState, among, write_head, write_log, install_trans, install_from, commit, commit_all,
  write_log_from, restart,
}
use osn.Log.Install.{Home, LogHolds, Installed, install_from-Installed, All-Home}
use osn.Log.Write.{Written, write_log_from-Written, Clear-of_Home}
use osn.Log.Recover.{home_view, committed, LogHolds-in, home_view-eq, write_head_cases, recovered}
use osn.Log.Lost.{install_from-Lost, among-Home}

module _ {B : Type 0} where
  -- The disk after a recovery is as it was before the commit.
  pub Unchanged : LogState B → LogState B → Type 0
  Unchanged s r = (x : ℕ) → home_view s r.disk x ≡ home_view s s.disk x

  -- The disk after a recovery is as the commit makes it.
  unfoldable pub Applied : LogState B → LogState B → Type 0
  Applied s r = (x : ℕ) → home_view s r.disk x ≡ home_view s (committed s) x

  -- The state and the disk after recovery, from `r`.
  Atomic : ℕ → LogState B → LogState B → Type 0
  Atomic n s r = ((restart n r).head ≡ []) × (Unchanged s (restart n r) ⊎ Applied s (restart n r))

  -- The end of `commit`.
  pub closing : LogState B → LogState B
  closing t = write_head (record t { lh = [] })

  closing_lost : (t : LogState B) → t.writes ≡ 0 → closing t ≡ record t { lh = [] }
  unfolding closing
  closing_lost t z = elim (write_head_cases (record t { lh = [] })) [
    | inl (_, e) ↦ e
    | inr (more, e) ↦ let w : ⊥ = omega arith in elim w [ ]
  ]

  pub closing_on :
      (t : LogState B)
      → 0 < t.writes
      → closing t ≡ record t { lh = []; head = []; writes = t.writes - 1 }
  unfolding closing
  closing_on t more = elim (write_head_cases (record t { lh = [] })) [
    | inl (z, e) ↦ let w : ⊥ = omega arith in elim w [ ]
    | inr (_, e) ↦ e
  ]

  -- From an empty log a recovery changes no block.
  clean_restart :
      (n : ℕ) (r : LogState B)
      → r.head ≡ []
      → 0 < r.size
      → 0 < n
      → ((restart n r).head ≡ []) × ((x : ℕ) → (restart n r).disk x ≡ r.disk x)
  clean_restart n r e room more = recovered r.disk n r [] e tt room more tt

  -- The power is lost before the header is written.
  Atomic-lost :
      (n : ℕ) (s r : LogState B)
      → r.head ≡ []
      → 0 < r.size
      → 0 < n
      → ((x : ℕ) → Home s.start s.size x → r.disk x ≡ s.disk x)
      → Atomic n s r
  unfolding Atomic Unchanged
  Atomic-lost n s r e room more same =
      let c = clean_restart n r e room more in
      (c.0, inl (home_view-eq s (restart n r).disk s.disk (λ x h. c.1 x ∙ same x h)))

  -- The power is lost after it, and the log is not cleared.
  Atomic-logged :
      (n : ℕ) (s r : LogState B)
      → r.head ≡ s.lh
      → (r.start ≡ s.start) × (r.size ≡ s.size)
      → All (Home s.start s.size) s.lh
      → length s.lh < s.size
      → length s.lh < n
      → LogHolds s.cache (record r { cache = r.disk }) 0 s.lh
      → ((x : ℕ) → Home s.start s.size x → among x s.lh ≡ false → r.disk x ≡ s.disk x)
      → Atomic n s r
  unfolding Atomic Applied committed
  Atomic-logged n s r e place home room more h same =
      let c =
        recovered s.cache n r s.lh e
          (All-Home s.start r.start s.size r.size s.lh (sym place.0) (sym place.1) home)
          (omega (arith, place.1)) more h in
      (
        c.0,
        inr (
            home_view-eq s (restart n r).disk (committed s) (λ x hx.
              c.1 x ∙ elim (Bool-cases (among x s.lh)) [
                | inl inside ↦ rw inside refl
                | inr out ↦ rw out (same x hx out)
              ])),
      )

  -- The log is cleared.
  Atomic-cleared :
      (n : ℕ) (s r : LogState B)
      → r.head ≡ []
      → 0 < r.size
      → 0 < n
      → ((x : ℕ) → Home s.start s.size x → r.disk x ≡ committed s x)
      → Atomic n s r
  unfolding Atomic Applied
  Atomic-cleared n s r e room more same =
      let c = clean_restart n r e room more in
      (c.0, inr (home_view-eq s (restart n r).disk (committed s) (λ x h. c.1 x ∙ same x h)))

  -- The rest of `commit` from a state with the header and the log on disk.
  Atomic-install :
      (n : ℕ) (s s2 : LogState B)
      → s2.head ≡ s.lh
      → (s2.start ≡ s.start) × (s2.size ≡ s.size)
      → All (Home s.start s.size) s.lh
      → length s.lh < s.size
      → length s.lh < n
      → LogHolds s.cache s2 0 s.lh
      → ((x : ℕ) → Home s.start s.size x → s2.disk x ≡ s.disk x)
      → Atomic n s (closing (install_from false 0 s.lh s2))
  unfolding committed
  Atomic-install n s s2 head place home room more h same =
      let s3 = install_from false 0 s.lh s2 in
      let home2 = All-Home s.start s2.start s.size s2.size s.lh (sym place.0) (sym place.1) home in
      let i : Installed s.cache s.lh s2 s3 =
        install_from-Installed false s.cache 0 s.lh s2 home2 (omega (arith, place.1)) h in
      elim (ℕ_discrete s3.writes 0) [
        | yes z ↦ subst (Atomic n s) (sym (closing_lost s3 z)) (
            Atomic-logged n s (record s3 { lh = [] }) (i.same_head.0 ∙ head)
              (i.same_place.0 ∙ place.0, i.same_place.1 ∙ place.1) home room more
              (LogHolds-in s.cache s2 (record s3 { lh = []; cache = s3.disk }) 0 s.lh
                (omega (arith, place.1)) i.same_place.0
                (λ x a b.
                  let d = i.others x (among-Home s2.start s2.size x s.lh home2 a b) in (d, inr d))
                h)
              (λ x hx out. i.others x out ∙ same x hx))
        | no on ↦ subst (Atomic n s) (sym (closing_on s3 (omega arith))) (
            Atomic-cleared n s (record s3 { lh = []; head = []; writes = s3.writes - 1 }) refl
              (omega (arith, i.same_place.1, place.1)) (omega arith)
              (λ x hx. elim (Bool-cases (among x s.lh)) [
                | inl inside ↦ rw inside (i.installed x inside (omega (arith, i.spent)))
                | inr out ↦ rw out (i.others x out ∙ same x hx)
              ]))
      ]

  -- `commit` from the state after `write_log`.
  Atomic-Written :
      (n : ℕ) (s s1 : LogState B)
      → s.head ≡ []
      → All (Home s.start s.size) s.lh
      → length s.lh < s.size
      → length s.lh < n
      → Written 0 s.lh s s1
      → Atomic n s (closing (install_from false 0 (write_head s1).lh (write_head s1)))
  Atomic-Written n s s1 clean home room more w =
      let same : (x : ℕ) → Home s.start s.size x → s1.disk x ≡ s.disk x =
        λ x hx. (w.others x (Clear-of_Home s.start s.size 0 x hx)).0 in
      elim (write_head_cases s1) [
        | inl (z, e) ↦
            let l = install_from-Lost false 0 s1.lh s1 z in
            subst (λ t. Atomic n s (closing (install_from false 0 t.lh t))) (sym e)
              (subst (Atomic n s) (sym (closing_lost (install_from false 0 s1.lh s1) l.writes)) (
                Atomic-lost n s (record (install_from false 0 s1.lh s1) { lh = [] })
                  (l.head ∙ (w.same_head.0 ∙ clean)) (omega (arith, l.place.1, w.same_place.1))
                  (omega arith) (λ x hx. ap (λ f. f x) l.disk ∙ same x hx)))
        | inr (on, e) ↦
            let s2 : LogState B = record s1 { head = s1.lh; writes = s1.writes - 1 } in
            subst (λ t. Atomic n s (closing (install_from false 0 t.lh t))) (sym e)
              (subst (λ l. Atomic n s (closing (install_from false 0 l s2))) (sym w.same_head.1)
                (Atomic-install n s s2 w.same_head.1 w.same_place home room more
                  (LogHolds-in s.cache s1 s2 0 s.lh (omega (arith, w.same_place.1)) refl
                    (λ x a b. (refl, inl refl)) (w.logged (omega (arith, w.spent))))
                  same))
      ]

  pub commit_all-closing :
      (s : LogState B)
      → commit_all s
        ≡ closing (
            install_from false 0
              (write_head (write_log_from 0 s.lh s)).lh
              (write_head (write_log_from 0 s.lh s)))
  unfolding commit_all closing install_trans write_log
  commit_all-closing s = refl

  -- Whenever the power is lost, after any number of disk writes of a `commit` that starts with an empty log on
  -- disk, logs blocks outside the log's area and fits in it, a recovery with a disk write for each logged
  -- block and one more leaves the blocks outside the log either all as they were or all as committed, and
  -- an empty log.
  pub restart-commit :
      (n : ℕ) (s : LogState B)
      → s.head ≡ []
      → All (Home s.start s.size) s.lh
      → length s.lh < s.size
      → length s.lh < n
      → ((restart n (commit s)).head ≡ [])
        × (Unchanged s (restart n (commit s)) ⊎ Applied s (restart n (commit s)))
  unfolding commit Atomic
  restart-commit n s clean home room enough = elim (Bool-cases (ltb 0 (length s.lh))) [
    | inr none_logged ↦
        rw none_logged (Atomic-lost n s s clean (omega arith) (omega arith) (λ x hx. refl))
    | inl some_logged ↦ rw some_logged (
        subst (Atomic n s) (sym (commit_all-closing s)) (
          Atomic-Written n s (write_log_from 0 s.lh s) clean home room enough
            (write_log_from-Written 0 s.lh s home (omega arith))))
  ]
