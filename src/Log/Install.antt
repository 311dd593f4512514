-- ===== src/Log/Install.antt =====
-- What the installation of a log does to the disk in kernel/log.c.
use osn.Base.{
  ℕ, ◌+◌, ◌-◌, ◌≤◌, ◌<◌, ◌≡◌, ◌≢◌, refl, ap, sym, ◌∙◌, List, [], ◌∷◌, Bool, true, false, ◌==◌,
  arith, update, update_self, update_ne, length, inl, inr, ◌⊎◌, Bool-cases, All, ℕ_discrete, subst,
  ==_refl, ==_ne,
}
use osn.Log.{LogState, among, bwrite, move_block, bunpin, install_from}

-- The block is not of the log.
abbrev pub Home : ℕ → ℕ → ℕ → Type 0
Home start size b = (b < start) ⊎ (start + size ≤ b)

-- A log block is not a home block.
pub apart : (start size b tail : ℕ) → Home start size b → tail + 1 < size → b ≢ start + tail + 1
apart start size b tail (inl lt) room e = omega arith
apart start size b tail (inr le) room e = omega arith

pub All-Home : (a b c d : ℕ) (bs : List ℕ) → a ≡ b → c ≡ d → All (Home a c) bs → All (Home b d) bs
All-Home a b c d bs e f h = subst (λ x. All (Home x d) bs) e (subst (λ y. All (Home a y) bs) f h)

among-cons_false :
    (x b : ℕ) (bs : List ℕ) → among x (b ∷ bs) ≡ false → (x ≢ b) × (among x bs ≡ false)
among-cons_false x b bs h = elim (ℕ_discrete x b) [
  | yes e ↦ let z : true ≡ false = sym (rw (e, ==_refl b) refl) ∙ h in cc
  | no ne ↦ (ne, sym (rw (==_ne x b ne) refl) ∙ h)
]

among-cons_true :
    (x b : ℕ) (bs : List ℕ) → among x (b ∷ bs) ≡ true → (x ≡ b) ⊎ ((x ≢ b) × (among x bs ≡ true))
among-cons_true x b bs h = elim (ℕ_discrete x b) [
  | yes e ↦ inl e
  | no ne ↦ inr (ne, sym (rw (==_ne x b ne) refl) ∙ h)
]

module _ {B : Type 0} where
  -- The log blocks from `tail` on hold `v` of these blocks, on disk and in the cache.
  abbrev pub LogHolds : (ℕ → B) → LogState B → ℕ → List ℕ → Type 0
  LogHolds v s tail [] = Unit {0}
  LogHolds v s tail (b ∷ bs) =
      (s.disk (s.start + tail + 1) ≡ v b)
      × (s.cache (s.start + tail + 1) ≡ v b)
      × LogHolds v s (tail + 1) bs

  -- What an installation of `bs` has done: it used a write for each block while there were any; other blocks
  -- are as they were, and with writes enough the blocks hold `v`.
  pub record Installed (v : ℕ → B) (bs : List ℕ) (s r : LogState B) : Type 0 where
    pub same_place : (r.start ≡ s.start) × (r.size ≡ s.size)
    pub same_head : (r.head ≡ s.head) × (r.lh ≡ s.lh)
    pub spent : r.writes ≡ s.writes - length bs
    pub others : (x : ℕ) → among x bs ≡ false → r.disk x ≡ s.disk x
    pub installed : (x : ℕ) → among x bs ≡ true → length bs ≤ s.writes → r.disk x ≡ v x

  -- One turn of the loop.
  turn : Bool → ℕ → ℕ → LogState B → LogState B
  unfolding bwrite move_block bunpin
  turn recovering b a s = bunpin recovering b (bwrite b (move_block b a s))

  -- What a turn changes.
  pub record Turned (b a : ℕ) (s r : LogState B) : Type 0 where
    pub same_place : (r.start ≡ s.start) × (r.size ≡ s.size)
    pub same_head : (r.head ≡ s.head) × (r.lh ≡ s.lh)
    pub spent : r.writes ≡ s.writes - 1
    pub cached : r.cache ≡ update s.cache b (s.cache a)
    pub others : (x : ℕ) → b ≢ x → r.disk x ≡ s.disk x
    pub here : 0 < s.writes → r.disk b ≡ s.cache a

  pub write-Turned : (b a : ℕ) (s : LogState B) → Turned b a s (bwrite b (move_block b a s))
  unfolding bwrite move_block
  write-Turned b a s = elim (Bool-cases (s.writes == 0)) [
    | inl z ↦ rw z (record {
      same_place = (refl, refl);
      same_head = (refl, refl);
      spent = ground arith;
      cached = refl;
      others = λ x ne. refl;
      here = λ more. let w : ⊥ = ground arith in elim w [ ];
    })
    | inr nz ↦ rw nz (record {
      same_place = (refl, refl);
      same_head = (refl, refl);
      spent = refl;
      cached = refl;
      others = λ x ne. update_ne s.disk b x _ ne;
      here = λ more. update_self s.disk b _ ∙ update_self s.cache b (s.cache a);
    })
  ]

  turn-Turned :
      (recovering : Bool) (b a : ℕ) (s : LogState B) → Turned b a s (turn recovering b a s)
  unfolding turn bunpin
  turn-Turned true b a s = write-Turned b a s
  turn-Turned false b a s =
      let t = write-Turned b a s in
      record {
        same_place = t.same_place;
        same_head = t.same_head;
        spent = t.spent;
        cached = t.cached;
        others = t.others;
        here = t.here;
      }

  LogHolds-turn :
      (v : ℕ → B) (b a : ℕ) (s r : LogState B) (tail : ℕ) (bs : List ℕ)
      → Turned b a s r
      → Home s.start s.size b
      → tail + length bs < s.size
      → LogHolds v s tail bs
      → LogHolds v r tail bs
  LogHolds-turn v b a s r tail [] t home room h = tt
  LogHolds-turn v b a s r tail (x ∷ bs) t home room h =
      let ne : b ≢ s.start + tail + 1 = apart s.start s.size b tail home (omega arith) in
      (
        ap (λ n. r.disk (n + tail + 1)) t.same_place.0 ∙ (t.others (s.start + tail + 1) ne ∙ h.0),
        ap (λ n. r.cache (n + tail + 1)) t.same_place.0
            ∙ (ap (λ c. c (s.start + tail + 1)) t.cached
                ∙ (update_ne s.cache b (s.start + tail + 1) (s.cache a) ne ∙ h.1)),
        LogHolds-turn v b a s r (tail + 1) bs t home (omega arith) h.2,
      )

  Installed-cons :
      (v : ℕ → B) (b : ℕ) (bs : List ℕ) (s s1 r : LogState B) (a : ℕ)
      → Turned b a s s1
      → Installed v bs s1 r
      → s.cache a ≡ v b
      → Installed v (b ∷ bs) s r
  Installed-cons v b bs s s1 r a t i at = record {
    same_place = (i.same_place.0 ∙ t.same_place.0, i.same_place.1 ∙ t.same_place.1);
    same_head = (i.same_head.0 ∙ t.same_head.0, i.same_head.1 ∙ t.same_head.1);
    spent = omega (arith, i.spent, t.spent);
    others = λ x out.
        let (ne, away) = among-cons_false x b bs out in
        i.others x away ∙ t.others x (λ e. ne (sym e));
    installed = λ x inside enough. elim (Bool-cases (among x bs)) [
      | inl later ↦ i.installed x later (omega (arith, t.spent))
      | inr last ↦ elim (among-cons_true x b bs inside) [
        | inl e ↦
            i.others x last ∙ (subst (λ y. s1.disk y ≡ v y) (sym e) (t.here (omega arith) ∙ at))
        | inr (ne, later) ↦ i.installed x later (omega (arith, t.spent))
      ]
    ];
  }

  pub install_from-Installed :
      (recovering : Bool) (v : ℕ → B) (tail : ℕ) (bs : List ℕ) (s : LogState B)
      → All (Home s.start s.size) bs
      → tail + length bs < s.size
      → LogHolds v s tail bs
      → Installed v bs s (install_from recovering tail bs s)
  unfolding install_from turn
  install_from-Installed recovering v tail [] s home room h = record {
    same_place = (refl, refl);
    same_head = (refl, refl);
    spent = omega arith;
    others = λ x out. refl;
    installed = λ x inside. cc;
  }
  install_from-Installed recovering v tail (b ∷ bs) s home room h =
      let a = s.start + tail + 1 in
      let s1 = turn recovering b a s in
      let t = turn-Turned recovering b a s in
      let i =
        install_from-Installed recovering v (tail + 1) bs s1
          (All-Home s.start s1.start s.size s1.size bs (sym t.same_place.0) (sym t.same_place.1)
            home.1)
          (omega (arith, t.same_place.1))
          (LogHolds-turn v b a s s1 (tail + 1) bs t home.0 (omega arith) h.2) in
      Installed-cons v b bs s s1 (install_from recovering (tail + 1) bs s1) a t i h.1
