-- ===== src/Log/Lost.antt =====
-- The installation of a log of kernel/log.c with the power off.
use osn.Base.{
  ℕ, ◌+◌, ◌<◌, ◌≡◌, ◌≢◌, refl, sym, ◌∙◌, List, [], ◌∷◌, Bool, true, false, arith, inl, inr, All,
  subst, ==_ne,
}
use osn.Log.{LogState, among, bwrite, move_block, bunpin, install_from}
use osn.Log.Install.{Home}

-- No home block is inside the log.
pub among-Home :
    (start size x : ℕ) (bs : List ℕ)
    → All (Home start size) bs
    → start < x
    → x < start + size
    → among x bs ≡ false
among-Home start size x [] home lo hi = refl
among-Home start size x (b ∷ bs) home lo hi =
    rw (==_ne x b (other home.0)) (among-Home start size x bs home.1 lo hi)
  where
    other : Home start size b → x ≢ b
    other (inl lt) e = omega arith
    other (inr le) e = omega arith

module _ {B : Type 0} where
  -- With the power off, a bwrite changes nothing of the disk.
  bwrite_lost : (b : ℕ) (s : LogState B) → s.writes ≡ 0 → bwrite b s ≡ s
  unfolding bwrite
  bwrite_lost b s z = rw z refl

  pub record Lost (s r : LogState B) : Type 0 where
    pub disk : r.disk ≡ s.disk
    pub head : r.head ≡ s.head
    pub writes : r.writes ≡ 0
    pub place : (r.start ≡ s.start) × (r.size ≡ s.size)

  bunpin-Lost :
      (recovering : Bool) (b a : ℕ) (s : LogState B)
      → s.writes ≡ 0
      → Lost s (bunpin recovering b (move_block b a s))
  unfolding bunpin move_block
  bunpin-Lost true b a s z = record { disk = refl; head = refl; writes = z; place = (refl, refl) }
  bunpin-Lost false b a s z = record { disk = refl; head = refl; writes = z; place = (refl, refl) }

  Lost-trans : (s t r : LogState B) → Lost s t → Lost t r → Lost s r
  Lost-trans s t r a b = record {
    disk = b.disk ∙ a.disk;
    head = b.head ∙ a.head;
    writes = b.writes;
    place = (b.place.0 ∙ a.place.0, b.place.1 ∙ a.place.1);
  }

  pub install_from-Lost :
      (recovering : Bool) (tail : ℕ) (bs : List ℕ) (s : LogState B)
      → s.writes ≡ 0
      → Lost s (install_from recovering tail bs s)
  unfolding install_from
  install_from-Lost recovering tail [] s z = record {
    disk = refl;
    head = refl;
    writes = z;
    place = (refl, refl);
  }
  install_from-Lost recovering tail (b ∷ bs) s z =
      let s1 = bunpin recovering b (bwrite b (move_block b (s.start + tail + 1) s)) in
      let one : Lost s s1 =
        subst (λ t. Lost s (bunpin recovering b t))
          (sym (bwrite_lost b (move_block b (s.start + tail + 1) s) z))
          (bunpin-Lost recovering b (s.start + tail + 1) s z) in
      Lost-trans s s1 (install_from recovering (tail + 1) bs s1) one
        (install_from-Lost recovering (tail + 1) bs s1 one.writes)
