-- ===== src/Log/Write.antt =====
-- What `write_log` of kernel/log.c puts on the disk.
use osn.Base.{
  ℕ, suc, ◌+◌, ◌-◌, ◌≤◌, ◌<◌, ◌≡◌, ◌≢◌, refl, ap, sym, ◌∙◌, List, [], ◌∷◌, arith, update_self,
  update_ne, length, inl, inr, ◌⊎◌, All, subst,
}
use osn.Log.{LogState, bwrite, move_block, write_log_from}
use osn.Log.Install.{Home, LogHolds, Turned, write-Turned, All-Home}

-- The block is not one of the log blocks from `tail` on.
abbrev pub Clear : ℕ → ℕ → ℕ → ℕ → Type 0
Clear start size tail x = (x < start + tail + 1) ⊎ (start + size ≤ x)

Clear-ne :
    (start size tail x : ℕ) → Clear start size tail x → tail + 1 < size → start + tail + 1 ≢ x
Clear-ne start size tail x (inl lt) room e = omega arith
Clear-ne start size tail x (inr le) room e = omega arith

Clear-next : (start size tail x : ℕ) → Clear start size tail x → Clear start size (tail + 1) x
Clear-next start size tail x (inl lt) = inl (omega arith)
Clear-next start size tail x (inr le) = inr le

pub Clear-of_Home : (start size tail x : ℕ) → Home start size x → Clear start size tail x
Clear-of_Home start size tail x (inl lt) = inl (omega arith)
Clear-of_Home start size tail x (inr le) = inr le

module _ {B : Type 0} where
  LogHolds-of :
      (v w : ℕ → B) (s : LogState B) (tail start size : ℕ) (bs : List ℕ)
      → All (Home start size) bs
      → ((x : ℕ) → Home start size x → v x ≡ w x)
      → LogHolds v s tail bs
      → LogHolds w s tail bs
  LogHolds-of v w s tail start size [] home same h = tt
  LogHolds-of v w s tail start size (b ∷ bs) home same h = (
    h.0 ∙ same b home.0,
    h.1 ∙ same b home.0,
    LogHolds-of v w s (tail + 1) start size bs home.1 same h.2,
  )

  -- What writing `bs` to the log has done: it used a write for each block while there were any, changed only
  -- log blocks from `tail` on, and with writes enough the log holds the blocks as they are in the cache.
  pub record Written (tail : ℕ) (bs : List ℕ) (s r : LogState B) : Type 0 where
    pub same_place : (r.start ≡ s.start) × (r.size ≡ s.size)
    pub same_head : (r.head ≡ s.head) × (r.lh ≡ s.lh)
    pub spent : r.writes ≡ s.writes - length bs
    pub others :
        (x : ℕ) → Clear s.start s.size tail x → (r.disk x ≡ s.disk x) × (r.cache x ≡ s.cache x)
    pub logged : length bs ≤ s.writes → LogHolds s.cache r tail bs

  Written-cons :
      (tail b : ℕ) (bs : List ℕ) (s s1 r : LogState B)
      → All (Home s.start s.size) (b ∷ bs)
      → tail + suc (length bs) < s.size
      → Turned (s.start + tail + 1) b s s1
      → Written (tail + 1) bs s1 r
      → Written tail (b ∷ bs) s r
  Written-cons tail b bs s s1 r home room t w =
      let a = s.start + tail + 1 in
      let cache_same : (x : ℕ) → Clear s.start s.size tail x → s1.cache x ≡ s.cache x = λ x c.
        ap (λ f. f x) t.cached
        ∙ update_ne s.cache a x (s.cache b) (Clear-ne s.start s.size tail x c (omega arith)) in
      let clear1 : (x : ℕ)
          → Clear s.start s.size (tail + 1) x
          → Clear s1.start s1.size (tail + 1) x =
        λ x c.
          subst (λ n. Clear n s1.size (tail + 1) x) (sym t.same_place.0)
            (subst (λ n. Clear s.start n (tail + 1) x) (sym t.same_place.1) c) in
      let at_a = w.others a (clear1 a (inl (omega arith))) in
      let r_start : r.start ≡ s.start = w.same_place.0 ∙ t.same_place.0 in
      record {
        same_place = (r_start, w.same_place.1 ∙ t.same_place.1);
        same_head = (w.same_head.0 ∙ t.same_head.0, w.same_head.1 ∙ t.same_head.1);
        spent = omega (arith, w.spent, t.spent);
        others = λ x c.
            let rest = w.others x (clear1 x (Clear-next s.start s.size tail x c)) in
            (
              rest.0 ∙ t.others x (Clear-ne s.start s.size tail x c (omega arith)),
              rest.1 ∙ cache_same x c,
            );
        logged = λ enough. (
          ap (λ n. r.disk (n + tail + 1)) r_start ∙ (at_a.0 ∙ t.here (omega arith)),
          ap (λ n. r.cache (n + tail + 1)) r_start
              ∙ (at_a.1 ∙ (ap (λ f. f a) t.cached ∙ update_self s.cache a (s.cache b))),
          LogHolds-of s1.cache s.cache r (tail + 1) s.start s.size bs home.1
              (λ x h. cache_same x (Clear-of_Home s.start s.size tail x h))
              (w.logged (omega (arith, t.spent))),
        );
      }

  pub write_log_from-Written :
      (tail : ℕ) (bs : List ℕ) (s : LogState B)
      → All (Home s.start s.size) bs
      → tail + length bs < s.size
      → Written tail bs s (write_log_from tail bs s)
  unfolding write_log_from
  write_log_from-Written tail [] s home room = record {
    same_place = (refl, refl);
    same_head = (refl, refl);
    spent = omega arith;
    others = λ x c. (refl, refl);
    logged = λ enough. tt;
  }
  write_log_from-Written tail (b ∷ bs) s home room =
      let a = s.start + tail + 1 in
      let s1 = bwrite a (move_block a b s) in
      let t = write-Turned a b s in
      Written-cons tail b bs s s1 (write_log_from (tail + 1) bs s1) home room t (
        write_log_from-Written (tail + 1) bs s1
          (All-Home s.start s1.start s.size s1.size bs (sym t.same_place.0) (sym t.same_place.1)
            home.1)
          (omega (arith, t.same_place.1)))
