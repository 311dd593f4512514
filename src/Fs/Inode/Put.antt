-- ===== src/Fs/Inode/Put.antt =====
-- What `iput` of kernel/fs.c does.
use osn.Base.{
  ℕ, zero, suc, ◌+◌, ◌-◌, ◌<◌, ◌≡◌, refl, ap₂, sym, ◌∙◌, ◌==◌, ◌&&◌, ltb, if◌then◌else◌, update,
  update_self, update_ne, arith, ℕ_discrete, subst,
}
use osn.Fs.Itable.{Inode, Files, ninode, cached}
use osn.Fs.Itable.Unique.{refs, count_refs, count_refs-update, Unique}
use osn.Fs.Inode.{with_inode, drop_ref}

-- One reference less to the inode, and to no other.
pub record Dropped (dev inum : ℕ) (s r : Files) : Type 0 where
  pub unique : Unique r
  pub counts :
      (dev' inum' : ℕ)
      → refs r dev' inum' + (if dev == dev' && inum == inum' then 1 else 0) ≡ refs s dev' inum'

pub drop_ref-Dropped :
    (i : ℕ) (s : Files)
    → Unique s
    → i < ninode
    → 0 < (s.inodes i).ref
    → Dropped (s.inodes i).dev (s.inodes i).inum s (drop_ref i s)
unfolding drop_ref Unique update
drop_ref-Dropped i s uniq lt pos = record {
  unique = λ a b d n la lb ha hb. ground (arith, uniq a b d n la lb);
  counts = λ d n.
      let c =
        count_refs-update d n i ninode s.inodes (record (s.inodes i) { ref = (s.inodes i).ref - 1 })
          lt in
      ground (arith, c);
}

-- The slots have the same inodes with the same numbers of references.
abbrev pub SameKeys : Files → Files → Type 0
SameKeys s r =
    (j : ℕ)
    → ((r.inodes j).dev ≡ (s.inodes j).dev)
      × ((r.inodes j).inum ≡ (s.inodes j).inum)
      × ((r.inodes j).ref ≡ (s.inodes j).ref)

cached-SameKeys :
    (s r : Files)
    → SameKeys s r
    → (dev inum j : ℕ) → cached dev inum (r.inodes j) ≡ cached dev inum (s.inodes j)
cached-SameKeys s r k dev inum j =
    let (a, b, c) = k j in ap₂ (λ x y. ltb 0 x && y) c (ap₂ (λ x y. x == dev && y == inum) a b)

pub Unique-SameKeys : (s r : Files) → SameKeys s r → Unique s → Unique r
unfolding Unique
Unique-SameKeys s r k uniq a b d n la lb ha hb =
    uniq a b d n la lb (sym (cached-SameKeys s r k d n a) ∙ ha)
      (sym (cached-SameKeys s r k d n b) ∙ hb)

count_refs-SameKeys :
    (s r : Files)
    → SameKeys s r
    → (dev inum n : ℕ) → count_refs dev inum r.inodes n ≡ count_refs dev inum s.inodes n
unfolding count_refs
count_refs-SameKeys s r k dev inum zero = refl
count_refs-SameKeys s r k dev inum (suc n) =
    ap₂ (λ x y. x + y) (count_refs-SameKeys s r k dev inum n)
      (ap₂ (λ x y. if x then y else 0) (cached-SameKeys s r k dev inum n) (k n).2)

pub SameKeys-with :
    (i : ℕ) (ip : Inode) (s : Files)
    → ip.dev ≡ (s.inodes i).dev
    → ip.inum ≡ (s.inodes i).inum
    → ip.ref ≡ (s.inodes i).ref
    → SameKeys s (with_inode i ip s)
SameKeys-with i ip s a b c j = elim (ℕ_discrete i j) [
  | yes e ↦
      subst
        (λ j.
          ((update s.inodes i ip j).dev ≡ (s.inodes j).dev)
          × ((update s.inodes i ip j).inum ≡ (s.inodes j).inum)
          × ((update s.inodes i ip j).ref ≡ (s.inodes j).ref))
        e (rw (update_self s.inodes i ip) (a, b, c))
  | no ne ↦ rw (update_ne s.inodes i j ip ne) (refl, refl, refl)
]

pub SameKeys-trans : (s t r : Files) → SameKeys s t → SameKeys t r → SameKeys s r
SameKeys-trans s t r f g j =
    let (a, b, c) = f j in let (a', b', c') = g j in (a' ∙ a, b' ∙ b, c' ∙ c)

pub Dropped-SameKeys :
    (dev inum : ℕ) (s t r : Files) → SameKeys s t → Dropped dev inum t r → Dropped dev inum s r
Dropped-SameKeys dev inum s t r k d = record {
  unique = d.unique;
  counts = λ d' n. d.counts d' n ∙ count_refs-SameKeys s t k d' n ninode;
}
