-- ===== src/Fs/Content/Bmap/Entry.antt =====
-- The entry of the indirect block that `bmap` of kernel/fs.c finds or takes.
use osn.Base.{
  ℕ, suc, ◌-◌, ◌*◌, ◌^◌, ◌≤◌, ◌<◌, ◌≡◌, ◌≢◌, inl, inr, refl, ap, sym, ◌∙◌, true, false, ◌==◌,
  update_self, update_ne, arith, dec_lt, Bool-cases, subst,
}
use osn.File.{Outcome, done, panicked, ◌>>=◌}
use osn.Fs.{Disk, Superblock, bblock, modify}
use osn.Fs.Room.{Room, Modified, modify-Modified}
use osn.Fs.Dinode.{Dinode, ndirect, load32, store32}
use osn.Fs.Dinode.Codec.{load32-store32, load32-store32-Apart}
use osn.Fs.Bitmap.{balloc}
use osn.Fs.Bitmap.Used.{used, used-update_other, MapUsed}
use osn.Fs.Bitmap.Alloc.{Balloc, out_of_blocks, taken, Taken, balloc-Balloc}
use osn.Fs.Content.{take_entry}
use osn.Fs.Content.Bmap.{block_of, NotMap, Mapped}
use osn.Fs.Content.Bmap.Direct.{
  Taken-keeps, Taken-used, Taken-ne, Taken-same, block_of-direct, block_of-indirect,
}
use osn.Fs.Content.Bmap.Link.{Linked}

pub data TakeEntry (n : ℕ) (sb : Superblock) (at j : ℕ) (d : Disk)
    : Outcome (Disk × ℕ) → Type 0 where
  no_entry : ((x : ℕ) → x < sb.size → used sb d.cache x ≡ true) → TakeEntry n sb at j d panicked
  had_entry :
      load32 (d.cache at) (4 * j) ≢ 0
      → TakeEntry n sb at j d (done (d, load32 (d.cache at) (4 * j)))
  took_entry :
      (b : ℕ) (r r' : Disk)
      → load32 (d.cache at) (4 * j) ≡ 0
      → Taken (suc n) sb b d r
      → Modified n at (store32 (r.cache at) (4 * j) b) r r'
      → TakeEntry n sb at j d (done (r', b))

pub take_entry-TakeEntry :
    (n : ℕ) (sb : Superblock) (at j : ℕ) (d : Disk)
    → Room (suc (suc (suc n))) d
    → MapUsed sb d.cache
    → TakeEntry n sb at j d (take_entry sb at j d)
unfolding take_entry
take_entry-TakeEntry n sb at j d room map_used =
    elim (Bool-cases (load32 (d.cache at) (4 * j) == 0)) [
      | inl z ↦
          let free : load32 (d.cache at) (4 * j) ≡ 0 = ground arith in
          rw z (take free (balloc sb d) (balloc-Balloc (suc n) sb d room map_used))
      | inr nz ↦
          let has : load32 (d.cache at) (4 * j) ≢ 0 = λ e. ground arith in rw nz (had_entry has)
    ]
  where
    take :
        load32 (d.cache at) (4 * j) ≡ 0
        → (o : Outcome (Disk × ℕ)) → Balloc (suc n) sb d o
        → TakeEntry n sb at j d (
            o >>= (λ r.
              modify at (store32 (r.0.cache at) (4 * j) r.1) r.0 >>= (λ d2. done (d2, r.1))))
    take z panicked (out_of_blocks all) = no_entry all
    take z (done _) (taken b r t) =
        let (r', run, m) = modify-Modified n at (store32 (r.cache at) (4 * j) b) r t.room in
        rw run (took_entry b r r' z t m)

module _ {n' at : ℕ} {sb : Superblock} {ip ip1 : Dinode} {d d1 : Disk}
    (l : Linked sb n' at ip d ip1 d1) (small : sb.size < 2 ^ 32) where
  linked-block_of :
      (d2 : Disk) (k : ℕ)
      → ndirect ≤ k
      → block_of ip1 d2.cache k ≡ load32 (d2.cache at) (4 * (k - ndirect))
  linked-block_of d2 k ge = block_of-indirect ip1 d2.cache k at ge l.link l.nonzero

  pub entry-had :
      {n : ℕ} (bn : ℕ)
      → ndirect ≤ bn
      → load32 (d1.cache at) (4 * (bn - ndirect)) ≢ 0
      → Room n d1
      → Mapped sb n bn ip d ip1 d1 (load32 (d1.cache at) (4 * (bn - ndirect)))
  entry-had bn ge nz room = record {
    nonzero = nz;
    here = linked-block_of d1 bn ge;
    others = λ k ne. l.same k;
    old = λ nz'. sym (l.same bn) ∙ linked-block_of d1 bn ge;
    new = λ z. absurd (nz (sym (linked-block_of d1 bn ge) ∙ (l.same bn ∙ z)));
    zeroed = λ z. absurd (nz (sym (linked-block_of d1 bn ge) ∙ (l.same bn ∙ z)));
    kept = l.kept;
    sane = record {
      map_used = l.map_used;
      boot = l.boot;
      small = small;
      indirect_inside = λ nz'. subst (λ y. y < sb.size) (sym l.link) l.inside;
      indirect_used = λ nz'. ap (used sb d1.cache) l.link ∙ l.in_use;
      indirect_apart = λ nz'. subst (NotMap sb) (sym l.link) l.apart;
    };
    room = room;
  }

  module _ {n b : ℕ} {r r' : Disk} (bn : ℕ) (ge : ndirect ≤ bn)
      (z : load32 (d1.cache at) (4 * (bn - ndirect)) ≡ 0) (t : Taken (suc n) sb b d1 r)
      (m : Modified n at (store32 (r.cache at) (4 * (bn - ndirect)) b) r r') where
    after : r'.cache at ≡ store32 (r.cache at) (4 * (bn - ndirect)) b
    after =
        ap (λ c. c at) m.cached
        ∙ update_self r.cache at (store32 (r.cache at) (4 * (bn - ndirect)) b)

    after-used : (x : ℕ) → x < sb.size → used sb r'.cache x ≡ used sb r.cache x
    after-used x lt =
        ap (λ c. used sb c x) m.cached
        ∙ used-update_other sb r.cache at x (store32 (r.cache at) (4 * (bn - ndirect)) b)
            (l.apart x lt)

    after-keeps : (x : ℕ) → x < sb.size → used sb d1.cache x ≡ true → used sb r'.cache x ≡ true
    after-keeps x lt u = after-used x lt ∙ Taken-keeps t x lt u

    after-frame :
        (y : ℕ) → used sb d1.cache y ≡ true → NotMap sb y → at ≢ y → r'.cache y ≡ d1.cache y
    after-frame y u out ne =
        ap (λ c. c y) m.cached
        ∙ (update_ne r.cache at y (store32 (r.cache at) (4 * (bn - ndirect)) b) ne
            ∙ Taken-same t y u out)

    after-others : (k : ℕ) → k ≢ bn → block_of ip1 r'.cache k ≡ block_of ip1 d1.cache k
    after-others k ne = elim (dec_lt k ndirect) [
      | yes below ↦
          block_of-direct ip1 r'.cache k below ∙ sym (block_of-direct ip1 d1.cache k below)
      | no above ↦
          linked-block_of r' k (omega arith)
          ∙ (ap (λ c. load32 c (4 * (k - ndirect))) after
              ∙ (load32-store32-Apart (r.cache at) (4 * (bn - ndirect)) (4 * (k - ndirect)) b
                    (ground arith)
                  ∙ (ap (λ c. load32 c (4 * (k - ndirect))) (Taken-same t at l.in_use l.apart)
                      ∙ sym (linked-block_of d1 k (omega arith)))))
    ]

    pub entry-took : Mapped sb n bn ip d ip1 r' b
    unfolding MapUsed
    entry-took = record {
      nonzero = Taken-ne t 0 l.boot;
      here =
          linked-block_of r' bn ge
          ∙ (ap (λ c. load32 c (4 * (bn - ndirect))) after
              ∙ load32-store32 (r.cache at) (4 * (bn - ndirect)) b
                  (omega (arith, t.in_disk, small)));
      others = λ k ne. after-others k ne ∙ l.same k;
      old = λ nz. absurd (nz (sym (l.same bn) ∙ (linked-block_of d1 bn ge ∙ z)));
      new = λ z'. (t.in_disk, was_free, after-used b t.in_disk ∙ Taken-used t);
      zeroed = λ z'.
          ap (λ c. c b) m.cached
          ∙ (update_ne r.cache at b (store32 (r.cache at) (4 * (bn - ndirect)) b)
                (λ e. Taken-ne t at l.in_use (sym e))
              ∙ t.zeroed);
      kept = record {
        keeps = λ x lt u. after-keeps x lt (l.kept.keeps x lt u);
        frame = λ y lt u out ne.
            after-frame y (l.kept.keeps y lt u) out (λ e. ne (l.link ∙ e))
            ∙ l.kept.frame y lt u out ne;
      };
      sane = record {
        map_used = λ x lt.
            let (inside, u) = l.map_used x lt in (inside, after-keeps (bblock sb x) inside u);
        boot = after-keeps 0 (omega (arith, t.in_disk)) l.boot;
        small = small;
        indirect_inside = λ nz. subst (λ y. y < sb.size) (sym l.link) l.inside;
        indirect_used = λ nz. ap (used sb r'.cache) l.link ∙ after-keeps at l.inside l.in_use;
        indirect_apart = λ nz. subst (NotMap sb) (sym l.link) l.apart;
      };
      room = m.room;
    }
      where
        was_free : used sb d.cache b ≡ false
        was_free = elim (Bool-cases (used sb d.cache b)) [
          | inr free ↦ free
          | inl u ↦ absurd (Taken-ne t b (l.kept.keeps b t.in_disk u) refl)
        ]
