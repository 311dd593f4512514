-- ===== src/Bio/View/Bread.antt =====
-- What `bread` of kernel/bio.c returns.
use osn.Base.{
  ℕ, ◌+◌, ◌≡◌, ◌≢◌, ◌≤◌, ◌<◌, refl, ap, ap₂, sym, ◌∙◌, inl, inr, subst, List, ◌∷◌, ◌++◌, true,
  false, ◌==◌, ◌&&◌, if◌then◌else◌, arith, Bool-cases, All,
}
use osn.Base.Word.{uint_mod}
use osn.File.{Outcome, done, panicked}
use osn.Bio.{Buf, Bcache, Data, has_key, hold, recycled, bget, bread, at_buf, fill}
use osn.Bio.Bget.{count, InUse, Bget, no_buffers, was_cached, was_unused, bget-Bget}
use osn.Bio.View.{
  view, Clean, DistinctIds, Sound, count-append, shown-here, shown-none, shown-other, shown-same,
  All-append, All-at, DistinctIds-replace, at_buf-append,
}

-- What `bread` returns: a locked and valid buffer of the block, with the bytes that the cache shows of it. The cache
-- shows the same of every block as before.
pub record Read (dev blockno id : ℕ) (c c' : Bcache) : Type 0 where
  pub before : List Buf
  pub after : List Buf
  pub buf : Buf
  pub place : c'.bufs ≡ before ++ (buf ∷ after)
  pub address : buf.id ≡ id
  pub key : has_key dev blockno buf ≡ true
  pub valid : buf.valid ≡ true
  pub locked : buf.locked ≡ true
  pub contents : buf.bytes ≡ view c dev blockno
  pub sound : Sound c'
  pub views : (d n : ℕ) → d ≢ 0 → view c' d n ≡ view c d n
  pub same_disk : c'.disk ≡ c.disk

pub data Bread (dev blockno : ℕ) (c : Bcache) : Outcome (Bcache × ℕ) → Type 0 where
  no_buffer : count dev blockno c.bufs ≡ 0 → InUse c.bufs → Bread dev blockno c panicked
  was_read : (c' : Bcache) (id : ℕ) → Read dev blockno id c c' → Bread dev blockno c (done (c', id))

-- The references to a buffer do not wrap.
abbrev pub CanCount : List Buf → Type 0
CanCount bs = All (λ b. b.refcnt + 1 < uint_mod) bs

has_key-eq :
    (d n d' n' : ℕ) (b : Buf) → has_key d n b ≡ true → has_key d' n' b ≡ true → (d ≡ d') × (n ≡ n')
has_key-eq d n d' n' b h h' = (ground arith, ground arith)

-- The buffer that `fill` leaves, whichever it was.
filled : (ℕ → Data) → Buf → Buf
filled disk b = record b { bytes = if b.valid then b.bytes else disk b.blockno; valid = true }

fill-filled : (disk : ℕ → Data) (b : Buf) → fill disk b ≡ filled disk b
unfolding filled
fill-filled disk b = elim (Bool-cases b.valid) [ inl v ↦ ground arith | inr v ↦ rw v refl ]

module _ (dev blockno : ℕ) (nz : dev ≢ 0) (disk : ℕ → Data) (pre post : List Buf) (b : Buf)
    (s : Sound (record { bufs = pre ++ (b ∷ post); disk = disk })) where
  with_buf : Buf → Bcache
  with_buf x = record { bufs = pre ++ (x ∷ post); disk = disk }

  -- The buffer that has the block.
  held : Buf
  held = filled disk (hold b)

  held-Read :
      count dev blockno pre ≡ 0
      → has_key dev blockno b ≡ true
      → b.refcnt + 1 < uint_mod
      → Read dev blockno b.id (with_buf b) (with_buf held)
  unfolding with_buf held filled
  held-Read z k fits = record {
    before = pre;
    after = post;
    buf = held;
    place = refl;
    address = refl;
    key = k;
    valid = refl;
    locked = refl;
    contents =
        ap (λ n. if b.valid then b.bytes else disk n) (key_block b dev blockno k)
        ∙ sym (shown-here dev blockno (disk blockno) pre b post z k);
    sound = record {
      ids = DistinctIds-replace pre b held post s.ids refl;
      one_buffer = λ d n ne.
          subst (λ c. c ≤ 1) (count-append d n pre b post ∙ sym (count-append d n pre held post))
            (s.one_buffer d n ne);
      clean = All-append (Clean disk) pre b held post s.clean (λ e. absurd (omega arith));
    };
    views = λ d n ne. elim (Bool-cases (has_key d n b)) [
      | inr other ↦ sym (shown-other d n (disk n) pre b held post other other)
      | inl same ↦ sym (
          shown-same d n (disk n) pre b held post refl
            (ap (λ m. if b.valid then b.bytes else disk m) (sym (key_block b d n same))))
    ];
    same_disk = refl;
  }
    where
      key_block : (b : Buf) (d n : ℕ) → has_key d n b ≡ true → b.blockno ≡ n
      key_block b d n k = ground arith

  -- The buffer that is taken for the block.
  taken : Buf
  taken = filled disk (recycled dev blockno b)

  -- No other buffer has the block that this one had.
  alone : (d n : ℕ) → d ≢ 0 → has_key d n b ≡ true → (count d n pre ≡ 0) × (count d n post ≡ 0)
  alone d n ne k =
      let one : count d n pre + 1 + count d n post ≤ 1 =
        subst (λ c. c ≤ 1)
          (count-append d n pre b post
            ∙ ap (λ t. count d n pre + (if t then 1 else 0) + count d n post) k)
          (s.one_buffer d n ne) in
      (omega arith, omega arith)

  -- No buffer had the block that it is taken for.
  nobody :
      count dev blockno (pre ++ (b ∷ post)) ≡ 0
      → (count dev blockno pre ≡ 0) × (count dev blockno post ≡ 0) × (has_key dev blockno b ≡ false)
  nobody z =
      let e = sym (count-append dev blockno pre b post) ∙ z in
      (ground (arith, e), ground (arith, e), ground (arith, e))

  clean_bytes :
      (d n : ℕ)
      → has_key d n b ≡ true
      → b.refcnt ≡ 0
      → (if b.valid then b.bytes else disk n) ≡ disk n
  clean_bytes d n k free = elim (Bool-cases b.valid) [
    | inr v ↦ rw v refl
    | inl v ↦
        let same : b.blockno ≡ n = ground arith in
        rw v (All-at (Clean disk) pre b post s.clean free v ∙ ap disk same)
  ]

  taken-views :
      count dev blockno (pre ++ (b ∷ post)) ≡ 0
      → b.refcnt ≡ 0
      → (d n : ℕ) → d ≢ 0
      → view (with_buf taken) d n ≡ view (with_buf b) d n
  unfolding with_buf taken filled
  taken-views z free d n ne =
      let (zp, zq, nk) = nobody z in
      elim (Bool-cases (has_key d n b)) [
        | inl old ↦
            let (op, oq) = alone d n ne old in
            let gone : (dev == d && blockno == n) ≡ false = ground (arith, nk, old) in
            let none_left : count d n (pre ++ (taken ∷ post)) ≡ 0 =
              count-append d n pre taken post ∙ ground (arith, op, oq, gone) in
            shown-none d n (disk n) (pre ++ (taken ∷ post)) none_left
            ∙ sym (shown-here d n (disk n) pre b post op old ∙ clean_bytes d n old free)
        | inr other ↦ elim (Bool-cases (dev == d && blockno == n)) [
          | inr out ↦ sym (shown-other d n (disk n) pre b taken post other out)
          | inl here ↦
              let ed : dev ≡ d = ground arith in
              let en : blockno ≡ n = ground arith in
              let zp' : count d n pre ≡ 0 = sym (ap₂ (λ x y. count x y pre) ed en) ∙ zp in
              let z' : count d n (pre ++ (b ∷ post)) ≡ 0 =
                sym (ap₂ (λ x y. count x y (pre ++ (b ∷ post))) ed en) ∙ z in
              shown-here d n (disk n) pre taken post zp' here
              ∙ (ap disk en ∙ sym (shown-none d n (disk n) (pre ++ (b ∷ post)) z'))
        ]
      ]

  taken-Read :
      count dev blockno (pre ++ (b ∷ post)) ≡ 0
      → b.refcnt ≡ 0
      → Read dev blockno b.id (with_buf b) (with_buf taken)
  unfolding with_buf taken filled
  taken-Read z free = record {
    before = pre;
    after = post;
    buf = taken;
    place = refl;
    address = refl;
    key = ground arith;
    valid = refl;
    locked = refl;
    contents = sym (shown-none dev blockno (disk blockno) (pre ++ (b ∷ post)) z);
    sound = record {
      ids = DistinctIds-replace pre b taken post s.ids refl;
      one_buffer = λ d n ne.
          let (zp, zq, nk) = nobody z in
          subst (λ c. c ≤ 1) (sym (count-append d n pre taken post)) (at_most d n ne zp zq);
      clean = All-append (Clean disk) pre b taken post s.clean (λ e v. refl);
    };
    views = taken-views z free;
    same_disk = refl;
  }
    where
      at_most :
          (d n : ℕ)
          → d ≢ 0
          → count dev blockno pre ≡ 0
          → count dev blockno post ≡ 0
          → count d n pre + (if dev == d && blockno == n then 1 else 0) + count d n post ≤ 1
      at_most d n ne zp zq = elim (Bool-cases (dev == d && blockno == n)) [
        | inr out ↦
            let old = subst (λ c. c ≤ 1) (count-append d n pre b post) (s.one_buffer d n ne) in
            rw out (ground (arith, old))
        | inl here ↦
            let ed : dev ≡ d = ground arith in
            let en : blockno ≡ n = ground arith in
            let zp' : count d n pre ≡ 0 = sym (ap₂ (λ x y. count x y pre) ed en) ∙ zp in
            let zq' : count d n post ≡ 0 = sym (ap₂ (λ x y. count x y post) ed en) ∙ zq in
            rw here (omega (arith, zp', zq'))
      ]

bread-by :
    (dev blockno id : ℕ) (c : Bcache) (bs : List Buf)
    → bget dev blockno c.bufs ≡ done (bs, id)
    → bread dev blockno c ≡ done (record c { bufs = at_buf id (fill c.disk) bs }, id)
unfolding bread
bread-by dev blockno id c bs e = rw e refl

bread-panicked :
    (dev blockno : ℕ) (c : Bcache)
    → bget dev blockno c.bufs ≡ panicked
    → bread dev blockno c ≡ panicked
unfolding bread
bread-panicked dev blockno c e = rw e refl

-- The run of `bread` where `bget` has put `x` in the place of a buffer.
bread-run :
    (dev blockno : ℕ) (c : Bcache) (pre post : List Buf) (b x : Buf)
    → DistinctIds (pre ++ (b ∷ post))
    → x.id ≡ b.id
    → bget dev blockno c.bufs ≡ done (pre ++ (x ∷ post), b.id)
    → bread dev blockno c
      ≡ done (record { bufs = pre ++ (filled c.disk x ∷ post); disk = c.disk }, b.id)
bread-run dev blockno c pre post b x ids same e =
    let at : at_buf b.id (fill c.disk) (pre ++ (x ∷ post)) ≡ pre ++ (filled c.disk x ∷ post) =
      ap (λ n. at_buf n (fill c.disk) (pre ++ (x ∷ post))) (sym same)
      ∙ (at_buf-append (fill c.disk) pre x post (DistinctIds-replace pre b x post ids same)
          ∙ ap {A = Buf} (λ y. pre ++ (y ∷ post)) (fill-filled c.disk x)) in
    bread-by dev blockno b.id c (pre ++ (x ∷ post)) e
    ∙ ap {A = List Buf} (λ l. done (record c { bufs = l }, b.id)) at

module _ (dev blockno : ℕ) (c : Bcache) (nz : dev ≢ 0) (s : Sound c) (fits : CanCount c.bufs) where
  with_bufs : List Buf → Bcache
  with_bufs l = record c { bufs = l }

  outcome :
      (o : Outcome (List Buf × ℕ))
      → Bget dev blockno c.bufs o
      → bget dev blockno c.bufs ≡ o
      → Bread dev blockno c (bread dev blockno c)
  unfolding with_bufs with_buf held taken
  outcome panicked (no_buffers z all) e = rw (bread-panicked dev blockno c e) (no_buffer z all)
  outcome (done _) (was_cached pre post b e0 z k) e =
      let s0 : Sound (with_bufs (pre ++ (b ∷ post))) = subst (λ l. Sound (with_bufs l)) e0 s in
      let fit = All-at (λ b. b.refcnt + 1 < uint_mod) pre b post (subst CanCount e0 fits) in
      let r = held-Read dev blockno nz c.disk pre post b s0 z k fit in
      rw (bread-run dev blockno c pre post b (hold b) s0.ids refl e) (
        was_read (with_bufs (pre ++ (filled c.disk (hold b) ∷ post))) b.id (
          subst
            (λ l.
              Read dev blockno b.id (with_bufs l)
                (with_bufs (pre ++ (filled c.disk (hold b) ∷ post))))
            (sym e0) r))
  outcome (done _) (was_unused pre post b e0 z free rest) e =
      let s0 : Sound (with_bufs (pre ++ (b ∷ post))) = subst (λ l. Sound (with_bufs l)) e0 s in
      let z0 = sym (ap (count dev blockno) e0) ∙ z in
      let x = recycled dev blockno b in
      let r = taken-Read dev blockno nz c.disk pre post b s0 z0 free in
      rw (bread-run dev blockno c pre post b x s0.ids refl e) (
        was_read (with_bufs (pre ++ (filled c.disk x ∷ post))) b.id (
          subst
            (λ l. Read dev blockno b.id (with_bufs l) (with_bufs (pre ++ (filled c.disk x ∷ post))))
            (sym e0) r))

  -- `bread` of a block of a device that is not 0 returns a locked and valid buffer of it, with the bytes that the
  -- cache shows of it: its buffer's, or the disk's where it has none. It changes what the cache shows of no block,
  -- keeps at most one buffer for each, and panics only where every buffer is in use and none has the block.
  pub bread-Bread : Bread dev blockno c (bread dev blockno c)
  bread-Bread = outcome (bget dev blockno c.bufs) (bget-Bget dev blockno c.bufs) refl
