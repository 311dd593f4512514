-- ===== src/Fs/Transfer/Writing.antt =====
-- `writei` of kernel/fs.c from the kernel's memory, to blocks that the file has.
use osn.Base.{
  ℕ, zero, suc, ◌+◌, ◌-◌, ◌*◌, ◌/◌, ◌%◌, ◌≤◌, ◌<◌, ◌≡◌, ◌≢◌, refl, ap, ap₂, sym, ◌∙◌, subst, true,
  false, not, ◌==◌, ◌&&◌, ltb, if◌then◌else◌, update, update_self, update_ne, arith, dec_lt, lt→ltb,
  ℕ_discrete,
}
use osn.File.{Outcome, done}
use osn.Fs.{Disk, Block, Superblock, bsize}
use osn.Fs.Room.{Room, Modified, modify-Modified, less-Room}
use osn.Fs.Dinode.{Dinode, ndirect, load32}
use osn.Fs.Itable.{Files}
use osn.Fs.Content.{nindirect}
use osn.Fs.Content.Bmap.{block_of}
use osn.Fs.Transfer.{chunk_size, write_chunks, max_bytes, kernel_copyin}
use osn.Fs.Transfer.Reading.{Mapped, byte_of, bmap_at-block_of}

-- The blocks that the file has are different, and none is its indirect block.
pub record Placed (ip : Dinode) (cache : ℕ → Block) : Type 0 where
  pub distinct :
      (j k : ℕ)
      → j < ndirect + nindirect
      → k < ndirect + nindirect
      → block_of ip cache j ≢ 0
      → block_of ip cache j ≡ block_of ip cache k
      → j ≡ k
  pub indirect_apart :
      (j : ℕ)
      → j < ndirect + nindirect
      → block_of ip cache j ≢ 0
      → block_of ip cache j ≢ ip.addrs ndirect

-- A change of a block that is not the indirect block changes no address.
block_of-update :
    (ip : Dinode) (cache : ℕ → Block) (b k : ℕ) (bytes : Block)
    → b ≢ ip.addrs ndirect
    → block_of ip (update cache b bytes) k ≡ block_of ip cache k
block_of-update ip cache b k bytes ne =
    ap
      (λ x.
        if ltb k ndirect
        then ip.addrs k
        else if ip.addrs ndirect == 0
        then 0
        else load32 x (4 * (k - ndirect)))
      (update_ne cache b (ip.addrs ndirect) bytes ne)

module _ (m : ℕ → ℕ) (ip : Dinode) where
  -- The bytes of the file with `n` bytes from `src` at `off`, where nothing else changes but blocks of the file.
  pub record Written (off src n : ℕ) (d d' : Disk) : Type 0 where
    pub bytes :
        (k : ℕ)
        → k < max_bytes
        → byte_of ip d'.cache k ≡ (
            if not (ltb k off) && ltb k (off + n)
            then m (src + (k - off))
            else byte_of ip d.cache k)
    pub same_blocks : (k : ℕ) → block_of ip d'.cache k ≡ block_of ip d.cache k
    pub frame :
        (y : ℕ)
        → ((k : ℕ) → k < ndirect + nindirect → block_of ip d.cache k ≢ y)
        → d'.cache y ≡ d.cache y

  -- The block with the bytes of a turn.
  turn_bytes : ℕ → ℕ → ℕ → Block → Block
  turn_bytes off src c bytes = (kernel_copyin m bytes (off % bsize) src c).0

  turn-Written :
      (off src c r : ℕ) (d d' : Disk)
      → Placed ip d.cache
      → off / bsize < ndirect + nindirect
      → block_of ip d.cache (off / bsize) ≢ 0
      → off % bsize + c ≤ bsize
      → Modified r
          (block_of ip d.cache (off / bsize))
          (turn_bytes off src c (d.cache (block_of ip d.cache (off / bsize))))
          d
          d'
      → Written off src c d d'
  unfolding turn_bytes kernel_copyin
  turn-Written off src c r d d' p lt has le md = record {
    bytes = λ k lt'. byte k lt';
    same_blocks = λ k. same k;
    frame =
        λ y apart. ap (λ x. x y) md.cached ∙ update_ne d.cache addr y new (apart (off / bsize) lt);
  }
    where
      addr : ℕ
      addr = block_of ip d.cache (off / bsize)

      new : Block
      new = turn_bytes off src c (d.cache addr)

      same : (k : ℕ) → block_of ip d'.cache k ≡ block_of ip d.cache k
      same k =
          ap (λ x. block_of ip x k) md.cached
          ∙ block_of-update ip d.cache addr k new (p.indirect_apart (off / bsize) lt has)

      at :
          (k : ℕ)
          → byte_of ip d'.cache k
            ≡ update d.cache addr new (block_of ip d.cache (k / bsize)) (k % bsize)
      at k = ap₂ (λ x b. x b (k % bsize)) md.cached (same (k / bsize))

      byte :
          (k : ℕ)
          → k < max_bytes
          → byte_of ip d'.cache k ≡ (
              if not (ltb k off) && ltb k (off + c)
              then m (src + (k - off))
              else byte_of ip d.cache k)
      byte k lt' = elim (ℕ_discrete (k / bsize) (off / bsize)) [
        | yes e ↦
            let b : block_of ip d.cache (k / bsize) ≡ addr = ap (block_of ip d.cache) e in
            let here : update d.cache addr new (block_of ip d.cache (k / bsize)) (k % bsize)
                ≡ new (k % bsize) =
              ap (λ x. update d.cache addr new x (k % bsize)) b
              ∙ ap (λ f. f (k % bsize)) (update_self d.cache addr new) in
            let here_if : (not (ltb (k % bsize) (off % bsize)) && ltb (k % bsize) (off % bsize + c))
                ≡ (not (ltb k off) && ltb k (off + c)) =
              ground arith in
            let src_if : (not (ltb k off) && ltb k (off + c)) ≡ true
                → k % bsize - off % bsize ≡ k - off =
              λ t. ground arith in
            at k ∙ (here ∙ (rw here_if (ground (arith, ap (λ x. d.cache x (k % bsize)) b))))
        | no ne ↦
            let b : addr ≢ block_of ip d.cache (k / bsize) =
              λ e. ne (sym (p.distinct (off / bsize) (k / bsize) lt (omega arith) has e)) in
            let out : (not (ltb k off) && ltb k (off + c)) ≡ false = ground arith in
            at k
            ∙ (ap (λ f. f (k % bsize))
                  (update_ne d.cache addr (block_of ip d.cache (k / bsize)) new b)
                ∙ rw out refl)
      ]

  Written-trans :
      (off src a b : ℕ) (d d1 d2 : Disk)
      → Written off src a d d1
      → Written (off + a) (src + a) b d1 d2
      → Written off src (a + b) d d2
  Written-trans off src a b d d1 d2 f g = record {
    bytes = λ k lt. elim (dec_lt k (off + a)) [
      | yes low ↦ ground (arith, f.bytes k lt, g.bytes k lt)
      | no ge ↦
          let same : src + a + (k - (off + a)) ≡ src + (k - off) = omega arith in
          ground (arith, f.bytes k lt, g.bytes k lt, ap m same)
    ];
    same_blocks = λ k. g.same_blocks k ∙ f.same_blocks k;
    frame =
        λ y apart. g.frame y (λ k lt e. apart k lt (sym (f.same_blocks k) ∙ e)) ∙ f.frame y apart;
  }

  Placed-Written :
      (off src n : ℕ) (d d' : Disk)
      → Written off src n d d'
      → Placed ip d.cache
      → Placed ip d'.cache
  Placed-Written off src n d d' w p = record {
    distinct = λ j k lt lt' has e.
        p.distinct j k lt lt' (λ z. has (w.same_blocks j ∙ z))
          (sym (w.same_blocks j) ∙ (e ∙ w.same_blocks k));
    indirect_apart = λ j lt has e.
        p.indirect_apart j lt (λ z. has (w.same_blocks j ∙ z)) (sym (w.same_blocks j) ∙ e);
  }

module _ (m : ℕ → ℕ) (sb : Superblock) (i : ℕ) where
  -- A turn of the loop.
  write_turn :
      (fuel tot n off src r : ℕ) (s : Files)
      → tot < n
      → off / bsize < ndirect + nindirect
      → Placed (s.inodes i).copy s.disk.cache
      → block_of (s.inodes i).copy s.disk.cache (off / bsize) ≢ 0
      → Room (suc r) s.disk
      → (d : Disk) × (write_chunks (kernel_copyin m) (suc fuel) sb i tot n off src s
          ≡ write_chunks
              (kernel_copyin m)
              fuel
              sb
              i
              (tot + chunk_size n tot off)
              n
              (off + chunk_size n tot off)
              (src + chunk_size n tot off)
              (record s { disk = d }))
        × Written m (s.inodes i).copy off src (chunk_size n tot off) s.disk d
        × Room r d
  unfolding write_chunks kernel_copyin turn_bytes
  write_turn fuel tot n off src r s lt small p has room =
      let ip = (s.inodes i).copy in
      let c = chunk_size n tot off in
      let addr = block_of ip s.disk.cache (off / bsize) in
      let (d, run, md) =
        modify-Modified r addr (turn_bytes m ip off src c (s.disk.cache addr)) s.disk room in
      (
        d,
        rw (write_chunks, lt→ltb tot n lt)
            (rw (bmap_at-block_of sb i (off / bsize) s small has) (rw run refl)),
        turn-Written m ip off src c r s.disk d p small has (omega arith) md,
        md.room,
      )

  -- Where the loop stops.
  write_stop :
      (tot n off src blocks r : ℕ) (s : Files)
      → tot ≤ n
      → n ≤ tot
      → Room (blocks + r) s.disk
      → (d : Disk) × (◌≡◌ {A = Outcome (Files × ℕ × ℕ)}
          (done (s, tot, off))
          (done (record s { disk = d }, n, off + (n - tot))))
        × Written m (s.inodes i).copy off src (n - tot) s.disk d
        × Room r d
  write_stop tot n off src blocks r s le ge room =
      let e : tot ≡ n = omega arith in
      let o : off ≡ off + (n - tot) = omega arith in
      (
        s.disk,
        ap₂ {A = ℕ} {B = ℕ} (λ t o. done (s, t, o)) e o,
        record { bytes = λ k lt. ground arith; same_blocks = λ k. refl; frame = λ y apart. refl },
        less-Room (blocks + r) r s.disk (omega arith) room,
      )

  write_from_lem :
      (fuel tot n off src blocks r : ℕ) (s : Files)
      → tot ≤ n
      → n - tot ≤ fuel
      → off + (n - tot) ≤ max_bytes
      → (tot < n → off % bsize + (n - tot) ≤ blocks * bsize)
      → Placed (s.inodes i).copy s.disk.cache
      → Mapped sb i s off (n - tot)
      → Room (blocks + r) s.disk
      → (d : Disk) × (write_chunks (kernel_copyin m) fuel sb i tot n off src s
          ≡ done (record s { disk = d }, n, off + (n - tot)))
        × Written m (s.inodes i).copy off src (n - tot) s.disk d
        × Room r d
  unfolding write_chunks Mapped
  write_from_lem zero tot n off src blocks r s le enough small cover p mapped room =
      write_stop tot n off src blocks r s le (omega arith) room
  write_from_lem (suc fuel) tot n off src blocks r s le enough small cover p mapped room =
      elim (dec_lt tot n) [
        | no ge ↦
            let f : ltb tot n ≡ false = ground arith in
            rw (write_chunks, f) (write_stop tot n off src blocks r s le (omega arith) room)
        | yes lt ↦
            let c = chunk_size n tot off in
            let enough_blocks : off % bsize + (n - tot) ≤ blocks * bsize = cover lt in
            let (d1, turn, here, room1) =
              write_turn fuel tot n off src (blocks - 1 + r) s lt (omega arith) p
                (mapped off (omega arith) (omega arith))
                (less-Room (blocks + r) (suc (blocks - 1 + r)) s.disk (omega arith) room) in
            let (d2, run, rest, room2) =
              write_from_lem fuel (tot + c) n (off + c) (src + c) (blocks - 1) r
                (record s { disk = d1 }) (omega arith) (omega arith) (omega arith)
                (λ more. omega arith)
                (Placed-Written m (s.inodes i).copy off src c s.disk d1 here p)
                (λ k ge lt' z.
                  mapped k (omega arith) (omega arith) (sym (here.same_blocks (k / bsize)) ∙ z))
                room1 in
            let whole : c + (n - (tot + c)) ≡ n - tot = omega arith in
            let reached : off + c + (n - (tot + c)) ≡ off + (n - tot) = omega arith in
            (
              d2,
              turn
                  ∙ subst
                      (λ o.
                        write_chunks (kernel_copyin m) fuel sb i (tot + c) n (off + c) (src + c)
                          (record s { disk = d1 })
                        ≡ done (record s { disk = d2 }, n, o))
                      reached run,
              subst (λ t. Written m (s.inodes i).copy off src t s.disk d2) whole
                  (Written-trans m (s.inodes i).copy off src c (n - (tot + c)) s.disk d1 d2 here
                    rest),
              room2,
            )
      ]

  -- The loop with its first arguments.
  pub write_all_lem :
      (n off src blocks r : ℕ) (s : Files)
      → off + n ≤ max_bytes
      → off % bsize + n ≤ blocks * bsize
      → Placed (s.inodes i).copy s.disk.cache
      → Mapped sb i s off n
      → Room (blocks + r) s.disk
      → (d : Disk) × (write_chunks (kernel_copyin m) n sb i 0 n off src s
          ≡ done (record s { disk = d }, n, off + n))
        × Written m (s.inodes i).copy off src n s.disk d
        × Room r d
  unfolding Mapped
  write_all_lem n off src blocks r s small cover p mapped room =
      let z : n - 0 ≡ n = omega arith in
      subst
        (λ t.
          (d : Disk) × (write_chunks (kernel_copyin m) n sb i 0 n off src s
            ≡ done (record s { disk = d }, n, off + t))
          × Written m (s.inodes i).copy off src t s.disk d
          × Room r d)
        z
        (write_from_lem n 0 n off src blocks r s (omega arith) (omega arith) (omega arith)
          (λ more. omega arith) p (λ k ge lt. mapped k ge (omega arith)) room)
