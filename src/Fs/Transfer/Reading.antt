-- ===== src/Fs/Transfer/Reading.antt =====
-- `readi` of kernel/fs.c into the kernel's memory.
use osn.Base.{
  ℕ, zero, suc, ◌+◌, ◌-◌, ◌*◌, ◌/◌, ◌%◌, ◌≤◌, ◌<◌, ◌≡◌, ◌≢◌, inl, inr, refl, ap, ap₂, ◌∙◌, some,
  true, false, not, ◌==◌, ◌&&◌, ◌||◌, ltb, if◌then◌else◌, min, update_get, arith, dec_lt, subst,
  Bool-cases, lt→ltb,
}
use osn.Base.Word.{add32, uint_mod}
use osn.File.{done}
use osn.Fs.{Disk, Block, Superblock, bsize}
use osn.Fs.Dinode.{Dinode, ndirect, load32}
use osn.Fs.Itable.{Inode, Files}
use osn.Fs.Content.{bmap, nindirect}
use osn.Fs.Content.Bmap.{block_of}
use osn.Fs.Transfer.{bmap_at, chunk_size, kernel_copyout, read_chunks, readi, max_bytes}

-- The byte `k` of a file.
abbrev pub byte_of : Dinode → (ℕ → Block) → ℕ → ℕ
byte_of ip cache k = cache (block_of ip cache (k / bsize)) (k % bsize)

bmap-block_of :
    (sb : Superblock) (bn : ℕ) (ip : Dinode) (d : Disk)
    → bn < ndirect + nindirect
    → block_of ip d.cache bn ≢ 0
    → bmap sb bn ip d ≡ done (ip, d, block_of ip d.cache bn)
unfolding bmap
bmap-block_of sb bn ip d lt has = elim (Bool-cases (ltb bn ndirect)) [
  | inl direct ↦ let nz : (ip.addrs bn == 0) ≡ false = ground arith in rw direct (rw nz refl)
  | inr above ↦
      let inside : ltb (bn - ndirect) nindirect ≡ true = ground arith in
      let linked : (ip.addrs ndirect == 0) ≡ false = ground arith in
      let nz : (load32 (d.cache (ip.addrs ndirect)) (4 * (bn - ndirect)) == 0) ≡ false =
        ground arith in
      rw (above, inside) (rw linked (rw nz refl))
]

pub bmap_at-block_of :
    (sb : Superblock) (i bn : ℕ) (s : Files)
    → bn < ndirect + nindirect
    → block_of (s.inodes i).copy s.disk.cache bn ≢ 0
    → bmap_at sb i bn s ≡ done (s, block_of (s.inodes i).copy s.disk.cache bn)
unfolding bmap_at
bmap_at-block_of sb i bn s lt has = rw (bmap-block_of sb bn (s.inodes i).copy s.disk lt has) (
    ap {A = ℕ → Inode}
      (λ f. done (record s { inodes = f }, block_of (s.inodes i).copy s.disk.cache bn))
      (update_get s.inodes i))

module _ (sb : Superblock) (i : ℕ) (s : Files) where
  -- Every block of these bytes of the file is there.
  unfoldable pub Mapped : ℕ → ℕ → Type 0
  Mapped off n =
      (k : ℕ) → off ≤ k → k < off + n → block_of (s.inodes i).copy s.disk.cache (k / bsize) ≢ 0

  byte : ℕ → ℕ
  byte k = byte_of (s.inodes i).copy s.disk.cache k

  -- The memory with `n` bytes of the file from `off` on at `dst`.
  HasBytes : ℕ → ℕ → ℕ → (ℕ → ℕ) → (ℕ → ℕ) → Type 0
  HasBytes dst off n m m' =
      (j : ℕ) → m' j ≡ (if not (ltb j dst) && ltb j (dst + n) then byte (off + (j - dst)) else m j)

  same_block :
      (off x : ℕ)
      → x < bsize - off % bsize
      → byte (off + x)
        ≡ s.disk.cache (block_of (s.inodes i).copy s.disk.cache (off / bsize)) (off % bsize + x)
  unfolding byte
  same_block off x lt =
      let q : (off + x) / bsize ≡ off / bsize = omega arith in
      let r : (off + x) % bsize ≡ off % bsize + x = omega arith in
      ap₂ (λ b o. s.disk.cache (block_of (s.inodes i).copy s.disk.cache b) o) q r

  read_turn :
      (fuel tot n off dst : ℕ) (m : ℕ → ℕ)
      → tot < n
      → off / bsize < ndirect + nindirect
      → block_of (s.inodes i).copy s.disk.cache (off / bsize) ≢ 0
      → (m1 : ℕ → ℕ) × (read_chunks kernel_copyout (suc fuel) sb i tot n off dst s m
          ≡ read_chunks kernel_copyout fuel sb i
              (tot + chunk_size n tot off)
              n
              (off + chunk_size n tot off)
              (dst + chunk_size n tot off)
              s
              m1)
        × HasBytes dst off (chunk_size n tot off) m m1
  unfolding read_chunks kernel_copyout HasBytes byte
  read_turn fuel tot n off dst m lt small has = (
    (kernel_copyout dst (s.disk.cache (block_of (s.inodes i).copy s.disk.cache (off / bsize)))
        (off % bsize) (chunk_size n tot off) m).0,
    rw (read_chunks, lt→ltb tot n lt) (rw (bmap_at-block_of sb i (off / bsize) s small has) refl),
    λ j. ground (arith, same_block off (j - dst)),
  )

  -- One turn after another.
  HasBytes-trans :
      (dst off a b : ℕ) (m m1 m2 : ℕ → ℕ)
      → HasBytes dst off a m m1
      → HasBytes (dst + a) (off + a) b m1 m2
      → HasBytes dst off (a + b) m m2
  unfolding HasBytes
  HasBytes-trans dst off a b m m1 m2 f g j = elim (dec_lt j (dst + a)) [
    | yes lt ↦ ground (arith, f j, g j)
    | no ge ↦
        let same : off + a + (j - (dst + a)) ≡ off + (j - dst) = omega arith in
        ground (arith, f j, g j, ap byte same)
  ]

  read_from_lem :
      (fuel tot n off dst : ℕ) (m : ℕ → ℕ)
      → tot ≤ n
      → n - tot ≤ fuel
      → off + (n - tot) ≤ max_bytes
      → Mapped off (n - tot)
      → (m' : ℕ → ℕ) × (read_chunks kernel_copyout fuel sb i tot n off dst s m
          ≡ done (s, m', some n))
        × HasBytes dst off (n - tot) m m'
  unfolding read_chunks HasBytes Mapped
  read_from_lem zero tot n off dst m le enough small mapped =
      let e : tot ≡ n = omega arith in (m, ap (λ t. done (s, m, some t)) e, λ j. ground arith)
  read_from_lem (suc fuel) tot n off dst m le enough small mapped = elim (dec_lt tot n) [
    | no ge ↦
        let e : tot ≡ n = omega arith in
        let f : ltb tot n ≡ false = ground arith in
        (m, rw (read_chunks, f) (ap (λ t. done (s, m, some t)) e), λ j. ground arith)
    | yes lt ↦
        let c = chunk_size n tot off in
        let (m1, turn, here) =
          read_turn fuel tot n off dst m lt (omega arith)
            (mapped off (omega arith) (omega arith)) in
        let (m2, run, rest) =
          read_from_lem fuel (tot + c) n (off + c) (dst + c) m1 (omega arith) (omega arith)
            (omega arith) (λ k ge lt'. mapped k (omega arith) (omega arith)) in
        let total : c + (n - (tot + c)) ≡ n - tot = omega arith in
        (
          m2,
          turn ∙ run,
          λ j.
              subst
                (λ t.
                  m2 j
                  ≡ (if not (ltb j dst) && ltb j (dst + t) then byte (off + (j - dst)) else m j))
                total (HasBytes-trans dst off c (n - (tot + c)) m m1 m2 here rest j),
        )
  ]

  -- The count that a read of `n` bytes at `off` gives.
  abbrev pub read_count : ℕ → ℕ → ℕ
  read_count off n =
      if ltb (s.inodes i).copy.size off || ltb (add32 off n) off
      then 0
      else min n ((s.inodes i).copy.size - off)

  -- A read that returns `c` and has copied `c` bytes.
  pub record Reads (dst off n : ℕ) (m : ℕ → ℕ) (c : ℕ) : Type 0 where
    pub memory : ℕ → ℕ
    pub run : readi kernel_copyout sb i dst off n s m ≡ done (s, memory, some c)
    pub bytes :
        (j : ℕ)
        → memory j ≡ (
            if not (ltb j dst) && ltb j (dst + c)
            then byte_of (s.inodes i).copy s.disk.cache (off + (j - dst))
            else m j)

  readi-refused :
      (dst off n : ℕ) (m : ℕ → ℕ)
      → (ltb (s.inodes i).copy.size off || ltb (add32 off n) off) ≡ true
      → Reads dst off n m 0
  unfolding readi
  readi-refused dst off n m out = record {
    memory = m;
    run = rw out refl;
    bytes = λ j. ground arith;
  }

  readi-loop :
      (dst off n c : ℕ) (m : ℕ → ℕ)
      → (ltb (s.inodes i).copy.size off || ltb (add32 off n) off) ≡ false
      → (if ltb (s.inodes i).copy.size (add32 off n) then (s.inodes i).copy.size - off else n) ≡ c
      → readi kernel_copyout sb i dst off n s m ≡ read_chunks kernel_copyout c sb i 0 c off dst s m
  unfolding readi
  readi-loop dst off n c m inside count = rw inside (rw count refl)

  readi-inside :
      (dst off n c : ℕ) (m : ℕ → ℕ)
      → (ltb (s.inodes i).copy.size off || ltb (add32 off n) off) ≡ false
      → (if ltb (s.inodes i).copy.size (add32 off n) then (s.inodes i).copy.size - off else n) ≡ c
      → off + c ≤ max_bytes
      → Mapped off c
      → Reads dst off n m c
  unfolding readi HasBytes byte Mapped
  readi-inside dst off n c m inside count small mapped =
      let (m', run, here) =
        read_from_lem c 0 c off dst m (omega arith) (omega arith) (omega arith)
          (λ k ge lt. mapped k ge (omega arith)) in
      let z : c - 0 ≡ c = omega arith in
      record {
        memory = m';
        run = readi-loop dst off n c m inside count ∙ run;
        bytes = λ j.
            subst
              (λ t.
                m' j ≡ (if not (ltb j dst) && ltb j (dst + t) then byte (off + (j - dst)) else m j))
              z (here j);
      }

  -- `readi` to the kernel's memory from a file within the largest size, where the file has the blocks of the bytes that
  -- are read and the offset and the count are `uint`s, copies the bytes of the file from `off` on, as many as are asked
  -- for and there are, and none for an offset past the end or a sum that wraps; it returns their number and changes
  -- nothing else.
  pub readi-Reads :
      (dst off n : ℕ) (m : ℕ → ℕ)
      → off < uint_mod
      → n < uint_mod
      → (s.inodes i).copy.size ≤ max_bytes
      → Mapped off (read_count off n)
      → Reads dst off n m (read_count off n)
  unfolding Mapped
  readi-Reads dst off n m lt_off lt_n small mapped =
      elim (Bool-cases (ltb (s.inodes i).copy.size off || ltb (add32 off n) off)) [
        | inl out ↦ rw out (readi-refused dst off n m out)
        | inr inside ↦
            let whole : (if ltb (s.inodes i).copy.size (add32 off n)
                  then (s.inodes i).copy.size - off
                  else n)
                ≡ min n ((s.inodes i).copy.size - off) =
              ground arith in
            let le : off ≤ (s.inodes i).copy.size = ground arith in
            let count : read_count off n ≡ min n ((s.inodes i).copy.size - off) = rw inside refl in
            rw inside (
              readi-inside dst off n (min n ((s.inodes i).copy.size - off)) m inside whole
                (omega arith) (λ k ge lt. mapped k ge (omega (arith, count))))
      ]
