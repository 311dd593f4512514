-- ===== src/File/Transfer/Chunks.antt =====
-- The chunks of `filewrite` of kernel/file.c and the log transactions they are written in.
use osn.Base.{
  ℕ, ◌^◌, zero, suc, ◌+◌, ◌-◌, ◌≤◌, ◌<◌, ◌≡◌, refl, ap, ◌∙◌, ◌⊎◌, inl, inr, true, ltb, ◌==◌,
  if◌then◌else◌, arith, Bool-cases,
}
use osn.Base.Int.{ℤ, pos, minus_one}
use osn.Base.Word.{add32}
use osn.File.{File, fd_inode, done}
use osn.File.Transfer.{
  Layers, max_chunk, filewrite, write_inode, write_loop, chunk, is_count, advance,
}

module _ {ℓ} {W : Type ℓ} (l : Layers W) where
  open l use {writei, ilock, iunlock, begin_op, end_op}

  -- A transaction of the inode layer with a chunk that a write may use: not empty and at most
  -- `max_chunk` bytes.
  pub Keeps {κ} : (W → Type κ) → Type (ℓ ⊔ κ)
  Keeps P =
      (w : W) (ip addr off n1 : ℕ)
      → P w
      → 0 < n1
      → n1 ≤ max_chunk
      → P (end_op (iunlock ip (writei ip addr off n1 (ilock ip (begin_op w))).0))

  -- Every `writei` of such a chunk succeeds in full.
  abbrev pub WritesAll : Type ℓ
  WritesAll =
      (w : W) (ip addr off n1 : ℕ) → 0 < n1 → n1 ≤ max_chunk → (writei ip addr off n1 w).1 ≡ pos n1

  chunk_bounds :
      (n i : ℕ) → i < n → (0 < chunk l n i) × (chunk l n i ≤ max_chunk) × (chunk l n i ≤ n - i)
  unfolding chunk
  chunk_bounds n i h = ground arith

  write_loop_keeps {κ} :
      (P : W → Type κ) (fuel : ℕ) (f : File) (addr n off i : ℕ) (w : W)
      → Keeps P
      → P w
      → P (write_loop l fuel f addr n off i w).0
  unfolding write_loop Keeps
  write_loop_keeps P zero f addr n off i w keep h = h
  write_loop_keeps P (suc fuel) f addr n off i w keep h = elim (Bool-cases (ltb i n)) [
    | inl more ↦
        let c = chunk l n i in
        let bounds = chunk_bounds n i (ground arith) in
        let step = keep w f.ip (addr + i) off c h bounds.0 bounds.1 in
        let r = (writei f.ip (addr + i) off c (ilock f.ip (begin_op w))).1 in
        rw more (elim (Bool-cases (is_count r c)) [
          | inl same ↦ rw same (write_loop_keeps P fuel f addr n _ (i + c) _ keep step)
          | inr differ ↦ rw differ step
        ])
    | inr enough ↦ rw enough h
  ]

  write_loop_all :
      (fuel : ℕ) (f : File) (addr n off i : ℕ) (w : W)
      → WritesAll
      → off < 2 ^ 32
      → i ≤ n
      → n ≤ i + fuel
      → ((write_loop l fuel f addr n off i w).1 ≡ add32 off (n - i))
        × ((write_loop l fuel f addr n off i w).2 ≡ n)
  unfolding write_loop advance is_count
  write_loop_all zero f addr n off i w all lt le enough = omega arith
  write_loop_all (suc fuel) f addr n off i w all lt le enough = elim (Bool-cases (ltb i n)) [
    | inl more ↦
        let c = chunk l n i in
        let bounds = chunk_bounds n i (ground arith) in
        let before = ilock f.ip (begin_op w) in
        let full = all before f.ip (addr + i) off c bounds.0 bounds.1 in
        let after = end_op (iunlock f.ip (writei f.ip (addr + i) off c before).0) in
        rw (more, full)
          (ground (
            arith,
            bounds,
            write_loop_all fuel f addr n (add32 off c) (i + c) after all (omega arith)
                (omega (arith, bounds)) (omega (arith, bounds)),
          ))
    | inr last ↦ let stop : i ≡ n = ground arith in rw last (ground arith)
  ]

  filewrite_inode :
      (f : File) (addr n : ℕ) (w : W)
      → f.type ≡ fd_inode
      → f.writable ≡ true
      → filewrite l f addr (pos n) w ≡ done (write_inode l f addr (pos n) w)
  unfolding filewrite
  filewrite_inode f addr n w inode writable = rw (writable, inode)

  write_inode_lem :
      (f : File) (addr n : ℕ) (w : W)
      → write_inode l f addr (pos n) w ≡ (
        (write_loop l n f addr n f.off 0 w).0,
        record f { off = (write_loop l n f addr n f.off 0 w).1 },
        if (write_loop l n f addr n f.off 0 w).2 == n then pos n else minus_one,
      )
  unfolding write_inode
  write_inode_lem f addr n w = refl

  -- A write to an inode whose chunks all succeed returns `n` and advances the offset by `n`, however
  -- many transactions it takes.
  pub filewrite_all :
      (f : File) (addr n : ℕ) (w : W)
      → f.type ≡ fd_inode
      → f.writable ≡ true
      → f.off < 2 ^ 32
      → WritesAll
      → (w' : W) × (filewrite l f addr (pos n) w
          ≡ done (w', record f { off = add32 f.off n }, pos n))
  filewrite_all f addr n w inode writable lt all =
      let whole = write_loop_all n f addr n f.off 0 w all lt (omega arith) (omega arith) in
      (
        (write_loop l n f addr n f.off 0 w).0,
        ground (arith, filewrite_inode f addr n w, write_inode_lem f addr n w, whole),
      )

  -- Whatever a write to an inode returns, it is `n` or -1, and the layers below are used only in
  -- transactions of at most `max_chunk` bytes: what such a transaction keeps, the write keeps.
  pub filewrite_keeps {κ} :
      (P : W → Type κ) (f : File) (addr n : ℕ) (w : W)
      → f.type ≡ fd_inode
      → f.writable ≡ true
      → Keeps P
      → P w
      → (w' : W) × (f' : File) × (r : ℤ) × (filewrite l f addr (pos n) w ≡ done (w', f', r))
        × ((r ≡ pos n) ⊎ (r ≡ minus_one))
        × P w'
  filewrite_keeps P f addr n w inode writable keep h =
      let (w', off', i) = write_loop l n f addr n f.off 0 w in
      (
        w',
        record f { off = off' },
        if i == n then pos n else minus_one,
        filewrite_inode f addr n w inode writable ∙ ap done (write_inode_lem f addr n w),
        elim (Bool-cases (i == n)) [ inl e ↦ rw e (inl refl) | inr e ↦ rw e (inr refl) ],
        write_loop_keeps P n f addr n f.off 0 w keep h,
      )
