-- ===== src/Fs/Transfer.antt =====
-- `readi` and `writei` of kernel/fs.c. `copyout` and `copyin` are `either_copyout` and `either_copyin` with their first
-- argument given: they take the address, the buffer's bytes, an offset in it and a count, and say whether they
-- succeed. A result of -1 is `none`.
pub mod Reading
pub mod Writing
pub mod Written
use osn.Base.{
  ℕ, zero, suc, ◌+◌, ◌-◌, ◌*◌, ◌/◌, ◌%◌, ◌≡◌, Option, none, some, Bool, true, false, not, ◌==◌,
  ◌&&◌, ◌||◌, ltb, if◌then◌else◌, min, update,
}
use osn.Base.Word.{add32, sub32}
use osn.File.{Outcome, done, panicked, ◌>>=◌}
use osn.Log.{LogState, log_write}
use osn.Fs.{Disk, Block, Superblock, bsize, modify}
use osn.Fs.Dinode.{Dinode, ndirect}
use osn.Fs.Itable.{Inode, Files, iupdate}
use osn.Fs.Content.{bmap, nindirect}
use osn.Fs.Inode.{with_inode}

-- `MAXFILE*BSIZE`
abbrev pub max_bytes : ℕ
max_bytes = (ndirect + nindirect) * bsize

-- `bmap` of the inode at slot `i`.
pub bmap_at : Superblock → ℕ → ℕ → Files → Outcome (Files × ℕ)
bmap_at sb i bn s = do
  (copy, d, addr) ← bmap sb bn (s.inodes i).copy s.disk
  done (with_inode i (record (s.inodes i) { copy = copy }) (record s { disk = d }), addr)

-- `min(n - tot, BSIZE - off%BSIZE)`
abbrev pub chunk_size : ℕ → ℕ → ℕ → ℕ
chunk_size n tot off = min (n - tot) (bsize - off % bsize)

module _ {M : Type 0} (copyout : ℕ → Block → ℕ → ℕ → M → M × Bool) where
  -- The loop of `readi`, with fuel.
  pub read_chunks : ℕ → Superblock → ℕ → ℕ → ℕ → ℕ → ℕ → Files → M → Outcome (Files × M × Option ℕ)
  read_chunks zero sb i tot n off dst s m = done (s, m, some tot)
  read_chunks (suc fuel) sb i tot n off dst s m = elim (ltb tot n) [
    | false ↦ done (s, m, some tot)
    | true ↦ elim (bmap_at sb i (off / bsize) s) [
      | panicked ↦ panicked
      | done r ↦
          let c = chunk_size n tot off in
          let out = copyout dst (r.0.disk.cache r.1) (off % bsize) c m in
          elim out.1 [
            | false ↦ done (r.0, out.0, none)
            | true ↦ read_chunks fuel sb i (tot + c) n (off + c) (dst + c) r.0 out.0
          ]
    ]
  ]

  -- A turn of the loop copies at least a byte.
  pub readi : Superblock → ℕ → ℕ → ℕ → ℕ → Files → M → Outcome (Files × M × Option ℕ)
  unfolding read_chunks
  readi sb i dst off n s m =
      let size = (s.inodes i).copy.size in
      if ltb size off || ltb (add32 off n) off
      then done (s, m, some 0)
      else (let n' = if ltb size (add32 off n) then size - off else n in
          read_chunks n' sb i 0 n' off dst s m)

-- What `copyin` gives: the buffer's new bytes and whether it succeeds.
module _ (copyin : Block → ℕ → ℕ → ℕ → Block × Bool) where
  -- The loop of `writei`, with fuel: the table, the file system, `tot` and `off` at its end.
  pub write_chunks : ℕ → Superblock → ℕ → ℕ → ℕ → ℕ → ℕ → Files → Outcome (Files × ℕ × ℕ)
  write_chunks zero sb i tot n off src s = done (s, tot, off)
  write_chunks (suc fuel) sb i tot n off src s = elim (ltb tot n) [
    | false ↦ done (s, tot, off)
    | true ↦ elim (bmap_at sb i (off / bsize) s) [
      | panicked ↦ panicked
      | done r ↦
          let c = chunk_size n tot off in
          let bytes = copyin (r.0.disk.cache r.1) (off % bsize) src c in
          elim bytes.1 [
            | false ↦ done (
              record r.0 { disk = record r.0.disk { cache = update r.0.disk.cache r.1 bytes.0 } },
              tot,
              off,
            )
            | true ↦ elim (modify r.1 bytes.0 r.0.disk) [
              | panicked ↦ panicked
              | done d ↦
                  write_chunks fuel sb i (tot + c) n (off + c) (src + c) (record r.0 { disk = d })
            ]
          ]
    ]
  ]

  -- What follows the loop.
  pub finish_write : Superblock → ℕ → ℕ → Files → Outcome Files
  finish_write sb i off s =
      let ip = s.inodes i in
      iupdate sb i (
        if ltb ip.copy.size off
        then with_inode i (record ip { copy = record ip.copy { size = off } }) s
        else s)

  pub writei : Superblock → ℕ → ℕ → ℕ → ℕ → Files → Outcome (Files × Option ℕ)
  unfolding write_chunks finish_write
  writei sb i src off n s =
      let size = (s.inodes i).copy.size in
      if ltb size off || ltb (add32 off n) off
      then done (s, none)
      else if ltb max_bytes (add32 off n)
      then done (s, none)
      else (do
        r ← write_chunks n sb i 0 n off src s
        s' ← finish_write sb i r.2 r.0
        done (s', some r.1))

-- `either_copyout` to the kernel's memory: `memmove`.
pub kernel_copyout : ℕ → Block → ℕ → ℕ → (ℕ → ℕ) → (ℕ → ℕ) × Bool
kernel_copyout dst bytes o n m =
    (λ j. if not (ltb j dst) && ltb j (dst + n) then bytes (o + (j - dst)) else m j, true)

-- `either_copyin` from the kernel's memory `m`.
pub kernel_copyin : (ℕ → ℕ) → Block → ℕ → ℕ → ℕ → Block × Bool
kernel_copyin m bytes o src n =
    (λ j. if not (ltb j o) && ltb j (o + n) then m (src + (j - o)) else bytes j, true)
