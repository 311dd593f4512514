-- ===== src/Pipe.antt =====
-- kernel/pipe.c: a pipe is a ring of 512 bytes with two free-running 32-bit counters. A call that sleeps
-- ends with `asleep`, and goes on from there when it is woken.
pub mod Ring
pub mod Calls
use osn.Base.{
  ℕ, zero, suc, ◌+◌, ◌%◌, ◌≡◌, List, [], ◌∷◌, Option, none, some, Bool, true, false, not, ◌==◌, ltb,
  ◌&&◌, ◌||◌, if◌then◌else◌, get_elem?, get_or, set, replicate, each,
}
use osn.Base.Int.{ℤ, pos, negsuc, minus_one}
use osn.Base.Word.{add32}
use osn.File.{File, fd_pipe, filealloc, fileclose, Released, Outcome, done, panicked, ◌>>=◌}
use osn.Kalloc.{Kmem, kalloc, kfree}
use osn.Proc.{Proc, Kernel, Chan}
use osn.Proc.Wakeup.{sleep, sleep_end, wakeup}

abbrev pub pipesize : ℕ
pipesize = 512

-- `struct pipe`
pub record Pipe : Type 0 where
  pub bytes : List ℕ
  pub nread : ℕ
  pub nwrite : ℕ
  pub readopen : Bool
  pub writeopen : Bool

-- The addresses of `nread` and `nwrite`, which its users sleep on.
pub record Chans : Type 0 where
  pub nread_chan : Chan
  pub nwrite_chan : Chan

-- The pipe as `pipealloc` makes it in a page of bytes `page`.
pub fresh_pipe : List ℕ → Pipe
fresh_pipe page = record { bytes = page; nread = 0; nwrite = 0; readopen = true; writeopen = true }

-- `p->killed` of the process in slot `me`
unfoldable pub killed_at : ℕ → Kernel → Bool
killed_at me k = elim (get_elem? k.procs me) [ none ↦ false | some p ↦ not (p.killed == 0) ]

-- `pipeclose` of the pipe in the page `pa`, for an allocator of the pages from `end` to `phystop`: with the second
-- end the page is freed, and there is no pipe any more.
pub pipeclose :
    ℕ → ℕ → ℕ → Chans → Bool → ℕ → Kernel → Pipe → Kmem → Outcome (Kernel × Option Pipe × Kmem)
pipeclose end phystop me c writable pa k pi km =
    let k' = wakeup (some me) (if writable then c.nread_chan else c.nwrite_chan) k in
    let pi' : Pipe =
      if writable then record pi { writeopen = false } else record pi { readopen = false } in
    if not pi'.readopen && not pi'.writeopen
    then (kfree end phystop pa km >>= λ km'. done (k', none, km'))
    else done (k', some pi', km)

-- `pi->data[pi->nwrite++ % PIPESIZE] = ch`
put : ℕ → Pipe → Pipe
put ch pi = record pi { bytes = set pi.bytes (pi.nwrite % pipesize) ch; nwrite = add32 pi.nwrite 1 }

-- Where the loop of `pipewrite` is left: behind it, by `return -1`, or in `sleep`.
pub data WriteEnd : Type 0 where
  stopped : ℕ → WriteEnd
  closed : WriteEnd
  full : ℕ → WriteEnd

-- The loop of `pipewrite` at `i`, with `m` bytes to go.
pub write_from : (ℕ → Option ℕ) → Bool → ℕ → ℕ → Pipe → Pipe × WriteEnd
unfolding put
write_from copyin killed i zero pi = (pi, stopped i)
write_from copyin killed i (suc m) pi = elim (not pi.readopen || killed) [
  | true ↦ (pi, closed)
  | false ↦ elim (pi.nwrite == add32 pi.nread pipesize) [
    | true ↦ (pi, full i)
    | false ↦ elim (copyin i) [
      | none ↦ (pi, stopped i)
      | some ch ↦ write_from copyin killed (suc i) m (put ch pi)
    ]
  ]
]

-- What a call comes to: its result, or asleep with so many bytes moved.
pub data Called : Type 0 where
  returned : ℤ → Called
  asleep : ℕ → Called

-- The rest of `pipewrite` after its loop, or the sleep in it.
pub write_end : ℕ → Chans → Kernel → Pipe × WriteEnd → Kernel × Pipe × Called
write_end me c k (pi, stopped j) = (wakeup (some me) c.nread_chan k, pi, returned (pos j))
write_end me c k (pi, closed) = (k, pi, returned minus_one)
write_end me c k (pi, full j) =
    (sleep me c.nwrite_chan (wakeup (some me) c.nread_chan k), pi, asleep j)

-- `pipewrite` from byte `i` on, with `m` to go; `copyin` reads a byte at an offset from `addr`. A new call
-- has `i = 0`; one that is woken has the `i` it slept with.
pub pipewrite : ℕ → Chans → (ℕ → Option ℕ) → ℕ → ℕ → Kernel → Pipe → Kernel × Pipe × Called
unfolding write_from killed_at write_end
pipewrite me c copyin i m k pi = write_end me c k (write_from copyin (killed_at me k) i m pi)

-- The copy loop of `piperead` at `i`, with `m` bytes to go; `copyout` writes a byte at an offset from `addr`.
pub read_from {ℓ} : {M : Type ℓ} → (ℕ → ℕ → M → Option M) → ℕ → ℕ → Pipe → M → Pipe × M × ℕ
read_from copyout i zero pi mem = (pi, mem, i)
read_from copyout i (suc m) pi mem = elim (pi.nread == pi.nwrite) [
  | true ↦ (pi, mem, i)
  | false ↦
      let ch = get_or pi.bytes (pi.nread % pipesize) 0 in
      let pi' = record pi { nread = add32 pi.nread 1 } in
      elim (copyout i ch mem) [
        | none ↦ (pi', mem, i)
        | some mem' ↦ read_from copyout (suc i) m pi' mem'
      ]
]

-- `piperead` from the test of its waiting loop on.
pub piperead {ℓ} :
    {M : Type ℓ}
    → ℕ
    → Chans
    → (ℕ → ℕ → M → Option M)
    → ℕ
    → Kernel
    → Pipe
    → M
    → Kernel × Pipe × M × Called
unfolding killed_at read_from
piperead me c copyout n k pi mem =
    if pi.nread == pi.nwrite && pi.writeopen
    then if killed_at me k
      then (k, pi, mem, returned minus_one)
      else (sleep me c.nread_chan k, pi, mem, asleep 0)
    else let (pi', mem', i) = read_from copyout 0 n pi mem in
      (wakeup (some me) c.nwrite_chan k, pi', mem', returned (pos i))

-- What `pipealloc` leaves: the table, and the two files with the pipe's page, or -1.
pub record PipeAlloc : Type 0 where
  pub ftable : List File
  pub kmem : Kmem
  pub made : Option (ℕ × ℕ × ℕ × Pipe)
  pub released : List Released

-- The fields that `pipealloc` sets in one of its files.
pipe_file : Bool → ℕ → File → File
pipe_file writable pa f = record f {
  type = fd_pipe;
  readable = not writable;
  writable = writable;
  pipe = pa;
}

-- `fileclose(*f)` at the label `bad`, after which `pipealloc` returns -1.
close_made : List Released → ℕ → List File → Outcome (List File × List Released)
close_made rs i fs = fileclose i fs >>= λ r. done (r.0, r.1 ∷ rs)

-- `pipealloc`; `page` is the bytes of the page that `kalloc` gives.
pub pipealloc : List ℕ → List File → Kmem → Outcome PipeAlloc
unfolding fresh_pipe pipe_file close_made
pipealloc page fs km =
    let (fs0, f0) = filealloc fs in
    elim f0 [
      | none ↦ done (record { ftable = fs0; kmem = km; made = none; released = [] })
      | some i ↦
          let (fs1, f1) = filealloc fs0 in
          elim f1 [
            | none ↦ do
              (fs', rs) ← close_made [] i fs1
              done (record { ftable = fs'; kmem = km; made = none; released = rs })
            | some j ↦
                let (km', pa) = kalloc km in
                if pa == 0
                then (do
                  (fs2, rs) ← close_made [] i fs1
                  (fs3, rs') ← close_made rs j fs2
                  done (record { ftable = fs3; kmem = km'; made = none; released = rs' }))
                else done (record {
                  ftable =
                      each 0
                        (λ n f.
                          if n == i
                          then pipe_file false pa f
                          else if n == j
                          then pipe_file true pa f
                          else f)
                        fs1;
                  kmem = km';
                  made = some (i, j, pa, fresh_pipe page);
                  released = [];
                })
          ]
    ]
