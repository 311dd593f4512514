-- ===== src/Pipe/Calls.antt =====
-- `pipewrite` and `piperead` of kernel/pipe.c as whole calls.
use osn.Base.{
  ℕ, ◌+◌, ◌≡◌, ◌≢◌, ◌<◌, refl, ap, ◌∙◌, List, [], ◌∷◌, ◌++◌, Option, none, some, true, false, ◌==◌,
  ◌&&◌, zero-add, length, take, drop, inl, inr, ◌⊎◌,
}
use osn.Base.Int.{pos}
use osn.Proc.{Kernel}
use osn.Proc.Wakeup.{sleep, wakeup}
use osn.Pipe.{
  Pipe, Chans, pipewrite, write_end, piperead, killed_at, write_from, Called, returned, asleep,
  WriteEnd,
}
use osn.Pipe.Ring.{
  Holds, Reads, Wrote, all_taken, no_byte, no_room, write_from-Holds, read_from-Holds, store_all,
  empty-test, first-Holds,
}

-- How a call of `pipewrite` at byte `i` with `m` to go ends on a pipe of `len` bytes, from a kernel `k`: it
-- takes `new`, and returns after waking the readers, or also sleeps on a full pipe.
pub data WriteCall (me : ℕ) (c : Chans) (copyin : ℕ → Option ℕ) (i m len : ℕ) (k : Kernel)
    (new : List ℕ) : Kernel → Called → Type 0 where
  returns :
      (j : ℕ)
      → j ≡ i + length new
      → (length new ≡ m) ⊎ (copyin j ≡ none)
      → WriteCall me c copyin i m len k new (wakeup (some me) c.nread_chan k) (returned (pos j))
  sleeps :
      (j : ℕ)
      → j ≡ i + length new
      → length new < m
      → len + length new ≡ 512
      → WriteCall me c copyin i m len k new
          (sleep me c.nwrite_chan (wakeup (some me) c.nread_chan k))
          (asleep j)

-- The call by how its loop ends.
pipewrite-end :
    (me : ℕ) (c : Chans) (copyin : ℕ → Option ℕ) (i m len : ℕ) (k : Kernel) (pi : Pipe) {pi' : Pipe}
    {e : WriteEnd} (new : List ℕ)
    → write_from copyin false i m pi ≡ (pi', e)
    → killed_at me k ≡ false
    → Wrote copyin i m len new e
    → (k' : Kernel) × (r : Called) × (pipewrite me c copyin i m k pi ≡ (k', pi', r))
      × WriteCall me c copyin i m len k new k' r
unfolding pipewrite write_end
pipewrite-end me c copyin i m len k pi new run alive (all_taken j at h) = (
  wakeup (some me) c.nread_chan k,
  returned (pos j),
  ap (λ b. write_end me c k (write_from copyin b i m pi)) alive ∙ ap (write_end me c k) run,
  returns j at (inl h),
)
pipewrite-end me c copyin i m len k pi new run alive (no_byte j at h e) = (
  wakeup (some me) c.nread_chan k,
  returned (pos j),
  ap (λ b. write_end me c k (write_from copyin b i m pi)) alive ∙ ap (write_end me c k) run,
  returns j at (inr e),
)
pipewrite-end me c copyin i m len k pi new run alive (no_room j at h e) = (
  sleep me c.nwrite_chan (wakeup (some me) c.nread_chan k),
  asleep j,
  ap (λ b. write_end me c k (write_from copyin b i m pi)) alive ∙ ap (write_end me c k) run,
  sleeps j at h e,
)

-- A write to a pipe whose read end is open, by a process that is not killed, puts the bytes it takes behind
-- those in the pipe; it returns the count or sleeps on a full pipe, and wakes the readers in both cases.
pub pipewrite-Holds :
    (me : ℕ) (c : Chans) (copyin : ℕ → Option ℕ) (i m : ℕ) (k : Kernel) (pi : Pipe) (items : List ℕ)
    → Holds pi items
    → pi.readopen ≡ true
    → killed_at me k ≡ false
    → (k' : Kernel) × (pi' : Pipe) × (r : Called) × (new : List ℕ) × (pipewrite me c copyin i m k pi
        ≡ (k', pi', r))
      × Holds pi' (items ++ new)
      × Reads copyin i new
      × WriteCall me c copyin i m (length items) k new k' r
unfolding pipewrite
pipewrite-Holds me c copyin i m k pi items h open_end alive =
    let (pi', e, new, run, h', reads, ends) = write_from-Holds copyin i m pi items h open_end in
    let (k', r, called, ends') =
      pipewrite-end me c copyin i m (length items) k pi new run alive ends in
    (k', pi', r, new, called, h', reads, ends')

-- The test of the waiting loop.
ready-test :
    {pi : Pipe} {items : List ℕ}
    → Holds pi items
    → (items ≢ []) ⊎ (pi.writeopen ≡ false)
    → (pi.nread == pi.nwrite && pi.writeopen) ≡ false
ready-test {items = []} h ready = elim ready [
  | inl ne ↦ elim (ne refl) [ ]
  | inr e ↦ rw (empty-test h) e
]
ready-test {items = b ∷ bs} h ready = rw ((first-Holds h).0) refl

-- A read of a pipe that holds bytes, or whose write end is closed, moves the oldest bytes into memory that
-- takes every byte: as many as were asked for or as there are. It returns their count and wakes the writers.
pub piperead-Holds {ℓ} :
    {M : Type ℓ} (store : ℕ → ℕ → M → M) (me : ℕ) (c : Chans) (n : ℕ) (k : Kernel) (pi : Pipe)
    (items : List ℕ) (mem : M)
    → Holds pi items
    → (items ≢ []) ⊎ (pi.writeopen ≡ false)
    → (pi' : Pipe) × (piperead me c (λ j b w. some (store j b w)) n k pi mem ≡ (
      wakeup (some me) c.nwrite_chan k,
      pi',
      store_all store 0 (take n items) mem,
      returned (pos (length (take n items))),
    ))
      × Holds pi' (drop n items)
unfolding piperead
piperead-Holds store me c n k pi items mem h ready =
    let (pi', run, h') = read_from-Holds store 0 n pi items mem h in
    (
      pi',
      rw (ready-test h ready, run)
          (ap
            (λ j. (
              wakeup (some me) c.nwrite_chan k,
              pi',
              store_all store 0 (take n items) mem,
              returned (pos j),
            ))
            (zero-add (length (take n items)))),
      h',
    )
