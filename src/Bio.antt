-- ===== src/Bio.antt =====
-- kernel/bio.c: the buffer cache. The doubly linked list of buffers is the list of them from `head.next`, the most
-- recently used, to `head.prev`. A buffer's address is its `id`; `bcache.lock` is held through each turn that changes
-- the list. `locked` is the `locked` of the buffer's sleep lock: `bget` is modelled up to where it has the lock, and
-- the others for the process that holds it. `disk` is what `virtio_disk_rw` reads and writes.
pub mod Bget
pub mod View
pub mod Brelse
use osn.Base.{
  ℕ, zero, suc, ◌+◌, ◌≡◌, List, [], ◌∷◌, ◌++◌, Option, none, some, Bool, true, false, not, ◌==◌,
  ◌&&◌, if◌then◌else◌, update,
}
use osn.Base.Word.{add32, sub32}
use osn.File.{Outcome, done, panicked, ◌>>=◌}

abbrev pub Data : Type 0
Data = ℕ → ℕ

-- `struct buf`
pub record Buf : Type 0 where
  pub id : ℕ
  pub valid : Bool
  pub dev : ℕ
  pub blockno : ℕ
  pub locked : Bool
  pub refcnt : ℕ
  pub bytes : Data

pub record Bcache : Type 0 where
  pub bufs : List Buf
  pub disk : ℕ → Data

-- `b->dev == dev && b->blockno == blockno`
abbrev pub has_key : ℕ → ℕ → Buf → Bool
has_key dev blockno b = b.dev == dev && b.blockno == blockno

-- The buffer as the first loop of `bget` leaves it, with its lock.
abbrev pub hold : Buf → Buf
hold b = record b { refcnt = add32 b.refcnt 1; locked = true }

-- And as the second loop leaves it.
abbrev pub recycled : ℕ → ℕ → Buf → Buf
recycled dev blockno b = record b {
  dev = dev;
  blockno = blockno;
  valid = false;
  refcnt = 1;
  locked = true;
}

-- The loop over the list from its head: the list with the first such buffer held, and that buffer's address.
pub find_cached : ℕ → ℕ → List Buf → Option (List Buf × ℕ)
find_cached dev blockno [] = none
find_cached dev blockno (b ∷ bs) =
    let rest = find_cached dev blockno bs in
    if has_key dev blockno b
    then some (hold b ∷ bs, b.id)
    else elim rest [ none ↦ none | some r ↦ some (b ∷ r.0, r.1) ]

-- The loop from the list's end: the last buffer with no reference.
pub find_recyclable : ℕ → ℕ → List Buf → Option (List Buf × ℕ)
find_recyclable dev blockno [] = none
find_recyclable dev blockno (b ∷ bs) = elim (find_recyclable dev blockno bs) [
  | some r ↦ some (b ∷ r.0, r.1)
  | none ↦ if b.refcnt == 0 then some (recycled dev blockno b ∷ bs, b.id) else none
]

pub bget : ℕ → ℕ → List Buf → Outcome (List Buf × ℕ)
unfolding find_cached find_recyclable
bget dev blockno bs = elim (find_cached dev blockno bs) [
  | some r ↦ done r
  | none ↦ elim (find_recyclable dev blockno bs) [ some r ↦ done r | none ↦ panicked ]
]

-- Changes the buffer at an address.
pub at_buf : ℕ → (Buf → Buf) → List Buf → List Buf
at_buf id f [] = []
at_buf id f (b ∷ bs) = let rest = at_buf id f bs in if b.id == id then f b ∷ bs else b ∷ rest

-- `virtio_disk_rw(b, 0)` where the buffer is not valid.
abbrev pub fill : (ℕ → Data) → Buf → Buf
fill disk b = if b.valid then b else record b { bytes = disk b.blockno; valid = true }

pub bread : ℕ → ℕ → Bcache → Outcome (Bcache × ℕ)
unfolding bget at_buf
bread dev blockno c = do
  (bs, id) ← bget dev blockno c.bufs
  done (record c { bufs = at_buf id (fill c.disk) bs }, id)

-- The buffer at an address.
pub get_buf : ℕ → List Buf → Option Buf
get_buf id [] = none
get_buf id (b ∷ bs) = let rest = get_buf id bs in if b.id == id then some b else rest

pub write_buf : ℕ → Bcache → Outcome Bcache
unfolding get_buf
write_buf id c = elim (get_buf id c.bufs) [
  | none ↦ panicked
  | some b ↦
      if b.locked then done (record c { disk = update c.disk b.blockno b.bytes }) else panicked
]

-- The list without the buffer at an address.
pub unlink : ℕ → List Buf → List Buf
unlink id [] = []
unlink id (b ∷ bs) = let rest = unlink id bs in if b.id == id then bs else b ∷ rest

-- `releasesleep` and `b->refcnt--`
abbrev pub unhold : Buf → Buf
unhold b = record b { locked = false; refcnt = sub32 b.refcnt 1 }

pub brelse : ℕ → List Buf → Outcome (List Buf)
unfolding get_buf unlink at_buf
brelse id bs = elim (get_buf id bs) [
  | none ↦ panicked
  | some b ↦
      if b.locked
      then (if (unhold b).refcnt == 0
          then done (unhold b ∷ unlink id bs)
          else done (at_buf id unhold bs))
      else panicked
]

pub pin_buf : ℕ → List Buf → List Buf
unfolding at_buf
pin_buf id bs = at_buf id (λ b. record b { refcnt = add32 b.refcnt 1 }) bs

pub unpin_buf : ℕ → List Buf → List Buf
unfolding at_buf
unpin_buf id bs = at_buf id (λ b. record b { refcnt = sub32 b.refcnt 1 }) bs

-- `binit` of `n` buffers from address `id` on: each goes to the head of the list.
pub binit_from : ℕ → ℕ → List Buf → List Buf
binit_from id zero bs = bs
binit_from id (suc n) bs = binit_from (id + 1) n (
    record {
      id = id;
      valid = false;
      dev = 0;
      blockno = 0;
      locked = false;
      refcnt = 0;
      bytes = λ i. 0;
    }
    ∷ bs)

pub binit : List Buf
unfolding binit_from
binit = binit_from 0 30 []
