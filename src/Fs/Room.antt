-- ===== src/Fs/Room.antt =====
-- The room that an operation of kernel/fs.c needs in the log for the blocks it changes.
use osn.Base.{
  ℕ, suc, ◌+◌, ◌-◌, ◌≤◌, ◌≡◌, refl, [], ◌∷◌, ◌++◌, false, ◌==◌, leb, ◌||◌, if◌then◌else◌, arith,
  length, length-append, update, Bool-cases, inl, inr, subst,
}
use osn.Base.Int.{pos, ltb_ℤ}
use osn.File.{done}
use osn.Base.Word.{add32}
use osn.Log.Ops.{among-same, among-append}
use osn.Log.{among, log_write, logsize}
use osn.Fs.{Disk, Block, modify}

-- The caller is in a transaction, and `n` more blocks fit in the log.
pub record Room (n : ℕ) (s : Disk) : Type 0 where
  pub header : length s.lh + n ≤ logsize
  pub place : length s.lh + n ≤ s.size - 1
  pub inside : ltb_ℤ s.outstanding (pos 1) ≡ false

-- What a change of a block leaves.
pub record Modified (n b : ℕ) (bytes : Block) (s r : Disk) : Type 0 where
  pub cached : r.cache ≡ update s.cache b bytes
  pub room : Room n r
  pub logged : (x : ℕ) → among x r.lh ≡ (among x s.lh || x == b)

pub less-Room : (m n : ℕ) (d : Disk) → n ≤ m → Room m d → Room n d
less-Room m n d le r = record {
  header = omega (arith, r.header);
  place = omega (arith, r.place);
  inside = r.inside;
}

passes :
    (n : ℕ) (s : Disk)
    → Room (suc n) s
    → (leb logsize (length s.lh) || leb (s.size - 1) (length s.lh)) ≡ false
passes n s h = ground (arith, h.header, h.place)

log_write-Room :
    (n b : ℕ) (s : Disk)
    → Room (suc n) s
    → (r : Disk) × (log_write b s ≡ done r)
      × (r.cache ≡ s.cache)
      × Room n r
      × ((x : ℕ) → among x r.lh ≡ (among x s.lh || x == b))
unfolding log_write
log_write-Room n b s h = elim (Bool-cases (among b s.lh)) [
  | inl old ↦ (
    s,
    rw (passes n s h) (rw (h.inside, old) refl),
    refl,
    record { header = omega (arith, h.header); place = omega (arith, h.place); inside = h.inside },
    λ x. among-same x b s.lh old,
  )
  | inr new ↦
      let r = record s { lh = s.lh ++ (b ∷ []); pins = update s.pins b (add32 (s.pins b) 1) } in
      let len = length-append s.lh (b ∷ []) in
      (
        r,
        rw (passes n s h) (rw (h.inside, new) refl),
        refl,
        record {
          header = omega (arith, h.header, len);
          place = omega (arith, h.place, len);
          inside = h.inside;
        },
        λ x. among-append x b s.lh,
      )
]

-- A change of a block succeeds where there is room for it.
pub modify-Modified :
    (n b : ℕ) (bytes : Block) (s : Disk)
    → Room (suc n) s
    → (r : Disk) × (modify b bytes s ≡ done r) × Modified n b bytes s r
unfolding modify
modify-Modified n b bytes s h =
    let s' : Disk = record s { cache = update s.cache b bytes } in
    let (r, run, same, room, logged) =
      log_write-Room n b s' (record { header = h.header; place = h.place; inside = h.inside }) in
    (r, run, record { cached = same; room = room; logged = logged })

-- The room that the changes of one block want, and `n` more blocks.
abbrev pub RoomFor : ℕ → ℕ → Disk → Type 0
RoomFor n b s = Room (if among b s.lh then suc n else suc (suc n)) s

-- A block that is in the log already wants no more room.
pub modify-RoomFor :
    (n b : ℕ) (bytes : Block) (s : Disk)
    → RoomFor n b s
    → (r : Disk) × (modify b bytes s ≡ done r) × Modified (suc n) b bytes s r
unfolding modify log_write
modify-RoomFor n b bytes s h = elim (Bool-cases (among b s.lh)) [
  | inr new ↦
      modify-Modified (suc n) b bytes s
        (subst (λ t. Room (if t then suc n else suc (suc n)) s) new h)
  | inl old ↦
      let h' : Room (suc n) s = subst (λ t. Room (if t then suc n else suc (suc n)) s) old h in
      (
        record s { cache = update s.cache b bytes },
        rw (passes n s h') (rw (h'.inside, old) refl),
        record {
          cached = refl;
          room = record { header = h'.header; place = h'.place; inside = h'.inside };
          logged = λ x. among-same x b s.lh old;
        },
      )
]
