-- ===== src/Pipe/Ring.antt =====
-- The ring of kernel/pipe.c and the bytes that it holds, with counters that wrap at 32 bits.
use osn.Base.{
  ℕ, zero, suc, ◌+◌, ◌%◌, ◌≤◌, ◌<◌, ◌≡◌, refl, ap, ap₂, sym, ◌∙◌, List, [], ◌∷◌, ◌++◌, Option, none,
  some, true, false, ◌==◌, get_or, set, length, arith, length-set, get_or-set_self, get_or-set_ne,
  length-append, append-nil, append_assoc, inl, inr, ◌⊎◌, Option-cases, take, drop, subst,
}
use osn.Base.Word.{add32, uint_mod}
use osn.Pipe.{Pipe, put, write_from, read_from, WriteEnd, stopped, full, pipesize}

-- The `n` bytes of the ring from counter `r` on.
abbrev pub bytes_from : List ℕ → ℕ → ℕ → List ℕ
bytes_from xs r zero = []
bytes_from xs r (suc n) = get_or xs (r % 512) 0 ∷ bytes_from xs ((r + 1) % uint_mod) n

length-bytes_from : (xs : List ℕ) (r n : ℕ) → length (bytes_from xs r n) ≡ n
length-bytes_from xs r zero = refl
length-bytes_from xs r (suc n) = ap suc (length-bytes_from xs ((r + 1) % uint_mod) n)

-- Writing just past the bytes makes them longer by the byte.
bytes_from-set :
    (xs : List ℕ) (ch n r i : ℕ)
    → length xs ≡ 512
    → r < uint_mod
    → n < 512
    → i ≡ (r + n) % uint_mod
    → bytes_from (set xs (i % 512) ch) r (suc n) ≡ bytes_from xs r n ++ (ch ∷ [])
bytes_from-set xs ch zero r i hs hr hn e =
    let e' : i ≡ r = omega arith in
    rw e' (ap (λ x. x ∷ []) (get_or-set_self xs (r % 512) ch 0 (omega arith)))
bytes_from-set xs ch (suc n) r i hs hr hn e =
    ap₂ ◌∷◌ (get_or-set_ne xs ch 0 (λ h. omega arith))
      (bytes_from-set xs ch n ((r + 1) % uint_mod) i hs (omega arith) (omega arith) (omega arith))

-- The pipe holds exactly these bytes, oldest first.
pub data Holds : Pipe → List ℕ → Type 0 where
  holds :
      (pi : Pipe) (items : List ℕ)
      → length pi.bytes ≡ 512
      → pi.nread < uint_mod
      → length items ≤ 512
      → pi.nwrite ≡ (pi.nread + length items) % uint_mod
      → items ≡ bytes_from pi.bytes pi.nread (length items)
      → Holds pi items

put-Holds :
    (ch : ℕ) {pi : Pipe} {items : List ℕ}
    → Holds pi items
    → length items < 512
    → Holds (put ch pi) (items ++ (ch ∷ []))
unfolding put
put-Holds ch (holds pi items len hr hn at same) room =
    let size : length (items ++ (ch ∷ [])) ≡ suc (length items) =
      length-append items (ch ∷ []) ∙ (omega arith) in
    holds (put ch pi) (items ++ (ch ∷ [])) (length-set pi.bytes (pi.nwrite % 512) ch ∙ len) hr
      (omega arith) (omega arith)
      (ap (λ xs. xs ++ (ch ∷ [])) same
        ∙ (sym (bytes_from-set pi.bytes ch (length items) pi.nread pi.nwrite len hr room at)
            ∙ ap (bytes_from (set pi.bytes (pi.nwrite % 512) ch) pi.nread) (sym size)))

-- The bytes that `copyin` reads from offset `i` on start with these.
abbrev pub Reads : (ℕ → Option ℕ) → ℕ → List ℕ → Type 0
Reads copyin i [] = Unit {0}
Reads copyin i (b ∷ bs) = (copyin i ≡ some b) × Reads copyin (suc i) bs

-- How the loop of `pipewrite` at `i` ends with `m` bytes to go, on a pipe of `len` bytes, when it has taken
-- `new`: all of them, at a byte that cannot be read, or asleep because the pipe is full.
pub data Wrote (copyin : ℕ → Option ℕ) (i m len : ℕ) (new : List ℕ) : WriteEnd → Type 0 where
  all_taken : (j : ℕ) → j ≡ i + length new → length new ≡ m → Wrote copyin i m len new (stopped j)
  no_byte :
      (j : ℕ)
      → j ≡ i + length new
      → length new < m
      → copyin j ≡ none
      → Wrote copyin i m len new (stopped j)
  no_room :
      (j : ℕ)
      → j ≡ i + length new
      → length new < m
      → len + length new ≡ 512
      → Wrote copyin i m len new (full j)

Wrote-cons :
    (copyin : ℕ → Option ℕ) (i m len l ch : ℕ) (new : List ℕ) {e : WriteEnd}
    → l ≡ len + 1
    → Wrote copyin (suc i) m l new e
    → Wrote copyin i (suc m) len (ch ∷ new) e
Wrote-cons copyin i m len l ch new s (all_taken j at h) = all_taken j (omega arith) (omega arith)
Wrote-cons copyin i m len l ch new s (no_byte j at h e) = no_byte j (omega arith) (omega arith) e
Wrote-cons copyin i m len l ch new s (no_room j at h e) =
    no_room j (omega arith) (omega arith) (omega arith)

-- A pipe that holds fewer than 512 bytes is not full.
full-test :
    {pi : Pipe} {items : List ℕ}
    → Holds pi items
    → ((length items < 512) × ((pi.nwrite == add32 pi.nread pipesize) ≡ false))
      ⊎ ((length items ≡ 512) × ((pi.nwrite == add32 pi.nread pipesize) ≡ true))
full-test (holds pi items len hr hn at same) = ground arith

open_put : (ch : ℕ) (pi : Pipe) → pi.readopen ≡ true → (put ch pi).readopen ≡ true
unfolding put
open_put ch pi h = h

module _ (copyin : ℕ → Option ℕ) (i m : ℕ) where
  write_from-taken :
      (ch : ℕ) (pi : Pipe)
      → pi.readopen ≡ true
      → (pi.nwrite == add32 pi.nread pipesize) ≡ false
      → copyin i ≡ some ch
      → write_from copyin false i (suc m) pi ≡ write_from copyin false (suc i) m (put ch pi)
  unfolding write_from
  write_from-taken ch pi a b c = ground arith

  write_from-no_byte :
      (pi : Pipe)
      → pi.readopen ≡ true
      → (pi.nwrite == add32 pi.nread pipesize) ≡ false
      → copyin i ≡ none
      → write_from copyin false i (suc m) pi ≡ (pi, stopped i)
  unfolding write_from
  write_from-no_byte pi a b c = ground arith

  write_from-full :
      (pi : Pipe)
      → pi.readopen ≡ true
      → (pi.nwrite == add32 pi.nread pipesize) ≡ true
      → write_from copyin false i (suc m) pi ≡ (pi, full i)
  unfolding write_from
  write_from-full pi a b = ground arith

-- The loop of `pipewrite` on an open pipe puts the bytes it takes behind those in it, and stops as `Wrote`
-- says.
pub write_from-Holds :
    (copyin : ℕ → Option ℕ) (i m : ℕ) (pi : Pipe) (items : List ℕ)
    → Holds pi items
    → pi.readopen ≡ true
    → (pi' : Pipe) × (e : WriteEnd) × (new : List ℕ) × (write_from copyin false i m pi ≡ (pi', e))
      × Holds pi' (items ++ new)
      × Reads copyin i new
      × Wrote copyin i m (length items) new e
unfolding write_from
write_from-Holds copyin i zero pi items h open_end = (
  pi,
  stopped i,
  [],
  refl,
  subst (Holds pi) (sym (append-nil items)) h,
  tt,
  all_taken i (omega arith) refl,
)
write_from-Holds copyin i (suc m) pi items h open_end = elim (full-test h) [
  | inr (size, test) ↦ (
    pi,
    full i,
    [],
    write_from-full copyin i m pi open_end test,
    subst (Holds pi) (sym (append-nil items)) h,
    tt,
    no_room i (omega arith) (omega arith) (omega arith),
  )
  | inl (room, test) ↦ elim (Option-cases (copyin i)) [
    | inl at ↦ (
      pi,
      stopped i,
      [],
      write_from-no_byte copyin i m pi open_end test at,
      subst (Holds pi) (sym (append-nil items)) h,
      tt,
      no_byte i (omega arith) (omega arith) at,
    )
    | inr (ch, at) ↦
        let (pi', e, new, run, h', reads, ends) =
          write_from-Holds copyin (suc i) m (put ch pi) (items ++ (ch ∷ [])) (put-Holds ch h room)
            (open_put ch pi open_end) in
        (
          pi',
          e,
          ch ∷ new,
          write_from-taken copyin i m ch pi open_end test at ∙ run,
          subst (Holds pi') (append_assoc items (ch ∷ []) new) h',
          (at, reads),
          Wrote-cons copyin i m (length items) (length (items ++ (ch ∷ []))) ch new
              (length-append items (ch ∷ [])) ends,
        )
  ]
]

-- Storing bytes one after another from offset `i` on.
abbrev pub store_all {ℓ} : {M : Type ℓ} → (ℕ → ℕ → M → M) → ℕ → List ℕ → M → M
store_all store i [] mem = mem
store_all store i (b ∷ bs) mem = store_all store (suc i) bs (store i b mem)

-- An empty pipe has equal counters, and a pipe with bytes has its first at `nread`.
pub empty-test : {pi : Pipe} → Holds pi [] → (pi.nread == pi.nwrite) ≡ true
empty-test (holds pi items len hr hn at same) = ground arith

pub first-Holds :
    {pi : Pipe} {b : ℕ} {bs : List ℕ}
    → Holds pi (b ∷ bs)
    → ((pi.nread == pi.nwrite) ≡ false)
      × (get_or pi.bytes (pi.nread % pipesize) 0 ≡ b)
      × Holds (record pi { nread = add32 pi.nread 1 }) bs
first-Holds {bs} (holds pi items len hr hn at same) = (
  ground arith,
  sym (ap (λ l. get_or l 0 0) same),
  holds (record pi { nread = add32 pi.nread 1 }) bs len (omega arith) (omega arith) (omega arith)
      (ap (drop 1) same),
)

read_from-byte {ℓ} :
    {M : Type ℓ} (store : ℕ → ℕ → M → M) (i m : ℕ) (pi : Pipe) {b : ℕ} (mem : M)
    → (pi.nread == pi.nwrite) ≡ false
    → get_or pi.bytes (pi.nread % pipesize) 0 ≡ b
    → read_from (λ j b w. some (store j b w)) i (suc m) pi mem
      ≡ read_from
          (λ j b w. some (store j b w))
          (suc i)
          m
          (record pi { nread = add32 pi.nread 1 })
          (store i b mem)
unfolding read_from
read_from-byte store i m pi mem test at = ground arith

read_from-empty {ℓ} :
    {M : Type ℓ} (store : ℕ → ℕ → M → M) (i m : ℕ) (pi : Pipe) (mem : M)
    → (pi.nread == pi.nwrite) ≡ true
    → read_from (λ j b w. some (store j b w)) i (suc m) pi mem ≡ (pi, mem, i)
unfolding read_from
read_from-empty store i m pi mem test = ground arith

-- The copy loop of `piperead`, with memory that takes every byte, moves the oldest bytes of the pipe, as many
-- as were asked for or as there are.
pub read_from-Holds {ℓ} :
    {M : Type ℓ} (store : ℕ → ℕ → M → M) (i m : ℕ) (pi : Pipe) (items : List ℕ) (mem : M)
    → Holds pi items
    → (pi' : Pipe) × (read_from (λ j b w. some (store j b w)) i m pi mem
        ≡ (pi', store_all store i (take m items) mem, i + length (take m items)))
      × Holds pi' (drop m items)
unfolding read_from
read_from-Holds store i zero pi items mem h = (pi, ap (λ j. (pi, mem, j)) (omega arith), h)
read_from-Holds store i (suc m) pi [] mem h =
    (pi, read_from-empty store i m pi mem (empty-test h) ∙ ap (λ j. (pi, mem, j)) (omega arith), h)
read_from-Holds store i (suc m) pi (b ∷ bs) mem h =
    let (test, at, h1) = first-Holds h in
    let (pi', run, h') =
      read_from-Holds store (suc i) m (record pi { nread = add32 pi.nread 1 }) bs (store i b mem)
        h1 in
    (
      pi',
      read_from-byte store i m pi mem test at
          ∙ (run
              ∙ ap (λ j. (pi', store_all store (suc i) (take m bs) (store i b mem), j))
                  (omega arith)),
      h',
    )
