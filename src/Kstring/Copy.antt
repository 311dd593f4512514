-- ===== src/Kstring/Copy.antt =====
-- What `strncpy` and `safestrcpy` of kernel/string.c leave in memory.
use osn.Base.{
  ℕ, zero, suc, ◌+◌, ◌-◌, ◌≤◌, ◌<◌, ◌≡◌, ◌≢◌, refl, ◌⊎◌, inl, inr, ◌&&◌, ltb, leb, ◌==◌,
  if◌then◌else◌, update, arith, add-zero, Bool-cases, update_self, update_ne,
}
use osn.Base.Int.{pos}
use osn.Kstring.{Memory, pad, strncpy, safe_copy, safestrcpy}

-- Byte `i` of the text at `t`, with NULs after its end.
pub text_byte : Memory → ℕ → ℕ → ℕ
text_byte m t zero = m t
text_byte m t (suc i) = if m t == 0 then 0 else text_byte m (t + 1) i

pad_lem :
    (n : ℕ) (m : Memory) (s a : ℕ) → pad m s n a ≡ (if leb s a && ltb a (s + n) then 0 else m a)
unfolding pad update
pad_lem zero m s a = ground arith
pad_lem (suc n) m s a = ground (arith, pad_lem n (update m s 0) (s + 1) a)

text_byte-update :
    (i : ℕ) (m : Memory) (t s v : ℕ)
    → (s < t) ⊎ (t + i < s)
    → text_byte (update m s v) t i ≡ text_byte m t i
unfolding text_byte update
text_byte-update zero m t s v h = ground arith
text_byte-update (suc i) m t s v h = ground (arith, text_byte-update i m (t + 1) s v)

text_byte-end : (i : ℕ) (m : Memory) (t : ℕ) → m t ≡ 0 → text_byte m t i ≡ 0
unfolding text_byte
text_byte-end zero m t h = h
text_byte-end (suc i) m t h = ground arith

text_byte-pred :
    (i : ℕ) (m : Memory) (t : ℕ) → 0 < i → m t ≢ 0 → text_byte m t i ≡ text_byte m (t + 1) (i - 1)
unfolding text_byte
text_byte-pred zero m t h ne = elim h [ ]
text_byte-pred (suc i) m t h ne = let e : suc i - 1 ≡ i = omega arith in rw e (ground arith)

text_byte-here : (m : Memory) (t : ℕ) → text_byte m t 0 ≡ m t
unfolding text_byte
text_byte-here m t = refl

-- `strncpy` fills the `n` bytes at `s` with the text at `t`, cut after `n` bytes or continued by
-- NULs, and changes no other byte, when the two ranges of `n` bytes are apart.
pub strncpy_lem :
    (n : ℕ) (m : Memory) (s t a : ℕ)
    → (t + n ≤ s) ⊎ (s + n ≤ t)
    → strncpy m s t n a ≡ (if leb s a && ltb a (s + n) then text_byte m t (a - s) else m a)
unfolding strncpy update
strncpy_lem zero m s t a h = ground arith
strncpy_lem (suc n) m s t a h = elim (Bool-cases (m t == 0)) [
  | inl z ↦
      ground
        (arith, pad_lem n (update m s (m t)) (s + 1) a, text_byte-end (a - s) m t (ground arith))
  | inr more ↦ ground (
    arith,
    strncpy_lem n (update m s (m t)) (s + 1) (t + 1) a,
    text_byte-update (a - (s + 1)) m (t + 1) s (m t),
    text_byte-pred (a - s) m t,
    text_byte-here m t,
  )
]

-- What `safestrcpy` with room for `k` bytes and a NUL leaves in `r`: `j` bytes of the text, none of
-- them NUL, then a NUL, where the text or the room ends; nothing changes outside the room.
pub record Copied (r m : Memory) (s t k j : ℕ) : Type 0 where
  pub text : (i : ℕ) → i < j → (r (s + i) ≡ m (t + i)) × (m (t + i) ≢ 0)
  pub ended : r (s + j) ≡ 0
  pub fits : j ≤ k
  pub stop : (j ≡ k) ⊎ (m (t + j) ≡ 0)
  pub frame : (a : ℕ) → (a < s) ⊎ (s + k < a) → r a ≡ m a

Copied-nul :
    (m : Memory) (s t k : ℕ)
    → m t ≡ 0
    → Copied (update (update m s (m t)) (s + 1) 0) m s t (suc k) 0
unfolding update
Copied-nul m s t k z = record {
  text = λ i lt. elim lt [ ];
  ended = simp add-zero (ground arith);
  fits = omega arith;
  stop = inr (simp add-zero z);
  frame = λ a h. ground arith;
}

Copied-suc :
    (r m : Memory) (s t k j : ℕ)
    → (t + suc k < s) ⊎ (s + suc k < t)
    → m t ≢ 0
    → Copied r (update m s (m t)) (s + 1) (t + 1) k j
    → Copied r m s t (suc k) (suc j)
Copied-suc r m s t k j apart ne c = record {
  text = text;
  ended = let e : s + suc j ≡ s + 1 + j = omega arith in rw e c.ended;
  fits = omega (arith, c.fits);
  stop =
      let e : t + suc j ≡ t + 1 + j = omega arith in
      rw e (ground (arith, update_ne m s (t + 1 + j) (m t), c.fits, c.stop));
  frame = λ a h. ground (arith, c.frame a, update_ne m s a (m t));
}
  where
    text : (i : ℕ) → i < suc j → (r (s + i) ≡ m (t + i)) × (m (t + i) ≢ 0)
    text zero lt =
        simp add-zero (ground (arith, c.frame s (inl (omega arith)), update_self m s (m t)), ne)
    text (suc i) lt =
        let left : s + suc i ≡ s + 1 + i = omega arith in
        let right : t + suc i ≡ t + 1 + i = omega arith in
        rw (left, right)
          (ground (
            arith,
            c.text i (omega arith),
            update_ne m s (t + 1 + i) (m t) (λ e. omega (arith, c.fits)),
          ))

safe_copy_lem :
    (k : ℕ) (m : Memory) (s t : ℕ)
    → (t + k < s) ⊎ (s + k < t)
    → (j : ℕ) × Copied (safe_copy m s t k) m s t k j
unfolding safe_copy
safe_copy_lem zero m s t apart = (
  0,
  record {
    text = λ i lt. elim lt [ ];
    ended = simp (add-zero, update_self);
    fits = omega arith;
    stop = inl refl;
    frame = λ a h. update_ne m s a 0 (λ e. omega arith);
  },
)
safe_copy_lem (suc k) m s t apart = elim (Bool-cases (m t == 0)) [
  | inl z ↦ rw z (0, Copied-nul m s t k (ground arith))
  | inr more ↦
      let (j, c) = safe_copy_lem k (update m s (m t)) (s + 1) (t + 1) (omega arith) in
      rw more (suc j, Copied-suc _ m s t k j apart (ground arith) c)
]

-- With room for `n + 1` bytes apart from the source, `safestrcpy` always leaves a NUL inside the
-- room, after as much of the text as fits, and changes nothing outside it.
pub safestrcpy_lem :
    (m : Memory) (s t n : ℕ)
    → (t + n < s) ⊎ (s + n < t)
    → (j : ℕ) × Copied (safestrcpy m s t (pos (suc n))) m s t n j
unfolding safestrcpy
safestrcpy_lem m s t n apart = safe_copy_lem n m s t apart
