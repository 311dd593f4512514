-- ===== src/Kstring/Compare.antt =====
-- What the comparisons and `strlen` of kernel/string.c return.
use osn.Base.{
  ℕ, zero, suc, ◌+◌, ◌≤◌, ◌<◌, ◌≡◌, ◌≢◌, refl, ◌⊎◌, inl, inr, ◌↔◌, some, ◌==◌, arith, Bool-cases,
  add-zero, zero-add,
}
use osn.Base.Int.{pos, sub_ℕ}
use osn.Kstring.{Memory, memcmp, strncmp, strlen_from, strlen}

-- The `n` bytes at the two addresses agree.
abbrev pub Agree : Memory → ℕ → ℕ → ℕ → Type 0
Agree m p q n = (i : ℕ) → i < n → m (p + i) ≡ m (q + i)

Agree-cons : (m : Memory) (p q n : ℕ) → m p ≡ m q → Agree m (p + 1) (q + 1) n → Agree m p q (suc n)
Agree-cons m p q n e h zero lt = simp add-zero e
Agree-cons m p q n e h (suc i) lt =
    let left : p + suc i ≡ p + 1 + i = omega arith in
    let right : q + suc i ≡ q + 1 + i = omega arith in rw (left, right) (h i (omega arith))

Agree-tail : (m : Memory) (p q n : ℕ) → Agree m p q (suc n) → Agree m (p + 1) (q + 1) n
Agree-tail m p q n h i lt =
    let left : p + 1 + i ≡ p + suc i = omega arith in
    let right : q + 1 + i ≡ q + suc i = omega arith in rw (left, right) (h (suc i) (omega arith))

Agree-head : (m : Memory) (p q n : ℕ) → Agree m p q (suc n) → m p ≡ m q
Agree-head m p q n h = simp add-zero at (h 0 (omega arith))

memcmp→Agree : (n : ℕ) (m : Memory) (p q : ℕ) → memcmp m p q n ≡ pos 0 → Agree m p q n
unfolding memcmp
memcmp→Agree zero m p q e = λ i lt. elim lt [ ]
memcmp→Agree (suc n) m p q e =
    Agree-cons m p q n (ground arith) (memcmp→Agree n m (p + 1) (q + 1) (ground arith))

Agree→memcmp : (n : ℕ) (m : Memory) (p q : ℕ) → Agree m p q n → memcmp m p q n ≡ pos 0
unfolding memcmp
Agree→memcmp zero m p q h = refl
Agree→memcmp (suc n) m p q h =
    ground (arith, Agree-head m p q n h, Agree→memcmp n m (p + 1) (q + 1) (Agree-tail m p q n h))

-- `memcmp` returns 0 exactly when all `n` bytes agree.
pub memcmp-eq-zero : (m : Memory) (p q n : ℕ) → (memcmp m p q n ≡ pos 0) ↔ Agree m p q n
memcmp-eq-zero m p q n = (memcmp→Agree n m p q, Agree→memcmp n m p q)

-- The first `k` bytes agree and hold no NUL.
abbrev pub AgreeText : Memory → ℕ → ℕ → ℕ → Type 0
AgreeText m p q k = (i : ℕ) → i < k → (m (p + i) ≡ m (q + i)) × (m (p + i) ≢ 0)

-- What `strncmp` finds: either the `n` bytes agree with no NUL before them, or the texts first stop
-- agreeing, or both end, at a byte `k`.
pub record Compared (m : Memory) (p q n : ℕ) (k : ℕ) : Type 0 where
  pub before : AgreeText m p q k
  pub inside : k ≤ n
  pub result :
      ((k ≡ n) × (strncmp m p q n ≡ pos 0))
      ⊎ ((k < n)
          × ((m (p + k) ≡ 0) ⊎ (m (p + k) ≢ m (q + k)))
          × (strncmp m p q n ≡ sub_ℕ (m (p + k)) (m (q + k))))

AgreeText-cons :
    (m : Memory) (p q k : ℕ)
    → m p ≡ m q
    → m p ≢ 0
    → AgreeText m (p + 1) (q + 1) k
    → AgreeText m p q (suc k)
AgreeText-cons m p q k e ne h zero lt = simp add-zero (e, ne)
AgreeText-cons m p q k e ne h (suc i) lt =
    let left : p + suc i ≡ p + 1 + i = omega arith in
    let right : q + suc i ≡ q + 1 + i = omega arith in rw (left, right) (h i (omega arith))

strncmp-stop :
    (m : Memory) (p q n : ℕ) → (m p ≡ 0) ⊎ (m p ≢ m q) → strncmp m p q (suc n) ≡ sub_ℕ (m p) (m q)
unfolding strncmp
strncmp-stop m p q n h = ground arith

strncmp-next :
    (m : Memory) (p q n : ℕ)
    → m p ≢ 0
    → m p ≡ m q
    → strncmp m p q (suc n) ≡ strncmp m (p + 1) (q + 1) n
unfolding strncmp
strncmp-next m p q n ne e = ground arith

Compared-suc :
    (m : Memory) (p q n k : ℕ)
    → m p ≢ 0
    → m p ≡ m q
    → Compared m (p + 1) (q + 1) n k
    → Compared m p q (suc n) (suc k)
Compared-suc m p q n k ne e c = record {
  before = AgreeText-cons m p q k e ne c.before;
  inside = omega (arith, c.inside);
  result =
      let left : p + suc k ≡ p + 1 + k = omega arith in
      let right : q + suc k ≡ q + 1 + k = omega arith in
      rw (left, right, strncmp-next m p q n ne e) (ground (arith, c.result));
}

-- `strncmp` compares like the C library: there is a number `k` of leading bytes that agree and hold
-- no NUL, and it returns 0 if `k` is `n`, and otherwise the difference of the bytes at `k`, where
-- the first text ends or the two differ.
pub strncmp_lem : (n : ℕ) (m : Memory) (p q : ℕ) → (k : ℕ) × Compared m p q n k
unfolding strncmp
strncmp_lem zero m p q =
    (0, record { before = λ i lt. elim lt [ ]; inside = omega arith; result = inl (refl, refl) })
strncmp_lem (suc n) m p q = elim (Bool-cases (m p == 0)) [
  | inl z ↦ stopped m p q n (inl (ground arith))
  | inr z ↦ elim (Bool-cases (m p == m q)) [
    | inl same ↦
        let (k, c) = strncmp_lem n m (p + 1) (q + 1) in
        (suc k, Compared-suc m p q n k (ground arith) (ground arith) c)
    | inr differ ↦ stopped m p q n (inr (ground arith))
  ]
]
  where
    stopped :
        (m : Memory) (p q n : ℕ) → (m p ≡ 0) ⊎ (m p ≢ m q) → (k : ℕ) × Compared m p q (suc n) k
    stopped m p q n h = (
      0,
      record {
        before = λ i lt. elim lt [ ];
        inside = omega arith;
        result = inr (omega arith, simp add-zero h, simp add-zero (strncmp-stop m p q n h));
      },
    )

strlen_from_lem :
    (k f : ℕ) (m : Memory) (s n : ℕ)
    → k < f
    → m (s + (n + k)) ≡ 0
    → ((i : ℕ) → i < k → m (s + (n + i)) ≢ 0)
    → strlen_from f m s n ≡ some (n + k)
unfolding strlen_from
strlen_from_lem k zero m s n lt z h = elim lt [ ]
strlen_from_lem zero (suc f) m s n lt z h = ground arith
strlen_from_lem (suc k) (suc f) m s n lt z h = ground (
  arith,
  h 0 (omega arith),
  strlen_from_lem k f m s (n + 1) (omega arith)
      (let e : n + 1 + k ≡ n + suc k = omega arith in rw e z)
      (λ i b. let e : n + 1 + i ≡ n + suc i = omega arith in rw e (h (suc i) (omega arith))),
)

-- On a text that ends at its first NUL, `k` bytes in, `strlen` returns `k`, and `k + 1` rounds are enough.
pub strlen_lem :
    (k f : ℕ) (m : Memory) (s : ℕ)
    → k < f
    → m (s + k) ≡ 0
    → ((i : ℕ) → i < k → m (s + i) ≢ 0)
    → strlen f m s ≡ some k
unfolding strlen
strlen_lem k f m s lt z h =
    simp zero-add at (strlen_from_lem k f m s 0 lt (simp zero-add z) (λ i b. simp zero-add (h i b)))
