-- ===== src/Base/Slots.antt =====
-- A loop over all the slots of a table, `for(p = table; p < &table[N]; p++) body`.
use Prim.Native.Nat.{ℕ, zero, suc, ◌+◌, ◌<◌}
use mathlib.Core.Path.{◌≡◌, refl, ap, subst}
use mathlib.Core.Logic.{◌⊎◌, inl, inr, ◌≢◌}
use mathlib.Core.List.{List, [], ◌∷◌}
use mathlib.Core.Option.{Option, none, some, some-injective}
use mathlib.Core.Option
use native.Mathlib.Omega.{arith}
use osn.Base.Lists.{length, get_elem?, set}

module _ {ℓ} {A : Type ℓ} where
  -- `each i body` runs the body on every element, the first standing at index `i`.
  abbrev pub each : ℕ → (ℕ → A → A) → List A → List A
  each i body [] = []
  each i body (x ∷ xs) = body i x ∷ each (suc i) body xs

  pub length-each : (i : ℕ) (body : ℕ → A → A) (xs : List A) → length (each i body xs) ≡ length xs
  length-each i body [] = refl
  length-each i body (x ∷ xs) = ap suc (length-each (suc i) body xs)

  pub get_elem?-each :
      (i j n : ℕ) (body : ℕ → A → A) (xs : List A)
      → n ≡ i + j
      → get_elem? (each i body xs) j ≡ Option.map (body n) (get_elem? xs j)
  get_elem?-each i j n body [] e = refl
  get_elem?-each i zero n body (x ∷ xs) e =
      let e' : n ≡ i = omega arith in ap (λ k. some (body k x)) (omega arith)
  get_elem?-each i (suc j) n body (x ∷ xs) e = get_elem?-each (suc i) j n body xs (omega arith)

  -- At a slot of the table: the body's result, or no slot.
  pub get_elem?-each_zero :
      (j : ℕ) (body : ℕ → A → A) (xs : List A)
      → get_elem? (each 0 body xs) j ≡ Option.map (body j) (get_elem? xs j)
  get_elem?-each_zero j body xs = get_elem?-each 0 j j body xs (omega arith)

  pub lt-length_of_get : (xs : List A) (j : ℕ) {a : A} → get_elem? xs j ≡ some a → j < length xs
  lt-length_of_get [] j e = cc
  lt-length_of_get (x ∷ xs) zero e = omega arith
  lt-length_of_get (x ∷ xs) (suc j) e = omega (arith, lt-length_of_get xs j e)

  -- A predicate on every element.
  abbrev pub All {κ} : (A → Type κ) → List A → Type κ
  All P [] = Unit
  All P (x ∷ xs) = P x × All P xs

  pub All-get {κ} :
      (P : A → Type κ) (xs : List A) (j : ℕ) {a : A} → All P xs → get_elem? xs j ≡ some a → P a
  All-get P [] j h e = cc
  All-get P (x ∷ xs) zero h e = subst P (some-injective x _ e) h.0
  All-get P (x ∷ xs) (suc j) h e = All-get P xs j h.1 e

  pub All-set {κ} :
      (P : A → Type κ) (xs : List A) (j : ℕ) {a : A} → All P xs → P a → All P (set xs j a)
  All-set P [] j h p = tt
  All-set P (x ∷ xs) zero h p = (p, h.1)
  All-set P (x ∷ xs) (suc j) h p = (h.0, All-set P xs j h.1 p)

  pub All-each {κ} :
      (P : A → Type κ) (i : ℕ) (body : ℕ → A → A) (xs : List A)
      → ((n : ℕ) (a : A) → P a → P (body n a))
      → All P xs
      → All P (each i body xs)
  All-each P i body [] keep h = tt
  All-each P i body (x ∷ xs) keep h = (keep i x h.0, All-each P (suc i) body xs keep h.1)

  -- What a read after a write finds: the value written, or what was there.
  pub get_elem?-set_cases :
      (xs : List A) (i j : ℕ) (v : A) {a : A}
      → get_elem? (set xs i v) j ≡ some a
      → ((i ≡ j) × (v ≡ a)) ⊎ ((i ≢ j) × (get_elem? xs j ≡ some a))
  get_elem?-set_cases [] i j v e = cc
  get_elem?-set_cases (x ∷ xs) zero zero v {a} e = inl (refl, some-injective v a e)
  get_elem?-set_cases (x ∷ xs) zero (suc j) v e = inr (λ h. omega arith, e)
  get_elem?-set_cases (x ∷ xs) (suc i) zero v e = inr (λ h. omega arith, e)
  get_elem?-set_cases (x ∷ xs) (suc i) (suc j) v e = grind (arith, get_elem?-set_cases xs i j v e)
