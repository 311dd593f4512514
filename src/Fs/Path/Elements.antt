-- ===== src/Fs/Path/Elements.antt =====
-- The elements of a path and `skipelem` of kernel/fs.c.
use osn.Base.{
  ℕ, suc, ◌≤◌, ◌<◌, ◌≡◌, ◌≢◌, ◌⊎◌, inl, inr, refl, ap, ap₂, sym, ◌∙◌, List, [], ◌∷◌, ◌++◌, Option,
  none, some, true, false, ◌==◌, if◌then◌else◌, take, length, arith, Bool-cases, append_assoc,
  append-nil,
}
use osn.Fs.Path.{dirsiz, slash, skip_slashes, pass_elem, skipelem}

-- An element that has come to its end, where there was one.
abbrev pub flush : List ℕ → List (List ℕ) → List (List ℕ)
flush [] rest = rest
flush (c ∷ cs) rest = take dirsiz (c ∷ cs) ∷ rest

-- The elements of a path, `current` being the bytes since the last slash.
pub split_at_slashes : List ℕ → List ℕ → List (List ℕ)
split_at_slashes current [] = flush current []
split_at_slashes current (c ∷ cs) =
    let here = split_at_slashes [] cs in
    let longer = split_at_slashes (current ++ (c ∷ [])) cs in
    if c == slash then flush current here else longer

abbrev pub elements : List ℕ → List (List ℕ)
elements path = split_at_slashes [] path

module _ (c : ℕ) (cs : List ℕ) where
  split-slash :
      (current : List ℕ)
      → (c == slash) ≡ true
      → split_at_slashes current (c ∷ cs) ≡ flush current (elements cs)
  unfolding split_at_slashes
  split-slash current s = rw s refl

  split-other :
      (current : List ℕ)
      → (c == slash) ≡ false
      → split_at_slashes current (c ∷ cs) ≡ split_at_slashes (current ++ (c ∷ [])) cs
  unfolding split_at_slashes
  split-other current ns = rw ns refl

  pass-slash : (c == slash) ≡ true → pass_elem (c ∷ cs) ≡ ([], c ∷ cs)
  unfolding pass_elem
  pass-slash s = rw s refl

  pass-other : (c == slash) ≡ false → pass_elem (c ∷ cs) ≡ (c ∷ (pass_elem cs).0, (pass_elem cs).1)
  unfolding pass_elem
  pass-other ns = rw ns refl

  skip-slash : (c == slash) ≡ true → skip_slashes (c ∷ cs) ≡ skip_slashes cs
  unfolding skip_slashes
  skip-slash s = rw s refl

  skip-other : (c == slash) ≡ false → skip_slashes (c ∷ cs) ≡ c ∷ cs
  unfolding skip_slashes
  skip-other ns = rw ns refl

elements-skip_slashes : (path : List ℕ) → elements (skip_slashes path) ≡ elements path
unfolding skip_slashes
elements-skip_slashes [] = refl
elements-skip_slashes (c ∷ cs) = elim (Bool-cases (c == slash)) [
  | inl s ↦
      ap elements (skip-slash c cs s) ∙ (elements-skip_slashes cs ∙ sym (split-slash c cs [] s))
  | inr ns ↦ ap elements (skip-other c cs ns)
]

-- What is passed is the rest of the current element.
split-pass_elem :
    (b : ℕ) (bs path : List ℕ)
    → split_at_slashes (b ∷ bs) path
      ≡ take dirsiz ((b ∷ bs) ++ (pass_elem path).0) ∷ elements (pass_elem path).1
unfolding split_at_slashes pass_elem
split-pass_elem b bs [] = ap (λ l. take dirsiz (b ∷ l) ∷ []) (sym (append-nil bs))
split-pass_elem b bs (c ∷ cs) = elim (Bool-cases (c == slash)) [
  | inl s ↦
      split-slash c cs (b ∷ bs) s
      ∙ (ap₂ (λ l r. take dirsiz (b ∷ l) ∷ r) (sym (append-nil bs)) (sym (split-slash c cs [] s))
          ∙ sym (ap (λ p. take dirsiz ((b ∷ bs) ++ p.0) ∷ elements p.1) (pass-slash c cs s)))
  | inr ns ↦
      split-other c cs (b ∷ bs) ns
      ∙ (split-pass_elem b (bs ++ (c ∷ [])) cs
          ∙ (ap (λ l. take dirsiz (b ∷ l) ∷ elements (pass_elem cs).1)
                (append_assoc bs (c ∷ []) (pass_elem cs).0)
              ∙ sym (ap (λ p. take dirsiz ((b ∷ bs) ++ p.0) ∷ elements p.1) (pass-other c cs ns))))
]

-- After the slashes there is no slash.
skip_slashes-head :
    (path : List ℕ)
    → (skip_slashes path ≡ [])
      ⊎ ((c : ℕ) × (cs : List ℕ) × (skip_slashes path ≡ c ∷ cs) × ((c == slash) ≡ false))
unfolding skip_slashes
skip_slashes-head [] = inl refl
skip_slashes-head (c ∷ cs) = elim (Bool-cases (c == slash)) [
  | inl s ↦ rw (skip-slash c cs s) (skip_slashes-head cs)
  | inr ns ↦ inr (c, cs, skip-other c cs ns, ns)
]

length-skip_slashes : (path : List ℕ) → length (skip_slashes path) ≤ length path
unfolding skip_slashes
length-skip_slashes [] = omega arith
length-skip_slashes (c ∷ cs) = elim (Bool-cases (c == slash)) [
  | inl s ↦ rw (skip-slash c cs s) (omega (arith, length-skip_slashes cs))
  | inr ns ↦ rw (skip-other c cs ns) (omega arith)
]

length-pass_elem : (path : List ℕ) → length (pass_elem path).1 ≤ length path
unfolding pass_elem
length-pass_elem [] = omega arith
length-pass_elem (c ∷ cs) = elim (Bool-cases (c == slash)) [
  | inl s ↦ rw (pass-slash c cs s) (omega arith)
  | inr ns ↦ rw (pass-other c cs ns) (omega (arith, length-pass_elem cs))
]

-- What `skipelem` says of a path.
pub data Skipped (path : List ℕ) : Option (List ℕ × List ℕ) → Type 0 where
  no_elements : elements path ≡ [] → Skipped path none
  element :
      (rest name : List ℕ)
      → elements path ≡ name ∷ elements rest
      → (rest ≡ []) ⊎ (elements rest ≢ [])
      → length rest < length path
      → Skipped path (some (rest, name))

-- The rest of a path that begins with no slash.
rest_of : List ℕ → List ℕ
rest_of path = skip_slashes (pass_elem path).1

elements-first :
    (c : ℕ) (cs : List ℕ)
    → (c == slash) ≡ false
    → elements (c ∷ cs) ≡ take dirsiz (pass_elem (c ∷ cs)).0 ∷ elements (rest_of (c ∷ cs))
unfolding rest_of
elements-first c cs ns =
    split-other c cs [] ns
    ∙ (split-pass_elem c [] cs
        ∙ (ap (λ p. take dirsiz p.0 ∷ elements p.1) (sym (pass-other c cs ns))
            ∙ ap (λ r. take dirsiz (pass_elem (c ∷ cs)).0 ∷ r)
                (sym (elements-skip_slashes (pass_elem (c ∷ cs)).1))))

rest_of-end : (path : List ℕ) → (rest_of path ≡ []) ⊎ (elements (rest_of path) ≢ [])
unfolding rest_of
rest_of-end path = elim (skip_slashes-head (pass_elem path).1) [
  | inl e ↦ inl e
  | inr (c, cs, e, ns) ↦ inr (λ z. let w = sym z ∙ (ap elements e ∙ elements-first c cs ns) in cc)
]

length-rest_of :
    (c : ℕ) (cs : List ℕ) → (c == slash) ≡ false → length (rest_of (c ∷ cs)) < suc (length cs)
unfolding rest_of
length-rest_of c cs ns =
    let a = length-skip_slashes (pass_elem (c ∷ cs)).1 in
    let b : length (pass_elem (c ∷ cs)).1 ≡ length (pass_elem cs).1 =
      ap (λ p. length p.1) (pass-other c cs ns) in
    let d = length-pass_elem cs in omega (arith, a, b, d)

-- `skipelem` takes the first element of the path, cut to the size of a name, and returns null only where there is
-- none. The rest has the other elements, is empty exactly where there are none, and is shorter.
pub skipelem-Skipped : (path : List ℕ) → Skipped path (skipelem path)
unfolding skipelem rest_of split_at_slashes
skipelem-Skipped path = elim (skip_slashes-head path) [
  | inl e ↦ rw (skipelem, e) (no_elements (sym (elements-skip_slashes path) ∙ ap elements e))
  | inr (c, cs, e, ns) ↦
      let shorter = length-skip_slashes path in
      let same : length (skip_slashes path) ≡ suc (length cs) = ap length e in
      let less = length-rest_of c cs ns in
      rw (skipelem, e)
        (element (rest_of (c ∷ cs)) (take dirsiz (pass_elem (c ∷ cs)).0)
          (sym (elements-skip_slashes path) ∙ (ap elements e ∙ elements-first c cs ns))
          (rest_of-end (c ∷ cs)) (omega (arith, shorter, same, less)))
]
