-- ===== src/Vm/Copyin.antt =====
-- `copyin` of kernel/vm.c and a copy of one byte after another.
use osn.Base.{
  ℕ, zero, suc, ◌+◌, ◌-◌, ◌%◌, ◌^◌, ◌≤◌, ◌<◌, ◌≡◌, ◌≢◌, inl, inr, refl, ap, ap₂, sym, ◌∙◌, List, [],
  ◌∷◌, Bool, true, false, ◌==◌, ltb, if◌then◌else◌, arith, dec_lt, Bool-cases, lt→ltb,
}
use osn.File.{done, ◌>>=◌}
use osn.Kstring.{Memory}
use osn.Vm.{
  max_va, page_size, page_of, walk_from, walk_page, walkaddr, bytes_at, round_down, part,
  then_bytes, copyin_from, copyin,
}

-- The page that `walkaddr` finds, or 0.
pub user_page : Memory → ℕ → ℕ → ℕ
user_page m pagetable va = if ltb va max_va then page_of m (walk_from 2 m pagetable va) else 0

pub walkaddr-user_page :
    (m : Memory) (pagetable va : ℕ) → walkaddr m pagetable va ≡ done (user_page m pagetable va)
unfolding walkaddr walk_page user_page
walkaddr-user_page m pagetable va = elim (Bool-cases (ltb va max_va)) [
  | inr out ↦ rw out refl
  | inl inside ↦ rw inside refl
]

pub user_page-inside : (m : Memory) (pagetable va : ℕ) → user_page m pagetable va ≢ 0 → va < max_va
unfolding user_page
user_page-inside m pagetable va nz = elim (Bool-cases (ltb va max_va)) [
  | inl inside ↦ ground arith
  | inr out ↦ absurd (nz (rw out refl))
]

-- One byte after another, each looked up for itself, until one has no page.
pub user_bytes : Memory → ℕ → ℕ → ℕ → List ℕ × Bool
unfolding user_page
user_bytes m pagetable va zero = ([], true)
user_bytes m pagetable va (suc n) =
    let rest = user_bytes m pagetable ((va + 1) % 2 ^ 64) n in
    if user_page m pagetable (round_down va) == 0
    then ([], false)
    else then_bytes (m (user_page m pagetable (round_down va) + va % page_size) ∷ []) rest

module _ (m : Memory) (pagetable : ℕ) where
  user_bytes-none :
      (va n : ℕ)
      → 0 < n
      → (user_page m pagetable (round_down va) == 0) ≡ true
      → user_bytes m pagetable va n ≡ ([], false)
  unfolding user_bytes
  user_bytes-none va zero lt z = absurd (omega arith)
  user_bytes-none va (suc n) lt z = rw z refl

  user_bytes-byte :
      (va n : ℕ)
      → (user_page m pagetable (round_down va) == 0) ≡ false
      → user_bytes m pagetable va (suc n)
        ≡ then_bytes
            (m (user_page m pagetable (round_down va) + va % page_size) ∷ [])
            (user_bytes m pagetable ((va + 1) % 2 ^ 64) n)
  unfolding user_bytes
  user_bytes-byte va n nz = rw nz refl

  pub no_wrap :
      (va : ℕ) → (user_page m pagetable (round_down va) == 0) ≡ false → va + page_size < 2 ^ 64
  no_wrap va nz =
      let lt =
        user_page-inside m pagetable (round_down va)
          (λ e. let z : (user_page m pagetable (round_down va) == 0) ≡ true = rw e refl in cc) in
      omega (arith, lt)

  then_bytes-byte :
      (x : ℕ) (xs : List ℕ) (r : List ℕ × Bool)
      → then_bytes (x ∷ []) (then_bytes xs r) ≡ then_bytes (x ∷ xs) r
  then_bytes-byte x xs r = refl

  -- The bytes up to the end of a page are copied from that page.
  pub user_bytes-page :
      (k va n : ℕ)
      → (user_page m pagetable (round_down va) == 0) ≡ false
      → va % page_size + k ≤ page_size
      → user_bytes m pagetable va (k + n)
        ≡ then_bytes
            (bytes_at k m (user_page m pagetable (round_down va) + va % page_size))
            (user_bytes m pagetable ((va + k) % 2 ^ 64) n)
  unfolding bytes_at
  user_bytes-page zero va n nz le =
      let w = no_wrap va nz in
      let e : (va + 0) % 2 ^ 64 ≡ va = omega (arith, w) in
      let f : 0 + n ≡ n = omega arith in
      ap (user_bytes m pagetable va) f ∙ ap (λ a. user_bytes m pagetable a n) (sym e)
  user_bytes-page (suc zero) va n nz le =
      let f : suc zero + n ≡ suc n = omega arith in
      ap (user_bytes m pagetable va) f ∙ user_bytes-byte va n nz
  user_bytes-page (suc (suc k)) va n nz le =
      let w = no_wrap va nz in
      let f : suc (suc k) + n ≡ suc (suc k + n) = omega arith in
      let next : (va + 1) % 2 ^ 64 ≡ va + 1 = omega (arith, w) in
      let page : round_down (va + 1) ≡ round_down va = omega arith in
      let index : (va + 1) % page_size ≡ va % page_size + 1 = omega arith in
      let end : va + 1 + suc k ≡ va + suc (suc k) = omega arith in
      let nz' : (user_page m pagetable (round_down (va + 1)) == 0) ≡ false =
        ap (λ a. user_page m pagetable a == 0) page ∙ nz in
      let ih = user_bytes-page (suc k) (va + 1) n nz' (omega arith) in
      let at : user_page m pagetable (round_down (va + 1)) + (va + 1) % page_size
          ≡ user_page m pagetable (round_down va) + va % page_size + 1 =
        ap₂ (λ a i. user_page m pagetable a + i) page index ∙ omega arith in
      let x = m (user_page m pagetable (round_down va) + va % page_size) in
      ap (user_bytes m pagetable va) f
      ∙ (user_bytes-byte va (suc k + n) nz
          ∙ ap (then_bytes (x ∷ [])) (
              ap (λ a. user_bytes m pagetable a (suc k + n)) next
              ∙ (ih
                  ∙ ap₂
                      (λ a b.
                        then_bytes (bytes_at (suc k) m a) (user_bytes m pagetable (b % 2 ^ 64) n))
                      at end)))

  copyin-done : (fuel va : ℕ) → copyin_from (suc fuel) m pagetable va 0 ≡ done ([], true)
  unfolding copyin_from
  copyin-done fuel va = refl

  copyin-stop :
      (fuel va len : ℕ)
      → 0 < len
      → (user_page m pagetable (round_down va) == 0) ≡ true
      → copyin_from (suc fuel) m pagetable va len ≡ done ([], false)
  unfolding copyin_from
  copyin-stop fuel va len lt z =
      rw (copyin_from, lt→ltb 0 len lt)
        (rw (walkaddr-user_page m pagetable (round_down va)) (rw z refl))

  copyin-turn :
      (fuel va len : ℕ)
      → 0 < len
      → (user_page m pagetable (round_down va) == 0) ≡ false
      → copyin_from (suc fuel) m pagetable va len
        ≡ copyin_from fuel m pagetable ((round_down va + page_size) % 2 ^ 64) (len - part va len)
          >>= (λ r. done (
              then_bytes
                (bytes_at (part va len) m (user_page m pagetable (round_down va) + va % page_size))
                r))
  unfolding copyin_from
  copyin-turn fuel va len lt nz =
      rw (copyin_from, lt→ltb 0 len lt)
        (rw (walkaddr-user_page m pagetable (round_down va)) (rw nz refl))

  -- The bytes that a turn leaves start where its page ends, if there are any.
  rest_at :
      (va len : ℕ)
      → user_bytes m pagetable ((va + part va len) % 2 ^ 64) (len - part va len)
        ≡ user_bytes m pagetable ((round_down va + page_size) % 2 ^ 64) (len - part va len)
  unfolding user_bytes
  rest_at va len = elim (dec_lt (page_size - va % page_size) len) [
    | yes more ↦
        let e : va + part va len ≡ round_down va + page_size = omega arith in
        ap (λ a. user_bytes m pagetable (a % 2 ^ 64) (len - part va len)) e
    | no all ↦ let z : len - part va len ≡ 0 = omega arith in rw z refl
  ]

  copyin_from-user_bytes :
      (fuel va len : ℕ)
      → len ≤ fuel
      → copyin_from fuel m pagetable va len ≡ done (user_bytes m pagetable va len)
  unfolding copyin_from user_bytes
  copyin_from-user_bytes zero va len le =
      let z : len ≡ 0 = omega arith in ap (λ n. done (user_bytes m pagetable va n)) (sym z)
  copyin_from-user_bytes (suc fuel) va zero le = copyin-done fuel va
  copyin_from-user_bytes (suc fuel) va (suc n) le =
      let len = suc n in
      elim (Bool-cases (user_page m pagetable (round_down va) == 0)) [
        | inl z ↦
            copyin-stop fuel va len (omega arith) z
            ∙ ap done (sym (user_bytes-none va len (omega arith) z))
        | inr nz ↦
            let split : part va len + (len - part va len) ≡ len = omega arith in
            let ih =
              copyin_from-user_bytes fuel ((round_down va + page_size) % 2 ^ 64) (len - part va len)
                (omega arith) in
            copyin-turn fuel va len (omega arith) nz
            ∙ (ap
                  (λ o. o >>= (λ r. done (
                    then_bytes
                      (bytes_at (part va len) m
                        (user_page m pagetable (round_down va) + va % page_size))
                      r)))
                  ih
                ∙ ap done (
                    sym (
                      ap (user_bytes m pagetable va) (sym split)
                      ∙ (user_bytes-page (part va len) va (len - part va len) nz (omega arith)
                          ∙ ap
                              (then_bytes (
                                bytes_at (part va len) m
                                  (user_page m pagetable (round_down va) + va % page_size)))
                              (rest_at va len)))))
      ]

  -- `copyin` copies a page's part at a time, and gives the same as a copy of one byte after another, each looked up in
  -- the page table for itself: it fails exactly where one has no page, after the bytes before it.
  pub copyin-user_bytes :
      (va len : ℕ) → copyin m pagetable va len ≡ done (user_bytes m pagetable va len)
  unfolding copyin
  copyin-user_bytes va len = copyin_from-user_bytes len va len (omega arith)
