-- ===== src/Vm/Copyinstr.antt =====
-- `copyinstr` of kernel/vm.c and a copy of one byte after another up to a NUL.
use osn.Base.{
  ℕ, zero, suc, ◌+◌, ◌-◌, ◌%◌, ◌^◌, ◌≤◌, ◌<◌, ◌≡◌, inl, inr, refl, ap, ap₂, sym, ◌∙◌, List, [], ◌∷◌,
  Bool, true, false, ◌==◌, if◌then◌else◌, arith, dec_lt, Bool-cases, lt→ltb,
}
use osn.File.{Outcome, done, ◌>>=◌}
use osn.Kstring.{Memory}
use osn.Vm.{page_size, round_down, part, then_bytes, string_part, copyinstr_from, copyinstr}
use osn.Vm.Copyin.{user_page, walkaddr-user_page, no_wrap}

-- One byte after another, each looked up for itself, until a NUL, one that has no page, or the end.
pub user_string : Memory → ℕ → ℕ → ℕ → List ℕ × Bool
user_string m pagetable va zero = ([], false)
user_string m pagetable va (suc n) =
    let rest = user_string m pagetable ((va + 1) % 2 ^ 64) n in
    let x = m (user_page m pagetable (round_down va) + va % page_size) in
    if user_page m pagetable (round_down va) == 0
    then ([], false)
    else if x == 0
    then (0 ∷ [], true)
    else (x ∷ rest.0, rest.1)

-- A part of a string, and what follows where the part has no NUL.
abbrev pub after_part : List ℕ × Bool → List ℕ × Bool → List ℕ × Bool
after_part p r = if p.1 then p else then_bytes p.0 r

after_part-byte :
    (x : ℕ) (p r : List ℕ × Bool)
    → after_part (x ∷ p.0, p.1) r ≡ (x ∷ (after_part p r).0, (after_part p r).1)
after_part-byte x (xs, true) r = refl
after_part-byte x (xs, false) r = refl

module _ (m : Memory) (pagetable : ℕ) where
  -- The byte that the user has at an address.
  byte : ℕ → ℕ
  byte va = m (user_page m pagetable (round_down va) + va % page_size)

  user_string-none :
      (va n : ℕ)
      → (user_page m pagetable (round_down va) == 0) ≡ true
      → user_string m pagetable va n ≡ ([], false)
  unfolding user_string
  user_string-none va zero z = refl
  user_string-none va (suc n) z = rw z refl

  user_string-nul :
      (va n : ℕ)
      → (user_page m pagetable (round_down va) == 0) ≡ false
      → (byte va == 0) ≡ true
      → user_string m pagetable va (suc n) ≡ (0 ∷ [], true)
  unfolding user_string byte
  user_string-nul va n nz z = rw nz (rw z refl)

  user_string-byte :
      (va n : ℕ)
      → (user_page m pagetable (round_down va) == 0) ≡ false
      → (byte va == 0) ≡ false
      → user_string m pagetable va (suc n) ≡ (
        byte va ∷ (user_string m pagetable ((va + 1) % 2 ^ 64) n).0,
        (user_string m pagetable ((va + 1) % 2 ^ 64) n).1,
      )
  unfolding user_string byte
  user_string-byte va n nz z = rw nz (rw z refl)

  part-nul : (k a : ℕ) → (m a == 0) ≡ true → string_part (suc k) m a ≡ (0 ∷ [], true)
  unfolding string_part
  part-nul k a z = rw z refl

  part-byte :
      (k a : ℕ)
      → (m a == 0) ≡ false
      → string_part (suc k) m a ≡ (m a ∷ (string_part k m (a + 1)).0, (string_part k m (a + 1)).1)
  unfolding string_part
  part-byte k a z = rw z refl

  -- From one byte of a page to the next.
  next :
      (k va n : ℕ)
      → (user_page m pagetable (round_down va) == 0) ≡ false
      → va % page_size + suc k ≤ page_size
      → ((user_page m pagetable (round_down (va + 1)) == 0) ≡ false
          → (va + 1) % page_size + k ≤ page_size
          → user_string m pagetable (va + 1) (k + n)
            ≡ after_part
                (string_part k m
                  (user_page m pagetable (round_down (va + 1)) + (va + 1) % page_size))
                (user_string m pagetable ((va + 1 + k) % 2 ^ 64) n))
      → user_string m pagetable ((va + 1) % 2 ^ 64) (k + n)
        ≡ after_part
            (string_part k m (user_page m pagetable (round_down va) + va % page_size + 1))
            (user_string m pagetable ((va + suc k) % 2 ^ 64) n)
  unfolding string_part
  next zero va n nz le ih =
      let f : zero + n ≡ n = omega arith in ap (user_string m pagetable ((va + 1) % 2 ^ 64)) f
  next (suc k) va n nz le ih =
      let w = no_wrap m pagetable va nz in
      let step : (va + 1) % 2 ^ 64 ≡ va + 1 = omega (arith, w) in
      let page : round_down (va + 1) ≡ round_down va = omega arith in
      let index : (va + 1) % page_size ≡ va % page_size + 1 = omega arith in
      let end : va + 1 + suc k ≡ va + suc (suc k) = omega arith in
      let at : user_page m pagetable (round_down (va + 1)) + (va + 1) % page_size
          ≡ user_page m pagetable (round_down va) + va % page_size + 1 =
        ap₂ (λ a i. user_page m pagetable a + i) page index ∙ omega arith in
      ap (λ a. user_string m pagetable a (suc k + n)) step
      ∙ (ih (ap (λ a. user_page m pagetable a == 0) page ∙ nz) (omega arith)
          ∙ ap₂
              (λ a b. after_part (string_part (suc k) m a) (user_string m pagetable (b % 2 ^ 64) n))
              at end)

  -- The part of the string up to the end of a page is in that page.
  user_string-page :
      (k va n : ℕ)
      → (user_page m pagetable (round_down va) == 0) ≡ false
      → va % page_size + k ≤ page_size
      → user_string m pagetable va (k + n)
        ≡ after_part
            (string_part k m (user_page m pagetable (round_down va) + va % page_size))
            (user_string m pagetable ((va + k) % 2 ^ 64) n)
  unfolding string_part byte
  user_string-page zero va n nz le =
      let w = no_wrap m pagetable va nz in
      let e : (va + 0) % 2 ^ 64 ≡ va = omega (arith, w) in
      let f : 0 + n ≡ n = omega arith in
      ap (user_string m pagetable va) f ∙ ap (λ a. user_string m pagetable a n) (sym e)
  user_string-page (suc k) va n nz le =
      let f : suc k + n ≡ suc (k + n) = omega arith in
      let at = user_page m pagetable (round_down va) + va % page_size in
      ap (user_string m pagetable va) f ∙ elim (Bool-cases (byte va == 0)) [
        | inl z ↦
            user_string-nul va (k + n) nz z
            ∙ ap (λ p. after_part p (user_string m pagetable ((va + suc k) % 2 ^ 64) n))
                (sym (part-nul k at z))
        | inr c ↦
            user_string-byte va (k + n) nz c
            ∙ (ap {A = List ℕ × Bool} {B = List ℕ × Bool} (λ q. (byte va ∷ q.0, q.1))
                  (next k va n nz le (λ nz' le'. user_string-page k (va + 1) n nz' le'))
                ∙ (sym (
                      after_part-byte (byte va) (string_part k m (at + 1))
                        (user_string m pagetable ((va + suc k) % 2 ^ 64) n))
                    ∙ ap (λ p. after_part p (user_string m pagetable ((va + suc k) % 2 ^ 64) n))
                        (sym (part-byte k at c))))
      ]

  copyinstr-done : (fuel va : ℕ) → copyinstr_from (suc fuel) m pagetable va 0 ≡ done ([], false)
  unfolding copyinstr_from
  copyinstr-done fuel va = refl

  copyinstr-stop :
      (fuel va len : ℕ)
      → 0 < len
      → (user_page m pagetable (round_down va) == 0) ≡ true
      → copyinstr_from (suc fuel) m pagetable va len ≡ done ([], false)
  unfolding copyinstr_from
  copyinstr-stop fuel va len lt z =
      rw (copyinstr_from, lt→ltb 0 len lt)
        (rw (walkaddr-user_page m pagetable (round_down va)) (rw z refl))

  -- What is left to do after a part.
  with_rest : List ℕ × Bool → Outcome (List ℕ × Bool) → Outcome (List ℕ × Bool)
  with_rest here rest = elim here.1 [
    | true ↦ done here
    | false ↦ rest >>= (λ r. done (then_bytes here.0 r))
  ]

  with_rest-done : (here r : List ℕ × Bool) → with_rest here (done r) ≡ done (after_part here r)
  unfolding with_rest
  with_rest-done (xs, true) r = refl
  with_rest-done (xs, false) r = refl

  copyinstr-turn :
      (fuel va len : ℕ)
      → 0 < len
      → (user_page m pagetable (round_down va) == 0) ≡ false
      → copyinstr_from (suc fuel) m pagetable va len
        ≡ with_rest
            (string_part (part va len) m (user_page m pagetable (round_down va) + va % page_size))
            (copyinstr_from fuel m pagetable
              ((round_down va + page_size) % 2 ^ 64)
              (len - part va len))
  unfolding copyinstr_from with_rest
  copyinstr-turn fuel va len lt nz =
      rw (copyinstr_from, lt→ltb 0 len lt)
        (rw (walkaddr-user_page m pagetable (round_down va)) (rw nz refl))

  string_rest_at :
      (va len : ℕ)
      → user_string m pagetable ((va + part va len) % 2 ^ 64) (len - part va len)
        ≡ user_string m pagetable ((round_down va + page_size) % 2 ^ 64) (len - part va len)
  unfolding user_string
  string_rest_at va len = elim (dec_lt (page_size - va % page_size) len) [
    | yes more ↦
        let e : va + part va len ≡ round_down va + page_size = omega arith in
        ap (λ a. user_string m pagetable (a % 2 ^ 64) (len - part va len)) e
    | no all ↦ let z : len - part va len ≡ 0 = omega arith in rw z refl
  ]

  copyinstr_from-user_string :
      (fuel va len : ℕ)
      → len ≤ fuel
      → copyinstr_from fuel m pagetable va len ≡ done (user_string m pagetable va len)
  unfolding copyinstr_from user_string
  copyinstr_from-user_string zero va len le =
      let z : len ≡ 0 = omega arith in ap (λ n. done (user_string m pagetable va n)) (sym z)
  copyinstr_from-user_string (suc fuel) va zero le = copyinstr-done fuel va
  copyinstr_from-user_string (suc fuel) va (suc n) le =
      let len = suc n in
      elim (Bool-cases (user_page m pagetable (round_down va) == 0)) [
        | inl z ↦
            copyinstr-stop fuel va len (omega arith) z ∙ ap done (sym (user_string-none va len z))
        | inr nz ↦
            let split : part va len + (len - part va len) ≡ len = omega arith in
            let here =
              string_part (part va len) m
                (user_page m pagetable (round_down va) + va % page_size) in
            let ih =
              copyinstr_from-user_string fuel ((round_down va + page_size) % 2 ^ 64)
                (len - part va len) (omega arith) in
            copyinstr-turn fuel va len (omega arith) nz
            ∙ (ap (with_rest here) ih
                ∙ (with_rest-done here (
                      user_string m pagetable ((round_down va + page_size) % 2 ^ 64)
                        (len - part va len))
                    ∙ ap done (
                        sym (
                          ap (user_string m pagetable va) (sym split)
                          ∙ (user_string-page (part va len) va (len - part va len) nz (omega arith)
                              ∙ ap (after_part here) (string_rest_at va len))))))
      ]

  -- `copyinstr` copies a page's part at a time, and gives the same as a copy of one byte after another, each looked up
  -- in the page table for itself: up to and with the first NUL, or it fails where there is none in `max` bytes or a
  -- byte before it has no page.
  pub copyinstr-user_string :
      (va max : ℕ) → copyinstr m pagetable va max ≡ done (user_string m pagetable va max)
  unfolding copyinstr
  copyinstr-user_string va max = copyinstr_from-user_string max va max (omega arith)
