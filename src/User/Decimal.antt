-- ===== src/User/Decimal.antt =====
-- What `printint` of user/printf.c prints in base 10, and `atoi` of user/ulib.c reads.
use osn.Base.{
  ℕ, zero, suc, ◌+◌, ◌-◌, ◌*◌, ◌/◌, ◌%◌, ◌^◌, ◌<◌, ◌≡◌, refl, ap, ◌∙◌, List, [], ◌∷◌, Bool, true,
  ◌&&◌, ◌==◌, inl, inr, if◌then◌else◌, arith, Bool-cases,
}
use osn.Base.Word.{uint_mod, sub32}
use osn.Base.Int.{pos, to_int}
use osn.User.{atoi_from, atoi, is_digit, digit, store_digits, is_negative, printint}

digit_char : (d : ℕ) → d < 10 → digit d ≡ 48 + d
unfolding digit
digit_char d lt = ground arith

to_int_small : (x : ℕ) → x < 2 ^ 31 → to_int x ≡ pos x
unfolding to_int
to_int_small x lt = ground arith

-- A digit that is read.
read_digit :
    (n d : ℕ) (s : List ℕ)
    → d < 10
    → n * 10 + d < uint_mod
    → atoi_from n (digit d ∷ s) ≡ atoi_from (n * 10 + d) s
unfolding atoi_from
read_digit n d s lt small =
    let is : is_digit (48 + d) ≡ true = ground arith in
    let value : (n * 10 + (48 + d) - 48) % uint_mod ≡ n * 10 + d = omega arith in
    ap (λ c. atoi_from n (c ∷ s)) (digit_char d lt)
    ∙ rw (atoi_from, is) (ap (λ t. atoi_from t s) value)

-- The digits of `x` in front of a string, with fuel for each turn, read as `x`.
atoi-store_digits :
    (fuel x : ℕ) (s : List ℕ)
    → x < fuel
    → x < uint_mod
    → atoi_from 0 (store_digits fuel 10 x s) ≡ atoi_from x s
unfolding store_digits
atoi-store_digits zero x s lt small = omega (arith, lt)
atoi-store_digits (suc fuel) x s lt small = elim (Bool-cases (x / 10 == 0)) [
  | inl last ↦
      let e : 0 * 10 + x % 10 ≡ x = ground arith in
      rw (store_digits, last)
        (read_digit 0 (x % 10) s (omega arith) (omega arith) ∙ ap (λ t. atoi_from t s) e)
  | inr more ↦
      let lower : x / 10 < fuel = ground arith in
      let e : x / 10 * 10 + x % 10 ≡ x = omega arith in
      rw (store_digits, more)
        (atoi-store_digits fuel (x / 10) (digit (x % 10) ∷ s) lower (omega arith)
          ∙ (read_digit (x / 10) (x % 10) s (omega arith) (omega arith)
              ∙ ap (λ t. atoi_from t s) e))
]

-- The absolute value of the number that is printed, or its value as a `uint` without a sign.
abbrev pub magnitude : ℕ → Bool → ℕ
magnitude xx sgn = if sgn && is_negative xx then 2 ^ 32 - xx else xx

-- `printint` of an `int` in base 10 writes a minus exactly for a negative number that is printed with its sign, and then,
-- where the absolute value (or, without the sign, the value as a `uint`) fits in an `int`, so not for the smallest `int`,
-- bytes that `atoi` reads as this value.
pub atoi-printint :
    (xx : ℕ) (sgn : Bool)
    → xx < uint_mod
    → magnitude xx sgn < 2 ^ 31
    → (text : List ℕ) × (printint xx 10 sgn ≡ (if sgn && is_negative xx then 45 ∷ text else text))
      × (atoi text ≡ pos (magnitude xx sgn))
unfolding printint atoi atoi_from
atoi-printint xx sgn lt fits = elim (Bool-cases (sgn && is_negative xx)) [
  | inl minus ↦
      let e : sub32 0 xx ≡ magnitude xx sgn = ground arith in
      (
        store_digits (suc (sub32 0 xx)) 10 (sub32 0 xx) [],
        rw minus refl,
        ap to_int
              (atoi-store_digits (suc (sub32 0 xx)) (sub32 0 xx) [] (omega arith) (omega arith) ∙ e)
            ∙ to_int_small (magnitude xx sgn) fits,
      )
  | inr plain ↦
      let e : xx ≡ magnitude xx sgn = ground arith in
      (
        store_digits (suc xx) 10 xx [],
        rw plain refl,
        ap to_int (atoi-store_digits (suc xx) xx [] (omega arith) lt ∙ e)
            ∙ to_int_small (magnitude xx sgn) fits,
      )
]
