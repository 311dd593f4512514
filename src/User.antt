-- ===== src/User.antt =====
-- The library of user programs: `atoi` of user/ulib.c on the list of a string's bytes
-- without the 0 at its end, and `printint` of user/printf.c, which gives the bytes that it writes.
pub mod Decimal
use osn.Base.{
  ℕ, zero, suc, ◌+◌, ◌-◌, ◌*◌, ◌/◌, ◌%◌, ◌^◌, List, [], ◌∷◌, Bool, true, false, ◌&&◌, ◌==◌, leb,
  if◌then◌else◌,
}
use osn.Base.Word.{uint_mod, sub32}
use osn.Base.Int.{ℤ, to_int}

-- `'0' <= *s && *s <= '9'`
abbrev pub is_digit : ℕ → Bool
is_digit c = leb 48 c && leb c 57

-- The loop of `atoi`; `n` is the bit pattern of an `int`, and the arithmetic is the machine's, which wraps.
pub atoi_from : ℕ → List ℕ → ℕ
atoi_from n [] = n
atoi_from n (c ∷ s) = elim (is_digit c) [
  | true ↦ atoi_from ((n * 10 + c - 48) % uint_mod) s
  | false ↦ n
]

pub atoi : List ℕ → ℤ
unfolding to_int
atoi s = to_int (atoi_from 0 s)

-- `digits`
pub digit : ℕ → ℕ
digit d = if leb 10 d then 55 + d else 48 + d

-- The `do` loop with fuel: the bytes in `buf`, the last one first, which is the order in which they are written.
pub store_digits : ℕ → ℕ → ℕ → List ℕ → List ℕ
store_digits zero base x buf = buf
store_digits (suc fuel) base x buf = elim (x / base == 0) [
  | true ↦ digit (x % base) ∷ buf
  | false ↦ store_digits fuel base (x / base) (digit (x % base) ∷ buf)
]

-- `xx < 0`, for the bit pattern of an `int`.
abbrev pub is_negative : ℕ → Bool
is_negative xx = leb (2 ^ 31) xx

pub printint : ℕ → ℕ → Bool → List ℕ
printint xx base sgn =
    if sgn && is_negative xx
    then 45 ∷ store_digits (suc (sub32 0 xx)) base (sub32 0 xx) []
    else store_digits (suc xx) base xx []
